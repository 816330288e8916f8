-- ===== src/Pimpl/LateStages.antt =====
-- src/raspa_pimpl.h: the last stages of `open_device`, from the delay filter on, that end well.
use raspa.Prelude.{
  ℕ, ◌≡◌, refl, ap, sym, ◌∙◌, ◌⊎◌, inl, inr, Option, some, true, false, not, ◌||◌, arith,
  Bool-cases,
}
use raspa.Prelude.Int.{ℤ, pos, pos_part}
use mathlib.Core.Path.{subst}
use raspa.Binary32.{float_to_int}
use raspa.AlsaUsb.{RaspaAlsaUsb, raspa_alsa_usb}
use raspa.AlsaUsb.Setup
use raspa.AlsaUsb.Ready.{IsReady, init-IsReady}
use raspa.Pimpl.Layout.{num_alsa_usb_channels}
use raspa.GpioCom.{RaspaGpioCom}
use raspa.RunLogger
use raspa.RunLogger.{RunLogger}
use raspa.ErrorCodes.{ErrorVals}
use raspa.Pimpl.State.{World, RaspaPimpl, Step}
use raspa.Pimpl.DriverInfo.{is_native, is_sync, is_native_alsa}
use raspa.Pimpl.Lifecycle.{
  init_gpio_com, init_alsa_usb, start_run_logger, is_failure, set_callback, open_logger, open_alsa,
  open_gpio, init_delay_error_filter,
}
use raspa.Pimpl.Chain.{and_then-success, is_failure-none}
use raspa.Pimpl.Stages.{gpio_is_running, init_gpio_com-success}

-- Where the driver has native USB audio, its object is ready for the rate and the buffer size of
-- raspa.
abbrev pub HasUsb : World → RaspaPimpl → Option RaspaAlsaUsb → Type 0
HasUsb w r usb =
    (is_native_alsa r.usb_audio_type ≡ false)
    ⊎ ((a : RaspaAlsaUsb) × (usb ≡ some a)
        × IsReady w.alsa (pos_part (float_to_int r.sample_rate)) (pos_part r.buffer_size_in_frames)
            num_alsa_usb_channels a)

init_alsa_usb-success :
    (w : World) (r : RaspaPimpl)
    → (init_alsa_usb w r).0 ≡ pos 0
    → (usb : Option RaspaAlsaUsb) × ((init_alsa_usb w r).1 ≡ record r { alsa_usb = usb })
      × HasUsb w r usb
unfolding init_alsa_usb
init_alsa_usb-success w r h =
    let srate = pos_part (float_to_int r.sample_rate) in
    let frames = pos_part r.buffer_size_in_frames in
    let made = Setup.init w.alsa srate frames num_alsa_usb_channels raspa_alsa_usb in
    elim (Bool-cases (is_native_alsa r.usb_audio_type)) [
      | inl usb ↦ elim (Bool-cases (is_failure made.0)) [
        | inl failed ↦ absurd (ground (arith, rw (usb, failed) at h))
        | inr passed ↦ (
          some (made.1),
          rw (usb, passed) refl,
          inr (
            made.1,
            refl,
            init-IsReady w.alsa srate frames num_alsa_usb_channels raspa_alsa_usb made.1
                (ap (λ (res : ℤ). (res, made.1)) (is_failure-none made.0 passed)),
          ),
        )
      ]
      | inr without ↦ (r.alsa_usb, rw without refl, inl without)
    ]

start_run_logger-success :
    (w : World) (r : RaspaPimpl)
    → (start_run_logger w r).0 ≡ pos 0
    → (logger : RunLogger) × ((start_run_logger w r).1 ≡ record r { run_logger = logger })
      × ((not r.run_logger_enable || logger.is_running) ≡ true)
unfolding start_run_logger RunLogger.start
start_run_logger-success w r h = elim (Bool-cases r.run_logger_enable) [
  | inl enabled ↦ elim (Bool-cases w.log_opens) [
    | inl opens ↦
        ((start_run_logger w r).1.run_logger, rw (enabled, opens) refl, rw (enabled, opens) refl)
    | inr failed ↦ ground arith
  ]
  | inr disabled ↦ (r.run_logger, rw disabled refl, rw disabled refl)
]

open_logger-success :
    (w : World) (callback user_data : ℕ) (r : RaspaPimpl)
    → (open_logger w callback user_data r).0 ≡ pos 0
    → (logger : RunLogger) × ((open_logger w callback user_data r).1 ≡ record r {
      run_logger = logger;
      interrupts_counter = pos 0;
      user_callback = callback;
      user_data = user_data;
    })
      × ((not r.run_logger_enable || logger.is_running) ≡ true)
unfolding open_logger set_callback
open_logger-success w callback user_data r h =
    let (passed, next) =
      and_then-success is_failure (λ r. r) (start_run_logger w r) (set_callback callback user_data)
        refl h in
    let (logger, e, running) = start_run_logger-success w r (is_failure-none _ passed) in
    (logger, rw (next, e) refl, running)

open_alsa-success :
    (w : World) (callback user_data : ℕ) (r : RaspaPimpl)
    → (open_alsa w callback user_data r).0 ≡ pos 0
    → (usb : Option RaspaAlsaUsb) × (logger : RunLogger) × ((open_alsa w callback user_data r).1
        ≡ record r {
          alsa_usb = usb;
          run_logger = logger;
          interrupts_counter = pos 0;
          user_callback = callback;
          user_data = user_data;
        })
      × HasUsb w r usb
      × ((not r.run_logger_enable || logger.is_running) ≡ true)
unfolding open_alsa
open_alsa-success w callback user_data r h =
    let (a, next) =
      and_then-success is_failure (λ r. r) (init_alsa_usb w r) (open_logger w callback user_data)
        refl h in
    let (usb, with_alsa, has_usb) = init_alsa_usb-success w r (is_failure-none _ a) in
    let (logger, e, running) =
      open_logger-success w callback user_data (init_alsa_usb w r).1 (rw next at h) in
    (
      usb,
      logger,
      ap (λ (s : Step). s.1) next
          ∙ e
          ∙ ap
              (λ (s : RaspaPimpl). record s {
                run_logger = logger;
                interrupts_counter = pos 0;
                user_callback = callback;
                user_data = user_data;
              })
              with_alsa,
      has_usb,
      ap (λ (s : RaspaPimpl). not s.run_logger_enable || logger.is_running) (sym with_alsa)
          ∙ running,
    )

init_delay_error_filter-eq :
    (r : RaspaPimpl)
    → init_delay_error_filter r
      ≡ record r { delay_error_filter = is_sync r.platform_type || r.delay_error_filter }
unfolding init_delay_error_filter
init_delay_error_filter-eq r = elim (Bool-cases (is_sync r.platform_type)) [
  | inl e ↦ simp e
  | inr e ↦ simp e
]

abbrev pub late_fields :
    Option RaspaGpioCom
    → ErrorVals
    → Option RaspaAlsaUsb
    → RunLogger
    → (callback user_data : ℕ) → RaspaPimpl
    → RaspaPimpl
late_fields gpio vals usb logger callback user_data r = record r {
  delay_error_filter = is_sync r.platform_type || r.delay_error_filter;
  gpio_com = gpio;
  error_vals = vals;
  alsa_usb = usb;
  run_logger = logger;
  interrupts_counter = pos 0;
  user_callback = callback;
  user_data = user_data;
}

pub open_gpio-success :
    (w : World) (callback user_data : ℕ) (r : RaspaPimpl)
    → (open_gpio w callback user_data r).0 ≡ pos 0
    → (gpio : Option RaspaGpioCom) × (vals : ErrorVals) × (usb : Option RaspaAlsaUsb)
      × (logger : RunLogger) × ((open_gpio w callback user_data r).1
          ≡ late_fields gpio vals usb logger callback user_data r)
      × ((is_native r.platform_type || gpio_is_running gpio) ≡ true)
      × HasUsb w r usb
      × ((not r.run_logger_enable || logger.is_running) ≡ true)
unfolding open_gpio
open_gpio-success w callback user_data r h =
    let filtered = init_delay_error_filter r in
    let with_filter = init_delay_error_filter-eq r in
    let (a, next) =
      and_then-success is_failure (λ r. r) (init_gpio_com w filtered)
        (open_alsa w callback user_data) refl h in
    let (gpio, vals, with_gpio, gpio_runs) =
      init_gpio_com-success w filtered (is_failure-none _ a) in
    let with_both =
      with_gpio
      ∙ ap (λ (s : RaspaPimpl). record s { gpio_com = gpio; error_vals = vals }) with_filter in
    let (usb, logger, e, has_usb, running) =
      open_alsa-success w callback user_data (init_gpio_com w filtered).1 (rw next at h) in
    (
      gpio,
      vals,
      usb,
      logger,
      ap (λ (s : Step). s.1) next
          ∙ e
          ∙ ap
              (λ (s : RaspaPimpl). record s {
                alsa_usb = usb;
                run_logger = logger;
                interrupts_counter = pos 0;
                user_callback = callback;
                user_data = user_data;
              })
              with_both,
      ap (λ (s : RaspaPimpl). is_native s.platform_type || gpio_is_running gpio) (sym with_filter)
          ∙ gpio_runs,
      subst (λ (s : RaspaPimpl). HasUsb w s usb) with_both has_usb,
      ap (λ (s : RaspaPimpl). not s.run_logger_enable || logger.is_running) (sym with_both)
          ∙ running,
    )
