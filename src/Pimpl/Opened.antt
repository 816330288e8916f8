-- ===== src/Pimpl/Opened.antt =====
-- src/raspa_pimpl.h: what has been set up once `open_device` returns RASPA_SUCCESS.
use raspa.Prelude.{
  ℕ, ◌≡◌, refl, ap, sym, ◌∙◌, inl, inr, some, Bool, true, false, not, ◌||◌, arith, Bool-cases,
  Option-cases,
}
use mathlib.Core.Path.{subst}
use mathlib.Core.Option.{some-injective}
use raspa.Prelude.Int.{ℤ, pos, ltb_ℤ}
use raspa.DriverConfig.{check_driver_version, get_buffer_size}
use raspa.Pimpl.State.{World, RaspaPimpl, Step, and_then}
use raspa.Pimpl.DriverInfo.{
  is_sync, validate_buffer_size, get_audio_info_from_driver, open_handle, get_driver_buffers,
}
use raspa.Pimpl.Buffers.{set_driver_buffers, init_user_buffers}
use raspa.Pimpl.Converters.{init_sample_converter, is_negative}
use raspa.Pimpl.Lifecycle.{
  is_failure, open_gpio, open_converters, open_user_buffers, open_driver_buffers, open_buffers,
  open_sized, open_device, set_debug_flags, after_cleanup,
}
use raspa.Pimpl.Chain.{and_then-success, and_then_option-success, is_failure-none}
use raspa.Pimpl.ChannelSetup.{with_converters_of, init_sample_converter-success}
use raspa.Pimpl.Stages.{
  open_handle-success, get_driver_buffers-success, init_user_buffers-success, set_driver_buffers-eq,
  zeros_of,
}
use raspa.Pimpl.LateStages.{open_gpio-success}
use raspa.Pimpl.OpenState.{
  Parameters, Request, Setup, parameters_of, driver_parameters, request_of, setup_of,
  user_buffers_of, all_stages, IsOpen, get_audio_info-success, get_audio_info-flags,
}

covered : (a b : Bool) → (not a || (a || b)) ≡ true
covered true b = refl
covered false b = refl

-- The buffers and what their size depends on are not the converters' business.
buffers_kept :
    (done r : RaspaPimpl)
    → done ≡ with_converters_of r done
    → user_buffers_of r ≡ (some (zeros_of r), some (zeros_of r))
    → user_buffers_of done ≡ (some (zeros_of done), some (zeros_of done))
buffers_kept done r kept buffers =
    ap user_buffers_of kept
    ∙ buffers
    ∙ ap (λ (s : RaspaPimpl). (some (zeros_of s), some (zeros_of s))) (sym kept)

open_converters-success :
    (w : World) (q : Request) (callback user_data : ℕ) (r : RaspaPimpl)
    → (open_converters w callback user_data r).0 ≡ pos 0
    → setup_of r ≡ all_stages w q
    → user_buffers_of r ≡ (some (zeros_of r), some (zeros_of r))
    → IsOpen w q callback user_data (open_converters w callback user_data r).1
unfolding open_converters
open_converters-success w q callback user_data r h before buffers =
    let converted = init_sample_converter w r in
    let (a, next) =
      and_then-success is_failure (λ r. r) converted (open_gpio w callback user_data) refl h in
    let (kept, has) = init_sample_converter-success w r (is_failure-none _ a) in
    let (gpio, vals, usb, logger, e, gpio_runs, has_usb, running) =
      open_gpio-success w callback user_data converted.1 (rw next at h) in
    rw next (
      rw e (record {
        setup = ap setup_of kept ∙ before;
        user_buffers = buffers_kept converted.1 r kept buffers;
        converters = record { inputs = has.inputs; outputs = has.outputs };
        filter = covered (is_sync converted.1.platform_type) converted.1.delay_error_filter;
        gpio = gpio_runs;
        alsa = has_usb;
        logger = running;
        counter = refl;
        process_callback = (refl, refl);
      }))

-- The set-up as it stands before the user's buffers, and before the mapping.
abbrev with_user_buffers : RaspaPimpl → Setup
with_user_buffers r = (
  (r.device_opened, r.mmap_initialized, true),
  (r.device_handle, (request_of r, parameters_of r)),
)

abbrev with_mapping : RaspaPimpl → Setup
with_mapping r = ((r.device_opened, true, true), (r.device_handle, (request_of r, parameters_of r)))

user_buffers-allocated :
    (placed : RaspaPimpl) (step : Step)
    → step ≡ (
      pos 0,
      record placed {
        user_audio_in = some (zeros_of placed);
        user_audio_out = some (zeros_of placed);
        user_buffers_allocated = true;
      },
    )
    → user_buffers_of step.1 ≡ (some (zeros_of step.1), some (zeros_of step.1))
user_buffers-allocated placed step e =
    ap (λ (s : Step). user_buffers_of s.1) e
    ∙ ap (λ (s : Step). (some (zeros_of s.1), some (zeros_of s.1))) (sym e)

open_user_buffers-success :
    (w : World) (q : Request) (callback user_data : ℕ) (r done : RaspaPimpl)
    → open_user_buffers w callback user_data r ≡ some (pos 0, done)
    → with_user_buffers r ≡ all_stages w q
    → IsOpen w q callback user_data done
unfolding open_user_buffers
open_user_buffers-success w q callback user_data r done h before =
    elim (Option-cases (set_driver_buffers w r)) [
      | inl over ↦ absurd (ground (arith, rw over at h))
      | inr (placed, is_placed) ↦
          let (memory, size, places, cleared) = set_driver_buffers-eq w r placed is_placed in
          elim (Option-cases (init_user_buffers w placed)) [
            | inl failed ↦ absurd (ground (arith, rw (is_placed, failed) at h))
            | inr (step, made) ↦
                let allocated = init_user_buffers-success w placed step made in
                let rest = open_converters w callback user_data in
                let e : some (and_then is_negative (after_cleanup w) step rest)
                    ≡ some (pos 0, done) =
                  rw (is_placed, made) at h in
                let chain = some-injective _ _ e in
                let (passed, next) =
                  and_then-success is_negative (after_cleanup w) step rest refl
                    (ap (λ (s : Step). s.0) chain) in
                let opened : rest step.1 ≡ (pos 0, done) = sym next ∙ chain in
                let ready = ap (λ (s : Step). setup_of s.1) allocated in
                subst (λ (s : Step). IsOpen w q callback user_data s.1) opened
                  (open_converters-success w q callback user_data step.1
                    (ap (λ (s : Step). s.0) opened) (ready ∙ ap with_user_buffers cleared ∙ before)
                    (user_buffers-allocated placed step allocated))
          ]
    ]

open_buffers-success :
    (w : World) (q : Request) (callback user_data : ℕ) (r done : RaspaPimpl)
    → open_buffers w callback user_data r ≡ some (pos 0, done)
    → request_of r ≡ q
    → parameters_of r ≡ driver_parameters w
    → IsOpen w q callback user_data done
unfolding open_buffers open_driver_buffers
open_buffers-success w q callback user_data r done h request parameters =
    let (a, to_driver) =
      and_then_option-success is_negative (λ r. r) (open_handle w r)
        (open_driver_buffers w callback user_data) done refl h in
    let handle = open_handle-success w r a in
    let opened = (open_handle w r).1 in
    let (b, to_user) =
      and_then_option-success is_negative (after_cleanup w) (get_driver_buffers w opened)
        (open_user_buffers w callback user_data) done refl to_driver in
    let (memory, mapped) = get_driver_buffers-success w opened b in
    open_user_buffers-success w q callback user_data (get_driver_buffers w opened).1 done to_user (
      ap with_user_buffers mapped
      ∙ ap with_mapping handle
      ∙ ap (λ (s : Request × Parameters). ((true, true, true), (w.open_result, s)))
          (rw (request, parameters) refl))

validate_buffer_size-success :
    (w : World) (r : RaspaPimpl)
    → (validate_buffer_size w r).0 ≡ pos 0
    → ((validate_buffer_size w r).1 ≡ r) × (get_buffer_size w.sysfs ≡ r.buffer_size_in_frames)
unfolding validate_buffer_size
validate_buffer_size-success w r h = ground arith

-- The caller's request, with the flags that an earlier opening set
abbrev pub request : (buffer_size : ℤ) (signal_on_mode_sw run_log : Bool) → RaspaPimpl → Request
request buffer_size signal_on_mode_sw run_log r =
    (buffer_size, signal_on_mode_sw || r.detect_mode_sw, run_log || r.run_logger_enable)

set_debug_flags-request :
    (signal_on_mode_sw run_log : Bool) (r : RaspaPimpl)
    → (request_of (set_debug_flags signal_on_mode_sw run_log r)
        ≡ request r.buffer_size_in_frames signal_on_mode_sw run_log r)
      × (parameters_of (set_debug_flags signal_on_mode_sw run_log r) ≡ parameters_of r)
unfolding set_debug_flags
set_debug_flags-request true true r = (refl, refl)
set_debug_flags-request true false r = (refl, refl)
set_debug_flags-request false true r = (refl, refl)
set_debug_flags-request false false r = (refl, refl)

open_sized-success :
    (w : World) (buffer_size : ℤ) (callback user_data : ℕ) (signal_on_mode_sw run_log : Bool)
    (r done : RaspaPimpl)
    → open_sized w buffer_size callback user_data signal_on_mode_sw run_log r ≡ some (pos 0, done)
    → parameters_of r ≡ driver_parameters w
    → IsOpen w (request buffer_size signal_on_mode_sw run_log r) callback user_data done
      × (get_buffer_size w.sysfs ≡ buffer_size)
unfolding open_sized
open_sized-success w buffer_size callback user_data signal_on_mode_sw run_log r done h parameters =
    let sized : RaspaPimpl = record r { buffer_size_in_frames = buffer_size } in
    let (a, next) =
      and_then_option-success is_failure (λ r. r) (validate_buffer_size w sized)
        (λ r. open_buffers w callback user_data (set_debug_flags signal_on_mode_sw run_log r)) done
        refl h in
    let (same, agreed) = validate_buffer_size-success w sized (is_failure-none _ a) in
    let valid = (validate_buffer_size w sized).1 in
    let (flags, kept) = set_debug_flags-request signal_on_mode_sw run_log valid in
    (
      open_buffers-success w (request buffer_size signal_on_mode_sw run_log r) callback user_data
          (set_debug_flags signal_on_mode_sw run_log valid) done next
          (flags
            ∙ ap (λ (s : RaspaPimpl). request s.buffer_size_in_frames signal_on_mode_sw run_log s)
                same)
          (kept ∙ ap parameters_of same ∙ parameters),
      agreed,
    )

pub open_device-IsOpen :
    (w : World) (buffer_size : ℤ) (callback user_data : ℕ) (signal_on_mode_sw run_log : Bool)
    (r done : RaspaPimpl)
    → open_device w buffer_size callback user_data signal_on_mode_sw run_log r ≡ some (pos 0, done)
    → ((check_driver_version w.sysfs).0 ≡ true)
      × (get_buffer_size w.sysfs ≡ buffer_size)
      × IsOpen w (request buffer_size signal_on_mode_sw run_log r) callback user_data done
unfolding open_device
open_device-IsOpen w buffer_size callback user_data signal_on_mode_sw run_log r done h =
    elim (Bool-cases (check_driver_version w.sysfs).0) [
      | inl accepted ↦
          let rest = open_sized w buffer_size callback user_data signal_on_mode_sw run_log in
          let (a, next) =
            and_then_option-success is_failure (λ r. r) (get_audio_info_from_driver w r) rest done
              refl (rw accepted at h) in
          let info = (get_audio_info_from_driver w r).1 in
          let (mode_sw, logs) = get_audio_info-flags w r in
          let (is_open, agreed) =
            open_sized-success w buffer_size callback user_data signal_on_mode_sw run_log info done
              next (get_audio_info-success w r (is_failure-none _ a)) in
          let same : request buffer_size signal_on_mode_sw run_log info
              ≡ request buffer_size signal_on_mode_sw run_log r =
            rw (mode_sw, logs) refl in
          (accepted, agreed, subst (λ q. IsOpen w q callback user_data done) same is_open)
      | inr refused ↦ elim (Bool-cases (ltb_ℤ (check_driver_version w.sysfs).1 (pos 0))) [
        | inl unread ↦ absurd (ground (arith, rw (refused, unread) at h))
        | inr read ↦ absurd (ground (arith, rw (refused, read) at h))
      ]
    ]
