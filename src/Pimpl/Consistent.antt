-- ===== src/Pimpl/Consistent.antt =====
-- src/raspa_pimpl.h: what `open_device` and `start_realtime` make of an object that holds nothing.
use raspa.Prelude.{
  ℕ, ◌≡◌, refl, ap, ◌∙◌, inl, inr, some, Bool, false, arith, Bool-cases, Option-cases,
}
use mathlib.Core.Option.{some-injective}
use mathlib.Core.Path.{subst}
use raspa.Prelude.Int.{ℤ, pos, ltb_ℤ}
use raspa.DriverConfig.{check_driver_version}
use raspa.Pimpl.State.{World, RaspaPimpl, Step, and_then}
use raspa.Pimpl.DriverInfo.{
  get_audio_info_from_driver, set_audio_info, set_num_chans, validate_buffer_size, open_handle,
  get_driver_buffers,
}
use raspa.Pimpl.Buffers.{set_driver_buffers, init_user_buffers}
use raspa.Pimpl.Converters.{init_sample_converter, is_negative}
use raspa.Pimpl.Lifecycle.{
  after_cleanup, is_failure, init_gpio_com, init_alsa_usb, init_delay_error_filter, open_logger,
  open_alsa, open_gpio, open_converters, open_user_buffers, open_driver_buffers, open_buffers,
  set_debug_flags, open_sized, open_device, start_realtime,
}
use raspa.Pimpl.Stages.{init_user_buffers-success, set_driver_buffers-eq}
use raspa.Pimpl.Cleanup.{IsConsistent, IsReleased, NoInstances, IsConsistent-of}
use raspa.Pimpl.Instances.{
  Ends, and_then-Ends, and_then_option-Ends, held, NoInstances-of, NoInstances-IsConsistent,
  IsReleased-NoInstances, cleanup-IsConsistent, init_sample_converter-IsConsistent,
  init_delay_error_filter-IsConsistent, init_gpio_com-IsConsistent, init_alsa_usb-instances,
  open_logger-IsConsistent,
}

open_gpio-IsConsistent :
    (w : World) (callback user_data : ℕ) (r : RaspaPimpl)
    → IsConsistent r
    → IsConsistent (open_gpio w callback user_data r).1
unfolding open_gpio open_alsa
open_gpio-IsConsistent w callback user_data r h =
    let filtered = init_delay_error_filter r in
    let with_gpio = (init_gpio_com w filtered).1 in
    let with_alsa = (init_alsa_usb w with_gpio).1 in
    let gpio = init_gpio_com-IsConsistent w filtered (init_delay_error_filter-IsConsistent r h) in
    let alsa = IsConsistent-of with_gpio with_alsa (init_alsa_usb-instances w with_gpio) gpio in
    and_then-Ends IsConsistent is_failure (λ r. r) (init_gpio_com w filtered)
      (open_alsa w callback user_data) gpio
      (and_then-Ends IsConsistent is_failure (λ r. r) (init_alsa_usb w with_gpio)
        (open_logger w callback user_data) alsa
        (open_logger-IsConsistent w callback user_data with_alsa alsa))

open_converters-IsConsistent :
    (w : World) (callback user_data : ℕ) (r : RaspaPimpl)
    → NoInstances r
    → IsConsistent (open_converters w callback user_data r).1
unfolding open_converters
open_converters-IsConsistent w callback user_data r h =
    let made = init_sample_converter-IsConsistent w r h in
    and_then-Ends IsConsistent is_failure (λ r. r) (init_sample_converter w r)
      (open_gpio w callback user_data) made
      (open_gpio-IsConsistent w callback user_data (init_sample_converter w r).1 made)

-- Cleaning up what holds no instances leaves it consistent.
without_instances :
    (w : World) (r t : RaspaPimpl)
    → held t ≡ held r
    → NoInstances r
    → IsConsistent (after_cleanup w t)
without_instances w r t e h =
    cleanup-IsConsistent w t (NoInstances-IsConsistent t (NoInstances-of r t e h))

open_user_buffers-IsConsistent :
    (w : World) (callback user_data : ℕ) (r : RaspaPimpl)
    → NoInstances r
    → Ends IsConsistent (open_user_buffers w callback user_data r)
unfolding open_user_buffers
open_user_buffers-IsConsistent w callback user_data r h done e =
    elim (Option-cases (set_driver_buffers w r)) [
      | inl over ↦ absurd (ground (arith, rw over at e))
      | inr (placed, is_placed) ↦ elim (Option-cases (init_user_buffers w placed)) [
        | inl failed ↦ absurd (ground (arith, rw (is_placed, failed) at e))
        | inr (made, is_made) ↦
            let rest = open_converters w callback user_data in
            let (memory, size, places, cleared) = set_driver_buffers-eq w r placed is_placed in
            let same =
              ap (λ (s : Step). held s.1) (init_user_buffers-success w placed made is_made)
              ∙ ap held cleared in
            let goes : some (and_then is_negative (after_cleanup w) made rest) ≡ some done =
              rw (is_placed, is_made) at e in
            subst (λ (s : Step). IsConsistent s.1) (some-injective _ _ goes)
              (and_then-Ends IsConsistent is_negative (after_cleanup w) made rest
                (without_instances w r made.1 same h)
                (open_converters-IsConsistent w callback user_data made.1
                  (NoInstances-of r made.1 same h)))
      ]
    ]

open_handle-held :
    (w : World) (r : RaspaPimpl)
    → (held (open_handle w r).1 ≡ held r) × (held (get_driver_buffers w r).1 ≡ held r)
unfolding open_handle get_driver_buffers
open_handle-held w r = (ground arith, ground arith)

open_buffers-IsConsistent :
    (w : World) (callback user_data : ℕ) (r : RaspaPimpl)
    → NoInstances r
    → Ends IsConsistent (open_buffers w callback user_data r)
unfolding open_buffers open_driver_buffers
open_buffers-IsConsistent w callback user_data r h =
    let opened = (open_handle w r).1 in
    let mapped = (get_driver_buffers w opened).1 in
    let still = NoInstances-of r opened (open_handle-held w r).0 h in
    let same = (open_handle-held w opened).1 in
    and_then_option-Ends IsConsistent is_negative (λ r. r) (open_handle w r)
      (open_driver_buffers w callback user_data) (NoInstances-IsConsistent opened still)
      (and_then_option-Ends IsConsistent is_negative (after_cleanup w) (get_driver_buffers w opened)
        (open_user_buffers w callback user_data) (without_instances w opened mapped same still)
        (open_user_buffers-IsConsistent w callback user_data mapped
          (NoInstances-of opened mapped same still)))

first_stages-held :
    (w : World) (signal_on_mode_sw run_log : Bool) (r : RaspaPimpl)
    → (held (get_audio_info_from_driver w r).1 ≡ held r)
      × (held (validate_buffer_size w r).1 ≡ held r)
      × (held (set_debug_flags signal_on_mode_sw run_log r) ≡ held r)
unfolding get_audio_info_from_driver set_audio_info set_num_chans validate_buffer_size
    set_debug_flags
first_stages-held w signal_on_mode_sw run_log r = (ground arith, ground arith, ground arith)

open_sized-IsConsistent :
    (w : World) (buffer_size : ℤ) (callback user_data : ℕ) (signal_on_mode_sw run_log : Bool)
    (r : RaspaPimpl)
    → NoInstances r
    → Ends IsConsistent (open_sized w buffer_size callback user_data signal_on_mode_sw run_log r)
unfolding open_sized
open_sized-IsConsistent w buffer_size callback user_data signal_on_mode_sw run_log r h =
    let sized : RaspaPimpl = record r { buffer_size_in_frames = buffer_size } in
    let valid = (validate_buffer_size w sized).1 in
    let flagged = set_debug_flags signal_on_mode_sw run_log valid in
    let still =
      NoInstances-of r valid ((first_stages-held w signal_on_mode_sw run_log sized).1) h in
    and_then_option-Ends IsConsistent is_failure (λ r. r) (validate_buffer_size w sized)
      (λ r. open_buffers w callback user_data (set_debug_flags signal_on_mode_sw run_log r))
      (NoInstances-IsConsistent valid still)
      (open_buffers-IsConsistent w callback user_data flagged (
        NoInstances-of valid flagged ((first_stages-held w signal_on_mode_sw run_log valid).2)
          still))

-- However opening ends, the object has the instances of its platform, its kind of USB audio and its
-- flags only, if it held nothing before.
pub open_device-IsConsistent :
    (w : World) (buffer_size : ℤ) (callback user_data : ℕ) (signal_on_mode_sw run_log : Bool)
    (r : RaspaPimpl)
    → IsReleased r
    → Ends IsConsistent (open_device w buffer_size callback user_data signal_on_mode_sw run_log r)
unfolding open_device
open_device-IsConsistent w buffer_size callback user_data signal_on_mode_sw run_log r released done
      e =
    let h = IsReleased-NoInstances r released in
    let info = (get_audio_info_from_driver w r).1 in
    let rest = open_sized w buffer_size callback user_data signal_on_mode_sw run_log in
    let still = NoInstances-of r info ((first_stages-held w signal_on_mode_sw run_log r).0) h in
    elim (Bool-cases (check_driver_version w.sysfs).0) [
      | inl accepted ↦
          and_then_option-Ends IsConsistent is_failure (λ r. r) (get_audio_info_from_driver w r)
            rest (NoInstances-IsConsistent info still)
            (open_sized-IsConsistent w buffer_size callback user_data signal_on_mode_sw run_log info
              still)
            done (rw accepted at e)
      | inr refused ↦
          let same : held done.1 ≡ held r = ground (arith, rw refused at e) in
          NoInstances-IsConsistent done.1 (NoInstances-of r done.1 same h)
    ]

-- So has one that is started, whatever comes of it.
pub start_realtime-IsConsistent :
    (w : World) (r : RaspaPimpl) → IsConsistent r → IsConsistent (start_realtime w r).1
unfolding start_realtime
start_realtime-IsConsistent w r h =
    let ready : RaspaPimpl = record r { task_started = false } in
    let cleaned = cleanup-IsConsistent w ready (IsConsistent-of r ready refl h) in
    elim (Bool-cases (is_failure w.setaffinity_result)) [
      | inl failed ↦ rw failed (IsConsistent-of (after_cleanup w ready) _ refl cleaned)
      | inr pinned ↦ elim (Bool-cases (is_failure w.create_result)) [
        | inl failed ↦ rw (pinned, failed) (IsConsistent-of (after_cleanup w ready) _ refl cleaned)
        | inr created ↦ elim (Bool-cases (ltb_ℤ w.proc_start_result (pos 0))) [
          | inl failed ↦ rw (pinned, created, failed) (IsConsistent-of r _ refl h)
          | inr started ↦ rw (pinned, created, started) (IsConsistent-of r _ refl h)
        ]
      ]
    ]
