-- ===== src/Pimpl/StopFlag.antt =====
-- src/raspa_pimpl.h: nothing but the constructor clears `_stop_request_flag`.
use raspa.Prelude.{
  ℕ, ◌≡◌, refl, ap, sym, ◌∙◌, inl, inr, Option, some, Bool, true, false, arith, Bool-cases,
  Option-cases,
}
use mathlib.Core.Option.{some-injective}
use raspa.Prelude.Int.{ℤ, pos, ltb_ℤ}
use raspa.DriverConfig.{
  get_sample_rate, get_platform_type, get_usb_audio_type, get_num_input_chan, get_num_output_chan,
  get_audio_irq_affinity, check_driver_version,
}
use raspa.Pimpl.Stages.{init_user_buffers-success, set_driver_buffers-eq}
use raspa.Pimpl.State.{World, RaspaPimpl, Step, and_then, and_then_option}
use raspa.Pimpl.DriverInfo.{
  get_audio_info_from_driver, set_audio_info, set_num_chans, validate_buffer_size, open_handle,
  close_handle, get_driver_buffers, release_driver_buffers,
}
use raspa.Pimpl.Buffers.{set_driver_buffers, init_user_buffers, free_user_buffers}
use raspa.Pimpl.Converters.{
  init_sample_converter, init_all_converters, init_input_converters, init_output_converters,
  init_usb_converters, deinit_sample_converter, is_negative,
}
use raspa.Pimpl.Lifecycle.{
  stop_rt_task, delete_instances, cleanup, after_cleanup, is_failure, init_gpio_com, init_alsa_usb,
  start_run_logger, set_callback, init_delay_error_filter, open_logger, open_alsa, open_gpio,
  open_converters, open_user_buffers, open_driver_buffers, open_buffers, set_debug_flags,
  open_sized, open_device, start_realtime, close_device,
}

abbrev pub flag : RaspaPimpl → Bool
flag r = r.stop_request_flag

-- A step keeps the flag, and a chain of such steps does.
abbrev Keeps : Step → RaspaPimpl → Type 0
Keeps step r = flag step.1 ≡ flag r

and_then-Keeps :
    (fails : ℤ → Bool) (on_failure : RaspaPimpl → RaspaPimpl) (step : Step)
    (next : RaspaPimpl → Step) (r : RaspaPimpl)
    → Keeps step r
    → (flag (on_failure step.1) ≡ flag step.1)
    → Keeps (next step.1) step.1
    → Keeps (and_then fails on_failure step next) r
and_then-Keeps fails on_failure step next r kept failing going = elim (Bool-cases (fails step.0)) [
  | inl failed ↦ rw failed (failing ∙ kept)
  | inr passed ↦ rw passed (going ∙ kept)
]

stop_rt_task-Keeps : (w : World) (r : RaspaPimpl) → Keeps (stop_rt_task w r) r
unfolding stop_rt_task
stop_rt_task-Keeps w r = ground arith

free_user_buffers-Keeps : (r : RaspaPimpl) → flag (free_user_buffers r) ≡ flag r
unfolding free_user_buffers
free_user_buffers-Keeps r = ground arith

release_driver_buffers-Keeps : (w : World) (r : RaspaPimpl) → Keeps (release_driver_buffers w r) r
unfolding release_driver_buffers
release_driver_buffers-Keeps w r = ground arith

close_handle-Keeps : (w : World) (r : RaspaPimpl) → Keeps (close_handle w r) r
unfolding close_handle
close_handle-Keeps w r = ground arith

delete_instances-Keeps : (w : World) (r : RaspaPimpl) → flag (delete_instances w r) ≡ flag r
unfolding delete_instances deinit_sample_converter
delete_instances-Keeps w r = ground arith

cleanup-Keeps : (w : World) (r : RaspaPimpl) → Keeps (cleanup w r) r
unfolding cleanup
cleanup-Keeps w r =
    let stopped = (stop_rt_task w r).1 in
    let freed = free_user_buffers stopped in
    let released = (release_driver_buffers w freed).1 in
    delete_instances-Keeps w (close_handle w released).1
    ∙ close_handle-Keeps w released
    ∙ release_driver_buffers-Keeps w freed
    ∙ free_user_buffers-Keeps stopped
    ∙ stop_rt_task-Keeps w r

set_audio_info-Keeps :
    (rate platform usb : ℤ) (r : RaspaPimpl) → Keeps (set_audio_info rate platform usb r) r
unfolding set_audio_info set_num_chans
set_audio_info-Keeps rate platform usb r = ground arith

get_audio_info_from_driver-Keeps :
    (w : World) (r : RaspaPimpl) → Keeps (get_audio_info_from_driver w r) r
unfolding get_audio_info_from_driver
get_audio_info_from_driver-Keeps w r = ground (
  arith,
  set_audio_info-Keeps (get_sample_rate w.sysfs) (get_platform_type w.sysfs)
      (get_usb_audio_type w.sysfs)
      (record r {
        num_driver_input_chans = get_num_input_chan w.sysfs;
        num_driver_output_chans = get_num_output_chan w.sysfs;
        cpu_affinity = get_audio_irq_affinity w.sysfs;
      }),
)

validate_buffer_size-Keeps : (w : World) (r : RaspaPimpl) → Keeps (validate_buffer_size w r) r
unfolding validate_buffer_size
validate_buffer_size-Keeps w r = ground arith

open_handle-Keeps : (w : World) (r : RaspaPimpl) → Keeps (open_handle w r) r
unfolding open_handle
open_handle-Keeps w r = ground arith

get_driver_buffers-Keeps : (w : World) (r : RaspaPimpl) → Keeps (get_driver_buffers w r) r
unfolding get_driver_buffers
get_driver_buffers-Keeps w r = ground arith

init_user_buffers-Keeps :
    (w : World) (r : RaspaPimpl) (step : Step) → init_user_buffers w r ≡ some step → Keeps step r
init_user_buffers-Keeps w r step h =
    ap (λ (s : Step). flag s.1) (init_user_buffers-success w r step h)

set_driver_buffers-Keeps :
    (w : World) (r t : RaspaPimpl) → set_driver_buffers w r ≡ some t → flag t ≡ flag r
set_driver_buffers-Keeps w r t h =
    let (memory, size, places, e) = set_driver_buffers-eq w r t h in ap flag e

init_sample_converter-Keeps : (w : World) (r : RaspaPimpl) → Keeps (init_sample_converter w r) r
unfolding init_sample_converter init_all_converters init_input_converters init_output_converters
    init_usb_converters
init_sample_converter-Keeps w r = ground arith

init_gpio_com-Keeps : (w : World) (r : RaspaPimpl) → Keeps (init_gpio_com w r) r
unfolding init_gpio_com
init_gpio_com-Keeps w r = ground arith

open_logger-Keeps :
    (w : World) (callback user_data : ℕ) (r : RaspaPimpl)
    → Keeps (open_logger w callback user_data r) r
unfolding open_logger start_run_logger set_callback
open_logger-Keeps w callback user_data r = ground arith

init_alsa_usb-Keeps : (w : World) (r : RaspaPimpl) → Keeps (init_alsa_usb w r) r
unfolding init_alsa_usb
init_alsa_usb-Keeps w r = ground arith

open_alsa-Keeps :
    (w : World) (callback user_data : ℕ) (r : RaspaPimpl)
    → Keeps (open_alsa w callback user_data r) r
unfolding open_alsa
open_alsa-Keeps w callback user_data r =
    let made = init_alsa_usb w r in
    and_then-Keeps is_failure (λ r. r) made (open_logger w callback user_data) r
      (init_alsa_usb-Keeps w r) refl (open_logger-Keeps w callback user_data made.1)

open_gpio-Keeps :
    (w : World) (callback user_data : ℕ) (r : RaspaPimpl)
    → Keeps (open_gpio w callback user_data r) r
unfolding open_gpio init_delay_error_filter
open_gpio-Keeps w callback user_data r =
    let filtered = init_delay_error_filter r in
    let same : flag filtered ≡ flag r = ground arith in
    let gpio = init_gpio_com w filtered in
    and_then-Keeps is_failure (λ r. r) gpio (open_alsa w callback user_data) filtered
      (init_gpio_com-Keeps w filtered) refl (open_alsa-Keeps w callback user_data gpio.1)
    ∙ same

open_converters-Keeps :
    (w : World) (callback user_data : ℕ) (r : RaspaPimpl)
    → Keeps (open_converters w callback user_data r) r
unfolding open_converters
open_converters-Keeps w callback user_data r =
    let made = init_sample_converter w r in
    and_then-Keeps is_failure (λ r. r) made (open_gpio w callback user_data) r
      (init_sample_converter-Keeps w r) refl (open_gpio-Keeps w callback user_data made.1)

-- Where it is defined, a step keeps the flag.
abbrev KeepsOption : Option Step → RaspaPimpl → Type 0
KeepsOption o r = (step : Step) → o ≡ some step → Keeps step r

and_then_option-Keeps :
    (fails : ℤ → Bool) (on_failure : RaspaPimpl → RaspaPimpl) (step : Step)
    (next : RaspaPimpl → Option Step) (r : RaspaPimpl)
    → Keeps step r
    → (flag (on_failure step.1) ≡ flag step.1)
    → KeepsOption (next step.1) step.1
    → KeepsOption (and_then_option fails on_failure step next) r
and_then_option-Keeps fails on_failure step next r kept failing going done h =
    elim (Bool-cases (fails step.0)) [
      | inl failed ↦
          let e : some (step.0, on_failure step.1) ≡ some done = rw failed at h in
          ap (λ (s : Step). flag s.1) (sym (some-injective _ _ e)) ∙ failing ∙ kept
      | inr passed ↦ going done (rw passed at h) ∙ kept
    ]

open_user_buffers-Keeps :
    (w : World) (callback user_data : ℕ) (r : RaspaPimpl)
    → KeepsOption (open_user_buffers w callback user_data r) r
unfolding open_user_buffers
open_user_buffers-Keeps w callback user_data r done h =
    elim (Option-cases (set_driver_buffers w r)) [
      | inl over ↦ absurd (ground (arith, rw over at h))
      | inr (placed, is_placed) ↦ elim (Option-cases (init_user_buffers w placed)) [
        | inl failed ↦ absurd (ground (arith, rw (is_placed, failed) at h))
        | inr (made, is_made) ↦
            let rest = open_converters w callback user_data in
            let e : some (and_then is_negative (after_cleanup w) made rest) ≡ some done =
              rw (is_placed, is_made) at h in
            ap (λ (s : Step). flag s.1) (sym (some-injective _ _ e))
            ∙ and_then-Keeps is_negative (after_cleanup w) made rest placed
                (init_user_buffers-Keeps w placed made is_made) (cleanup-Keeps w made.1)
                (open_converters-Keeps w callback user_data made.1)
            ∙ set_driver_buffers-Keeps w r placed is_placed
      ]
    ]

open_driver_buffers-Keeps :
    (w : World) (callback user_data : ℕ) (r : RaspaPimpl)
    → KeepsOption (open_driver_buffers w callback user_data r) r
unfolding open_driver_buffers
open_driver_buffers-Keeps w callback user_data r =
    let mapped = get_driver_buffers w r in
    and_then_option-Keeps is_negative (after_cleanup w) mapped
      (open_user_buffers w callback user_data) r (get_driver_buffers-Keeps w r)
      (cleanup-Keeps w mapped.1) (open_user_buffers-Keeps w callback user_data mapped.1)

open_buffers-Keeps :
    (w : World) (callback user_data : ℕ) (r : RaspaPimpl)
    → KeepsOption (open_buffers w callback user_data r) r
unfolding open_buffers
open_buffers-Keeps w callback user_data r =
    let opened = open_handle w r in
    and_then_option-Keeps is_negative (λ r. r) opened (open_driver_buffers w callback user_data) r
      (open_handle-Keeps w r) refl (open_driver_buffers-Keeps w callback user_data opened.1)

open_sized-Keeps :
    (w : World) (buffer_size : ℤ) (callback user_data : ℕ) (mode_sw run_log : Bool) (r : RaspaPimpl)
    → KeepsOption (open_sized w buffer_size callback user_data mode_sw run_log r) r
unfolding open_sized set_debug_flags
open_sized-Keeps w buffer_size callback user_data mode_sw run_log r =
    let sized = record r { buffer_size_in_frames = buffer_size } in
    let valid = validate_buffer_size w sized in
    and_then_option-Keeps is_failure (λ r. r) valid
      (λ r. open_buffers w callback user_data (set_debug_flags mode_sw run_log r)) sized
      (validate_buffer_size-Keeps w sized) refl
      (open_buffers-Keeps w callback user_data (set_debug_flags mode_sw run_log valid.1))

-- Opening leaves the flag of an earlier stop as it is, however it ends.
pub open_device-Keeps :
    (w : World) (buffer_size : ℤ) (callback user_data : ℕ) (mode_sw run_log : Bool) (r : RaspaPimpl)
    → KeepsOption (open_device w buffer_size callback user_data mode_sw run_log r) r
unfolding open_device
open_device-Keeps w buffer_size callback user_data mode_sw run_log r done h =
    let info = get_audio_info_from_driver w r in
    let rest = open_sized w buffer_size callback user_data mode_sw run_log in
    elim (Bool-cases (check_driver_version w.sysfs).0) [
      | inl accepted ↦
          and_then_option-Keeps is_failure (λ r. r) info rest r
            (get_audio_info_from_driver-Keeps w r) refl
            (open_sized-Keeps w buffer_size callback user_data mode_sw run_log info.1) done
            (rw accepted at h)
      | inr refused ↦ elim (Bool-cases (ltb_ℤ (check_driver_version w.sysfs).1 (pos 0))) [
        | inl unread ↦ ground (arith, rw (refused, unread) at h)
        | inr read ↦ ground (arith, rw (refused, read) at h)
      ]
    ]

pub start_realtime-Keeps : (w : World) (r : RaspaPimpl) → flag (start_realtime w r).1 ≡ flag r
unfolding start_realtime
start_realtime-Keeps w r = ground (arith, cleanup-Keeps w (record r { task_started = false }))

-- Closing sets it, and the clean-up leaves it set.
pub close_device-sets : (w : World) (r : RaspaPimpl) → flag (close_device w r).1 ≡ true
unfolding close_device
close_device-sets w r = ground (arith, cleanup-Keeps w (record r { stop_request_flag = true }))
