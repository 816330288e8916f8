-- ===== src/Pimpl/Lifecycle.antt =====
-- src/raspa_pimpl.h: opening, starting and closing raspa, and the clean-up.
use raspa.Prelude.{ℕ, Option, none, some, Bool, true, false, not, if◌then◌else◌, bit_or, ◌>>=◌}
use raspa.Prelude.Int.{ℤ, pos, pos_part, ltb_ℤ}
use raspa.Prelude.Word.{signed32, pattern32}
use raspa.DriverConfig.{check_driver_version, eq_ℤ}
use raspa.GpioCom
use raspa.GpioCom.{raspa_gpio_com}
use raspa.Binary32.{float_to_int}
use raspa.RunLogger
use raspa.AlsaUsb.{raspa_alsa_usb}
use raspa.AlsaUsb.Setup
use raspa.Pimpl.Layout.{num_alsa_usb_channels}
use raspa.ErrorCodes
use raspa.ErrorCodes.{failure}
use raspa.Pimpl.State.{World, RaspaPimpl, Step, and_then, and_then_option}
use raspa.Pimpl.DriverInfo.{
  fail_with, is_native, is_sync, is_native_alsa, get_audio_info_from_driver, validate_buffer_size,
  open_handle, close_handle, get_driver_buffers, release_driver_buffers,
}
use raspa.Pimpl.Buffers.{set_driver_buffers, init_user_buffers, free_user_buffers}
use raspa.Pimpl.Converters.{init_sample_converter, deinit_sample_converter, is_negative}

-- `a | b` on `int`
unfoldable pub or_int : ℤ → ℤ → ℤ
or_int a b = signed32 (bit_or (pattern32 a) (pattern32 b))

unfoldable pub stop_rt_task : World → RaspaPimpl → Step
stop_rt_task w r =
    let res = or_int w.cancel_result w.join_result in
    let stopped = record r { task_started = false } in
    if r.task_started
    then (if ltb_ℤ res (pos 0)
        then fail_with ErrorCodes.raspa_etask_cancel res stopped
        else (pos 0, stopped))
    else (pos 0, r)

-- The instances that `_cleanup` deletes, and the run logger that it terminates
unfoldable pub delete_instances : World → RaspaPimpl → RaspaPimpl
delete_instances w r =
    let without = deinit_sample_converter r in
    let logged = RunLogger.terminate w.log_accepts w.log_in_round w.log_closes r.run_logger in
    record without {
      delay_error_filter = if is_sync r.platform_type then false else r.delay_error_filter;
      gpio_com = if is_native r.platform_type then r.gpio_com else none;
      run_logger = if r.run_logger_enable then logged.1 else r.run_logger;
    }

unfoldable pub cleanup : World → RaspaPimpl → Step
cleanup w r =
    let stopped = stop_rt_task w r in
    let released = release_driver_buffers w (free_user_buffers stopped.1) in
    let closed = close_handle w released.1 in
    (or_int (or_int stopped.0 released.0) closed.0, delete_instances w closed.1)

abbrev pub after_cleanup : World → RaspaPimpl → RaspaPimpl
after_cleanup w r = (cleanup w r).1

unfoldable pub set_cpu_affinity : ℤ → RaspaPimpl → RaspaPimpl
set_cpu_affinity affinity r = record r { cpu_affinity = affinity }

abbrev pub is_failure : ℤ → Bool
is_failure res = not (eq_ℤ res (pos 0))

-- `_init_gpio_com`, on the platforms that have it
unfoldable pub init_gpio_com : World → RaspaPimpl → Step
init_gpio_com w r =
    let (res, gpio, vals) = GpioCom.init w.sockets raspa_gpio_com r.error_vals in
    if is_native r.platform_type
    then (pos 0, r)
    else (res, record r { gpio_com = some gpio; error_vals = vals })

-- `_init_alsa_usb`, where the driver has native USB audio
unfoldable pub init_alsa_usb : World → RaspaPimpl → Step
init_alsa_usb w r =
    let srate = pos_part (float_to_int r.sample_rate) in
    let (res, usb) =
      Setup.init w.alsa srate (pos_part r.buffer_size_in_frames) num_alsa_usb_channels
        raspa_alsa_usb in
    let made = record r { alsa_usb = some usb } in
    if is_native_alsa r.usb_audio_type
    then (if is_failure res
        then (failure ErrorCodes.raspa_ealsa_init_failed, made)
        else (pos 0, made))
    else (pos 0, r)

unfoldable pub start_run_logger : World → RaspaPimpl → Step
start_run_logger w r =
    let started = RunLogger.start w.log_opens r.run_logger in
    if r.run_logger_enable then (started.0, record r { run_logger = started.1 }) else (pos 0, r)

-- The end of `open_device`
unfoldable pub set_callback : (callback user_data : ℕ) → RaspaPimpl → Step
set_callback callback user_data r = (
  pos 0,
  record r { user_data = user_data; interrupts_counter = pos 0; user_callback = callback },
)

unfoldable pub init_delay_error_filter : RaspaPimpl → RaspaPimpl
init_delay_error_filter r =
    if is_sync r.platform_type then record r { delay_error_filter = true } else r

-- `open_device` from its last steps back to its first, `none` where a step is undefined: from the run
-- logger on
unfoldable pub open_logger : World → (callback user_data : ℕ) → RaspaPimpl → Step
open_logger w callback user_data r =
    and_then is_failure (λ r. r) (start_run_logger w r) (set_callback callback user_data)

-- from the USB audio on
unfoldable pub open_alsa : World → (callback user_data : ℕ) → RaspaPimpl → Step
open_alsa w callback user_data r =
    and_then is_failure (λ r. r) (init_alsa_usb w r) (open_logger w callback user_data)

-- from the delay filter on
unfoldable pub open_gpio : World → (callback user_data : ℕ) → RaspaPimpl → Step
open_gpio w callback user_data r =
    and_then is_failure (λ r. r) (init_gpio_com w (init_delay_error_filter r))
      (open_alsa w callback user_data)

-- from the sample converters on
unfoldable pub open_converters : World → (callback user_data : ℕ) → RaspaPimpl → Step
open_converters w callback user_data r =
    and_then is_failure (λ r. r) (init_sample_converter w r) (open_gpio w callback user_data)

-- from the user's buffers on
unfoldable pub open_user_buffers : World → (callback user_data : ℕ) → RaspaPimpl → Option Step
open_user_buffers w callback user_data r =
    set_driver_buffers w r >>= (λ placed. init_user_buffers w placed) >>= (λ step.
      some (and_then is_negative (after_cleanup w) step (open_converters w callback user_data)))

-- from the driver's memory on
unfoldable pub open_driver_buffers : World → (callback user_data : ℕ) → RaspaPimpl → Option Step
open_driver_buffers w callback user_data r =
    and_then_option is_negative (after_cleanup w) (get_driver_buffers w r)
      (open_user_buffers w callback user_data)

-- from the opening of the device on
unfoldable pub open_buffers : World → (callback user_data : ℕ) → RaspaPimpl → Option Step
open_buffers w callback user_data r =
    and_then_option is_negative (λ r. r) (open_handle w r)
      (open_driver_buffers w callback user_data)

-- RASPA_DEBUG_SIGNAL_ON_MODE_SW and RASPA_DEBUG_ENABLE_RUN_LOG_TO_FILE
unfoldable pub set_debug_flags : (signal_on_mode_sw run_log : Bool) → RaspaPimpl → RaspaPimpl
set_debug_flags signal_on_mode_sw run_log r = record r {
  detect_mode_sw = if signal_on_mode_sw then true else r.detect_mode_sw;
  run_logger_enable = if run_log then true else r.run_logger_enable;
}

-- from the check of the buffer size on
unfoldable pub open_sized :
    World
    → (buffer_size : ℤ) (callback user_data : ℕ) (signal_on_mode_sw run_log : Bool) → RaspaPimpl
    → Option Step
open_sized w buffer_size callback user_data signal_on_mode_sw run_log r =
    and_then_option is_failure (λ r. r)
      (validate_buffer_size w (record r { buffer_size_in_frames = buffer_size }))
      (λ r. open_buffers w callback user_data (set_debug_flags signal_on_mode_sw run_log r))

unfoldable pub open_device :
    World
    → (buffer_size : ℤ) (callback user_data : ℕ) (signal_on_mode_sw run_log : Bool) → RaspaPimpl
    → Option Step
open_device w buffer_size callback user_data signal_on_mode_sw run_log r =
    let ver_check = check_driver_version w.sysfs in
    if not ver_check.0
    then some (
        if ltb_ℤ ver_check.1 (pos 0)
        then fail_with ErrorCodes.raspa_eparam_version ver_check.1 r
        else (failure ErrorCodes.raspa_eversion, r))
    else and_then_option is_failure (λ r. r) (get_audio_info_from_driver w r)
        (open_sized w buffer_size callback user_data signal_on_mode_sw run_log)

unfoldable pub start_realtime : World → RaspaPimpl → Step
start_realtime w r =
    let ready = record r { task_started = false } in
    let started = record r { task_started = true } in
    if is_failure w.setaffinity_result
    then fail_with ErrorCodes.raspa_etask_affinity w.setaffinity_result (after_cleanup w ready)
    else if is_failure w.create_result
    then fail_with ErrorCodes.raspa_etask_create w.create_result (after_cleanup w ready)
    else if ltb_ℤ w.proc_start_result (pos 0)
    then fail_with ErrorCodes.raspa_etask_start w.proc_start_result started
    else (pos 0, started)

unfoldable pub close_device : World → RaspaPimpl → Step
close_device w r =
    let stopping = record r { stop_request_flag = true } in
    if ltb_ℤ w.proc_stop_result (pos 0)
    then fail_with ErrorCodes.raspa_etask_stop w.proc_stop_result (after_cleanup w stopping)
    else cleanup w stopping
