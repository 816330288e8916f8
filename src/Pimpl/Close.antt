-- ===== src/Pimpl/Close.antt =====
-- src/raspa_pimpl.h: starting, closing, and the failures that clean up.
use raspa.Prelude.{ℕ, ◌≡◌, refl, inl, inr, Bool, true, ◌||◌, Bool-cases}
use raspa.Prelude.Int.{ℤ}
use raspa.Pimpl.State.{World, RaspaPimpl}
use raspa.Pimpl.Converters.{is_negative}
use raspa.Pimpl.Lifecycle.{is_failure}
use raspa.ErrorCodes
use raspa.ErrorCodes.{RaspaError}
use raspa.DriverConfig.{check_driver_version}
use raspa.Pimpl.Cleanup.{IsReleased, IsConsistent, IsConsistent-of, cleanup-IsReleased}
use raspa.Pimpl.CleanupCodes.{is_reported, cleanup-reports}
use raspa.Pimpl.Lifecycle.{after_cleanup, close_device, open_device, set_cpu_affinity}
use raspa.Pimpl.DriverInfo.{fail_with, get_audio_info_from_driver}

fail_with-IsReleased :
    (e : RaspaError) (value : ℤ) (r : RaspaPimpl)
    → IsReleased r
    → IsReleased (fail_with e value r).1
fail_with-IsReleased e value r h = record {
  no_task = h.no_task;
  no_user_buffers = h.no_user_buffers;
  no_mapping = h.no_mapping;
  no_device = h.no_device;
  no_input_converter = h.no_input_converter;
  no_output_converter = h.no_output_converter;
  no_usb_input = h.no_usb_input;
  no_usb_output = h.no_usb_output;
  no_filter = h.no_filter;
  no_gpio = h.no_gpio;
  no_logger = h.no_logger;
  no_log_stream = h.no_log_stream;
}

-- However `close_device` ends, a consistent object holds nothing any more, and it returns 0 exactly
-- when the driver stops and the clean-up has nothing to report.
pub close_device-IsReleased :
    (w : World) (r : RaspaPimpl)
    → IsConsistent r
    → IsReleased (close_device w r).1
      × (is_failure (close_device w r).0 ≡ (is_negative w.proc_stop_result || is_reported w r))
unfolding close_device
close_device-IsReleased w r h =
    let stopping : RaspaPimpl = record r { stop_request_flag = true } in
    let same : IsConsistent stopping = IsConsistent-of r stopping refl h in
    elim (Bool-cases (is_negative w.proc_stop_result)) [
      | inl failed ↦ rw failed (
        fail_with-IsReleased ErrorCodes.raspa_etask_stop w.proc_stop_result
            (after_cleanup w stopping) (cleanup-IsReleased w stopping same),
        refl,
      )
      | inr stopped ↦
          rw stopped (cleanup-IsReleased w stopping same, (cleanup-reports w stopping).0)
    ]

-- With a driver version that is accepted, `open_device` comes to the same whether the affinity was
-- set before or not.
pub set_cpu_affinity-overwritten :
    (w : World) (affinity buffer_size : ℤ) (callback user_data : ℕ)
    (signal_on_mode_sw run_log : Bool) (r : RaspaPimpl)
    → (check_driver_version w.sysfs).0 ≡ true
    → open_device w buffer_size callback user_data signal_on_mode_sw run_log
        (set_cpu_affinity affinity r)
      ≡ open_device w buffer_size callback user_data signal_on_mode_sw run_log r
unfolding open_device get_audio_info_from_driver set_cpu_affinity
set_cpu_affinity-overwritten w affinity buffer_size callback user_data signal_on_mode_sw run_log r
      h =
    rw h refl
