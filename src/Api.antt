-- ===== src/Api.antt =====
-- src/raspa_api_wrapper.cpp and include/raspa/raspa.h: the C interface, each call as a constructor
-- with its arguments, on the one object behind it. `none` is a call that is undefined.
pub mod Usb
pub mod Opened
pub mod Session
pub mod Released
pub mod Tests
use raspa.Prelude.{
  ℕ, ◌-◌, ◌/◌, ◌%◌, List, [], ◌∷◌, Option, none, some, Bool, true, false, ◌==◌, if◌then◌else◌,
  ◌>>=◌,
}
use raspa.Prelude.Int.{ℤ, pos}
use Prim.Native.String.{String}
use raspa.Pimpl.State.{World, RaspaPimpl, Step}
use raspa.AlsaUsb.Setup.{Method, close, start_usb_streams}
use raspa.Pimpl.DriverInfo.{is_native_alsa}
use raspa.Pimpl.Lifecycle.{open_device, start_realtime, close_device, set_cpu_affinity, is_failure}
use raspa.Pimpl.Queries.{
  get_error_msg, init, set_run_log_file, get_sampling_rate, get_num_input_channels,
  get_num_output_channels, get_time, get_samplecount, get_gate_values, set_gate_values,
  request_out_gpio, set_gpio, free_gpio,
}

-- raspa_get_output_latency is not among them: it divides in `float`.
pub data Call : Type 0 where
  raspa_get_error_msg : (code : ℤ) → Call
  raspa_init : Call
  raspa_set_run_log_file : (path : String) → Call
  raspa_set_cpu_affinity : (affinity : ℤ) → Call
  raspa_open : (buffer_size : ℤ) (process_callback user_data debug_flags : ℕ) → Call
  raspa_get_sampling_rate : Call
  raspa_get_num_input_channels : Call
  raspa_get_num_output_channels : Call
  raspa_start_realtime : Call
  raspa_get_time : Call
  raspa_get_samplecount : Call
  raspa_close : Call
  raspa_get_gate_values : Call
  raspa_set_gate_values : (cv_gates_out : ℕ) → Call
  raspa_request_out_gpio : (pin_num : ℤ) → Call
  raspa_set_gpio : (pin_num val : ℤ) → Call
  raspa_free_gpio : (pin_num : ℤ) → Call

-- What the system answers while a call runs
pub record Answers : Type 0 where
  pub world : World
  pub strerror : ℕ → String
  pub page_size : ℕ
  pub clock_result : ℤ
  pub tv_sec : ℕ
  pub tv_nsec : ℕ
  pub gpio_result : (pin_num : ℤ) → ℤ

-- What a call returns: a code, a `float` as in Binary32, another number, a text, or nothing
pub data Returned : Type 0 where
  code : ℤ → Returned
  float_value : ℤ → Returned
  number : ℤ → Returned
  text : String → Returned
  nothing : Returned

-- RASPA_DEBUG_SIGNAL_ON_MODE_SW is bit 0, RASPA_DEBUG_ENABLE_RUN_LOG_TO_FILE bit 1.
abbrev pub signal_on_mode_sw : ℕ → Bool
signal_on_mode_sw debug_flags = debug_flags % 2 == 1

abbrev pub run_log_to_file : ℕ → Bool
run_log_to_file debug_flags = debug_flags / 2 % 2 == 1

-- A call of a method of `_alsa_usb`, where the driver has native USB audio: undefined through a null
-- pointer. What the method returns is dropped.
unfoldable pub with_alsa_usb : Method → RaspaPimpl → Option RaspaPimpl
with_alsa_usb method r =
    if is_native_alsa r.usb_audio_type
    then elim r.alsa_usb [
      | none ↦ none
      | some usb ↦ some (record r { alsa_usb = some ((method usb).1) })
    ]
    else some r

abbrev pub returning : Step → Returned × RaspaPimpl
returning (res, r) = (code res, r)

-- `_alsa_usb->close()` comes first.
unfoldable pub close_call : World → RaspaPimpl → Option (Returned × RaspaPimpl)
close_call w r = with_alsa_usb close r >>= (λ usb. some (returning (close_device w usb)))

-- `_alsa_usb->start_usb_streams()` comes last.
unfoldable pub start_call : World → RaspaPimpl → Option (Returned × RaspaPimpl)
start_call w r =
    let (res, started) = start_realtime w r in
    if is_failure res
    then some (code res, started)
    else with_alsa_usb (start_usb_streams w.create_usb_in w.create_usb_out) started
      >>= (λ usb. some (code res, usb))

unfoldable pub raspa_call : Answers → Call → RaspaPimpl → Option (Returned × RaspaPimpl)
raspa_call a (raspa_get_error_msg err) r = some (text (get_error_msg a.strerror err r), r)
raspa_call a raspa_init r = some (returning (init a.page_size r))
raspa_call a (raspa_set_run_log_file path) r = some (nothing, set_run_log_file path r)
raspa_call a (raspa_set_cpu_affinity affinity) r = some (nothing, set_cpu_affinity affinity r)
raspa_call a (raspa_open buffer_size callback user_data flags) r =
    open_device a.world buffer_size callback user_data (signal_on_mode_sw flags)
      (run_log_to_file flags) r
    >>= (λ step. some (returning step))
raspa_call a raspa_get_sampling_rate r = some (float_value (get_sampling_rate r), r)
raspa_call a raspa_get_num_input_channels r = some (number (get_num_input_channels r), r)
raspa_call a raspa_get_num_output_channels r = some (number (get_num_output_channels r), r)
raspa_call a raspa_start_realtime r = start_call a.world r
raspa_call a raspa_get_time r = some (number (pos (get_time a.clock_result a.tv_sec a.tv_nsec)), r)
raspa_call a raspa_get_samplecount r = get_samplecount r >>= (λ count. some (number count, r))
raspa_call a raspa_close r = close_call a.world r
raspa_call a raspa_get_gate_values r = some (number (pos (get_gate_values r)), r)
raspa_call a (raspa_set_gate_values gates) r = some (nothing, set_gate_values gates r)
raspa_call a (raspa_request_out_gpio pin) r = some (code (request_out_gpio (a.gpio_result pin)), r)
raspa_call a (raspa_set_gpio pin val) r = some (code (set_gpio (a.gpio_result pin)), r)
raspa_call a (raspa_free_gpio pin) r = some (code (free_gpio (a.gpio_result pin)), r)

-- A client's calls, one after the other, each with the answers of its time
unfoldable pub run_calls : List (Answers × Call) → RaspaPimpl → Option RaspaPimpl
run_calls [] r = some r
run_calls ((a, call) ∷ calls) r = raspa_call a call r >>= (λ (answer, after). run_calls calls after)
