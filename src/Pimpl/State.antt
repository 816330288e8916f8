-- ===== src/Pimpl/State.antt =====
-- src/raspa_pimpl.h: the fields of class RaspaPimpl, and what the system answers to its calls.
-- An `int` is a `ℤ`: the overflow of signed arithmetic is undefined in C++.
use raspa.Prelude.{ℕ, List, [], Option, none, some, Bool, false, if◌then◌else◌}
use raspa.Prelude.Int.{ℤ, pos, negsuc}
use Prim.Native.String.{String}
use raspa.DriverConfig.{PlatformType, native, UsbAudioType, Sysfs}
use raspa.SampleConversion.Converter.{SampleConverter}
use raspa.RunLogger.{RunLogger, zero_item}
use raspa.GpioCom.{SocketCalls, RaspaGpioCom}
use raspa.ErrorCodes.{ErrorVals, no_error_vals}
use raspa.AlsaUsb.{RaspaAlsaUsb}
use raspa.AlsaUsb.Setup.{Alsa}
use raspa.Pimpl.Layout.{PacketSizes, DriverBuffers}

-- struct ChannelInfo of src/driver_config.h, the fields that raspa reads
pub record ChannelInfo : Type 0 where
  pub sample_format : ℕ
  pub start_offset_in_words : ℕ
  pub stride_in_words : ℕ

-- The answers of the system to one call each, as far as the code looks at them: the memory that
-- `mmap` gives is in words, the channel infos are those that the driver fills in.
pub record World : Type 0 where
  pub sysfs : Sysfs
  pub open_result : ℤ
  pub open_errno : ℤ
  pub close_result : ℤ
  pub mmap_memory : Option (ℕ → ℕ)
  pub mmap_errno : ℤ
  pub munmap_result : ℤ
  pub memalign_in : Bool
  pub memalign_out : Bool
  pub input_info_result : ℤ
  pub output_info_result : ℤ
  pub input_chan_info : ℕ → ChannelInfo
  pub output_chan_info : ℕ → ChannelInfo
  pub sockets : SocketCalls
  pub alsa : Alsa
  pub create_usb_in : ℤ
  pub create_usb_out : ℤ
  pub log_opens : Bool
  pub log_accepts : Bool
  pub log_in_round : Bool
  pub log_closes : Bool
  pub setaffinity_result : ℤ
  pub create_result : ℤ
  pub proc_start_result : ℤ
  pub proc_stop_result : ℤ
  pub cancel_result : ℤ
  pub join_result : ℤ
  pub clear_audio_ctrl_pkt : ℕ → (ℕ → ℕ) → ℕ → ℕ
  pub packet_sizes : PacketSizes

-- `sample_rate` is the value of a `float` as in Binary32. A pointer that owns an object that this
-- file does not look into is a `Bool`, whether it is set; those to the user's function and data are
-- numbers. A buffer that was not allocated is `none`.
pub record RaspaPimpl : Type 0 where
  pub driver_memory : ℕ → ℕ
  pub driver_buffers : DriverBuffers
  pub user_audio_in : Option (List ℕ)
  pub user_audio_out : Option (List ℕ)
  pub user_gate_in : ℕ
  pub user_gate_out : ℕ
  pub kernel_buffer_mem_size : ℕ
  pub device_handle : ℤ
  pub interrupts_counter : ℤ
  pub stop_request_flag : Bool
  pub detect_mode_sw : Bool
  pub run_logger_enable : Bool
  pub run_logger_file_name : String
  pub cpu_affinity : ℤ
  pub sample_rate : ℤ
  pub num_input_chans : ℤ
  pub num_output_chans : ℤ
  pub num_driver_input_chans : ℤ
  pub num_driver_output_chans : ℤ
  pub buffer_size_in_frames : ℤ
  pub driver_buffer_size : ℕ
  pub input_sample_converter : List (Option SampleConverter)
  pub output_sample_converter : List (Option SampleConverter)
  pub input_usb_sample_converter : List (Option SampleConverter)
  pub output_usb_sample_converter : List (Option SampleConverter)
  pub device_opened : Bool
  pub user_buffers_allocated : Bool
  pub mmap_initialized : Bool
  pub task_started : Bool
  pub user_data : ℕ
  pub user_callback : ℕ
  pub error_vals : ErrorVals
  pub platform_type : PlatformType
  pub delay_error_filter : Bool
  pub error_filter_process_count : ℕ
  pub gpio_com : Option RaspaGpioCom
  pub usb_audio_type : UsbAudioType
  pub alsa_usb : Option RaspaAlsaUsb
  pub run_logger : RunLogger

-- The fields of the run logger before its first start.
abbrev pub raspa_run_logger : RunLogger
raspa_run_logger = record {
  is_running = false;
  stream_open = false;
  log_file = [];
  buffer = λ (i j : ℕ). zero_item;
  write_count = 0;
  read_count = 0;
  overrun = false;
}

abbrev pub no_driver_buffers : DriverBuffers
no_driver_buffers = record {
  rx_pkt_0 = 0;
  rx_pkt_1 = 0;
  tx_pkt_0 = 0;
  tx_pkt_1 = 0;
  audio_in_0 = 0;
  audio_in_1 = 0;
  audio_out_0 = 0;
  audio_out_1 = 0;
  cv_out = 0;
  cv_in = 0;
}

abbrev pub raspa_default_run_log_file : String
raspa_default_run_log_file = "/tmp/raspa.log"

-- RaspaPimpl::RaspaPimpl
abbrev pub raspa_pimpl : RaspaPimpl
raspa_pimpl = record {
  driver_memory = λ (i : ℕ). 0;
  driver_buffers = no_driver_buffers;
  user_audio_in = none;
  user_audio_out = none;
  user_gate_in = 0;
  user_gate_out = 0;
  kernel_buffer_mem_size = 0;
  device_handle = negsuc 0;
  interrupts_counter = pos 0;
  stop_request_flag = false;
  detect_mode_sw = false;
  run_logger_enable = false;
  run_logger_file_name = raspa_default_run_log_file;
  cpu_affinity = pos 0;
  sample_rate = pos 0;
  num_input_chans = pos 0;
  num_output_chans = pos 0;
  num_driver_input_chans = pos 0;
  num_driver_output_chans = pos 0;
  buffer_size_in_frames = pos 0;
  driver_buffer_size = 0;
  input_sample_converter = [];
  output_sample_converter = [];
  input_usb_sample_converter = [];
  output_usb_sample_converter = [];
  device_opened = false;
  user_buffers_allocated = false;
  mmap_initialized = false;
  task_started = false;
  user_data = 0;
  user_callback = 0;
  error_vals = no_error_vals;
  platform_type = native;
  delay_error_filter = false;
  error_filter_process_count = 0;
  gpio_com = none;
  usb_audio_type = UsbAudioType.none;
  alsa_usb = none;
  run_logger = raspa_run_logger;
}

-- A step's return value beside the state that it leaves.
abbrev pub Step : Type 0
Step = ℤ × RaspaPimpl

-- A step that does not fail goes on with the next; one that fails ends with its value, after what
-- the code does first then.
abbrev pub and_then :
    (fails : ℤ → Bool) → (RaspaPimpl → RaspaPimpl) → Step → (RaspaPimpl → Step) → Step
and_then fails on_failure step next =
    if fails step.0 then (step.0, on_failure step.1) else next step.1

-- The same, where what comes next can be undefined.
abbrev pub and_then_option :
    (fails : ℤ → Bool) → (RaspaPimpl → RaspaPimpl) → Step → (RaspaPimpl → Option Step) → Option Step
and_then_option fails on_failure step next =
    if fails step.0 then some (step.0, on_failure step.1) else next step.1
