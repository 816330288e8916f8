-- ===== src/Pimpl/Tests.antt =====
-- Runs of raspa on a concrete system, and the theorems about it at them.
use raspa.Prelude.{ℕ, ◌≡◌, refl, List, [], ◌∷◌, Option, none, some, true, false}
use raspa.Prelude.Int.{ℤ, pos, negsuc, ltb_ℤ}
use raspa.DriverConfig.{
  Sysfs, Param, audio_sampling_rate, audio_input_channels, audio_output_channels, audio_buffer_size,
  platform_type, audio_ver_maj, audio_ver_min, usb_audio_type, audio_irq_affinity, native, sync,
  UsbAudioType, native_alsa, check_driver_version, read_driver_param,
}
use raspa.DriverConfig
use raspa.GpioCom
use raspa.ErrorCodes
use raspa.AlsaUsb.Tests
use raspa.Pimpl.Layout.{
  PacketSizes, driver_regions, driver_words, init_driver_buffers, InOrder,
  init_driver_buffers-InOrder, user_audio_usb,
}
use raspa.Binary32
use raspa.Pimpl.Converters
use raspa.Pimpl.Layout
use raspa.Prelude.Int
use raspa.RunLogger
use raspa.SampleConversion.Converter
use raspa.SampleConversion.Select
use raspa.Pimpl.State.{World, RaspaPimpl, Step, ChannelInfo, raspa_pimpl}
use raspa.Pimpl.DriverInfo
use raspa.Pimpl.Buffers
use raspa.Pimpl.Converters.{is_negative}
use raspa.Pimpl.Lifecycle
use raspa.Pimpl.Lifecycle.{open_device, cleanup, is_failure, close_device, set_cpu_affinity}
use raspa.Pimpl.CleanupCodes.{is_reported, cleanup-reports}
use raspa.Pimpl.Close.{set_cpu_affinity-overwritten}

-- A driver of version 1.1 with two channels, 64 frames, and platform type NATIVE.
abbrev pub param_text : Param → List ℕ
param_text audio_sampling_rate = b'4' ∷ b'8' ∷ b'0' ∷ b'0' ∷ b'0' ∷ 10 ∷ []
param_text audio_input_channels = b'2' ∷ 10 ∷ []
param_text audio_output_channels = b'2' ∷ 10 ∷ []
param_text audio_buffer_size = b'6' ∷ b'4' ∷ 10 ∷ []
param_text audio_irq_affinity = b'3' ∷ 10 ∷ []
param_text _ = b'1' ∷ 10 ∷ []

abbrev pub sysfs : Sysfs
sysfs = record {
  open_fd = λ (p : Param). pos 5;
  read_count = λ (p : Param). pos 6;
  errno = λ (p : Param). pos 0;
  contents = param_text;
}

-- INT24_LJ, the samples of the two channels side by side
abbrev chan_info : ℕ → ChannelInfo
chan_info i = record { sample_format = 1; start_offset_in_words = i; stride_in_words = 2 }

abbrev pub world : World
world = record {
  sysfs = sysfs;
  open_result = pos 7;
  open_errno = pos 0;
  close_result = pos 0;
  mmap_memory = some (λ (i : ℕ). 9);
  mmap_errno = pos 0;
  munmap_result = pos 0;
  memalign_in = true;
  memalign_out = true;
  input_info_result = pos 0;
  output_info_result = pos 0;
  input_chan_info = chan_info;
  output_chan_info = chan_info;
  sockets = record {
    in_socket_result = pos 8;
    out_socket_result = pos 9;
    bind_result = pos 0;
    setsockopt_result = pos 0;
  };
  alsa = Tests.alsa;
  create_usb_in = pos 0;
  create_usb_out = pos 0;
  log_opens = true;
  log_accepts = true;
  log_in_round = false;
  log_closes = true;
  setaffinity_result = pos 0;
  create_result = pos 0;
  proc_start_result = pos 0;
  proc_stop_result = pos 0;
  cancel_result = pos 0;
  join_result = pos 0;
  clear_audio_ctrl_pkt = λ (at : ℕ) (memory : ℕ → ℕ). memory;
  packet_sizes = record { device_ctrl_pkt_size_words = 6; audio_ctrl_pkt_size_words = 24 };
}

version_accepted : (check_driver_version sysfs).0 ≡ true
unfolding check_driver_version read_driver_param DriverConfig.atoi DriverConfig.atoi_signed
    DriverConfig.atoi_digits
version_accepted = refl

-- The object after raspa_init with pages of 4096 bytes
abbrev pub initialised : RaspaPimpl
initialised = record raspa_pimpl { kernel_buffer_mem_size = 81920 }

abbrev pub state_of : Option Step → RaspaPimpl
state_of none = raspa_pimpl
state_of (some (res, r)) = r

abbrev opened : RaspaPimpl
opened = state_of (open_device world (pos 64) 1 2 false true initialised)

-- A state that has everything to give back, and a system that refuses to unmap
abbrev running : RaspaPimpl
running = record raspa_pimpl {
  task_started = true;
  user_buffers_allocated = true;
  mmap_initialized = true;
  device_opened = true;
  user_audio_in = some (1 ∷ 2 ∷ []);
  user_audio_out = some (3 ∷ 4 ∷ []);
  platform_type = sync;
  delay_error_filter = true;
  gpio_com = some GpioCom.raspa_gpio_com;
  run_logger_enable = true;
  run_logger = record (raspa_pimpl.run_logger) { is_running = true; stream_open = true };
}

abbrev failing : World
failing = record world {
  munmap_result = negsuc 0;
  create_result = pos 11;
  mmap_memory = none;
  memalign_in = false;
}

cleanup-reports_example :
    (is_failure (cleanup failing running).0 ≡ is_reported failing running)
    × (is_negative (cleanup failing running).0 ≡ is_reported failing running)
cleanup-reports_example = cleanup-reports failing running

-- Two stages that fail together: the code returned is neither's.
joined_codes :
    (Lifecycle.or_int (negsuc 107) (negsuc 108) ≡ negsuc 104) × (is_reported failing running ≡ true)
unfolding Lifecycle.or_int
joined_codes = (refl, refl)

-- The same before its task is started
abbrev waiting : RaspaPimpl
waiting = record running { task_started = false }

set_cpu_affinity-overwritten_example :
    open_device world (pos 64) 1 2 false true (set_cpu_affinity (pos 2) raspa_pimpl)
    ≡ open_device world (pos 64) 1 2 false true raspa_pimpl
set_cpu_affinity-overwritten_example =
    set_cpu_affinity-overwritten world (pos 2) (pos 64) 1 2 false true raspa_pimpl version_accepted

init_driver_buffers-InOrder_example :
    InOrder 0
      (driver_regions world.packet_sizes sync 128 (init_driver_buffers world.packet_sizes sync 128))
      (driver_words world.packet_sizes sync 128)
init_driver_buffers-InOrder_example = init_driver_buffers-InOrder world.packet_sizes sync 128
