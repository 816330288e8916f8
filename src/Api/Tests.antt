-- ===== src/Api/Tests.antt =====
-- The theorems about a client's calls at concrete ones.
use raspa.Prelude.{ℕ, ◌≡◌, ◌⊎◌, inl, refl, List, [], ◌∷◌, none, some, true, false, arith}
use raspa.Prelude.Int.{ℤ, pos, negsuc}
use raspa.DriverConfig.{
  Sysfs, Param, usb_audio_type, check_driver_version, get_buffer_size, read_driver_param,
  native_alsa,
}
use raspa.DriverConfig
use raspa.GpioCom
use raspa.GpioCom.Bounded.{bounded}
use raspa.ErrorCodes
use raspa.Binary32
use raspa.Prelude.Int
use raspa.RunLogger
use raspa.SampleConversion.Converter
use raspa.SampleConversion.Select
use raspa.Pimpl.Converters
use raspa.Pimpl.Layout
use raspa.Pimpl.Layout.{init_driver_buffers}
use raspa.Pimpl.State.{World, RaspaPimpl, raspa_pimpl}
use raspa.Pimpl.DriverInfo
use raspa.Pimpl.Buffers
use raspa.Pimpl.Buffers.{InAudio, fits_mapping}
use raspa.Pimpl.Lifecycle
use raspa.Pimpl.Lifecycle.{open_device, cleanup, close_device, open_driver_buffers, start_realtime}
use raspa.Pimpl.Queries.{get_samplecount, get_samplecount-counts}
use raspa.Pimpl.RtLoop.{Rt, interrupt, stop_request, rt_loop_native, rt_loop_async}
use raspa.Pimpl.Stopping.{IsSilent}
use raspa.Pimpl.Tests.{world, sysfs, param_text, initialised, state_of}
use raspa.Pimpl.RtTests.{irq, protocol}
use raspa.Api.Usb.{UsbHas, UsbIsClosed, UsbIsStarted}
use raspa.Api.Opened.{opened_calls-defined}
use raspa.AlsaUsb
use raspa.AlsaUsb.Setup
use raspa.Api.{
  Answers, Returned, code, raspa_open, raspa_close, raspa_call, run_calls, close_call, start_call,
  with_alsa_usb,
}
use raspa.Api.Session.{reopened_loops-IsSilent, failed_open-close}

abbrev answers : Answers
answers = record {
  world = world;
  strerror = λ (n : ℕ). "error";
  page_size = 4096;
  clock_result = pos 0;
  tv_sec = 1;
  tv_nsec = 0;
  gpio_result = λ (pin : ℤ). pos 0;
}

-- Opening, starting and closing
abbrev opened : RaspaPimpl
opened = state_of (open_device world (pos 64) 1 2 false true initialised)

abbrev closed : RaspaPimpl
closed = (close_device world (start_realtime world opened).1).1

-- Closing, and opening again
abbrev reopened : RaspaPimpl
reopened = state_of (open_device world (pos 64) 1 2 false false (close_device world initialised).1)

abbrev restarting : Rt bounded protocol
restarting = record { pimpl = reopened; to_rt = []; from_rt = []; replies = []; usb_sent = [] }

closed_and_opened :
    (run_calls ((answers, raspa_close) ∷ (answers, raspa_open (pos 64) 1 2 0) ∷ []) initialised
      ≡ some reopened)
    × (reopened.mmap_initialized ≡ true)
    × (fits_mapping world reopened ≡ true)
    × InAudio reopened.driver_buffers reopened.driver_buffer_size 0 0
unfolding run_calls raspa_call close_call with_alsa_usb close_device open_device
    check_driver_version read_driver_param DriverConfig.atoi DriverInfo.get_audio_info_from_driver
    DriverConfig.get_sample_rate DriverConfig.get_num_input_chan DriverConfig.get_num_output_chan
    DriverConfig.get_platform_type DriverConfig.get_usb_audio_type DriverInfo.set_audio_info
    Lifecycle.open_sized DriverInfo.validate_buffer_size get_buffer_size Lifecycle.open_buffers
    DriverInfo.open_handle open_driver_buffers DriverInfo.get_driver_buffers Binary32.excess_bits
    Binary32.int_to_float Binary32.round24 Binary32.round_to DriverConfig.atoi_digits
    DriverConfig.atoi_signed DriverConfig.check_codec_format DriverConfig.get_audio_irq_affinity
    ErrorCodes.set_error_val GpioCom.init Buffers.clear_audio Buffers.clear_driver_buffers
    Buffers.clear_fits Buffers.clear_frame Buffers.clear_packets Buffers.free_user_buffers
    Buffers.init_user_buffers Buffers.memalign_result Buffers.set_driver_buffers
    Converters.chan_infos Converters.channel_converter Converters.channel_converters
    Converters.deinit_sample_converter Converters.init_all_converters
    Converters.init_input_converters Converters.init_output_converters
    Converters.init_sample_converter Converters.init_usb_converters Converters.usb_converter
    DriverInfo.close_handle DriverInfo.release_driver_buffers DriverInfo.set_num_chans
    Layout.driver_buffer_size_in_samples init_driver_buffers Layout.init_native_buffers
    Layout.init_packet_buffers Layout.num_user_audio_samples cleanup Lifecycle.delete_instances
    Lifecycle.init_alsa_usb Lifecycle.init_delay_error_filter Lifecycle.init_gpio_com
    Lifecycle.open_alsa Lifecycle.open_converters Lifecycle.open_gpio Lifecycle.open_logger
    Lifecycle.open_user_buffers Lifecycle.or_int Lifecycle.set_callback Lifecycle.set_debug_flags
    Lifecycle.start_run_logger Lifecycle.stop_rt_task Int.◌+ℤ◌ RunLogger.buf_index
    RunLogger.close_stream RunLogger.count_of RunLogger.run_end RunLogger.start RunLogger.terminate
    RunLogger.write_block RunLogger.write_buffer_to_file Converter.make_sample_converter
    Select.get_converter_with_buffer_size Select.get_converter_with_strides
    Select.get_sample_converter
closed_and_opened = (refl, refl, refl, (0, omega arith, omega arith, inl refl))

reopened_loops-IsSilent_example :
    ((t : Rt bounded protocol) × (rt_loop_native bounded protocol world
          (interrupt irq ∷ stop_request ∷ [])
          restarting
        ≡ some t)
      × IsSilent bounded protocol restarting t 0)
    × ((t : Rt bounded protocol) × (rt_loop_async bounded protocol world
            (interrupt irq ∷ stop_request ∷ [])
            restarting
          ≡ some t)
        × IsSilent bounded protocol restarting t 0)
reopened_loops-IsSilent_example =
    reopened_loops-IsSilent bounded protocol answers ((answers, raspa_open (pos 64) 1 2 0) ∷ [])
      initialised restarting world irq (stop_request ∷ []) 0 (closed_and_opened.0)
      (closed_and_opened.1) (closed_and_opened.2) refl (closed_and_opened.3)

-- A driver with native USB audio, opened with 32 frames where it has 64
abbrev usb_text : Param → List ℕ
usb_text usb_audio_type = b'2' ∷ 10 ∷ []
usb_text p = param_text p

abbrev usb_sysfs : Sysfs
usb_sysfs = record sysfs { contents = usb_text }

abbrev usb_answers : Answers
usb_answers = record answers { world = record world { sysfs = usb_sysfs } }

usb_checks :
    ((check_driver_version usb_sysfs).0 ≡ true)
    × (Lifecycle.is_failure
          (DriverInfo.get_audio_info_from_driver (record world { sysfs = usb_sysfs }) raspa_pimpl).0
        ≡ false)
    × ((DriverInfo.get_audio_info_from_driver
          (record world { sysfs = usb_sysfs })
          raspa_pimpl).1.usb_audio_type
        ≡ native_alsa)
    × (Lifecycle.is_failure
          (DriverInfo.validate_buffer_size
            (record world { sysfs = usb_sysfs })
            (record (DriverInfo.get_audio_info_from_driver
              (record world { sysfs = usb_sysfs })
              raspa_pimpl).1 { buffer_size_in_frames = pos 32 })).0
        ≡ true)
unfolding open_device check_driver_version read_driver_param DriverConfig.atoi
    DriverInfo.get_audio_info_from_driver DriverConfig.get_sample_rate
    DriverConfig.get_num_input_chan DriverConfig.get_num_output_chan DriverConfig.get_platform_type
    DriverConfig.get_usb_audio_type DriverInfo.set_audio_info Lifecycle.open_sized
    DriverInfo.validate_buffer_size get_buffer_size Lifecycle.open_buffers DriverInfo.open_handle
    open_driver_buffers DriverInfo.get_driver_buffers Binary32.excess_bits Binary32.int_to_float
    Binary32.round24 Binary32.round_to DriverConfig.atoi_digits DriverConfig.atoi_signed
    DriverConfig.check_codec_format DriverConfig.get_audio_irq_affinity ErrorCodes.set_error_val
    GpioCom.init Buffers.clear_audio Buffers.clear_driver_buffers Buffers.clear_fits
    Buffers.clear_frame Buffers.clear_packets Buffers.free_user_buffers Buffers.init_user_buffers
    Buffers.memalign_result Buffers.set_driver_buffers Converters.chan_infos
    Converters.channel_converter Converters.channel_converters Converters.deinit_sample_converter
    Converters.init_all_converters Converters.init_input_converters
    Converters.init_output_converters Converters.init_sample_converter
    Converters.init_usb_converters Converters.usb_converter DriverInfo.close_handle
    DriverInfo.release_driver_buffers DriverInfo.set_num_chans Layout.driver_buffer_size_in_samples
    init_driver_buffers Layout.init_native_buffers Layout.init_packet_buffers
    Layout.num_user_audio_samples cleanup Lifecycle.delete_instances Lifecycle.init_alsa_usb
    Lifecycle.init_delay_error_filter Lifecycle.init_gpio_com Lifecycle.open_alsa
    Lifecycle.open_converters Lifecycle.open_gpio Lifecycle.open_logger Lifecycle.open_user_buffers
    Lifecycle.or_int Lifecycle.set_callback Lifecycle.set_debug_flags Lifecycle.start_run_logger
    Lifecycle.stop_rt_task Int.◌+ℤ◌ RunLogger.buf_index RunLogger.close_stream RunLogger.count_of
    RunLogger.run_end RunLogger.start RunLogger.terminate RunLogger.write_block
    RunLogger.write_buffer_to_file Converter.make_sample_converter
    Select.get_converter_with_buffer_size Select.get_converter_with_strides
    Select.get_sample_converter
usb_checks = (refl, refl, refl, refl)

failed_open-close_example :
    ((t : RaspaPimpl) × (run_calls ((usb_answers, raspa_open (pos 32) 1 2 0) ∷ []) raspa_pimpl
        ≡ some t))
    × (run_calls
          ((usb_answers, raspa_open (pos 32) 1 2 0) ∷ (usb_answers, raspa_close) ∷ [])
          raspa_pimpl
        ≡ none)
failed_open-close_example =
    failed_open-close usb_answers usb_answers (pos 32) 1 2 0 raspa_pimpl refl (usb_checks.0)
      (usb_checks.1) (usb_checks.2) (usb_checks.3)

-- The same driver, opened with its 64 frames
abbrev usb_world : World
usb_world = record world { sysfs = usb_sysfs }

abbrev usb_opened : RaspaPimpl
usb_opened = state_of (open_device usb_world (pos 64) 1 2 false false initialised)

usb_opens : open_device usb_world (pos 64) 1 2 false false initialised ≡ some (pos 0, usb_opened)
unfolding open_device check_driver_version read_driver_param DriverConfig.atoi
    DriverInfo.get_audio_info_from_driver DriverConfig.get_sample_rate
    DriverConfig.get_num_input_chan DriverConfig.get_num_output_chan DriverConfig.get_platform_type
    DriverConfig.get_usb_audio_type DriverInfo.set_audio_info Lifecycle.open_sized
    DriverInfo.validate_buffer_size get_buffer_size Lifecycle.open_buffers DriverInfo.open_handle
    open_driver_buffers DriverInfo.get_driver_buffers Binary32.excess_bits Binary32.int_to_float
    Binary32.round24 Binary32.round_to DriverConfig.atoi_digits DriverConfig.atoi_signed
    DriverConfig.check_codec_format DriverConfig.get_audio_irq_affinity ErrorCodes.set_error_val
    GpioCom.init Buffers.clear_audio Buffers.clear_driver_buffers Buffers.clear_fits
    Buffers.clear_frame Buffers.clear_packets Buffers.free_user_buffers Buffers.init_user_buffers
    Buffers.memalign_result Buffers.set_driver_buffers Converters.chan_infos
    Converters.channel_converter Converters.channel_converters Converters.deinit_sample_converter
    Converters.init_all_converters Converters.init_input_converters
    Converters.init_output_converters Converters.init_sample_converter
    Converters.init_usb_converters Converters.usb_converter DriverInfo.close_handle
    DriverInfo.release_driver_buffers DriverInfo.set_num_chans Layout.driver_buffer_size_in_samples
    init_driver_buffers Layout.init_native_buffers Layout.init_packet_buffers
    Layout.num_user_audio_samples cleanup Lifecycle.delete_instances Lifecycle.init_alsa_usb
    Lifecycle.init_delay_error_filter Lifecycle.init_gpio_com Lifecycle.open_alsa
    Lifecycle.open_converters Lifecycle.open_gpio Lifecycle.open_logger Lifecycle.open_user_buffers
    Lifecycle.or_int Lifecycle.set_callback Lifecycle.set_debug_flags Lifecycle.start_run_logger
    Lifecycle.stop_rt_task Int.◌+ℤ◌ RunLogger.buf_index RunLogger.close_stream RunLogger.count_of
    RunLogger.run_end RunLogger.start RunLogger.terminate RunLogger.write_block
    RunLogger.write_buffer_to_file Converter.make_sample_converter
    Select.get_converter_with_buffer_size Select.get_converter_with_strides
    Select.get_sample_converter Binary32.float_to_int Binary32.scale_down Setup.init
    Setup.init_streams Setup.init_hw_params Setup.init_sw_params Setup.set_sizes
    Setup.open_playback_handle Setup.open_capture_handle Setup.set_hw_params Setup.negotiate_sizes
    Setup.set_rate Setup.set_buffer_size Setup.set_period_size Setup.set_sw_params
    AlsaUsb.usb_audio_words
usb_opens = refl

opened_calls-defined_example :
    ((t : RaspaPimpl) × (start_call usb_world usb_opened
        ≡ some (code (start_realtime usb_world usb_opened).0, t))
      × ((Lifecycle.is_failure (start_realtime usb_world usb_opened).0 ≡ true)
          ⊎ ((t.task_started ≡ true) × UsbHas (UsbIsStarted usb_world) t)))
    × ((answer : Returned) × (t : RaspaPimpl) × (close_call usb_world usb_opened ≡ some (answer, t))
        × UsbHas UsbIsClosed t)
opened_calls-defined_example =
    opened_calls-defined usb_world usb_world (pos 64) 1 2 false false initialised usb_opened
      usb_opens

-- 12 hours and 26 minutes at 48 kHz, in periods of 64 frames
get_samplecount-counts_example :
    get_samplecount
      (record raspa_pimpl { interrupts_counter = pos 33554432; buffer_size_in_frames = pos 64 })
    ≡ none
get_samplecount-counts_example =
    get_samplecount-counts
      (record raspa_pimpl { interrupts_counter = pos 33554432; buffer_size_in_frames = pos 64 })
      33554432 64 refl refl
