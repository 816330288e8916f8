-- ===== src/Pimpl/DriverInfo.antt =====
-- src/raspa_pimpl.h: the driver's parameters, and the opening and closing of the device and of its
-- memory.
use raspa.Prelude.{none, some, Bool, true, false, ◌&&◌, not, if◌then◌else◌}
use raspa.Prelude.Int.{ℤ, pos, ltb_ℤ, pos_part, ◌+ℤ◌}
use raspa.Binary32.{int_to_float}
use raspa.DriverConfig.{
  PlatformType, native, sync, UsbAudioType, native_alsa, get_sample_rate, get_num_input_chan,
  get_num_output_chan, get_platform_type, get_usb_audio_type, get_audio_irq_affinity,
  get_buffer_size, to_platform_type, to_usb_audio_type, eq_ℤ,
}
use raspa.ErrorCodes
use raspa.ErrorCodes.{RaspaError, failure, set_error_val}
use raspa.Pimpl.Layout.{num_alsa_usb_channels}
use raspa.Pimpl.State.{World, RaspaPimpl, Step}

-- Return with the error, its value set.
abbrev pub fail_with : RaspaError → ℤ → RaspaPimpl → Step
fail_with e value r = (failure e, record r { error_vals = set_error_val e value r.error_vals })

abbrev pub is_native_alsa : UsbAudioType → Bool
is_native_alsa native_alsa = true
is_native_alsa _ = false

abbrev pub is_native : PlatformType → Bool
is_native native = true
is_native _ = false

abbrev pub is_sync : PlatformType → Bool
is_sync sync = true
is_sync _ = false

-- Both enumerations go from 1 to 3.
abbrev pub in_range : ℤ → Bool
in_range value = not (ltb_ℤ value (pos 1)) && not (ltb_ℤ (pos 3) value)

-- The end of `_get_audio_info_from_driver`
unfoldable pub set_num_chans : RaspaPimpl → RaspaPimpl
set_num_chans r =
    let extra = if is_native_alsa r.usb_audio_type then pos num_alsa_usb_channels else pos 0 in
    record r {
      num_input_chans = r.num_driver_input_chans +ℤ extra;
      num_output_chans = r.num_driver_output_chans +ℤ extra;
    }

-- `_get_audio_info_from_driver`, from the cast of the sample rate on
unfoldable pub set_audio_info : (sample_rate platform_type usb_audio_type : ℤ) → RaspaPimpl → Step
set_audio_info sample_rate platform_type usb_audio_type r =
    let with_rate = record r { sample_rate = int_to_float sample_rate } in
    let with_platform = record with_rate {
      platform_type = to_platform_type (pos_part platform_type);
    } in
    if not (in_range platform_type)
    then (
      failure ErrorCodes.raspa_eparam_platform_type,
      (fail_with ErrorCodes.raspa_eplatform_type platform_type with_rate).1,
    )
    else if not (in_range usb_audio_type)
    then fail_with ErrorCodes.raspa_eusbaudio_type usb_audio_type with_platform
    else (
      pos 0,
      set_num_chans
          (record with_platform { usb_audio_type = to_usb_audio_type (pos_part usb_audio_type) }),
    )

unfoldable pub get_audio_info_from_driver : World → RaspaPimpl → Step
get_audio_info_from_driver w r =
    let sample_rate = get_sample_rate w.sysfs in
    let num_in = get_num_input_chan w.sysfs in
    let num_out = get_num_output_chan w.sysfs in
    let platform_type = get_platform_type w.sysfs in
    let usb_audio_type = get_usb_audio_type w.sysfs in
    let read : RaspaPimpl = record r {
      num_driver_input_chans = num_in;
      num_driver_output_chans = num_out;
      cpu_affinity = get_audio_irq_affinity w.sysfs;
    } in
    if ltb_ℤ sample_rate (pos 0)
    then fail_with ErrorCodes.raspa_eparam_samplerate sample_rate read
    else if ltb_ℤ num_in (pos 0)
    then fail_with ErrorCodes.raspa_eparam_inputchans num_in read
    else if ltb_ℤ num_out (pos 0)
    then fail_with ErrorCodes.raspa_eparam_outputchans num_out read
    else if ltb_ℤ platform_type (pos 0)
    then fail_with ErrorCodes.raspa_eparam_platform_type platform_type read
    else if ltb_ℤ usb_audio_type (pos 0)
    then fail_with ErrorCodes.raspa_eparam_usb_audio_type usb_audio_type read
    else set_audio_info sample_rate platform_type usb_audio_type read

unfoldable pub validate_buffer_size : World → RaspaPimpl → Step
validate_buffer_size w r =
    let driver_buffer_size = get_buffer_size w.sysfs in
    if ltb_ℤ driver_buffer_size (pos 0)
    then fail_with ErrorCodes.raspa_eparam_buffer_size driver_buffer_size r
    else if not (eq_ℤ driver_buffer_size r.buffer_size_in_frames)
    then (failure ErrorCodes.raspa_ebuffer_size_mismatch, r)
    else (pos 0, r)

-- The codes that the driver leaves in `errno`.
abbrev pub device_inactive : ℤ
device_inactive = pos 140

abbrev pub invalid_firmware_ver : ℤ
invalid_firmware_ver = pos 141

abbrev pub invalid_buffer_size : ℤ
invalid_buffer_size = pos 142

-- `_open_device`
unfoldable pub open_handle : World → RaspaPimpl → Step
open_handle w r =
    let opened : RaspaPimpl = record r { device_opened = false; device_handle = w.open_result } in
    if ltb_ℤ w.open_result (pos 0)
    then (if eq_ℤ w.open_errno invalid_buffer_size
        then (failure ErrorCodes.raspa_ebuffer_size_invalid, opened)
        else if not (is_native r.platform_type) && eq_ℤ w.open_errno device_inactive
        then (failure ErrorCodes.raspa_edevice_inactive, opened)
        else if not (is_native r.platform_type) && eq_ℤ w.open_errno invalid_firmware_ver
        then (failure ErrorCodes.raspa_edevice_firmware, opened)
        else fail_with ErrorCodes.raspa_edevice_open w.open_result opened)
    else (pos 0, record opened { device_opened = true })

-- `_close_device`
unfoldable pub close_handle : World → RaspaPimpl → Step
close_handle w r =
    let closed = record r { device_opened = false } in
    if r.device_opened
    then (if ltb_ℤ w.close_result (pos 0)
        then fail_with ErrorCodes.raspa_edevice_close w.close_result closed
        else (pos 0, closed))
    else (pos 0, r)

unfoldable pub get_driver_buffers : World → RaspaPimpl → Step
get_driver_buffers w r = elim (w.mmap_memory) [
  | none ↦ fail_with ErrorCodes.raspa_enomem w.mmap_errno (record r { mmap_initialized = false })
  | some memory ↦ (pos 0, record r { driver_memory = memory; mmap_initialized = true })
]

unfoldable pub release_driver_buffers : World → RaspaPimpl → Step
release_driver_buffers w r =
    let released = record r { mmap_initialized = false } in
    if r.mmap_initialized
    then (if ltb_ℤ w.munmap_result (pos 0)
        then fail_with ErrorCodes.raspa_eunmap w.munmap_result released
        else (pos 0, released))
    else (pos 0, r)
