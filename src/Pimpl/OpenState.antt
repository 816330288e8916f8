-- ===== src/Pimpl/OpenState.antt =====
-- src/raspa_pimpl.h: the state that `open_device` is to reach, and the driver's parameters in it.
use raspa.Prelude.{
  ℕ, zero, suc, ◌≡◌, refl, inl, inr, List, Option, some, Bool, true, not, ◌||◌, arith, Bool-cases,
}
use raspa.Prelude.Int.{ℤ, pos, negsuc, pos_part}
use raspa.DriverConfig.{
  get_num_input_chan, get_num_output_chan, get_audio_irq_affinity, get_platform_type,
  get_usb_audio_type, get_sample_rate, PlatformType, UsbAudioType, native, sync, async, native_alsa,
  external_uc, to_platform_type, to_usb_audio_type,
}
use raspa.Pimpl.State.{World, RaspaPimpl}
use raspa.Pimpl.DriverInfo.{
  is_native, is_sync, get_audio_info_from_driver, set_audio_info, set_num_chans, in_range,
}
use raspa.Pimpl.ChannelSetup.{HasConverters}
use raspa.Pimpl.Stages.{gpio_is_running, zeros_of}
use raspa.Pimpl.LateStages.{HasUsb}

-- The numbers that the driver gives to the platforms and to the kinds of USB audio
abbrev pub platform_value : PlatformType → ℤ
platform_value native = pos 1
platform_value sync = pos 2
platform_value async = pos 3

abbrev pub usb_audio_value : UsbAudioType → ℤ
usb_audio_value UsbAudioType.none = pos 1
usb_audio_value native_alsa = pos 2
usb_audio_value external_uc = pos 3

-- The parameters of the driver that are kept, in the object and in sysfs
abbrev pub Parameters : Type 0
Parameters = (ℤ × ℤ × ℤ) × (ℤ × ℤ)

abbrev pub parameters_of : RaspaPimpl → Parameters
parameters_of r = (
  (r.num_driver_input_chans, r.num_driver_output_chans, r.cpu_affinity),
  (platform_value r.platform_type, usb_audio_value r.usb_audio_type),
)

abbrev pub driver_parameters : World → Parameters
driver_parameters w = (
  (get_num_input_chan w.sysfs, get_num_output_chan w.sysfs, get_audio_irq_affinity w.sysfs),
  (get_platform_type w.sysfs, get_usb_audio_type w.sysfs),
)

-- What the caller asks for: the buffer size, a signal on a mode switch and a log of the run
abbrev pub Request : Type 0
Request = ℤ × Bool × Bool

abbrev pub request_of : RaspaPimpl → Request
request_of r = (r.buffer_size_in_frames, r.detect_mode_sw, r.run_logger_enable)

abbrev pub Setup : Type 0
Setup = (Bool × Bool × Bool) × (ℤ × (Request × Parameters))

-- Beside these the device's handle and the stages that came to their end
abbrev pub setup_of : RaspaPimpl → Setup
setup_of r = (
  (r.device_opened, r.mmap_initialized, r.user_buffers_allocated),
  (r.device_handle, (request_of r, parameters_of r)),
)

abbrev pub user_buffers_of : RaspaPimpl → Option (List ℕ) × Option (List ℕ)
user_buffers_of r = (r.user_audio_in, r.user_audio_out)

abbrev pub all_stages : World → Request → Setup
all_stages w q = ((true, true, true), (w.open_result, (q, driver_parameters w)))

-- What `open_device` sets up.
pub record IsOpen (w : World) (q : Request) (callback user_data : ℕ) (r : RaspaPimpl) : Type 0 where
  pub setup : setup_of r ≡ all_stages w q
  pub user_buffers : user_buffers_of r ≡ (some (zeros_of r), some (zeros_of r))
  pub converters : HasConverters w r
  pub filter : (not (is_sync r.platform_type) || r.delay_error_filter) ≡ true
  pub gpio : (is_native r.platform_type || gpio_is_running r.gpio_com) ≡ true
  pub alsa : HasUsb w r r.alsa_usb
  pub logger : (not r.run_logger_enable || r.run_logger.is_running) ≡ true
  pub counter : r.interrupts_counter ≡ pos 0
  pub process_callback : (r.user_callback ≡ callback) × (r.user_data ≡ user_data)

platform_value-to_platform_type :
    (value : ℤ) → in_range value ≡ true → platform_value (to_platform_type (pos_part value)) ≡ value
platform_value-to_platform_type (pos zero) h = ground arith
platform_value-to_platform_type (pos (suc zero)) h = refl
platform_value-to_platform_type (pos (suc (suc zero))) h = refl
platform_value-to_platform_type (pos (suc (suc (suc zero)))) h = refl
platform_value-to_platform_type (pos (suc (suc (suc (suc n))))) h = ground arith
platform_value-to_platform_type (negsuc n) h = ground arith

usb_audio_value-to_usb_audio_type :
    (value : ℤ)
    → in_range value ≡ true
    → usb_audio_value (to_usb_audio_type (pos_part value)) ≡ value
usb_audio_value-to_usb_audio_type (pos zero) h = ground arith
usb_audio_value-to_usb_audio_type (pos (suc zero)) h = refl
usb_audio_value-to_usb_audio_type (pos (suc (suc zero))) h = refl
usb_audio_value-to_usb_audio_type (pos (suc (suc (suc zero)))) h = refl
usb_audio_value-to_usb_audio_type (pos (suc (suc (suc (suc n))))) h = ground arith
usb_audio_value-to_usb_audio_type (negsuc n) h = ground arith

set_audio_info-success :
    (rate platform usb : ℤ) (r : RaspaPimpl)
    → (set_audio_info rate platform usb r).0 ≡ pos 0
    → parameters_of (set_audio_info rate platform usb r).1
      ≡ ((r.num_driver_input_chans, r.num_driver_output_chans, r.cpu_affinity), (platform, usb))
unfolding set_audio_info set_num_chans
set_audio_info-success rate platform usb r h = elim (Bool-cases (in_range platform)) [
  | inl known ↦ elim (Bool-cases (in_range usb)) [
    | inl also ↦
        rw
          (
            known,
            also,
            platform_value-to_platform_type platform known,
            usb_audio_value-to_usb_audio_type usb also,
          )
          refl
    | inr other ↦ absurd (ground (arith, rw (known, other) at h))
  ]
  | inr other ↦ absurd (ground (arith, rw other at h))
]

pub get_audio_info-success :
    (w : World) (r : RaspaPimpl)
    → (get_audio_info_from_driver w r).0 ≡ pos 0
    → parameters_of (get_audio_info_from_driver w r).1 ≡ driver_parameters w
unfolding get_audio_info_from_driver
get_audio_info-success w r h = ground (
  arith,
  set_audio_info-success (get_sample_rate w.sysfs) (get_platform_type w.sysfs)
      (get_usb_audio_type w.sysfs)
      (record r {
        num_driver_input_chans = get_num_input_chan w.sysfs;
        num_driver_output_chans = get_num_output_chan w.sysfs;
        cpu_affinity = get_audio_irq_affinity w.sysfs;
      }),
)

pub get_audio_info-flags :
    (w : World) (r : RaspaPimpl)
    → ((get_audio_info_from_driver w r).1.detect_mode_sw ≡ r.detect_mode_sw)
      × ((get_audio_info_from_driver w r).1.run_logger_enable ≡ r.run_logger_enable)
unfolding get_audio_info_from_driver set_audio_info set_num_chans
get_audio_info-flags w r = ground arith
