-- ===== src/Pimpl/Converters.antt =====
-- src/raspa_pimpl.h: the sample converters of the channels, from the driver's channel infos.
use raspa.Prelude.{
  ℕ, zero, suc, List, [], ◌∷◌, Option, none, some, Bool, not, if◌then◌else◌, replicate, length,
}
use raspa.Prelude.Int.{ℤ, pos, pos_part, ltb_ℤ}
use raspa.DriverConfig.{check_codec_format, CodecFormat, int32}
use raspa.SampleConversion.Converter.{SampleConverter}
use raspa.SampleConversion.Select.{get_sample_converter}
use raspa.ErrorCodes
use raspa.ErrorCodes.{failure}
use raspa.Pimpl.Layout.{num_alsa_usb_channels}
use raspa.Pimpl.State.{World, RaspaPimpl, Step, ChannelInfo, and_then}
use raspa.Pimpl.DriverInfo.{fail_with, is_native_alsa}

-- The infos of `count` channels from `i` on
unfoldable pub chan_infos : (ℕ → ChannelInfo) → (count i : ℕ) → List ChannelInfo
chan_infos info zero i = []
chan_infos info (suc count) i = info i ∷ chan_infos info count (suc i)

abbrev pub null_converters : ℕ → List (Option SampleConverter)
null_converters n = replicate n none

unfoldable pub channel_converter :
    (frames chan_id : ℕ) → CodecFormat → ChannelInfo → Option SampleConverter
channel_converter frames chan_id format info =
    get_sample_converter chan_id frames format info.start_offset_in_words info.stride_in_words

-- The loop over the infos of one direction: the converters of the channels from `chan_id` on. Those
-- that it does not come to stay null.
unfoldable pub channel_converters :
    (frames chan_id : ℕ) → List ChannelInfo → ℤ × List (Option SampleConverter)
channel_converters frames chan_id [] = (pos 0, [])
channel_converters frames chan_id (info ∷ infos) =
    let rest = channel_converters frames (suc chan_id) infos in
    let nulls = null_converters (suc (length infos)) in
    let checked = check_codec_format (pos info.sample_format) in
    if not checked.0
    then (failure ErrorCodes.raspa_ecodec_format, nulls)
    else elim (channel_converter frames chan_id checked.1 info) [
      | none ↦ (failure ErrorCodes.raspa_ebuffer_size_sc, nulls)
      | some converter ↦ (rest.0, some converter ∷ rest.1)
    ]

-- `get_sample_converter` for each virtual channel; ALSA_USB_CODEC_FORMAT is INT32.
unfoldable pub usb_converter : (frames i : ℕ) → Option SampleConverter
usb_converter frames i = get_sample_converter i frames int32 i num_alsa_usb_channels

unfoldable pub init_usb_converters : RaspaPimpl → Step
init_usb_converters r =
    let frames = pos_part r.buffer_size_in_frames in
    let both = usb_converter frames 0 ∷ usb_converter frames 1 ∷ [] in
    if is_native_alsa r.usb_audio_type
    then (pos 0, record r { input_usb_sample_converter = both; output_usb_sample_converter = both })
    else (pos 0, r)

unfoldable pub init_output_converters : World → RaspaPimpl → Step
init_output_converters w r =
    let made =
      channel_converters (pos_part r.buffer_size_in_frames) 0
        (chan_infos w.output_chan_info (pos_part r.num_driver_output_chans) 0) in
    (made.0, record r { output_sample_converter = made.1 })

unfoldable pub init_input_converters : World → RaspaPimpl → Step
init_input_converters w r =
    let made =
      channel_converters (pos_part r.buffer_size_in_frames) 0
        (chan_infos w.input_chan_info (pos_part r.num_driver_input_chans) 0) in
    (made.0, record r { input_sample_converter = made.1 })

abbrev pub is_negative : ℤ → Bool
is_negative res = ltb_ℤ res (pos 0)

unfoldable pub init_all_converters : World → RaspaPimpl → Step
init_all_converters w r =
    and_then is_negative (λ r. r) (init_input_converters w r)
      (λ r. and_then is_negative (λ r. r) (init_output_converters w r) init_usb_converters)

abbrev pub resize_converters : RaspaPimpl → RaspaPimpl
resize_converters r = record r {
  input_sample_converter = null_converters (pos_part r.num_driver_input_chans);
  output_sample_converter = null_converters (pos_part r.num_driver_output_chans);
}

unfoldable pub init_sample_converter : World → RaspaPimpl → Step
init_sample_converter w r =
    let resized = resize_converters r in
    if ltb_ℤ w.input_info_result (pos 0)
    then fail_with ErrorCodes.raspa_eparam_input_audio_info w.input_info_result resized
    else if ltb_ℤ w.output_info_result (pos 0)
    then fail_with ErrorCodes.raspa_eparam_output_audio_info w.output_info_result resized
    else init_all_converters w resized

unfoldable pub deinit_sample_converter : RaspaPimpl → RaspaPimpl
deinit_sample_converter r =
    let cleared : RaspaPimpl = record r {
      input_sample_converter = [];
      output_sample_converter = [];
    } in
    if is_native_alsa r.usb_audio_type
    then record cleared { input_usb_sample_converter = []; output_usb_sample_converter = [] }
    else cleared
