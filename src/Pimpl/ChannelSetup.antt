-- ===== src/Pimpl/ChannelSetup.antt =====
-- src/raspa_pimpl.h: the sample converters that `_init_sample_converter` makes.
use raspa.Prelude.{
  ℕ, suc, ◌≡◌, refl, sym, inl, inr, List, [], ◌∷◌, Option, some, true, false, arith, Bool-cases,
  Option-cases,
}
use raspa.Prelude.Int.{pos, negsuc, ltb_ℤ, pos_part}
use raspa.DriverConfig.{check_codec_format}
use raspa.SampleConversion.Converter.{SampleConverter}
use raspa.Pimpl.State.{World, RaspaPimpl, ChannelInfo, and_then}
use raspa.Pimpl.DriverInfo.{is_native_alsa}
use raspa.Pimpl.Converters.{
  channel_converters, channel_converter, chan_infos, init_sample_converter, init_input_converters,
  init_output_converters, init_usb_converters, init_all_converters, resize_converters, is_negative,
}
use raspa.Pimpl.Chain.{and_then-success}

-- The channels' converters, one for each info: the one that its format, offset and stride ask for.
abbrev pub AreConverters :
    (frames chan_id : ℕ) → List ChannelInfo → List (Option SampleConverter) → Type 0
AreConverters frames chan_id [] cs = cs ≡ []
AreConverters frames chan_id (info ∷ infos) [] = ⊥
AreConverters frames chan_id (info ∷ infos) (c ∷ cs) =
    ((converter : SampleConverter) × (c ≡ some converter))
    × (c ≡ channel_converter frames chan_id (check_codec_format (pos info.sample_format)).1 info)
    × ((check_codec_format (pos info.sample_format)).0 ≡ true)
    × AreConverters frames (suc chan_id) infos cs

pub channel_converters-AreConverters :
    (frames chan_id : ℕ) (infos : List ChannelInfo)
    → is_negative (channel_converters frames chan_id infos).0 ≡ false
    → AreConverters frames chan_id infos (channel_converters frames chan_id infos).1
unfolding channel_converters
channel_converters-AreConverters frames chan_id [] h = refl
channel_converters-AreConverters frames chan_id (info ∷ infos) h =
    elim (Bool-cases (check_codec_format (pos info.sample_format)).0) [
      | inl good ↦
          elim (Option-cases (
            channel_converter frames chan_id (check_codec_format (pos info.sample_format)).1
              info)) [
                | inl null ↦ ground arith
                | inr (c, made) ↦
                    let rest =
                      channel_converters-AreConverters frames (suc chan_id) infos
                        (rw (good, made) at h) in
                    rw (good, made) ((c, refl), sym made, good, rest)
              ]
      | inr bad ↦ ground arith
    ]

init_usb_converters-eq :
    (r : RaspaPimpl)
    → ((init_usb_converters r).0 ≡ pos 0)
      × ((init_usb_converters r).1 ≡ record r {
        input_usb_sample_converter = (init_usb_converters r).1.input_usb_sample_converter;
        output_usb_sample_converter = (init_usb_converters r).1.output_usb_sample_converter;
      })
unfolding init_usb_converters
init_usb_converters-eq r = elim (Bool-cases (is_native_alsa r.usb_audio_type)) [
  | inl usb ↦ (rw usb refl, rw usb refl)
  | inr other ↦ (rw other refl, rw other refl)
]

-- The converters of both directions stand for what the driver said of the channels.
pub record HasConverters (w : World) (r : RaspaPimpl) : Type 0 where
  pub inputs :
      AreConverters
        (pos_part r.buffer_size_in_frames)
        0
        (chan_infos w.input_chan_info (pos_part r.num_driver_input_chans) 0)
        r.input_sample_converter
  pub outputs :
      AreConverters
        (pos_part r.buffer_size_in_frames)
        0
        (chan_infos w.output_chan_info (pos_part r.num_driver_output_chans) 0)
        r.output_sample_converter

-- The state with converters given anew.
abbrev pub with_converters_of : RaspaPimpl → RaspaPimpl → RaspaPimpl
with_converters_of r done = record r {
  input_sample_converter = done.input_sample_converter;
  output_sample_converter = done.output_sample_converter;
  input_usb_sample_converter = done.input_usb_sample_converter;
  output_usb_sample_converter = done.output_usb_sample_converter;
}

after_usb :
    (w : World) (r : RaspaPimpl)
    → is_negative (init_input_converters w r).0 ≡ false
    → is_negative (init_output_converters w (init_input_converters w r).1).0 ≡ false
    → let done =
        (init_usb_converters (init_output_converters w (init_input_converters w r).1).1).1 in
      (done ≡ with_converters_of r done) × HasConverters w done
unfolding init_usb_converters init_output_converters init_input_converters
after_usb w r h k =
    let frames = pos_part r.buffer_size_in_frames in
    let made_in =
      channel_converters-AreConverters frames 0
        (chan_infos w.input_chan_info (pos_part r.num_driver_input_chans) 0) h in
    let made_out =
      channel_converters-AreConverters frames 0
        (chan_infos w.output_chan_info (pos_part r.num_driver_output_chans) 0) k in
    elim (Bool-cases (is_native_alsa r.usb_audio_type)) [
      | inl usb ↦ (rw usb refl, rw usb (record { inputs = made_in; outputs = made_out }))
      | inr other ↦ (rw other refl, rw other (record { inputs = made_in; outputs = made_out }))
    ]

init_all_converters-success :
    (w : World) (r : RaspaPimpl)
    → (init_all_converters w r).0 ≡ pos 0
    → ((init_all_converters w r).1 ≡ with_converters_of r (init_all_converters w r).1)
      × HasConverters w (init_all_converters w r).1
unfolding init_all_converters
init_all_converters-success w r h =
    let input = init_input_converters w r in
    let output = init_output_converters w input.1 in
    let (passed_in, to_output) =
      and_then-success is_negative (λ r. r) input
        (λ r. and_then is_negative (λ r. r) (init_output_converters w r) init_usb_converters) refl
        h in
    let (passed_out, to_usb) =
      and_then-success is_negative (λ r. r) output init_usb_converters refl (rw to_output at h) in
    rw (passed_in, passed_out) (after_usb w r passed_in passed_out)

pub init_sample_converter-success :
    (w : World) (r : RaspaPimpl)
    → (init_sample_converter w r).0 ≡ pos 0
    → ((init_sample_converter w r).1 ≡ with_converters_of r (init_sample_converter w r).1)
      × HasConverters w (init_sample_converter w r).1
unfolding init_sample_converter
init_sample_converter-success w r h = elim (Bool-cases (ltb_ℤ w.input_info_result (pos 0))) [
  | inl failed ↦ absurd (let e : negsuc 214 ≡ pos 0 = rw failed at h in cc e)
  | inr has_inputs ↦ elim (Bool-cases (ltb_ℤ w.output_info_result (pos 0))) [
    | inl failed ↦ absurd (let e : negsuc 215 ≡ pos 0 = rw (has_inputs, failed) at h in cc e)
    | inr has_outputs ↦
        rw (has_inputs, has_outputs)
          (init_all_converters-success w (resize_converters r) (rw (has_inputs, has_outputs) at h))
  ]
]
