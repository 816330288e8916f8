-- ===== src/Pimpl/UserCallback.antt =====
-- src/raspa_pimpl.h: `_perform_user_callback`, from the driver's buffers through the user's to the
-- driver's again. `none` is an access that is undefined: outside of a buffer, of a buffer that was
-- not allocated, or through a null converter.
use raspa.Prelude.{
  ℕ, ◌+◌, ◌*◌, List, [], ◌∷◌, ◌++◌, Option, none, some, if◌then◌else◌, take, drop, replicate, ◌>>=◌,
}
use raspa.Prelude.Int.{pos_part}
use raspa.RunLogger
use raspa.SampleConversion.Converter.{
  SampleConverter, codec_format_to_float32n, float32n_to_codec_format,
}
use raspa.Pimpl.Layout.{num_alsa_usb_channels, user_audio_usb}
use raspa.Pimpl.State.{RaspaPimpl}
use raspa.Pimpl.DriverInfo.{is_native_alsa}
use raspa.Prelude.Memory.{words_at, write_words}

-- The loops over the converters
unfoldable pub convert_input :
    List (Option SampleConverter) → (codec_words floats : List ℕ) → Option (List ℕ)
convert_input [] codec_words floats = some floats
convert_input (none ∷ cs) codec_words floats = none
convert_input (some c ∷ cs) codec_words floats =
    codec_format_to_float32n c floats codec_words >>= convert_input cs codec_words

unfoldable pub convert_output :
    List (Option SampleConverter) → (floats codec_words : List ℕ) → Option (List ℕ)
convert_output [] floats codec_words = some codec_words
convert_output (none ∷ cs) floats codec_words = none
convert_output (some c ∷ cs) floats codec_words =
    float32n_to_codec_format c codec_words floats >>= convert_output cs floats

-- What a period brings from outside: the user's function, the USB samples that `_alsa_usb` has (the
-- code clears that buffer of it after use), the buffer that it gives for those to send, and the
-- times for the run logger.
pub record Period : Type 0 where
  pub process : List ℕ → List ℕ → List ℕ × List ℕ
  pub usb_in : Option (List ℕ)
  pub usb_out : List ℕ
  pub start_time : ℕ
  pub end_time : ℕ

-- The virtual channels come first, cleared if there are no samples for them.
unfoldable pub convert_usb_input : Period → RaspaPimpl → List ℕ → Option (List ℕ)
convert_usb_input p r floats =
    let frames = pos_part r.buffer_size_in_frames in
    let place = user_audio_usb (pos_part r.num_driver_input_chans) frames in
    let cleared = frames * num_alsa_usb_channels in
    if is_native_alsa r.usb_audio_type
    then elim (p.usb_in) [
      | none ↦ some (take place floats ++ (replicate cleared 0 ++ drop (place + cleared) floats))
      | some words ↦
          convert_input r.input_usb_sample_converter words (drop place floats)
          >>= (λ usb. some (take place floats ++ usb))
    ]
    else some floats

-- The samples that go to `put_usb_output_samples`
unfoldable pub convert_usb_output : Period → RaspaPimpl → List ℕ → Option (List ℕ)
convert_usb_output p r floats =
    let place =
      user_audio_usb (pos_part r.num_driver_output_chans) (pos_part r.buffer_size_in_frames) in
    if is_native_alsa r.usb_audio_type
    then convert_output r.output_usb_sample_converter (drop place floats) p.usb_out
    else some []

unfoldable pub log_period : Period → RaspaPimpl → RaspaPimpl
log_period p r =
    if r.run_logger_enable
    then record r { run_logger = RunLogger.put p.start_time p.end_time r.run_logger }
    else r

-- With the words of the input and of the output buffer: the words to write, those to send over
-- USB, and the state.
unfoldable pub run_callback :
    Period
    → (words_in words_out user_in user_out : List ℕ) → RaspaPimpl
    → Option (List ℕ × List ℕ × RaspaPimpl)
run_callback p words_in words_out user_in user_out r =
    convert_usb_input p r user_in >>= (λ with_usb.
      convert_input r.input_sample_converter words_in with_usb >>= (λ floats.
        let (used_in, made) = p.process floats user_out in
        convert_output r.output_sample_converter made words_out >>= (λ words.
          convert_usb_output p r made >>= (λ usb. some (
            words,
            usb,
            log_period p (record r { user_audio_in = some used_in; user_audio_out = some made }),
          )))))

unfoldable pub perform_user_callback :
    Period → (input_at output_at : ℕ) → RaspaPimpl → Option (List ℕ × RaspaPimpl)
perform_user_callback p input_at output_at r =
    let words_in = words_at r.driver_memory input_at r.driver_buffer_size in
    let words_out = words_at r.driver_memory output_at r.driver_buffer_size in
    r.user_audio_in >>= (λ user_in. r.user_audio_out >>= (λ user_out.
      run_callback p words_in words_out user_in user_out r >>= (λ (words, usb, done).
        some (usb, record done { driver_memory = write_words output_at words r.driver_memory }))))
