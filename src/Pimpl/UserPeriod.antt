-- ===== src/Pimpl/UserPeriod.antt =====
-- src/raspa_pimpl.h: a whole call of `_perform_user_callback`, from the driver's input buffer to its
-- output buffer.
use raspa.Prelude.{
  ℕ, ◌+◌, ◌≤◌, ◌<◌, ◌≡◌, ◌⊎◌, inl, inr, refl, ap, ◌∙◌, List, [], Option, some, map, arith,
  get_elem?, false, length,
}
use raspa.Prelude.Memory.{
  words_at, write_words, length-words_at, get_or-words_at, write_words-get_or, write_words_outside,
}
use raspa.SampleConversion.Converter.{SampleConverter}
use raspa.Pimpl.State.{RaspaPimpl}
use raspa.Pimpl.DriverInfo.{is_native_alsa}
use raspa.Pimpl.UserCallback.{
  Period, convert_input, convert_output, convert_usb_input, convert_usb_output, log_period,
  run_callback, perform_user_callback,
}
use raspa.Pimpl.UserInput.{AreRows, convert_input-IsConverted}
use raspa.Pimpl.UserOutput.{place, convert_output-IsWritten}
use raspa.Pimpl.Pairing.{
  input_word, input_word-eq, ArePaired, ap_le, AreApart-paired, AreRows-room, AreRows-reads,
  ArePaired-writes,
}

-- Without USB audio, a period whose conversions are defined is defined.
perform_user_callback-plain :
    (p : Period) (input_at output_at : ℕ) (r : RaspaPimpl)
    (user_in user_out floats used made words : List ℕ)
    → is_native_alsa r.usb_audio_type ≡ false
    → r.user_audio_in ≡ some user_in
    → r.user_audio_out ≡ some user_out
    → convert_input r.input_sample_converter
        (words_at r.driver_memory input_at r.driver_buffer_size)
        user_in
      ≡ some floats
    → p.process floats user_out ≡ (used, made)
    → convert_output r.output_sample_converter made
        (words_at r.driver_memory output_at r.driver_buffer_size)
      ≡ some words
    → perform_user_callback p input_at output_at r
      ≡ some (
        [],
        record (log_period p (record r { user_audio_in = some used; user_audio_out = some made })) {
          driver_memory = write_words output_at words r.driver_memory;
        },
      )
unfolding perform_user_callback run_callback convert_usb_input convert_usb_output
perform_user_callback-plain p input_at output_at r user_in user_out floats used made words usb i o a
      b c =
    rw (i, o, usb, a, b, c) refl

-- Every word of an output channel is the one of the input channel of the same number, and no word of
-- the driver's memory outside of the output buffer has changed.
pub record PassesThrough (frames input_at output_at : ℕ) (ins outs : List SampleConverter)
    (r : RaspaPimpl) (result : Option (List ℕ × RaspaPimpl)) : Type 0 where
  pub after : RaspaPimpl
  pub returns : result ≡ some ([], after)
  pub same :
      (k i : ℕ) (c d : SampleConverter)
      → get_elem? ins k ≡ some c
      → get_elem? outs k ≡ some d
      → i < frames
      → after.driver_memory (output_at + place d i) ≡ r.driver_memory (input_at + place c i)
  pub others :
      (j : ℕ)
      → (j < output_at) ⊎ (output_at + r.driver_buffer_size ≤ j)
      → after.driver_memory j ≡ r.driver_memory j

-- Without USB audio, where the user's function gives any input of the buffer's length as its
-- output: with a row of the floats for each channel, frames within the driver's buffers, output
-- channels in pairs with input channels of the same format other than INT32, places of no two
-- output channels the same, and input words of the format, `_perform_user_callback` accesses
-- nothing out of range, each output channel holds the input channel's words, and the driver's
-- memory beside the output buffer is as it was.
pub perform_user_callback-PassesThrough :
    (p : Period) (frames input_at output_at : ℕ) (ins outs : List SampleConverter) (r : RaspaPimpl)
    (user_in user_out : List ℕ)
    → is_native_alsa r.usb_audio_type ≡ false
    → r.user_audio_in ≡ some user_in
    → r.user_audio_out ≡ some user_out
    → r.input_sample_converter ≡ map some ins
    → r.output_sample_converter ≡ map some outs
    → ((x : List ℕ) → length x ≡ length user_in → p.process x user_out ≡ (x, x))
    → AreRows frames 0 ins (words_at r.driver_memory input_at r.driver_buffer_size) user_in
    → ArePaired frames 0 ins outs
        (words_at r.driver_memory input_at r.driver_buffer_size)
        r.driver_buffer_size
    → PassesThrough frames input_at output_at ins outs r
        (perform_user_callback p input_at output_at r)
perform_user_callback-PassesThrough p frames input_at output_at ins outs r user_in user_out usb ui
      uo ci co copies rows paired =
    let size = r.driver_buffer_size in
    let src = words_at r.driver_memory input_at size in
    let dst = words_at r.driver_memory output_at size in
    let measured = length-words_at r.driver_memory output_at size in
    let read = convert_input-IsConverted frames 0 ins src user_in rows in
    let apart =
      AreApart-paired frames 0 ins outs src read.floats dst (input_word ins src)
        (λ k i. ap (λ (n : ℕ). input_word ins src n i) (omega arith))
        (λ k c e.
          ap_le refl (rw read.same_length (AreRows-room frames 0 ins src user_in rows k c e)))
        read.rows (rw measured paired) in
    let written = convert_output-IsWritten (input_word ins src) 0 outs read.floats dst apart in
    let made = written.words in
    record {
      after =
          record (log_period p
            (record r { user_audio_in = some read.floats; user_audio_out = some read.floats })) {
              driver_memory = write_words output_at made r.driver_memory;
            };
      returns =
          perform_user_callback-plain p input_at output_at r user_in user_out read.floats
            read.floats read.floats made usb ui uo (rw ci read.returns)
            (copies read.floats read.same_length) (rw co written.returns);
      same = λ k i c d e f q.
          let (own, fits) = ArePaired-writes frames 0 ins outs src size paired k i d f q in
          let reads = AreRows-reads frames 0 ins src user_in rows k i c e q in
          let counted = length-words_at r.driver_memory input_at size in
          write_words-get_or output_at made r.driver_memory (place d i)
            (omega (arith, written.same_length, measured, fits))
          ∙ written.inside k i d f own
          ∙ ap (λ (n : ℕ). input_word ins src n i) (let g : 0 + k ≡ k = omega arith in g)
          ∙ input_word-eq ins src k i c e
          ∙ get_or-words_at r.driver_memory input_at size (place c i)
              (omega (arith, counted, reads));
      others = λ j out. write_words_outside output_at made r.driver_memory j (elim out [
        | inl b ↦ inl b
        | inr b ↦ inr (omega (arith, written.same_length, measured, b))
      ]);
    }
