-- ===== src/Programs/LoopbackPeriod.antt =====
-- src/apps/loopback.c in a period of src/raspa_pimpl.h: from the codec's words to the codec's words.
use raspa.Prelude.{ℕ, ◌*◌, ◌≡◌, refl, ◌∙◌, List, none, some, map, length, false}
use raspa.Prelude.Memory.{words_at}
use raspa.SampleConversion.Converter.{SampleConverter}
use raspa.Pimpl.State.{RaspaPimpl}
use raspa.Pimpl.DriverInfo.{is_native_alsa}
use raspa.Pimpl.UserCallback.{Period, perform_user_callback}
use raspa.Pimpl.UserInput.{AreRows}
use raspa.Pimpl.Pairing.{ArePaired}
use raspa.Pimpl.UserPeriod.{PassesThrough, perform_user_callback-PassesThrough}
use raspa.Programs.Loopback.{normal_process, normal_process-all}

-- The two buffers after the callback. Where that is undefined they are as they were, which no
-- theorem uses.
abbrev pub loopback :
    (num_frames num_input_chans num_output_chans : ℕ) → (input output : List ℕ) → List ℕ × List ℕ
loopback num_frames num_input_chans num_output_chans input output =
    elim (normal_process num_frames num_input_chans num_output_chans input output) [
      | none ↦ (input, output)
      | some made ↦ (input, made)
    ]

-- The loopback program in its normal mode sends back what comes in: without USB audio, with as many
-- output as input channels, user buffers of just their frames and the channels set up as for
-- `perform_user_callback-PassesThrough`, each output channel of the driver's memory gets the words
-- of the input channel of the same number, bit by bit, and the memory beside the output buffer is as
-- it was.
pub loopback-PassesThrough :
    (p : Period) (num_frames num_chans input_at output_at : ℕ) (ins outs : List SampleConverter)
    (r : RaspaPimpl) (user_in user_out : List ℕ)
    → ((x y : List ℕ) → p.process x y ≡ loopback num_frames num_chans num_chans x y)
    → length user_in ≡ num_chans * num_frames
    → length user_out ≡ num_chans * num_frames
    → is_native_alsa r.usb_audio_type ≡ false
    → r.user_audio_in ≡ some user_in
    → r.user_audio_out ≡ some user_out
    → r.input_sample_converter ≡ map some ins
    → r.output_sample_converter ≡ map some outs
    → AreRows num_frames 0 ins (words_at r.driver_memory input_at r.driver_buffer_size) user_in
    → ArePaired num_frames 0 ins outs
        (words_at r.driver_memory input_at r.driver_buffer_size)
        r.driver_buffer_size
    → PassesThrough num_frames input_at output_at ins outs r
        (perform_user_callback p input_at output_at r)
loopback-PassesThrough p num_frames num_chans input_at output_at ins outs r user_in user_out runs
      in_length out_length usb ui uo ci co rows paired =
    perform_user_callback-PassesThrough p num_frames input_at output_at ins outs r user_in user_out
      usb ui uo ci co
      (λ x same.
        runs x user_out
        ∙ (rw
            (
              loopback,
              normal_process-all num_frames num_chans x user_out (same ∙ in_length) out_length,
            )
            refl))
      rows paired
