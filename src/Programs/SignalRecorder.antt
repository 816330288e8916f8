-- ===== src/Programs/SignalRecorder.antt =====
-- src/apps/signal_recorder/signal_recorder.h: class SignalRecorder, and the check of the channels in
-- src/apps/signal_recorder/signal_recorder.cpp. `none` is an access out of range.
use raspa.Prelude.{
  ℕ, zero, suc, ◌+◌, ◌*◌, List, [], ◌∷◌, Option, some, none, Bool, true, false, ltb, leb, ◌==◌,
  if◌then◌else◌, ◌>>=◌, get_elem?, store, replicate, ◌&&◌, not,
}
use raspa.Prelude.Int.{ℤ, pos, negsuc, ltb_ℤ}

abbrev pub num_interrupts_to_ignore : ℕ
num_interrupts_to_ignore = 1000

-- Samples are words. `tone` gives the sample for a value of `_output_sample_counter`: the amplitude
-- times the sine, in `double`, of the counter by the two frequencies.
pub record SignalRecorder : Type 0 where
  pub input_chan_list : List ℕ
  pub output_chan_list : List ℕ
  pub tone : ℕ → ℕ
  pub num_buffers_to_record : ℕ
  pub output_sample_counter : ℕ
  pub input_buffer_counter : ℕ
  pub interrupt_counter : ℕ
  pub done_recording : Bool
  pub num_frames : ℕ
  pub sampling_freq : ℕ
  pub recording_buffer : List (List ℕ)

-- A vector that has `size` zeros, as `resize` leaves it of one that was empty or has that size
abbrev zeros : ℕ → List ℕ
zeros size = replicate size 0

-- `for(auto chan : _input_chan_list)` of `init`
unfoldable pub alloc_recording : (size : ℕ) → List ℕ → List (List ℕ) → Option (List (List ℕ))
alloc_recording size [] buffer = some buffer
alloc_recording size (chan ∷ chans) buffer =
    store buffer chan (zeros size) >>= (λ sized. alloc_recording size chans sized)

-- The constructor and `init`
unfoldable pub init :
    (input_chan_list output_chan_list : List ℕ) (tone : ℕ → ℕ)
    (num_buffers_to_record num_input_chans sampling_freq num_frames : ℕ)
    → Option SignalRecorder
init input_chan_list output_chan_list tone num_buffers_to_record num_input_chans sampling_freq
      num_frames =
    alloc_recording (num_buffers_to_record * num_frames) input_chan_list
      (replicate num_input_chans [])
    >>= (λ buffer. some (record {
      input_chan_list = input_chan_list;
      output_chan_list = output_chan_list;
      tone = tone;
      num_buffers_to_record = num_buffers_to_record;
      output_sample_counter = 0;
      input_buffer_counter = 0;
      interrupt_counter = 0;
      done_recording = false;
      num_frames = num_frames;
      sampling_freq = sampling_freq;
      recording_buffer = buffer;
    }))

-- The list of channels that `main` hands over, as `init` indexes the recordings by it: a negative
-- index is undefined.
unfoldable pub indices : List ℤ → Option (List ℕ)
indices [] = some []
indices (pos chan ∷ chans) = indices chans >>= (λ rest. some (chan ∷ rest))
indices (negsuc chan ∷ chans) = none

unfoldable pub init_listed :
    (input_chan_list : List ℤ) (output_chan_list : List ℕ) (tone : ℕ → ℕ)
    (num_buffers_to_record num_input_chans sampling_freq num_frames : ℕ)
    → Option SignalRecorder
init_listed input_chan_list output_chan_list tone num_buffers_to_record num_input_chans
      sampling_freq num_frames =
    indices input_chan_list >>= (λ chans.
      init chans output_chan_list tone num_buffers_to_record num_input_chans sampling_freq
        num_frames)

-- One frame of the tone to each channel of the list
unfoldable pub write_channels :
    (num_frames i output_sample : ℕ) → List ℕ → (output : List ℕ) → Option (List ℕ)
write_channels num_frames i output_sample [] output = some output
write_channels num_frames i output_sample (chan ∷ chans) output =
    store output (i + chan * num_frames) output_sample
    >>= (λ stored. write_channels num_frames i output_sample chans stored)

abbrev pub next_sample : (sampling_freq counter : ℕ) → ℕ
next_sample sampling_freq counter = if counter + 1 == sampling_freq then 0 else counter + 1

-- `left` frames from `i` on
unfoldable pub write_frames :
    SignalRecorder → (left i counter : ℕ) → (output : List ℕ) → Option (ℕ × List ℕ)
write_frames s zero i counter output = some (counter, output)
write_frames s (suc left) i counter output =
    write_channels s.num_frames i (s.tone counter) s.output_chan_list output
    >>= (λ written. write_frames s left (i + 1) (next_sample s.sampling_freq counter) written)

unfoldable pub generate_output :
    (output : List ℕ) → SignalRecorder → Option (List ℕ × SignalRecorder)
generate_output output s =
    write_frames s s.num_frames 0 s.output_sample_counter output
    >>= (λ (counter, written). some (written, record s { output_sample_counter = counter }))

-- One frame of each channel of the list
unfoldable pub record_channels :
    (num_frames i sample_index : ℕ)
    → List ℕ
    → (input : List ℕ) → List (List ℕ)
    → Option (List (List ℕ))
record_channels num_frames i sample_index [] input buffer = some buffer
record_channels num_frames i sample_index (chan ∷ chans) input buffer =
    get_elem? buffer chan >>= (λ row. get_elem? input (i + chan * num_frames) >>= (λ sample.
      store row sample_index sample >>= (λ recorded.
        store buffer chan recorded
        >>= (λ stored. record_channels num_frames i sample_index chans input stored))))

-- `left` frames from `i` on
unfoldable pub record_frames :
    (num_frames left i sample_index : ℕ)
    → List ℕ
    → (input : List ℕ) → List (List ℕ)
    → Option (List (List ℕ))
record_frames num_frames zero i sample_index chans input buffer = some buffer
record_frames num_frames (suc left) i sample_index chans input buffer =
    record_channels num_frames i sample_index chans input buffer
    >>= (λ recorded. record_frames num_frames left (i + 1) (sample_index + 1) chans input recorded)

-- The end of `_record_inputs`
unfoldable pub count_buffer : SignalRecorder → SignalRecorder
count_buffer s =
    let counted = s.input_buffer_counter + 1 in
    record s {
      input_buffer_counter = counted;
      done_recording = if counted == s.num_buffers_to_record then true else s.done_recording;
    }

unfoldable pub record_inputs : (input : List ℕ) → SignalRecorder → Option SignalRecorder
record_inputs input s =
    let sample_index = s.input_buffer_counter * s.num_frames in
    if ltb s.interrupt_counter num_interrupts_to_ignore
    then some (record s { interrupt_counter = s.interrupt_counter + 1 })
    else if leb s.num_buffers_to_record s.input_buffer_counter
    then some s
    else record_frames s.num_frames s.num_frames 0 sample_index s.input_chan_list input
        s.recording_buffer
      >>= (λ buffer. some (count_buffer (record s { recording_buffer = buffer })))

-- `_internal_process_callback`: the output, and the object
unfoldable pub internal_process_callback :
    (input output : List ℕ) → SignalRecorder → Option (List ℕ × SignalRecorder)
internal_process_callback input output s =
    generate_output output s
    >>= (λ (written, toned). record_inputs input toned >>= (λ recorded. some (written, recorded)))

-- The periods one after the other, each with its input and its output buffer
unfoldable pub run_periods : List (List ℕ × List ℕ) → SignalRecorder → Option SignalRecorder
run_periods [] s = some s
run_periods ((input, output) ∷ periods) s =
    internal_process_callback input output s >>= (λ (written, after). run_periods periods after)

-- The check of the listed channels in `main`
unfoldable pub channels_exist : (num_chans : ℤ) → List ℤ → Bool
channels_exist num_chans [] = true
channels_exist num_chans (chan ∷ chans) =
    not (ltb_ℤ num_chans chan) && channels_exist num_chans chans
