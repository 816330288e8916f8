-- ===== src/Programs/Tests.antt =====
-- The theorems about the programs at concrete inputs.
use raspa.Prelude.{
  ℕ, zero, suc, ◌+◌, ◌*◌, ◌≤◌, ◌<◌, ◌≡◌, refl, ap, sym, List, [], ◌∷◌, some, none, true, arith,
  get_elem?, replicate, ◌>>=◌, length,
}
use mathlib.Core.Option.{some-injective}
use raspa.Prelude.Int.{ℤ, pos}
use raspa.Programs.SignalRecorder.{
  SignalRecorder, init, init_listed, indices, alloc_recording, run_periods,
  internal_process_callback, generate_output, write_frames, write_channels, record_inputs,
  record_frames, record_channels, count_buffer,
}
use raspa.Programs.Periods.{after_periods, Holds}
use raspa.Programs.Recorder.{AllWithin, inputs_of, recorder-Holds}
use raspa.Pimpl.UserCallback.{Period, perform_user_callback}
use raspa.Pimpl.UserPeriod.{PassesThrough}
use raspa.Pimpl.RtTests.{period, channel}
use raspa.Pimpl.PeriodTests.{zeros, ready, crossed, channels-AreRows, channels-ArePaired}
use raspa.Programs.LoopbackPeriod.{loopback, loopback-PassesThrough}

-- Two channels of two frames
abbrev looping : Period
looping = record period { process = loopback 2 2 2 }

loopback-PassesThrough_example :
    PassesThrough 2 0 8
      (channel 0 ∷ channel 1 ∷ [])
      (crossed 0 ∷ crossed 1 ∷ [])
      ready
      (perform_user_callback looping 0 8 ready)
loopback-PassesThrough_example =
    loopback-PassesThrough looping 2 2 0 8 (channel 0 ∷ channel 1 ∷ []) (crossed 0 ∷ crossed 1 ∷ [])
      ready zeros zeros (λ x y. refl) refl refl refl refl refl refl refl channels-AreRows
      channels-ArePaired

-- A recorder of the second of two channels, with the tone on both, for one buffer of two frames; the
-- counter is its own sample.
abbrev chans : List ℕ
chans = 1 ∷ []

abbrev all_chans : List ℕ
all_chans = 0 ∷ 1 ∷ []

abbrev period_of : List ℕ × List ℕ
period_of = (5 ∷ 6 ∷ 7 ∷ 8 ∷ [], 0 ∷ 0 ∷ 0 ∷ 0 ∷ [])

abbrev self : ℕ → ℕ
self n = n

below_two : (k c : ℕ) → get_elem? all_chans k ≡ some c → (c + 1) * 2 ≤ 4
below_two zero c e = let same : 0 ≡ c = some-injective _ _ e in omega arith
below_two (suc zero) c e = let same : 1 ≡ c = some-injective _ _ e in omega arith
below_two (suc (suc k)) c e = absurd (ground (arith, e))

listed_exists : (k c : ℕ) → get_elem? chans k ≡ some c → c < 2
listed_exists zero c e = let same : 1 ≡ c = some-injective _ _ e in omega arith
listed_exists (suc k) c e = absurd (ground (arith, e))

repeated-AllWithin : (n : ℕ) → AllWithin 2 chans all_chans (replicate n period_of)
repeated-AllWithin zero k i o e = absurd (ground (arith, e))
repeated-AllWithin (suc n) zero i o e =
    let same : period_of ≡ (i, o) = some-injective _ _ e in
    (
      λ k c f.
          rw (sym (ap (λ (p : List ℕ × List ℕ). p.0) same))
            (let below = listed_exists k c f in omega (arith, below)),
      λ k c f. rw (sym (ap (λ (p : List ℕ × List ℕ). p.1) same)) (below_two k c f),
    )
repeated-AllWithin (suc n) (suc k) i o e = repeated-AllWithin n k i o e

recorder-Holds_example :
    (s : SignalRecorder) × (out : List (List ℕ)) × (init chans all_chans self 1 2 48000 2 ≡ some s)
    × (run_periods (replicate 1002 period_of) s
        ≡ some (after_periods s (length (replicate 1002 period_of)) out))
    × Holds s (inputs_of (replicate 1002 period_of)) out
recorder-Holds_example =
    recorder-Holds chans all_chans self 1 2 48000 2 (replicate 1002 period_of) (omega arith)
      (omega arith) listed_exists (repeated-AllWithin 1002)

-- Of two channels 0 and 1, channel 2 is asked for.
abbrev listed : List ℤ
listed = pos 1 ∷ pos 2 ∷ []

out_of_range : init_listed listed [] self 1 2 48000 2 ≡ none
unfolding init_listed indices init alloc_recording
out_of_range = refl

-- The one recorded period stands in the recording of channel 1, the tone's counter after the periods
-- at 2004.
recorded_once :
    (init chans all_chans self 1 2 48000 2 >>= run_periods (replicate 1002 period_of))
    ≡ some (record {
      input_chan_list = chans;
      output_chan_list = all_chans;
      tone = self;
      num_buffers_to_record = 1;
      output_sample_counter = 2004;
      input_buffer_counter = 1;
      interrupt_counter = 1000;
      done_recording = true;
      num_frames = 2;
      sampling_freq = 48000;
      recording_buffer = [] ∷ (7 ∷ 8 ∷ []) ∷ [];
    })
unfolding init alloc_recording run_periods internal_process_callback generate_output write_frames
    write_channels record_inputs record_frames record_channels count_buffer
recorded_once = refl
