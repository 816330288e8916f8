-- ===== src/Programs/Periods.antt =====
-- src/apps/signal_recorder/signal_recorder.h: the recorder after any number of periods.
use raspa.Prelude.{
  ℕ, ◌+◌, ◌-◌, ◌*◌, ◌%◌, ◌≤◌, ◌<◌, ◌≡◌, ap, sym, ◌∙◌, inl, List, [], ◌∷◌, ◌++◌, some, false, arith,
  min, length, get_elem?, get_or, ltb, leb, length-append, get_or-append_left, get_or-append_last,
  Bool,
}
use native.Mathlib.Decide.{dec_lt}
use raspa.Pimpl.Layout.{row_lt}
use raspa.Programs.SignalRecorder.{
  SignalRecorder, num_interrupts_to_ignore, record_inputs, record_frames, count_buffer,
}
use raspa.Programs.Rows.{HasRows, sample_at}
use raspa.Programs.Recording.{input_at, Records, AtIndices}

-- The recorder `r` with its counters, the flag and the buffer
abbrev pub state_of :
    SignalRecorder → (samples interrupts buffers : ℕ) (done : Bool) → List (List ℕ) → SignalRecorder
state_of r samples interrupts buffers done buffer = record r {
  output_sample_counter = samples % r.sampling_freq;
  interrupt_counter = interrupts;
  input_buffer_counter = buffers;
  done_recording = done;
  recording_buffer = buffer;
}

-- The number of periods of `n` that were recorded
abbrev pub recorded : SignalRecorder → (n : ℕ) → ℕ
recorded r n = min (n - num_interrupts_to_ignore) r.num_buffers_to_record

-- After `n` periods the tone stands where they end, the first 1000 were only counted, each one after
-- them was recorded until there are enough, and the flag says that there are.
abbrev pub after_periods : SignalRecorder → (n : ℕ) → List (List ℕ) → SignalRecorder
after_periods r n buffer =
    state_of r (n * r.num_frames) (min n num_interrupts_to_ignore) (recorded r n)
      (leb r.num_buffers_to_record (n - num_interrupts_to_ignore)) buffer

-- The recordings have room for all periods, and hold the inputs of those that were recorded.
pub record Holds (r : SignalRecorder) (inputs : List (List ℕ)) (buffer : List (List ℕ))
    : Type 0 where
  pub rows : HasRows r.input_chan_list (r.num_buffers_to_record * r.num_frames) buffer
  pub samples :
      (k c b i : ℕ)
      → get_elem? r.input_chan_list k ≡ some c
      → b < recorded r (length inputs)
      → i < r.num_frames
      → sample_at buffer c (b * r.num_frames + i)
        ≡ get_or (get_or inputs (num_interrupts_to_ignore + b) []) (i + c * r.num_frames) 0

module _ (r : SignalRecorder) (enough : 0 < r.num_buffers_to_record) where
  -- The tone's counter is already the next one.
  abbrev pub toned : (n : ℕ) → List (List ℕ) → SignalRecorder
  toned n buffer =
      state_of r ((n + 1) * r.num_frames) (min n num_interrupts_to_ignore) (recorded r n)
        (leb r.num_buffers_to_record (n - num_interrupts_to_ignore)) buffer

  pub ignored :
      (n : ℕ) (input : List ℕ) (buffer : List (List ℕ))
      → n < num_interrupts_to_ignore
      → record_inputs input (toned n buffer) ≡ some (after_periods r (n + 1) buffer)
  unfolding record_inputs
  ignored n input buffer h = ground arith

  pub full :
      (n : ℕ) (input : List ℕ) (buffer : List (List ℕ))
      → num_interrupts_to_ignore ≤ n
      → r.num_buffers_to_record ≤ n - num_interrupts_to_ignore
      → record_inputs input (toned n buffer) ≡ some (after_periods r (n + 1) buffer)
  unfolding record_inputs
  full n input buffer h filled = ground arith

  counted :
      (n : ℕ) (buffer out : List (List ℕ))
      → num_interrupts_to_ignore ≤ n
      → n - num_interrupts_to_ignore < r.num_buffers_to_record
      → count_buffer (record (toned n buffer) { recording_buffer = out })
        ≡ after_periods r (n + 1) out
  unfolding count_buffer
  counted n buffer out h below = ground arith

  pub stores :
      (n : ℕ) (input : List ℕ) (buffer out : List (List ℕ))
      → num_interrupts_to_ignore ≤ n
      → n - num_interrupts_to_ignore < r.num_buffers_to_record
      → record_frames r.num_frames r.num_frames 0
          ((n - num_interrupts_to_ignore) * r.num_frames)
          r.input_chan_list
          input
          buffer
        ≡ some out
      → record_inputs input (toned n buffer) ≡ some (after_periods r (n + 1) out)
  unfolding record_inputs
  stores n input buffer out h below ran =
      let tests : ltb (min n num_interrupts_to_ignore) num_interrupts_to_ignore ≡ false =
        ground arith in
      let room : leb r.num_buffers_to_record (recorded r n) ≡ false = ground arith in
      let count : recorded r n ≡ n - num_interrupts_to_ignore = ground arith in
      rw (tests, room)
        (rw (ap (λ (m : ℕ). m * r.num_frames) count)
          (rw ran (ap some (counted n buffer out h below))))

  -- One more input does not change what is held.
  pub Holds-more :
      (inputs : List (List ℕ)) (input : List ℕ) (buffer : List (List ℕ))
      → recorded r (length inputs + 1) ≡ recorded r (length inputs)
      → Holds r inputs buffer
      → Holds r (inputs ++ input ∷ []) buffer
  Holds-more inputs input buffer same holds = record {
    rows = holds.rows;
    samples = λ k c b i e below f.
        let was : b < recorded r (length inputs) =
          omega (arith, same, length-append inputs (input ∷ []), below) in
        holds.samples k c b i e was f
        ∙ ap (λ (xs : List ℕ). get_or xs (i + c * r.num_frames) 0)
            (sym (
              get_or-append_left inputs (input ∷ []) (num_interrupts_to_ignore + b) []
                (omega arith)));
  }

  -- A period that is recorded
  pub Holds-stored :
      (inputs : List (List ℕ)) (input : List ℕ) (buffer out : List (List ℕ))
      → num_interrupts_to_ignore ≤ length inputs
      → length inputs - num_interrupts_to_ignore < r.num_buffers_to_record
      → let base = (length inputs - num_interrupts_to_ignore) * r.num_frames in
        Records
          (base + 0)
          (base + r.num_frames)
          (input_at r.num_frames base input (r.num_buffers_to_record * r.num_frames))
          buffer
          (AtIndices r.num_frames base input
            (r.num_buffers_to_record * r.num_frames)
            r.input_chan_list
            (base + 0)
            (base + r.num_frames))
          out
        → Holds r inputs buffer
        → Holds r (inputs ++ input ∷ []) out
  Holds-stored inputs input buffer out h below stored holds =
      let m = length inputs - num_interrupts_to_ignore in
      let base = m * r.num_frames in
      let longer = length-append inputs (input ∷ []) in
      record {
        rows = λ k c e. (
          rw stored.same_length ((holds.rows k c e).0),
          stored.same_rows c ∙ (holds.rows k c e).1,
        );
        samples = λ k c b i e newer f. elim (dec_lt b m) [
          | yes older ↦
              let was : b < recorded r (length inputs) = omega arith in
              let before = row_lt b i r.num_frames m older f in
              stored.others c (b * r.num_frames + i) (inl (omega arith))
              ∙ holds.samples k c b i e was f
              ∙ ap (λ (xs : List ℕ). get_or xs (i + c * r.num_frames) 0)
                  (sym (
                    get_or-append_left inputs (input ∷ []) (num_interrupts_to_ignore + b) []
                      (omega arith)))
          | no now ↦
              let same : b ≡ m = omega (arith, longer, newer, now, h) in
              let last : num_interrupts_to_ignore + b ≡ length inputs = omega arith in
              let index : base + i - base ≡ i = omega arith in
              ap (λ (n : ℕ). sample_at out c (n * r.num_frames + i)) same
              ∙ stored.recorded c (base + i) (k, e, omega arith, omega arith)
              ∙ ap (λ (n : ℕ). get_or input (n + c * r.num_frames) 0) index
              ∙ ap (λ (xs : List ℕ). get_or xs (i + c * r.num_frames) 0)
                  (sym (
                    ap (λ (n : ℕ). get_or (inputs ++ input ∷ []) n []) last
                    ∙ get_or-append_last inputs input []))
        ];
      }
