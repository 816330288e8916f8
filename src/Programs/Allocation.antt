-- ===== src/Programs/Allocation.antt =====
-- src/apps/signal_recorder/signal_recorder.h: the recorder as `init` leaves it.
use raspa.Prelude.{
  ℕ, suc, ◌-◌, ◌*◌, ◌%◌, ◌<◌, ◌≡◌, refl, ap, sym, ◌∙◌, inl, inr, List, [], ◌∷◌, some, false, arith,
  length, get_elem?, min, set, length-set, get_or-set_self, get_or-set_ne, store-eq-set, replicate,
  length-replicate, leb,
}
use native.Mathlib.Nat.{zero-mod}
use native.Mathlib.Decide.{ℕ_discrete}
use raspa.Programs.SignalRecorder.{SignalRecorder, num_interrupts_to_ignore, init, alloc_recording}
use raspa.Programs.Tone.{get_elem?-cons}
use raspa.Programs.Rows.{row, HasRows}
use raspa.Programs.Periods.{after_periods, Holds}

alloc_recording-HasRows :
    (size : ℕ) (chans : List ℕ) (buffer : List (List ℕ))
    → ((k c : ℕ) → get_elem? chans k ≡ some c → c < length buffer)
    → (out : List (List ℕ)) × (alloc_recording size chans buffer ≡ some out)
      × (length out ≡ length buffer)
      × HasRows chans size out
      × ((c : ℕ) → length (row buffer c) ≡ size → length (row out c) ≡ size)
unfolding alloc_recording
alloc_recording-HasRows size [] buffer below =
    (buffer, refl, refl, (λ k c e. absurd (ground (arith, e))), λ c h. h)
alloc_recording-HasRows size (chan ∷ chans) buffer below =
    let zeros : List ℕ = replicate size 0 in
    let inside = below 0 chan refl in
    let sized = set buffer chan zeros in
    let same = length-set buffer chan zeros in
    let measured = length-replicate {A = ℕ} size 0 in
    let self = ap length (get_or-set_self buffer chan zeros [] inside) ∙ measured in
    let (out, returns, length_out, rows, kept) =
      alloc_recording-HasRows size chans sized (λ k c e. rw same (below (suc k) c e)) in
    (
      out,
      rw (store-eq-set buffer chan zeros inside) returns,
      length_out ∙ same,
      λ k c e. elim (get_elem?-cons chan chans k c e) [
        | inl here ↦ (
          omega (arith, length_out, same, inside, here),
          ap (λ (n : ℕ). length (row out n)) (sym here) ∙ kept chan self,
        )
        | inr (k', e') ↦ rows k' c e'
      ],
      λ c h. kept c (elim (ℕ_discrete chan c) [
        | yes here ↦ ap (λ (n : ℕ). length (row sized n)) (sym here) ∙ self
        | no other ↦ ap length (get_or-set_ne buffer chan c zeros [] other) ∙ h
      ]),
    )

-- The recorder as `init` leaves it
abbrev pub initial :
    (ins outs : List ℕ) (tone : ℕ → ℕ) (num_buffers sampling_freq num_frames : ℕ)
    (buffer : List (List ℕ))
    → SignalRecorder
initial ins outs tone num_buffers sampling_freq num_frames buffer = record {
  input_chan_list = ins;
  output_chan_list = outs;
  tone = tone;
  num_buffers_to_record = num_buffers;
  output_sample_counter = 0;
  input_buffer_counter = 0;
  interrupt_counter = 0;
  done_recording = false;
  num_frames = num_frames;
  sampling_freq = sampling_freq;
  recording_buffer = buffer;
}

pub no_periods :
    (ins outs : List ℕ) (tone : ℕ → ℕ) (num_buffers sampling_freq num_frames : ℕ)
    (buffer : List (List ℕ))
    → 0 < num_buffers
    → let s = initial ins outs tone num_buffers sampling_freq num_frames buffer in
      s ≡ after_periods s 0 buffer
no_periods ins outs tone num_buffers sampling_freq num_frames buffer enough =
    let counter : 0 * num_frames % sampling_freq ≡ 0 =
      ap (λ (n : ℕ). n % sampling_freq) (let e : 0 * num_frames ≡ 0 = omega arith in e)
      ∙ zero-mod sampling_freq in
    let buffers : min (0 - num_interrupts_to_ignore) num_buffers ≡ 0 = omega arith in
    let unfinished : leb num_buffers (0 - num_interrupts_to_ignore) ≡ false = ground arith in
    rw (counter, buffers, unfinished) refl

pub init-Holds :
    (ins outs : List ℕ) (tone : ℕ → ℕ) (num_buffers num_ins sampling_freq num_frames : ℕ)
    → ((k c : ℕ) → get_elem? ins k ≡ some c → c < num_ins)
    → (buffer : List (List ℕ)) × (init ins outs tone num_buffers num_ins sampling_freq num_frames
        ≡ some (initial ins outs tone num_buffers sampling_freq num_frames buffer))
      × Holds (initial ins outs tone num_buffers sampling_freq num_frames buffer) [] buffer
unfolding init
init-Holds ins outs tone num_buffers num_ins sampling_freq num_frames below =
    let (buffer, returns, measured, has, kept) =
      alloc_recording-HasRows (num_buffers * num_frames) ins (replicate num_ins [])
        (λ k c e. omega (arith, below k c e, length-replicate {A = List ℕ} num_ins [])) in
    (
      buffer,
      rw returns refl,
      record { rows = has; samples = λ k c b i e early f. absurd (omega arith) },
    )
