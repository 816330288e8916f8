-- ===== src/Programs/Recorder.antt =====
-- src/apps/signal_recorder/signal_recorder.h: a whole recording, from `init` on.
use raspa.Prelude.{
  ℕ, suc, ◌+◌, ◌-◌, ◌*◌, ◌≤◌, ◌<◌, ◌≡◌, refl, ap, sym, ◌∙◌, List, [], ◌∷◌, ◌++◌, some, arith,
  length, get_elem?, map, length-append,
}
use native.Mathlib.Nat.{mul-le-mul_right}
use mathlib.Core.Path.{subst}
use mathlib.Core.List.{append-nil, append_assoc}
use native.Mathlib.Decide.{dec_lt, dec_le}
use raspa.Programs.SignalRecorder.{
  SignalRecorder, num_interrupts_to_ignore, record_inputs, record_frames, init,
  internal_process_callback, run_periods,
}
use raspa.Programs.Tone.{Within, generate_output-Writes}
use raspa.Programs.Recording.{record_frames-Records}
use raspa.Programs.Periods.{
  after_periods, Holds, toned, ignored, full, stores, Holds-more, Holds-stored,
}
use raspa.Programs.Allocation.{initial, no_periods, init-Holds}

module _ (r : SignalRecorder) (enough : 0 < r.num_buffers_to_record) where
  record_inputs-Holds :
      (inputs : List (List ℕ)) (input : List ℕ) (buffer : List (List ℕ))
      → Within r.num_frames r.input_chan_list (length input)
      → Holds r inputs buffer
      → (out : List (List ℕ)) × (record_inputs input (toned r enough (length inputs) buffer)
          ≡ some (after_periods r (length inputs + 1) out))
        × Holds r (inputs ++ input ∷ []) out
  record_inputs-Holds inputs input buffer within holds =
      let n = length inputs in
      elim (dec_lt n num_interrupts_to_ignore) [
        | yes early ↦ (
          buffer,
          ignored r enough n input buffer early,
          Holds-more r enough inputs input buffer (ground arith) holds,
        )
        | no late ↦ elim (dec_le r.num_buffers_to_record (n - num_interrupts_to_ignore)) [
          | yes filled ↦ (
            buffer,
            full r enough n input buffer (omega arith) filled,
            Holds-more r enough inputs input buffer (ground arith) holds,
          )
          | no room ↦
              let m = n - num_interrupts_to_ignore in
              let base = m * r.num_frames in
              let size = r.num_buffers_to_record * r.num_frames in
              let fits : base + r.num_frames ≤ size = omega (
                arith,
                mul-le-mul_right {m = suc m} {n = r.num_buffers_to_record} r.num_frames
                    (omega arith),
              ) in
              let (out, ran, stored) =
                record_frames-Records r.num_frames base input size r.num_frames 0 r.input_chan_list
                  buffer (omega arith) fits within holds.rows in
              let start : base ≡ base + 0 = omega arith in
              let again =
                ap
                  (λ (index : ℕ).
                    record_frames r.num_frames r.num_frames 0 index r.input_chan_list input buffer)
                  start in
              (
                out,
                stores r enough n input buffer out (omega arith) (omega arith) (again ∙ ran),
                Holds-stored r enough inputs input buffer out (omega arith) (omega arith) stored
                    holds,
              )
        ]
      ]

  -- One period
  callback-Holds :
      (inputs : List (List ℕ)) (input output : List ℕ) (buffer : List (List ℕ))
      → 0 < r.sampling_freq
      → Within r.num_frames r.input_chan_list (length input)
      → Within r.num_frames r.output_chan_list (length output)
      → Holds r inputs buffer
      → (written : List ℕ) × (out : List (List ℕ)) × (internal_process_callback input output
            (after_periods r (length inputs) buffer)
          ≡ some (written, after_periods r (length inputs + 1) out))
        × Holds r (inputs ++ input ∷ []) out
  unfolding internal_process_callback
  callback-Holds inputs input output buffer positive reads writes holds =
      let n = length inputs in
      let (written, returns, wrote) =
        generate_output-Writes (after_periods r n buffer) (n * r.num_frames) output refl positive
          writes in
      let (out, ran, more) = record_inputs-Holds inputs input buffer reads holds in
      let count : n * r.num_frames + r.num_frames ≡ (n + 1) * r.num_frames = omega arith in
      (written, out, rw returns (rw count (rw ran refl)), more)

-- The periods' buffers hold the listed channels.
abbrev pub AllWithin : (num_frames : ℕ) (ins outs : List ℕ) → List (List ℕ × List ℕ) → Type 0
AllWithin num_frames ins outs periods =
    (k : ℕ) (input output : List ℕ)
    → get_elem? periods k ≡ some (input, output)
    → Within num_frames ins (length input) × Within num_frames outs (length output)

abbrev pub inputs_of : List (List ℕ × List ℕ) → List (List ℕ)
inputs_of periods = map (λ (p : List ℕ × List ℕ). p.0) periods

run_periods-Holds :
    (r : SignalRecorder) (inputs : List (List ℕ)) (periods : List (List ℕ × List ℕ))
    (buffer : List (List ℕ))
    → 0 < r.num_buffers_to_record
    → 0 < r.sampling_freq
    → AllWithin r.num_frames r.input_chan_list r.output_chan_list periods
    → Holds r inputs buffer
    → (out : List (List ℕ)) × (run_periods periods (after_periods r (length inputs) buffer)
        ≡ some (after_periods r (length inputs + length periods) out))
      × Holds r (inputs ++ inputs_of periods) out
unfolding run_periods
run_periods-Holds r inputs [] buffer enough positive within holds = (
  buffer,
  ap (λ (n : ℕ). some (after_periods r n buffer)) (omega arith),
  subst (λ (xs : List (List ℕ)). Holds r xs buffer) (sym (append-nil inputs)) holds,
)
run_periods-Holds r inputs ((input, output) ∷ periods) buffer enough positive within holds =
    let (reads, writes) = within 0 input output refl in
    let (written, first, ran, one) =
      callback-Holds r enough inputs input output buffer positive reads writes holds in
    let longer : length (inputs ++ input ∷ []) ≡ length inputs + 1 =
      length-append inputs (input ∷ []) in
    let (out, rest, all) =
      run_periods-Holds r (inputs ++ input ∷ []) periods first enough positive
        (λ k i o e. within (suc k) i o e) one in
    (
      out,
      rw ran (
          ap (λ (n : ℕ). run_periods periods (after_periods r n first)) (sym longer)
          ∙ rest
          ∙ ap (λ (n : ℕ). some (after_periods r n out)) (omega (arith, longer))),
      subst (λ (xs : List (List ℕ)). Holds r xs out)
          (append_assoc inputs (input ∷ []) (inputs_of periods)) all,
    )

-- With a recording of at least one buffer, a sampling rate that is not 0, listed input channels
-- that exist, and buffers in each period that hold the listed channels, the recorder accesses
-- nothing out of range. After any number of periods the first 1000 were only counted, and each one
-- after them was recorded until there were enough: the samples of each listed channel are those of
-- these inputs, in order; `_done_recording` is set exactly from the period on that completes them.
pub recorder-Holds :
    (ins outs : List ℕ) (tone : ℕ → ℕ) (num_buffers num_ins sampling_freq num_frames : ℕ)
    (periods : List (List ℕ × List ℕ))
    → 0 < num_buffers
    → 0 < sampling_freq
    → ((k c : ℕ) → get_elem? ins k ≡ some c → c < num_ins)
    → AllWithin num_frames ins outs periods
    → (s : SignalRecorder) × (out : List (List ℕ)) × (init ins outs tone num_buffers num_ins
          sampling_freq num_frames
        ≡ some s)
      × (run_periods periods s ≡ some (after_periods s (length periods) out))
      × Holds s (inputs_of periods) out
recorder-Holds ins outs tone num_buffers num_ins sampling_freq num_frames periods enough positive
      below within =
    let (buffer, returns, empty) =
      init-Holds ins outs tone num_buffers num_ins sampling_freq num_frames below in
    let s = initial ins outs tone num_buffers sampling_freq num_frames buffer in
    let (out, ran, holds) = run_periods-Holds s [] periods buffer enough positive within empty in
    (
      s,
      out,
      returns,
      ap (run_periods periods)
            (no_periods ins outs tone num_buffers sampling_freq num_frames buffer enough)
          ∙ ran
          ∙ ap (λ (n : ℕ). some (after_periods s n out)) (omega arith),
      holds,
    )
