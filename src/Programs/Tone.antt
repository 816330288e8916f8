-- ===== src/Programs/Tone.antt =====
-- src/apps/signal_recorder/signal_recorder.h: what `_generate_output` writes.
use raspa.Prelude.{
  ℕ, zero, suc, ◌+◌, ◌*◌, ◌%◌, ◌≤◌, ◌<◌, ◌≡◌, refl, ap, sym, ◌∙◌, ◌⊎◌, inl, inr, List, [], ◌∷◌,
  some, arith, length, get_elem?, get_or, set, store-eq-set, length-set, get_or-set_self,
  get_or-set_ne,
}
use native.Mathlib.Nat.{mod-lt, add-mul-mod_self_right, mod-eq_of_lt, mod-add-mod, mod_self}
use mathlib.Core.Path.{subst}
use mathlib.Core.Option.{some-injective}
use native.Mathlib.Decide.{dec_lt}
use raspa.Pimpl.Layout.{row_lt}
use raspa.Programs.SignalRecorder.{
  SignalRecorder, write_channels, write_frames, generate_output, next_sample,
}

-- Every channel of the list has its frames within the buffer.
abbrev pub Within : (num_frames : ℕ) → List ℕ → (size : ℕ) → Type 0
Within num_frames chans size = (k c : ℕ) → get_elem? chans k ≡ some c → (c + 1) * num_frames ≤ size

-- A loop that writes to cells has written those of `done`, each with its target, and no cell that
-- had its target lost it.
pub record Writes (target : ℕ → ℕ) (output : List ℕ) (done : ℕ → Type 0) (out : List ℕ)
    : Type 0 where
  pub same_length : length out ≡ length output
  pub written : (j : ℕ) → done j → get_or out j 0 ≡ target j
  pub kept : (j : ℕ) → get_or output j 0 ≡ target j → get_or out j 0 ≡ target j

-- The cells of frame `i` in the channels of the list
abbrev pub InFrame : (num_frames i : ℕ) → List ℕ → ℕ → Type 0
InFrame num_frames i chans j =
    (k : ℕ) × (c : ℕ) × (get_elem? chans k ≡ some c) × (j ≡ i + c * num_frames)

pub get_elem?-cons :
    (x : ℕ) (xs : List ℕ) (k c : ℕ)
    → get_elem? (x ∷ xs) k ≡ some c
    → (x ≡ c) ⊎ ((k' : ℕ) × (get_elem? xs k' ≡ some c))
get_elem?-cons x xs zero c e = inl (some-injective _ _ e)
get_elem?-cons x xs (suc k) c e = inr (k, e)

module _ (target : ℕ → ℕ) (num_frames : ℕ) where
  target-set :
      (output : List ℕ) (at j : ℕ)
      → at < length output
      → get_or output j 0 ≡ target j
      → get_or (set output at (target at)) j 0 ≡ target j
  target-set output at j inside h = grind (
    arith,
    get_or-set_self output at (target at) 0 inside,
    get_or-set_ne output at j (target at) 0,
  )

  write_channels-Writes :
      (i output_sample : ℕ) (chans output : List ℕ)
      → i < num_frames
      → Within num_frames chans (length output)
      → ((c : ℕ) → target (i + c * num_frames) ≡ output_sample)
      → (out : List ℕ) × (write_channels num_frames i output_sample chans output ≡ some out)
        × Writes target output (InFrame num_frames i chans) out
  unfolding write_channels
  write_channels-Writes i output_sample [] output f within hits = (
    output,
    refl,
    record {
      same_length = refl;
      written = λ j (k, c, e, q). absurd (ground (arith, e));
      kept = λ j h. h;
    },
  )
  write_channels-Writes i output_sample (chan ∷ chans) output f within hits =
      let at = i + chan * num_frames in
      let fits = within 0 chan refl in
      let inside : at < length output =
        omega (arith, row_lt chan i num_frames (chan + 1) (omega arith) f, fits) in
      let stored = set output at (target at) in
      let measured = length-set output at (target at) in
      let (out, returns, rest) =
        write_channels-Writes i output_sample chans stored f
          (λ k c e. rw measured (within (suc k) c e)) hits in
      (
        out,
        rw (sym (hits chan)) (rw (store-eq-set output at (target at) inside) returns),
        record {
          same_length = rest.same_length ∙ measured;
          written = λ j (k, c, e, q). elim (get_elem?-cons chan chans k c e) [
            | inl same ↦
                let here : at ≡ j = ap (λ (n : ℕ). i + n * num_frames) same ∙ sym q in
                rest.kept j (rw (sym here) (get_or-set_self output at (target at) 0 inside))
            | inr (k', e') ↦ rest.written j (k', c, e', q)
          ];
          kept = λ j h. rest.kept j (target-set output at j inside h);
        },
      )

next_sample-mod :
    (sampling_freq m : ℕ)
    → 0 < sampling_freq
    → next_sample sampling_freq (m % sampling_freq) ≡ (m + 1) % sampling_freq
next_sample-mod sampling_freq m positive =
    let r = m % sampling_freq in
    let below = mod-lt m positive in
    let step : (r + 1) % sampling_freq ≡ (m + 1) % sampling_freq = mod-add-mod m sampling_freq 1 in
    elim (dec_lt (r + 1) sampling_freq) [
      | yes within ↦ ground (arith, step, mod-eq_of_lt within)
      | no last ↦
          let whole : r + 1 ≡ sampling_freq = omega (arith, below, last) in
          let wraps : (r + 1) % sampling_freq ≡ 0 = rw whole (mod_self sampling_freq) in
          ground (arith, step, wraps)
    ]

-- The cells of the frames from `i` on
abbrev pub InFrames : (num_frames left i : ℕ) → List ℕ → ℕ → Type 0
InFrames num_frames left i chans j =
    (n : ℕ) × (i ≤ n) × (n < i + left) × InFrame num_frames n chans j

-- The sample that the tone has at a cell, with the count of samples before this buffer
abbrev pub tone_at : SignalRecorder → (start : ℕ) → ℕ → ℕ
tone_at s start j = s.tone ((start + j % s.num_frames) % s.sampling_freq)

write_frames-Writes :
    (s : SignalRecorder) (start left i : ℕ) (output : List ℕ)
    → i + left ≡ s.num_frames
    → 0 < s.sampling_freq
    → Within s.num_frames s.output_chan_list (length output)
    → (out : List ℕ) × (write_frames s left i ((start + i) % s.sampling_freq) output
        ≡ some ((start + s.num_frames) % s.sampling_freq, out))
      × Writes (tone_at s start) output (InFrames s.num_frames left i s.output_chan_list) out
unfolding write_frames
write_frames-Writes s start zero i output e positive within = (
  output,
  ap (λ (n : ℕ). some ((start + n) % s.sampling_freq, output)) (omega arith),
  record {
    same_length = refl;
    written = λ j (n, lo, hi, rest). absurd (omega arith);
    kept = λ j h. h;
  },
)
write_frames-Writes s start (suc left) i output e positive within =
    let below : i < s.num_frames = omega arith in
    let (first, returns, wrote) =
      write_channels-Writes (tone_at s start) s.num_frames i
        (s.tone ((start + i) % s.sampling_freq)) s.output_chan_list output below within
        (λ c.
          ap (λ (n : ℕ). s.tone ((start + n) % s.sampling_freq))
            (add-mul-mod_self_right i c s.num_frames ∙ mod-eq_of_lt below)) in
    let (out, returns', rest) =
      write_frames-Writes s start left (i + 1) first (omega arith) positive
        (rw wrote.same_length within) in
    let counter =
      next_sample-mod s.sampling_freq (start + i) positive
      ∙ ap (λ (n : ℕ). n % s.sampling_freq)
          (let h : start + i + 1 ≡ start + (i + 1) = omega arith in h) in
    (
      out,
      rw (returns, counter) returns',
      record {
        same_length = rest.same_length ∙ wrote.same_length;
        written = λ j (n, lo, hi, cell). elim (dec_lt i n) [
          | yes later ↦ rest.written j (n, omega arith, omega arith, cell)
          | no now ↦
              let same : n ≡ i = omega arith in
              rest.kept j (
                wrote.written j
                  (subst (λ (m : ℕ). InFrame s.num_frames m s.output_chan_list j) same cell))
        ];
        kept = λ j h. rest.kept j (wrote.kept j h);
      },
    )

-- With a sampling rate that is not 0 and the listed channels within the buffer, `_generate_output`
-- accesses nothing out of range: frame by frame each listed channel gets the tone's next sample,
-- where the counter starts again at every second, and the counter ends one buffer further.
pub generate_output-Writes :
    (s : SignalRecorder) (start : ℕ) (output : List ℕ)
    → s.output_sample_counter ≡ start % s.sampling_freq
    → 0 < s.sampling_freq
    → Within s.num_frames s.output_chan_list (length output)
    → (out : List ℕ) × (generate_output output s
        ≡ some (out, record s { output_sample_counter = (start + s.num_frames) % s.sampling_freq }))
      × Writes
          (tone_at s start)
          output
          (InFrames s.num_frames s.num_frames 0 s.output_chan_list)
          out
unfolding generate_output
generate_output-Writes s start output counter positive within =
    let (out, returns, wrote) =
      write_frames-Writes s start s.num_frames 0 output (omega arith) positive within in
    let first =
      ap (λ (n : ℕ). n % s.sampling_freq) (let e : start ≡ start + 0 = omega arith in e) in
    let run = ap (λ (n : ℕ). write_frames s s.num_frames 0 n output) (counter ∙ first) ∙ returns in
    (out, rw run refl, wrote)
