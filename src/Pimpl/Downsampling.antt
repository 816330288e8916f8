-- ===== src/Pimpl/Downsampling.antt =====
-- src/raspa_pimpl.h: `_process_timing_error_with_downsampling`, call after call.
use raspa.Prelude.{
  ap, ◌∙◌, ℕ, zero, suc, ◌+◌, ◌%◌, ◌<◌, ◌≡◌, List, [], ◌∷◌, some, ◌==◌, if◌then◌else◌, get_elem?,
  arith,
}
use raspa.Prelude.Int.{ℤ, pos}
use raspa.Pimpl.RtLoop.{process_timing_error_with_downsampling}

-- The corrections that a run of calls returns, for the filter's outputs
unfoldable pub corrections : List ℤ → (count : ℕ) → List ℤ
corrections [] count = []
corrections (y ∷ ys) count =
    let (correction, next) = process_timing_error_with_downsampling y count in
    correction ∷ corrections ys next

-- The count stays below 16, and each call moves it on by 1 modulo 16.
next_count :
    (y : ℤ) (count : ℕ)
    → count < 16
    → ((process_timing_error_with_downsampling y count).1 ≡ (count + 1) % 16)
      × ((process_timing_error_with_downsampling y count).0
          ≡ (if (count + 1) % 16 == 0 then y else pos 0))
unfolding process_timing_error_with_downsampling
next_count y count h = ground arith

-- From a count below 16 on, the call whose number is a multiple of 16, counted from the last reset,
-- returns the filter's output, and every other call returns 0.
pub corrections-periodic :
    (ys : List ℤ) (count i : ℕ) (y : ℤ)
    → count < 16
    → get_elem? ys i ≡ some y
    → get_elem? (corrections ys count) i ≡ some (if (count + i + 1) % 16 == 0 then y else pos 0)
unfolding corrections
corrections-periodic [] count i y h e = ground arith
corrections-periodic (x ∷ ys) count zero y h e =
    let (next, correction) = next_count x count h in
    let same : x ≡ y = ground (arith, e) in
    let in_step : (count + 1) % 16 ≡ (count + 0 + 1) % 16 = omega arith in
    rw (correction, same) (ap (λ (n : ℕ). some (if n == 0 then y else pos 0)) in_step)
corrections-periodic (x ∷ ys) count (suc i) y h e =
    let (next, correction) = next_count x count h in
    let later = corrections-periodic ys ((count + 1) % 16) i y (omega arith) e in
    let in_step : ((count + 1) % 16 + i + 1) % 16 ≡ (count + suc i + 1) % 16 = omega arith in
    rw next (later ∙ ap (λ (n : ℕ). some (if n == 0 then y else pos 0)) in_step)
