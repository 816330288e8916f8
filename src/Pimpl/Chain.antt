-- ===== src/Pimpl/Chain.antt =====
-- Chains of steps that end well.
use raspa.Prelude.{◌≡◌, refl, ap, inl, inr, Option, some, Bool, false, arith, Bool-cases}
use raspa.Prelude.Int.{ℤ, pos}
use raspa.Pimpl.State.{RaspaPimpl, Step, and_then, and_then_option}
use mathlib.Core.Option.{some-injective}
use raspa.Pimpl.Lifecycle.{is_failure}

-- A chain that ends well has come through its first step.
pub and_then-success :
    (fails : ℤ → Bool) (on_failure : RaspaPimpl → RaspaPimpl) (step : Step)
    (next : RaspaPimpl → Step)
    → fails (pos 0) ≡ false
    → (and_then fails on_failure step next).0 ≡ pos 0
    → (fails step.0 ≡ false) × (and_then fails on_failure step next ≡ next step.1)
and_then-success fails on_failure (res, r) next ok h = elim (Bool-cases (fails res)) [
  | inl failed ↦ absurd (let e : res ≡ pos 0 = rw failed at h in cc (ok, failed, ap fails e))
  | inr passed ↦ (passed, rw passed refl)
]

-- A chain that goes on where it is defined
pub and_then_option-success :
    (fails : ℤ → Bool) (on_failure : RaspaPimpl → RaspaPimpl) (step : Step)
    (next : RaspaPimpl → Option Step) (done : RaspaPimpl)
    → fails (pos 0) ≡ false
    → and_then_option fails on_failure step next ≡ some (pos 0, done)
    → (fails step.0 ≡ false) × (next step.1 ≡ some (pos 0, done))
and_then_option-success fails on_failure (res, r) next done ok h = elim (Bool-cases (fails res)) [
  | inl failed ↦ absurd (
      let e : some (res, on_failure r) ≡ some (pos 0, done) = rw failed at h in
      let zero : res ≡ pos 0 = ap (λ (s : Step). s.0) (some-injective _ _ e) in
      cc (ok, failed, ap fails zero))
  | inr passed ↦ (passed, rw passed at h)
]

pub is_failure-none : (res : ℤ) → is_failure res ≡ false → res ≡ pos 0
is_failure-none res h = ground arith
