-- ===== src/Prelude/Bits.antt =====
-- `&` with a mask, as arithmetic. The native `bit_and` stands for a recursion on binary digits.
use Prim.Native.Nat.{
  ℕ, zero, suc, ◌+◌, ◌-◌, ◌*◌, ◌/◌, ◌%◌, ◌^◌, ◌≤◌, min, bit_and, digits, bit_and-bitwise,
}
use mathlib.Core.Path.{◌≡◌, refl, ap, sym, ◌∙◌}
use native.Mathlib.Nat.{
  pow-suc, one-le-pow, mul-one, zero-add, div-add-mod, div-div-eq-div-mul, mul_comm,
}
use native.Mathlib.Omega.{arith}

-- The recursion behind `bit_and`, on `rounds` digits.
abbrev conj : ℕ → ℕ → ℕ → ℕ
conj rounds x y = digits (λ y. zero) min rounds x y

-- One round more than `x` needs changes nothing.
conj_extra : (rounds x y : ℕ) → x ≤ rounds → conj (suc rounds) x y ≡ conj rounds x y
conj_extra rounds zero y le = elim rounds as (λ r. conj (suc r) zero y ≡ conj r zero y) [
  | zero ↦ refl
  | suc r ↦ refl
]
conj_extra zero (suc x) y le = absurd (omega arith)
conj_extra (suc rounds) (suc x) y le =
    ap (λ (t : ℕ). t * 2 + min (suc x % 2) (y % 2))
      (conj_extra rounds (suc x / 2) (y / 2) (omega arith))

-- So `bit_and` is the recursion on any number of rounds that is enough.
conj-eq-bit_and : (spare x y : ℕ) → conj (spare + x) x y ≡ bit_and x y
conj-eq-bit_and zero x y = ap (λ (r : ℕ). conj r x y) (zero-add x) ∙ sym (bit_and-bitwise x y)
conj-eq-bit_and (suc spare) x y =
    ap (λ (r : ℕ). conj r x y) (let e : suc spare + x ≡ suc (spare + x) = omega arith in e)
    ∙ conj_extra (spare + x) x y (omega arith)
    ∙ conj-eq-bit_and spare x y

pub bit_and-halves : (x y : ℕ) → bit_and x y ≡ bit_and (x / 2) (y / 2) * 2 + min (x % 2) (y % 2)
bit_and-halves zero y = omega (arith, bit_and-bitwise 0 y, bit_and-bitwise 0 (y / 2))
bit_and-halves (suc x) y =
    let spare = x - suc x / 2 in
    let enough : spare + suc x / 2 ≡ x = omega arith in
    bit_and-bitwise (suc x) y
    ∙ ap (λ (t : ℕ). t * 2 + min (suc x % 2) (y % 2))
        (ap (λ (r : ℕ). conj r (suc x / 2) (y / 2)) (sym enough)
          ∙ conj-eq-bit_and spare (suc x / 2) (y / 2))

no_bits : (bound x : ℕ) → x ≤ bound → bit_and x 0 ≡ 0
no_bits zero x le = omega (arith, ap (λ (t : ℕ). bit_and t 0) (let e : x ≡ 0 = omega arith in e))
no_bits (suc bound) x le = omega (arith, bit_and-halves x 0, no_bits bound (x / 2) (omega arith))

-- The lowest digit of a remainder.
mod_double : (p x : ℕ) → x % (p * 2) ≡ x / 2 % p * 2 + x % 2
mod_double p x =
    let quotient : x / 2 / p ≡ x / (p * 2) =
      div-div-eq-div-mul x 2 p ∙ ap (λ (t : ℕ). x / t) (mul_comm 2 p) in
    omega (arith, div-add-mod x (p * 2), div-add-mod (x / 2) p, ap (λ (t : ℕ). p * t) quotient)

-- A mask of `k` low bits is the remainder by `2 ^ k`.
pub bit_and_mask : (k x : ℕ) → bit_and x (2 ^ k - 1) ≡ x % 2 ^ k
bit_and_mask zero x = omega (arith, no_bits x x (omega arith))
bit_and_mask (suc k) x = ground (
  arith,
  bit_and-halves x (2 ^ suc k - 1),
  bit_and_mask k (x / 2),
  pow-suc 2 k,
  one-le-pow k 2,
  mod_double (2 ^ k) x,
  ap (λ (t : ℕ). x % t) (pow-suc 2 k),
)

-- Shifting both sides shifts the result.
pub bit_and-shift : (k x y : ℕ) → bit_and (x * 2 ^ k) (y * 2 ^ k) ≡ bit_and x y * 2 ^ k
bit_and-shift zero x y = simp mul-one
bit_and-shift (suc k) x y =
    let double = λ (t : ℕ). ap (λ (p : ℕ). t * p) (pow-suc 2 k) in
    ground (
      arith,
      bit_and-halves (x * 2 ^ suc k) (y * 2 ^ suc k),
      double x,
      double y,
      double (bit_and x y),
      bit_and-shift k x y,
    )
