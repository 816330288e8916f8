-- ===== src/Binary32/RoundTrip.antt =====
-- Encoding a float's value in its bit pattern loses nothing.
use raspa.Prelude.{ℕ, zero, suc, ◌+◌, ◌-◌, ◌*◌, ◌/◌, ◌%◌, ◌^◌, ◌≤◌, ◌<◌, ◌≡◌, ap, arith, ◌⊎◌}
use raspa.Prelude.Int.{ℤ, pos, negsuc}
use raspa.Binary32.{fin, magnitude, decode, normalise, encode_magnitude, encode}
use native.Mathlib.Nat.{pow-suc}
use native.Mathlib.Decide.{dec_lt}

-- Normalising `m = m0 * 2^k` keeps the value and ends with 24 bits at most.
pub record IsNormal (f m e : ℕ) (r : ℕ × ℕ) : Type 0 where
  pub same : r.0 * 2 ^ r.1 ≡ m * 2 ^ e
  pub fits : r.0 < 2 ^ 24
  pub full : (m < 2 ^ 23) ⊎ (2 ^ 23 ≤ r.0)
  pub low : e ≤ r.1
  pub high : r.1 ≤ e + f

normalise-IsNormal :
    (f m e k m0 : ℕ) → m ≡ m0 * 2 ^ k → m0 < 2 ^ 24 → k ≤ f → IsNormal f m e (normalise f m e)
unfolding normalise
normalise-IsNormal zero m e zero m0 h small le = ground arith
normalise-IsNormal zero m e (suc k) m0 h small le = absurd (omega arith)
normalise-IsNormal (suc f) m e zero m0 h small le = ground arith
normalise-IsNormal (suc f) m e (suc k) m0 h small le =
    let half : m / 2 ≡ m0 * 2 ^ k = omega (arith, halves) in
    let even : m ≡ 2 * (m / 2) = omega (arith, halves) in
    ground (
      arith,
      normalise-IsNormal f (m / 2) (suc e) k m0 half small (omega arith),
      pow-suc 2 e,
      ap (λ (t : ℕ). t * 2 ^ e) even,
      ap (λ (t : ℕ). m / 2 * t) (pow-suc 2 e),
    )
  where
    halves : m ≡ 2 * (m0 * 2 ^ k)
    halves = omega (arith, ap (λ (t : ℕ). m0 * t) (pow-suc 2 k))

-- A magnitude that a float can hold.
pub record IsMagnitude (m : ℕ) : Type 0 where
  pub digits : ℕ
  pub shift : ℕ
  pub small : digits < 2 ^ 24
  pub low : shift ≤ 253
  pub same : m ≡ digits * 2 ^ shift

-- The fields of the pattern hold the magnitude.
pub record Encodes (m p : ℕ) : Type 0 where
  pub fits : p < 255 * 2 ^ 23
  pub holds : magnitude (p / 2 ^ 23) (p % 2 ^ 23) ≡ m

encode_normal :
    (m n e : ℕ)
    → 2 ^ 23 ≤ n
    → n < 2 ^ 24
    → 1 ≤ e
    → e ≤ 254
    → n * 2 ^ e ≡ m * 2
    → Encodes m (e * 2 ^ 23 + (n - 2 ^ 23))
encode_normal m n zero full small low high same = absurd (omega arith)
encode_normal m n (suc e) full small low high same =
    let exponent : (suc e * 2 ^ 23 + (n - 2 ^ 23)) / 2 ^ 23 ≡ suc e = omega arith in
    let fraction : (suc e * 2 ^ 23 + (n - 2 ^ 23)) % 2 ^ 23 ≡ n - 2 ^ 23 = omega arith in
    let whole : 2 ^ 23 + (n - 2 ^ 23) ≡ n = omega arith in
    record {
      fits = omega arith;
      holds =
          rw (exponent, fraction) (rw whole (ground (arith, ap (λ (t : ℕ). n * t) (pow-suc 2 e))));
    }

encode_magnitude-Encodes : (m : ℕ) → IsMagnitude m → Encodes m (encode_magnitude m)
unfolding encode_magnitude
encode_magnitude-Encodes m r =
    let v = normalise-IsNormal 253 m 1 r.shift r.digits r.same r.small r.low in
    elim (dec_lt m (2 ^ 23)) [
      | yes small ↦ ground (arith, v)
      | no large ↦ ground (
        arith,
        v,
        encode_normal m (normalise 253 m 1).0 (normalise 253 m 1).1 (ground (arith, v)) v.fits v.low
            v.high v.same,
      )
    ]

abbrev pub abs_ℤ : ℤ → ℕ
abs_ℤ (pos n) = n
abs_ℤ (negsuc n) = suc n

abbrev pub IsFloat : ℤ → Type 0
IsFloat v = IsMagnitude (abs_ℤ v)

-- A pattern below the infinities' decodes to the value of its fields.
decode_plus : (m p : ℕ) → Encodes m p → decode p ≡ fin (pos m)
unfolding decode
decode_plus m p v =
    let e : p / 2 ^ 23 % 256 ≡ p / 2 ^ 23 = omega (arith, v.fits) in
    let no_inf : p / 2 ^ 23 < 255 = omega (arith, v.fits) in
    let sign : p / 2 ^ 31 % 2 ≡ 0 = omega (arith, v.fits) in
    rw (e, sign) (ground (arith, v.holds, no_inf))

decode_minus : (m p : ℕ) → Encodes (suc m) p → decode (2 ^ 31 + p) ≡ fin (negsuc m)
unfolding decode
decode_minus m p v =
    let e : (2 ^ 31 + p) / 2 ^ 23 % 256 ≡ p / 2 ^ 23 = omega (arith, v.fits) in
    let f : (2 ^ 31 + p) % 2 ^ 23 ≡ p % 2 ^ 23 = omega arith in
    let no_inf : p / 2 ^ 23 < 255 = omega (arith, v.fits) in
    let sign : (2 ^ 31 + p) / 2 ^ 31 % 2 ≡ 1 = omega (arith, v.fits) in
    rw (e, f, sign) (ground (arith, v.holds, no_inf))

-- The pattern of a value that a float can hold decodes to that value.
pub decode-encode : (v : ℤ) → IsFloat v → decode (encode v) ≡ fin v
unfolding encode
decode-encode (pos n) h = decode_plus n _ (encode_magnitude-Encodes n h)
decode-encode (negsuc n) h = decode_minus n _ (encode_magnitude-Encodes (suc n) h)

pub encode-lt : (v : ℤ) → IsFloat v → encode v < 2 ^ 32
unfolding encode
encode-lt (pos n) h = omega (arith, (encode_magnitude-Encodes n h).fits)
encode-lt (negsuc n) h = omega (arith, (encode_magnitude-Encodes (suc n) h).fits)
