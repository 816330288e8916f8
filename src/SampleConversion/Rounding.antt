-- ===== src/SampleConversion/Rounding.antt =====
-- src/sample_conversion.h: INT32 samples, which a float rounds to 24 bits.
use raspa.Prelude.{
  ℕ, zero, suc, ◌+◌, ◌-◌, ◌*◌, ◌/◌, ◌%◌, ◌^◌, ◌≤◌, ◌<◌, ◌≡◌, ap, ◌∙◌, ◌⊎◌, inl, inr, arith, some,
  true,
}
use raspa.Prelude.Int.{ℤ, pos, negsuc, pos_part, neg_part}
use raspa.Prelude.Word.{signed32}
use raspa.Binary32.{
  fin, excess_bits, round_to, round24, scale_up, scale_down, int_to_float, float_to_int, one,
  with_sign,
}
use raspa.Binary32.RoundTrip.{abs_ℤ, IsMagnitude, IsFloat, decode-encode}
use native.Mathlib.Nat.{
  pow-suc, one-le-pow, div-add-mod', mod-lt, one-mul, zero-mul, zero-add, pow-le-pow_right,
  lt_of_mul-lt-mul_right,
}
use native.Mathlib.Decide.{dec_lt}
use raspa.DriverConfig.{int32}
use raspa.SampleConversion.Codec.{
  codec_format_to_int32, int32_to_codec_format, int32_to_float32n, float32n_to_int32, clip,
  input_sample, output_sample, float_max,
}

excess_bits-le : (f m : ℕ) → excess_bits f m ≤ f
unfolding excess_bits
excess_bits-le zero m = omega arith
excess_bits-le (suc f) m = ground (arith, excess_bits-le f (m / 2))

excess_bits-fits : (f m : ℕ) → m < 2 ^ 24 * 2 ^ f → m < 2 ^ 24 * 2 ^ excess_bits f m
unfolding excess_bits
excess_bits-fits zero m h = h
excess_bits-fits (suc f) m h =
    ground (arith, excess_bits-fits f (m / 2), pow-suc 2 f, pow-suc 2 (excess_bits f (m / 2)))

-- Rounding to a multiple of `u` moves a number by half of `u` at most.
pub record IsRounded (u m r : ℕ) : Type 0 where
  pub times : ℕ
  pub same : r ≡ times * u
  pub above : 2 * r ≤ 2 * m + u
  pub below : 2 * m ≤ 2 * r + u
  pub few : times ≤ m / u + 1

round_to-IsRounded : (u m : ℕ) → 0 < u → IsRounded u m (round_to u m)
unfolding round_to
round_to-IsRounded u m h = elim (dec_lt (2 * (m % u)) u) [
  | yes less ↦ record {
    times = m / u;
    same = ground arith;
    above = ground (arith, div-add-mod' m u);
    below = ground (arith, div-add-mod' m u);
    few = omega arith;
  }
  | no not_less ↦ elim (dec_lt u (2 * (m % u))) [
    | yes more ↦ record {
      times = m / u + 1;
      same = ground arith;
      above = ground (arith, div-add-mod' m u);
      below = ground (arith, div-add-mod' m u, mod-lt m h);
      few = omega arith;
    }
    | no not_more ↦ record {
      times = m / u + m / u % 2;
      same = ground arith;
      above = ground (arith, div-add-mod' m u, tie);
      below = ground (arith, div-add-mod' m u, tie);
      few = omega arith;
    }
  ]
]
  where
    tie : (m / u % 2 * u ≡ 0) ⊎ (m / u % 2 * u ≡ u)
    tie = elim (dec_lt 0 (m / u % 2)) [
      | yes odd ↦ inr (ap (λ (t : ℕ). t * u) (let e : m / u % 2 ≡ 1 = omega arith in e) ∙ one-mul u)
      | no even ↦
          inl (ap (λ (t : ℕ). t * u) (let e : m / u % 2 ≡ 0 = omega arith in e) ∙ zero-mul u)
    ]

pow-add : (e k : ℕ) → 2 ^ (e + k) ≡ 2 ^ e * 2 ^ k
pow-add zero k = omega (arith, ap (λ (t : ℕ). 2 ^ t) (zero-add k))
pow-add (suc e) k =
    omega (arith, pow-add e k, pow-suc 2 (e + k), ap (λ (t : ℕ). t * 2 ^ k) (pow-suc 2 e), step)
  where
    step : 2 ^ (suc e + k) ≡ 2 ^ suc (e + k)
    step = ap (λ (t : ℕ). 2 ^ t) (omega arith)

-- The conversion of an `int32_t` magnitude: off by 128 at most, and still within 2^31.
pub record IsConverted (m r : ℕ) : Type 0 where
  pub above : r ≤ m + 128
  pub below : m ≤ r + 128
  pub bounded : r ≤ 2 ^ 31
  pub float : IsMagnitude (r * 2 ^ 118)

scaled-IsMagnitude : (q e r : ℕ) → e ≤ 8 → q ≤ 2 ^ 24 → r ≡ q * 2 ^ e → IsMagnitude (r * 2 ^ 118)
scaled-IsMagnitude q e r le few same = elim (dec_lt q (2 ^ 24)) [
  | yes small ↦ record {
    digits = q;
    shift = e + 118;
    small = small;
    low = omega arith;
    same = omega (arith, same, ap (λ (t : ℕ). q * t) (pow-add e 118));
  }
  | no carry ↦ record {
    digits = 2 ^ 23;
    shift = e + 119;
    small = omega arith;
    low = omega arith;
    same = omega (arith, same, full (omega arith), pow-add e 119);
  }
]
  where
    full : q ≡ 2 ^ 24 → q * 2 ^ e ≡ 2 ^ 24 * 2 ^ e
    full h = ap (λ (t : ℕ). t * 2 ^ e) h

round24-IsConverted : (m : ℕ) → m ≤ 2 ^ 31 → IsConverted m (round24 m)
unfolding round24
round24-IsConverted m h =
    let e = excess_bits 8 m in
    let u = 2 ^ e in
    let le : e ≤ 8 = excess_bits-le 8 m in
    let positive : 0 < u = one-le-pow e 2 (omega arith) in
    let v = round_to-IsRounded u m positive in
    let unit : u ≤ 256 = pow-le-pow_right {n = 2} (omega arith) le in
    let fits : m < 2 ^ 24 * u = excess_bits-fits 8 m (omega arith) in
    let few : v.times < 2 ^ 24 + 1 =
      lt_of_mul-lt-mul_right u (omega (arith, v.same, v.above, fits)) in
    let whole : 2 ^ (31 - e) * u ≡ 2 ^ 31 = omega (
      arith,
      pow-add (31 - e) e,
      ap (λ (t : ℕ). 2 ^ t) (let s : 31 - e + e ≡ 31 = omega arith in s),
    ) in
    let top : v.times < 2 ^ (31 - e) + 1 =
      lt_of_mul-lt-mul_right u (omega (arith, v.same, v.above, whole)) in
    let product : v.times * u ≤ 2 ^ (31 - e) * u = grind arith in
    record {
      above = omega (arith, v.above);
      below = omega (arith, v.below);
      bounded = rw v.same (omega (arith, whole, product));
      float = scaled-IsMagnitude v.times e (round_to u m) le (omega arith) v.same;
    }

-- Two integers differ by `d` at most.
abbrev pub Within : ℕ → ℤ → ℤ → Type 0
Within d s t =
    (pos_part s + neg_part t ≤ pos_part t + neg_part s + d)
    × (pos_part t + neg_part s ≤ pos_part s + neg_part t + d)

-- The units of an INT32 sample's float.
abbrev unit32 : ℤ → ℤ
unit32 (pos n) = pos (round24 n * 2 ^ 118)
unit32 (negsuc n) = with_sign true (round24 (suc n) * 2 ^ 118)

scale_down-unit32 : (s : ℤ) → scale_down 31 (int_to_float s) ≡ unit32 s
unfolding scale_down int_to_float
scale_down-unit32 (pos n) = ground arith
scale_down-unit32 (negsuc n) = ground arith

abbrev Is32 : ℤ → Type 0
Is32 (pos n) = n < 2 ^ 31
Is32 (negsuc n) = n < 2 ^ 31

unit32-IsFloat : (s : ℤ) → Is32 s → IsFloat (unit32 s)
unit32-IsFloat (pos n) h = (round24-IsConverted n (omega arith)).float
unit32-IsFloat (negsuc n) h =
    let v = round24-IsConverted (suc n) (omega arith) in
    let e : abs_ℤ (unit32 (negsuc n)) ≡ round24 (suc n) * 2 ^ 118 = ground arith in rw e v.float

-- What clipping and the cast make of a sample's float.
unit32-back :
    (s : ℤ)
    → Is32 s
    → (v : ℤ) × (clip (fin (unit32 s)) ≡ some v)
      × Within 255 (signed32 (float32n_to_int32 int32 v)) s
unfolding clip float32n_to_int32 float_to_int scale_up scale_down
unit32-back (pos n) h =
    let v = round24-IsConverted n (omega arith) in
    elim (dec_lt (one - 2 ^ 126) (round24 n * 2 ^ 118)) [
      | yes above ↦ (float_max, ground arith, ground (arith, v))
      | no within ↦ (unit32 (pos n), ground arith, ground (arith, v))
    ]
unit32-back (negsuc n) h =
    let v = round24-IsConverted (suc n) (omega arith) in
    (unit32 (negsuc n), ground (arith, v), ground (arith, v))

signed32-Is32 : (w : ℕ) → w < 2 ^ 32 → Is32 (signed32 w)
signed32-Is32 w h = ground arith

-- Every INT32 word that is converted to float and back gives a word again, and the integer that it
-- stands for differs by 255 at most.
pub output_sample-input_sample_int32 :
    (w : ℕ)
    → w < 2 ^ 32
    → (c : ℕ) × (output_sample int32 (input_sample int32 w) ≡ some c)
      × Within 255 (signed32 c) (signed32 w)
unfolding output_sample input_sample codec_format_to_int32 int32_to_codec_format int32_to_float32n
output_sample-input_sample_int32 w h =
    let range = signed32-Is32 w h in
    let (v, clipped, near) = unit32-back (signed32 w) range in
    (
      float32n_to_int32 int32 v,
      rw (scale_down-unit32 (signed32 w)) (
          rw (decode-encode (unit32 (signed32 w)) (unit32-IsFloat (signed32 w) range))
            (rw clipped)),
      near,
    )
