-- ===== src/Binary32.antt =====
-- The C type `float` (IEEE single precision), as src/sample_conversion.h uses it: its bit pattern,
-- its value, and the rounding of an `int32_t` that is converted to it.
-- A finite value is an integer number of units of 2^-149, which every finite float is.
pub mod RoundTrip
use raspa.Prelude.{ℕ, zero, suc, ◌+◌, ◌-◌, ◌*◌, ◌/◌, ◌%◌, ◌^◌, Bool, ltb, ◌==◌, if◌then◌else◌}
use raspa.Prelude.Int.{ℤ, pos, negsuc}

pub data Float : Type 0 where
  fin : ℤ → Float
  inf : (negative : Bool) → Float
  nan : Float

abbrev pub mantissa_bits : ℕ
mantissa_bits = 23

-- The number 1.0, in units.
abbrev pub one : ℕ
one = 2 ^ 149

abbrev pub with_sign : Bool → ℕ → ℤ
with_sign negative m = if negative then (if m == 0 then pos 0 else negsuc (m - 1)) else pos m

-- The units of a pattern's exponent field and fraction field.
abbrev pub magnitude : ℕ → ℕ → ℕ
magnitude e m = if e == 0 then m else (2 ^ 23 + m) * 2 ^ (e - 1)

-- The value of a pattern.
unfoldable pub decode : ℕ → Float
decode w =
    let negative = w / 2 ^ 31 % 2 == 1 in
    let e = w / 2 ^ 23 % 256 in
    let m = w % 2 ^ 23 in
    if e == 255
    then (if m == 0 then inf negative else nan)
    else fin (with_sign negative (magnitude e m))

-- Halves a magnitude until it fits 24 bits, counting in `e`.
unfoldable pub normalise : ℕ → ℕ → ℕ → ℕ × ℕ
normalise zero m e = (m, e)
normalise (suc f) m e =
    let rest = normalise f (m / 2) (suc e) in if ltb m (2 ^ 24) then (m, e) else rest

unfoldable pub encode_magnitude : ℕ → ℕ
encode_magnitude m =
    let (n, e) = normalise 253 m 1 in if ltb m (2 ^ 23) then m else e * 2 ^ 23 + (n - 2 ^ 23)

-- The pattern of a finite value that is a float.
unfoldable pub encode : ℤ → ℕ
encode (pos n) = encode_magnitude n
encode (negsuc n) = 2 ^ 31 + encode_magnitude (suc n)

-- How many low bits of a 32-bit magnitude a float cannot hold.
unfoldable pub excess_bits : ℕ → ℕ → ℕ
excess_bits zero m = 0
excess_bits (suc f) m = let rest = excess_bits f (m / 2) in if ltb m (2 ^ 24) then 0 else suc rest

-- `m` to the nearest multiple of `unit`, and to the even multiple between two.
unfoldable pub round_to : ℕ → ℕ → ℕ
round_to unit m =
    let q = m / unit in
    let r = m % unit in
    if ltb (2 * r) unit
    then q * unit
    else if ltb unit (2 * r)
    then (q + 1) * unit
    else (q + q % 2) * unit

-- The conversion of an `int32_t` to float, in whole numbers.
unfoldable pub round24 : ℕ → ℕ
round24 m = round_to (2 ^ excess_bits 8 m) m

-- The magnitude times `2 ^ k`, and divided by it where it is a multiple.
unfoldable pub scale_up : ℕ → ℤ → ℤ
scale_up k (pos n) = pos (n * 2 ^ k)
scale_up k (negsuc n) = with_sign (1 == 1) (suc n * 2 ^ k)

unfoldable pub scale_down : ℕ → ℤ → ℤ
scale_down k (pos n) = pos (n / 2 ^ k)
scale_down k (negsuc n) = with_sign (1 == 1) (suc n / 2 ^ k)

-- static_cast<float> of an `int32_t`
unfoldable pub int_to_float : ℤ → ℤ
int_to_float (pos n) = pos (round24 n * one)
int_to_float (negsuc n) = with_sign (1 == 1) (round24 (suc n) * one)

-- static_cast<int32_t> of a finite float: the fraction is cut off.
unfoldable pub float_to_int : ℤ → ℤ
float_to_int v = scale_down 149 v
