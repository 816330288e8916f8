-- ===== src/SampleConversion/Scaling.antt =====
-- src/sample_conversion.h: the way of a sample from the codec to `float` and back.
use raspa.Prelude.{ℕ, suc, ◌-◌, ◌*◌, ◌^◌, ◌<◌, ◌≡◌, arith, some, Option}
use raspa.Prelude.Int.{ℤ, pos, negsuc}
use raspa.Prelude.Word.{signed32, pattern32, pattern32-signed32}
use raspa.Binary32.{
  fin, decode, encode, excess_bits, round_to, round24, scale_up, scale_down, int_to_float,
  float_to_int,
}
use raspa.Binary32.RoundTrip.{IsFloat, decode-encode}
use raspa.SampleConversion.Codec.{clip}
use raspa.SampleConversion.Formats.{Is24Bit}

-- A magnitude of at most 24 bits is a float.
round24_small : (m : ℕ) → m < 2 ^ 24 → round24 m ≡ m
unfolding round24 round_to excess_bits
round24_small m h = ground arith

-- 24-bit samples, as floats, in units.
abbrev pub unit24 : ℤ → ℤ
unit24 (pos n) = pos (n * 2 ^ 126)
unit24 (negsuc n) = negsuc (suc n * 2 ^ 126 - 1)

abbrev Is24 : ℤ → Type 0
Is24 (pos n) = n < 2 ^ 23
Is24 (negsuc n) = n < 2 ^ 23

signed32-Is24 : (w : ℕ) → Is24Bit w → Is24 (signed32 w)
signed32-Is24 w h = ground arith

scale_down-unit24 : (s : ℤ) → Is24 s → scale_down 23 (int_to_float s) ≡ unit24 s
unfolding scale_down int_to_float
scale_down-unit24 (pos n) h = ground (arith, round24_small n)
scale_down-unit24 (negsuc n) h = ground (arith, round24_small (suc n))

unit24-IsFloat : (s : ℤ) → Is24 s → IsFloat (unit24 s)
unit24-IsFloat (pos n) h = record {
  digits = n;
  shift = 126;
  small = omega arith;
  low = omega arith;
  same = omega arith;
}
unit24-IsFloat (negsuc n) h = record {
  digits = suc n;
  shift = 126;
  small = omega arith;
  low = omega arith;
  same = omega arith;
}

clip-unit24 : (s : ℤ) → Is24 s → clip (fin (unit24 s)) ≡ some (unit24 s)
unfolding clip
clip-unit24 (pos n) h = ground arith
clip-unit24 (negsuc n) h = ground arith

float_to_int-unit24 : (s : ℤ) → Is24 s → float_to_int (scale_up 23 (unit24 s)) ≡ s
unfolding float_to_int scale_up scale_down
float_to_int-unit24 (pos n) h = ground arith
float_to_int-unit24 (negsuc n) h = ground arith

-- The way from an `int32_t` of 24 bits to a float, through the float's pattern, and back.
abbrev pub through_float : ℕ → Option ℤ
through_float w = clip (decode (encode (scale_down 23 (int_to_float (signed32 w)))))

pub through_float_lem : (w : ℕ) → Is24Bit w → through_float w ≡ some (unit24 (signed32 w))
through_float_lem w h =
    let small = signed32-Is24 w h in
    rw (scale_down-unit24 (signed32 w) small) (
      rw (decode-encode (unit24 (signed32 w)) (unit24-IsFloat (signed32 w) small))
        (clip-unit24 (signed32 w) small))

pub back_to_int :
    (w : ℕ) → Is24Bit w → pattern32 (float_to_int (scale_up 23 (unit24 (signed32 w)))) ≡ w
back_to_int w h =
    rw (float_to_int-unit24 (signed32 w) (signed32-Is24 w h)) (pattern32-signed32 w h.0)
