-- ===== src/SampleConversion/Codec.antt =====
-- src/sample_conversion.h: one sample between the codec's format, `int32_t` and `float`.
-- An `int32_t` is its bit pattern, a `float` its value in units of 2^-149.
use raspa.Prelude.{ℕ, ◌-◌, ◌^◌, Option, none, some, bit_and, if◌then◌else◌}
use raspa.Prelude.Int.{ℤ, pos, negsuc, ltb_ℤ}
use raspa.Prelude.Word.{shl, sar, signed32, pattern32}
use raspa.Binary32.{
  Float, fin, inf, nan, one, decode, encode, scale_up, scale_down, int_to_float, float_to_int,
}
use raspa.DriverConfig.{CodecFormat, int24_lj, int24_i2s, int24_rj, int32}

-- FLOAT_MIN and FLOAT_MAX. The literal 9.999999e-01 lies nearest to the float 1 - 2^-23.
abbrev pub float_min : ℤ
float_min = negsuc (one - 1)

abbrev pub float_max : ℤ
float_max = pos (one - 2 ^ 126)

unfoldable pub codec_format_to_int32 : CodecFormat → ℕ → ℕ
codec_format_to_int32 int24_lj sample = sar sample 8
codec_format_to_int32 int24_i2s sample = sar (shl sample 1) 8
codec_format_to_int32 int24_rj sample = sar (shl sample 8) 8
codec_format_to_int32 _ sample = sample

unfoldable pub int32_to_codec_format : CodecFormat → ℕ → ℕ
int32_to_codec_format int24_lj sample = shl sample 8
int32_to_codec_format int24_i2s sample = bit_and (shl sample 7) 0x7FFFFF80
int32_to_codec_format int24_rj sample = bit_and sample 0x00FFFFFF
int32_to_codec_format _ sample = sample

-- The scaling factors are the powers 2^-31 and 2^-23, 2^31 and 2^23, and scaling by them is exact.
abbrev pub scaling_bits : CodecFormat → ℕ
scaling_bits int32 = 31
scaling_bits _ = 23

unfoldable pub int32_to_float32n : CodecFormat → ℕ → ℤ
int32_to_float32n format sample = scale_down (scaling_bits format) (int_to_float (signed32 sample))

unfoldable pub float32n_to_int32 : CodecFormat → ℤ → ℕ
float32n_to_int32 format sample = pattern32 (float_to_int (scale_up (scaling_bits format) sample))

-- The two tests before the conversion. A NaN passes both, and its cast has no defined result.
unfoldable pub clip : Float → Option ℤ
clip (fin x) =
    if ltb_ℤ x float_min
    then some float_min
    else if ltb_ℤ float_max x
    then some float_max
    else some x
clip (inf negative) = if negative then some float_min else some float_max
clip nan = none

-- The bodies of the loops of the two conversions, for one sample.
unfoldable pub input_sample : CodecFormat → ℕ → ℕ
input_sample CodecFormat.binary w = w
input_sample format w = encode (int32_to_float32n format (codec_format_to_int32 format w))

unfoldable pub output_float : CodecFormat → Option ℤ → Option ℕ
output_float format none = none
output_float format (some x) = some (int32_to_codec_format format (float32n_to_int32 format x))

unfoldable pub output_sample : CodecFormat → ℕ → Option ℕ
unfolding output_float
output_sample CodecFormat.binary p = some p
output_sample format p = output_float format (clip (decode p))
