-- ===== src/SampleConversion/Passthrough.antt =====
-- src/sample_conversion.h: a sample that goes from the codec to `float` and back unchanged.
use raspa.Prelude.{ℕ, ◌-◌, ◌^◌, ◌≡◌, ◌≢◌, refl, arith, some, true, false}
use raspa.Prelude.Int.{ℤ, pos, negsuc, ◌≤ℤ◌}
use raspa.Binary32.{Float, fin, inf, nan, decode, scale_up, scale_down, float_to_int, one}
use raspa.DriverConfig.{CodecFormat, int32, binary, num_codec_formats}
use raspa.DriverConfig.Version.{IsSampleFormat}
use raspa.SampleConversion.Codec.{
  codec_format_to_int32, int32_to_codec_format, int32_to_float32n, float32n_to_int32, clip,
  input_sample, output_sample, float_min, float_max,
}
use raspa.SampleConversion.Formats.{
  Is24Bit, IsSample, IsCodecWord, codec_format_to_int32-int32_to_codec_format,
  int32_to_codec_format-codec_format_to_int32,
}
use raspa.SampleConversion.Scaling.{through_float_lem, back_to_int}
use native.Mathlib.Decide.{dec_lt}

-- What `output_sample` does with a float that `input_sample` made from a 24-bit sample.
output-input24 :
    (f : CodecFormat) (c : ℕ)
    → f ≢ int32
    → f ≢ binary
    → Is24Bit (codec_format_to_int32 f c)
    → int32_to_codec_format f (codec_format_to_int32 f c) ≡ c
    → output_sample f (input_sample f c) ≡ some c
unfolding output_sample input_sample int32_to_float32n float32n_to_int32
output-input24 int32 c h g small back = absurd (h refl)
output-input24 binary c h g small back = absurd (g refl)
output-input24 f c h g small back =
    rw (through_float_lem _ small) (rw (back_to_int _ small) (rw back))

-- A word of any sample format but INT32 that is converted to float and back is the word it was.
pub output_sample-input_sample :
    (f : CodecFormat) (c : ℕ)
    → f ≢ int32
    → IsSampleFormat f
    → IsCodecWord f c
    → output_sample f (input_sample f c) ≡ some c
output_sample-input_sample CodecFormat.none c h real w = absurd (real.0 refl)
output_sample-input_sample num_codec_formats c h real w = absurd (real.1 refl)
output_sample-input_sample int32 c h real w = absurd (h refl)
output_sample-input_sample binary c h real w = unfold output_sample input_sample in refl
output_sample-input_sample f c h real w =
    let (back, small) = int32_to_codec_format-codec_format_to_int32 f c w in
    output-input24 f c h (λ e. cc) small back

-- A clipped value lies between FLOAT_MIN and FLOAT_MAX, and only a NaN is not clipped.
clip_range :
    (x : Float) → x ≢ nan → (v : ℤ) × (clip x ≡ some v) × (float_min ≤ℤ v) × (v ≤ℤ float_max)
unfolding clip
clip_range (fin (pos n)) h = elim (dec_lt (one - 2 ^ 126) n) [
  | yes above ↦ (float_max, ground arith, omega arith, omega arith)
  | no within ↦ (pos n, ground arith, omega arith, omega arith)
]
clip_range (fin (negsuc n)) h = elim (dec_lt (one - 1) n) [
  | yes below ↦ (float_min, ground arith, omega arith, omega arith)
  | no within ↦ (negsuc n, ground arith, omega arith, omega arith)
]
clip_range (inf true) h = (float_min, refl, omega arith, omega arith)
clip_range (inf false) h = (float_max, refl, omega arith, omega arith)
clip_range nan h = absurd (h refl)

-- What the cast gives for a value that the clipping lets through.
cast_range :
    (f : CodecFormat) (v : ℤ) → float_min ≤ℤ v → v ≤ℤ float_max → IsSample f (float32n_to_int32 f v)
unfolding float32n_to_int32 float_to_int scale_up scale_down
cast_range int32 (pos n) lo hi = ground arith
cast_range int32 (negsuc n) lo hi = ground arith
cast_range f (pos n) lo hi = ground arith
cast_range f (negsuc n) lo hi = ground arith

-- Every float that is no NaN, the infinities included, gives a word of the codec's format.
pub output_sample-IsCodecWord :
    (f : CodecFormat) (p : ℕ)
    → f ≢ binary
    → decode p ≢ nan
    → (c : ℕ) × (output_sample f p ≡ some c) × IsCodecWord f c
unfolding output_sample
output_sample-IsCodecWord binary p h number = absurd (h refl)
output_sample-IsCodecWord f p h number =
    let (v, clipped, lo, hi) = clip_range (decode p) number in
    (
      int32_to_codec_format f (float32n_to_int32 f v),
      rw clipped,
      (codec_format_to_int32-int32_to_codec_format f _ (cast_range f v lo hi)).1,
    )
