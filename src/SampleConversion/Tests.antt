-- ===== src/SampleConversion/Tests.antt =====
-- Runs of the functions of src/sample_conversion.h, and the theorems about them at concrete inputs.
use raspa.Prelude.{
  ℕ, zero, suc, ◌+◌, ◌*◌, ◌<◌, ◌≡◌, ◌↔◌, refl, ◌∷◌, [], List, some, arith, ◌>>=◌, get_or,
}
use raspa.Prelude.Word.{signed32}
use raspa.Binary32.{
  decode, encode, encode_magnitude, normalise, excess_bits, round_to, round24, scale_up, scale_down,
  int_to_float, float_to_int,
}
use raspa.DriverConfig.{int24_lj, int24_rj, int32}
use raspa.SampleConversion.Codec.{
  codec_format_to_int32, int32_to_codec_format, int32_to_float32n, float32n_to_int32, clip,
  input_sample, output_sample,
}
use raspa.SampleConversion.Formats.{
  IsCodecWord, int32_to_codec_format-codec_format_to_int32, IsSample,
}
use raspa.SampleConversion.Passthrough.{output_sample-IsCodecWord}
use raspa.SampleConversion.Rounding.{Within, output_sample-input_sample_int32}
use raspa.SampleConversion.Converter.{
  SampleConverter, make_sample_converter, codec_format_to_float32n, float32n_to_codec_format,
}
use raspa.SampleConversion.Converter.Input.{FitsInput}
use raspa.SampleConversion.Converter.Output.{IsOutput, float32n_to_codec_format-IsOutput}
use raspa.SampleConversion.Converter.Passthrough.{passthrough}
use raspa.SampleConversion.Select.{IsSupported, get_sample_converter, get_sample_converter_iff}

-- 0.5, a half of full scale, is the pattern 0x3f000000; the left justified word is 0x40000000.
half_scale :
    (input_sample int24_lj 0x40000000 ≡ 0x3f000000)
    × (output_sample int24_lj 0x3f000000 ≡ some 0x40000000)
    × (output_sample int32 0x3f800000 ≡ some 0x7fffff00)
    × (output_sample int32 0xbf800000 ≡ some 0x80000000)
unfolding input_sample output_sample int32_to_float32n float32n_to_int32 codec_format_to_int32
    int32_to_codec_format clip decode encode scale_down int_to_float encode_magnitude round24
    round_to excess_bits normalise float_to_int scale_up
half_scale = (refl, refl, refl, refl)

int32_to_codec_format-codec_format_to_int32_example :
    (int32_to_codec_format int24_rj (codec_format_to_int32 int24_rj 0x800001) ≡ 0x800001)
    × IsSample int24_rj (codec_format_to_int32 int24_rj 0x800001)
int32_to_codec_format-codec_format_to_int32_example =
    int32_to_codec_format-codec_format_to_int32 int24_rj 0x800001 (omega arith)

-- 0x7f800000 is the positive infinity.
output_sample-IsCodecWord_example :
    (c : ℕ) × (output_sample int24_rj 0x7f800000 ≡ some c) × IsCodecWord int24_rj c
output_sample-IsCodecWord_example =
    output_sample-IsCodecWord int24_rj 0x7f800000 (λ e. cc) (unfold decode in λ e. cc)

output_sample-input_sample_int32_example :
    (c : ℕ) × (output_sample int32 (input_sample int32 0x7FFFFFFF) ≡ some c)
    × Within 255 (signed32 c) (signed32 0x7FFFFFFF)
output_sample-input_sample_int32_example = output_sample-input_sample_int32 0x7FFFFFFF (omega arith)

-- Two frames of two interleaved channels; the converter takes the second channel.
abbrev second : SampleConverter
second = record {
  buffer_size_in_frames = 2;
  codec_format = int24_lj;
  chan_stride = 2;
  hw_chan_start_index = 1;
  sw_chan_start_index = 2;
}

abbrev codec_words : List ℕ
codec_words = 0x100 ∷ 0x200 ∷ 0xFFFFFF00 ∷ 0x40000000 ∷ []

abbrev silent_words : List ℕ
silent_words = 0 ∷ 0 ∷ 0 ∷ 0 ∷ []

second-FitsInput : FitsInput second codec_words silent_words
second-FitsInput = record { reads = λ i h. omega arith; writes = omega arith }

float32n_to_codec_format-IsOutput_example :
    IsOutput second
      (λ i. 0)
      codec_words
      0
      2
      (float32n_to_codec_format second codec_words silent_words)
float32n_to_codec_format-IsOutput_example =
    float32n_to_codec_format-IsOutput second (λ i. 0) codec_words silent_words
      (record {
        apart = omega arith;
        reads = omega arith;
        writes = λ i h. omega arith;
        words = silent;
      })
  where
    silent : (i : ℕ) → i < 2 → output_sample int24_lj (get_or silent_words (2 + i) 0) ≡ some 0
    silent zero h =
        unfold output_sample clip decode float32n_to_int32 int32_to_codec_format float_to_int
          scale_up scale_down in
        refl
    silent (suc zero) h =
        unfold output_sample clip decode float32n_to_int32 int32_to_codec_format float_to_int
          scale_up scale_down in
        refl
    silent (suc (suc i)) h = absurd (omega arith)

passthrough_example :
    IsOutput second
      (λ i. get_or codec_words (1 + i * 2) 0)
      silent_words
      0
      2
      (codec_format_to_float32n second silent_words codec_words
        >>= float32n_to_codec_format second silent_words)
passthrough_example =
    passthrough second silent_words codec_words silent_words (λ e. cc) (λ e. cc, λ e. cc)
      (record {
        input = second-FitsInput;
        apart = omega arith;
        writes = λ i h. omega arith;
        formats = words;
      })
  where
    words : (i : ℕ) → i < 2 → IsCodecWord int24_lj (get_or codec_words (1 + i * 2) 0)
    words zero h = omega arith
    words (suc zero) h = omega arith
    words (suc (suc i)) h = absurd (omega arith)

get_sample_converter_iff_example :
    (get_sample_converter 1 64 int24_lj 1 2 ≡ some (make_sample_converter 64 int24_lj 2 1 1)) ↔ (
      IsSupported 64 int24_lj 2
      × (make_sample_converter 64 int24_lj 2 1 1 ≡ make_sample_converter 64 int24_lj 2 1 1))
get_sample_converter_iff_example =
    get_sample_converter_iff 1 64 int24_lj 1 2 (make_sample_converter 64 int24_lj 2 1 1)
