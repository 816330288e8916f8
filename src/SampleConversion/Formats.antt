-- ===== src/SampleConversion/Formats.antt =====
-- src/sample_conversion.h: the codec's words and the `int32_t` samples correspond, in each format.
use raspa.Prelude.{ℕ, ◌+◌, ◌*◌, ◌%◌, ◌^◌, ◌≤◌, ◌<◌, ◌≡◌, refl, ◌⊎◌, arith, bit_and}
use raspa.Prelude.Bits.{bit_and_mask, bit_and-shift}
use raspa.Prelude.Word.{shl}
use raspa.DriverConfig.{CodecFormat, int24_lj, int24_i2s, int24_rj, int24_32rj}
use raspa.SampleConversion.Codec.{codec_format_to_int32, int32_to_codec_format}

-- A pattern of 24 significant bits: at least -2^23 and less than 2^23 as an `int32_t`.
abbrev pub Is24Bit : ℕ → Type 0
Is24Bit w = (w < 2 ^ 32) × ((w < 2 ^ 23) ⊎ (2 ^ 32 ≤ w + 2 ^ 23))

-- The samples of a format.
abbrev pub IsSample : CodecFormat → ℕ → Type 0
IsSample int24_lj w = Is24Bit w
IsSample int24_i2s w = Is24Bit w
IsSample int24_rj w = Is24Bit w
IsSample int24_32rj w = Is24Bit w
IsSample _ w = w < 2 ^ 32

-- The words of a format, as the comments on the enumeration lay the bits out.
abbrev pub IsCodecWord : CodecFormat → ℕ → Type 0
IsCodecWord int24_lj w = (w < 2 ^ 32) × (w % 2 ^ 8 ≡ 0)
IsCodecWord int24_i2s w = (w < 2 ^ 31) × (w % 2 ^ 7 ≡ 0)
IsCodecWord int24_rj w = w < 2 ^ 24
IsCodecWord int24_32rj w = Is24Bit w
IsCodecWord _ w = w < 2 ^ 32

-- The mask of the I2S format drops the top bit of a shifted sample.
i2s_mask : (w : ℕ) → bit_and (shl w 7) 0x7FFFFF80 ≡ w % 2 ^ 24 * 2 ^ 7
i2s_mask w =
    let shifted : shl w 7 ≡ w % 2 ^ 25 * 2 ^ 7 = omega arith in
    rw shifted (omega (arith, bit_and-shift 7 (w % 2 ^ 25) 0xFFFFFF, bit_and_mask 24 (w % 2 ^ 25)))

-- In every format, converting a sample to a codec word and back gives the sample, and the word has
-- the bits that the format lays out.
pub codec_format_to_int32-int32_to_codec_format :
    (f : CodecFormat) (w : ℕ)
    → IsSample f w
    → (codec_format_to_int32 f (int32_to_codec_format f w) ≡ w)
      × IsCodecWord f (int32_to_codec_format f w)
unfolding codec_format_to_int32 int32_to_codec_format
codec_format_to_int32-int32_to_codec_format int24_lj w h = ground arith
codec_format_to_int32-int32_to_codec_format int24_i2s w h = rw (i2s_mask w) (ground arith)
codec_format_to_int32-int32_to_codec_format int24_rj w h = rw (bit_and_mask 24 w) (ground arith)
codec_format_to_int32-int32_to_codec_format f w h = (refl, h)

-- In every format, converting a codec word to a sample and back gives the word, and the sample
-- lies in the format's range.
pub int32_to_codec_format-codec_format_to_int32 :
    (f : CodecFormat) (c : ℕ)
    → IsCodecWord f c
    → (int32_to_codec_format f (codec_format_to_int32 f c) ≡ c)
      × IsSample f (codec_format_to_int32 f c)
unfolding codec_format_to_int32 int32_to_codec_format
int32_to_codec_format-codec_format_to_int32 int24_lj c h = ground arith
int32_to_codec_format-codec_format_to_int32 int24_i2s c h = rw i2s_mask (ground arith)
int32_to_codec_format-codec_format_to_int32 int24_rj c h = rw (bit_and_mask 24) (ground arith)
int32_to_codec_format-codec_format_to_int32 f c h = (refl, h)
