-- ===== src/SampleConversion/Select.antt =====
-- src/sample_conversion.h: get_sample_converter, and the macros that it is made of.
use raspa.Prelude.{
  ℕ, List, [], ◌∷◌, Option, none, some, Bool, true, false, ◌||◌, ◌==◌, if◌then◌else◌, ◌≡◌, refl,
  ◌↔◌, arith,
}
use raspa.DriverConfig.{CodecFormat, num_codec_formats}
use raspa.DriverConfig.Version.{IsSampleFormat}
use raspa.SampleConversion.Converter.{SampleConverter, make_sample_converter}

abbrev pub supported_buffer_sizes : List ℕ
supported_buffer_sizes = 8 ∷ 16 ∷ 32 ∷ 48 ∷ 64 ∷ 128 ∷ 192 ∷ 256 ∷ 512 ∷ []

abbrev pub supported_strides : List ℕ
supported_strides = 2 ∷ 4 ∷ 6 ∷ 8 ∷ 10 ∷ 12 ∷ 14 ∷ 16 ∷ 24 ∷ 32 ∷ []

-- GET_CONVERTER_WITH_BUFFER_SIZE: `none` is the null pointer.
unfoldable pub get_converter_with_buffer_size : ℕ → ℕ → CodecFormat → ℕ → ℕ → Option SampleConverter
get_converter_with_buffer_size sw_chan_id size format hw_chan_start_index stride =
    if size == 8
    then some (make_sample_converter 8 format stride sw_chan_id hw_chan_start_index)
    else if size == 16
    then some (make_sample_converter 16 format stride sw_chan_id hw_chan_start_index)
    else if size == 32
    then some (make_sample_converter 32 format stride sw_chan_id hw_chan_start_index)
    else if size == 48
    then some (make_sample_converter 48 format stride sw_chan_id hw_chan_start_index)
    else if size == 64
    then some (make_sample_converter 64 format stride sw_chan_id hw_chan_start_index)
    else if size == 128
    then some (make_sample_converter 128 format stride sw_chan_id hw_chan_start_index)
    else if size == 192
    then some (make_sample_converter 192 format stride sw_chan_id hw_chan_start_index)
    else if size == 256
    then some (make_sample_converter 256 format stride sw_chan_id hw_chan_start_index)
    else if size == 512
    then some (make_sample_converter 512 format stride sw_chan_id hw_chan_start_index)
    else none

-- GET_CONVERTER_WITH_STRIDES
unfoldable pub get_converter_with_strides : ℕ → ℕ → CodecFormat → ℕ → ℕ → Option SampleConverter
get_converter_with_strides sw_chan_id size format hw stride =
    if stride == 2
    then get_converter_with_buffer_size sw_chan_id size format hw 2
    else if stride == 4
    then get_converter_with_buffer_size sw_chan_id size format hw 4
    else if stride == 6
    then get_converter_with_buffer_size sw_chan_id size format hw 6
    else if stride == 8
    then get_converter_with_buffer_size sw_chan_id size format hw 8
    else if stride == 10
    then get_converter_with_buffer_size sw_chan_id size format hw 10
    else if stride == 12
    then get_converter_with_buffer_size sw_chan_id size format hw 12
    else if stride == 14
    then get_converter_with_buffer_size sw_chan_id size format hw 14
    else if stride == 16
    then get_converter_with_buffer_size sw_chan_id size format hw 16
    else if stride == 24
    then get_converter_with_buffer_size sw_chan_id size format hw 24
    else if stride == 32
    then get_converter_with_buffer_size sw_chan_id size format hw 32
    else none

-- The arguments stand in the source's order.
unfoldable pub get_sample_converter : ℕ → ℕ → CodecFormat → ℕ → ℕ → Option SampleConverter
get_sample_converter sw_chan_id size CodecFormat.none hw stride = none
get_sample_converter sw_chan_id size num_codec_formats hw stride = none
get_sample_converter sw_chan_id size format hw stride =
    get_converter_with_strides sw_chan_id size format hw stride

abbrev pub contains : List ℕ → ℕ → Bool
contains [] a = false
contains (x ∷ xs) a = (a == x) || contains xs a

-- The configurations that the two constant arrays and the enumeration list.
abbrev pub IsSupported : ℕ → CodecFormat → ℕ → Type 0
IsSupported size format stride =
    (contains supported_buffer_sizes size ≡ true)
    × (contains supported_strides stride ≡ true)
    × IsSampleFormat format

buffer_size_cases :
    (sw size : ℕ) (format : CodecFormat) (hw stride : ℕ)
    → get_converter_with_buffer_size sw size format hw stride ≡ (
        if contains supported_buffer_sizes size
        then some (make_sample_converter size format stride sw hw)
        else none)
unfolding get_converter_with_buffer_size
buffer_size_cases sw size format hw stride = ground arith

strides_cases :
    (sw size : ℕ) (format : CodecFormat) (hw stride : ℕ)
    → get_converter_with_strides sw size format hw stride ≡ (
        if contains supported_strides stride
        then get_converter_with_buffer_size sw size format hw stride
        else none)
unfolding get_converter_with_strides
strides_cases sw size format hw stride = ground arith

choose_iff :
    (a b : Bool) (x c : SampleConverter) (R : Type 0)
    → R
    → ((if b then (if a then some x else none) else none) ≡ some c)
      ↔ (((a ≡ true) × (b ≡ true) × R) × (c ≡ x))
choose_iff true true x c R r = (λ e. ((refl, refl, r), cc), λ h. cc)
choose_iff true false x c R r = (λ e. absurd (cc), λ h. absurd (cc))
choose_iff false true x c R r = (λ e. absurd (cc), λ h. absurd (cc))
choose_iff false false x c R r = (λ e. absurd (cc), λ h. absurd (cc))

-- `get_sample_converter` gives a converter exactly for the buffer sizes and strides that the
-- constant arrays list and for the six sample formats, and it is the one with these parameters.
pub get_sample_converter_iff :
    (sw size : ℕ) (format : CodecFormat) (hw stride : ℕ) (c : SampleConverter)
    → (get_sample_converter sw size format hw stride ≡ some c)
      ↔ (IsSupported size format stride × (c ≡ make_sample_converter size format stride sw hw))
unfolding get_sample_converter
get_sample_converter_iff sw size CodecFormat.none hw stride c = ground arith
get_sample_converter_iff sw size num_codec_formats hw stride c = ground arith
get_sample_converter_iff sw size format hw stride c = rw (strides_cases sw size format hw stride) (
    rw (buffer_size_cases sw size format hw stride)
      (choose_iff _ _ _ c (IsSampleFormat format) (λ e. cc, λ e. cc)))
