-- ===== src/DriverConfig/Types.antt =====
-- src/driver_config.h: the enumerations. A value that the driver sends is an `int`; the casts
-- from it are partial, and the code tests the range before it casts.
use raspa.Prelude.{ℕ, zero, suc}

-- enum class CodecFormat
pub data CodecFormat : Type 0 where
  none int24_lj int24_i2s int24_rj int24_32rj int32 binary num_codec_formats : CodecFormat

-- enum class PlatformType, from 1 on
pub data PlatformType : Type 0 where
  native sync async : PlatformType

-- enum class UsbAudioType, from 1 on
pub data UsbAudioType : Type 0 where
  none native_alsa external_uc : UsbAudioType

-- static_cast<int> of a CodecFormat
abbrev pub codec_format_index : CodecFormat → ℕ
codec_format_index CodecFormat.none = 0
codec_format_index int24_lj = 1
codec_format_index int24_i2s = 2
codec_format_index int24_rj = 3
codec_format_index int24_32rj = 4
codec_format_index int32 = 5
codec_format_index binary = 6
codec_format_index num_codec_formats = 7

-- static_cast<CodecFormat>; the code casts only values that are in range.
abbrev pub to_codec_format : ℕ → CodecFormat
to_codec_format zero = CodecFormat.none
to_codec_format (suc zero) = int24_lj
to_codec_format (suc (suc zero)) = int24_i2s
to_codec_format (suc (suc (suc zero))) = int24_rj
to_codec_format (suc (suc (suc (suc zero)))) = int24_32rj
to_codec_format (suc (suc (suc (suc (suc zero))))) = int32
to_codec_format (suc (suc (suc (suc (suc (suc zero)))))) = binary
to_codec_format _ = num_codec_formats

-- static_cast<int> of a PlatformType and of a UsbAudioType
abbrev pub platform_type_index : PlatformType → ℕ
platform_type_index native = 1
platform_type_index sync = 2
platform_type_index async = 3

abbrev pub usb_audio_type_index : UsbAudioType → ℕ
usb_audio_type_index UsbAudioType.none = 1
usb_audio_type_index native_alsa = 2
usb_audio_type_index external_uc = 3

-- static_cast<PlatformType> and static_cast<UsbAudioType>, after the range test
abbrev pub to_platform_type : ℕ → PlatformType
to_platform_type (suc (suc zero)) = sync
to_platform_type (suc (suc (suc zero))) = async
to_platform_type _ = native

abbrev pub to_usb_audio_type : ℕ → UsbAudioType
to_usb_audio_type (suc (suc zero)) = native_alsa
to_usb_audio_type (suc (suc (suc zero))) = external_uc
to_usb_audio_type _ = UsbAudioType.none
