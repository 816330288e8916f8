-- ===== src/DriverConfig/Version.antt =====
-- src/driver_config.h: the checks on the driver's version and codec format, and a failed read.
use raspa.Prelude.{ℕ, zero, suc, ◌<◌, ◌≡◌, ◌↔◌, ◌≢◌, ◌⊎◌, true, false, arith}
use raspa.Prelude.Int.{ℤ, pos, negsuc, ltb_ℤ, ◌≤ℤ◌}
use raspa.DriverConfig.Types.{
  CodecFormat, num_codec_formats, codec_format_index, to_codec_format, int24_lj,
}
use raspa.DriverConfig.Params.{
  Sysfs, Param, audio_ver_maj, audio_ver_min, read_driver_param, check_codec_format,
  check_driver_version,
}

-- The formats that a sample can have: all but the two marks at the ends of the enumeration.
abbrev pub IsSampleFormat : CodecFormat → Type 0
IsSampleFormat f = (f ≢ CodecFormat.none) × (f ≢ num_codec_formats)

-- The number of a sample format lies from 1 to 6, and the cast gives the format back.
codec_format_index-range :
    (f : CodecFormat)
    → IsSampleFormat f
    → (0 < codec_format_index f)
      × (codec_format_index f < 7)
      × (to_codec_format (codec_format_index f) ≡ f)
codec_format_index-range int24_lj h = ground arith
codec_format_index-range f h = ground arith

to_codec_format_cases :
    (n : ℕ)
    → 0 < n
    → n < 7
    → (codec_format_index (to_codec_format n) ≡ n) × IsSampleFormat (to_codec_format n)
to_codec_format_cases zero p q = absurd (omega arith)
to_codec_format_cases (suc zero) p q = ground arith
to_codec_format_cases (suc (suc zero)) p q = ground arith
to_codec_format_cases (suc (suc (suc zero))) p q = ground arith
to_codec_format_cases (suc (suc (suc (suc zero)))) p q = ground arith
to_codec_format_cases (suc (suc (suc (suc (suc zero))))) p q = ground arith
to_codec_format_cases (suc (suc (suc (suc (suc (suc zero)))))) p q = ground arith
to_codec_format_cases (suc (suc (suc (suc (suc (suc (suc n))))))) p q = absurd (omega arith)

-- `check_codec_format` accepts exactly the numbers of the six sample formats, and answers with the
-- format that has the number.
pub check_codec_format_iff :
    (c : ℤ) (f : CodecFormat)
    → (check_codec_format c ≡ (true, f)) ↔ ((c ≡ pos (codec_format_index f)) × IsSampleFormat f)
unfolding check_codec_format
check_codec_format_iff (negsuc n) f = ground arith
check_codec_format_iff (pos n) f =
    ground (arith, to_codec_format_cases n, codec_format_index-range f)

-- `check_driver_version` accepts exactly major version 1 with minor version 1 or later, and the
-- number beside its answer is negative exactly when one of the two versions is read as a negative
-- number.
pub check_driver_version_iff :
    (k : Sysfs)
    → let (accepted, code) = check_driver_version k in
      let major = read_driver_param k audio_ver_maj in
      let minor = read_driver_param k audio_ver_min in
      ((accepted ≡ true) ↔ ((major ≡ pos 1) × (pos 1 ≤ℤ minor)))
      × ((ltb_ℤ code (pos 0) ≡ true)
          ↔ ((ltb_ℤ major (pos 0) ≡ true) ⊎ (ltb_ℤ minor (pos 0) ≡ true)))
unfolding check_driver_version
check_driver_version_iff k = ground arith

-- Where the file opens and the read fails, the parameter's value is `errno`: a positive number is
-- not reported as negative, and with `errno` 1 on both version files the driver is accepted.
pub failed_read_accepted :
    (k : Sysfs)
    → ((p : Param)
        → (ltb_ℤ (k.open_fd p) (pos 0) ≡ false)
          × (ltb_ℤ (k.read_count p) (pos 0) ≡ true)
          × (k.errno p ≡ pos 1))
    → check_driver_version k ≡ (true, pos 0)
unfolding check_driver_version read_driver_param
failed_read_accepted k fails = ground (arith, fails audio_ver_maj, fails audio_ver_min)
