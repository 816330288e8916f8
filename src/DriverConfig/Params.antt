-- ===== src/DriverConfig/Params.antt =====
-- src/driver_config.h: reading a parameter, and the checks on what was read.
-- The kernel's answers are a `Sysfs`: what `open` returns for each parameter's file, what `read`
-- returns on it, the `errno` it leaves, and the bytes that it stores.
use raspa.Prelude.{
  ℕ, ◌+◌, ◌-◌, ◌*◌, List, [], ◌∷◌, ◌++◌, Bool, true, false, ◌&&◌, ◌||◌, not, leb, ◌==◌,
  if◌then◌else◌, take, replicate, length, min, ◌^◌,
}
use raspa.Prelude.Int.{ℤ, pos, negsuc, ltb_ℤ, neg_part, pos_part}
use raspa.Prelude.Word.{signed32, pattern32}
use raspa.DriverConfig.Types.{CodecFormat, to_codec_format}

-- the names of the parameters that `read_driver_param` is called with
pub data Param : Type 0 where
  audio_sampling_rate audio_input_channels audio_output_channels audio_buffer_size : Param
  platform_type audio_ver_maj audio_ver_min usb_audio_type audio_irq_affinity : Param

pub record Sysfs : Type 0 where
  pub open_fd : Param → ℤ
  pub read_count : Param → ℤ
  pub errno : Param → ℤ
  pub contents : Param → List ℕ

abbrev pub param_val_str_len : ℕ
param_val_str_len = 25

-- `atoi` of the C library: white space, a sign, then digits up to the first other byte. A number
-- that an `int` cannot hold, which C leaves undefined, is converted as glibc does: `strtol` stops at
-- the bounds of a `long`, and its result wraps.
abbrev pub is_space : ℕ → Bool
is_space c = (c == 32) || (leb 9 c && leb c 13)

abbrev pub is_digit : ℕ → Bool
is_digit c = leb b'0' c && leb c b'9'

unfoldable pub atoi_digits : List ℕ → ℕ → ℕ
atoi_digits [] acc = acc
atoi_digits (c ∷ cs) acc =
    let rest = atoi_digits cs (acc * 10 + (c - b'0')) in if is_digit c then rest else acc

-- `-0` is 0.
abbrev pub negated : ℕ → ℤ
negated n = if n == 0 then pos 0 else negsuc (n - 1)

unfoldable pub atoi_signed : List ℕ → ℤ
unfolding atoi_digits
atoi_signed [] = pos 0
atoi_signed (c ∷ cs) =
    if c == b'-'
    then negated (atoi_digits cs 0)
    else if c == b'+'
    then pos (atoi_digits cs 0)
    else pos (atoi_digits (c ∷ cs) 0)

-- `static_cast<int>` of a `strtol`
abbrev pub long_to_int : ℤ → ℤ
long_to_int (pos n) = signed32 (pattern32 (pos (min n (2 ^ 63 - 1))))
long_to_int (negsuc n) = signed32 (pattern32 (negsuc (min n (2 ^ 63 - 1))))

unfoldable pub atoi : List ℕ → ℤ
unfolding atoi_signed
atoi [] = pos 0
atoi (c ∷ cs) =
    let rest = atoi cs in if is_space c then rest else long_to_int (atoi_signed (c ∷ cs))

-- The buffer holds `param_val_str_len` zero bytes before `read` stores at most as many.
abbrev pub param_str : List ℕ → List ℕ
param_str bytes =
    let stored = take param_val_str_len bytes in
    stored ++ replicate (param_val_str_len - length stored) 0

unfoldable pub read_driver_param : Sysfs → Param → ℤ
read_driver_param k p =
    if ltb_ℤ (k.open_fd p) (pos 0)
    then k.open_fd p
    else if ltb_ℤ (k.read_count p) (pos 0)
    then k.errno p
    else atoi (param_str (k.contents p))

unfoldable pub get_sample_rate : Sysfs → ℤ
get_sample_rate k = read_driver_param k audio_sampling_rate

unfoldable pub get_num_input_chan : Sysfs → ℤ
get_num_input_chan k = read_driver_param k audio_input_channels

unfoldable pub get_num_output_chan : Sysfs → ℤ
get_num_output_chan k = read_driver_param k audio_output_channels

unfoldable pub get_platform_type : Sysfs → ℤ
get_platform_type k = read_driver_param k platform_type

unfoldable pub get_buffer_size : Sysfs → ℤ
get_buffer_size k = read_driver_param k audio_buffer_size

unfoldable pub get_usb_audio_type : Sysfs → ℤ
get_usb_audio_type k = read_driver_param k usb_audio_type

unfoldable pub get_audio_irq_affinity : Sysfs → ℤ
get_audio_irq_affinity k = read_driver_param k audio_irq_affinity

-- std::pair<bool, CodecFormat> check_codec_format(int)
unfoldable pub check_codec_format : ℤ → Bool × CodecFormat
check_codec_format c =
    if not (ltb_ℤ (pos 0) c) || not (ltb_ℤ c (pos 7))
    then (false, CodecFormat.none)
    else (true, to_codec_format (pos_part c))

abbrev pub required_maj_ver : ℤ
required_maj_ver = pos 1

abbrev pub required_min_ver : ℤ
required_min_ver = pos 1

abbrev pub eq_ℤ : ℤ → ℤ → Bool
eq_ℤ a b = pos_part a + neg_part b == pos_part b + neg_part a

unfoldable pub check_driver_version : Sysfs → Bool × ℤ
check_driver_version k =
    let major = read_driver_param k audio_ver_maj in
    let minor = read_driver_param k audio_ver_min in
    if ltb_ℤ major (pos 0)
    then (false, major)
    else if ltb_ℤ minor (pos 0)
    then (false, minor)
    else if not (eq_ℤ major required_maj_ver) || ltb_ℤ minor required_min_ver
    then (false, pos 0)
    else (true, pos 0)
