-- ===== src/AlsaUsb/Setup.antt =====
-- src/raspa_alsa_usb.h: setting up the two streams (init, _set_hw_params, _set_sw_params), starting
-- and closing them. What libasound answers is a record: a call's result, and beside it what the
-- call stores through its pointers.
use raspa.Prelude.{ℕ, ◌-◌, ◌*◌, true, false, not, ◌==◌, if◌then◌else◌}
use raspa.Prelude.Int.{ℤ, pos, negsuc, ltb_ℤ}
use raspa.DriverConfig.{eq_ℤ}
use raspa.AlsaUsb.{
  RaspaAlsaUsb, raspa_to_alsa_period_ratio, alsa_period_to_buffer_ratio, usb_audio_words,
}

-- The answers for the hardware and the software parameters of one stream. The calls whose names
-- end in `near` store what the device can do for what is asked.
pub record Stream : Type 0 where
  pub hw_params_any : ℤ
  pub set_rate_resample : ℤ
  pub set_access : ℤ
  pub set_format : ℤ
  pub set_channels : (num_channels : ℕ) → ℤ
  pub set_rate_near : (rate : ℕ) → ℤ × ℕ
  pub set_buffer_size_near : (size : ℕ) → ℤ × ℕ
  pub get_buffer_size : ℤ × ℕ
  pub set_period_size_near : (size : ℕ) → ℤ × ℕ
  pub get_period_size : ℤ × ℕ
  pub hw_params : ℤ
  pub sw_params_current : ℤ
  pub set_start_threshold : (threshold : ℕ) → ℤ
  pub set_avail_min : (min_avail : ℕ) → ℤ
  pub sw_params : ℤ

pub record Alsa : Type 0 where
  pub open_playback : ℤ
  pub open_capture : ℤ
  pub playback : Stream
  pub capture : Stream

-- A method: it returns a code, and the object as it leaves it.
abbrev pub Method : Type 0
Method = RaspaAlsaUsb → ℤ × RaspaAlsaUsb

abbrev pub ret : ℤ → Method
ret err a = (err, a)

abbrev pub update : (RaspaAlsaUsb → RaspaAlsaUsb) → Method
update f a = (pos 0, f a)

-- `if (err < 0) return err;` between two calls
infixl 5 ◌>>◌
abbrev pub ◌>>◌ : Method → Method → Method
◌>>◌ m k a = let (err, a') = m a in if ltb_ℤ err (pos 0) then (err, a') else k a'

-- `if (ret) return ret;` between two calls
abbrev pub if_zero : Method → Method → Method
if_zero m k a = let (ret, a') = m a in if eq_ℤ ret (pos 0) then k a' else (ret, a')

-- -EINVAL
abbrev pub einval : ℤ
einval = negsuc 21

unfoldable pub set_rate : Stream → Method
set_rate s a =
    let (err, rrate) = s.set_rate_near a.sample_rate in
    if ltb_ℤ err (pos 0)
    then (err, a)
    else if rrate == a.sample_rate
    then (pos 0, a)
    else (einval, a)

-- The call stores into the member itself, and what the device has replaces it.
unfoldable pub set_buffer_size : Stream → Method
set_buffer_size s a =
    let (err, near) = s.set_buffer_size_near a.alsa_buffer_size_frames in
    let asked = record a { alsa_buffer_size_frames = near } in
    if ltb_ℤ err (pos 0)
    then (err, asked)
    else if ltb_ℤ s.get_buffer_size.0 (pos 0)
    then (s.get_buffer_size.0, asked)
    else (pos 0, record a { alsa_buffer_size_frames = s.get_buffer_size.1 })

unfoldable pub set_period_size : Stream → Method
set_period_size s a =
    let (err, near) = s.set_period_size_near a.alsa_period_size_frames in
    let asked = record a { alsa_period_size_frames = near } in
    if ltb_ℤ err (pos 0)
    then (err, asked)
    else if ltb_ℤ s.get_period_size.0 (pos 0)
    then (s.get_period_size.0, asked)
    else (pos 0, record a { alsa_period_size_frames = s.get_period_size.1 })

-- `_set_hw_params` from its negotiation of the sizes on, and the whole
unfoldable pub negotiate_sizes : Stream → Method
negotiate_sizes s = do set_buffer_size s; set_period_size s; ret (s.hw_params); ret (pos 0)

unfoldable pub set_hw_params : Stream → Method
set_hw_params s = do
  ret (s.hw_params_any)
  ret (s.set_rate_resample)
  ret (s.set_access)
  ret (s.set_format)
  λ a. (s.set_channels a.num_channels, a)
  set_rate s
  negotiate_sizes s

-- The threshold is the same for both streams.
abbrev pub start_threshold : RaspaAlsaUsb → ℕ
start_threshold a = a.alsa_period_size_frames * (alsa_period_to_buffer_ratio - 1)

unfoldable pub set_sw_params : Stream → Method
set_sw_params s = do
  ret (s.sw_params_current)
  λ a. (s.set_start_threshold (start_threshold a), a)
  λ a. (s.set_avail_min a.alsa_period_size_frames, a)
  ret (s.sw_params)
  ret (pos 0)

-- The members that `init` sets first
unfoldable pub set_sizes :
    (sample_rate engine_buffer_size num_channels : ℕ) → RaspaAlsaUsb → RaspaAlsaUsb
set_sizes sample_rate engine_buffer_size num_channels a =
    let period = engine_buffer_size * raspa_to_alsa_period_ratio in
    let sized = record a {
      engine_buffer_size_frames = engine_buffer_size;
      num_channels = num_channels;
      sample_rate = sample_rate;
      alsa_period_size_frames = period;
      alsa_buffer_size_frames = period * alsa_period_to_buffer_ratio;
    } in
    record sized { buffer_words = usb_audio_words sized }

unfoldable pub open_playback_handle : Alsa → Method
open_playback_handle alsa a =
    (alsa.open_playback, record a { pcm_playback_open = eq_ℤ alsa.open_playback (pos 0) })

unfoldable pub open_capture_handle : Alsa → Method
open_capture_handle alsa a =
    (alsa.open_capture, record a { pcm_capture_open = eq_ℤ alsa.open_capture (pos 0) })

-- `init` from its last steps back to its first
unfoldable pub init_sw_params : Alsa → Method
init_sw_params alsa =
    if_zero (set_sw_params alsa.capture) (if_zero (set_sw_params alsa.playback) (ret (pos 0)))

unfoldable pub init_hw_params : Alsa → Method
init_hw_params alsa =
    if_zero (set_hw_params alsa.capture)
      (if_zero (set_hw_params alsa.playback) (init_sw_params alsa))

unfoldable pub init_streams : Alsa → Method
init_streams alsa =
    if_zero (open_playback_handle alsa) (if_zero (open_capture_handle alsa) (init_hw_params alsa))

unfoldable pub init : Alsa → (sample_rate engine_buffer_size num_channels : ℕ) → Method
init alsa sample_rate engine_buffer_size num_channels a =
    init_streams alsa (set_sizes sample_rate engine_buffer_size num_channels a)

-- With what creating the two threads returns
unfoldable pub alsa_worker_start : (create_in create_out : ℤ) → Method
alsa_worker_start create_in create_out a =
    let with_in = record a { usb_in_worker = true } in
    if not (eq_ℤ create_in (pos 0))
    then (negsuc 0, a)
    else if not (eq_ℤ create_out (pos 0))
    then (negsuc 0, with_in)
    else (pos 0, record with_in { usb_out_worker = true })

-- The result of `_alsa_worker_start` is dropped.
unfoldable pub start_usb_streams : (create_in create_out : ℤ) → Method
start_usb_streams create_in create_out a =
    (pos 0, (alsa_worker_start create_in create_out (record a { is_usb_running = true })).1)

unfoldable pub close : Method
close a = (
  pos 0,
  record a { is_usb_running = false; pcm_playback_open = false; pcm_capture_open = false },
)
