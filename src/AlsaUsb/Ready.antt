-- ===== src/AlsaUsb/Ready.antt =====
-- src/raspa_alsa_usb.h: what has been agreed with the device once `init` returns 0.
use raspa.Prelude.{ℕ, ◌*◌, ◌≡◌, refl, ap, sym, ◌∙◌, inl, inr, true, false, arith, Bool-cases, ◌==◌}
use raspa.Prelude.Int.{ℤ, pos, negsuc, ltb_ℤ}
use raspa.DriverConfig.{eq_ℤ}
use raspa.AlsaUsb.{RaspaAlsaUsb, usb_audio_words}
use raspa.AlsaUsb.Setup.{
  Stream, Alsa, Method, ret, ◌>>◌, if_zero, set_rate, set_buffer_size, set_period_size,
  negotiate_sizes, set_hw_params, set_sw_params, set_sizes, open_playback_handle,
  open_capture_handle, init, init_streams, init_hw_params, init_sw_params,
}

-- A chain that returned 0 has passed its first call.
>>-eq-zero :
    (m k : Method) (a a' : RaspaAlsaUsb)
    → (m >> k) a ≡ (pos 0, a')
    → (ltb_ℤ (m a).0 (pos 0) ≡ false) × (k (m a).1 ≡ (pos 0, a'))
>>-eq-zero m k a a' h = elim (Bool-cases (ltb_ℤ (m a).0 (pos 0))) [
  | inl failed ↦ absurd (ground (arith, ap (λ (p : ℤ × RaspaAlsaUsb). p.0) (rw failed at h)))
  | inr passed ↦ (passed, rw passed at h)
]

eq_ℤ-zero : (z : ℤ) → eq_ℤ z (pos 0) ≡ true → z ≡ pos 0
eq_ℤ-zero (pos n) h = ground arith
eq_ℤ-zero (negsuc n) h = ground arith

if_zero-eq-zero :
    (m k : Method) (a a' : RaspaAlsaUsb)
    → if_zero m k a ≡ (pos 0, a')
    → ((m a).0 ≡ pos 0) × (k (m a).1 ≡ (pos 0, a'))
if_zero-eq-zero m k a a' h = elim (Bool-cases (eq_ℤ (m a).0 (pos 0))) [
  | inl passed ↦ (eq_ℤ-zero (m a).0 passed, rw passed at h)
  | inr failed ↦ absurd (ground (arith, ap (λ (p : ℤ × RaspaAlsaUsb). p.0) (rw failed at h)))
]

set_rate-success :
    (s : Stream) (a : RaspaAlsaUsb)
    → ltb_ℤ (set_rate s a).0 (pos 0) ≡ false
    → ((s.set_rate_near a.sample_rate).1 ≡ a.sample_rate) × ((set_rate s a).1 ≡ a)
unfolding set_rate
set_rate-success s a h = elim (Bool-cases (ltb_ℤ (s.set_rate_near a.sample_rate).0 (pos 0))) [
  | inl failed ↦ absurd (let e : true ≡ false = sym failed ∙ (rw failed at h) in cc e)
  | inr answered ↦ elim (Bool-cases ((s.set_rate_near a.sample_rate).1 == a.sample_rate)) [
    | inl same ↦ (ground arith, rw (answered, same) refl)
    | inr other ↦ absurd (let e : true ≡ false = rw (answered, other) at h in cc e)
  ]
]

set_buffer_size-success :
    (s : Stream) (a : RaspaAlsaUsb)
    → ltb_ℤ (set_buffer_size s a).0 (pos 0) ≡ false
    → (set_buffer_size s a).1 ≡ record a { alsa_buffer_size_frames = s.get_buffer_size.1 }
unfolding set_buffer_size
set_buffer_size-success s a h = ground arith

set_period_size-success :
    (s : Stream) (a : RaspaAlsaUsb)
    → ltb_ℤ (set_period_size s a).0 (pos 0) ≡ false
    → (set_period_size s a).1 ≡ record a { alsa_period_size_frames = s.get_period_size.1 }
unfolding set_period_size
set_period_size-success s a h = ground arith

-- A call that did not fail
abbrev pub Passes : ℤ → Type 0
Passes err = ltb_ℤ err (pos 0) ≡ false

-- The stream runs at exactly the rate and the number of channels that were asked for.
pub record HwSet (s : Stream) (sample_rate num_channels : ℕ) : Type 0 where
  pub rate : (s.set_rate_near sample_rate).1 ≡ sample_rate
  pub channels : Passes (s.set_channels num_channels)
  pub access : Passes s.set_access
  pub format : Passes s.set_format
  pub applied : Passes s.hw_params

-- The stream wakes up a thread for each period, and starts with all periods but one of its buffer.
pub record SwSet (s : Stream) (period : ℕ) : Type 0 where
  pub threshold : Passes (s.set_start_threshold (period * 3))
  pub min_avail : Passes (s.set_avail_min period)
  pub applied : Passes s.sw_params

abbrev with_sizes : Stream → RaspaAlsaUsb → RaspaAlsaUsb
with_sizes s a = record a {
  alsa_buffer_size_frames = s.get_buffer_size.1;
  alsa_period_size_frames = s.get_period_size.1;
}

negotiate_sizes-success :
    (s : Stream) (a a' : RaspaAlsaUsb)
    → negotiate_sizes s a ≡ (pos 0, a')
    → Passes s.hw_params × (a' ≡ with_sizes s a)
unfolding negotiate_sizes
negotiate_sizes-success s a a' h = ground (
  arith,
  set_buffer_size-success s a,
  set_period_size-success s (record a { alsa_buffer_size_frames = s.get_buffer_size.1 }),
)

set_hw_params-success :
    (s : Stream) (a a' : RaspaAlsaUsb)
    → set_hw_params s a ≡ (pos 0, a')
    → HwSet s a.sample_rate a.num_channels × (a' ≡ with_sizes s a)
unfolding set_hw_params
set_hw_params-success s a a' h =
    ground (arith, set_rate-success s a, negotiate_sizes-success s a a')

set_sw_params-success :
    (s : Stream) (a a' : RaspaAlsaUsb)
    → set_sw_params s a ≡ (pos 0, a')
    → SwSet s a.alsa_period_size_frames × (a' ≡ a)
unfolding set_sw_params
set_sw_params-success s a a' h = ground arith

-- Both handles are open, and both streams run at the rate and with the channels that were asked
-- for. The sizes are those that the playback stream has, and the thresholds of both streams are
-- made of them; the memory of the ring was allocated before.
pub record IsReady (alsa : Alsa) (sample_rate frames num_channels : ℕ) (a : RaspaAlsaUsb)
    : Type 0 where
  pub handles : (a.pcm_playback_open ≡ true) × (a.pcm_capture_open ≡ true)
  pub opened : (alsa.open_playback ≡ pos 0) × (alsa.open_capture ≡ pos 0)
  pub hardware :
      HwSet alsa.capture sample_rate num_channels × HwSet alsa.playback sample_rate num_channels
  pub period : a.alsa_period_size_frames ≡ alsa.playback.get_period_size.1
  pub buffer : a.alsa_buffer_size_frames ≡ alsa.playback.get_buffer_size.1
  pub software :
      SwSet alsa.capture alsa.playback.get_period_size.1
      × SwSet alsa.playback alsa.playback.get_period_size.1
  pub allocated : a.buffer_words ≡ 512 * (frames * num_channels)

init_sw_params-success :
    (alsa : Alsa) (a a' : RaspaAlsaUsb)
    → init_sw_params alsa a ≡ (pos 0, a')
    → SwSet alsa.capture a.alsa_period_size_frames
      × SwSet alsa.playback a.alsa_period_size_frames
      × (a' ≡ a)
unfolding init_sw_params
init_sw_params-success alsa a a' h =
    let playing = if_zero (set_sw_params alsa.playback) (ret (pos 0)) in
    let (c, h1) = if_zero-eq-zero (set_sw_params alsa.capture) playing a a' h in
    let after = (set_sw_params alsa.capture a).1 in
    let (captures, same) =
      set_sw_params-success alsa.capture a after (ap (λ (r : ℤ). (r, after)) c) in
    let (p, h2) =
      if_zero-eq-zero (set_sw_params alsa.playback) (ret (pos 0)) a a' (rw same at h1) in
    let last = (set_sw_params alsa.playback a).1 in
    let (plays, same') = set_sw_params-success alsa.playback a last (ap (λ (r : ℤ). (r, last)) p) in
    (captures, plays, sym (ap (λ (r : ℤ × RaspaAlsaUsb). r.1) h2) ∙ same')

init_hw_params-success :
    (alsa : Alsa) (a a' : RaspaAlsaUsb)
    → init_hw_params alsa a ≡ (pos 0, a')
    → let set = with_sizes alsa.playback a in
      HwSet alsa.capture a.sample_rate a.num_channels
      × HwSet alsa.playback a.sample_rate a.num_channels
      × (init_sw_params alsa set ≡ (pos 0, a'))
unfolding init_hw_params
init_hw_params-success alsa a a' h =
    let playing = if_zero (set_hw_params alsa.playback) (init_sw_params alsa) in
    let (c, h1) = if_zero-eq-zero (set_hw_params alsa.capture) playing a a' h in
    let after = (set_hw_params alsa.capture a).1 in
    let (captures, sized) =
      set_hw_params-success alsa.capture a after (ap (λ (r : ℤ). (r, after)) c) in
    let captured = with_sizes alsa.capture a in
    let (p, h2) =
      if_zero-eq-zero (set_hw_params alsa.playback) (init_sw_params alsa) captured a'
        (rw sized at h1) in
    let last = (set_hw_params alsa.playback captured).1 in
    let (plays, sized') =
      set_hw_params-success alsa.playback captured last (ap (λ (r : ℤ). (r, last)) p) in
    (captures, plays, rw sized' at h2)

-- If `init` returns 0, the handles of both streams are open and both streams accepted the sample
-- rate and the channels exactly; the sizes kept are the playback stream's, whose period gives the
-- thresholds of the capture stream too; and each buffer has room for 512 periods of the engine.
pub init-IsReady :
    (alsa : Alsa) (sample_rate frames num_channels : ℕ) (a a' : RaspaAlsaUsb)
    → init alsa sample_rate frames num_channels a ≡ (pos 0, a')
    → IsReady alsa sample_rate frames num_channels a'
unfolding init init_streams set_sizes usb_audio_words open_playback_handle open_capture_handle
init-IsReady alsa sample_rate frames num_channels a a' h =
    let sized = set_sizes sample_rate frames num_channels a in
    let capturing = if_zero (open_capture_handle alsa) (init_hw_params alsa) in
    let (p, h1) = if_zero-eq-zero (open_playback_handle alsa) capturing sized a' h in
    let playing = (open_playback_handle alsa sized).1 in
    let (c, h2) = if_zero-eq-zero (open_capture_handle alsa) (init_hw_params alsa) playing a' h1 in
    let both = (open_capture_handle alsa playing).1 in
    let (captures, plays, h3) = init_hw_params-success alsa both a' h2 in
    let (capture_sw, playback_sw, e) =
      init_sw_params-success alsa (with_sizes alsa.playback both) a' h3 in
    rw e (record {
      handles = (ap (λ (z : ℤ). eq_ℤ z (pos 0)) p, ap (λ (z : ℤ). eq_ℤ z (pos 0)) c);
      opened = (p, c);
      hardware = (captures, plays);
      period = refl;
      buffer = refl;
      software = (capture_sw, playback_sw);
      allocated = omega arith;
    })
