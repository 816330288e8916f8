-- ===== src/Pimpl/Layout.antt =====
-- src/raspa_pimpl.h: where `_init_driver_buffers` and `_init_user_buffers` place the buffers.
-- Pointers into the driver's memory are offsets in words from `_driver_buffer`, those into the
-- user's buffers offsets in samples. The sizes of the two packets, in words, are the ones that the
-- submodule of the control protocols defines.
use raspa.Prelude.{
  ℕ, ◌+◌, ◌*◌, ◌≤◌, ◌<◌, ◌⊎◌, inl, inr, List, [], ◌∷◌, ltb, arith, if◌then◌else◌, Bool-cases,
  ltb→lt,
}
use package.native.Mathlib.Nat.{mul-le-mul_right}
use package.native.Mathlib.Decide.{dec_lt}
use raspa.DriverConfig.{PlatformType, native, UsbAudioType, native_alsa}

pub record PacketSizes : Type 0 where
  pub device_ctrl_pkt_size_words : ℕ
  pub audio_ctrl_pkt_size_words : ℕ

-- The pointers that `_init_driver_buffers` sets. Those that a platform does not use are null in the
-- source and 0 here.
pub record DriverBuffers : Type 0 where
  pub rx_pkt_0 : ℕ
  pub rx_pkt_1 : ℕ
  pub tx_pkt_0 : ℕ
  pub tx_pkt_1 : ℕ
  pub audio_in_0 : ℕ
  pub audio_in_1 : ℕ
  pub audio_out_0 : ℕ
  pub audio_out_1 : ℕ
  pub cv_out : ℕ
  pub cv_in : ℕ

unfoldable pub driver_buffer_size_in_samples : (frames num_input num_output : ℕ) → ℕ
driver_buffer_size_in_samples frames num_input num_output =
    frames * (if ltb num_output num_input then num_input else num_output)

-- The pointer that the code moves along, on the platforms with a micro-controller.
unfoldable pub init_packet_buffers : PacketSizes → (samples : ℕ) → DriverBuffers
init_packet_buffers s samples =
    let device = s.device_ctrl_pkt_size_words in
    let audio = s.audio_ctrl_pkt_size_words in
    let rx0 = device in
    let in0 = rx0 + audio in
    let rx1 = in0 + (samples + device) in
    let in1 = rx1 + audio in
    let tx0 = in1 + (samples + device) in
    let out0 = tx0 + audio in
    let tx1 = out0 + (samples + device) in
    let out1 = tx1 + audio in
    record {
      rx_pkt_0 = rx0;
      rx_pkt_1 = rx1;
      tx_pkt_0 = tx0;
      tx_pkt_1 = tx1;
      audio_in_0 = in0;
      audio_in_1 = in1;
      audio_out_0 = out0;
      audio_out_1 = out1;
      cv_out = 0;
      cv_in = 0;
    }

unfoldable pub init_native_buffers : (samples : ℕ) → DriverBuffers
init_native_buffers samples =
    let in1 : ℕ = 0 + samples in
    let out0 = in1 + samples in
    let out1 = out0 + samples in
    let cv = out1 + samples in
    record {
      rx_pkt_0 = 0;
      rx_pkt_1 = 0;
      tx_pkt_0 = 0;
      tx_pkt_1 = 0;
      audio_in_0 = 0;
      audio_in_1 = in1;
      audio_out_0 = out0;
      audio_out_1 = out1;
      cv_out = cv;
      cv_in = cv + 1;
    }

unfoldable pub init_driver_buffers : PacketSizes → PlatformType → (samples : ℕ) → DriverBuffers
init_driver_buffers s native samples = init_native_buffers samples
init_driver_buffers s _ samples = init_packet_buffers s samples

-- A region of the driver's memory: its first word and its length.
abbrev pub Region : Type 0
Region = ℕ × ℕ

-- The regions lie one behind the other, and end before `limit`.
abbrev pub InOrder : ℕ → List Region → ℕ → Type 0
InOrder from [] limit = from ≤ limit
InOrder from ((at, size) ∷ rs) limit = (from ≤ at) × InOrder (at + size) rs limit

-- What the driver's memory holds on each platform, in the order of the comment on
-- `_init_driver_buffers`.
abbrev pub driver_regions : PacketSizes → PlatformType → ℕ → DriverBuffers → List Region
driver_regions s native samples b =
    (b.audio_in_0, samples)
    ∷ (b.audio_in_1, samples)
    ∷ (b.audio_out_0, samples)
    ∷ (b.audio_out_1, samples)
    ∷ (b.cv_out, 1)
    ∷ (b.cv_in, 1)
    ∷ []
driver_regions s _ samples b =
    let device = s.device_ctrl_pkt_size_words in
    let audio = s.audio_ctrl_pkt_size_words in
    (0, device)
    ∷ (b.rx_pkt_0, audio)
    ∷ (b.audio_in_0, samples)
    ∷ (b.audio_in_0 + samples, device)
    ∷ (b.rx_pkt_1, audio)
    ∷ (b.audio_in_1, samples)
    ∷ (b.audio_in_1 + samples, device)
    ∷ (b.tx_pkt_0, audio)
    ∷ (b.audio_out_0, samples)
    ∷ (b.audio_out_0 + samples, device)
    ∷ (b.tx_pkt_1, audio)
    ∷ (b.audio_out_1, samples)
    ∷ []

-- How many words the layout takes.
abbrev pub driver_words : PacketSizes → PlatformType → ℕ → ℕ
driver_words s native samples = 4 * samples + 2
driver_words s _ samples =
    4 * (samples + (s.device_ctrl_pkt_size_words + s.audio_ctrl_pkt_size_words))

-- On every platform the driver's buffers, control packets and gate words lie one behind the other
-- in the documented order with no overlap, within the first `driver_words` words.
pub init_driver_buffers-InOrder :
    (s : PacketSizes) (t : PlatformType) (samples : ℕ)
    → InOrder 0
        (driver_regions s t samples (init_driver_buffers s t samples))
        (driver_words s t samples)
unfolding init_driver_buffers init_native_buffers init_packet_buffers
init_driver_buffers-InOrder s native samples = omega arith
init_driver_buffers-InOrder s _ samples = omega arith

abbrev pub num_alsa_usb_channels : ℕ
num_alsa_usb_channels = 2

-- `_init_user_buffers`: the samples of each of the two buffers, and where the virtual channels
-- stand in a buffer that serves `num_chans` channels of the driver.
unfoldable pub num_user_audio_samples : UsbAudioType → (frames samples : ℕ) → ℕ
num_user_audio_samples native_alsa frames samples = samples + num_alsa_usb_channels * frames
num_user_audio_samples _ frames samples = samples

unfoldable pub user_audio_usb : (num_chans frames : ℕ) → ℕ
user_audio_usb num_chans frames = num_chans * frames

pub row_lt : (r c w h : ℕ) → r < h → c < w → r * w + c < h * w
row_lt r c w h p q = grind arith

num_chans-le :
    (frames num_input num_output : ℕ)
    → (num_input * frames ≤ driver_buffer_size_in_samples frames num_input num_output)
      × (num_output * frames ≤ driver_buffer_size_in_samples frames num_input num_output)
unfolding driver_buffer_size_in_samples
num_chans-le frames num_input num_output = elim (Bool-cases (ltb num_output num_input)) [
  | inl e ↦ rw e (
      ground (
        arith,
        ltb→lt num_output num_input e,
        mul-le-mul_right {m = num_output} {n = num_input} frames,
      ))
  | inr e ↦ rw e (ground (arith, mul-le-mul_right {m = num_input} {n = num_output} frames))
]

-- Every sample of a channel of the driver, in or out, lies within its user buffer; with native USB
-- audio the samples of the virtual channels lie within it too, behind those of all channels of the
-- driver in that direction.
user_buffers_fit :
    (usb : UsbAudioType) (frames num_input num_output chan usb_chan n : ℕ)
    → (chan < num_input) ⊎ (chan < num_output)
    → usb_chan < num_alsa_usb_channels
    → n < frames
    → let samples = driver_buffer_size_in_samples frames num_input num_output in
      (chan * frames + n < num_user_audio_samples usb frames samples)
      × (user_audio_usb num_input frames + (usb_chan * frames + n)
          < num_user_audio_samples native_alsa frames samples)
      × (user_audio_usb num_output frames + (usb_chan * frames + n)
          < num_user_audio_samples native_alsa frames samples)
      × ((num_input ≤ chan) ⊎ (chan * frames + n < user_audio_usb num_input frames))
      × ((num_output ≤ chan) ⊎ (chan * frames + n < user_audio_usb num_output frames))
unfolding num_user_audio_samples user_audio_usb
user_buffers_fit usb frames num_input num_output chan usb_chan n c u h =
    let bounds = num_chans-le frames num_input num_output in
    let usb_row = row_lt usb_chan n frames num_alsa_usb_channels u h in
    (
      ground (arith, bounds, row_lt chan n frames num_input, row_lt chan n frames num_output),
      omega (arith, bounds, usb_row),
      omega (arith, bounds, usb_row),
      elim (dec_lt chan num_input) [
        | yes below ↦ inr (row_lt chan n frames num_input below h)
        | no above ↦ inl (omega arith)
      ],
      elim (dec_lt chan num_output) [
        | yes below ↦ inr (row_lt chan n frames num_output below h)
        | no above ↦ inl (omega arith)
      ],
    )
