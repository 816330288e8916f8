-- ===== src/AlsaUsb.antt =====
-- src/raspa_alsa_usb.h: class RaspaAlsaUsb, its ring of buffers and the transfer from the device.
-- What libasound answers is an argument.
pub mod Reading
pub mod Setup
pub mod Ready
pub mod Streams
pub mod Window
pub mod Queued
pub mod InOrder
pub mod Tests
use raspa.Prelude.{
  ℕ, zero, suc, ◌+◌, ◌-◌, ◌*◌, ◌≤◌, ◌<◌, ◌≡◌, refl, ◌⊎◌, inl, inr, List, [], ◌∷◌, Option, none,
  some, Bool, true, false, ◌||◌, ◌&&◌, ◌==◌, ltb, if◌then◌else◌, arith, Bool-cases,
}
use raspa.Prelude.Int.{ℤ, pos, negsuc, ltb_ℤ, ◌+ℤ◌, sub_ℕ}
use native.Mathlib.Nat.{mul-le-mul_right}
use raspa.DriverConfig.{eq_ℤ}

abbrev pub raspa_to_alsa_period_ratio : ℕ
raspa_to_alsa_period_ratio = 8

abbrev pub alsa_period_to_buffer_ratio : ℕ
alsa_period_to_buffer_ratio = 4

abbrev pub additional_io_buffer_ratio : ℕ
additional_io_buffer_ratio = 16

abbrev pub raspa_to_usb_io_buffer_ratio : ℕ
raspa_to_usb_io_buffer_ratio =
    raspa_to_alsa_period_ratio * alsa_period_to_buffer_ratio * additional_io_buffer_ratio

-- The two buffers are memory of the words that `init` allocates for each; the handles are whether
-- they are open, the workers whether their threads were made. Streams has the two queues.
pub record RaspaAlsaUsb : Type 0 where
  pub engine_buffer_size_frames : ℕ
  pub num_channels : ℕ
  pub sample_rate : ℕ
  pub is_usb_running : Bool
  pub buffer_words : ℕ
  pub raspa_out_buf_idx : ℕ
  pub raspa_in_buf_idx : ℕ
  pub alsa_buffer_size_frames : ℕ
  pub alsa_period_size_frames : ℕ
  pub pcm_playback_open : Bool
  pub pcm_capture_open : Bool
  pub usb_in_worker : Bool
  pub usb_out_worker : Bool

-- The members' initial values
abbrev pub raspa_alsa_usb : RaspaAlsaUsb
raspa_alsa_usb = record {
  engine_buffer_size_frames = 0;
  num_channels = 0;
  sample_rate = 0;
  is_usb_running = false;
  buffer_words = 0;
  raspa_out_buf_idx = 0;
  raspa_in_buf_idx = 0;
  alsa_buffer_size_frames = 0;
  alsa_period_size_frames = 0;
  pcm_playback_open = false;
  pcm_capture_open = false;
  usb_in_worker = false;
  usb_out_worker = false;
}

-- The words that `init` allocates for each of the two buffers
unfoldable pub usb_audio_words : RaspaAlsaUsb → ℕ
usb_audio_words a =
    let period = a.engine_buffer_size_frames * raspa_to_alsa_period_ratio in
    let buffer = period * alsa_period_to_buffer_ratio in
    buffer * a.num_channels * additional_io_buffer_ratio

-- Pointers are offsets in words.
unfoldable pub get_usb_out_buffer_for_raspa : RaspaAlsaUsb → ℕ
get_usb_out_buffer_for_raspa a = a.raspa_out_buf_idx * a.engine_buffer_size_frames * a.num_channels

unfoldable pub get_usb_in_buffer_for_raspa : RaspaAlsaUsb → ℕ
get_usb_in_buffer_for_raspa a = a.raspa_in_buf_idx * a.engine_buffer_size_frames * a.num_channels

abbrev pub next_idx : ℕ → ℕ
next_idx idx = if idx + 1 == raspa_to_usb_io_buffer_ratio then 0 else idx + 1

unfoldable pub increment_buf_indices : RaspaAlsaUsb → RaspaAlsaUsb
increment_buf_indices a = record a { raspa_out_buf_idx = next_idx a.raspa_out_buf_idx }

-- The end of a turn of `_usb_input_worker`
unfoldable pub increment_in_idx : RaspaAlsaUsb → RaspaAlsaUsb
increment_in_idx a = record a { raspa_in_buf_idx = next_idx a.raspa_in_buf_idx }

-- EAGAIN, EPIPE and ESTRPIPE of Linux, negative
abbrev pub eagain : ℤ
eagain = negsuc 10

abbrev pub epipe : ℤ
epipe = negsuc 31

abbrev pub estrpipe : ℤ
estrpipe = negsuc 85

-- Whatever the calls to prepare and to resume the stream return.
unfoldable pub xrun_recovery : ℤ → ℤ
xrun_recovery err = if eq_ℤ err epipe || eq_ℤ err estrpipe then pos 0 else err

-- `frames * channels` as a difference of the pointer
abbrev pub times : ℤ → ℕ → ℤ
times (pos n) channels = pos (n * channels)
times (negsuc n) channels = sub_ℕ 0 (suc n * channels)

abbrev pub minus : ℤ → ℤ → ℤ
minus a (pos n) = a +ℤ sub_ℕ 0 n
minus a (negsuc n) = a +ℤ pos (suc n)

-- Where `_read_from_pcm` has come to: what it returned, or `none` while it waits for an answer, its
-- pointer and `frames_cntr`
pub record Transfer : Type 0 where
  pub returned : Option ℤ
  pub frame_ptr : ℤ
  pub frames_cntr : ℤ

unfoldable pub read_from_pcm : (channels : ℕ) → List ℤ → (frame_ptr frames_cntr : ℤ) → Transfer
read_from_pcm channels [] ptr left = record {
  returned = if ltb_ℤ (pos 0) left then none else some (pos 0);
  frame_ptr = ptr;
  frames_cntr = left;
}
read_from_pcm channels (frames_read ∷ answers) ptr left =
    let again = read_from_pcm channels answers ptr left in
    let further =
      read_from_pcm channels answers (ptr +ℤ times frames_read channels) (minus left frames_read) in
    if ltb_ℤ (pos 0) left
    then (if eq_ℤ frames_read eagain
        then again
        else if ltb_ℤ frames_read (pos 0) && ltb_ℤ (xrun_recovery frames_read) (pos 0)
        then record {
          returned = some (xrun_recovery frames_read);
          frame_ptr = ptr;
          frames_cntr = left;
        }
        else further)
    else record { returned = some (pos 0); frame_ptr = ptr; frames_cntr = left }

-- Both indices name one of the buffers of the ring.
abbrev pub InRing : RaspaAlsaUsb → Type 0
InRing a =
    (a.raspa_out_buf_idx < raspa_to_usb_io_buffer_ratio)
    × (a.raspa_in_buf_idx < raspa_to_usb_io_buffer_ratio)

within_words :
    (a : RaspaAlsaUsb) (idx : ℕ)
    → idx < raspa_to_usb_io_buffer_ratio
    → idx * a.engine_buffer_size_frames * a.num_channels
        + a.engine_buffer_size_frames * a.num_channels
      ≤ usb_audio_words a
unfolding usb_audio_words
within_words a idx h =
    let whole =
      mul-le-mul_right {m = suc idx} {n = 512} (a.engine_buffer_size_frames * a.num_channels) in
    omega (arith, whole h)

-- While both indices lie in the ring, the two buffers that they name lie within the memory that
-- was allocated, and both indices lie in the ring after each increment.
pub increments-InRing :
    (a : RaspaAlsaUsb)
    → InRing a
    → (get_usb_out_buffer_for_raspa a + a.engine_buffer_size_frames * a.num_channels
        ≤ usb_audio_words a)
      × (get_usb_in_buffer_for_raspa a + a.engine_buffer_size_frames * a.num_channels
          ≤ usb_audio_words a)
      × InRing (increment_buf_indices a)
      × InRing (increment_in_idx a)
unfolding get_usb_out_buffer_for_raspa get_usb_in_buffer_for_raspa increment_buf_indices
    increment_in_idx
increments-InRing a (out, in') = (
  within_words a a.raspa_out_buf_idx out,
  within_words a a.raspa_in_buf_idx in',
  (ground arith, in'),
  (out, ground arith),
)
