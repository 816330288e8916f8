-- ===== src/AlsaUsb/Tests.antt =====
-- The theorems about the USB audio at concrete inputs.
use raspa.Prelude.{ℕ, ◌+◌, ◌*◌, ◌≡◌, refl, [], ◌∷◌, none, some, map, arith, true}
use raspa.Prelude.Int.{pos, sub_ℕ}
use raspa.Prelude.Memory.{words_at, write_words}
use raspa.GpioCom.Bounded.{usb_bounded, usb_bounded-room}
use raspa.AlsaUsb.{RaspaAlsaUsb, raspa_alsa_usb, read_from_pcm, epipe, usb_audio_words}
use raspa.AlsaUsb.Reading.{frames_or_again, IsRead, read_from_pcm-IsRead, underrun_moves_back}
use raspa.AlsaUsb.Setup.{
  Stream, Alsa, init, init_streams, init_hw_params, init_sw_params, set_sizes, open_playback_handle,
  open_capture_handle, set_hw_params, negotiate_sizes, set_rate, set_buffer_size, set_period_size,
  set_sw_params,
}
use raspa.AlsaUsb.Ready.{IsReady, init-IsReady}
use raspa.AlsaUsb.Streams.{
  UsbStream, IsFresh, InputSteps, OutputSteps, InputStep, OutputStep, usb_input_turn, store_words,
  push_buffer, increment_idx, get_usb_input_samples, use_input, put_output, pop_buffer,
  write_output,
}
use raspa.AlsaUsb.InOrder.{InOrder, usb_input-InOrder, usb_output-InOrder}

-- 40 frames, none yet, and then the other 24
read_from_pcm-IsRead_example :
    IsRead 2 128 64 64
      (read_from_pcm 2 (map frames_or_again (some 40 ∷ none ∷ some 24 ∷ [])) (pos 128) (pos 64))
read_from_pcm-IsRead_example =
    read_from_pcm-IsRead 2 128 64 (some 40 ∷ none ∷ some 24 ∷ [])
      (omega arith, (omega arith, omega arith))

underrun_moves_back_example :
    let t = read_from_pcm 2 (epipe ∷ []) (pos 0) (pos 64) in
    (t.frame_ptr ≡ sub_ℕ 0 (32 * 2)) × (t.frames_cntr ≡ pos (64 + 32)) × (t.returned ≡ none)
underrun_moves_back_example = underrun_moves_back 2 0 64 (omega arith)

-- A device that has a period of 500 frames where 512 are asked for
abbrev pub stream : Stream
stream = record {
  hw_params_any = pos 0;
  set_rate_resample = pos 0;
  set_access = pos 0;
  set_format = pos 0;
  set_channels = λ (n : ℕ). pos 0;
  set_rate_near = λ (rate : ℕ). (pos 0, rate);
  set_buffer_size_near = λ (size : ℕ). (pos 0, 2000);
  get_buffer_size = (pos 0, 2000);
  set_period_size_near = λ (size : ℕ). (pos 0, 500);
  get_period_size = (pos 0, 500);
  hw_params = pos 0;
  sw_params_current = pos 0;
  set_start_threshold = λ (threshold : ℕ). pos 0;
  set_avail_min = λ (min_avail : ℕ). pos 0;
  sw_params = pos 0;
}

abbrev pub alsa : Alsa
alsa = record { open_playback = pos 0; open_capture = pos 0; playback = stream; capture = stream }

abbrev ready : RaspaAlsaUsb
ready = record raspa_alsa_usb {
  engine_buffer_size_frames = 64;
  num_channels = 2;
  sample_rate = 48000;
  buffer_words = 65536;
  alsa_buffer_size_frames = 2000;
  alsa_period_size_frames = 500;
  pcm_playback_open = true;
  pcm_capture_open = true;
}

device_accepts : init alsa 48000 64 2 raspa_alsa_usb ≡ (pos 0, ready)
unfolding init init_streams init_hw_params init_sw_params set_sizes open_playback_handle
    open_capture_handle set_hw_params negotiate_sizes set_rate set_buffer_size set_period_size
    set_sw_params usb_audio_words
device_accepts = refl

init-IsReady_example : IsReady alsa 48000 64 2 ready
init-IsReady_example = init-IsReady alsa 48000 64 2 raspa_alsa_usb ready device_accepts

abbrev fresh : UsbStream usb_bounded 1 2
fresh = record {
  buff = λ (i : ℕ). 0;
  buf_idx = 0;
  usb_fifo = [];
  frame_ptr = none;
  given = [];
  taken = [];
}

fresh-IsFresh : IsFresh usb_bounded 1 2 fresh
fresh-IsFresh = record {
  buf_idx = refl;
  usb_fifo = refl;
  frame_ptr = refl;
  given = refl;
  taken = refl;
}

-- Two blocks are read, and the first is popped and used after the second came.
abbrev after_input : UsbStream usb_bounded 1 2
after_input =
    let read =
      (usb_input_turn usb_bounded 1 2 (pos 0) (write_words 0 (7 ∷ 8 ∷ []) fresh.buff) fresh).1 in
    let held = (get_usb_input_samples usb_bounded 1 2 read).1 in
    use_input usb_bounded 1 2
      (usb_input_turn usb_bounded 1 2 (pos 0) (write_words 2 (5 ∷ 6 ∷ []) held.buff) held).1

two_read : InputSteps usb_bounded 1 2 fresh after_input
unfolding usb_input_turn store_words push_buffer increment_idx get_usb_input_samples
two_read =
    InputSteps.then_step
      (InputSteps.then_step
        (InputSteps.then_step
          (InputSteps.then_step InputSteps.done (InputStep.worker (7 ∷ 8 ∷ []) refl (omega arith)))
          (InputStep.pop refl))
        (InputStep.worker (5 ∷ 6 ∷ []) refl (omega arith)))
      InputStep.use_samples

first_used : after_input.taken ≡ (7 ∷ 8 ∷ []) ∷ []
unfolding usb_input_turn store_words push_buffer increment_idx get_usb_input_samples use_input
    words_at write_words
first_used = refl

usb_input-InOrder_example : InOrder usb_bounded usb_bounded-room 1 2 after_input
usb_input-InOrder_example =
    usb_input-InOrder usb_bounded usb_bounded-room 1 2 fresh after_input fresh-IsFresh two_read

-- A block is put and offered to the device, which does not take it.
abbrev after_output : UsbStream usb_bounded 1 2
after_output =
    let given = put_output usb_bounded 1 2 (3 ∷ 4 ∷ []) fresh in
    (write_output usb_bounded 1 2 epipe (pop_buffer usb_bounded 1 2 given)).1

one_offered : OutputSteps usb_bounded 1 2 fresh after_output
unfolding put_output store_words push_buffer increment_idx
one_offered =
    OutputSteps.then_step
      (OutputSteps.then_step
        (OutputSteps.then_step OutputSteps.done (OutputStep.put (3 ∷ 4 ∷ []) refl (omega arith)))
        (OutputStep.pop refl))
      (OutputStep.write epipe)

usb_output-InOrder_example : InOrder usb_bounded usb_bounded-room 1 2 after_output
usb_output-InOrder_example =
    usb_output-InOrder usb_bounded usb_bounded-room 1 2 fresh after_output fresh-IsFresh one_offered
