-- ===== src/AlsaUsb/Streams.antt =====
-- src/raspa_alsa_usb.h: the two threads and their queues, with the calls of the real time thread
-- (src/raspa_pimpl.h), as steps. A pointer is an offset in words into the buffer of its direction.
use raspa.Prelude.{
  ◌≤◌, ℕ, ◌*◌, ◌≡◌, ◌<◌, ◌++◌, List, [], ◌∷◌, Option, none, some, Bool, true, false, length,
  replicate, if◌then◌else◌,
}
use raspa.Prelude.Int.{ℤ, pos, ltb_ℤ}
use raspa.Prelude.Memory.{words_at, write_words}
use raspa.DriverConfig.{eq_ℤ}
use raspa.GpioCom.Fifo.{Fifo}
use raspa.AlsaUsb.{next_idx, eagain, xrun_recovery}

-- `_write_to_pcm`, with what the call to the device returns
unfoldable pub write_to_pcm : (frames_written : ℤ) → ℤ
write_to_pcm frames_written =
    let err = xrun_recovery frames_written in
    if eq_ℤ frames_written eagain
    then pos 0
    else if ltb_ℤ frames_written (pos 0)
    then (if ltb_ℤ err (pos 0) then err else pos 0)
    else pos 0

module _ (fifo : Fifo ℕ) (frames channels : ℕ) where
  -- One direction: its buffer, the index into it and the queue of pointers. `frame_ptr` is the
  -- pointer that the taker holds between its pop and the end of its work. `given` has the blocks
  -- whose pointers were pushed, and `taken` those that were used, each as it was then.
  pub record UsbStream : Type 0 where
    pub buff : ℕ → ℕ
    pub buf_idx : ℕ
    pub usb_fifo : fifo.Queue
    pub frame_ptr : Option ℕ
    pub given : List (List ℕ)
    pub taken : List (List ℕ)

  abbrev pub buffer_at : ℕ → ℕ
  buffer_at idx = idx * frames * channels

  abbrev pub block_words : ℕ
  block_words = frames * channels

  unfoldable pub store_words : List ℕ → UsbStream → UsbStream
  store_words words s = record s { buff = write_words (buffer_at s.buf_idx) words s.buff }

  -- `push` of the pointer to the words that were just stored
  unfoldable pub push_buffer : List ℕ → UsbStream → UsbStream
  push_buffer words s =
      let ptr = buffer_at s.buf_idx in
      let (stored, q) = fifo.push ptr s.usb_fifo in
      record s { usb_fifo = q; given = if stored then s.given ++ words ∷ [] else s.given }

  unfoldable pub increment_idx : UsbStream → UsbStream
  increment_idx s = record s { buf_idx = next_idx s.buf_idx }

  unfoldable pub pop_buffer : UsbStream → UsbStream
  pop_buffer s = elim (fifo.pop s.usb_fifo) [
    | none ↦ s
    | some (ptr, q) ↦ record s { usb_fifo = q; frame_ptr = some ptr }
  ]

  -- A turn of `_usb_input_worker`, with the result of `_read_from_pcm` and the buffer as it leaves
  -- that: after an xrun it can store words before its block. The block is queued as it is then. The
  -- thread ends where the Bool is false.
  unfoldable pub usb_input_turn : (res : ℤ) → (buff : ℕ → ℕ) → UsbStream → Bool × UsbStream
  usb_input_turn res buff s =
      let read = record s { buff = buff } in
      let words = words_at buff (buffer_at s.buf_idx) block_words in
      if eq_ℤ res (pos 0) then (true, increment_idx (push_buffer words read)) else (false, read)

  -- `get_usb_input_samples`: 1 if there are none
  unfoldable pub get_usb_input_samples : UsbStream → ℕ × UsbStream
  get_usb_input_samples s = elim (fifo.pop s.usb_fifo) [
    | none ↦ (1, s)
    | some (ptr, q) ↦ (0, record s { usb_fifo = q; frame_ptr = some ptr })
  ]

  -- The converters read the block, and `_clear_alsa_usb_buffer` clears it.
  unfoldable pub use_input : UsbStream → UsbStream
  use_input s = elim s.frame_ptr [
    | none ↦ s
    | some ptr ↦ record s {
      taken = s.taken ++ words_at s.buff ptr block_words ∷ [];
      buff = write_words ptr (replicate block_words 0) s.buff;
      frame_ptr = none;
    }
  ]

  -- The converters write the block that `get_usb_out_buffer_for_raspa` names, and
  -- `put_usb_output_samples` and `increment_buf_indices` follow.
  unfoldable pub put_output : List ℕ → UsbStream → UsbStream
  put_output words s = increment_idx (push_buffer words (store_words words s))

  -- The second half of a turn of `_usb_output_worker`: the block goes to the device. The thread
  -- ends where the Bool is false.
  unfoldable pub offer_block : UsbStream → UsbStream
  offer_block s = elim s.frame_ptr [
    | none ↦ s
    | some ptr ↦ record s {
      taken = s.taken ++ words_at s.buff ptr block_words ∷ [];
      frame_ptr = none;
    }
  ]

  unfoldable pub write_output : (frames_written : ℤ) → UsbStream → Bool × UsbStream
  write_output frames_written s = (eq_ℤ (write_to_pcm frames_written) (pos 0), offer_block s)

  -- The pointers that are queued, behind the one that is held
  abbrev pub held : Option ℕ → List ℕ
  held none = []
  held (some ptr) = ptr ∷ []

  abbrev pub waiting : UsbStream → List ℕ
  waiting s = held s.frame_ptr ++ fifo.contents s.usb_fifo

  -- At the start of a stream
  pub record IsFresh (s : UsbStream) : Type 0 where
    pub buf_idx : s.buf_idx ≡ 0
    pub usb_fifo : fifo.contents s.usb_fifo ≡ []
    pub frame_ptr : s.frame_ptr ≡ none
    pub given : s.given ≡ []
    pub taken : s.taken ≡ []

  -- The steps of the input's two threads in any order, where no xrun comes: what is read stands in
  -- its block, and the rest of the buffer is as it was. A turn that reads happens only while one
  -- buffer of the ring is free: the code does not check that.
  pub data InputStep (s : UsbStream) : UsbStream → Type 0 where
    worker :
        (words : List ℕ)
        → length words ≡ block_words
        → length (waiting s) < 512
        → InputStep s (usb_input_turn (pos 0) (write_words (buffer_at s.buf_idx) words s.buff) s).1
    worker_ends :
        (res : ℤ) (words : List ℕ)
        → eq_ℤ res (pos 0) ≡ false
        → length words ≤ block_words
        → length (waiting s) < 512
        → InputStep s (usb_input_turn res (write_words (buffer_at s.buf_idx) words s.buff) s).1
    pop : s.frame_ptr ≡ none → InputStep s (get_usb_input_samples s).1
    use_samples : InputStep s (use_input s)

  pub data InputSteps (s : UsbStream) : UsbStream → Type 0 where
    done : InputSteps s s
    then_step : {t u : UsbStream} → InputSteps s t → InputStep t u → InputSteps s u

  -- Those of the output's
  pub data OutputStep (s : UsbStream) : UsbStream → Type 0 where
    put :
        (words : List ℕ)
        → length words ≡ block_words
        → length (waiting s) < 512
        → OutputStep s (put_output words s)
    pop : s.frame_ptr ≡ none → OutputStep s (pop_buffer s)
    write : (frames_written : ℤ) → OutputStep s (write_output frames_written s).1

  pub data OutputSteps (s : UsbStream) : UsbStream → Type 0 where
    done : OutputSteps s s
    then_step : {t u : UsbStream} → OutputSteps s t → OutputStep t u → OutputSteps s u
