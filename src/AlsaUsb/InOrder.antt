-- ===== src/AlsaUsb/InOrder.antt =====
-- src/raspa_alsa_usb.h: what one thread takes out of a stream is what the other put in, in order.
use raspa.Prelude.{ℕ, ◌*◌, ◌<◌, ◌≡◌, refl, inl, inr, List, ◌++◌, length, arith, true, Option-cases}
use raspa.Prelude.Memory.{words_at, write_words, words_at-write_words_same}
use raspa.GpioCom.Fifo.{Fifo}
use raspa.AlsaUsb.Streams.{
  UsbStream, waiting, store_words, push_buffer, increment_idx, pop_buffer, usb_input_turn,
  get_usb_input_samples, put_output, write_output, IsFresh, InputStep, InputSteps, worker,
  worker_ends, use_samples, OutputStep, OutputSteps, put, write,
}
use raspa.AlsaUsb.Queued.{
  IsInOrder, fresh-IsInOrder, store-IsInOrder, push-IsInOrder, pop-IsInOrder, use-IsInOrder,
  offer-IsInOrder,
}
use raspa.AlsaUsb.Window.{Holds-length}

-- The queue has room for RASPA_TO_USB_IO_BUFFER_RATIO pointers.
module _ (fifo : Fifo ℕ)
    (room : (a : ℕ) (q : fifo.Queue) → length (fifo.contents q) < 512 → (fifo.push a q).0 ≡ true)
    (frames channels : ℕ) where
  -- A whole block that is stored and pushed
  give-IsInOrder :
      (words : List ℕ) (s : UsbStream fifo frames channels)
      → length words ≡ frames * channels
      → length (waiting fifo frames channels s) < 512
      → IsInOrder fifo room frames channels s
      → IsInOrder fifo room frames channels (
          increment_idx fifo frames channels
            (push_buffer fifo frames channels words (store_words fifo frames channels words s)))
  unfolding store_words
  give-IsInOrder words s whole free h =
      let ptr = s.buf_idx * frames * channels in
      let stored : words_at (write_words ptr words s.buff) ptr (frames * channels) ≡ words =
        rw (← whole) (words_at-write_words_same ptr words s.buff) in
      push-IsInOrder fifo room frames channels words (store_words fifo frames channels words s)
        stored free (store-IsInOrder fifo room frames channels words s (omega arith) free h)

  get-pop :
      (s : UsbStream fifo frames channels)
      → (get_usb_input_samples fifo frames channels s).1 ≡ pop_buffer fifo frames channels s
  unfolding get_usb_input_samples pop_buffer
  get-pop s = elim (Option-cases (fifo.pop s.usb_fifo)) [
    | inl empty ↦ rw (empty, get_usb_input_samples, pop_buffer) refl
    | inr ((ptr, q), taken) ↦ rw (taken, get_usb_input_samples, pop_buffer) refl
  ]

  InputStep-IsInOrder :
      {s t : UsbStream fifo frames channels}
      → InputStep fifo frames channels s t
      → IsInOrder fifo room frames channels s
      → IsInOrder fifo room frames channels t
  unfolding usb_input_turn store_words
  InputStep-IsInOrder {s} (worker words whole free) h =
      let ptr = s.buf_idx * frames * channels in
      let stored : words_at (write_words ptr words s.buff) ptr (frames * channels) ≡ words =
        rw (← whole) (words_at-write_words_same ptr words s.buff) in
      rw stored (give-IsInOrder words s whole free h)
  InputStep-IsInOrder {s} (worker_ends res words failed l free) h =
      rw failed (store-IsInOrder fifo room frames channels words s l free h)
  InputStep-IsInOrder {s} (InputStep.pop idle) h =
      rw get-pop (pop-IsInOrder fifo room frames channels s idle h)
  InputStep-IsInOrder {s} use_samples h = use-IsInOrder fifo room frames channels s h

  OutputStep-IsInOrder :
      {s t : UsbStream fifo frames channels}
      → OutputStep fifo frames channels s t
      → IsInOrder fifo room frames channels s
      → IsInOrder fifo room frames channels t
  unfolding put_output write_output
  OutputStep-IsInOrder {s} (put words whole free) h = give-IsInOrder words s whole free h
  OutputStep-IsInOrder {s} (OutputStep.pop idle) h =
      pop-IsInOrder fifo room frames channels s idle h
  OutputStep-IsInOrder {s} (write answer) h = offer-IsInOrder fifo room frames channels s h

  InputSteps-IsInOrder :
      {s t : UsbStream fifo frames channels}
      → InputSteps fifo frames channels s t
      → IsInOrder fifo room frames channels s
      → IsInOrder fifo room frames channels t
  InputSteps-IsInOrder InputSteps.done h = h
  InputSteps-IsInOrder (InputSteps.then_step before step) h =
      InputStep-IsInOrder step (InputSteps-IsInOrder before h)

  OutputSteps-IsInOrder :
      {s t : UsbStream fifo frames channels}
      → OutputSteps fifo frames channels s t
      → IsInOrder fifo room frames channels s
      → IsInOrder fifo room frames channels t
  OutputSteps-IsInOrder OutputSteps.done h = h
  OutputSteps-IsInOrder (OutputSteps.then_step before step) h =
      OutputStep-IsInOrder step (OutputSteps-IsInOrder before h)

  -- The blocks that were given are those taken, in the same order and word for word, and then one
  -- for each pointer that still waits.
  abbrev pub InOrder : UsbStream fifo frames channels → Type 0
  InOrder t =
      (pending : List (List ℕ)) × (t.given ≡ t.taken ++ pending)
      × (length pending ≡ length (waiting fifo frames channels t))

  IsInOrder-InOrder :
      (t : UsbStream fifo frames channels) → IsInOrder fifo room frames channels t → InOrder t
  IsInOrder-InOrder t h = (
    h.pending,
    h.all,
    Holds-length frames channels h.start t.buff (waiting fifo frames channels t) h.pending h.holds,
  )

  -- From a fresh input stream on, whatever order the steps of the input's thread and of the real
  -- time thread come in, with no xrun and with a free buffer of the ring whenever the device is read:
  -- the blocks that the real time thread used are those that were read and queued, in order and word
  -- for word as they were read, and the others are still queued or held, one for each pointer.
  pub usb_input-InOrder :
      (s t : UsbStream fifo frames channels)
      → IsFresh fifo frames channels s
      → InputSteps fifo frames channels s t
      → InOrder t
  usb_input-InOrder s t fresh steps =
      IsInOrder-InOrder t
        (InputSteps-IsInOrder steps (fresh-IsInOrder fifo room frames channels s fresh))

  -- From a fresh output stream on, whatever order the steps of the real time thread and of the
  -- output's thread come in, and with a free buffer of the ring whenever a block is put: the blocks
  -- offered to the device are those that were put and queued, in order and word for word as they
  -- were put, and the others are still queued or held, one for each pointer.
  pub usb_output-InOrder :
      (s t : UsbStream fifo frames channels)
      → IsFresh fifo frames channels s
      → OutputSteps fifo frames channels s t
      → InOrder t
  usb_output-InOrder s t fresh steps =
      IsInOrder-InOrder t
        (OutputSteps-IsInOrder steps (fresh-IsInOrder fifo room frames channels s fresh))
