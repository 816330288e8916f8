-- ===== src/AlsaUsb/Queued.antt =====
-- src/raspa_alsa_usb.h: the invariant of a stream, and that each operation on it keeps it.
use raspa.Prelude.{
  ℕ, ◌+◌, ◌*◌, ◌%◌, ◌≤◌, ◌<◌, ◌≡◌, refl, ap, sym, ◌∙◌, inl, inr, List, [], ◌∷◌, ◌++◌, length, arith,
  none, some, Bool, true, Option-cases, replicate, length-append, length-replicate,
}
use mathlib.Core.List.{append_assoc}
use raspa.Prelude.Memory.{words_at, write_words}
use raspa.GpioCom.Fifo.{Fifo}
use raspa.AlsaUsb.Streams.{
  UsbStream, waiting, held, store_words, push_buffer, increment_idx, pop_buffer, use_input,
  offer_block, IsFresh,
}
use raspa.AlsaUsb.Window.{Holds, Holds-write, Holds-append, Holds-uncons, next_idx-mod}

-- The queue has room for RASPA_TO_USB_IO_BUFFER_RATIO pointers.
module _ (fifo : Fifo ℕ)
    (room : (a : ℕ) (q : fifo.Queue) → length (fifo.contents q) < 512 → (fifo.push a q).0 ≡ true)
    (frames channels : ℕ) where
  -- Every block that was given has been taken, or lies where its pointer says: `pending` are these,
  -- from index `start` of the ring on.
  pub record IsInOrder (s : UsbStream fifo frames channels) : Type 0 where
    pub start : ℕ
    pub pending : List (List ℕ)
    pub start_in_ring : start < 512
    pub idx_in_ring : s.buf_idx < 512
    pub ends : s.buf_idx ≡ (start + length (waiting fifo frames channels s)) % 512
    pub at_most : length (waiting fifo frames channels s) ≤ 512
    pub holds : Holds frames channels s.buff start (waiting fifo frames channels s) pending
    pub all : s.given ≡ s.taken ++ pending

  pub fresh-IsInOrder :
      (s : UsbStream fifo frames channels) → IsFresh fifo frames channels s → IsInOrder s
  fresh-IsInOrder s f = record {
    start = 0;
    pending = [];
    start_in_ring = omega arith;
    idx_in_ring = rw (f.buf_idx) (omega arith);
    ends = rw (f.buf_idx, f.frame_ptr, f.usb_fifo) (omega arith);
    at_most = rw (f.frame_ptr, f.usb_fifo) (omega arith);
    holds = rw (f.frame_ptr, f.usb_fifo) tt;
    all = rw (f.given, f.taken) refl;
  }

  pub store-IsInOrder :
      (words : List ℕ) (s : UsbStream fifo frames channels)
      → length words ≤ frames * channels
      → length (waiting fifo frames channels s) < 512
      → IsInOrder s
      → IsInOrder (store_words fifo frames channels words s)
  unfolding store_words
  store-IsInOrder words s l free h = record {
    start = h.start;
    pending = h.pending;
    start_in_ring = h.start_in_ring;
    idx_in_ring = h.idx_in_ring;
    ends = h.ends;
    at_most = h.at_most;
    holds =
        Holds-write frames channels (length (waiting fifo frames channels s)) s.buf_idx h.start
          words s.buff (waiting fifo frames channels s) h.pending h.start_in_ring h.ends
          (omega arith) free l h.holds;
    all = h.all;
  }

  push-contents :
      (a : ℕ) (q : fifo.Queue)
      → length (fifo.contents q) < 512
      → fifo.contents (fifo.push a q).1 ≡ fifo.contents q ++ a ∷ []
  push-contents a q free =
      let answer = fifo.push a q in
      fifo.push_stores a q answer.1 (ap (λ (b : Bool). (b, answer.1)) (room a q free))

  pub push-IsInOrder :
      (words : List ℕ) (s : UsbStream fifo frames channels)
      → words_at s.buff (s.buf_idx * frames * channels) (frames * channels) ≡ words
      → length (waiting fifo frames channels s) < 512
      → IsInOrder s
      → IsInOrder (increment_idx fifo frames channels (push_buffer fifo frames channels words s))
  unfolding increment_idx push_buffer
  push-IsInOrder words s stored free h =
      let ptr = s.buf_idx * frames * channels in
      let queued = fifo.contents s.usb_fifo in
      let split = length-append {0} (held fifo frames channels s.frame_ptr) queued in
      let fits : length queued < 512 = omega (arith, split) in
      let longer : held fifo frames channels s.frame_ptr
            ++ fifo.contents (fifo.push ptr s.usb_fifo).1
          ≡ waiting fifo frames channels s ++ ptr ∷ [] =
        rw (push-contents ptr s.usb_fifo fits)
          (sym (append_assoc (held fifo frames channels s.frame_ptr) queued (ptr ∷ []))) in
      let one_more = length-append {0} (waiting fifo frames channels s) (ptr ∷ []) in
      record {
        start = h.start;
        pending = h.pending ++ words ∷ [];
        start_in_ring = h.start_in_ring;
        idx_in_ring = rw (next_idx-mod s.buf_idx h.idx_in_ring) (omega arith);
        ends = rw (next_idx-mod s.buf_idx h.idx_in_ring, longer) (omega (arith, one_more, h.ends));
        at_most = rw longer (omega (arith, one_more));
        holds =
            rw (longer, ← stored)
              (Holds-append frames channels h.start s.buf_idx s.buff
                (waiting fifo frames channels s) h.pending h.start_in_ring h.ends h.holds);
        all = rw (room ptr s.usb_fifo fits, h.all) (append_assoc s.taken h.pending _);
      }

  -- A pop by a thread that holds nothing
  pub pop-IsInOrder :
      (s : UsbStream fifo frames channels)
      → s.frame_ptr ≡ none
      → IsInOrder s
      → IsInOrder (pop_buffer fifo frames channels s)
  unfolding pop_buffer
  pop-IsInOrder s idle h = elim (Option-cases (fifo.pop s.usb_fifo)) [
    | inl empty ↦ rw (empty, pop_buffer) h
    | inr ((ptr, q), taken) ↦
        let same : waiting fifo frames channels s ≡ ptr ∷ fifo.contents q =
          rw idle (fifo.pop_takes ptr s.usb_fifo q taken) in
        rw (taken, pop_buffer)
          (record {
            start = h.start;
            pending = h.pending;
            start_in_ring = h.start_in_ring;
            idx_in_ring = h.idx_in_ring;
            ends = rw same at (h.ends);
            at_most = rw same at (h.at_most);
            holds = rw same at (h.holds);
            all = h.all;
          })
  ]

  -- The block that is used is the oldest one that is pending. What the use writes into the buffer
  -- leaves the others as they are.
  take-IsInOrder :
      (s : UsbStream fifo frames channels) (ptr : ℕ) (buff : ℕ → ℕ)
      → s.frame_ptr ≡ some ptr
      → ((start : ℕ) (blocks : List (List ℕ))
          → start < 512
          → ptr ≡ start * frames * channels
          → length (fifo.contents s.usb_fifo) < 512
          → Holds frames channels s.buff ((start + 1) % 512) (fifo.contents s.usb_fifo) blocks
          → Holds frames channels buff ((start + 1) % 512) (fifo.contents s.usb_fifo) blocks)
      → IsInOrder s
      → IsInOrder (record s {
        taken = s.taken ++ words_at s.buff ptr (frames * channels) ∷ [];
        buff = buff;
        frame_ptr = none;
      })
  take-IsInOrder s ptr buff holding kept h =
      let queued = fifo.contents s.usb_fifo in
      let same : waiting fifo frames channels s ≡ ptr ∷ queued = rw holding refl in
      let fits : length queued < 512 = omega (arith, rw same at (h.at_most)) in
      let (rest, first, here, others) =
        Holds-uncons frames channels h.start ptr s.buff queued h.pending (rw same at (h.holds)) in
      record {
        start = (h.start + 1) % 512;
        pending = rest;
        start_in_ring = omega arith;
        idx_in_ring = h.idx_in_ring;
        ends = omega (arith, rw same at (h.ends));
        at_most = omega (arith, fits);
        holds = kept h.start rest h.start_in_ring here fits others;
        all =
            h.all
            ∙ ap (λ (l : List (List ℕ)). s.taken ++ l) first
            ∙ sym (append_assoc s.taken _ rest);
      }

  abbrev cleared : List ℕ
  cleared = replicate (frames * channels) 0

  clear-Holds :
      (s : UsbStream fifo frames channels) (start : ℕ) (blocks : List (List ℕ))
      → start < 512
      → length (fifo.contents s.usb_fifo) < 512
      → Holds frames channels s.buff ((start + 1) % 512) (fifo.contents s.usb_fifo) blocks
      → Holds frames channels
          (write_words (start * frames * channels) cleared s.buff)
          ((start + 1) % 512)
          (fifo.contents s.usb_fifo)
          blocks
  clear-Holds s start blocks in_ring fits others =
      Holds-write frames channels 511 start ((start + 1) % 512) cleared s.buff
        (fifo.contents s.usb_fifo) blocks (omega arith) (omega arith) (omega arith) (omega arith)
        (omega (arith, length-replicate {0} {A = ℕ} (frames * channels) 0)) others

  pub use-IsInOrder :
      (s : UsbStream fifo frames channels)
      → IsInOrder s
      → IsInOrder (use_input fifo frames channels s)
  unfolding use_input
  use-IsInOrder s h = elim (Option-cases s.frame_ptr) [
    | inl nothing ↦ rw (nothing, use_input) h
    | inr (ptr, holding) ↦
        rw (holding, use_input)
          (take-IsInOrder s ptr (write_words ptr cleared s.buff) holding
            (λ start blocks in_ring here fits others.
              rw here (clear-Holds s start blocks in_ring fits others))
            h)
  ]

  pub offer-IsInOrder :
      (s : UsbStream fifo frames channels)
      → IsInOrder s
      → IsInOrder (offer_block fifo frames channels s)
  unfolding offer_block
  offer-IsInOrder s h = elim (Option-cases s.frame_ptr) [
    | inl nothing ↦ rw (nothing, offer_block) h
    | inr (ptr, holding) ↦
        rw (holding, offer_block)
          (take-IsInOrder s ptr s.buff holding (λ start blocks a b c others. others) h)
  ]
