-- ===== src/GpioCom/Read.antt =====
-- src/raspa_gpio_com.h: the loop that reads from the socket, as steps that interleave with those of
-- the real time thread.
use raspa.Prelude.{
  ◌≡◌, ap, List, [], ◌∷◌, ◌++◌, Option, none, some, Bool, if◌then◌else◌, Bool-cases, Option-cases,
  inl, inr,
}
use mathlib.Core.List.{append_assoc, append-nil}
use raspa.GpioCom.Fifo.{Fifo}

module _ (A : Type 0) (fifo : Fifo A) where
  -- `_read_from_socket_loop` beside `_to_rt_gpio_data_fifo`. `received` is what `recv` has given in
  -- full size, and `taken` what `get_gpio_data_from_nrt` has given to the real time thread.
  pub record Reader : Type 0 where
    pub to_rt : fifo.Queue
    pub ready_to_recv : Bool
    pub gpio_data : A
    pub received : List A
    pub taken : List A

  unfoldable pub get_gpio_data_from_nrt : Reader → Option A × Reader
  get_gpio_data_from_nrt r = elim (fifo.pop r.to_rt) [
    | none ↦ (none, r)
    | some (a, q) ↦ (some a, record r { to_rt = q; taken = r.taken ++ a ∷ [] })
  ]

  unfoldable pub push_to_rt : Reader → Reader
  push_to_rt r =
      let (stored, q) = fifo.push r.gpio_data r.to_rt in
      record r { to_rt = q; ready_to_recv = stored }

  -- One turn of the loop, with the datagram that `recv` gives if it gives one of full size.
  unfoldable pub read_turn : Option A → Reader → Reader
  read_turn datagram r =
      if r.ready_to_recv
      then elim datagram [
        | none ↦ r
        | some a ↦ push_to_rt (record r { gpio_data = a; received = r.received ++ a ∷ [] })
      ]
      else push_to_rt r

  -- The steps of the two threads, in any order.
  pub data ReaderStep : Reader → Reader → Type 0 where
    pop : (r : Reader) → ReaderStep r (get_gpio_data_from_nrt r).1
    turn : (datagram : Option A) (r : Reader) → ReaderStep r (read_turn datagram r)

  pub data ReaderSteps : Reader → Reader → Type 0 where
    done : (r : Reader) → ReaderSteps r r
    then_step : (s r t : Reader) → ReaderSteps s r → ReaderStep r t → ReaderSteps s t

  -- The element that did not fit into the queue yet
  abbrev pub unqueued : Reader → List A
  unqueued r = if r.ready_to_recv then [] else r.gpio_data ∷ []

  -- Every datagram that came in is taken, queued or held, once and in order.
  abbrev pub IsForwarded : Reader → Type 0
  IsForwarded r = r.received ≡ r.taken ++ (fifo.contents r.to_rt ++ unqueued r)

  pop-IsForwarded : (r : Reader) → IsForwarded r → IsForwarded (get_gpio_data_from_nrt r).1
  unfolding get_gpio_data_from_nrt
  pop-IsForwarded r h = elim (Option-cases (fifo.pop r.to_rt)) [
    | inl empty ↦ rw (empty, get_gpio_data_from_nrt) h
    | inr ((a, q), first) ↦
        let shorter = fifo.pop_takes a r.to_rt q first in
        rw (first, get_gpio_data_from_nrt, h, shorter) (simp append_assoc)
  ]

  push_to_rt-IsForwarded :
      (r : Reader)
      → r.received ≡ r.taken ++ (fifo.contents r.to_rt ++ r.gpio_data ∷ [])
      → IsForwarded (push_to_rt r)
  unfolding push_to_rt
  push_to_rt-IsForwarded r h =
      let answer = fifo.push r.gpio_data r.to_rt in
      elim (Bool-cases answer.0) [
        | inl stored ↦
            let longer =
              fifo.push_stores r.gpio_data r.to_rt answer.1
                (ap (λ (b : Bool). (b, answer.1)) stored) in
            rw (stored, longer, h) (simp append_assoc)
        | inr full ↦
            let same =
              fifo.push_full r.gpio_data r.to_rt answer.1 (ap (λ (b : Bool). (b, answer.1)) full) in
            rw (full, same) h
      ]

  turn-IsForwarded :
      (datagram : Option A) (r : Reader) → IsForwarded r → IsForwarded (read_turn datagram r)
  unfolding read_turn push_to_rt
  turn-IsForwarded datagram r h = elim (Bool-cases r.ready_to_recv) [
    | inl ready ↦ elim (Option-cases datagram) [
      | inl nothing ↦ rw (ready, nothing) h
      | inr (a, came) ↦
          rw (ready, came)
            (push_to_rt-IsForwarded (record r { gpio_data = a; received = r.received ++ a ∷ [] })
              (let all : r.received ≡ r.taken ++ (fifo.contents r.to_rt ++ []) = rw ready at h in
                rw all (simp (append_assoc, append-nil))))
    ]
    | inr waiting ↦ rw waiting (push_to_rt-IsForwarded r (rw waiting at h))
  ]

  -- Whatever the order of the steps of the two threads, the datagrams of the wrong size and the
  -- queue's overflows: if every datagram so far is taken, queued or held, once and in order, it is
  -- so after them.
  pub steps-IsForwarded : (s r : Reader) → ReaderSteps s r → IsForwarded s → IsForwarded r
  steps-IsForwarded s r (done _) h = h
  steps-IsForwarded s r (then_step _ t _ before (pop _)) h =
      pop-IsForwarded t (steps-IsForwarded s t before h)
  steps-IsForwarded s r (then_step _ t _ before (turn datagram _)) h =
      turn-IsForwarded datagram t (steps-IsForwarded s t before h)
