-- ===== src/GpioCom/Write.antt =====
-- src/raspa_gpio_com.h: the loop that writes to the socket, as steps that interleave with those of
-- the real time thread.
use raspa.Prelude.{
  ◌≡◌, ap, List, [], ◌∷◌, ◌++◌, none, some, Bool, true, false, if◌then◌else◌, Bool-cases,
  Option-cases, inl, inr,
}
use mathlib.Core.List.{append_assoc}
use raspa.GpioCom.Fifo.{Fifo}

module _ (A : Type 0) (fifo : Fifo A) where
  -- `_write_to_socket_loop` beside `_from_rt_gpio_data_fifo`. `sent` is what `send` has accepted, and
  -- `accepted` what `send_gpio_data_to_nrt` has returned true for.
  pub record Writer : Type 0 where
    pub from_rt : fifo.Queue
    pub ready_to_send : Bool
    pub gpio_data : A
    pub sent : List A
    pub accepted : List A

  unfoldable pub send_gpio_data_to_nrt : A → Writer → Bool × Writer
  send_gpio_data_to_nrt a w =
      let (stored, q) = fifo.push a w.from_rt in
      (
        stored,
        record w { from_rt = q; accepted = if stored then w.accepted ++ a ∷ [] else w.accepted },
      )

  unfoldable pub send_gpio_data_to_socket : (sends : Bool) → Writer → Writer
  send_gpio_data_to_socket sends w = record w {
    ready_to_send = sends;
    sent = if sends then w.sent ++ w.gpio_data ∷ [] else w.sent;
  }

  -- One turn of the loop: it sends what it failed to send once it is connected again, or takes the
  -- next element of the queue and sends it. With no element there, it sleeps.
  unfoldable pub write_turn : (connects sends : Bool) → Writer → Writer
  write_turn connects sends w =
      if w.ready_to_send
      then elim (fifo.pop w.from_rt) [
        | none ↦ w
        | some (a, q) ↦ send_gpio_data_to_socket sends (record w { gpio_data = a; from_rt = q })
      ]
      else if connects
      then send_gpio_data_to_socket sends w
      else w

  -- The steps of the two threads, in any order.
  pub data WriterStep : Writer → Writer → Type 0 where
    push : (a : A) (w : Writer) → WriterStep w (send_gpio_data_to_nrt a w).1
    turn : (connects sends : Bool) (w : Writer) → WriterStep w (write_turn connects sends w)

  pub data WriterSteps : Writer → Writer → Type 0 where
    done : (w : Writer) → WriterSteps w w
    then_step : (v w u : Writer) → WriterSteps v w → WriterStep w u → WriterSteps v u

  -- The element that the loop holds on to after a send that failed
  abbrev pub unsent : Writer → List A
  unsent w = if w.ready_to_send then [] else w.gpio_data ∷ []

  -- Every element that the real time thread gave away is sent, held or queued, once and in order.
  abbrev pub IsDelivered : Writer → Type 0
  IsDelivered w = w.accepted ≡ w.sent ++ (unsent w ++ fifo.contents w.from_rt)

  push-IsDelivered :
      (a : A) (w : Writer) → IsDelivered w → IsDelivered (send_gpio_data_to_nrt a w).1
  unfolding send_gpio_data_to_nrt
  push-IsDelivered a w h =
      let answer = fifo.push a w.from_rt in
      elim (Bool-cases answer.0) [
        | inl stored ↦
            let longer =
              fifo.push_stores a w.from_rt answer.1 (ap (λ (b : Bool). (b, answer.1)) stored) in
            rw (stored, longer, h) (simp append_assoc)
        | inr full ↦
            let same =
              fifo.push_full a w.from_rt answer.1 (ap (λ (b : Bool). (b, answer.1)) full) in
            rw (full, same) h
      ]

  -- An element in hand that is sent, or not
  send-IsDelivered :
      (sends : Bool) (w : Writer)
      → w.accepted ≡ w.sent ++ (w.gpio_data ∷ fifo.contents w.from_rt)
      → IsDelivered (send_gpio_data_to_socket sends w)
  unfolding send_gpio_data_to_socket
  send-IsDelivered true w h = rw h (simp append_assoc)
  send-IsDelivered false w h = h

  write_turn-again :
      (sends : Bool) (w : Writer)
      → w.ready_to_send ≡ false
      → write_turn true sends w ≡ send_gpio_data_to_socket sends w
  unfolding write_turn
  write_turn-again sends w h = simp h

  turn-IsDelivered :
      (connects sends : Bool) (w : Writer)
      → IsDelivered w
      → IsDelivered (write_turn connects sends w)
  unfolding write_turn
  turn-IsDelivered connects sends w h = elim (Bool-cases w.ready_to_send) [
    | inl ready ↦ elim (Option-cases (fifo.pop w.from_rt)) [
      | inl empty ↦ rw (ready, empty) h
      | inr ((a, q), taken) ↦
          rw (ready, taken)
            (send-IsDelivered sends (record w { gpio_data = a; from_rt = q })
              (rw (ready, fifo.pop_takes a w.from_rt q taken) at h))
    ]
    | inr waiting ↦ elim (Bool-cases connects) [
      | inl connected ↦
          rw connected
            (rw (write_turn-again sends w waiting) (send-IsDelivered sends w (rw waiting at h)))
      | inr apart ↦ rw (waiting, apart) (rw waiting at h)
    ]
  ]

  -- Whatever the order of the steps of the two threads, the socket's failures and the queue's
  -- overflows: if every element given away so far is sent, held or queued, once and in order, it
  -- is so after them.
  pub steps-IsDelivered : (v w : Writer) → WriterSteps v w → IsDelivered v → IsDelivered w
  steps-IsDelivered v w (done _) h = h
  steps-IsDelivered v w (then_step _ u _ before (push a _)) h =
      push-IsDelivered a u (steps-IsDelivered v u before h)
  steps-IsDelivered v w (then_step _ u _ before (turn connects sends _)) h =
      turn-IsDelivered connects sends u (steps-IsDelivered v u before h)
