-- ===== src/GpioCom/Tests.antt =====
-- A run of the gpio threads with a bounded queue, and the theorems about them at it.
use raspa.Prelude.{ℕ, ◌==◌, arith, ◌≡◌, refl, [], ◌∷◌, ◌++◌, some, true, false}
use raspa.GpioCom.Bounded.{bounded}
use raspa.GpioCom.Write.{
  Writer, WriterStep, WriterSteps, write_turn, send_gpio_data_to_nrt, steps-IsDelivered,
  send_gpio_data_to_socket,
}
use raspa.GpioCom.Drain.{drain, IsDrained, drain-IsDrained}
use raspa.GpioCom.Read.{
  Reader, ReaderStep, ReaderSteps, read_turn, get_gpio_data_from_nrt, push_to_rt, steps-IsForwarded,
}

abbrev idle_writer : Writer ℕ bounded
idle_writer = record { from_rt = []; ready_to_send = true; gpio_data = 0; sent = []; accepted = [] }

-- Two elements are given away, and the first send fails.
abbrev after_failure : Writer ℕ bounded
after_failure = record {
  from_rt = 8 ∷ [];
  ready_to_send = false;
  gpio_data = 7;
  sent = [];
  accepted = 7 ∷ 8 ∷ [];
}

two_given : WriterSteps ℕ bounded idle_writer after_failure
unfolding send_gpio_data_to_nrt write_turn send_gpio_data_to_socket
two_given =
    WriterSteps.then_step _ _ _
      (WriterSteps.then_step _ _ _
        (WriterSteps.then_step _ _ _ (WriterSteps.done idle_writer) (WriterStep.push 7 idle_writer))
        (WriterStep.push 8 _))
      (WriterStep.turn false false _)

steps-IsDelivered_example : after_failure.accepted ≡ [] ++ ((7 ∷ []) ++ 8 ∷ [])
steps-IsDelivered_example = steps-IsDelivered ℕ bounded idle_writer after_failure two_given refl

abbrev idle_reader : Reader ℕ bounded
idle_reader = record { to_rt = []; ready_to_recv = true; gpio_data = 0; received = []; taken = [] }

-- Two datagrams come in, and the real time thread takes one.
abbrev after_take : Reader ℕ bounded
after_take = record {
  to_rt = 6 ∷ [];
  ready_to_recv = true;
  gpio_data = 6;
  received = 5 ∷ 6 ∷ [];
  taken = 5 ∷ [];
}

one_taken : ReaderSteps ℕ bounded idle_reader after_take
unfolding get_gpio_data_from_nrt push_to_rt read_turn
one_taken =
    ReaderSteps.then_step _ _ _
      (ReaderSteps.then_step _ _ _
        (ReaderSteps.then_step _ _ _ (ReaderSteps.done idle_reader)
          (ReaderStep.turn (some 5) idle_reader))
        (ReaderStep.turn (some 6) _))
      (ReaderStep.pop _)

steps-IsForwarded_example : after_take.received ≡ (5 ∷ []) ++ ((6 ∷ []) ++ [])
steps-IsForwarded_example = steps-IsForwarded ℕ bounded idle_reader after_take one_taken refl

-- Two elements are queued, and the second send fails.
abbrev two_queued : Writer ℕ bounded
two_queued = record idle_writer { from_rt = 7 ∷ 8 ∷ []; accepted = 7 ∷ 8 ∷ [] }

drain-IsDrained_example :
    IsDrained ℕ bounded two_queued (drain ℕ bounded 3 (λ k. k == 0) 0 two_queued)
drain-IsDrained_example = drain-IsDrained ℕ bounded 3 (λ k. k == 0) 0 two_queued (omega arith) refl
