-- ===== src/GpioCom/Drain.antt =====
-- src/raspa_gpio_com.h: the inner loop of `_write_to_socket_loop`, which `deinit` waits for.
use raspa.Prelude.{
  ℕ, zero, suc, ◌<◌, ◌≡◌, refl, sym, ap, ◌∙◌, ◌⊎◌, inl, inr, [], ◌∷◌, ◌++◌, Option, none, some,
  Bool, true, false, if◌then◌else◌, length, arith, Bool-cases, Option-cases,
}
use mathlib.Core.List.{append_assoc}
use raspa.GpioCom.Fifo.{Fifo}
use raspa.GpioCom.Write.{Writer, send_gpio_data_to_socket, unsent}

module _ (A : Type 0) (fifo : Fifo A) where
  -- An element that was popped, and whether it is sent
  abbrev pub with_data : A → fifo.Queue → Writer A fifo → Writer A fifo
  with_data a q w = record w { gpio_data = a; from_rt = q }

  -- `while (pop) { send; if (!ready_to_send) break; }`, with whether the k-th send succeeds; `none`
  -- means that the fuel ran out.
  unfoldable pub drain :
      (fuel : ℕ) (sends : ℕ → Bool) (k : ℕ) → Writer A fifo → Option (Writer A fifo)
  drain zero sends k w = none
  drain (suc fuel) sends k w = elim (fifo.pop w.from_rt) [
    | none ↦ some w
    | some (a, q) ↦
        let after = send_gpio_data_to_socket A fifo (sends k) (with_data a q w) in
        let rest = drain fuel sends (suc k) after in if sends k then rest else some after
  ]

  -- The loop has ended: with a send that failed or an empty queue, and every element that it found
  -- is sent, in hand or queued, in order.
  pub record IsDrained (w : Writer A fifo) (result : Option (Writer A fifo)) : Type 0 where
    pub last : Writer A fifo
    pub returns : result ≡ some last
    pub done : (last.ready_to_send ≡ false) ⊎ (fifo.contents last.from_rt ≡ [])
    pub same_accepted : last.accepted ≡ w.accepted
    pub all :
        w.sent ++ fifo.contents w.from_rt
        ≡ last.sent ++ (unsent A fifo last ++ fifo.contents last.from_rt)

  -- With no push meanwhile, the inner loop of the writing thread comes to its end within one round
  -- more than there are elements in its queue: with an empty queue or with a send that failed. Every
  -- element that was in the queue is then sent, held or queued, once and in order.
  pub drain-IsDrained :
      (fuel : ℕ) (sends : ℕ → Bool) (k : ℕ) (w : Writer A fifo)
      → length (fifo.contents w.from_rt) < fuel
      → w.ready_to_send ≡ true
      → IsDrained w (drain fuel sends k w)
  unfolding drain send_gpio_data_to_socket
  drain-IsDrained zero sends k w enough ready = absurd (omega arith)
  drain-IsDrained (suc fuel) sends k w enough ready = elim (Option-cases (fifo.pop w.from_rt)) [
    | inl empty ↦
        rw (empty, drain)
          (record {
            last = w;
            returns = refl;
            done = inr (fifo.pop_empty w.from_rt empty);
            same_accepted = refl;
            all = rw ready refl;
          })
    | inr ((a, q), taken) ↦
        let longer = fifo.pop_takes a w.from_rt q taken in
        let fewer : length (fifo.contents q) < fuel = omega (arith, ap length longer) in
        elim (Bool-cases (sends k)) [
          | inl sent ↦
              let rest =
                drain-IsDrained fuel sends (suc k)
                  (send_gpio_data_to_socket A fifo true (with_data a q w)) fewer refl in
              rw (taken, drain, sent)
                (record {
                  last = rest.last;
                  returns = rest.returns;
                  done = rest.done;
                  same_accepted = rest.same_accepted;
                  all = rw longer (sym (append_assoc w.sent (a ∷ []) (fifo.contents q)) ∙ rest.all);
                })
          | inr failed ↦
              rw (taken, drain, failed)
                (record {
                  last = send_gpio_data_to_socket A fifo false (with_data a q w);
                  returns = refl;
                  done = inl refl;
                  same_accepted = refl;
                  all = rw longer refl;
                })
        ]
  ]
