-- ===== src/Pimpl/Settling.antt =====
-- src/raspa_pimpl.h: `_rt_loop_sync`, before its delay filter has settled and once a stop has been
-- requested.
use raspa.Prelude.{
  ap, Option, ◌>>=◌, ℕ, ◌≡◌, refl, ◌∙◌, ◌⊎◌, inl, inr, List, [], ◌∷◌, ◌&&◌, not, Bool, true, false,
  some, if◌then◌else◌, Bool-cases,
}
use raspa.Prelude.Int.{ℤ, ltb_ℤ}
use raspa.GpioCom.Fifo.{Fifo}
use raspa.Pimpl.State.{World}
use raspa.Pimpl.Buffers.{InAudio, fits_mapping}
use raspa.Pimpl.Lifecycle.{is_failure}
use raspa.Pimpl.Packets.{Protocol}
use raspa.Pimpl.Stopping.{
  user_side, IsStopped, IsSilent, KeepsSilent, run_loop-IsSilent, take_in-IsStopped,
  period_or_clear-stopped, cleared_rt, cleared_rt-IsStopped, cleared_rt-zero,
}
use raspa.Pimpl.RtLoop.{
  packet_period, Interrupt, Event, interrupt, stop_request, Rt, clear_mode_sw, finish,
  count_interrupt, take_in, sync_turn, tick_filter, request_stop, run_loop, settle_turn, settle,
  rt_loop_sync, next_tx, parse_rx, delay_filter_settling_constant,
}

-- Both calls to the driver succeed on every interrupt.
abbrev pub all_succeed : List Event → Bool
all_succeed [] = true
all_succeed (stop_request ∷ es) = all_succeed es
all_succeed (interrupt irq ∷ es) =
    (not (is_failure irq.wait_result) && not (is_failure irq.finished_result)) && all_succeed es

module _ (fifo : Fifo ℕ) (protocol : Protocol) where
  settle_turn-user :
      (irq : Interrupt) (s : Rt fifo protocol)
      → (user_side (settle_turn fifo protocol irq s).pimpl ≡ user_side s.pimpl)
        × ((settle_turn fifo protocol irq s).usb_sent ≡ s.usb_sent)
  unfolding settle_turn tick_filter finish next_tx parse_rx count_interrupt
  settle_turn-user irq s = elim (Bool-cases (is_failure irq.finished_result)) [
    | inl failed ↦ rw failed (refl, refl)
    | inr passed ↦ rw passed (refl, refl)
  ]

  -- While the filter settles the user's function is not called and no USB samples are sent; and the
  -- second loop starts only once 100 interrupts have been counted, unless a call to the driver fails.
  pub settle-settles :
      (es : List Event) (s : Rt fifo protocol)
      → let (left, settled) = settle fifo protocol es s in
        (user_side settled.pimpl ≡ user_side s.pimpl)
        × (settled.usb_sent ≡ s.usb_sent)
        × ((all_succeed es ≡ false)
            ⊎ ((left ≡ [])
                ⊎ (ltb_ℤ settled.pimpl.interrupts_counter delay_filter_settling_constant ≡ false)))
  unfolding settle request_stop take_in
  settle-settles [] s = (refl, refl, inr (inl refl))
  settle-settles (stop_request ∷ es) s = settle-settles es (request_stop fifo protocol s)
  settle-settles (interrupt irq ∷ es) s =
      let (user, usb) = settle_turn-user irq (take_in fifo protocol irq s) in
      let (rest_user, rest_usb, rest) =
        settle-settles es (settle_turn fifo protocol irq (take_in fifo protocol irq s)) in
      elim (Bool-cases (ltb_ℤ s.pimpl.interrupts_counter delay_filter_settling_constant)) [
        | inl early ↦ elim (Bool-cases (is_failure irq.wait_result)) [
          | inl failed ↦ rw (early, failed) (refl, refl, inl refl)
          | inr came ↦ elim (Bool-cases (is_failure irq.finished_result)) [
            | inl failed ↦ rw (early, came, failed) (user, usb, inl refl)
            | inr passed ↦ rw (early, came, passed) (rest_user ∙ user, rest_usb ∙ usb, rest)
          ]
        ]
        | inr late ↦ rw late (refl, refl, inr (inr late))
      ]

  -- The state that a turn comes to from a cleared one
  abbrev replied_turn : Interrupt → ℤ → Rt fifo protocol → Rt fifo protocol
  replied_turn irq reply t =
      let replied = finish fifo protocol reply t in
      if is_failure irq.finished_result then replied else count_interrupt fifo protocol replied

  replied_turn-IsSilent :
      (irq : Interrupt) (reply : ℤ) (s t : Rt fifo protocol) (at : ℕ)
      → IsSilent fifo protocol s t at
      → IsSilent fifo protocol s (replied_turn irq reply t) at
  unfolding finish count_interrupt
  replied_turn-IsSilent irq reply s t at (h, zero) =
      let replied : IsStopped fifo protocol s (finish fifo protocol reply t) = record {
        requested = h.requested;
        mapped = h.mapped;
        user = h.user;
        place = h.place;
        queues = h.queues;
        usb = h.usb;
      } in
      let counted : IsStopped fifo protocol s
          (count_interrupt fifo protocol (finish fifo protocol reply t)) =
        record {
          requested = h.requested;
          mapped = h.mapped;
          user = h.user;
          place = h.place;
          queues = h.queues;
          usb = h.usb;
        } in
      elim (Bool-cases (is_failure irq.finished_result)) [
        | inl failed ↦ rw failed (replied, zero)
        | inr passed ↦ rw passed (counted, zero)
      ]

  tick_filter-IsStopped :
      (irq : Interrupt) (s t : Rt fifo protocol)
      → IsStopped fifo protocol s t
      → IsStopped fifo protocol s (tick_filter fifo protocol irq t).1
  unfolding tick_filter
  tick_filter-IsStopped irq s t h = record {
    requested = h.requested;
    mapped = h.mapped;
    user = h.user;
    place = h.place;
    queues = h.queues;
    usb = h.usb;
  }

  sync_turn-stopped :
      (w : World) (irq : Interrupt) (s t : Rt fifo protocol)
      → IsStopped fifo protocol s t
      → fits_mapping w s.pimpl ≡ true
      → sync_turn fifo protocol w irq t
        ≡ some (
            replied_turn irq
              (tick_filter fifo protocol irq t).0
              (cleared_rt fifo protocol w (tick_filter fifo protocol irq t).1))
  unfolding sync_turn
  sync_turn-stopped w irq s t h fits =
      let (correction, ticked) = tick_filter fifo protocol irq t in
      ap
        (λ (p : Option (Rt fifo protocol)). p >>= (λ done. some (replied_turn irq correction done)))
        (period_or_clear-stopped fifo protocol w (packet_period fifo protocol irq) s ticked
          (tick_filter-IsStopped irq s t h) fits)

  sync_turn-silent :
      (w : World) (s : Rt fifo protocol) (at : ℕ)
      → fits_mapping w s.pimpl ≡ true
      → InAudio s.pimpl.driver_buffers s.pimpl.driver_buffer_size 0 at
      → KeepsSilent fifo protocol (sync_turn fifo protocol w) s at
  sync_turn-silent w s at fits inside irq t h =
      let (correction, ticked) = tick_filter fifo protocol irq t in
      let same = tick_filter-IsStopped irq s t h in
      (
        _,
        sync_turn-stopped w irq s t h fits,
        replied_turn-IsSilent irq correction s (cleared_rt fifo protocol w ticked) at (
          cleared_rt-IsStopped fifo protocol w s ticked same,
          cleared_rt-zero fifo protocol w s ticked at same inside,
        ),
      )

  -- On the SYNC platform, with the driver's memory mapped, the audio buffers and packets within the
  -- mapping and 100 interrupts counted: from the first interrupt on that comes after a stop was
  -- requested, whatever comes then, also what the driver writes into the memory, no access of the
  -- loop is undefined, the user's function is not called, no gpio data or USB samples move, and every word of
  -- the audio buffers is 0 when the loop is left or waits again.
  pub stopped_sync-IsSilent :
      (w : World) (irq : Interrupt) (es : List Event) (s : Rt fifo protocol) (at : ℕ)
      → s.pimpl.stop_request_flag ≡ true
      → s.pimpl.mmap_initialized ≡ true
      → fits_mapping w s.pimpl ≡ true
      → ltb_ℤ s.pimpl.interrupts_counter delay_filter_settling_constant ≡ false
      → is_failure irq.wait_result ≡ false
      → InAudio s.pimpl.driver_buffers s.pimpl.driver_buffer_size 0 at
      → (t : Rt fifo protocol) × (rt_loop_sync fifo protocol w (interrupt irq ∷ es) s ≡ some t)
        × IsSilent fifo protocol s t at
  unfolding rt_loop_sync run_loop settle clear_mode_sw
  stopped_sync-IsSilent w irq es s at stop mapped fits settled came inside =
      let now : IsStopped fifo protocol s (clear_mode_sw fifo protocol s) = record {
        requested = stop;
        mapped = mapped;
        user = refl;
        place = refl;
        queues = (refl, refl);
        usb = refl;
      } in
      let silent = sync_turn-silent w s at fits inside in
      let ends : Interrupt → Bool = λ irq. is_failure irq.finished_result in
      let (u, turned, first) =
        silent irq (take_in fifo protocol irq (clear_mode_sw fifo protocol s))
          (take_in-IsStopped fifo protocol irq s (clear_mode_sw fifo protocol s) now) in
      let (v, rest, end) =
        run_loop-IsSilent fifo protocol (sync_turn fifo protocol w) ends s at silent es u first in
      elim (Bool-cases (is_failure irq.finished_result)) [
        | inl failed ↦ (u, rw settled (rw (came, turned, failed) refl), first)
        | inr replied ↦ (v, rw settled (rw (came, turned, replied) rest), end)
      ]
