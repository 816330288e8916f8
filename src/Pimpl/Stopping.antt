-- ===== src/Pimpl/Stopping.antt =====
-- src/raspa_pimpl.h: the loops of the real time thread once a stop has been requested.
use raspa.Prelude.{
  ℕ, ◌≡◌, refl, ap, sym, if◌then◌else◌, ◌>>=◌, ◌∙◌, List, [], ◌∷◌, Option, some, Bool, true, false,
  Bool-cases, inl, inr,
}
use mathlib.Core.Path.{subst}
use raspa.Prelude.Int.{ℤ, pos}
use raspa.GpioCom.Fifo.{Fifo}
use raspa.Pimpl.State.{World, RaspaPimpl}
use raspa.Pimpl.Layout.{DriverBuffers}
use raspa.DriverConfig.{PlatformType}
use raspa.Pimpl.Buffers.{
  InAudio, clear_fits, fits_mapping, cleared, cleared-zero, clear_driver_buffers-fits,
}
use raspa.Pimpl.Lifecycle.{is_failure}
use raspa.Pimpl.Packets.{Protocol}
use raspa.Pimpl.RtLoop.{
  Interrupt, Event, interrupt, stop_request, Rt, clear_mode_sw, finish, count_interrupt,
  clear_buffers, take_in, period_or_clear, native_period, packet_period, native_turn, async_turn,
  request_stop, run_loop, rt_loop_native, rt_loop_async,
}

-- What the user's function could have changed
abbrev pub user_side : RaspaPimpl → Option (List ℕ) × Option (List ℕ) × ℕ
user_side r = (r.user_audio_in, r.user_audio_out, r.user_gate_in)

-- Where the audio buffers are, and what decides how much is cleared
abbrev pub audio_place : RaspaPimpl → (DriverBuffers × ℕ) × (ℕ × PlatformType)
audio_place r =
    ((r.driver_buffers, r.driver_buffer_size), (r.kernel_buffer_mem_size, r.platform_type))

module _ (fifo : Fifo ℕ) (protocol : Protocol) where
  -- A stop has been requested, and since the state `s` the user's function has not been called and
  -- nothing was sent or taken.
  pub record IsStopped (s t : Rt fifo protocol) : Type 0 where
    pub requested : t.pimpl.stop_request_flag ≡ true
    pub mapped : t.pimpl.mmap_initialized ≡ true
    pub user : user_side t.pimpl ≡ user_side s.pimpl
    pub place : audio_place t.pimpl ≡ audio_place s.pimpl
    pub queues : (t.to_rt ≡ s.to_rt) × (t.from_rt ≡ s.from_rt)
    pub usb : t.usb_sent ≡ s.usb_sent

  -- Stopped, with a word of the audio buffers cleared
  abbrev pub IsSilent : (s t : Rt fifo protocol) → ℕ → Type 0
  IsSilent s t at = IsStopped s t × (t.pimpl.driver_memory at ≡ 0)

  -- What is cleared lies within the mapping then as before.
  pub IsStopped-fits :
      (w : World) (s t : Rt fifo protocol)
      → IsStopped s t
      → fits_mapping w s.pimpl ≡ true
      → fits_mapping w t.pimpl ≡ true
  IsStopped-fits w s t h fits =
      ap
        (λ (p : (DriverBuffers × ℕ) × (ℕ × PlatformType)).
          clear_fits w.packet_sizes p.1.1 p.1.0 p.0.1 p.0.0)
        h.place
      ∙ fits

  abbrev pub cleared_rt : World → Rt fifo protocol → Rt fifo protocol
  cleared_rt w t = record t { pimpl = cleared w t.pimpl }

  pub clear_buffers-fits :
      (w : World) (s t : Rt fifo protocol)
      → IsStopped s t
      → fits_mapping w s.pimpl ≡ true
      → clear_buffers fifo protocol w t ≡ some (cleared_rt w t)
  unfolding clear_buffers
  clear_buffers-fits w s t h fits =
      rw (clear_driver_buffers-fits w t.pimpl h.mapped (IsStopped-fits w s t h fits)) refl

  pub cleared_rt-IsStopped :
      (w : World) (s t : Rt fifo protocol) → IsStopped s t → IsStopped s (cleared_rt w t)
  cleared_rt-IsStopped w s t h = record {
    requested = h.requested;
    mapped = h.mapped;
    user = h.user;
    place = h.place;
    queues = h.queues;
    usb = h.usb;
  }

  pub cleared_rt-zero :
      (w : World) (s t : Rt fifo protocol) (at : ℕ)
      → IsStopped s t
      → InAudio s.pimpl.driver_buffers s.pimpl.driver_buffer_size 0 at
      → (cleared_rt w t).pimpl.driver_memory at ≡ 0
  cleared_rt-zero w s t at h inside = cleared-zero w t.pimpl at (
      subst (λ (p : (DriverBuffers × ℕ) × (ℕ × PlatformType)). InAudio p.0.0 p.0.1 0 at)
        (sym h.place) inside)

  pub take_in-IsStopped :
      (irq : Interrupt) (s t : Rt fifo protocol)
      → IsStopped s t
      → IsStopped s (take_in fifo protocol irq t)
  unfolding take_in
  take_in-IsStopped irq s t h = record {
    requested = h.requested;
    mapped = h.mapped;
    user = h.user;
    place = h.place;
    queues = h.queues;
    usb = h.usb;
  }

  clear_mode_sw-IsStopped :
      (s t : Rt fifo protocol) → IsStopped s t → IsStopped s (clear_mode_sw fifo protocol t)
  unfolding clear_mode_sw
  clear_mode_sw-IsStopped s t h = record {
    requested = h.requested;
    mapped = h.mapped;
    user = h.user;
    place = h.place;
    queues = h.queues;
    usb = h.usb;
  }

  -- The state that a turn of a loop comes to then
  abbrev cleared_turn : World → ℤ → Rt fifo protocol → Rt fifo protocol
  cleared_turn w reply t =
      count_interrupt fifo protocol (finish fifo protocol reply (cleared_rt w t))

  cleared_turn-IsSilent :
      (w : World) (reply : ℤ) (s t : Rt fifo protocol) (at : ℕ)
      → IsStopped s t
      → InAudio s.pimpl.driver_buffers s.pimpl.driver_buffer_size 0 at
      → IsSilent s (cleared_turn w reply t) at
  unfolding count_interrupt finish
  cleared_turn-IsSilent w reply s t at h inside =
      let done = cleared_rt-IsStopped w s t h in
      (
        record {
          requested = done.requested;
          mapped = done.mapped;
          user = done.user;
          place = done.place;
          queues = done.queues;
          usb = done.usb;
        },
        cleared_rt-zero w s t at h inside,
      )

  pub period_or_clear-stopped :
      (w : World) (run : Rt fifo protocol → Option (Rt fifo protocol)) (s t : Rt fifo protocol)
      → IsStopped s t
      → fits_mapping w s.pimpl ≡ true
      → period_or_clear fifo protocol w run t ≡ some (cleared_rt w t)
  unfolding period_or_clear
  period_or_clear-stopped w run s t h fits =
      ap (λ (stop : Bool). if stop then clear_buffers fifo protocol w t else run t) h.requested
      ∙ clear_buffers-fits w s t h fits

  replied :
      (w : World) (reply : ℤ) (o : Option (Rt fifo protocol)) (t : Rt fifo protocol)
      → o ≡ some (cleared_rt w t)
      → (o >>= (λ done. some (count_interrupt fifo protocol (finish fifo protocol reply done))))
        ≡ some (cleared_turn w reply t)
  replied w reply o t e =
      ap
        (λ (p : Option (Rt fifo protocol)).
          p >>= (λ done. some (count_interrupt fifo protocol (finish fifo protocol reply done))))
        e

  native_turn-stopped :
      (w : World) (irq : Interrupt) (s t : Rt fifo protocol)
      → IsStopped s t
      → fits_mapping w s.pimpl ≡ true
      → native_turn fifo protocol w irq t
        ≡ some (cleared_turn w (pos 0) (clear_mode_sw fifo protocol t))
  unfolding native_turn
  native_turn-stopped w irq s t h fits = replied w (pos 0) _ _ (
      period_or_clear-stopped w (native_period fifo protocol irq) s (clear_mode_sw fifo protocol t)
        (clear_mode_sw-IsStopped s t h) fits)

  async_turn-stopped :
      (w : World) (irq : Interrupt) (s t : Rt fifo protocol)
      → IsStopped s t
      → fits_mapping w s.pimpl ≡ true
      → async_turn fifo protocol w irq t
        ≡ some (cleared_turn w (pos 0) (clear_mode_sw fifo protocol t))
  unfolding async_turn
  async_turn-stopped w irq s t h fits = replied w (pos 0) _ _ (
      period_or_clear-stopped w (packet_period fifo protocol irq) s (clear_mode_sw fifo protocol t)
        (clear_mode_sw-IsStopped s t h) fits)

  request_stop-IsStopped :
      (s t : Rt fifo protocol) → IsStopped s t → IsStopped s (request_stop fifo protocol t)
  unfolding request_stop
  request_stop-IsStopped s t h = record {
    requested = refl;
    mapped = h.mapped;
    user = h.user;
    place = h.place;
    queues = h.queues;
    usb = h.usb;
  }

  abbrev pub KeepsSilent :
      (Interrupt → Rt fifo protocol → Option (Rt fifo protocol)) → Rt fifo protocol → ℕ → Type 0
  KeepsSilent turn s at =
      (irq : Interrupt) (t : Rt fifo protocol)
      → IsStopped s t
      → (u : Rt fifo protocol) × (turn irq t ≡ some u) × IsSilent s u at

  pub run_loop-IsSilent :
      (turn : Interrupt → Rt fifo protocol → Option (Rt fifo protocol)) (ends : Interrupt → Bool)
      (s : Rt fifo protocol) (at : ℕ)
      → KeepsSilent turn s at
      → (es : List Event) (t : Rt fifo protocol) → IsSilent s t at
      → (u : Rt fifo protocol) × (run_loop fifo protocol turn ends es t ≡ some u) × IsSilent s u at
  unfolding run_loop request_stop
  run_loop-IsSilent turn ends s at keeps [] t h = (t, refl, h)
  run_loop-IsSilent turn ends s at keeps (stop_request ∷ es) t (stopped, zero) =
      run_loop-IsSilent turn ends s at keeps es (request_stop fifo protocol t)
        (request_stop-IsStopped s t stopped, zero)
  run_loop-IsSilent turn ends s at keeps (interrupt irq ∷ es) t h =
      elim (Bool-cases (is_failure irq.wait_result)) [
        | inl ended ↦ (t, rw ended refl, h)
        | inr came ↦
            let (u, turned, silent) =
              keeps irq (take_in fifo protocol irq t) (take_in-IsStopped irq s t h.0) in
            elim (Bool-cases (ends irq)) [
              | inl last ↦ (u, rw (came, turned, last) refl, silent)
              | inr more ↦
                  let (v, rest, end) = run_loop-IsSilent turn ends s at keeps es u silent in
                  (v, rw (came, turned, more) rest, end)
            ]
      ]

  native_turn-silent :
      (w : World) (s : Rt fifo protocol) (at : ℕ)
      → fits_mapping w s.pimpl ≡ true
      → InAudio s.pimpl.driver_buffers s.pimpl.driver_buffer_size 0 at
      → KeepsSilent (native_turn fifo protocol w) s at
  native_turn-silent w s at fits inside irq t h = (
    _,
    native_turn-stopped w irq s t h fits,
    cleared_turn-IsSilent w (pos 0) s (clear_mode_sw fifo protocol t) at
        (clear_mode_sw-IsStopped s t h) inside,
  )

  async_turn-silent :
      (w : World) (s : Rt fifo protocol) (at : ℕ)
      → fits_mapping w s.pimpl ≡ true
      → InAudio s.pimpl.driver_buffers s.pimpl.driver_buffer_size 0 at
      → KeepsSilent (async_turn fifo protocol w) s at
  async_turn-silent w s at fits inside irq t h = (
    _,
    async_turn-stopped w irq s t h fits,
    cleared_turn-IsSilent w (pos 0) s (clear_mode_sw fifo protocol t) at
        (clear_mode_sw-IsStopped s t h) inside,
  )

  -- On the NATIVE and the ASYNC platform, with the driver's memory mapped and the audio buffers and
  -- packets within the mapping: from the first interrupt on that comes after a stop was requested,
  -- whatever comes then, also what the driver writes into the memory, no access of the loop is
  -- undefined, the user's function is not called, no gpio data or USB samples move, and every word of
  -- the audio buffers is 0 when the loop is left or waits again.
  pub stopped_loops-IsSilent :
      (w : World) (irq : Interrupt) (es : List Event) (s : Rt fifo protocol) (at : ℕ)
      → s.pimpl.stop_request_flag ≡ true
      → s.pimpl.mmap_initialized ≡ true
      → fits_mapping w s.pimpl ≡ true
      → is_failure irq.wait_result ≡ false
      → InAudio s.pimpl.driver_buffers s.pimpl.driver_buffer_size 0 at
      → ((t : Rt fifo protocol) × (rt_loop_native fifo protocol w (interrupt irq ∷ es) s ≡ some t)
          × IsSilent s t at)
        × ((t : Rt fifo protocol) × (rt_loop_async fifo protocol w (interrupt irq ∷ es) s ≡ some t)
            × IsSilent s t at)
  unfolding rt_loop_native rt_loop_async run_loop
  stopped_loops-IsSilent w irq es s at stop mapped fits came inside =
      let now : IsStopped s s = record {
        requested = stop;
        mapped = mapped;
        user = refl;
        place = refl;
        queues = (refl, refl);
        usb = refl;
      } in
      let first = take_in fifo protocol irq s in
      let taken = take_in-IsStopped irq s s now in
      let native_silent = native_turn-silent w s at fits inside in
      let async_silent = async_turn-silent w s at fits inside in
      let goes_on : Interrupt → Bool = λ irq. false in
      let (u, turned, silent) = native_silent irq first taken in
      let (v, rest, end) =
        run_loop-IsSilent (native_turn fifo protocol w) goes_on s at native_silent es u silent in
      let (u', turned', silent') = async_silent irq first taken in
      let (v', rest', end') =
        run_loop-IsSilent (async_turn fifo protocol w) goes_on s at async_silent es u' silent' in
      ((v, rw (came, turned) rest, end), (v', rw (came, turned') rest', end'))
