-- ===== src/Pimpl/RtLoop.antt =====
-- src/raspa_pimpl.h: the loops of the real time thread, built without EVL. The filter's output for
-- a timing error is the answer of class RaspaDelayErrorFilter, which computes in `float`.
use raspa.Prelude.{
  ℕ, ◌+◌, List, [], ◌∷◌, ◌++◌, Option, some, Bool, true, false, ltb, if◌then◌else◌, ◌>>=◌,
}
use raspa.Prelude.Int.{ℤ, pos, ltb_ℤ, ◌+ℤ◌}
use raspa.GpioCom.Fifo.{Fifo}
use raspa.Pimpl.Layout.{DriverBuffers}
use raspa.Pimpl.State.{World, RaspaPimpl}
use raspa.Prelude.Memory.{write_word}
use raspa.Pimpl.Buffers.{clear_driver_buffers}
use raspa.Pimpl.Lifecycle.{is_failure}
use raspa.Pimpl.UserCallback.{Period, perform_user_callback}
use raspa.Pimpl.Packets.{Protocol, parse_rx_pkt, get_next_tx_pkt_data}

abbrev pub delay_filter_downsample_rate : ℕ
delay_filter_downsample_rate = 16

abbrev pub delay_filter_settling_constant : ℤ
delay_filter_settling_constant = pos 100

unfoldable pub process_timing_error_with_downsampling : (filter_output : ℤ) → (count : ℕ) → ℤ × ℕ
process_timing_error_with_downsampling filter_output count =
    if ltb (count + 1) delay_filter_downsample_rate then (pos 0, count + 1) else (filter_output, 0)

-- What one interrupt brings: the answers of its two calls to the driver, the number of the buffer,
-- what the driver and the hardware made of the memory until then, the filter's output and the
-- period's data.
pub record Interrupt : Type 0 where
  pub wait_result : ℤ
  pub second_buffer : Bool
  pub arrives : (ℕ → ℕ) → ℕ → ℕ
  pub filter_output : ℤ
  pub finished_result : ℤ
  pub period : Period

-- What happens while a loop runs: an interrupt, or another thread that requests the stop.
pub data Event : Type 0 where
  interrupt : Interrupt → Event
  stop_request : Event

abbrev pub audio_in_at : Interrupt → DriverBuffers → ℕ
audio_in_at irq b = if irq.second_buffer then b.audio_in_1 else b.audio_in_0

abbrev pub audio_out_at : Interrupt → DriverBuffers → ℕ
audio_out_at irq b = if irq.second_buffer then b.audio_out_1 else b.audio_out_0

abbrev pub rx_pkt_at : Interrupt → DriverBuffers → ℕ
rx_pkt_at irq b = if irq.second_buffer then b.rx_pkt_1 else b.rx_pkt_0

abbrev pub tx_pkt_at : Interrupt → DriverBuffers → ℕ
tx_pkt_at irq b = if irq.second_buffer then b.tx_pkt_1 else b.tx_pkt_0

module _ (fifo : Fifo ℕ) (protocol : Protocol) where
  -- The object with its two gpio queues. `replies` is what the loop has answered the driver with
  -- RASPA_USERPROC_FINISHED, and `usb_sent` what it gave to the USB audio.
  pub record Rt : Type 0 where
    pub pimpl : RaspaPimpl
    pub to_rt : fifo.Queue
    pub from_rt : fifo.Queue
    pub replies : List ℤ
    pub usb_sent : List (List ℕ)

  unfoldable pub clear_mode_sw : Rt → Rt
  clear_mode_sw s = record s { pimpl = record (s.pimpl) { detect_mode_sw = false } }

  -- RASPA_USERPROC_FINISHED, where 0 stands for a null argument, and the count of the interrupts
  unfoldable pub finish : (reply : ℤ) → Rt → Rt
  finish reply s = record s { replies = s.replies ++ reply ∷ [] }

  unfoldable pub count_interrupt : Rt → Rt
  count_interrupt s = record s {
    pimpl = record (s.pimpl) { interrupts_counter = s.pimpl.interrupts_counter +ℤ pos 1 };
  }

  unfoldable pub clear_buffers : World → Rt → Option Rt
  clear_buffers w s = clear_driver_buffers w s.pimpl >>= (λ done. some (record s { pimpl = done }))

  unfoldable pub set_gate_in : ℕ → Rt → Rt
  set_gate_in value s = record s { pimpl = record (s.pimpl) { user_gate_in = value } }

  unfoldable pub call_user : Interrupt → Rt → Option Rt
  call_user irq s =
      let b = s.pimpl.driver_buffers in
      perform_user_callback irq.period (audio_in_at irq b) (audio_out_at irq b) s.pimpl
      >>= (λ (usb, done). some (record s { pimpl = done; usb_sent = s.usb_sent ++ usb ∷ [] }))

  unfoldable pub parse_rx : Interrupt → Rt → Rt
  parse_rx irq s = record s {
    from_rt =
        parse_rx_pkt fifo protocol (rx_pkt_at irq s.pimpl.driver_buffers) s.pimpl.driver_memory
          s.from_rt;
  }

  unfoldable pub next_tx : Interrupt → Rt → Rt
  next_tx irq s =
      let (memory, q) =
        get_next_tx_pkt_data fifo protocol s.pimpl.stop_request_flag
          (tx_pkt_at irq s.pimpl.driver_buffers) s.to_rt s.pimpl.driver_memory in
      record s { to_rt = q; pimpl = record (s.pimpl) { driver_memory = memory } }

  unfoldable pub set_gate_out : Interrupt → Rt → Rt
  set_gate_out irq s = record s {
    pimpl = record (s.pimpl) {
      driver_memory =
          protocol.set_gate_out (tx_pkt_at irq s.pimpl.driver_buffers) s.pimpl.user_gate_out
            s.pimpl.driver_memory;
    };
  }

  unfoldable pub tick_filter : Interrupt → Rt → ℤ × Rt
  tick_filter irq s =
      let (correction, count) =
        process_timing_error_with_downsampling irq.filter_output
          s.pimpl.error_filter_process_count in
      (correction, record s { pimpl = record (s.pimpl) { error_filter_process_count = count } })

  unfoldable pub set_cv_out : Rt → Rt
  set_cv_out s = record s {
    pimpl = record (s.pimpl) {
      driver_memory =
          write_word s.pimpl.driver_buffers.cv_out s.pimpl.user_gate_out s.pimpl.driver_memory;
    };
  }

  -- A period with no stop requested, native and with a micro-controller
  unfoldable pub native_period : Interrupt → Rt → Option Rt
  native_period irq s =
      call_user irq (set_gate_in (s.pimpl.driver_memory s.pimpl.driver_buffers.cv_in) s)
      >>= (λ called. some (set_cv_out called))

  unfoldable pub packet_period : Interrupt → Rt → Option Rt
  packet_period irq s =
      let gate =
        protocol.gate_in_val s.pimpl.driver_memory (rx_pkt_at irq s.pimpl.driver_buffers) in
      call_user irq (parse_rx irq (set_gate_in gate s))
      >>= (λ called. some (set_gate_out irq (next_tx irq called)))

  unfoldable pub period_or_clear : World → (Rt → Option Rt) → Rt → Option Rt
  period_or_clear w run s = if s.pimpl.stop_request_flag then clear_buffers w s else run s

  -- One turn of each loop, with an interrupt that came
  unfoldable pub native_turn : World → Interrupt → Rt → Option Rt
  native_turn w irq s =
      period_or_clear w (native_period irq) (clear_mode_sw s)
      >>= (λ done. some (count_interrupt (finish (pos 0) done)))

  unfoldable pub async_turn : World → Interrupt → Rt → Option Rt
  async_turn w irq s =
      period_or_clear w (packet_period irq) (clear_mode_sw s)
      >>= (λ done. some (count_interrupt (finish (pos 0) done)))

  -- A reply that fails ends the loop before the interrupt is counted.
  unfoldable pub sync_turn : World → Interrupt → Rt → Option Rt
  sync_turn w irq s =
      let (correction, ticked) = tick_filter irq s in
      period_or_clear w (packet_period irq) ticked >>= (λ done.
        let replied = finish correction done in
        some (if is_failure irq.finished_result then replied else count_interrupt replied))

  unfoldable pub settle_turn : Interrupt → Rt → Rt
  settle_turn irq s =
      let (correction, ticked) = tick_filter irq s in
      let replied = finish correction (next_tx irq (parse_rx irq ticked)) in
      if is_failure irq.finished_result then replied else count_interrupt replied

  unfoldable pub request_stop : Rt → Rt
  request_stop s = record s { pimpl = record (s.pimpl) { stop_request_flag = true } }

  -- The memory as the interrupt finds it
  unfoldable pub take_in : Interrupt → Rt → Rt
  take_in irq s = record s {
    pimpl = record (s.pimpl) { driver_memory = irq.arrives s.pimpl.driver_memory };
  }

  -- The main loops; `ends` says whether the turn's reply ends the loop, which the others ignore.
  unfoldable pub run_loop :
      (Interrupt → Rt → Option Rt) → (ends : Interrupt → Bool) → List Event → Rt → Option Rt
  run_loop turn ends [] s = some s
  run_loop turn ends (stop_request ∷ es) s = run_loop turn ends es (request_stop s)
  run_loop turn ends (interrupt irq ∷ es) s =
      if is_failure irq.wait_result
      then some s
      else turn irq (take_in irq s) >>= (λ after.
        let rest = run_loop turn ends es after in if ends irq then some after else rest)

  unfoldable pub rt_loop_native : World → List Event → Rt → Option Rt
  rt_loop_native w = run_loop (native_turn w) (λ irq. false)

  unfoldable pub rt_loop_async : World → List Event → Rt → Option Rt
  rt_loop_async w = run_loop (async_turn w) (λ irq. false)

  -- The first loop of `_rt_loop_sync`: the events that are left for the second, and the state
  unfoldable pub settle : List Event → Rt → List Event × Rt
  settle [] s = ([], s)
  settle (stop_request ∷ es) s = settle es (request_stop s)
  settle (interrupt irq ∷ es) s =
      let after = settle_turn irq (take_in irq s) in
      let rest = settle es after in
      if ltb_ℤ s.pimpl.interrupts_counter delay_filter_settling_constant
      then (if is_failure irq.wait_result
          then (es, s)
          else if is_failure irq.finished_result
          then (es, after)
          else rest)
      else (interrupt irq ∷ es, s)

  unfoldable pub rt_loop_sync : World → List Event → Rt → Option Rt
  rt_loop_sync w es s =
      let (left, settled) = settle es s in
      run_loop (sync_turn w) (λ irq. is_failure irq.finished_result) left (clear_mode_sw settled)
