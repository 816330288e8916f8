-- ===== src/Api/Session.antt =====
-- src/raspa_api_wrapper.cpp: what holds of a client's whole sequence of calls.
use raspa.Prelude.{
  ℕ, ◌≡◌, ◌∙◌, refl, ap, sym, inl, inr, List, [], ◌∷◌, ◌++◌, none, some, Bool, true, false, arith,
  Option-cases,
}
use raspa.Prelude.Int.{ℤ}
use mathlib.Core.Option.{some-injective}
use raspa.GpioCom.Fifo.{Fifo}
use raspa.Pimpl.State.{World, RaspaPimpl}
use raspa.Pimpl.Lifecycle.{is_failure, start_realtime, set_cpu_affinity, open_device}
use raspa.DriverConfig.{check_driver_version, native_alsa}
use raspa.Pimpl.DriverInfo.{
  get_audio_info_from_driver, validate_buffer_size, set_audio_info, set_num_chans,
}
use raspa.Pimpl.Lifecycle.{open_sized}
use raspa.Pimpl.Buffers.{InAudio, fits_mapping}
use raspa.Pimpl.Packets.{Protocol}
use raspa.Pimpl.RtLoop.{Rt, Interrupt, Event, interrupt, rt_loop_native, rt_loop_async}
use raspa.Pimpl.Stopping.{IsSilent, stopped_loops-IsSilent}
use raspa.Pimpl.Queries.{init, set_run_log_file, set_gate_values, get_samplecount}
use raspa.Api.Usb.{close_call-result}
use raspa.Pimpl.StopFlag.{flag, open_device-Keeps, start_realtime-Keeps, close_device-sets}
use raspa.Api.{
  Call, Answers, Returned, raspa_call, run_calls, signal_on_mode_sw, run_log_to_file, close_call,
  start_call, returning, with_alsa_usb, raspa_open, raspa_start_realtime, raspa_get_samplecount,
  raspa_close,
}

close_call-sets :
    (w : World) (r t : RaspaPimpl) (answer : Returned)
    → close_call w r ≡ some (answer, t)
    → flag t ≡ true
close_call-sets w r t answer h =
    let (usb, called, e) = close_call-result w r t answer h in ap flag e ∙ close_device-sets w usb

start_call-flag :
    (w : World) (r t : RaspaPimpl) (answer : Returned)
    → start_call w r ≡ some (answer, t)
    → flag t ≡ flag (start_realtime w r).1
unfolding start_call with_alsa_usb
start_call-flag w r t answer h = ground arith

raspa_call-flag :
    (a : Answers) (call : Call) (r t : RaspaPimpl) (answer : Returned)
    → raspa_call a call r ≡ some (answer, t)
    → flag r ≡ true
    → flag t ≡ true
unfolding raspa_call init set_run_log_file set_cpu_affinity set_gate_values
raspa_call-flag a (raspa_open size callback user_data flags) r t answer h set =
    let open_call =
      open_device a.world size callback user_data (signal_on_mode_sw flags) (run_log_to_file flags)
        r in
    elim (Option-cases open_call) [
      | inl undefined ↦ absurd (ground (arith, rw undefined at h))
      | inr (step, opened) ↦
          let e : some (returning step) ≡ some (answer, t) = rw opened at h in
          ap (λ (p : Returned × RaspaPimpl). flag p.1) (sym (some-injective _ _ e))
          ∙ open_device-Keeps a.world size callback user_data (signal_on_mode_sw flags)
              (run_log_to_file flags) r step opened
          ∙ set
    ]
raspa_call-flag a raspa_start_realtime r t answer h set =
    start_call-flag a.world r t answer h ∙ start_realtime-Keeps a.world r ∙ set
raspa_call-flag a raspa_close r t answer h set = close_call-sets a.world r t answer h
raspa_call-flag a raspa_get_samplecount r t answer h set = elim (Option-cases (get_samplecount r)) [
  | inl over ↦ absurd (ground (arith, rw over at h))
  | inr (count, counted) ↦ ground (arith, rw counted at h)
]
raspa_call-flag a call r t answer h set = ground arith

run_calls-flag :
    (calls : List (Answers × Call)) (r t : RaspaPimpl)
    → run_calls calls r ≡ some t
    → flag r ≡ true
    → flag t ≡ true
unfolding run_calls
run_calls-flag [] r t h set = ground arith
run_calls-flag ((a, call) ∷ calls) r t h set = elim (Option-cases (raspa_call a call r)) [
  | inl null ↦ absurd (ground (arith, rw null at h))
  | inr ((answer, after), e) ↦
      run_calls-flag calls after t (rw e at h) (raspa_call-flag a call r after answer e set)
]

-- A sequence of calls in two parts
pub run_calls-append :
    (calls more : List (Answers × Call)) (r t : RaspaPimpl)
    → run_calls (calls ++ more) r ≡ some t
    → (m : RaspaPimpl) × (run_calls calls r ≡ some m) × (run_calls more m ≡ some t)
unfolding run_calls
run_calls-append [] more r t h = (r, refl, h)
run_calls-append ((a, call) ∷ calls) more r t h = elim (Option-cases (raspa_call a call r)) [
  | inl null ↦ absurd (ground (arith, rw null at h))
  | inr ((answer, after), e) ↦
      let (m, first, rest) = run_calls-append calls more after t (rw e at h) in
      (m, rw e first, rest)
]

pub one_call :
    (a : Answers) (call : Call) (r t : RaspaPimpl)
    → run_calls ((a, call) ∷ []) r ≡ some t
    → (answer : Returned) × (raspa_call a call r ≡ some (answer, t))
unfolding run_calls
one_call a call r t h = elim (Option-cases (raspa_call a call r)) [
  | inl null ↦ absurd (ground (arith, rw null at h))
  | inr ((answer, after), e) ↦
      (answer, e ∙ ap (λ (u : RaspaPimpl). some (answer, u)) (ground (arith, rw e at h)))
]

pub close_last :
    (a : Answers) (r t : RaspaPimpl)
    → run_calls ((a, raspa_close) ∷ []) r ≡ some t
    → (answer : Returned) × (close_call a.world r ≡ some (answer, t))
unfolding raspa_call
close_last a r t h = one_call a raspa_close r t h

module _ (fifo : Fifo ℕ) (protocol : Protocol) where
  -- Once raspa_close was called, whatever calls follow, also opening and starting again: where the
  -- driver's memory is mapped and the audio buffers and packets lie within the mapping, the loops of
  -- the NATIVE and the ASYNC platform go through the first interrupt that comes and all later events,
  -- whatever the driver writes into the memory, with no access that is undefined, without calling the
  -- user's function and with every word of the audio buffers at 0 after each interrupt.
  pub reopened_loops-IsSilent :
      (a : Answers) (calls : List (Answers × Call)) (r : RaspaPimpl) (s : Rt fifo protocol)
      (w : World) (irq : Interrupt) (es : List Event) (at : ℕ)
      → run_calls ((a, raspa_close) ∷ calls) r ≡ some s.pimpl
      → s.pimpl.mmap_initialized ≡ true
      → fits_mapping w s.pimpl ≡ true
      → is_failure irq.wait_result ≡ false
      → InAudio s.pimpl.driver_buffers s.pimpl.driver_buffer_size 0 at
      → ((t : Rt fifo protocol) × (rt_loop_native fifo protocol w (interrupt irq ∷ es) s ≡ some t)
          × IsSilent fifo protocol s t at)
        × ((t : Rt fifo protocol) × (rt_loop_async fifo protocol w (interrupt irq ∷ es) s ≡ some t)
            × IsSilent fifo protocol s t at)
  reopened_loops-IsSilent a calls r s w irq es at h mapped fits came inside =
      let (m, first, rest) = run_calls-append ((a, raspa_close) ∷ []) calls r s.pimpl h in
      let (answer, closed) = close_last a r m first in
      let set : flag m ≡ true = close_call-sets a.world r m answer closed in
      stopped_loops-IsSilent fifo protocol w irq es s at (run_calls-flag calls m s.pimpl rest set)
        mapped fits came inside

-- The state after an opening that finds the wrong buffer size
mismatched_open :
    (w : World) (buffer_size : ℤ) (callback user_data : ℕ) (mode_sw run_log : Bool) (r : RaspaPimpl)
    → (check_driver_version w.sysfs).0 ≡ true
    → let info = get_audio_info_from_driver w r in
      is_failure info.0 ≡ false
      → is_failure
          (validate_buffer_size w (record (info.1) { buffer_size_in_frames = buffer_size })).0
        ≡ true
      → open_device w buffer_size callback user_data mode_sw run_log r
        ≡ some (validate_buffer_size w (record (info.1) { buffer_size_in_frames = buffer_size }))
unfolding open_device open_sized
mismatched_open w buffer_size callback user_data mode_sw run_log r version info valid =
    rw (version, info, valid) refl

get_audio_info_from_driver-alsa :
    (w : World) (r : RaspaPimpl) → (get_audio_info_from_driver w r).1.alsa_usb ≡ r.alsa_usb
unfolding get_audio_info_from_driver set_audio_info set_num_chans
get_audio_info_from_driver-alsa w r = ground arith

validate_buffer_size-usb :
    (w : World) (r : RaspaPimpl)
    → ((validate_buffer_size w r).1.usb_audio_type ≡ r.usb_audio_type)
      × ((validate_buffer_size w r).1.alsa_usb ≡ r.alsa_usb)
unfolding validate_buffer_size
validate_buffer_size-usb w r = ground arith

-- If raspa_open finds a driver with native USB audio and another buffer size than the caller's,
-- before any USB audio was set up, it is defined, but the raspa_close after it is not: it calls a
-- method of the USB audio through a null pointer.
pub failed_open-close :
    (a b : Answers) (buffer_size : ℤ) (callback user_data flags : ℕ) (r : RaspaPimpl)
    → r.alsa_usb ≡ none
    → (check_driver_version a.world.sysfs).0 ≡ true
    → is_failure (get_audio_info_from_driver a.world r).0 ≡ false
    → (get_audio_info_from_driver a.world r).1.usb_audio_type ≡ native_alsa
    → is_failure
        (validate_buffer_size a.world (record (get_audio_info_from_driver a.world r).1 {
          buffer_size_in_frames = buffer_size;
        })).0
      ≡ true
    → ((t : RaspaPimpl) × (run_calls ((a, raspa_open buffer_size callback user_data flags) ∷ []) r
          ≡ some t))
      × (run_calls ((a, raspa_open buffer_size callback user_data flags) ∷ (b, raspa_close) ∷ []) r
          ≡ none)
unfolding run_calls raspa_call close_call with_alsa_usb
failed_open-close a b buffer_size callback user_data flags r none_yet version info usb mismatch =
    let sized = record (get_audio_info_from_driver a.world r).1 {
      buffer_size_in_frames = buffer_size;
    } in
    let after =
      mismatched_open a.world buffer_size callback user_data (signal_on_mode_sw flags)
        (run_log_to_file flags) r version info mismatch in
    let kept = validate_buffer_size-usb a.world sized in
    let is_usb = kept.0 ∙ usb in
    let is_null = kept.1 ∙ get_audio_info_from_driver-alsa a.world r ∙ none_yet in
    (((validate_buffer_size a.world sized).1, rw after refl), rw after (rw (is_usb, is_null) refl))
