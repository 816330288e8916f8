-- ===== src/Api/Opened.antt =====
-- src/raspa_api_wrapper.cpp: starting and closing after an opening that returned RASPA_SUCCESS.
use raspa.Prelude.{ℕ, ◌≡◌, refl, ◌∙◌, ◌⊎◌, inl, inr, some, Bool, true, false, arith, Bool-cases}
use raspa.Prelude.Int.{ℤ, pos, pos_part}
use raspa.Binary32.{float_to_int}
use raspa.Pimpl.Layout.{num_alsa_usb_channels}
use raspa.AlsaUsb.Ready.{IsReady}
use raspa.AlsaUsb.{RaspaAlsaUsb}
use raspa.AlsaUsb.Setup.{Method, close, start_usb_streams, alsa_worker_start}
use raspa.Pimpl.State.{World, RaspaPimpl}
use raspa.Pimpl.DriverInfo.{is_native_alsa}
use raspa.Pimpl.Lifecycle.{close_device, start_realtime, is_failure, open_device}
use raspa.Pimpl.Opened.{open_device-IsOpen}
use raspa.Api.{Returned, code, close_call, start_call, with_alsa_usb}
use raspa.Api.Usb.{
  UsbHas, UsbIsClosed, UsbIsStarted, usb_of, cleanup-usb, with_alsa_usb-has, UsbHas-of,
  close_call-closes,
}

-- Where the object is there, or no USB audio is, a call of a method of it is defined.
with_alsa_usb-defined :
    (P : RaspaAlsaUsb → Type 0) (method : Method) (r : RaspaPimpl)
    → UsbHas P r
    → (t : RaspaPimpl) × (with_alsa_usb method r ≡ some t)
unfolding with_alsa_usb
with_alsa_usb-defined P method r (inl without) = (r, rw without refl)
with_alsa_usb-defined P method r (inr (a, there, has)) =
    elim (Bool-cases (is_native_alsa r.usb_audio_type)) [
      | inl usb ↦ (record r { alsa_usb = some ((method a).1) }, rw (usb, there) refl)
      | inr without ↦ (r, rw without refl)
    ]

start_realtime-usb : (w : World) (r : RaspaPimpl) → usb_of (start_realtime w r).1 ≡ usb_of r
unfolding start_realtime
start_realtime-usb w r = ground (arith, cleanup-usb w (record r { task_started = false }))

start_realtime-task :
    (w : World) (r : RaspaPimpl)
    → is_failure (start_realtime w r).0 ≡ false
    → (start_realtime w r).1.task_started ≡ true
unfolding start_realtime
start_realtime-task w r h = ground arith

start_usb_streams-UsbIsStarted :
    (w : World) (a : RaspaAlsaUsb)
    → UsbIsStarted w (start_usb_streams w.create_usb_in w.create_usb_out a).1
unfolding start_usb_streams alsa_worker_start
start_usb_streams-UsbIsStarted w a = elim (Bool-cases (is_failure w.create_usb_in)) [
  | inl failed ↦ rw failed (refl, inl refl)
  | inr made_in ↦ elim (Bool-cases (is_failure w.create_usb_out)) [
    | inl failed ↦ rw (made_in, failed) (refl, inl refl)
    | inr made_out ↦ rw (made_in, made_out) (refl, inr (refl, refl))
  ]
]

with_alsa_usb-task :
    (method : Method) (r t : RaspaPimpl)
    → with_alsa_usb method r ≡ some t
    → t.task_started ≡ r.task_started
unfolding with_alsa_usb
with_alsa_usb-task method r t h = ground arith

-- Where the USB audio was set up if the driver has it, starting is defined and returns what
-- `start_realtime` does, and if that is 0 the task is started and the USB streams are as `UsbIsStarted`
-- says.
start_call-defined :
    (P : RaspaAlsaUsb → Type 0) (w : World) (r : RaspaPimpl)
    → UsbHas P r
    → (t : RaspaPimpl) × (start_call w r ≡ some (code (start_realtime w r).0, t))
      × ((is_failure (start_realtime w r).0 ≡ true)
          ⊎ ((t.task_started ≡ true) × UsbHas (UsbIsStarted w) t))
unfolding start_call
start_call-defined P w r has =
    let started = start_realtime w r in
    let streams = start_usb_streams w.create_usb_in w.create_usb_out in
    let still = UsbHas-of P r started.1 (start_realtime-usb w r) has in
    let (t, called) = with_alsa_usb-defined P streams started.1 still in
    elim (Bool-cases (is_failure started.0)) [
      | inl failed ↦ (started.1, rw failed refl, inl failed)
      | inr passed ↦ (
        t,
        rw (passed, called) refl,
        inr (
          with_alsa_usb-task streams started.1 t called ∙ start_realtime-task w r passed,
          with_alsa_usb-has (UsbIsStarted w) streams started.1 t (start_usb_streams-UsbIsStarted w)
              called,
        ),
      )
    ]

close_call-defined :
    (P : RaspaAlsaUsb → Type 0) (w : World) (r : RaspaPimpl)
    → UsbHas P r
    → (answer : Returned) × (t : RaspaPimpl) × (close_call w r ≡ some (answer, t))
unfolding close_call
close_call-defined P w r has =
    let (u, called) = with_alsa_usb-defined P close r has in
    (code (close_device w u).0, (close_device w u).1, rw called refl)

-- After an opening that returned RASPA_SUCCESS, starting and closing are defined. Starting returns
-- what `start_realtime` does, and if that is 0 the task is started and, where the driver has native
-- USB audio, its streams are marked as running, with both threads there unless one could not be made.
-- Closing leaves both of these streams closed and no longer marked as running.
pub opened_calls-defined :
    (w v : World) (buffer_size : ℤ) (callback user_data : ℕ) (signal_on_mode_sw run_log : Bool)
    (r s : RaspaPimpl)
    → open_device w buffer_size callback user_data signal_on_mode_sw run_log r ≡ some (pos 0, s)
    → ((t : RaspaPimpl) × (start_call v s ≡ some (code (start_realtime v s).0, t))
        × ((is_failure (start_realtime v s).0 ≡ true)
            ⊎ ((t.task_started ≡ true) × UsbHas (UsbIsStarted v) t)))
      × ((answer : Returned) × (t : RaspaPimpl) × (close_call v s ≡ some (answer, t))
          × UsbHas UsbIsClosed t)
opened_calls-defined w v buffer_size callback user_data signal_on_mode_sw run_log r s h =
    let (version, size, is_open) =
      open_device-IsOpen w buffer_size callback user_data signal_on_mode_sw run_log r s h in
    let ready =
      IsReady w.alsa (pos_part (float_to_int s.sample_rate)) (pos_part s.buffer_size_in_frames)
        num_alsa_usb_channels in
    let (answer, t, closed) = close_call-defined ready v s is_open.alsa in
    (
      start_call-defined ready v s is_open.alsa,
      (answer, t, closed, close_call-closes v s t answer closed),
    )
