-- ===== src/Api/Usb.antt =====
-- src/raspa_api_wrapper.cpp: what the calls do with the USB audio, where the driver has it.
use raspa.Prelude.{
  ◌≡◌, refl, ap, sym, ◌∙◌, ◌⊎◌, inl, inr, Option, some, true, false, ◌||◌, arith, Bool-cases,
  Option-cases,
}
use raspa.DriverConfig.{UsbAudioType}
use raspa.AlsaUsb.{RaspaAlsaUsb}
use raspa.AlsaUsb.Setup.{Method, close}
use mathlib.Core.Option.{some-injective}
use raspa.Pimpl.State.{World, RaspaPimpl}
use raspa.Pimpl.DriverInfo.{is_native_alsa, close_handle, release_driver_buffers}
use raspa.Pimpl.Buffers.{free_user_buffers}
use raspa.Pimpl.Converters.{deinit_sample_converter}
use raspa.Pimpl.Lifecycle.{stop_rt_task, delete_instances, cleanup, close_device, is_failure}
use raspa.Api.{Returned, close_call, with_alsa_usb}

-- Where the driver has native USB audio, its object is there and has a property.
abbrev pub UsbHas : (RaspaAlsaUsb → Type 0) → RaspaPimpl → Type 0
UsbHas P r =
    (is_native_alsa r.usb_audio_type ≡ false) ⊎ ((a : RaspaAlsaUsb) × (r.alsa_usb ≡ some a) × P a)

abbrev pub UsbIsClosed : RaspaAlsaUsb → Type 0
UsbIsClosed a =
    (a.is_usb_running ≡ false) × (a.pcm_playback_open ≡ false) × (a.pcm_capture_open ≡ false)

-- Marked as running, and if both threads could be made, they are there. A thread that could not be
-- made is not looked at.
abbrev pub UsbIsStarted : World → RaspaAlsaUsb → Type 0
UsbIsStarted w a =
    (a.is_usb_running ≡ true)
    × (((is_failure w.create_usb_in || is_failure w.create_usb_out) ≡ true)
        ⊎ ((a.usb_in_worker ≡ true) × (a.usb_out_worker ≡ true)))

-- What the USB audio is, which most of raspa leaves alone
abbrev pub usb_of : RaspaPimpl → UsbAudioType × Option RaspaAlsaUsb
usb_of r = (r.usb_audio_type, r.alsa_usb)

released-usb : (w : World) (r : RaspaPimpl) → usb_of (release_driver_buffers w r).1 ≡ usb_of r
unfolding release_driver_buffers
released-usb w r = ground arith

closed-usb : (w : World) (r : RaspaPimpl) → usb_of (close_handle w r).1 ≡ usb_of r
unfolding close_handle
closed-usb w r = ground arith

stopped-usb : (w : World) (r : RaspaPimpl) → usb_of (stop_rt_task w r).1 ≡ usb_of r
unfolding stop_rt_task
stopped-usb w r = ground arith

freed-usb : (r : RaspaPimpl) → usb_of (free_user_buffers r) ≡ usb_of r
unfolding free_user_buffers
freed-usb r = ground arith

deleted-usb : (w : World) (r : RaspaPimpl) → usb_of (delete_instances w r) ≡ usb_of r
unfolding delete_instances deinit_sample_converter
deleted-usb w r = ground arith

pub cleanup-usb : (w : World) (r : RaspaPimpl) → usb_of (cleanup w r).1 ≡ usb_of r
unfolding cleanup
cleanup-usb w r =
    let stopped = (stop_rt_task w r).1 in
    let freed = free_user_buffers stopped in
    let released = (release_driver_buffers w freed).1 in
    deleted-usb w (close_handle w released).1
    ∙ closed-usb w released
    ∙ released-usb w freed
    ∙ freed-usb stopped
    ∙ stopped-usb w r

close_device-usb : (w : World) (r : RaspaPimpl) → usb_of (close_device w r).1 ≡ usb_of r
unfolding close_device
close_device-usb w r = ground (arith, cleanup-usb w (record r { stop_request_flag = true }))

-- A call that is defined has found the object, and done its method to it.
pub with_alsa_usb-has :
    (P : RaspaAlsaUsb → Type 0) (method : Method) (r t : RaspaPimpl)
    → ((a : RaspaAlsaUsb) → P (method a).1)
    → with_alsa_usb method r ≡ some t
    → UsbHas P t
unfolding with_alsa_usb
with_alsa_usb-has P method r t done h = elim (Bool-cases (is_native_alsa r.usb_audio_type)) [
  | inl usb ↦ elim (Option-cases r.alsa_usb) [
    | inl null ↦ absurd (ground (arith, rw (usb, null) at h))
    | inr (a, there) ↦
        let e : some (record r { alsa_usb = some ((method a).1) }) ≡ some t =
          rw (usb, there) at h in
        inr ((method a).1, ap (λ (s : RaspaPimpl). s.alsa_usb) (sym (some-injective _ _ e)), done a)
  ]
  | inr without ↦
      let e : some r ≡ some t = rw without at h in
      inl (
        ap (λ (s : RaspaPimpl). is_native_alsa s.usb_audio_type) (sym (some-injective _ _ e))
        ∙ without)
]

pub UsbHas-of :
    (P : RaspaAlsaUsb → Type 0) (r t : RaspaPimpl) → usb_of t ≡ usb_of r → UsbHas P r → UsbHas P t
UsbHas-of P r t e (inl without) =
    inl (ap (λ (u : UsbAudioType × Option RaspaAlsaUsb). is_native_alsa u.0) e ∙ without)
UsbHas-of P r t e (inr (a, there, has)) =
    inr (a, ap (λ (u : UsbAudioType × Option RaspaAlsaUsb). u.1) e ∙ there, has)

pub close_call-result :
    (w : World) (r t : RaspaPimpl) (answer : Returned)
    → close_call w r ≡ some (answer, t)
    → (u : RaspaPimpl) × (with_alsa_usb close r ≡ some u) × (t ≡ (close_device w u).1)
unfolding close_call
close_call-result w r t answer h = elim (Option-cases (with_alsa_usb close r)) [
  | inl null ↦ absurd (ground (arith, rw null at h))
  | inr (u, there) ↦ (u, there, ground (arith, rw there at h))
]

close-UsbIsClosed : (a : RaspaAlsaUsb) → UsbIsClosed (close a).1
unfolding close
close-UsbIsClosed a = (refl, refl, refl)

pub close_call-closes :
    (w : World) (r t : RaspaPimpl) (answer : Returned)
    → close_call w r ≡ some (answer, t)
    → UsbHas UsbIsClosed t
close_call-closes w r t answer h =
    let (u, called, e) = close_call-result w r t answer h in
    let has = with_alsa_usb-has UsbIsClosed close r u close-UsbIsClosed called in
    rw e (UsbHas-of UsbIsClosed u (close_device w u).1 (close_device-usb w u) has)
