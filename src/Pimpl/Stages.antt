-- ===== src/Pimpl/Stages.antt =====
-- src/raspa_pimpl.h: the stages of `open_device` that end well, each as the fields that it changes.
use raspa.Prelude.{
  ℕ, ◌≡◌, refl, inl, inr, List, Option, none, some, Bool, true, false, ◌||◌, arith, Bool-cases,
  Option-cases, sym, replicate,
}
use raspa.Prelude.Int.{pos, pos_part}
use raspa.GpioCom
use raspa.GpioCom.{SocketCalls, RaspaGpioCom, raspa_gpio_com}
use raspa.ErrorCodes.{ErrorVals}
use raspa.Pimpl.State.{World, RaspaPimpl, Step}
use raspa.Pimpl.DriverInfo.{is_native, open_handle, get_driver_buffers}
use raspa.Pimpl.Buffers.{
  set_driver_buffers, init_user_buffers, memalign_result, clear_driver_buffers-eq,
}
use raspa.Pimpl.Layout.{DriverBuffers, num_user_audio_samples}
use mathlib.Core.Option.{some-injective}
use raspa.Pimpl.Converters.{is_negative}
use raspa.Pimpl.Lifecycle.{init_gpio_com}

abbrev pub gpio_is_running : Option RaspaGpioCom → Bool
gpio_is_running none = false
gpio_is_running (some gpio) = gpio.is_running

pub open_handle-success :
    (w : World) (r : RaspaPimpl)
    → is_negative (open_handle w r).0 ≡ false
    → (open_handle w r).1 ≡ record r { device_handle = w.open_result; device_opened = true }
unfolding open_handle
open_handle-success w r h = ground arith

pub get_driver_buffers-success :
    (w : World) (r : RaspaPimpl)
    → is_negative (get_driver_buffers w r).0 ≡ false
    → (memory : ℕ → ℕ) × ((get_driver_buffers w r).1
        ≡ record r { driver_memory = memory; mmap_initialized = true })
unfolding get_driver_buffers
get_driver_buffers-success w r h = elim (Option-cases w.mmap_memory) [
  | inl failed ↦ absurd (let e : true ≡ false = rw failed at h in cc e)
  | inr (memory, mapped) ↦ (memory, rw mapped refl)
]

-- The user's buffers as they are once they are allocated, all zeros
abbrev pub zeros_of : RaspaPimpl → List ℕ
zeros_of r =
    replicate
      (num_user_audio_samples r.usb_audio_type (pos_part r.buffer_size_in_frames)
        r.driver_buffer_size)
      0

pub init_user_buffers-success :
    (w : World) (r : RaspaPimpl) (step : Step)
    → init_user_buffers w r ≡ some step
    → step ≡ (
      pos 0,
      record r {
        user_audio_in = some (zeros_of r);
        user_audio_out = some (zeros_of r);
        user_buffers_allocated = true;
      },
    )
unfolding init_user_buffers memalign_result
init_user_buffers-success w r step h = elim (Bool-cases w.memalign_in) [
  | inl first ↦ elim (Bool-cases w.memalign_out) [
    | inl second ↦ sym (some-injective _ _ (rw (first, second) at h))
    | inr failed ↦ absurd (ground (arith, rw (first, failed) at h))
  ]
  | inr failed ↦ absurd (ground (arith, rw failed at h))
]

init-runs :
    (calls : SocketCalls) (gpio : RaspaGpioCom) (vals : ErrorVals)
    → (GpioCom.init calls gpio vals).0 ≡ pos 0
    → (GpioCom.init calls gpio vals).1.is_running ≡ true
unfolding GpioCom.init
init-runs calls gpio vals h = ground arith

pub init_gpio_com-success :
    (w : World) (r : RaspaPimpl)
    → (init_gpio_com w r).0 ≡ pos 0
    → (gpio : Option RaspaGpioCom) × (vals : ErrorVals) × ((init_gpio_com w r).1
        ≡ record r { gpio_com = gpio; error_vals = vals })
      × ((is_native r.platform_type || gpio_is_running gpio) ≡ true)
unfolding init_gpio_com
init_gpio_com-success w r h = elim (Bool-cases (is_native r.platform_type)) [
  | inl without ↦ (r.gpio_com, r.error_vals, rw without refl, rw without refl)
  | inr with_gpio ↦
      let (res, gpio, vals) = GpioCom.init w.sockets raspa_gpio_com r.error_vals in
      (
        some gpio,
        vals,
        rw with_gpio refl,
        rw with_gpio (init-runs w.sockets raspa_gpio_com r.error_vals (rw with_gpio at h)),
      )
]

pub set_driver_buffers-eq :
    (w : World) (r t : RaspaPimpl)
    → set_driver_buffers w r ≡ some t
    → (memory : ℕ → ℕ) × (size : ℕ) × (places : DriverBuffers) × (t
        ≡ record r { driver_memory = memory; driver_buffer_size = size; driver_buffers = places })
unfolding set_driver_buffers
set_driver_buffers-eq w r t h =
    let (memory, e) = clear_driver_buffers-eq w _ t h in (memory, _, _, e)
