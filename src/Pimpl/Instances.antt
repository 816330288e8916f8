-- ===== src/Pimpl/Instances.antt =====
-- src/raspa_pimpl.h: the instances that the stages of `open_device` make.
use raspa.Prelude.{ℕ, ◌≡◌, ap, ◌∙◌, inl, inr, List, Option, some, Bool, arith, Bool-cases}
use mathlib.Core.Option.{some-injective}
use mathlib.Core.Path.{subst}
use raspa.Prelude.Int.{ℤ}
use raspa.SampleConversion.Converter.{SampleConverter}
use raspa.GpioCom.{RaspaGpioCom}
use raspa.RunLogger.{RunLogger}
use raspa.Pimpl.State.{World, RaspaPimpl, Step, and_then, and_then_option}
use raspa.Pimpl.Converters.{
  init_sample_converter, init_all_converters, init_input_converters, init_output_converters,
  init_usb_converters,
}
use raspa.Pimpl.Lifecycle.{
  after_cleanup, init_gpio_com, init_alsa_usb, start_run_logger, set_callback,
  init_delay_error_filter, open_logger,
}
use raspa.Pimpl.Cleanup.{
  IsConsistent, IsReleased, NoInstances, instances, cleanup-IsReleased, is_set,
}

-- A property that holds wherever a chain ends
pub and_then-Ends :
    (P : RaspaPimpl → Type 0) (fails : ℤ → Bool) (on_failure : RaspaPimpl → RaspaPimpl)
    (step : Step) (next : RaspaPimpl → Step)
    → P (on_failure step.1)
    → P (next step.1).1
    → P (and_then fails on_failure step next).1
and_then-Ends P fails on_failure step next failing going = elim (Bool-cases (fails step.0)) [
  | inl failed ↦ rw failed failing
  | inr passed ↦ rw passed going
]

abbrev pub Ends : (RaspaPimpl → Type 0) → Option Step → Type 0
Ends P o = (step : Step) → o ≡ some step → P step.1

pub and_then_option-Ends :
    (P : RaspaPimpl → Type 0) (fails : ℤ → Bool) (on_failure : RaspaPimpl → RaspaPimpl)
    (step : Step) (next : RaspaPimpl → Option Step)
    → P (on_failure step.1)
    → Ends P (next step.1)
    → Ends P (and_then_option fails on_failure step next)
and_then_option-Ends P fails on_failure step next failing going done h =
    elim (Bool-cases (fails step.0)) [
      | inl failed ↦
          let e : some (step.0, on_failure step.1) ≡ some done = rw failed at h in
          subst (λ (s : Step). P s.1) (some-injective _ _ e) failing
      | inr passed ↦ going done (rw passed at h)
    ]

-- The instances themselves, whatever the platform and the flags
abbrev pub held :
    RaspaPimpl
    → (Option RaspaGpioCom × Bool × RunLogger)
      × (List (Option SampleConverter) × List (Option SampleConverter))
held r = (
  (r.gpio_com, r.delay_error_filter, r.run_logger),
  (r.input_usb_sample_converter, r.output_usb_sample_converter),
)

pub NoInstances-of : (r t : RaspaPimpl) → held t ≡ held r → NoInstances r → NoInstances t
NoInstances-of r t e ((filter, gpio), (running, stream), (usb_in, usb_out)) = (
  (ap (λ i. i.0.1) e ∙ filter, ap (λ i. is_set i.0.0) e ∙ gpio),
  (ap (λ i. i.0.2.is_running) e ∙ running, ap (λ i. i.0.2.stream_open) e ∙ stream),
  (ap (λ i. i.1.0) e ∙ usb_in, ap (λ i. i.1.1) e ∙ usb_out),
)

pub NoInstances-IsConsistent : (r : RaspaPimpl) → NoInstances r → IsConsistent r
NoInstances-IsConsistent r ((filter, gpio), (running, stream), (usb_in, usb_out)) = record {
  gpio = ground (arith, gpio);
  filter = ground (arith, filter);
  usb_input = ground (arith, usb_in);
  usb_output = ground (arith, usb_out);
  logger = ground (arith, running);
  log_stream = ground (arith, stream);
}

pub IsReleased-NoInstances : (r : RaspaPimpl) → IsReleased r → NoInstances r
IsReleased-NoInstances r h =
    ((h.no_filter, h.no_gpio), (h.no_logger, h.no_log_stream), (h.no_usb_input, h.no_usb_output))

pub cleanup-IsConsistent :
    (w : World) (r : RaspaPimpl) → IsConsistent r → IsConsistent (after_cleanup w r)
cleanup-IsConsistent w r h =
    NoInstances-IsConsistent (after_cleanup w r)
      (IsReleased-NoInstances (after_cleanup w r) (cleanup-IsReleased w r h))

pub init_sample_converter-IsConsistent :
    (w : World) (r : RaspaPimpl) → NoInstances r → IsConsistent (init_sample_converter w r).1
unfolding init_sample_converter init_all_converters init_input_converters init_output_converters
    init_usb_converters
init_sample_converter-IsConsistent w r ((filter, gpio), (running, stream), (usb_in, usb_out)) =
    record {
      gpio = ground (arith, gpio);
      filter = ground (arith, filter);
      usb_input = ground (arith, usb_in);
      usb_output = ground (arith, usb_out);
      logger = ground (arith, running);
      log_stream = ground (arith, stream);
    }

pub init_delay_error_filter-IsConsistent :
    (r : RaspaPimpl) → IsConsistent r → IsConsistent (init_delay_error_filter r)
unfolding init_delay_error_filter
init_delay_error_filter-IsConsistent r h = record {
  gpio = ground (arith, h.gpio);
  filter = ground (arith, h.filter);
  usb_input = ground (arith, h.usb_input);
  usb_output = ground (arith, h.usb_output);
  logger = ground (arith, h.logger);
  log_stream = ground (arith, h.log_stream);
}

pub init_gpio_com-IsConsistent :
    (w : World) (r : RaspaPimpl) → IsConsistent r → IsConsistent (init_gpio_com w r).1
unfolding init_gpio_com
init_gpio_com-IsConsistent w r h = record {
  gpio = ground (arith, h.gpio);
  filter = ground (arith, h.filter);
  usb_input = ground (arith, h.usb_input);
  usb_output = ground (arith, h.usb_output);
  logger = ground (arith, h.logger);
  log_stream = ground (arith, h.log_stream);
}

pub init_alsa_usb-instances :
    (w : World) (r : RaspaPimpl) → instances (init_alsa_usb w r).1 ≡ instances r
unfolding init_alsa_usb
init_alsa_usb-instances w r = ground arith

pub open_logger-IsConsistent :
    (w : World) (callback user_data : ℕ) (r : RaspaPimpl)
    → IsConsistent r
    → IsConsistent (open_logger w callback user_data r).1
unfolding open_logger start_run_logger set_callback
open_logger-IsConsistent w callback user_data r h = record {
  gpio = ground (arith, h.gpio);
  filter = ground (arith, h.filter);
  usb_input = ground (arith, h.usb_input);
  usb_output = ground (arith, h.usb_output);
  logger = ground (arith, h.logger);
  log_stream = ground (arith, h.log_stream);
}
