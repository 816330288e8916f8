-- ===== src/Pimpl/RtTests.antt =====
-- Runs of the real time thread's loops, and the theorems about them at them.
use raspa.Prelude.{
  ℕ, map, ◌*◌, ◌+◌, ◌%◌, ◌≡◌, refl, ◌⊎◌, inl, inr, List, [], ◌∷◌, none, some, true, false, ◌==◌,
  if◌then◌else◌, get_elem?, arith,
}
use raspa.Prelude.Int.{pos, ltb_ℤ}
use raspa.GpioCom.Bounded.{bounded}
use raspa.DriverConfig.{int24_lj}
use raspa.SampleConversion.Converter.{SampleConverter}
use raspa.Pimpl.State.{RaspaPimpl, raspa_pimpl}
use raspa.Pimpl.Tests.{world}
use raspa.Pimpl.Buffers.{InAudio, fits_mapping, clear_fits}
use raspa.Pimpl.UserCallback.{Period, convert_input}
use raspa.Pimpl.UserInput.{IsConverted, convert_input-IsConverted}
use raspa.Pimpl.Packets.{Protocol}
use raspa.Pimpl.RtLoop.{
  Interrupt, interrupt, stop_request, Rt, rt_loop_native, rt_loop_async, rt_loop_sync, settle,
  delay_filter_settling_constant,
}
use raspa.Pimpl.Downsampling.{corrections, corrections-periodic}
use raspa.Pimpl.Stopping.{IsSilent, stopped_loops-IsSilent, user_side}
use raspa.Pimpl.Settling.{settle-settles, stopped_sync-IsSilent}

-- Two frames of two channels
abbrev mapped : RaspaPimpl
mapped = record raspa_pimpl {
  mmap_initialized = true;
  driver_memory = λ (i : ℕ). 9;
  kernel_buffer_mem_size = 72;
  driver_buffer_size = 4;
  driver_buffers = record (raspa_pimpl.driver_buffers) {
    audio_in_1 = 4;
    audio_out_0 = 8;
    audio_out_1 = 12;
    cv_out = 16;
    cv_in = 17;
  };
  stop_request_flag = true;
  interrupts_counter = pos 100;
}

-- The third word of the first output buffer
abbrev third_out : InAudio mapped.driver_buffers 4 0 10
third_out = (2, omega arith, omega arith, inr (inr (inl refl)))

abbrev pub protocol : Protocol
protocol = record {
  has_magic_words = λ (memory : ℕ → ℕ) (at : ℕ). true;
  num_gpio_blobs = λ (memory : ℕ → ℕ) (at : ℕ). 1;
  gpio_blob = λ (memory : ℕ → ℕ) (at i : ℕ). 5;
  gate_in_val = λ (memory : ℕ → ℕ) (at : ℕ). 3;
  create_default = λ (at : ℕ) (memory : ℕ → ℕ). memory;
  prepare_cease = λ (at : ℕ) (memory : ℕ → ℕ). memory;
  prepare_gpio_cmd = λ (at : ℕ) (blobs : List ℕ) (memory : ℕ → ℕ). memory;
  set_gate_out = λ (at value : ℕ) (memory : ℕ → ℕ). memory;
  max_num_gpio_blobs = 2;
}

abbrev pub period : Period
period = record {
  process = λ (user_in user_out : List ℕ). (user_in, user_in);
  usb_in = none;
  usb_out = [];
  start_time = 0;
  end_time = 1;
}

abbrev pub irq : Interrupt
irq = record {
  wait_result = pos 0;
  second_buffer = false;
  arrives = λ (memory : ℕ → ℕ) (at : ℕ). memory at + 5;
  filter_output = pos 7;
  finished_result = pos 0;
  period = period;
}

abbrev stopping : Rt bounded protocol
stopping = record { pimpl = mapped; to_rt = 4 ∷ []; from_rt = []; replies = []; usb_sent = [] }

-- They lie within the 18 words of the mapping.
fits : fits_mapping world stopping.pimpl ≡ true
unfolding clear_fits
fits = refl

stopped_loops-IsSilent_example :
    ((t : Rt bounded protocol) × (rt_loop_native bounded protocol world
          (interrupt irq ∷ interrupt irq ∷ [])
          stopping
        ≡ some t)
      × IsSilent bounded protocol stopping t 10)
    × ((t : Rt bounded protocol) × (rt_loop_async bounded protocol world
            (interrupt irq ∷ interrupt irq ∷ [])
            stopping
          ≡ some t)
        × IsSilent bounded protocol stopping t 10)
stopped_loops-IsSilent_example =
    stopped_loops-IsSilent bounded protocol world irq (interrupt irq ∷ []) stopping 10 refl refl
      fits refl third_out

stopped_sync-IsSilent_example :
    (t : Rt bounded protocol) × (rt_loop_sync bounded protocol world
        (interrupt irq ∷ stop_request ∷ [])
        stopping
      ≡ some t)
    × IsSilent bounded protocol stopping t 10
stopped_sync-IsSilent_example =
    stopped_sync-IsSilent bounded protocol world irq (stop_request ∷ []) stopping 10 refl refl fits
      refl refl third_out

abbrev starting : Rt bounded protocol
starting = record { pimpl = raspa_pimpl; to_rt = []; from_rt = []; replies = []; usb_sent = [] }

settle-settles_example :
    let (left, settled) = settle bounded protocol (interrupt irq ∷ stop_request ∷ []) starting in
    (user_side settled.pimpl ≡ user_side raspa_pimpl)
    × (settled.usb_sent ≡ [])
    × ((true ≡ false)
        ⊎ ((left ≡ [])
            ⊎ (ltb_ℤ settled.pimpl.interrupts_counter delay_filter_settling_constant ≡ false)))
settle-settles_example =
    settle-settles bounded protocol (interrupt irq ∷ stop_request ∷ []) starting

corrections-periodic_example :
    get_elem? (corrections (pos 3 ∷ pos 4 ∷ []) 14) 1
    ≡ some (if (14 + 1 + 1) % 16 == 0 then pos 4 else pos 0)
corrections-periodic_example =
    corrections-periodic (pos 3 ∷ pos 4 ∷ []) 14 1 (pos 4) (omega arith) refl

-- Two frames of two channels, side by side
abbrev pub channel : ℕ → SampleConverter
channel i = record {
  buffer_size_in_frames = 2;
  codec_format = int24_lj;
  chan_stride = 2;
  hw_chan_start_index = i;
  sw_chan_start_index = i * 2;
}

convert_input-IsConverted_example :
    IsConverted 2 0 (channel 0 ∷ channel 1 ∷ []) (1 ∷ 2 ∷ 3 ∷ 4 ∷ []) (0 ∷ 0 ∷ 0 ∷ 0 ∷ []) (
      convert_input
        (map some (channel 0 ∷ channel 1 ∷ []))
        (1 ∷ 2 ∷ 3 ∷ 4 ∷ [])
        (0 ∷ 0 ∷ 0 ∷ 0 ∷ []))
convert_input-IsConverted_example =
    convert_input-IsConverted 2 0 (channel 0 ∷ channel 1 ∷ []) (1 ∷ 2 ∷ 3 ∷ 4 ∷ [])
      (0 ∷ 0 ∷ 0 ∷ 0 ∷ [])
      (refl, refl, λ i p. omega arith, (refl, refl, λ i p. omega arith, omega arith))
