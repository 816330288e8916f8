-- ===== src/Pimpl/PeriodTests.antt =====
-- A period of two channels with two frames, and the theorems about it and about the layout at it.
use raspa.Prelude.{
  ℕ, ◌+◌, ◌*◌, ◌-◌, ◌<◌, ◌≡◌, refl, List, [], ◌∷◌, some, map, arith, length, get_or, zero, leb, suc,
  true,
}
use raspa.Prelude.Memory.{words_at, length-words_at}
use raspa.DriverConfig.{int24_lj, native}
use raspa.SampleConversion.Converter.{SampleConverter}
use raspa.SampleConversion.Formats.{IsCodecWord}
use raspa.Pimpl.State.{RaspaPimpl, raspa_pimpl}
use raspa.Pimpl.Queries.{init}
use raspa.Pimpl.DriverMemory.{samples_of, needed_bytes, is_defined, set_driver_buffers-defined}
use raspa.Pimpl.Layout.{driver_buffer_size_in_samples}
use raspa.Pimpl.Buffers.{set_driver_buffers}
use raspa.Pimpl.UserCallback.{perform_user_callback}
use raspa.Pimpl.UserOutput.{IsApart}
use raspa.Pimpl.UserInput.{AreRows}
use raspa.Pimpl.Pairing.{ArePaired}
use raspa.Pimpl.UserPeriod.{PassesThrough, perform_user_callback-PassesThrough}
use raspa.Pimpl.RtTests.{period, channel}
use raspa.Pimpl.Tests.{world}
use raspa.Prelude.Int.{pos}

abbrev pub zeros : List ℕ
zeros = 0 ∷ 0 ∷ 0 ∷ 0 ∷ []

-- The first output is wired to the second place, and the second to the first.
abbrev pub crossed : ℕ → SampleConverter
crossed i = record (channel i) { hw_chan_start_index = 1 - i }

-- The input buffer is at word 0 and the output buffer at word 8.
abbrev pub ready : RaspaPimpl
ready = record raspa_pimpl {
  mmap_initialized = true;
  driver_memory = λ (i : ℕ). i * 256;
  driver_buffer_size = 4;
  user_audio_in = some zeros;
  user_audio_out = some zeros;
  input_sample_converter = map some (channel 0 ∷ channel 1 ∷ []);
  output_sample_converter = map some (crossed 0 ∷ crossed 1 ∷ []);
}

crossed-IsApart : IsApart (crossed 0) (crossed 1 ∷ [])
crossed-IsApart zero i j d e p q same =
    let other : d ≡ crossed 1 = cc e in
    let odd : 1 + i * 2 ≡ 0 + j * 2 = rw other at same in absurd (omega arith)
crossed-IsApart (suc k) i j d e p q same = absurd (ground (arith, e))

none_left : (c : SampleConverter) → IsApart c []
none_left c k i j d e p q same = absurd (ground (arith, e))

first_channel :
    (i : ℕ)
    → i < 2
    → (1 + i * 2 < 4)
      × IsCodecWord int24_lj (get_or (words_at ready.driver_memory 0 4) (0 + i * 2) 0)
unfolding words_at
first_channel zero h = (omega arith, (omega arith, omega arith))
first_channel (suc zero) h = (omega arith, (omega arith, omega arith))
first_channel (suc (suc i)) h = absurd (omega arith)

second_channel :
    (i : ℕ)
    → i < 2
    → (0 + i * 2 < 4)
      × IsCodecWord int24_lj (get_or (words_at ready.driver_memory 0 4) (1 + i * 2) 0)
unfolding words_at
second_channel zero h = (omega arith, (omega arith, omega arith))
second_channel (suc zero) h = (omega arith, (omega arith, omega arith))
second_channel (suc (suc i)) h = absurd (omega arith)

reads :
    (i : ℕ)
    → i < 2
    → (0 + i * 2 < length (words_at ready.driver_memory 0 4))
      × (1 + i * 2 < length (words_at ready.driver_memory 0 4))
reads i h = omega (arith, length-words_at ready.driver_memory 0 4)

pub channels-AreRows :
    AreRows 2 0 (channel 0 ∷ channel 1 ∷ []) (words_at ready.driver_memory 0 4) zeros
channels-AreRows =
    (refl, refl, λ i p. (reads i p).0, (refl, refl, λ i p. (reads i p).1, omega arith))

pub channels-ArePaired :
    ArePaired 2 0
      (channel 0 ∷ channel 1 ∷ [])
      (crossed 0 ∷ crossed 1 ∷ [])
      (words_at ready.driver_memory 0 4)
      4
channels-ArePaired = (
  (refl, refl, omega arith, refl),
  (λ e. cc, (λ e. cc, λ e. cc)),
  first_channel,
  crossed-IsApart,
  (
    (refl, refl, omega arith, refl),
    (λ e. cc, (λ e. cc, λ e. cc)),
    second_channel,
    none_left (crossed 1),
    tt,
  ),
)

perform_user_callback-PassesThrough_example :
    PassesThrough 2 0 8
      (channel 0 ∷ channel 1 ∷ [])
      (crossed 0 ∷ crossed 1 ∷ [])
      ready
      (perform_user_callback period 0 8 ready)
perform_user_callback-PassesThrough_example =
    perform_user_callback-PassesThrough period 2 0 8 (channel 0 ∷ channel 1 ∷ [])
      (crossed 0 ∷ crossed 1 ∷ []) ready zeros zeros refl refl refl refl refl (λ x h. refl)
      channels-AreRows channels-ArePaired

-- 512 frames of 16 channels, in 20 pages of 4096 bytes
abbrev large : RaspaPimpl
large = record raspa_pimpl {
  mmap_initialized = true;
  kernel_buffer_mem_size = 81920;
  buffer_size_in_frames = pos 512;
  num_driver_input_chans = pos 16;
  num_driver_output_chans = pos 16;
}

large-samples : samples_of large ≡ 8192
unfolding driver_buffer_size_in_samples
large-samples = refl

large-planned : large.kernel_buffer_mem_size ≡ (init 4096 large).1.kernel_buffer_mem_size
unfolding init
large-planned = refl

set_driver_buffers-defined_example :
    is_defined (set_driver_buffers world large)
    ≡ leb (needed_bytes world.packet_sizes native (samples_of large)) (20 * 4096)
set_driver_buffers-defined_example =
    set_driver_buffers-defined world 4096 large refl large-planned (omega (arith, large-samples))
