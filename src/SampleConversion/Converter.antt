-- ===== src/SampleConversion/Converter.antt =====
-- src/sample_conversion.h: class SampleConverter, one channel's loops over a buffer.
-- A buffer is the list of its cells' bit patterns. `none` is undefined behaviour: an access out of
-- range, or the cast of a NaN.
pub mod Input
pub mod Output
pub mod Passthrough
use raspa.Prelude.{ℕ, zero, suc, ◌+◌, ◌*◌, List, Option, some, none, get_elem?, store, ◌>>=◌}
use raspa.DriverConfig.{CodecFormat}
use raspa.SampleConversion.Codec.{input_sample, output_sample}

-- The template's arguments and the two members.
pub record SampleConverter : Type 0 where
  pub buffer_size_in_frames : ℕ
  pub codec_format : CodecFormat
  pub chan_stride : ℕ
  pub hw_chan_start_index : ℕ
  pub sw_chan_start_index : ℕ

-- The constructor: SampleConverter<size, format, stride>(sw_chan_id, hw_chan_start_index)
unfoldable pub make_sample_converter : ℕ → CodecFormat → ℕ → ℕ → ℕ → SampleConverter
make_sample_converter size format stride sw_chan_id hw_chan_start_index = record {
  buffer_size_in_frames = size;
  codec_format = format;
  chan_stride = stride;
  hw_chan_start_index = hw_chan_start_index;
  sw_chan_start_index = sw_chan_id * size;
}

-- The loop of `codec_format_to_float32n`, with the frames left, `n` and `hw_chan_index`.
unfoldable pub input_loop : SampleConverter → ℕ → ℕ → ℕ → List ℕ → List ℕ → Option (List ℕ)
input_loop c zero n hw_chan_index src dst = some dst
input_loop c (suc left) n hw_chan_index src dst = do
  sample ← get_elem? src hw_chan_index
  dst' ← store dst (c.sw_chan_start_index + n) (input_sample c.codec_format sample)
  input_loop c left (n + 1) (hw_chan_index + c.chan_stride) src dst'

unfoldable pub codec_format_to_float32n : SampleConverter → List ℕ → List ℕ → Option (List ℕ)
unfolding input_loop
codec_format_to_float32n c dst src =
    input_loop c c.buffer_size_in_frames 0 c.hw_chan_start_index src dst

-- The loop of `float32n_to_codec_format`. For BINARY the source computes the same index as
-- `_hw_chan_start_index + n * chan_stride`, and does not move `hw_chan_index`.
unfoldable pub output_index : SampleConverter → ℕ → ℕ → ℕ
output_index c n hw_chan_index = elim c.codec_format [
  | CodecFormat.binary ↦ c.hw_chan_start_index + n * c.chan_stride
  | _ ↦ hw_chan_index
]

unfoldable pub output_step : SampleConverter → ℕ → ℕ
output_step c hw_chan_index = elim c.codec_format [
  | CodecFormat.binary ↦ hw_chan_index
  | _ ↦ hw_chan_index + c.chan_stride
]

unfoldable pub output_loop : SampleConverter → ℕ → ℕ → ℕ → List ℕ → List ℕ → Option (List ℕ)
unfolding output_index output_step
output_loop c zero n hw_chan_index src dst = some dst
output_loop c (suc left) n hw_chan_index src dst = do
  x ← get_elem? src (c.sw_chan_start_index + n)
  word ← output_sample c.codec_format x
  dst' ← store dst (output_index c n hw_chan_index) word
  output_loop c left (n + 1) (output_step c hw_chan_index) src dst'

unfoldable pub float32n_to_codec_format : SampleConverter → List ℕ → List ℕ → Option (List ℕ)
unfolding output_loop
float32n_to_codec_format c dst src =
    output_loop c c.buffer_size_in_frames 0 c.hw_chan_start_index src dst
