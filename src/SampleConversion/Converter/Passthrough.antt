-- ===== src/SampleConversion/Converter/Passthrough.antt =====
-- src/sample_conversion.h: a channel that goes through the float buffer and back.
use raspa.Prelude.{ℕ, ◌+◌, ◌*◌, ◌<◌, ◌≢◌, List, arith, length, get_or, ◌>>=◌}
use raspa.DriverConfig.{int32}
use raspa.DriverConfig.Version.{IsSampleFormat}
use raspa.SampleConversion.Formats.{IsCodecWord}
use raspa.SampleConversion.Passthrough.{output_sample-input_sample}
use raspa.SampleConversion.Converter.{
  SampleConverter, codec_format_to_float32n, float32n_to_codec_format,
}
use raspa.SampleConversion.Converter.Input.{FitsInput, codec_format_to_float32n-IsInput}
use raspa.SampleConversion.Converter.Output.{IsOutput, float32n_to_codec_format-IsOutput}

-- Both buffers of one channel hold the converter's frames, and the codec's words have its format.
pub record FitsChannel (c : SampleConverter) (floats src dst : List ℕ) : Type 0 where
  pub input : FitsInput c src floats
  pub apart : 0 < c.chan_stride
  pub writes :
      (i : ℕ) → i < c.buffer_size_in_frames → c.hw_chan_start_index + i * c.chan_stride < length dst
  pub formats :
      (i : ℕ)
      → i < c.buffer_size_in_frames
      → IsCodecWord c.codec_format (get_or src (c.hw_chan_start_index + i * c.chan_stride) 0)

-- For every sample format but INT32, with a positive stride, frames that lie within the three
-- buffers and source words of the format (a left justified word has its low byte 0, say): a channel
-- that is converted into the float buffer and from it into an output buffer arrives there word for
-- word, and no other word of the output changes.
pub passthrough :
    (c : SampleConverter) (floats src dst : List ℕ)
    → c.codec_format ≢ int32
    → IsSampleFormat c.codec_format
    → FitsChannel c floats src dst
    → IsOutput c
        (λ i. get_or src (c.hw_chan_start_index + i * c.chan_stride) 0)
        dst
        0
        c.buffer_size_in_frames
        (codec_format_to_float32n c floats src >>= float32n_to_codec_format c dst)
passthrough c floats src dst exact real fits =
    let v = codec_format_to_float32n-IsInput c floats src fits.input in
    rw v.returns (
      float32n_to_codec_format-IsOutput c _ dst v.out (record {
        apart = fits.apart;
        reads = rw v.same_length fits.input.writes;
        writes = fits.writes;
        words = λ i h.
            rw (v.inside i (omega arith) h)
              (output_sample-input_sample c.codec_format _ exact real (fits.formats i h));
      }))
