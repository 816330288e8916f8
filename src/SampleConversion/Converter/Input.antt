-- ===== src/SampleConversion/Converter/Input.antt =====
-- src/sample_conversion.h: what `codec_format_to_float32n` does to the float buffer.
use raspa.Prelude.{
  ℕ, zero, suc, ◌+◌, ◌*◌, ◌≤◌, ◌<◌, ◌≡◌, refl, ◌⊎◌, ◌∙◌, List, Option, some, arith, length, get_or,
  set, store-eq-set, length-set, get_elem?-eq-get_or, get_or-set_self, get_or-set_ne,
}
use raspa.SampleConversion.Codec.{input_sample}
use raspa.SampleConversion.Converter.{SampleConverter, input_loop, codec_format_to_float32n}

-- The channel's samples of `src` were converted into the converter's part of `dst`, from frame `lo`
-- up to `hi`, and all other cells are as they were.
pub record IsInput (c : SampleConverter) (src dst : List ℕ) (lo hi : ℕ) (result : Option (List ℕ))
    : Type 0 where
  pub out : List ℕ
  pub returns : result ≡ some out
  pub same_length : length out ≡ length dst
  pub inside :
      (i : ℕ)
      → lo ≤ i
      → i < hi
      → get_or out (c.sw_chan_start_index + i) 0
        ≡ input_sample c.codec_format (get_or src (c.hw_chan_start_index + i * c.chan_stride) 0)
  pub outside :
      (j : ℕ)
      → (j < c.sw_chan_start_index + lo) ⊎ (c.sw_chan_start_index + hi ≤ j)
      → get_or out j 0 ≡ get_or dst j 0

-- The converter's frames lie within both buffers.
pub record FitsInput (c : SampleConverter) (src dst : List ℕ) : Type 0 where
  pub reads :
      (i : ℕ) → i < c.buffer_size_in_frames → c.hw_chan_start_index + i * c.chan_stride < length src
  pub writes : c.sw_chan_start_index + c.buffer_size_in_frames ≤ length dst

module _ (c : SampleConverter) (src : List ℕ) where
  abbrev cell : ℕ → ℕ
  cell i = input_sample c.codec_format (get_or src (c.hw_chan_start_index + i * c.chan_stride) 0)

  input_loop-suc :
      (left n : ℕ) (dst : List ℕ)
      → c.hw_chan_start_index + n * c.chan_stride < length src
      → c.sw_chan_start_index + n < length dst
      → input_loop c (suc left) n (c.hw_chan_start_index + n * c.chan_stride) src dst
        ≡ input_loop c left
            (n + 1)
            (c.hw_chan_start_index + n * c.chan_stride + c.chan_stride)
            src
            (set dst (c.sw_chan_start_index + n) (cell n))
  unfolding input_loop
  input_loop-suc left n dst reads writes =
      rw (get_elem?-eq-get_or src _ 0 reads) (rw (store-eq-set dst _ _ writes))

  IsInput-set :
      {n hi : ℕ} {dst : List ℕ} {r : Option (List ℕ)}
      → n < hi
      → c.sw_chan_start_index + n < length dst
      → IsInput c src (set dst (c.sw_chan_start_index + n) (cell n)) (n + 1) hi r
      → IsInput c src dst n hi r
  IsInput-set {n} {dst} below in_range rest = record {
    out = rest.out;
    returns = rest.returns;
    same_length = rest.same_length ∙ length-set dst (c.sw_chan_start_index + n) (cell n);
    inside = λ i p q. ground (
      arith,
      rest.inside i,
      rest.outside (c.sw_chan_start_index + i),
      get_or-set_self dst (c.sw_chan_start_index + n) (cell n) 0,
    );
    outside = λ j p.
        ground (arith, rest.outside j, get_or-set_ne dst (c.sw_chan_start_index + n) j (cell n) 0);
  }

  input_loop-IsInput :
      (left n hw : ℕ) (dst : List ℕ)
      → n + left ≡ c.buffer_size_in_frames
      → hw ≡ c.hw_chan_start_index + n * c.chan_stride
      → FitsInput c src dst
      → IsInput c src dst n c.buffer_size_in_frames (input_loop c left n hw src dst)
  input_loop-IsInput zero n hw dst e at fits = record {
    out = dst;
    returns = unfold input_loop in refl;
    same_length = refl;
    inside = λ i p q. absurd (omega arith);
    outside = λ j p. refl;
  }
  input_loop-IsInput (suc left) n hw dst e at fits =
      let read = fits.reads n (omega arith) in
      let write : c.sw_chan_start_index + n < length dst = omega (arith, fits.writes) in
      let next =
        input_loop-IsInput left (n + 1) (c.hw_chan_start_index + n * c.chan_stride + c.chan_stride)
          (set dst (c.sw_chan_start_index + n) (cell n)) (omega arith) (omega arith)
          (record { reads = fits.reads; writes = rw length-set fits.writes }) in
      rw at (rw (input_loop-suc left n dst read write) (IsInput-set (omega arith) write next))

-- With frames that lie within both buffers, `codec_format_to_float32n` accesses nothing out of
-- range, converts each frame of its channel into its part of the float buffer, and changes no other
-- cell.
pub codec_format_to_float32n-IsInput :
    (c : SampleConverter) (dst src : List ℕ)
    → FitsInput c src dst
    → IsInput c src dst 0 c.buffer_size_in_frames (codec_format_to_float32n c dst src)
unfolding codec_format_to_float32n
codec_format_to_float32n-IsInput c dst src fits =
    input_loop-IsInput c src c.buffer_size_in_frames 0 c.hw_chan_start_index dst (omega arith)
      (omega arith) fits
