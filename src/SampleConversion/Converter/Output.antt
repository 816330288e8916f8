-- ===== src/SampleConversion/Converter/Output.antt =====
-- src/sample_conversion.h: what `float32n_to_codec_format` does to the codec's buffer.
use raspa.Prelude.{
  ℕ, zero, suc, ◌+◌, ◌*◌, ◌≤◌, ◌<◌, ◌≡◌, ◌≢◌, refl, ◌∙◌, sym, List, Option, some, arith, length,
  get_or, set, store-eq-set, length-set, get_elem?-eq-get_or, get_or-set_self, get_or-set_ne,
}
use native.Mathlib.Nat.{mul-lt-mul_of_pos_right}
use native.Mathlib.Decide.{dec_lt}
use raspa.SampleConversion.Codec.{output_sample}
use raspa.SampleConversion.Converter.{
  SampleConverter, output_index, output_step, output_loop, float32n_to_codec_format,
}

-- Both branches of the loop write frame `n` at the same index.
output_index_next :
    (c : SampleConverter) (n hw : ℕ)
    → output_index c n hw ≡ c.hw_chan_start_index + n * c.chan_stride
    → output_index c (n + 1) (output_step c hw) ≡ c.hw_chan_start_index + (n + 1) * c.chan_stride
unfolding output_index output_step
output_index_next c n hw h = ground arith

output_index_first :
    (c : SampleConverter)
    → output_index c 0 c.hw_chan_start_index ≡ c.hw_chan_start_index + 0 * c.chan_stride
unfolding output_index
output_index_first c = ground arith

-- Frames `lo` up to `hi` of the channel hold the words in `dst`, and all other words are as they
-- were.
pub record IsOutput (c : SampleConverter) (word : ℕ → ℕ) (dst : List ℕ) (lo hi : ℕ)
    (result : Option (List ℕ)) : Type 0 where
  pub out : List ℕ
  pub returns : result ≡ some out
  pub same_length : length out ≡ length dst
  pub inside :
      (i : ℕ) → lo ≤ i → i < hi → get_or out (c.hw_chan_start_index + i * c.chan_stride) 0 ≡ word i
  pub outside :
      (j : ℕ)
      → ((i : ℕ) → lo ≤ i → i < hi → j ≢ c.hw_chan_start_index + i * c.chan_stride)
      → get_or out j 0 ≡ get_or dst j 0

-- The converter's frames lie within both buffers, its words lie apart, and every float of the
-- channel has a word, as it has unless it is a NaN.
pub record FitsOutput (c : SampleConverter) (word : ℕ → ℕ) (src dst : List ℕ) : Type 0 where
  pub apart : 0 < c.chan_stride
  pub reads : c.sw_chan_start_index + c.buffer_size_in_frames ≤ length src
  pub writes :
      (i : ℕ) → i < c.buffer_size_in_frames → c.hw_chan_start_index + i * c.chan_stride < length dst
  pub words :
      (i : ℕ)
      → i < c.buffer_size_in_frames
      → output_sample c.codec_format (get_or src (c.sw_chan_start_index + i) 0) ≡ some (word i)

module _ (c : SampleConverter) (word : ℕ → ℕ) (src : List ℕ) where
  abbrev place : ℕ → ℕ
  place i = c.hw_chan_start_index + i * c.chan_stride

  place-ne : (n i : ℕ) → 0 < c.chan_stride → n < i → place n ≢ place i
  place-ne n i apart below e =
      absurd (omega (arith, mul-lt-mul_of_pos_right {k = c.chan_stride} below apart))

  output_loop-suc :
      (left n hw : ℕ) (dst : List ℕ)
      → c.sw_chan_start_index + n < length src
      → output_sample c.codec_format (get_or src (c.sw_chan_start_index + n) 0) ≡ some (word n)
      → output_index c n hw ≡ place n
      → place n < length dst
      → output_loop c (suc left) n hw src dst
        ≡ output_loop c left (n + 1) (output_step c hw) src (set dst (place n) (word n))
  unfolding output_loop
  output_loop-suc left n hw dst reads sample at writes =
      rw (get_elem?-eq-get_or src _ 0 reads) (rw sample (rw at (rw (store-eq-set dst _ _ writes))))

  IsOutput-set :
      {n hi : ℕ} {dst : List ℕ} {r : Option (List ℕ)}
      → n < hi
      → 0 < c.chan_stride
      → place n < length dst
      → IsOutput c word (set dst (place n) (word n)) (n + 1) hi r
      → IsOutput c word dst n hi r
  IsOutput-set {n} {dst} below apart in_range rest = record {
    out = rest.out;
    returns = rest.returns;
    same_length = rest.same_length ∙ length-set dst (place n) (word n);
    inside = λ i p q. elim (dec_lt n i) [
      | yes later ↦ rest.inside i (omega arith) q
      | no same ↦
          let e : i ≡ n = omega arith in
          rw e (
            rest.outside (place n) (λ j a b. place-ne n j apart (omega arith))
            ∙ get_or-set_self dst (place n) (word n) 0 in_range)
    ];
    outside = λ j free.
        rest.outside j (λ i p q. free i (omega arith) q)
        ∙ get_or-set_ne dst (place n) j (word n) 0 (λ e. free n (omega arith) below (sym e));
  }

  output_loop-IsOutput :
      (left n hw : ℕ) (dst : List ℕ)
      → n + left ≡ c.buffer_size_in_frames
      → output_index c n hw ≡ place n
      → FitsOutput c word src dst
      → IsOutput c word dst n c.buffer_size_in_frames (output_loop c left n hw src dst)
  output_loop-IsOutput zero n hw dst e at fits = record {
    out = dst;
    returns = unfold output_loop in refl;
    same_length = refl;
    inside = λ i p q. absurd (omega arith);
    outside = λ j p. refl;
  }
  output_loop-IsOutput (suc left) n hw dst e at fits =
      let below : n < c.buffer_size_in_frames = omega arith in
      let read : c.sw_chan_start_index + n < length src = omega (arith, fits.reads) in
      let write = fits.writes n below in
      let next =
        output_loop-IsOutput left (n + 1) (output_step c hw) (set dst (place n) (word n))
          (omega arith) (output_index_next c n hw at)
          (record {
            apart = fits.apart;
            reads = fits.reads;
            writes = λ i h. rw length-set (fits.writes i h);
            words = fits.words;
          }) in
      rw (output_loop-suc left n hw dst read (fits.words n below) at write)
        (IsOutput-set below fits.apart write next)

-- With frames that lie within both buffers, a positive stride and no NaN among the channel's
-- floats, `float32n_to_codec_format` accesses nothing out of range, writes each frame's word at the
-- channel's place for it, and changes no other word.
pub float32n_to_codec_format-IsOutput :
    (c : SampleConverter) (word : ℕ → ℕ) (dst src : List ℕ)
    → FitsOutput c word src dst
    → IsOutput c word dst 0 c.buffer_size_in_frames (float32n_to_codec_format c dst src)
unfolding float32n_to_codec_format
float32n_to_codec_format-IsOutput c word dst src fits =
    output_loop-IsOutput c word src c.buffer_size_in_frames 0 c.hw_chan_start_index dst
      (omega arith) (output_index_first c) fits
