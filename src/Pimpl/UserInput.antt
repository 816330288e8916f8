-- ===== src/Pimpl/UserInput.antt =====
-- src/raspa_pimpl.h: the loop of `_perform_user_callback` over the input converters.
use raspa.Prelude.{
  ℕ, zero, suc, ◌+◌, ◌*◌, ◌≤◌, ◌<◌, ◌≡◌, refl, ap, ◌∙◌, inl, List, [], ◌∷◌, Option, some, map,
  arith, length, get_or, get_elem?,
}
use raspa.SampleConversion.Codec.{input_sample}
use raspa.SampleConversion.Converter.{SampleConverter}
use raspa.SampleConversion.Converter.Input.{FitsInput, IsInput, codec_format_to_float32n-IsInput}
use raspa.Pimpl.UserCallback.{convert_input}

-- Converters of channels `chan`, `chan + 1` and so on: each has its row of the float buffer, and
-- reads within the codec's words.
abbrev pub AreRows : (frames chan : ℕ) → List SampleConverter → (src dst : List ℕ) → Type 0
AreRows frames chan [] src dst = chan * frames ≤ length dst
AreRows frames chan (c ∷ cs) src dst =
    (c.buffer_size_in_frames ≡ frames)
    × (c.sw_chan_start_index ≡ chan * frames)
    × ((i : ℕ) → i < frames → c.hw_chan_start_index + i * c.chan_stride < length src)
    × AreRows frames (suc chan) cs src dst

-- Row `chan + k` holds the samples of the k-th channel, converted, and the rows before are as they
-- were.
pub record IsConverted (frames chan : ℕ) (cs : List SampleConverter) (src dst : List ℕ)
    (result : Option (List ℕ)) : Type 0 where
  pub floats : List ℕ
  pub returns : result ≡ some floats
  pub same_length : length floats ≡ length dst
  pub rows :
      (k i : ℕ) (c : SampleConverter)
      → get_elem? cs k ≡ some c
      → i < frames
      → get_or floats ((chan + k) * frames + i) 0
        ≡ input_sample c.codec_format (get_or src (c.hw_chan_start_index + i * c.chan_stride) 0)
  pub before : (j : ℕ) → j < chan * frames → get_or floats j 0 ≡ get_or dst j 0

pub AreRows-ends :
    (frames chan : ℕ) (cs : List SampleConverter) (src dst : List ℕ)
    → AreRows frames chan cs src dst
    → chan * frames ≤ length dst
AreRows-ends frames chan [] src dst h = h
AreRows-ends frames chan (c ∷ cs) src dst (a, b, d, rest) =
    let further = AreRows-ends frames (suc chan) cs src dst rest in omega (arith, further)

AreRows-length :
    (frames chan : ℕ) (cs : List SampleConverter) (src dst dst' : List ℕ)
    → length dst' ≡ length dst
    → AreRows frames chan cs src dst
    → AreRows frames chan cs src dst'
AreRows-length frames chan [] src dst dst' e h = omega arith
AreRows-length frames chan (c ∷ cs) src dst dst' e (a, b, d, rest) =
    (a, b, d, AreRows-length frames (suc chan) cs src dst dst' e rest)

-- The first channel's row, beside the rows behind it
module _ (frames chan : ℕ) (c : SampleConverter) (cs : List SampleConverter) (src dst : List ℕ)
    {r : Option (List ℕ)} where
  first_row :
      (floats : List ℕ)
      → c.buffer_size_in_frames ≡ frames
      → c.sw_chan_start_index ≡ chan * frames
      → (first : IsInput c src dst 0 c.buffer_size_in_frames r)
      → ((j : ℕ) → j < suc chan * frames → get_or floats j 0 ≡ get_or first.out j 0)
      → (i : ℕ) → i < frames
      → get_or floats (chan * frames + i) 0
        ≡ input_sample c.codec_format (get_or src (c.hw_chan_start_index + i * c.chan_stride) 0)
  first_row floats size start first kept i p =
      kept (chan * frames + i) (omega arith)
      ∙ ap (λ (j : ℕ). get_or first.out j 0)
          (let e : chan * frames + i ≡ c.sw_chan_start_index + i = omega (arith, start) in e)
      ∙ first.inside i (omega arith) (omega (arith, size))

  IsConverted-cons :
      {result : Option (List ℕ)}
      → c.buffer_size_in_frames ≡ frames
      → c.sw_chan_start_index ≡ chan * frames
      → (first : IsInput c src dst 0 c.buffer_size_in_frames r)
      → (next : IsConverted frames (suc chan) cs src first.out result)
      → (k i : ℕ) (c' : SampleConverter) → get_elem? (c ∷ cs) k ≡ some c'
      → i < frames
      → get_or next.floats ((chan + k) * frames + i) 0
        ≡ input_sample c'.codec_format (get_or src (c'.hw_chan_start_index + i * c'.chan_stride) 0)
  IsConverted-cons size start first next zero i c' e p =
      let same : c ≡ c' = cc e in
      ap (λ (j : ℕ). get_or next.floats j 0)
        (let e : (chan + 0) * frames + i ≡ chan * frames + i = omega arith in e)
      ∙ first_row next.floats size start first next.before i p
      ∙ ap
          (λ (d : SampleConverter).
            input_sample d.codec_format (get_or src (d.hw_chan_start_index + i * d.chan_stride) 0))
          same
  IsConverted-cons size start first next (suc k) i c' e p =
      ap (λ (j : ℕ). get_or next.floats j 0)
        (let e : (chan + suc k) * frames + i ≡ (suc chan + k) * frames + i = omega arith in e)
      ∙ next.rows k i c' e p

-- With a row of the float buffer for each channel, and frames that lie within the codec's words,
-- the loop over the input converters accesses nothing out of range, and leaves in each channel's row
-- that channel's samples, each converted from its own place and in its own format.
pub convert_input-IsConverted :
    (frames chan : ℕ) (cs : List SampleConverter) (src dst : List ℕ)
    → AreRows frames chan cs src dst
    → IsConverted frames chan cs src dst (convert_input (map some cs) src dst)
unfolding convert_input
convert_input-IsConverted frames chan [] src dst h = record {
  floats = dst;
  returns = refl;
  same_length = refl;
  rows = λ k i c e p. ground (arith, e);
  before = λ j p. refl;
}
convert_input-IsConverted frames chan (c ∷ cs) src dst (size, start, reads, rest) =
    let end = AreRows-ends frames (suc chan) cs src dst rest in
    let fits : FitsInput c src dst = record {
      reads = λ i p. reads i (rw size at p);
      writes = omega (arith, size, start, end);
    } in
    let first = codec_format_to_float32n-IsInput c dst src fits in
    let next =
      convert_input-IsConverted frames (suc chan) cs src first.out
        (AreRows-length frames (suc chan) cs src dst first.out first.same_length rest) in
    record {
      floats = next.floats;
      returns = rw (first.returns) next.returns;
      same_length = next.same_length ∙ first.same_length;
      rows = IsConverted-cons frames chan c cs src dst size start first next;
      before = λ j p. next.before j (omega arith) ∙ first.outside j (inl (omega (arith, start)));
    }
