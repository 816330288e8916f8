-- ===== src/Pimpl/UserOutput.antt =====
-- src/raspa_pimpl.h: the loop of `_perform_user_callback` over the output converters.
use raspa.Prelude.{
  ℕ, zero, suc, ◌+◌, ◌*◌, ◌<◌, ◌≡◌, ◌≢◌, refl, ap, sym, ◌∙◌, List, [], ◌∷◌, Option, some, map,
  arith, length, get_or, get_elem?,
}
use raspa.SampleConversion.Converter.{SampleConverter}
use raspa.SampleConversion.Converter.Output.{
  FitsOutput, IsOutput, float32n_to_codec_format-IsOutput,
}
use raspa.Pimpl.UserCallback.{convert_output}

-- Where a channel's frame stands among the codec's words
abbrev pub place : SampleConverter → ℕ → ℕ
place c i = c.hw_chan_start_index + i * c.chan_stride

-- No word belongs to the channel and to one of the others.
abbrev pub IsApart : SampleConverter → List SampleConverter → Type 0
IsApart c cs =
    (k i j : ℕ) (d : SampleConverter)
    → get_elem? cs k ≡ some d
    → i < c.buffer_size_in_frames
    → j < d.buffer_size_in_frames
    → place c i ≢ place d j

-- Channels `chan`, `chan + 1` and so on: each fits, with the words `word chan` and so on, and has
-- its own places.
abbrev pub AreApart :
    (word : ℕ → ℕ → ℕ) (chan : ℕ) → List SampleConverter → (floats dst : List ℕ) → Type 0
AreApart word chan [] floats dst = Unit
AreApart word chan (c ∷ cs) floats dst =
    FitsOutput c (word chan) floats dst × IsApart c cs × AreApart word (suc chan) cs floats dst

-- The k-th channel's places hold its words, and all other words are as they were.
pub record IsWritten (word : ℕ → ℕ → ℕ) (chan : ℕ) (cs : List SampleConverter) (dst : List ℕ)
    (result : Option (List ℕ)) : Type 0 where
  pub words : List ℕ
  pub returns : result ≡ some words
  pub same_length : length words ≡ length dst
  pub inside :
      (k i : ℕ) (c : SampleConverter)
      → get_elem? cs k ≡ some c
      → i < c.buffer_size_in_frames
      → get_or words (place c i) 0 ≡ word (chan + k) i
  pub outside :
      (j : ℕ)
      → ((k i : ℕ) (c : SampleConverter)
          → get_elem? cs k ≡ some c
          → i < c.buffer_size_in_frames
          → j ≢ place c i)
      → get_or words j 0 ≡ get_or dst j 0

AreApart-length :
    (word : ℕ → ℕ → ℕ) (chan : ℕ) (cs : List SampleConverter) (floats dst dst' : List ℕ)
    → length dst' ≡ length dst
    → AreApart word chan cs floats dst
    → AreApart word chan cs floats dst'
AreApart-length word chan [] floats dst dst' e h = tt
AreApart-length word chan (c ∷ cs) floats dst dst' e (fits, apart, rest) = (
  record {
    apart = fits.apart;
    reads = fits.reads;
    writes = λ i p. rw e (fits.writes i p);
    words = fits.words;
  },
  apart,
  AreApart-length word (suc chan) cs floats dst dst' e rest,
)

-- The first channel's words stay while the others are written.
module _ (word : ℕ → ℕ → ℕ) (chan : ℕ) (c : SampleConverter) (cs : List SampleConverter)
    (dst : List ℕ) {r result : Option (List ℕ)}
    (first : IsOutput c (word chan) dst 0 c.buffer_size_in_frames r)
    (next : IsWritten word (suc chan) cs first.out result) where
  IsWritten-inside :
      IsApart c cs
      → (k i : ℕ) (d : SampleConverter) → get_elem? (c ∷ cs) k ≡ some d
      → i < d.buffer_size_in_frames
      → get_or next.words (place d i) 0 ≡ word (chan + k) i
  IsWritten-inside apart zero i d e p =
      let same : c ≡ d = cc e in
      let own : i < c.buffer_size_in_frames = rw same p in
      ap (λ (f : SampleConverter). get_or next.words (place f i) 0) (sym same)
      ∙ next.outside (place c i) (λ k j f g q. apart k i j f g own q)
      ∙ first.inside i (omega arith) own
      ∙ ap (λ (n : ℕ). word n i) (omega arith)
  IsWritten-inside apart (suc k) i d e p =
      next.inside k i d e p ∙ ap (λ (n : ℕ). word n i) (omega arith)

  IsWritten-outside :
      (j : ℕ)
      → ((k i : ℕ) (d : SampleConverter)
          → get_elem? (c ∷ cs) k ≡ some d
          → i < d.buffer_size_in_frames
          → j ≢ place d i)
      → get_or next.words j 0 ≡ get_or dst j 0
  IsWritten-outside j free =
      next.outside j (λ k i d e p. free (suc k) i d e p)
      ∙ first.outside j (λ i p q. free 0 i c refl q)

-- With frames that lie within both buffers, positive strides, no NaN among the floats and no word
-- that belongs to two channels, the loop over the output converters accesses nothing out of range,
-- writes each channel's words at its own places, and changes no other word.
pub convert_output-IsWritten :
    (word : ℕ → ℕ → ℕ) (chan : ℕ) (cs : List SampleConverter) (floats dst : List ℕ)
    → AreApart word chan cs floats dst
    → IsWritten word chan cs dst (convert_output (map some cs) floats dst)
unfolding convert_output
convert_output-IsWritten word chan [] floats dst h = record {
  words = dst;
  returns = refl;
  same_length = refl;
  inside = λ k i c e p. ground (arith, e);
  outside = λ j free. refl;
}
convert_output-IsWritten word chan (c ∷ cs) floats dst (fits, apart, rest) =
    let first = float32n_to_codec_format-IsOutput c (word chan) dst floats fits in
    let next =
      convert_output-IsWritten word (suc chan) cs floats first.out
        (AreApart-length word (suc chan) cs floats dst first.out first.same_length rest) in
    record {
      words = next.words;
      returns = rw (first.returns) next.returns;
      same_length = next.same_length ∙ first.same_length;
      inside = IsWritten-inside word chan c cs dst first next apart;
      outside = IsWritten-outside word chan c cs dst first next;
    }
