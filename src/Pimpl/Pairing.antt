-- ===== src/Pimpl/Pairing.antt =====
-- src/raspa_pimpl.h: output channels that stand in pairs with input channels.
use raspa.Prelude.{
  ℕ, zero, suc, ◌+◌, ◌*◌, ◌≤◌, ◌<◌, ◌≡◌, ◌≢◌, refl, ap, sym, ◌∙◌, List, [], ◌∷◌, some, arith,
  length, get_or, get_elem?,
}
use raspa.DriverConfig.{int32}
use raspa.DriverConfig.Version.{IsSampleFormat}
use raspa.SampleConversion.Codec.{input_sample, output_sample}
use raspa.SampleConversion.Formats.{IsCodecWord}
use raspa.SampleConversion.Passthrough.{output_sample-input_sample}
use raspa.SampleConversion.Converter.{SampleConverter}
use raspa.Pimpl.UserInput.{AreRows, AreRows-ends}
use raspa.Pimpl.UserOutput.{place, IsApart, AreApart}

-- Where input channel `k` has its frame `i`
abbrev pub input_word : (ins : List SampleConverter) (src : List ℕ) (k i : ℕ) → ℕ
input_word [] src k i = 0
input_word (c ∷ ins) src zero i = get_or src (place c i) 0
input_word (c ∷ ins) src (suc k) i = input_word ins src k i

pub input_word-eq :
    (ins : List SampleConverter) (src : List ℕ) (k i : ℕ) (c : SampleConverter)
    → get_elem? ins k ≡ some c
    → input_word ins src k i ≡ get_or src (place c i) 0
input_word-eq [] src k i c e = absurd (ground (arith, e))
input_word-eq (d ∷ ins) src zero i c e =
    ap (λ (f : SampleConverter). get_or src (place f i) 0) (let same : d ≡ c = cc e in same)
input_word-eq (d ∷ ins) src (suc k) i c e = input_word-eq ins src k i c e

-- An output channel for each input channel, of the same exact format, whose words are words of that
-- format; each has its row of the floats and its own places within the output buffer.
abbrev pub ArePaired :
    (frames chan : ℕ) (ins outs : List SampleConverter) (src : List ℕ) (size : ℕ) → Type 0
ArePaired frames chan [] [] src size = Unit
ArePaired frames chan [] (d ∷ outs) src size = ⊥
ArePaired frames chan (c ∷ ins) [] src size = ⊥
ArePaired frames chan (c ∷ ins) (d ∷ outs) src size =
    ((d.buffer_size_in_frames ≡ frames)
      × (d.sw_chan_start_index ≡ chan * frames)
      × (0 < d.chan_stride)
      × (d.codec_format ≡ c.codec_format))
    × ((c.codec_format ≢ int32) × IsSampleFormat c.codec_format)
    × ((i : ℕ)
        → i < frames
        → (place d i < size) × IsCodecWord c.codec_format (get_or src (place c i) 0))
    × IsApart d outs
    × ArePaired frames (suc chan) ins outs src size

-- Rows `chan` and so on of the floats hold the inputs' samples.
abbrev pub HoldsRows : (frames chan : ℕ) (ins : List SampleConverter) (src floats : List ℕ) → Type 0
HoldsRows frames chan ins src floats =
    (k i : ℕ) (c : SampleConverter)
    → get_elem? ins k ≡ some c
    → i < frames
    → get_or floats ((chan + k) * frames + i) 0
      ≡ input_sample c.codec_format (get_or src (place c i) 0)

pub ap_le : {a b n : ℕ} → a ≡ b → b ≤ n → a ≤ n
ap_le e h = omega arith

-- The words that the output channels write are those that the input channels read.
pub AreApart-paired :
    (frames chan : ℕ) (ins outs : List SampleConverter) (src floats dst : List ℕ) (word : ℕ → ℕ → ℕ)
    → ((k i : ℕ) → word (chan + k) i ≡ input_word ins src k i)
    → ((k : ℕ) (c : SampleConverter)
        → get_elem? ins k ≡ some c
        → (chan + suc k) * frames ≤ length floats)
    → HoldsRows frames chan ins src floats
    → ArePaired frames chan ins outs src (length dst)
    → AreApart word chan outs floats dst
AreApart-paired frames chan [] [] src floats dst word names room rows paired = tt
AreApart-paired frames chan [] (d ∷ outs) src floats dst word names room rows paired = absurd paired
AreApart-paired frames chan (c ∷ ins) [] src floats dst word names room rows paired = absurd paired
AreApart-paired frames chan (c ∷ ins) (d ∷ outs) src floats dst word names room rows
      ((size, start, apart, same_format), (exact, real), fits, own, rest) =
    (
      record {
        apart = apart;
        reads = omega (arith, size, start, room 0 c refl);
        writes = λ i p. (fits i (rw size at p)).0;
        words = λ i p.
            let inside : i < frames = rw size at p in
            let index : d.sw_chan_start_index + i ≡ (chan + 0) * frames + i =
              omega (arith, start) in
            ap (output_sample d.codec_format)
              (ap (λ (j : ℕ). get_or floats j 0) index ∙ rows 0 i c refl inside)
            ∙ rw same_format (
                output_sample-input_sample c.codec_format (get_or src (place c i) 0) exact real
                  (fits i inside).1)
            ∙ ap some (sym (names 0 i) ∙ ap (λ (n : ℕ). word n i) (omega arith));
      },
      own,
      AreApart-paired frames (suc chan) ins outs src floats dst word
          (λ k i.
            ap (λ (n : ℕ). word n i) (let e : suc chan + k ≡ chan + suc k = omega arith in e)
            ∙ names (suc k) i)
          (λ k e f.
            ap_le
              (let g : (suc chan + suc k) ≡ (chan + suc (suc k)) = omega arith in
                ap (λ (t : ℕ). t * frames) g)
              (room (suc k) e f))
          (λ k i e f p.
            ap (λ (t : ℕ). get_or floats (t * frames + i) 0)
              (let g : suc chan + k ≡ chan + suc k = omega arith in g)
            ∙ rows (suc k) i e f p)
          rest,
    )

pub AreRows-room :
    (frames chan : ℕ) (cs : List SampleConverter) (src dst : List ℕ)
    → AreRows frames chan cs src dst
    → (k : ℕ) (c : SampleConverter) → get_elem? cs k ≡ some c
    → (chan + suc k) * frames ≤ length dst
AreRows-room frames chan [] src dst h k c e = absurd (ground (arith, e))
AreRows-room frames chan (d ∷ cs) src dst (size, start, reads, rest) zero c e =
    ap_le (ap (λ (t : ℕ). t * frames) (let g : chan + 1 ≡ suc chan = omega arith in g))
      (AreRows-ends frames (suc chan) cs src dst rest)
AreRows-room frames chan (d ∷ cs) src dst (size, start, reads, rest) (suc k) c e =
    ap_le
      (ap (λ (t : ℕ). t * frames)
        (let g : chan + suc (suc k) ≡ suc chan + suc k = omega arith in g))
      (AreRows-room frames (suc chan) cs src dst rest k c e)

pub AreRows-reads :
    (frames chan : ℕ) (cs : List SampleConverter) (src dst : List ℕ)
    → AreRows frames chan cs src dst
    → (k i : ℕ) (c : SampleConverter) → get_elem? cs k ≡ some c
    → i < frames
    → place c i < length src
AreRows-reads frames chan [] src dst h k i c e p = absurd (ground (arith, e))
AreRows-reads frames chan (d ∷ cs) src dst (size, start, reads, rest) zero i c e p =
    let same : d ≡ c = cc e in rw (← same) (reads i p)
AreRows-reads frames chan (d ∷ cs) src dst (size, start, reads, rest) (suc k) i c e p =
    AreRows-reads frames (suc chan) cs src dst rest k i c e p

pub ArePaired-writes :
    (frames chan : ℕ) (ins outs : List SampleConverter) (src : List ℕ) (size : ℕ)
    → ArePaired frames chan ins outs src size
    → (k i : ℕ) (d : SampleConverter) → get_elem? outs k ≡ some d
    → i < frames
    → (i < d.buffer_size_in_frames) × (place d i < size)
ArePaired-writes frames chan [] [] src size h k i d e p = absurd (ground (arith, e))
ArePaired-writes frames chan [] (f ∷ outs) src size h k i d e p = absurd h
ArePaired-writes frames chan (c ∷ ins) [] src size h k i d e p = absurd h
ArePaired-writes frames chan (c ∷ ins) (f ∷ outs) src size (layout, exact, fits, own, rest) zero i d
      e p =
    let same : f ≡ d = cc e in rw (← same) (rw (layout.0) p, (fits i p).0)
ArePaired-writes frames chan (c ∷ ins) (f ∷ outs) src size (layout, exact, fits, own, rest) (suc k)
      i d e p =
    ArePaired-writes frames (suc chan) ins outs src size rest k i d e p
