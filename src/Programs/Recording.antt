-- ===== src/Programs/Recording.antt =====
-- src/apps/signal_recorder/signal_recorder.h: what the loops of `_record_inputs` store.
use raspa.Prelude.{
  ℕ, zero, suc, ◌+◌, ◌-◌, ◌*◌, ◌≤◌, ◌<◌, ◌≡◌, refl, ap, sym, ◌∙◌, ◌⊎◌, inl, inr, List, [], ◌∷◌,
  some, arith, length, get_elem?, get_or, set, store-eq-set, length-set, get_elem?-eq-get_or,
}
use native.Mathlib.Decide.{dec_lt, ℕ_discrete}
use raspa.Pimpl.Layout.{row_lt}
use raspa.Programs.SignalRecorder.{record_channels, record_frames}
use raspa.Programs.Tone.{Within, get_elem?-cons}
use raspa.Programs.Rows.{
  row, sample_at, HasRows, put, row-put, length-row-put, HasRows-put, put_other, put_self,
}

-- What a loop that records leaves: `Done` says which samples have their value, a sample that had
-- its value still has it, and those before `from` and from `upto` on are as they were.
pub record Records (from upto : ℕ) (value : ℕ → ℕ → ℕ) (buffer : List (List ℕ))
    (Done : ℕ → ℕ → Type 0) (out : List (List ℕ)) : Type 0 where
  pub same_length : length out ≡ length buffer
  pub same_rows : (c : ℕ) → length (row out c) ≡ length (row buffer c)
  pub recorded : (c j : ℕ) → Done c j → sample_at out c j ≡ value c j
  pub kept : (c j : ℕ) → sample_at buffer c j ≡ value c j → sample_at out c j ≡ value c j
  pub others : (c j : ℕ) → (j < from) ⊎ (upto ≤ j) → sample_at out c j ≡ sample_at buffer c j

module _ (num_frames base : ℕ) (input : List ℕ) (size : ℕ) where
  -- The input's sample that belongs at an index of a channel's recording
  abbrev pub input_at : (chan index : ℕ) → ℕ
  input_at chan index = get_or input ((index - base) + chan * num_frames) 0

  abbrev pub AtIndex : List ℕ → (index c j : ℕ) → Type 0
  AtIndex chans index c j = (k : ℕ) × (get_elem? chans k ≡ some c) × (j ≡ index)

  put_target :
      (buffer : List (List ℕ)) (chan index c j : ℕ)
      → chan < length buffer
      → index < length (row buffer chan)
      → sample_at buffer c j ≡ input_at c j
      → sample_at (put buffer chan index (input_at chan index)) c j ≡ input_at c j
  put_target buffer chan index c j inside fits h = elim (ℕ_discrete j index) [
    | no other ↦ put_other buffer chan index (input_at chan index) c j inside other ∙ h
    | yes at ↦ elim (row-put buffer chan index (input_at chan index) c inside) [
      | inl (same, e) ↦
          ap (sample_at (put buffer chan index (input_at chan index)) c) at
          ∙ ap (λ n. sample_at (put buffer chan index (input_at chan index)) n index) (sym same)
          ∙ put_self buffer chan index (input_at chan index) inside fits
          ∙ ap (λ n. input_at n index) same
          ∙ ap (input_at c) (sym at)
      | inr (different, e) ↦ ap (λ (r : List ℕ). get_or r j 0) e ∙ h
    ]
  ]

  record_channels-Records :
      (i : ℕ) (chans : List ℕ) (buffer : List (List ℕ))
      → i < num_frames
      → base + i < size
      → Within num_frames chans (length input)
      → HasRows chans size buffer
      → (out : List (List ℕ)) × (record_channels num_frames i (base + i) chans input buffer
          ≡ some out)
        × Records (base + i) (base + i + 1) input_at buffer (AtIndex chans (base + i)) out
  unfolding record_channels
  record_channels-Records i [] buffer f below within rows = (
    buffer,
    refl,
    record {
      same_length = refl;
      same_rows = λ c. refl;
      recorded = λ c j (k, e, q). absurd (ground (arith, e));
      kept = λ c j h. h;
      others = λ c j h. refl;
    },
  )
  record_channels-Records i (chan ∷ chans) buffer f below within rows =
      let index = base + i in
      let value = input_at chan index in
      let (inside, measured) = rows 0 chan refl in
      let fits : index < length (row buffer chan) = omega (arith, measured) in
      let reads : i + chan * num_frames < length input =
        omega (arith, row_lt chan i num_frames (chan + 1) (omega arith) f, within 0 chan refl) in
      let at_i : index - base ≡ i = omega arith in
      let stored = put buffer chan index value in
      let (out, returns, rest) =
        record_channels-Records i chans stored f below (λ k c e. within (suc k) c e)
          (HasRows-put chans size buffer chan index value inside (λ k c e. rows (suc k) c e)) in
      let read : get_elem? input (i + chan * num_frames) ≡ some value =
        get_elem?-eq-get_or input (i + chan * num_frames) 0 reads
        ∙ ap (λ (n : ℕ). some (get_or input (n + chan * num_frames) 0)) (sym at_i) in
      (
        out,
        rw (get_elem?-eq-get_or buffer chan [] inside, read)
            (rw (store-eq-set (row buffer chan) index value fits)
              (rw (store-eq-set buffer chan (set (row buffer chan) index value) inside) returns)),
        record {
          same_length =
              rest.same_length ∙ length-set buffer chan (set (row buffer chan) index value);
          same_rows = λ c. rest.same_rows c ∙ length-row-put buffer chan index value c inside;
          recorded = λ c j (k, e, q). elim (get_elem?-cons chan chans k c e) [
            | inl same ↦ rest.kept c j (
                ap (λ n. sample_at stored n j) (sym same)
                ∙ ap (sample_at stored chan) q
                ∙ put_self buffer chan index value inside fits
                ∙ ap (λ n. input_at n index) same
                ∙ ap (input_at c) (sym q))
            | inr (k', e') ↦ rest.recorded c j (k', e', q)
          ];
          kept = λ c j h. rest.kept c j (put_target buffer chan index c j inside fits h);
          others = λ c j h.
              rest.others c j h
              ∙ put_other buffer chan index value c j inside
                  (λ q. elim h [ inl before ↦ omega arith | inr behind ↦ omega arith ]);
        },
      )

  abbrev pub AtIndices : List ℕ → (from upto c j : ℕ) → Type 0
  AtIndices chans from upto c j = (k : ℕ) × (get_elem? chans k ≡ some c) × (from ≤ j) × (j < upto)

  pub record_frames-Records :
      (left i : ℕ) (chans : List ℕ) (buffer : List (List ℕ))
      → i + left ≡ num_frames
      → base + num_frames ≤ size
      → Within num_frames chans (length input)
      → HasRows chans size buffer
      → (out : List (List ℕ)) × (record_frames num_frames left i (base + i) chans input buffer
          ≡ some out)
        × Records
            (base + i)
            (base + num_frames)
            input_at
            buffer
            (AtIndices chans (base + i) (base + num_frames))
            out
  unfolding record_frames
  record_frames-Records zero i chans buffer total below within rows = (
    buffer,
    refl,
    record {
      same_length = refl;
      same_rows = λ c. refl;
      recorded = λ c j (k, e, lo, hi). absurd (omega arith);
      kept = λ c j h. h;
      others = λ c j h. refl;
    },
  )
  record_frames-Records (suc left) i chans buffer total below within rows =
      let (first, returns, one) =
        record_channels-Records i chans buffer (omega arith) (omega arith) within rows in
      let next : base + (i + 1) ≡ base + i + 1 = omega arith in
      let (out, returns', rest) =
        record_frames-Records left (i + 1) chans first (omega arith) below within
          (λ k c e. (rw one.same_length ((rows k c e).0), one.same_rows c ∙ (rows k c e).1)) in
      (
        out,
        rw returns (rw next at returns'),
        record {
          same_length = rest.same_length ∙ one.same_length;
          same_rows = λ c. rest.same_rows c ∙ one.same_rows c;
          recorded = λ c j (k, e, lo, hi). elim (dec_lt (base + i) j) [
            | yes later ↦ rest.recorded c j (k, e, omega arith, hi)
            | no now ↦ rest.kept c j (one.recorded c j (k, e, omega arith))
          ];
          kept = λ c j h. rest.kept c j (one.kept c j h);
          others = λ c j h. elim h [
            | inl before ↦ rest.others c j (inl (omega arith)) ∙ one.others c j (inl (omega arith))
            | inr behind ↦ rest.others c j (inr behind) ∙ one.others c j (inr (omega arith))
          ];
        },
      )
