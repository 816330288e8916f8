-- ===== src/Programs/Rows.antt =====
-- src/apps/signal_recorder/signal_recorder.h: the recordings, one row of samples for each channel.
use raspa.Prelude.{
  ℕ, ◌<◌, ◌≡◌, ◌≢◌, ap, sym, ◌∙◌, ◌⊎◌, inl, inr, List, [], some, length, get_elem?, get_or, set,
  length-set, get_or-set_self, get_or-set_ne,
}
use native.Mathlib.Decide.{ℕ_discrete}

-- The recording of a channel, and a sample of it
abbrev pub row : List (List ℕ) → ℕ → List ℕ
row buffer chan = get_or buffer chan []

abbrev pub sample_at : List (List ℕ) → (chan index : ℕ) → ℕ
sample_at buffer chan index = get_or (row buffer chan) index 0

-- Each listed channel has a recording of `size` samples.
abbrev pub HasRows : List ℕ → (size : ℕ) → List (List ℕ) → Type 0
HasRows chans size buffer =
    (k c : ℕ) → get_elem? chans k ≡ some c → (c < length buffer) × (length (row buffer c) ≡ size)

-- The buffer with one sample stored
abbrev pub put : List (List ℕ) → (chan index sample : ℕ) → List (List ℕ)
put buffer chan index sample = set buffer chan (set (row buffer chan) index sample)

pub row-put :
    (buffer : List (List ℕ)) (chan index sample c : ℕ)
    → chan < length buffer
    → ((chan ≡ c) × (row (put buffer chan index sample) c ≡ set (row buffer chan) index sample))
      ⊎ ((chan ≢ c) × (row (put buffer chan index sample) c ≡ row buffer c))
row-put buffer chan index sample c inside = elim (ℕ_discrete chan c) [
  | yes same ↦ inl (
    same,
    ap (row (put buffer chan index sample)) (sym same)
        ∙ get_or-set_self buffer chan (set (row buffer chan) index sample) [] inside,
  )
  | no other ↦
      inr (other, get_or-set_ne buffer chan c (set (row buffer chan) index sample) [] other)
]

pub length-row-put :
    (buffer : List (List ℕ)) (chan index sample c : ℕ)
    → chan < length buffer
    → length (row (put buffer chan index sample) c) ≡ length (row buffer c)
length-row-put buffer chan index sample c inside =
    elim (row-put buffer chan index sample c inside) [
      | inl (same, e) ↦
          ap length e
          ∙ length-set (row buffer chan) index sample
          ∙ ap (λ n. length (row buffer n)) same
      | inr (other, e) ↦ ap length e
    ]

pub HasRows-put :
    (chans : List ℕ) (size : ℕ) (buffer : List (List ℕ)) (chan index sample : ℕ)
    → chan < length buffer
    → HasRows chans size buffer
    → HasRows chans size (put buffer chan index sample)
HasRows-put chans size buffer chan index sample inside rows k c e =
    let (below, measured) = rows k c e in
    (
      rw (length-set buffer chan (set (row buffer chan) index sample)) below,
      length-row-put buffer chan index sample c inside ∙ measured,
    )

-- The samples at other indices stay.
pub put_other :
    (buffer : List (List ℕ)) (chan index sample c j : ℕ)
    → chan < length buffer
    → j ≢ index
    → sample_at (put buffer chan index sample) c j ≡ sample_at buffer c j
put_other buffer chan index sample c j inside other =
    elim (row-put buffer chan index sample c inside) [
      | inl (same, e) ↦
          ap (λ (r : List ℕ). get_or r j 0) e
          ∙ get_or-set_ne (row buffer chan) index j sample 0 (λ q. other (sym q))
          ∙ ap (λ n. sample_at buffer n j) same
      | inr (different, e) ↦ ap (λ (r : List ℕ). get_or r j 0) e
    ]

pub put_self :
    (buffer : List (List ℕ)) (chan index sample : ℕ)
    → chan < length buffer
    → index < length (row buffer chan)
    → sample_at (put buffer chan index sample) chan index ≡ sample
put_self buffer chan index sample inside fits =
    ap (λ (r : List ℕ). get_or r index 0)
      (get_or-set_self buffer chan (set (row buffer chan) index sample) [] inside)
    ∙ get_or-set_self (row buffer chan) index sample 0 fits
