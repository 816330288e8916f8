-- ===== src/AlsaUsb/Window.antt =====
-- src/raspa_alsa_usb.h: the buffers of the ring that are queued, as a window in front of the index.
use raspa.Prelude.{
  ℕ, suc, ◌+◌, ◌*◌, ◌%◌, ◌-◌, ap, sym, ◌≤◌, ◌<◌, ◌≡◌, ◌≢◌, refl, ◌∙◌, ◌⊎◌, inl, inr, List, [], ◌∷◌,
  ◌++◌, length, arith,
}
use raspa.Prelude.Memory.{words_at, write_words, words_at-write_words_apart}
use native.Mathlib.Nat.{mul-le-mul_right}
use native.Mathlib.Decide.{dec_lt}
use raspa.AlsaUsb.{next_idx}

pub next_idx-mod : (idx : ℕ) → idx < 512 → next_idx idx ≡ (idx + 1) % 512
next_idx-mod idx h = ground arith

module _ (frames channels : ℕ) where
  abbrev place : ℕ → ℕ
  place idx = idx * frames * channels

  blocks_before : (i j : ℕ) → i < j → place i + frames * channels ≤ place j
  blocks_before i j h = omega (arith, mul-le-mul_right {m = suc i} {n = j} (frames * channels) h)

  blocks_apart :
      (i j : ℕ)
      → i ≢ j
      → (place i + frames * channels ≤ place j) ⊎ (place j + frames * channels ≤ place i)
  blocks_apart i j h = elim (dec_lt i j) [
    | yes before ↦ inl (blocks_before i j before)
    | no behind ↦ inr (blocks_before j i (omega arith))
  ]

  -- From index `at` on, each pointer is the next buffer of the ring, and its block is stored there.
  abbrev pub Holds : (buff : ℕ → ℕ) (at : ℕ) (ptrs : List ℕ) (blocks : List (List ℕ)) → Type 0
  Holds buff at [] [] = Unit
  Holds buff at [] (b ∷ blocks) = ⊥
  Holds buff at (p ∷ ptrs) [] = ⊥
  Holds buff at (p ∷ ptrs) (b ∷ blocks) =
      (p ≡ place at)
      × (words_at buff (place at) (frames * channels) ≡ b)
      × Holds buff ((at + 1) % 512) ptrs blocks

  -- A write into a buffer that lies `n` behind the start, and so outside of the window
  pub Holds-write :
      (n idx at : ℕ) (words : List ℕ) (buff : ℕ → ℕ) (ptrs : List ℕ) (blocks : List (List ℕ))
      → at < 512
      → idx ≡ (at + n) % 512
      → length ptrs ≤ n
      → n < 512
      → length words ≤ frames * channels
      → Holds buff at ptrs blocks
      → Holds (write_words (place idx) words buff) at ptrs blocks
  Holds-write n idx at words buff [] [] h e m k l held = tt
  Holds-write n idx at words buff [] (b ∷ blocks) h e m k l held = held
  Holds-write n idx at words buff (p ∷ ptrs) [] h e m k l held = held
  Holds-write n idx at words buff (p ∷ ptrs) (b ∷ blocks) h e m k l (here, block, rest) =
      let other : at ≢ idx = λ same. omega arith in
      (
        here,
        words_at-write_words_apart (place idx) words buff (place at) (frames * channels)
              (elim (blocks_apart at idx other) [ inl q ↦ inl q | inr q ↦ inr (omega arith) ])
            ∙ block,
        Holds-write (n - 1) idx ((at + 1) % 512) words buff ptrs blocks (omega arith) (omega arith)
            (omega arith) (omega arith) l rest,
      )

  pub Holds-uncons :
      (at p : ℕ) (buff : ℕ → ℕ) (ptrs : List ℕ) (blocks : List (List ℕ))
      → Holds buff at (p ∷ ptrs) blocks
      → (rest : List (List ℕ)) × (blocks ≡ words_at buff p (frames * channels) ∷ rest)
        × (p ≡ place at)
        × Holds buff ((at + 1) % 512) ptrs rest
  Holds-uncons at p buff ptrs [] held = absurd held
  Holds-uncons at p buff ptrs (b ∷ blocks) (here, block, rest) = (
    blocks,
    ap (λ (c : List ℕ). c ∷ blocks)
        (sym block ∙ ap (λ (i : ℕ). words_at buff i (frames * channels)) (sym here)),
    here,
    rest,
  )

  pub Holds-append :
      (at idx : ℕ) (buff : ℕ → ℕ) (ptrs : List ℕ) (blocks : List (List ℕ))
      → at < 512
      → idx ≡ (at + length ptrs) % 512
      → Holds buff at ptrs blocks
      → Holds buff at
          (ptrs ++ place idx ∷ [])
          (blocks ++ words_at buff (place idx) (frames * channels) ∷ [])
  Holds-append at idx buff [] [] h e held =
      let same : idx ≡ at = omega arith in rw same (refl, refl, tt)
  Holds-append at idx buff [] (b ∷ blocks) h e held = absurd held
  Holds-append at idx buff (p ∷ ptrs) [] h e held = absurd held
  Holds-append at idx buff (p ∷ ptrs) (b ∷ blocks) h e (here, block, rest) = (
    here,
    block,
    Holds-append ((at + 1) % 512) idx buff ptrs blocks (omega arith) (omega arith) rest,
  )

  pub Holds-length :
      (at : ℕ) (buff : ℕ → ℕ) (ptrs : List ℕ) (blocks : List (List ℕ))
      → Holds buff at ptrs blocks
      → length blocks ≡ length ptrs
  Holds-length at buff [] [] held = refl
  Holds-length at buff [] (b ∷ blocks) held = absurd held
  Holds-length at buff (p ∷ ptrs) [] held = absurd held
  Holds-length at buff (p ∷ ptrs) (b ∷ blocks) (here, block, rest) =
      ap suc (Holds-length ((at + 1) % 512) buff ptrs blocks rest)
