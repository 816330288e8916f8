-- ===== src/Prelude/Memory.antt =====
-- Words in memory: the C buffers that are reached by pointers, as blocks at an offset.
use raspa.Prelude.{
  get_or, ℕ, zero, suc, ◌+◌, ◌≤◌, ◌<◌, ◌≡◌, refl, ap, ap₂, ◌∙◌, inl, inr, ◌⊎◌, List, [], ◌∷◌,
  length, ◌==◌, if◌then◌else◌, arith,
}

abbrev pub write_word : ℕ → ℕ → (ℕ → ℕ) → ℕ → ℕ
write_word at word memory i = if i == at then word else memory i

-- `count` words of the memory from `at` on, and such words written there
unfoldable pub words_at : (ℕ → ℕ) → (at count : ℕ) → List ℕ
words_at memory at zero = []
words_at memory at (suc count) = memory at ∷ words_at memory (suc at) count

unfoldable pub write_words : (at : ℕ) → List ℕ → (ℕ → ℕ) → ℕ → ℕ
write_words at [] memory = memory
write_words at (word ∷ words) memory = write_words (suc at) words (write_word at word memory)

pub length-words_at : (memory : ℕ → ℕ) (at count : ℕ) → length (words_at memory at count) ≡ count
unfolding words_at
length-words_at memory at zero = refl
length-words_at memory at (suc count) = ap suc (length-words_at memory (suc at) count)

-- A word outside of what is written stays.
pub write_words_outside :
    (at : ℕ) (words : List ℕ) (memory : ℕ → ℕ) (i : ℕ)
    → (i < at) ⊎ (at + length words ≤ i)
    → write_words at words memory i ≡ memory i
unfolding write_words
write_words_outside at [] memory i h = refl
write_words_outside at (word ∷ words) memory i (inl h) =
    write_words_outside (suc at) words (write_word at word memory) i (inl (omega arith))
    ∙ ground arith
write_words_outside at (word ∷ words) memory i (inr h) =
    write_words_outside (suc at) words (write_word at word memory) i (inr (omega arith))
    ∙ ground arith

-- A block that lies before or behind what is written stays.
pub words_at-write_words_apart :
    (at : ℕ) (words : List ℕ) (memory : ℕ → ℕ) (from count : ℕ)
    → (from + count ≤ at) ⊎ (at + length words ≤ from)
    → words_at (write_words at words memory) from count ≡ words_at memory from count
unfolding words_at
words_at-write_words_apart at words memory from zero h = refl
words_at-write_words_apart at words memory from (suc count) (inl h) =
    ap₂ (λ (w : ℕ) (ws : List ℕ). w ∷ ws)
      (write_words_outside at words memory from (inl (omega arith)))
      (words_at-write_words_apart at words memory (suc from) count (inl (omega arith)))
words_at-write_words_apart at words memory from (suc count) (inr h) =
    ap₂ (λ (w : ℕ) (ws : List ℕ). w ∷ ws) (write_words_outside at words memory from (inr h))
      (words_at-write_words_apart at words memory (suc from) count (inr (omega arith)))

-- What was written is read.
pub words_at-write_words_same :
    (at : ℕ) (words : List ℕ) (memory : ℕ → ℕ)
    → words_at (write_words at words memory) at (length words) ≡ words
unfolding words_at write_words
words_at-write_words_same at [] memory = refl
words_at-write_words_same at (word ∷ words) memory =
    ap₂ (λ (w : ℕ) (ws : List ℕ). w ∷ ws)
      (write_words_outside (suc at) words (write_word at word memory) at (inl (omega arith))
        ∙ ground arith)
      (words_at-write_words_same (suc at) words (write_word at word memory))

pub get_or-words_at :
    (memory : ℕ → ℕ) (at count j : ℕ)
    → j < count
    → get_or (words_at memory at count) j 0 ≡ memory (at + j)
unfolding words_at
get_or-words_at memory at zero j h = absurd (omega arith)
get_or-words_at memory at (suc count) zero h = ap memory (omega arith)
get_or-words_at memory at (suc count) (suc j) h =
    get_or-words_at memory (suc at) count j (omega arith) ∙ ap memory (omega arith)

pub write_words-get_or :
    (at : ℕ) (words : List ℕ) (memory : ℕ → ℕ) (j : ℕ)
    → j < length words
    → write_words at words memory (at + j) ≡ get_or words j 0
unfolding write_words
write_words-get_or at [] memory j h = absurd (omega arith)
write_words-get_or at (word ∷ words) memory zero h =
    ap (write_words (suc at) words (write_word at word memory)) (omega arith)
    ∙ write_words_outside (suc at) words (write_word at word memory) at (inl (omega arith))
    ∙ ground arith
write_words-get_or at (word ∷ words) memory (suc j) h =
    ap (write_words (suc at) words (write_word at word memory)) (omega arith)
    ∙ write_words-get_or (suc at) words (write_word at word memory) j (omega arith)
