-- ===== src/RunLogger/Blocks.antt =====
-- src/raspa_run_logger.h: what the logger's thread writes to the file.
use raspa.Prelude.{
  ℕ, zero, suc, ◌+◌, ◌-◌, ◌*◌, ◌/◌, ◌%◌, ◌^◌, ◌≤◌, ◌<◌, ◌≡◌, refl, sym, ap, ap₂, ◌∙◌, List, [], ◌∷◌,
  ◌++◌, Bool, true, false, ◌==◌, ltb, if◌then◌else◌, length, length-drop, get_or, take, drop, min,
  arith, ◌⊎◌, inl, inr, Bool-cases, get_or-drop, take-append-drop, take_all, drop_all,
}
use native.Mathlib.Decide.{dec_lt}
use mathlib.Core.List.{append-nil, append_assoc}
use raspa.Prelude.Word.{u32}
use raspa.RunLogger.Defs.{
  RunLogItem, RunLogger, write_at, buf_index, items_from, zero_item, write_block,
  write_buffer_to_file, run_end, period_logger_buffer_size,
}
use raspa.RunLogger.Pending.{IsPending, IsAligned, buf_index_lem, count_of_lem}

-- An overrun shows in the file as a first item of zeros.
abbrev pub mark_overrun : Bool → List RunLogItem → List RunLogItem
mark_overrun over [] = []
mark_overrun over (x ∷ xs) = (if over then zero_item else x) ∷ xs

get_or-mark_overrun :
    (over : Bool) (q : List RunLogItem) (j : ℕ)
    → j < length q
    → get_or (mark_overrun over q) j zero_item ≡ (
        if over then (if j == 0 then zero_item else get_or q j zero_item) else get_or q j zero_item)
get_or-mark_overrun over [] j h = elim h [ ]
get_or-mark_overrun true (x ∷ xs) zero h = refl
get_or-mark_overrun false (x ∷ xs) zero h = refl
get_or-mark_overrun true (x ∷ xs) (suc j) h = ground arith
get_or-mark_overrun false (x ∷ xs) (suc j) h = refl

length-mark_overrun : (over : Bool) (q : List RunLogItem) → length (mark_overrun over q) ≡ length q
length-mark_overrun over [] = refl
length-mark_overrun over (x ∷ xs) = refl

items_from-eq-take :
    (half : ℕ → RunLogItem) (i n : ℕ) (xs : List RunLogItem)
    → n ≤ length xs
    → ((j : ℕ) → j < n → half (i + j) ≡ get_or xs j zero_item)
    → items_from half i n ≡ take n xs
items_from-eq-take half i zero xs le h = refl
items_from-eq-take half i (suc n) [] le h = absurd (omega arith)
items_from-eq-take half i (suc n) (x ∷ xs) le h =
    ap₂ ◌∷◌ (ap half (let e : i ≡ i + 0 = omega arith in e) ∙ h 0 (omega arith)) (
      items_from-eq-take half (suc i) n xs (omega arith) (λ j lt.
        ap half (let e : suc i + j ≡ i + suc j = omega arith in e) ∙ h (suc j) (omega arith)))

module _ (l : RunLogger) (q : List RunLogItem) (v : IsPending l q) (aligned : IsAligned l) where
  abbrev marked : ℕ → ℕ → RunLogItem
  marked = if l.overrun then write_at l.buffer (buf_index l.read_count) 0 zero_item else l.buffer

  -- The first half of the queue as the block reads it.
  marked-eq :
      (j : ℕ)
      → j < length q
      → j < period_logger_buffer_size
      → marked (buf_index l.read_count) j ≡ get_or (mark_overrun l.overrun q) j zero_item
  marked-eq j h small =
      let half : (l.read_count + j) / 2 ^ 13 % 2 ≡ l.read_count / 2 ^ 13 % 2 = omega arith in
      let place : (l.read_count + j) % 2 ^ 13 ≡ j = omega arith in
      let at : l.buffer (buf_index l.read_count) j ≡ get_or q j zero_item =
        ap₂ l.buffer (buf_index_lem l.read_count v.read_fits ∙ sym half) (sym place)
        ∙ v.stored j h in
      ground (arith, at, get_or-mark_overrun l.overrun q j h)

  -- The rest of the queue is not touched by the mark.
  marked_rest :
      (n i : ℕ)
      → 0 < n
      → n + i < length q
      → marked ((u32 (l.read_count + n) + i) / 2 ^ 13 % 2) ((u32 (l.read_count + n) + i) % 2 ^ 13)
        ≡ get_or q (n + i) zero_item
  marked_rest n i some_items h =
      let half : (u32 (l.read_count + n) + i) / 2 ^ 13 % 2 ≡ (l.read_count + (n + i)) / 2 ^ 13 % 2 =
        omega arith in
      let place : (u32 (l.read_count + n) + i) % 2 ^ 13 ≡ (l.read_count + (n + i)) % 2 ^ 13 =
        omega arith in
      rw (half, place)
        (ground (arith, v.stored (n + i) h, buf_index_lem l.read_count v.read_fits, v.few))

  write_block-IsPending :
      (accepts : Bool) (n : ℕ)
      → 0 < n
      → n ≤ length q
      → IsPending (write_block accepts n l) (drop n q)
  unfolding write_block
  write_block-IsPending accepts n some_items le = record {
    few = omega (arith, length-drop n q, v.few);
    read_fits = omega arith;
    counted = omega (arith, v.counted, length-drop n q);
    stored = λ i h.
        marked_rest n i some_items (omega (arith, h, length-drop n q))
        ∙ sym (get_or-drop n q i zero_item);
  }

  write_block-log_file :
      (n : ℕ)
      → n ≤ length q
      → n ≤ period_logger_buffer_size
      → (write_block true n l).log_file ≡ l.log_file ++ take n (mark_overrun l.overrun q)
  unfolding write_block
  write_block-log_file n le small = ap (◌++◌ l.log_file) (
      items_from-eq-take (marked (buf_index l.read_count)) 0 n (mark_overrun l.overrun q)
        (omega (arith, length-mark_overrun l.overrun q))
        (λ j h.
          ap (marked (buf_index l.read_count)) (let e : 0 + j ≡ j = omega arith in e)
          ∙ marked-eq j (omega arith) (omega arith)))

write_block-IsAligned :
    (flush : Bool) (n : ℕ) (l : RunLogger)
    → IsAligned l
    → (n ≡ period_logger_buffer_size) ⊎ (flush ≡ true)
    → IsAligned (write_block true n l) ⊎ (flush ≡ true)
unfolding write_block
write_block-IsAligned flush n l aligned (inl full) = inl (omega arith)
write_block-IsAligned flush n l aligned (inr flushed) = inr flushed

-- How many items one call writes.
abbrev pub block_size : Bool → ℕ → ℕ
block_size flush waiting =
    if ltb waiting (if flush then 1 else period_logger_buffer_size)
    then 0
    else min waiting period_logger_buffer_size

write_buffer_to_file-eq :
    (accepts flush : Bool) (l : RunLogger) (q : List RunLogItem)
    → IsPending l q
    → write_buffer_to_file accepts flush l ≡ (
        if ltb (length q) (if flush then 1 else period_logger_buffer_size)
        then l
        else write_block accepts (min (length q) period_logger_buffer_size) l)
unfolding write_buffer_to_file
write_buffer_to_file-eq accepts flush l q v = rw (count_of_lem l q v) (ground arith)

-- Where blocks start at the start of a half and the stream takes the write: a call of
-- `_write_buffer_to_file` appends to the file the oldest pending items, at most one half of the
-- buffer, none below the threshold of a full half, or of one item at the flush; after an overrun
-- the first of them is replaced by zeros and the overrun is cleared. The other items stay pending,
-- and without the flush blocks still start at the start of a half.
pub write_buffer_to_file-IsPending :
    (flush : Bool) (l : RunLogger) (q : List RunLogItem)
    → IsPending l q
    → IsAligned l
    → let l' = write_buffer_to_file true flush l in
      let n = block_size flush (length q) in
      IsPending l' (drop n q)
      × (l'.log_file ≡ l.log_file ++ take n (mark_overrun l.overrun q))
      × (l'.overrun ≡ (if n == 0 then l.overrun else false))
      × (IsAligned l' ⊎ (flush ≡ true))
write_buffer_to_file-IsPending flush l q v aligned =
    let threshold : ℕ = if flush then 1 else period_logger_buffer_size in
    let n : ℕ = min (length q) period_logger_buffer_size in
    elim (Bool-cases (ltb (length q) threshold)) [
      | inl below ↦
          let same : write_buffer_to_file true flush l ≡ l =
            write_buffer_to_file-eq true flush l q v ∙ rw below in
          let nothing : block_size flush (length q) ≡ 0 = rw below in
          rw (same, nothing) (v, sym (append-nil l.log_file), refl, inl aligned)
      | inr enough ↦
          let wrote : write_buffer_to_file true flush l ≡ write_block true n l =
            write_buffer_to_file-eq true flush l q v ∙ rw enough in
          let size : block_size flush (length q) ≡ n = rw enough in
          let some_items : 0 < n = ground arith in
          rw (wrote, size)
            (
              write_block-IsPending l q v aligned true n some_items (omega arith),
              write_block-log_file l q v aligned n (omega arith) (omega arith),
              unfold write_block in ground arith,
              write_block-IsAligned flush n l aligned (ground arith),
            )
    ]

take-append-drop_mark :
    (over : Bool) (n : ℕ) (q : List RunLogItem)
    → 0 < n
    → take n (mark_overrun over q) ++ drop n q ≡ mark_overrun over q
take-append-drop_mark over zero q h = elim h [ ]
take-append-drop_mark over (suc n) [] h = refl
take-append-drop_mark over (suc n) (x ∷ xs) h =
    ap (◌∷◌ (if over then zero_item else x)) (take-append-drop n xs)

-- The flush writes all of a queue that fits one block.
flush_all :
    (over : Bool) (q : List RunLogItem)
    → length q ≤ period_logger_buffer_size
    → take (block_size true (length q)) (mark_overrun over q) ≡ mark_overrun over q
flush_all over [] h = refl
flush_all over (x ∷ xs) h =
    let n : block_size true (length (x ∷ xs)) ≡ length (x ∷ xs) = ground arith in
    rw n (take_all (length (x ∷ xs)) (mark_overrun over (x ∷ xs)) (omega arith))

pub mark_none : (q : List RunLogItem) → mark_overrun false q ≡ q
mark_none [] = refl
mark_none (x ∷ xs) = refl

-- A block of half the buffer and the flush write the whole queue.
drain_two :
    (over : Bool) (q : List RunLogItem)
    → length q ≤ 2 * period_logger_buffer_size - 1
    → let n = block_size false (length q) in
      take n (mark_overrun over q)
        ++ take
            (block_size true (length (drop n q)))
            (mark_overrun (if n == 0 then over else false) (drop n q))
      ≡ mark_overrun over q
drain_two over q few = elim (dec_lt (length q) period_logger_buffer_size) [
  | yes small ↦
      let n : block_size false (length q) ≡ 0 = ground arith in
      rw n (flush_all over q (omega arith))
  | no large ↦
      let n : block_size false (length q) ≡ period_logger_buffer_size = ground arith in
      let rest : length (drop period_logger_buffer_size q) ≤ period_logger_buffer_size =
        omega (arith, length-drop period_logger_buffer_size q) in
      rw n (
        ap (◌++◌ (take period_logger_buffer_size (mark_overrun over q)))
          (flush_all false (drop period_logger_buffer_size q) rest ∙ mark_none _)
        ∙ take-append-drop_mark over period_logger_buffer_size q (omega arith))
]

-- Nothing is left after the flush of a queue that fits one block.
flush_rest :
    (q : List RunLogItem)
    → length q ≤ period_logger_buffer_size
    → drop (block_size true (length q)) q ≡ []
flush_rest q h = drop_all (block_size true (length q)) q (ground arith)

-- Where blocks start at the start of a half, the stream takes the writes, and the thread is in a
-- round or at most 8192 items wait: the end of the logger's thread writes every pending item, in
-- order, the first one replaced by zeros after an overrun, and leaves none pending.
pub run_end-IsPending :
    (in_round : Bool) (l : RunLogger) (q : List RunLogItem)
    → IsPending l q
    → IsAligned l
    → (in_round ≡ true) ⊎ (length q ≤ period_logger_buffer_size)
    → let l' = run_end true in_round l in
      IsPending l' [] × (l'.log_file ≡ l.log_file ++ mark_overrun l.overrun q)
unfolding run_end
run_end-IsPending false l q v aligned enough =
    let small : length q ≤ period_logger_buffer_size = ground arith in
    let (pending, file, _, _) = write_buffer_to_file-IsPending true l q v aligned in
    (rw (flush_rest q small) at pending, rw (flush_all l.overrun q small) at file)
run_end-IsPending true l q v aligned enough =
    let (pending, file, over, still) = write_buffer_to_file-IsPending false l q v aligned in
    let l' = write_buffer_to_file true false l in
    let n = block_size false (length q) in
    let rest : length (drop n q) ≤ period_logger_buffer_size =
      ground (arith, length-drop n q, v.few) in
    let (done, file', _, _) =
      write_buffer_to_file-IsPending true l' (drop n q) pending (aligned_of still) in
    (
      rw (flush_rest (drop n q) rest) at done,
      file'
          ∙ rw (over, file)
              (append_assoc l.log_file _ _ ∙ ap (◌++◌ l.log_file) (drain_two l.overrun q v.few)),
    )
  where
    aligned_of :
        IsAligned (write_buffer_to_file true false l) ⊎ (false ≡ true)
        → IsAligned (write_buffer_to_file true false l)
    aligned_of (inl a) = a
    aligned_of (inr e) = absurd (cc)
