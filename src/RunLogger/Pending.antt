-- ===== src/RunLogger/Pending.antt =====
-- src/raspa_run_logger.h: the run logger against the queue of the items that are not yet written.
use raspa.Prelude.{
  ℕ, ◌+◌, ◌-◌, ◌*◌, ◌/◌, ◌%◌, ◌^◌, ◌≤◌, ◌<◌, ◌≡◌, sym, ap, ◌∙◌, List, [], ◌∷◌, ◌++◌, true, false,
  length, length-append, get_or, arith, ◌⊎◌, inl, inr, Bool-cases, get_or-append_left,
  get_or-append_last,
}
use native.Mathlib.Decide.{dec_lt}
use raspa.Prelude.Int.{pos}
use raspa.Prelude.Word.{u32, sar}
use raspa.Prelude.Bits.{bit_and_mask}
use raspa.RunLogger.Defs.{
  RunLogItem, RunLogger, write_at, buf_index, buf_offset, count_of, put, zero_item,
  period_logger_buffer_size,
}

-- Which half and which place a counter's value names.
pub buf_index_lem : (count : ℕ) → count < 2 ^ 32 → buf_index count ≡ count / 2 ^ 13 % 2
unfolding buf_index
buf_index_lem count h = rw (bit_and_mask 1 (sar count 13)) (ground arith)

buf_offset_lem : (count : ℕ) → buf_offset count ≡ count % 2 ^ 13
unfolding buf_offset
buf_offset_lem count = bit_and_mask 13 count

abbrev pub slot : RunLogger → ℕ → RunLogItem
slot l k = l.buffer (k / 2 ^ 13 % 2) (k % 2 ^ 13)

-- The items that were put and not yet written are `q`, oldest first.
pub record IsPending (l : RunLogger) (q : List RunLogItem) : Type 0 where
  pub few : length q ≤ 2 * period_logger_buffer_size - 1
  pub read_fits : l.read_count < 2 ^ 32
  pub counted : l.write_count ≡ u32 (l.read_count + length q)
  pub stored : (i : ℕ) → i < length q → slot l (l.read_count + i) ≡ get_or q i zero_item

-- Blocks start at the start of a half.
abbrev pub IsAligned : RunLogger → Type 0
IsAligned l = l.read_count % 2 ^ 13 ≡ 0

pub count_of_lem :
    (l : RunLogger) (q : List RunLogItem) → IsPending l q → count_of l ≡ pos (length q)
unfolding count_of
count_of_lem l q v = ground (arith, v)

-- Two places of the queue share a slot only if they lie a whole buffer apart.
slot-put :
    (l : RunLogger) (i n : ℕ) (item : RunLogItem)
    → l.read_count < 2 ^ 32
    → i < n
    → n < 2 ^ 14
    → write_at l.buffer
        (buf_index (u32 (l.read_count + n)))
        (buf_offset (u32 (l.read_count + n)))
        item
        ((l.read_count + i) / 2 ^ 13 % 2)
        ((l.read_count + i) % 2 ^ 13)
      ≡ slot l (l.read_count + i)
slot-put l i n item fits below few = ground (
  arith,
  buf_index_lem (u32 (l.read_count + n)) (omega arith),
  buf_offset_lem (u32 (l.read_count + n)),
)

slot-put_self :
    (l : RunLogger) (n : ℕ) (item : RunLogItem)
    → write_at l.buffer
        (buf_index (u32 (l.read_count + n)))
        (buf_offset (u32 (l.read_count + n)))
        item
        ((l.read_count + n) / 2 ^ 13 % 2)
        ((l.read_count + n) % 2 ^ 13)
      ≡ item
slot-put_self l n item = ground (
  arith,
  buf_index_lem (u32 (l.read_count + n)) (omega arith),
  buf_offset_lem (u32 (l.read_count + n)),
)

-- The logger with one more item in its buffer.
abbrev stored_item : RunLogger → RunLogItem → RunLogger
stored_item l item = record l {
  buffer = write_at l.buffer (buf_index l.write_count) (buf_offset l.write_count) item;
  write_count = u32 (l.write_count + 1);
}

stored_item-stored :
    (l : RunLogger) (q : List RunLogItem) (item : RunLogItem)
    → IsPending l q
    → length q < 2 * period_logger_buffer_size - 1
    → (i : ℕ) → i < length q + 1
    → slot (stored_item l item) (l.read_count + i) ≡ get_or (q ++ (item ∷ [])) i zero_item
stored_item-stored l q item v room i h = rw v.counted (elim (dec_lt i (length q)) [
  | yes below ↦
      slot-put l i (length q) item v.read_fits below (omega arith)
      ∙ v.stored i below
      ∙ sym (get_or-append_left q (item ∷ []) i zero_item below)
  | no last ↦
      let e : i ≡ length q = omega arith in
      rw e (slot-put_self l (length q) item ∙ sym (get_or-append_last q item zero_item))
])

stored_item-IsPending :
    (l : RunLogger) (q : List RunLogItem) (item : RunLogItem)
    → IsPending l q
    → length q < 2 * period_logger_buffer_size - 1
    → IsPending (stored_item l item) (q ++ (item ∷ []))
stored_item-IsPending l q item v room = record {
  few = omega (arith, length-append q (item ∷ []));
  read_fits = v.read_fits;
  counted = omega (arith, v.counted, length-append q (item ∷ []));
  stored =
      λ i h. stored_item-stored l q item v room i (omega (arith, h, length-append q (item ∷ [])));
}

-- While the logger runs, `put` appends the period to the pending items if fewer than 16383 wait,
-- and otherwise keeps them and marks the overrun; a logger that does not run is left as it is.
pub put-IsPending :
    (start end : ℕ) (l : RunLogger) (q : List RunLogItem)
    → IsPending l q
    → let l' = put start end l in
      let item : RunLogItem = record { start = start; end = end } in
      ((l.is_running ≡ true)
        × (length q < 2 * period_logger_buffer_size - 1)
        × IsPending l' (q ++ (item ∷ []))
        × (l'.overrun ≡ l.overrun))
      ⊎ ((l.is_running ≡ true)
          × (length q ≡ 2 * period_logger_buffer_size - 1)
          × IsPending l' q
          × (l'.overrun ≡ true))
      ⊎ ((l.is_running ≡ false) × (l' ≡ l))
unfolding put
put-IsPending start end l q v =
    let item : RunLogItem = record { start = start; end = end } in
    elim (Bool-cases l.is_running) [
      | inr stopped ↦ inr (inr (stopped, ground arith))
      | inl running ↦ elim (dec_lt (length q) (2 * period_logger_buffer_size - 1)) [
        | yes room ↦
            let e : put start end l ≡ stored_item l item =
              ground (arith, count_of_lem l q v, running, room) in
            inl (
              running,
              room,
              rw e (stored_item-IsPending l q item v room),
              ap (λ (r : RunLogger). r.overrun) e,
            )
        | no full ↦
            let e : put start end l ≡ record l { overrun = true } =
              ground (arith, count_of_lem l q v, running, full) in
            inr (
              inl (
                running,
                omega (arith, v.few),
                rw e (record {
                  few = v.few;
                  read_fits = v.read_fits;
                  counted = v.counted;
                  stored = v.stored;
                }),
                ap (λ (r : RunLogger). r.overrun) e,
              ))
      ]
    ]
