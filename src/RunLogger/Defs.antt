-- ===== src/RunLogger/Defs.antt =====
-- src/raspa_run_logger.h: class RaspaRunLogger. The counters are `int`, kept as 32-bit patterns.
-- What the file stream answers comes in as an argument.
use raspa.Prelude.{
  ℕ, zero, suc, ◌+◌, ◌-◌, ◌*◌, ◌^◌, List, [], ◌∷◌, ◌++◌, Bool, true, false, ◌==◌, ltb, bit_and,
  if◌then◌else◌,
}
use raspa.Prelude.Int.{ℤ, pos, negsuc, ltb_ℤ}
use raspa.Prelude.Word.{u32, sar, signed32}

abbrev pub period_logger_buffer_size_bits : ℕ
period_logger_buffer_size_bits = 13

abbrev pub period_logger_buffer_size : ℕ
period_logger_buffer_size = 2 ^ 13

-- struct run_log_item
pub record RunLogItem : Type 0 where
  pub start : ℕ
  pub end : ℕ

-- `_buffer[2][PERIOD_LOGGER_BUFFER_SIZE]` is a function of its two indices.
pub record RunLogger : Type 0 where
  pub is_running : Bool
  pub stream_open : Bool
  pub log_file : List RunLogItem
  pub buffer : ℕ → ℕ → RunLogItem
  pub write_count : ℕ
  pub read_count : ℕ
  pub overrun : Bool

abbrev pub write_at : (ℕ → ℕ → RunLogItem) → ℕ → ℕ → RunLogItem → ℕ → ℕ → RunLogItem
write_at buffer index offset item i j =
    if i == index then (if j == offset then item else buffer i j) else buffer i j

unfoldable pub buf_index : ℕ → ℕ
buf_index count = bit_and (sar count period_logger_buffer_size_bits) 0x1

unfoldable pub buf_offset : ℕ → ℕ
buf_offset count = bit_and count (2 ^ period_logger_buffer_size_bits - 1)

-- `_write_count - _read_count`
unfoldable pub count_of : RunLogger → ℤ
count_of l = signed32 (u32 (l.write_count + (2 ^ 32 - l.read_count)))

unfoldable pub put : ℕ → ℕ → RunLogger → RunLogger
put start end l =
    if l.is_running
    then (if ltb_ℤ (count_of l) (pos (2 * period_logger_buffer_size - 1))
        then record l {
          buffer =
              write_at l.buffer (buf_index l.write_count) (buf_offset l.write_count)
                (record { start = start; end = end });
          write_count = u32 (l.write_count + 1);
        }
        else record l { overrun = true })
    else l

-- `count` items from the start of one half of the buffer on
abbrev pub items_from : (ℕ → RunLogItem) → ℕ → ℕ → List RunLogItem
items_from half i zero = []
items_from half i (suc count) = half i ∷ items_from half (suc i) count

abbrev pub zero_item : RunLogItem
zero_item = record { start = 0; end = 0 }

-- The body of `_write_buffer_to_file` once the threshold is met, for `count` items at most one
-- half; `accepts` says whether the stream takes the write.
unfoldable pub write_block : Bool → ℕ → RunLogger → RunLogger
write_block accepts count l =
    let index = buf_index l.read_count in
    let marked = if l.overrun then write_at l.buffer index 0 zero_item else l.buffer in
    record l {
      buffer = marked;
      overrun = false;
      log_file = if accepts then l.log_file ++ items_from (marked index) 0 count else l.log_file;
      read_count = u32 (l.read_count + count);
    }

abbrev pub capped : ℤ → ℕ
capped (pos n) = if ltb period_logger_buffer_size n then period_logger_buffer_size else n
capped (negsuc n) = 0

unfoldable pub write_buffer_to_file : Bool → Bool → RunLogger → RunLogger
write_buffer_to_file accepts flush l =
    let threshold = if flush then 1 else period_logger_buffer_size in
    if ltb_ℤ (count_of l) (pos threshold) then l else write_block accepts (capped (count_of l)) l

-- The end of `_run`: its last round, if the thread was in one when the flag fell, then the flush.
unfoldable pub run_end : (accepts in_round : Bool) → RunLogger → RunLogger
run_end accepts in_round l =
    write_buffer_to_file accepts true (if in_round then write_buffer_to_file accepts false l else l)

-- `start`: RASPA_ERUNLOG_FILE_OPEN is 213.
unfoldable pub start : (opens : Bool) → RunLogger → ℤ × RunLogger
start opens l =
    if opens
    then (
      pos 0,
      record l {
        stream_open = true;
        log_file = [];
        write_count = 0;
        read_count = 0;
        overrun = false;
        is_running = true;
      },
    )
    else (negsuc 212, l)

-- `terminate` lets the thread come to its end, and closes the file: RASPA_ERUNLOG_FILE_CLOSE is 214.
unfoldable pub close_stream : (closes : Bool) → RunLogger → ℤ × RunLogger
close_stream closes l =
    if l.stream_open
    then (if closes
        then (pos 0, record l { stream_open = false })
        else (negsuc 213, record l { stream_open = false }))
    else (pos 0, l)

unfoldable pub terminate : (accepts in_round closes : Bool) → RunLogger → ℤ × RunLogger
terminate accepts in_round closes l =
    close_stream closes
      (if l.is_running then run_end accepts in_round (record l { is_running = false }) else l)
