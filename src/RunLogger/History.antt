-- ===== src/RunLogger/History.antt =====
-- src/raspa_run_logger.h: any interleaving of whole calls of the two threads, against a queue.
use raspa.Prelude.{
  ℕ, ◌-◌, ◌*◌, ◌≤◌, ◌<◌, ◌≡◌, refl, ◌∙◌, List, [], ◌∷◌, ◌++◌, Bool, true, false, ◌==◌, ltb, arith,
  if◌then◌else◌, length, take, drop, take-append-drop, ap, sym, ◌⊎◌, inl, inr,
}
use mathlib.Core.List.{append-nil, append_assoc}
use raspa.RunLogger.Defs.{
  RunLogItem, RunLogger, put, write_buffer_to_file, write_block, start, run_end,
  period_logger_buffer_size,
}
use raspa.RunLogger.Pending.{IsPending, IsAligned, put-IsPending}
use raspa.RunLogger.Blocks.{
  mark_overrun, block_size, mark_none, run_end-IsPending, write_buffer_to_file-IsPending,
}

-- A period that the real time thread puts, and a round of the logger's thread.
pub data Event : Type 0 where
  period : RunLogItem → Event
  round : Event

pub run : List Event → RunLogger → RunLogger
run [] l = l
run (period item ∷ es) l = run es (put item.start item.end l)
run (round ∷ es) l = run es (write_buffer_to_file true false l)

-- The log as a queue of at most 16383 items in front of a file.
pub record Log : Type 0 where
  pub written : List RunLogItem
  pub waiting : List RunLogItem
  pub lost : Bool

unfoldable pub log_period : RunLogItem → Log → Log
log_period item g =
    if ltb (length g.waiting) (2 * period_logger_buffer_size - 1)
    then record g { waiting = g.waiting ++ (item ∷ []) }
    else record g { lost = true }

unfoldable pub log_round : Log → Log
log_round g =
    let n = block_size false (length g.waiting) in
    record {
      written = g.written ++ take n (mark_overrun g.lost g.waiting);
      waiting = drop n g.waiting;
      lost = if n == 0 then g.lost else false;
    }

pub log : List Event → Log → Log
log [] g = g
log (period item ∷ es) g = log es (log_period item g)
log (round ∷ es) g = log es (log_round g)

-- A running logger stands for a log.
pub record Refines (l : RunLogger) (g : Log) : Type 0 where
  pub running : l.is_running ≡ true
  pub pending : IsPending l g.waiting
  pub aligned : IsAligned l
  pub same_file : l.log_file ≡ g.written
  pub same_lost : l.overrun ≡ g.lost

put_frame :
    (s e : ℕ) (l : RunLogger)
    → ((put s e l).is_running ≡ l.is_running)
      × ((put s e l).log_file ≡ l.log_file)
      × ((put s e l).read_count ≡ l.read_count)
unfolding put
put_frame s e l = ground arith

write_frame : (l : RunLogger) → (write_buffer_to_file true false l).is_running ≡ l.is_running
unfolding write_buffer_to_file write_block
write_frame l = ground arith

log_period_room :
    (item : RunLogItem) (g : Log)
    → length g.waiting < 2 * period_logger_buffer_size - 1
    → log_period item g ≡ record g { waiting = g.waiting ++ (item ∷ []) }
unfolding log_period
log_period_room item g h = ground arith

log_period_full :
    (item : RunLogItem) (g : Log)
    → length g.waiting ≡ 2 * period_logger_buffer_size - 1
    → log_period item g ≡ record g { lost = true }
unfolding log_period
log_period_full item g h = ground arith

put-Refines :
    (item : RunLogItem) (l : RunLogger) (g : Log)
    → Refines l g
    → Refines (put item.start item.end l) (log_period item g)
put-Refines item l g v =
    let (running, file, count) = put_frame item.start item.end l in
    elim (put-IsPending item.start item.end l g.waiting v.pending) [
      | inl (_, room, pending, over) ↦ rw (log_period_room item g room) (record {
        running = running ∙ v.running;
        pending = pending;
        aligned = rw count v.aligned;
        same_file = file ∙ v.same_file;
        same_lost = over ∙ v.same_lost;
      })
      | inr (inl (_, full, pending, over)) ↦ rw (log_period_full item g full) (record {
        running = running ∙ v.running;
        pending = pending;
        aligned = rw count v.aligned;
        same_file = file ∙ v.same_file;
        same_lost = over;
      })
      | inr (inr (stopped, _)) ↦ absurd (clash stopped)
    ]
  where
    clash : l.is_running ≡ false → ⊥
    clash stopped = cc (v.running)

round-Refines :
    (l : RunLogger) (g : Log)
    → Refines l g
    → Refines (write_buffer_to_file true false l) (log_round g)
unfolding log_round
round-Refines l g v =
    let (pending, file, over, still) =
      write_buffer_to_file-IsPending false l g.waiting v.pending v.aligned in
    record {
      running = write_frame l ∙ v.running;
      pending = pending;
      aligned = elim still [ inl a ↦ a | inr e ↦ absurd (cc) ];
      same_file = rw (← v.same_lost, ← v.same_file) file;
      same_lost = rw (← v.same_lost) over;
    }

run-Refines :
    (es : List Event) (l : RunLogger) (g : Log) → Refines l g → Refines (run es l) (log es g)
unfolding run log
run-Refines [] l g v = v
run-Refines (period item ∷ es) l g v = run-Refines es _ _ (put-Refines item l g v)
run-Refines (round ∷ es) l g v = run-Refines es _ _ (round-Refines l g v)

abbrev pub empty_log : Log
empty_log = record { written = []; waiting = []; lost = false }

start-Refines : (l : RunLogger) → Refines (start true l).1 empty_log
unfolding start
start-Refines l = record {
  running = refl;
  pending = record {
    few = omega arith;
    read_fits = omega arith;
    counted = refl;
    stored = λ i h. elim h [ ];
  };
  aligned = refl;
  same_file = refl;
  same_lost = refl;
}

-- After `start` opened the file, and whatever whole calls of `put` and rounds of the logger's
-- thread follow in any order with a stream that takes the writes, the two halves of the buffer and
-- the wrapping counters behave as a queue of at most 16383 items in front of the file: the file,
-- the pending items and the overrun flag are the queue's.
pub start-run_lem :
    (l : RunLogger) (es : List Event) → Refines (run es (start true l).1) (log es empty_log)
start-run_lem l es = run-Refines es _ _ (start-Refines l)

abbrev pub periods : List Event → List RunLogItem
periods [] = []
periods (period item ∷ es) = item ∷ periods es
periods (round ∷ es) = periods es

-- At every period of the history fewer than 16383 items wait.
abbrev pub HasRoom : List Event → Log → Type 0
HasRoom [] g = Unit {0}
HasRoom (period item ∷ es) g =
    (length g.waiting < 2 * period_logger_buffer_size - 1) × HasRoom es (log_period item g)
HasRoom (round ∷ es) g = HasRoom es (log_round g)

log_round-lost : (g : Log) → g.lost ≡ false → (log_round g).lost ≡ false
unfolding log_round
log_round-lost g h = ground arith

-- A round moves items from the queue to the file.
log_round-items :
    (g : Log)
    → g.lost ≡ false
    → (log_round g).written ++ (log_round g).waiting ≡ g.written ++ g.waiting
unfolding log_round
log_round-items g h =
    rw (h, mark_none g.waiting, append_assoc)
      (ap (◌++◌ g.written) (take-append-drop (block_size false (length g.waiting)) g.waiting))

-- With room at each period the log holds what it held and the periods of the history, in order.
log-periods :
    (es : List Event) (g : Log)
    → HasRoom es g
    → g.lost ≡ false
    → ((log es g).written ++ (log es g).waiting ≡ g.written ++ (g.waiting ++ periods es))
      × ((log es g).lost ≡ false)
unfolding log
log-periods [] g h kept = (rw append-nil, kept)
log-periods (period item ∷ es) g h kept =
    let e = log_period_room item g h.0 in
    let (items, lost) = log-periods es (log_period item g) h.1 (rw e kept) in
    (items ∙ rw e (ap (◌++◌ g.written) (append_assoc g.waiting (item ∷ []) (periods es))), lost)
log-periods (round ∷ es) g h kept =
    let (items, lost) = log-periods es (log_round g) h (log_round-lost g kept) in
    (
      items
          ∙ sym (append_assoc (log_round g).written (log_round g).waiting (periods es))
          ∙ ap (λ (t : List RunLogItem). t ++ periods es) (log_round-items g kept)
          ∙ append_assoc g.written g.waiting (periods es),
      lost,
    )

-- After `start` opened the file, with a stream that takes every write: if fewer than 16383 items wait
-- whenever a period is put, and the thread is in a round when it is told to end or at most 8192 items
-- wait then, the file holds at the end exactly the periods that were put, in order.
pub run_end-periods :
    (l : RunLogger) (es : List Event) (in_round : Bool)
    → HasRoom es empty_log
    → (in_round ≡ true) ⊎ (length (log es empty_log).waiting ≤ period_logger_buffer_size)
    → (run_end true in_round (run es (start true l).1)).log_file ≡ periods es
run_end-periods l es in_round room enough =
    let v = start-run_lem l es in
    let (items, lost) = log-periods es empty_log room refl in
    let (_, file) =
      run_end-IsPending in_round (run es (start true l).1) (log es empty_log).waiting v.pending
        v.aligned enough in
    file ∙ rw (v.same_file, v.same_lost, lost) (rw (mark_none (log es empty_log).waiting) items)
