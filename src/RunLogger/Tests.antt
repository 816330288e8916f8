-- ===== src/RunLogger/Tests.antt =====
-- Runs of the run logger, and the theorems about it at concrete inputs.
use raspa.Prelude.{◌≡◌, refl, inl, List, [], ◌∷◌, true, false, arith}
use raspa.Prelude.Int.{pos, negsuc}
use raspa.RunLogger.Defs.{
  RunLogItem, RunLogger, write_buffer_to_file, write_block, buf_index, count_of, run_end, start,
  terminate, close_stream,
}
use raspa.RunLogger.Pending.{IsPending}
use raspa.RunLogger.History.{
  Event, period, round, run, log_period, log_round, Refines, log, empty_log, start-run_lem,
  run_end-periods,
}

abbrev first : RunLogItem
first = record { start = 5; end = 9 }

abbrev idle : RunLogger
idle = record {
  is_running = false;
  stream_open = false;
  log_file = [];
  buffer = λ i j. first;
  write_count = 0;
  read_count = 0;
  overrun = false;
}

-- Running, with one item in the buffer.
abbrev busy : RunLogger
busy = record idle { is_running = true; write_count = 1 }

abbrev two_periods : List Event
two_periods = period first ∷ round ∷ period first ∷ []

terminate_writes :
    ((terminate true true true (record busy { stream_open = true })).1.log_file ≡ first ∷ [])
    × ((terminate true true true idle).0 ≡ pos 0)
    × ((start false idle).0 ≡ negsuc 212)
unfolding terminate run_end write_buffer_to_file write_block count_of buf_index start close_stream
terminate_writes = (refl, refl, refl)

busy-IsPending : IsPending busy (first ∷ [])
busy-IsPending = record {
  few = omega arith;
  read_fits = omega arith;
  counted = refl;
  stored = λ i h. ground arith;
}

start-run_lem_example : Refines (run two_periods (start true idle).1) (log two_periods empty_log)
start-run_lem_example = start-run_lem idle two_periods

run_end-periods_example :
    (run_end true true (run two_periods (start true idle).1)).log_file ≡ first ∷ first ∷ []
run_end-periods_example =
    run_end-periods idle two_periods true
      (unfold log_period log_round in (omega arith, (omega arith, tt))) (inl refl)
