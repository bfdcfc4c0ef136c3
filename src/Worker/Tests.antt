-- ===== src/Worker/Tests.antt =====
-- A worker whose rows are numbers, each its own timestamp, and whose subscribers always give the same
-- answer.
use joule.Base.{ℕ, ◌≡◌, refl, Bool, true, false, some, List, [], ◌∷◌, ◌++◌, length, take, arith}
use joule.Base.Int.{pos, negsuc, ◌-ℤ◌}
use joule.Base.Time.{Timestamped, times}
use joule.Worker.{
  Outcome, accepted, disconnected, timed_out, refused, Subscriber, Handler, diffs, least,
  wrap_int64, each_subscriber, deliver, end_interval, refuse, handle, output_handler, start_handler,
  verify_monotonic_timestamps,
}
use joule.Worker.Timestamps.{increasing_from, verify_monotonic_timestamps_lem}
use joule.Worker.Output.{
  Receives, AllReceive, AllTimes, GoesOn, nothing, output_handler-AllReceive, output_handler-GoesOn,
}
use joule.Worker.Run.{Worker, ended, run_loop, run_loop_stops}

-- An answer, and the rows received. A write that is cut off has handed on its first row.
abbrev Answering : Type 0
Answering = Outcome × List ℕ

abbrev rows_handed_on : Outcome → List ℕ → ℕ
rows_handed_on accepted rows = length rows
rows_handed_on disconnected rows = 0
rows_handed_on timed_out rows = 1
rows_handed_on refused rows = 0

instance abbrev answering : Subscriber ℕ Answering
answering = record {
  write = λ rows s. (s.0, (s.0, s.1 ++ take (rows_handed_on s.0 rows) rows));
  close_interval = λ s. (accepted, s);
  close_interval_nowait = λ s. (accepted, s);
}

instance abbrev own_time : Timestamped ℕ
own_time = record { timestamp = λ t. pos t }

abbrev received : Answering → List ℕ
received s = s.1

answering-Receives : Receives received
answering-Receives = record {
  written = λ rows s. (rows_handed_on s.0 rows, refl);
  closed = λ s. refl;
  closed_nowait = λ s. refl;
}

abbrev all_kinds : List Answering
all_kinds = (accepted, []) ∷ (disconnected, []) ∷ (timed_out, []) ∷ []

-- The last block steps back.
abbrev blocks : List (List ℕ × Bool)
blocks = (1 ∷ 2 ∷ [], false) ∷ (5 ∷ 6 ∷ [], true) ∷ (6 ∷ 7 ∷ [], false) ∷ []

abbrev at_start : Handler ℕ Answering
at_start = start_handler all_kinds

handler_runs : output_handler blocks at_start ≡ record {
  subscribers = (accepted, 1 ∷ 2 ∷ 5 ∷ 6 ∷ []) ∷ (timed_out, 1 ∷ 5 ∷ []) ∷ [];
  last_ts = some (pos 6);
  consumed = 1 ∷ 2 ∷ 5 ∷ 6 ∷ [];
  restarts = 1;
}
unfolding output_handler handle deliver each_subscriber end_interval refuse times
    verify_monotonic_timestamps diffs least wrap_int64 ◌-ℤ◌
handler_runs = refl

verify_monotonic_timestamps_lem_example :
    verify_monotonic_timestamps (pos 3 ∷ pos 4 ∷ pos 4 ∷ []) (some (negsuc 0))
    ≡ increasing_from (some (negsuc 0)) (pos 3 ∷ pos 4 ∷ pos 4 ∷ [])
verify_monotonic_timestamps_lem_example =
    verify_monotonic_timestamps_lem (some (negsuc 0)) (pos 3 ∷ pos 4 ∷ pos 4 ∷ [])
      (omega arith, omega arith, (omega arith, omega arith, (omega arith, omega arith, tt)))

output_handler-AllReceive_example :
    AllReceive received answering-Receives
      (output_handler blocks at_start).subscribers
      (output_handler blocks at_start).consumed
output_handler-AllReceive_example =
    output_handler-AllReceive received answering-Receives blocks at_start
      (nothing, (nothing, (nothing, tt)))

small_blocks : AllTimes blocks
unfolding times
small_blocks = (
  (omega arith, omega arith, (omega arith, omega arith, tt)),
  (
    (omega arith, omega arith, (omega arith, omega arith, tt)),
    ((omega arith, omega arith, (omega arith, omega arith, tt)), tt),
  ),
)

output_handler-GoesOn_example : GoesOn (output_handler blocks at_start)
unfolding increasing_from times
output_handler-GoesOn_example = output_handler-GoesOn blocks at_start small_blocks (refl, refl)

abbrev idle : Worker Answering
idle = record { subscribers = all_kinds; logs = []; log_size = 3; stop_requested = false }

run_loop_stops_example :
    run_loop answering.close_interval_nowait true
      (ended false false ∷ ended true false ∷ ended false false ∷ [])
      idle
    ≡ run_loop answering.close_interval_nowait true (ended false false ∷ ended true false ∷ []) idle
run_loop_stops_example =
    run_loop_stops answering.close_interval_nowait true (ended false false ∷ []) true false
      (ended false false ∷ []) idle refl
