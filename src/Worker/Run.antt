-- ===== src/Worker/Run.antt =====
-- `Worker.run` of src/joule/models/worker.py: the loop that starts the module again. What happens
-- to the process is data, one item for each start.
use joule.Base.{
  ℕ, ◌-◌, ◌≤◌, ◌≡◌, refl, Bool, true, false, ◌||◌, List, [], ◌∷◌, ◌++◌, length, drop, if◌then◌else◌,
  if_ind, arith, length-drop, Bool-cases, inl, inr,
}
use joule.Worker.{Outcome, each_subscriber}

pub data LogLine : Type 0 where
  starting_module : LogLine
  module_terminated : LogLine
  inputs_unavailable : LogLine

-- How a start ends: with the end of the module, where `stop` was called while it ran, or while the
-- worker waited to start it again, or not; or without its inputs.
pub data Spawn : Type 0 where
  ended : Bool → Bool → Spawn
  missing_inputs : Spawn

-- `subscribers` are the pipes of all streams. `log_size` is the `maxlen` of the logs.
pub record Worker (S : Type 0) : Type 0 where
  pub subscribers : List S
  pub logs : List LogLine
  pub log_size : ℕ
  pub stop_requested : Bool

module _ {S : Type 0} where
  -- `log`, on a deque that drops its oldest lines
  pub log : LogLine → Worker S → Worker S
  log line w =
      let lines = w.logs ++ line ∷ [] in record w { logs = drop (length lines - w.log_size) lines }

  log-bound : (line : LogLine) (w : Worker S) → length (log line w).logs ≤ w.log_size
  unfolding log
  log-bound line w =
      let lines = w.logs ++ line ∷ [] in
      omega (arith, length-drop (length lines - w.log_size) lines)

module _ {S : Type 0} where
  -- A call of `stop`, or none.
  pub hear : Bool → Worker S → Worker S
  hear stopped w = record w { stop_requested = w.stop_requested || stopped }

  -- One start of the module, up to its end.
  pub run_once : Bool → Worker S → Worker S
  run_once stopped w = log module_terminated (hear stopped (log starting_module w))

  -- How the loop goes on from a worker, with the worker after its module ran, after the wait, after its
  -- intervals are closed, and after the other rounds.
  pub next_round : Bool → Worker S → Worker S → Worker S → Bool × Worker S → Worker S → Worker S
  next_round restart w ran waited (done, broken) rest =
      if w.stop_requested
      then w
      else if restart
      then (if waited.stop_requested then waited else if done then rest else broken)
      else ran

  same_round :
      (restart : Bool) (w ran waited : Worker S) (broken : Bool × Worker S) (rest rest' : Worker S)
      → (waited.stop_requested ≡ false → rest ≡ rest')
      → next_round restart w ran waited broken rest ≡ next_round restart w ran waited broken rest'
  unfolding next_round
  same_round restart w ran waited broken rest rest' h = elim (Bool-cases waited.stop_requested) [
    | inl stop ↦ simp stop
    | inr on ↦ rw (h on)
  ]

  heard :
      (a b : Bool) (w : Worker S) → (a || b) ≡ true → (hear b (run_once a w)).stop_requested ≡ true
  unfolding hear run_once log
  heard a b w h = ground arith

  next_round-bound :
      (n : ℕ) (restart : Bool) (w ran waited : Worker S) (broken : Bool × Worker S)
      (rest : Worker S)
      → length w.logs ≤ n
      → length ran.logs ≤ n
      → length waited.logs ≤ n
      → length broken.1.logs ≤ n
      → length rest.logs ≤ n
      → length (next_round restart w ran waited broken rest).logs ≤ n
  unfolding next_round
  next_round-bound n restart w ran waited broken rest a b c d e = ground arith

  run_once-bound : (stopped : Bool) (w : Worker S) → length (run_once stopped w).logs ≤ w.log_size
  unfolding run_once hear log
  run_once-bound stopped w = log-bound module_terminated (hear stopped (log starting_module w))

-- `close_nowait` is `close_interval_nowait` of the subscribers.
module _ {S : Type 0} (close_nowait : S → Outcome × S) where
  -- The interval of every subscriber ends before the module is started again.
  pub break_intervals : Worker S → Bool × Worker S
  break_intervals w =
      let (done, ss) = each_subscriber close_nowait w.subscribers in
      (done, record w { subscribers = ss })

  -- The loop of `run`, up to the end of the history.
  pub run_loop : Bool → List Spawn → Worker S → Worker S
  run_loop restart [] w = w
  run_loop restart (missing_inputs ∷ history) w =
      if w.stop_requested then w else log inputs_unavailable (log starting_module w)
  run_loop restart (ended stopped stopped_waiting ∷ history) w =
      let ran = run_once stopped w in
      let waited = hear stopped_waiting ran in
      let broken = break_intervals waited in
      next_round restart w ran waited broken (run_loop restart history broken.1)

  pub run : Bool → List Spawn → Worker S → Worker S
  run restart history w = run_loop restart history (record w { stop_requested = false })

  -- Once `stop` is called, while the module runs or while the worker waits to start it again, nothing
  -- that could have happened later changes the worker.
  pub run_loop_stops :
      (restart : Bool) (before : List Spawn) (a b : Bool) (later : List Spawn) (w : Worker S)
      → (a || b) ≡ true
      → run_loop restart (before ++ (ended a b ∷ later)) w
        ≡ run_loop restart (before ++ (ended a b ∷ [])) w
  unfolding run_loop
  run_loop_stops restart [] a b later w h =
      let ran = run_once a w in
      let waited = hear b ran in
      let broken = break_intervals waited in
      same_round restart w ran waited broken (run_loop restart later broken.1) broken.1
        λ on. let stop = heard a b w h in absurd cc
  run_loop_stops restart (missing_inputs ∷ before) a b later w h = refl
  run_loop_stops restart (ended c d ∷ before) a b later w h =
      let ran = run_once c w in
      let waited = hear d ran in
      let broken = break_intervals waited in
      same_round restart w ran waited broken
        (run_loop restart (before ++ (ended a b ∷ later)) broken.1)
        (run_loop restart (before ++ (ended a b ∷ [])) broken.1)
        λ _. run_loop_stops restart before a b later broken.1 h

  run_loop-bound :
      (restart : Bool) (history : List Spawn) (w : Worker S)
      → length w.logs ≤ w.log_size
      → length (run_loop restart history w).logs ≤ w.log_size
  unfolding run_loop hear run_once log break_intervals
  run_loop-bound restart [] w h = h
  run_loop-bound restart (missing_inputs ∷ history) w h =
      if_ind (λ (out : Worker S). length out.logs ≤ w.log_size) w.stop_requested (λ _. h)
        (λ _. log-bound inputs_unavailable (log starting_module w))
  run_loop-bound restart (ended c d ∷ history) w h =
      let ran = run_once c w in
      let waited = hear d ran in
      let broken = break_intervals waited in
      let once = run_once-bound c w in
      next_round-bound w.log_size restart w ran waited broken (run_loop restart history broken.1) h
        once once once (run_loop-bound restart history broken.1 once)

  -- The logs never hold more lines than their size, if they did not at first.
  pub run-bound :
      (restart : Bool) (history : List Spawn) (w : Worker S)
      → length w.logs ≤ w.log_size
      → length (run restart history w).logs ≤ w.log_size
  unfolding run
  run-bound restart history w h =
      run_loop-bound restart history (record w { stop_requested = false }) h
