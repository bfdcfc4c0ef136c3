-- ===== src/Worker.antt =====
-- The worker of src/joule/models/worker.py: how the rows of a module's output reach its subscribers,
-- who subscribes, and when the module is started again. The module's process, its pipes and the
-- subscribers are outside: what they answer is data or a parameter.
pub mod Timestamps
pub mod Output
pub mod Subscriptions
pub mod Run
mod Tests
use joule.Base.{
  ℕ, zero, suc, ◌+◌, ◌-◌, ◌%◌, Bool, true, false, not, Option, none, some, List, [], ◌∷◌, ◌++◌, map,
  length, drop, ltb, leb, ◌==◌, if◌then◌else◌,
}
use joule.Base.Time.{Timestamped, times}
use joule.Base.Int.{ℤ, pos, negsuc, ltb_ℤ, ◌-ℤ◌}

-- Two's complement on 64 bits, in which numpy subtracts timestamps.
abbrev signed : ℕ → ℤ
signed n = if ltb n 9223372036854775808 then pos n else negsuc (18446744073709551616 - n - 1)

unfoldable pub wrap_int64 : ℤ → ℤ
wrap_int64 (pos n) = signed (n % 18446744073709551616)
wrap_int64 (negsuc n) = signed (18446744073709551616 - 1 - n % 18446744073709551616)

-- `np.diff`
unfoldable pub diffs : List ℤ → List ℤ
diffs [] = []
diffs (a ∷ []) = []
diffs (a ∷ b ∷ ts) = wrap_int64 (b -ℤ a) ∷ diffs (b ∷ ts)

-- `np.min` of a list that is not empty
unfoldable pub least : ℤ → List ℤ → ℤ
least d [] = d
least d (e ∷ ds) = let rest = least e ds in if ltb_ℤ rest d then rest else d

-- `len(data) > 1 and np.min(np.diff(data['timestamp'])) <= 0`
abbrev pub steps_back : List ℤ → Bool
steps_back [] = false
steps_back (d ∷ ds) = not (ltb_ℤ (pos 0) (least d ds))

-- Not `(last_ts is not None) and (last_ts >= data['timestamp'][0])`
abbrev pub is_after : Option ℤ → ℤ → Bool
is_after none t = true
is_after (some last) t = ltb_ℤ last t

pub verify_monotonic_timestamps : List ℤ → Option ℤ → Bool
verify_monotonic_timestamps [] last_ts = true
verify_monotonic_timestamps (t ∷ ts) last_ts =
    if steps_back (diffs (t ∷ ts)) then false else is_after last_ts t

-- What a call of a subscriber comes to: `disconnected` is a ConnectionResetError or a
-- BrokenPipeError, `timed_out` the end of the wait for it, `refused` any other exception.
pub data Outcome : Type 0 where
  accepted : Outcome
  disconnected : Outcome
  timed_out : Outcome
  refused : Outcome

-- The pipes that subscribe, each call with the pipe after it.
pub record Subscriber (Row S : Type 0) : Type 0 where
  pub write : List Row → S → Outcome × S
  pub close_interval : S → Outcome × S
  pub close_interval_nowait : S → Outcome × S

-- The variables of `_output_handler`: its subscribers, `last_ts`, the rows that it has consumed from
-- the module, and the number of restarts that it has asked for.
pub record Handler (Row S : Type 0) : Type 0 where
  pub subscribers : List S
  pub last_ts : Option ℤ
  pub consumed : List Row
  pub restarts : ℕ

abbrev pub is_accepted : Outcome → Bool
is_accepted accepted = true
is_accepted disconnected = false
is_accepted timed_out = false
is_accepted refused = false

-- `for pipe in subscribers: pipe.m()`; it ends at an exception.
pub each_subscriber : {S : Type 0} → (S → Outcome × S) → List S → Bool × List S
each_subscriber m [] = (true, [])
each_subscriber m (s ∷ ss) =
    let (o, s') = m s in
    let (done, ss') = each_subscriber m ss in
    if is_accepted o then (done, s' ∷ ss') else (false, s' ∷ ss)

module _ {S : Type 0} where
  -- What the loop of `_output_handler` does after a write to a subscriber: one that has disconnected
  -- is removed, one that takes too long has its interval closed. False is an exception that ends the
  -- handler before it comes to the others.
  abbrev pub settle : Outcome → S → Outcome × S → Bool × List S → List S → Bool × List S
  settle accepted s closing (done, later) others = (done, s ∷ later)
  settle disconnected s closing (done, later) others = (done, later)
  settle timed_out s (o, s') (done, later) others =
      if is_accepted o then (done, s' ∷ later) else (false, s' ∷ others)
  settle refused s closing (done, later) others = (false, s ∷ others)

module _ {Row S : Type 0} ⦃sub : Subscriber Row S⦄ where
  -- The loop over the subscribers that writes the rows.
  pub deliver : List Row → List S → Bool × List S
  deliver rows [] = (true, [])
  deliver rows (s ∷ ss) =
      let (o, s') = sub.write rows s in
      settle o s' (sub.close_interval_nowait s') (deliver rows ss) ss

  -- `if child_output.end_of_interval`
  pub end_interval : Bool → Handler Row S → Bool × Handler Row S
  end_interval at_end h =
      let (done, ss) = each_subscriber sub.close_interval_nowait h.subscribers in
      if at_end then (done, record h { subscribers = ss }) else (true, h)

  -- A block that does not go on in time: every subscriber's interval is closed, the module restarted.
  pub refuse : Handler Row S → Handler Row S
  refuse h =
      let (done, ss) = each_subscriber sub.close_interval h.subscribers in
      record h { subscribers = ss; restarts = if done then suc h.restarts else h.restarts }

-- `data['timestamp'][-1]`
abbrev pub last_of : ℤ → List ℤ → ℤ
last_of t [] = t
last_of t (u ∷ ts) = last_of u ts

module _ {Row S : Type 0} ⦃ts : Timestamped Row⦄ ⦃sub : Subscriber Row S⦄ where
  -- One round of the loop of `_output_handler`, on the block that was read and whether an interval
  -- ends behind it; the flag says whether the loop goes on.
  pub handle : List Row × Bool → Handler Row S → Bool × Handler Row S
  handle ([], at_end) h = end_interval at_end h
  handle (row ∷ rows, at_end) h =
      let (sent, ss) = deliver (row ∷ rows) h.subscribers in
      let h' = record h {
        subscribers = ss;
        last_ts = some (last_of (ts.timestamp row) (times rows));
        consumed = h.consumed ++ (row ∷ rows);
      } in
      let ended = end_interval at_end h' in
      if verify_monotonic_timestamps (times (row ∷ rows)) h.last_ts
      then (if sent then ended else (false, h'))
      else (false, refuse h)

  -- `_output_handler` on the blocks that the module writes, up to the end of its output.
  pub output_handler : List (List Row × Bool) → Handler Row S → Handler Row S
  output_handler [] h = h
  output_handler (block ∷ blocks) h =
      let (go_on, h') = handle block h in
      let rest = output_handler blocks h' in if go_on then rest else h'

  abbrev pub start_handler : List S → Handler Row S
  start_handler subscribers = record {
    subscribers = subscribers;
    last_ts = none;
    consumed = [];
    restarts = 0;
  }
