-- ===== src/Worker/Output.antt =====
-- What the output handler of a worker consumes from its module and hands to the subscribers.
use joule.Base.{
  ℕ, zero, suc, ◌≡◌, sym, Bool, true, false, none, some, List, [], ◌∷◌, ◌++◌, take, if_ind,
}
use mathlib.Core.List.{map-append}
use joule.Base.Time.{Timestamped, times}
use joule.Worker.{
  Outcome, accepted, disconnected, timed_out, refused, is_accepted, Subscriber, Handler,
  each_subscriber, deliver, settle, end_interval, refuse, handle, output_handler,
  verify_monotonic_timestamps, last_of,
}
use joule.Worker.Timestamps.{
  increasing_from, AreTimes, verify_monotonic_timestamps_lem, last_after, increasing-append,
  last_after-append,
}

-- The first list is the second with some items left out.
pub data IsPartOf {A : Type 0} : List A → List A → Type 0 where
  nothing : IsPartOf [] []
  left_out : {x : A} {xs ys : List A} → IsPartOf xs ys → IsPartOf xs (x ∷ ys)
  kept : {x : A} {xs ys : List A} → IsPartOf xs ys → IsPartOf (x ∷ xs) (x ∷ ys)

module _ {A : Type 0} where
  IsPartOf-nil : (ys : List A) → IsPartOf [] ys
  IsPartOf-nil [] = nothing
  IsPartOf-nil (y ∷ ys) = left_out (IsPartOf-nil ys)

  IsPartOf-take : (k : ℕ) (ys : List A) → IsPartOf (take k ys) ys
  IsPartOf-take zero ys = IsPartOf-nil ys
  IsPartOf-take (suc k) [] = nothing
  IsPartOf-take (suc k) (y ∷ ys) = kept (IsPartOf-take k ys)

  IsPartOf-append :
      {xs ys : List A} (us vs : List A)
      → IsPartOf xs ys
      → IsPartOf us vs
      → IsPartOf (xs ++ us) (ys ++ vs)
  IsPartOf-append us vs nothing q = q
  IsPartOf-append us vs (left_out p) q = left_out (IsPartOf-append us vs p q)
  IsPartOf-append us vs (kept p) q = kept (IsPartOf-append us vs p q)

  IsPartOf-longer : {xs ys : List A} (vs : List A) → IsPartOf xs ys → IsPartOf xs (ys ++ vs)
  IsPartOf-longer vs nothing = IsPartOf-nil vs
  IsPartOf-longer vs (left_out p) = left_out (IsPartOf-longer vs p)
  IsPartOf-longer vs (kept p) = kept (IsPartOf-longer vs p)

-- What a subscriber has received: a write that is cut off may have handed on some rows.
pub record Receives {Row S : Type 0} ⦃sub : Subscriber Row S⦄ (received : S → List Row)
    : Type 0 where
  pub written :
      (rows : List Row) (s : S)
      → (k : ℕ) × (received (sub.write rows s).1 ≡ received s ++ take k rows)
  pub closed : (s : S) → received (sub.close_interval s).1 ≡ received s
  pub closed_nowait : (s : S) → received (sub.close_interval_nowait s).1 ≡ received s

module _ {Row S : Type 0} ⦃sub : Subscriber Row S⦄ (received : S → List Row)
    (laws : Receives received) where
  -- Every subscriber has received some of the rows, in their order.
  abbrev pub AllReceive : List S → List Row → Type 0
  AllReceive [] rows = Unit
  AllReceive (s ∷ ss) rows = IsPartOf (received s) rows × AllReceive ss rows

  AllReceive-longer :
      (ss : List S) (rows new : List Row) → AllReceive ss rows → AllReceive ss (rows ++ new)
  AllReceive-longer [] rows new h = tt
  AllReceive-longer (s ∷ ss) rows new h =
      (IsPartOf-longer new h.0, AllReceive-longer ss rows new h.1)

  each-AllReceive :
      (m : S → Outcome × S) (ss : List S) (rows : List Row)
      → ((s : S) → received (m s).1 ≡ received s)
      → AllReceive ss rows
      → AllReceive (each_subscriber m ss).1 rows
  unfolding each_subscriber
  each-AllReceive m [] rows same h = tt
  each-AllReceive m (s ∷ ss) rows same h =
      let rest = each-AllReceive m ss rows same h.1 in
      let first : IsPartOf (received (m s).1) rows = rw (same s) h.0 in
      if_ind (λ (out : Bool × List S). AllReceive out.1 rows) (is_accepted (m s).0)
        (λ _. (first, rest)) (λ _. (first, h.1))

  settle-AllReceive :
      (o : Outcome) (s : S) (closing : Outcome × S) (later : Bool × List S) (others : List S)
      (rows : List Row)
      → IsPartOf (received s) rows
      → IsPartOf (received closing.1) rows
      → AllReceive later.1 rows
      → AllReceive others rows
      → AllReceive (settle o s closing later others).1 rows
  settle-AllReceive accepted s closing later others rows first closed rest skipped = (first, rest)
  settle-AllReceive disconnected s closing later others rows first closed rest skipped = rest
  settle-AllReceive timed_out s closing later others rows first closed rest skipped =
      if_ind (λ (out : Bool × List S). AllReceive out.1 rows) (is_accepted closing.0)
        (λ _. (closed, rest)) (λ _. (closed, skipped))
  settle-AllReceive refused s closing later others rows first closed rest skipped = (first, skipped)

  deliver-AllReceive :
      (ss : List S) (rows new : List Row)
      → AllReceive ss rows
      → AllReceive (deliver new ss).1 (rows ++ new)
  unfolding deliver
  deliver-AllReceive [] rows new h = tt
  deliver-AllReceive (s ∷ ss) rows new h =
      let (o, s') = sub.write new s in
      let (k, got) = laws.written new s in
      let first : IsPartOf (received s') (rows ++ new) =
        rw got (IsPartOf-append (take k new) new h.0 (IsPartOf-take k new)) in
      settle-AllReceive o s' (sub.close_interval_nowait s') (deliver new ss) ss (rows ++ new) first
        (rw (laws.closed_nowait s') first) (deliver-AllReceive ss rows new h.1)
        (AllReceive-longer ss rows new h.1)

  end_interval-AllReceive :
      (at_end : Bool) (h : Handler Row S)
      → AllReceive h.subscribers h.consumed
      → AllReceive (end_interval at_end h).1.subscribers (end_interval at_end h).1.consumed
  unfolding end_interval
  end_interval-AllReceive true h all =
      each-AllReceive sub.close_interval_nowait h.subscribers h.consumed laws.closed_nowait all
  end_interval-AllReceive false h all = all

  refuse-AllReceive :
      (h : Handler Row S)
      → AllReceive h.subscribers h.consumed
      → AllReceive (refuse h).subscribers (refuse h).consumed
  unfolding refuse
  refuse-AllReceive h all =
      each-AllReceive sub.close_interval h.subscribers h.consumed laws.closed all

  module _ ⦃ts : Timestamped Row⦄ where
    handle-AllReceive :
        (block : List Row × Bool) (h : Handler Row S)
        → AllReceive h.subscribers h.consumed
        → AllReceive (handle block h).1.subscribers (handle block h).1.consumed
    unfolding handle
    handle-AllReceive ([], at_end) h all = end_interval-AllReceive at_end h all
    handle-AllReceive (row ∷ rows, at_end) h all =
        let (sent, ss) = deliver (row ∷ rows) h.subscribers in
        let h' = record h {
          subscribers = ss;
          last_ts = some (last_of (ts.timestamp row) (times rows));
          consumed = h.consumed ++ (row ∷ rows);
        } in
        let Good = λ (out : Bool × Handler Row S). AllReceive out.1.subscribers out.1.consumed in
        let delivered = deliver-AllReceive h.subscribers h.consumed (row ∷ rows) all in
        if_ind Good (verify_monotonic_timestamps (times (row ∷ rows)) h.last_ts)
          (λ _.
            if_ind Good sent (λ _. end_interval-AllReceive at_end h' delivered) (λ _. delivered))
          (λ _. refuse-AllReceive h all)

    -- Whatever the module writes, each subscriber that is left has received a part of the rows that the
    -- handler has consumed, in their order and no row twice, if that is so at first, and if a write
    -- hands on a prefix of its rows and closing an interval none.
    pub output_handler-AllReceive :
        (blocks : List (List Row × Bool)) (h : Handler Row S)
        → AllReceive h.subscribers h.consumed
        → AllReceive (output_handler blocks h).subscribers (output_handler blocks h).consumed
    unfolding output_handler
    output_handler-AllReceive [] h all = all
    output_handler-AllReceive (block ∷ blocks) h all =
        let (go_on, h') = handle block h in
        let one = handle-AllReceive block h all in
        if_ind (λ (out : Handler Row S). AllReceive out.subscribers out.consumed) go_on
          (λ _. output_handler-AllReceive blocks h' one) (λ _. one)

module _ {Row : Type 0} ⦃ts : Timestamped Row⦄ where
  abbrev pub AllTimes : List (List Row × Bool) → Type 0
  AllTimes [] = Unit
  AllTimes (block ∷ blocks) = AreTimes (times block.0) × AllTimes blocks

module _ {Row S : Type 0} ⦃ts : Timestamped Row⦄ ⦃sub : Subscriber Row S⦄ where
  -- The consumed rows go on in time, and `last_ts` is the timestamp of the last.
  abbrev pub GoesOn : Handler Row S → Type 0
  GoesOn h =
      (increasing_from none (times h.consumed) ≡ true)
      × (h.last_ts ≡ last_after none (times h.consumed))

  end_interval-GoesOn :
      (at_end : Bool) (h : Handler Row S) → GoesOn h → GoesOn (end_interval at_end h).1
  unfolding end_interval
  end_interval-GoesOn true h good = good
  end_interval-GoesOn false h good = good

  handle-GoesOn :
      (block : List Row × Bool) (h : Handler Row S)
      → AreTimes (times block.0)
      → GoesOn h
      → GoesOn (handle block h).1
  unfolding handle refuse times
  handle-GoesOn ([], at_end) h small good = end_interval-GoesOn at_end h good
  handle-GoesOn (row ∷ rows, at_end) h small (increasing, last) =
      let (sent, ss) = deliver (row ∷ rows) h.subscribers in
      let new = times (row ∷ rows) in
      let h' = record h {
        subscribers = ss;
        last_ts = some (last_of (ts.timestamp row) (times rows));
        consumed = h.consumed ++ (row ∷ rows);
      } in
      let Good = λ (out : Bool × Handler Row S). GoesOn out.1 in
      let joined : times (h.consumed ++ (row ∷ rows)) ≡ times h.consumed ++ new =
        map-append ts.timestamp h.consumed (row ∷ rows) in
      if_ind Good (verify_monotonic_timestamps new h.last_ts)
        (λ passed.
          let checked : increasing_from (last_after none (times h.consumed)) new ≡ true =
            rw (← last, ← verify_monotonic_timestamps_lem h.last_ts new small) passed in
          let good : GoesOn h' = (
            rw joined (increasing-append none (times h.consumed) new increasing checked),
            rw joined
                (sym (last_after-append none (times h.consumed) (ts.timestamp row) (times rows))),
          ) in
          if_ind Good sent (λ _. end_interval-GoesOn at_end h' good) (λ _. good))
        (λ _. (increasing, last))

  -- Whatever the module writes, the rows that the handler consumes go on in time without a step
  -- back, within a block and from one to the next, if all timestamps are between -2^62 and 2^62.
  pub output_handler-GoesOn :
      (blocks : List (List Row × Bool)) (h : Handler Row S)
      → AllTimes blocks
      → GoesOn h
      → GoesOn (output_handler blocks h)
  unfolding output_handler
  output_handler-GoesOn [] h small good = good
  output_handler-GoesOn (block ∷ blocks) h small good =
      let (go_on, h') = handle block h in
      let one = handle-GoesOn block h small.0 good in
      if_ind (λ (out : Handler Row S). GoesOn out) go_on
        (λ _. output_handler-GoesOn blocks h' small.1 one) (λ _. one)
