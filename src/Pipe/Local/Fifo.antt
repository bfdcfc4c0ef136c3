-- ===== src/Pipe/Local/Fifo.antt =====
-- Sequences of calls of a local pipe: the rows that they write, consume and leave.
use joule.Base.{ℕ, ◌≡◌, refl, Bool, true, false, ◌&&◌, List, [], ◌∷◌, ◌++◌, append-nil, sym, ◌∙◌}
use joule.Base.Int.{ℤ}
use joule.Pipe.{ok, Action, Sink, ◌>>=◌, Numpy, Data, checked_rows, is_nil, pure}
use joule.Pipe.Local.{
  LocalPipe, read, read_nowait, consume, close, flush_cache, close_interval, close_interval_nowait,
  write,
}
use joule.Pipe.Local.Invariant.{stored, IsValid, flush_cache-Keeps}
use joule.Pipe.Local.Write.{
  close-Preserves, close_interval-Preserves, close_interval_nowait-Preserves, offered, write-Stores,
}
use joule.Pipe.Local.Reading.{read-Reads, read_nowait-Reads, consume-Consumes}
use joule.Pipe.Local.{
  write_nowait, reread_last, is_empty, consume_all, enable_cache, close_nowait, fail,
}
use joule.Pipe.Local.Nowait.{write_nowait-IsValid, write_nowait-Stores}
use joule.Pipe.Local.Methods.{
  nil_of, reread_last-Preserves, fail-Keeps, close_nowait-Preserves, enable_cache-IsValid,
  enable_cache-stored, is_empty-Preserves, consume_all-Consumes,
}
use joule.Pipe.Local.Balance.{
  pos_rows, report, Balanced, Keeps-Balanced, Reads-Balanced, Stores-Balanced, Consumes-Balanced,
  where_ok, then-Balanced, then-IsValid, Balanced-IsValid, report-IsValid, consumed_all-Balanced,
}

-- The calls of a pipe, in any order: all its methods but `change_layout`, which drops rows, and `subscribe`.
pub data Call (Row Dtype Matrix : Type 0) : Type 0 where
  write_call : Data Row Dtype Matrix → Call Row Dtype Matrix
  write_nowait_call : Data Row Dtype Matrix → Call Row Dtype Matrix
  read_call read_nowait_call reread_last_call is_empty_call : Call Row Dtype Matrix
  consume_call : ℤ → Call Row Dtype Matrix
  consume_all_call : Call Row Dtype Matrix
  enable_cache_call : ℕ → Call Row Dtype Matrix
  flush_cache_call : Call Row Dtype Matrix
  close_interval_call close_interval_nowait_call : Call Row Dtype Matrix
  close_call close_nowait_call fail_call : Call Row Dtype Matrix

and-true_left : (a b : Bool) → (a && b) ≡ true → a ≡ true
and-true_left true b h = refl
and-true_left false b h = cc

and-true_right : (a b : Bool) → (a && b) ≡ true → b ≡ true
and-true_right true b h = h
and-true_right false b h = absurd cc

module _ {Row Dtype Matrix S : Type 0} ⦃np : Numpy Row Dtype Matrix⦄ ⦃sink : Sink Row Dtype S⦄ where
  unfoldable pub perform :
      Call Row Dtype Matrix → Action (LocalPipe Row Dtype S) (List Row × List Row)
  perform (write_call array) p = report (offered (checked_rows p.dtype array), []) (write array p)
  perform read_call p = report ([], []) (read p)
  perform read_nowait_call p = report ([], []) (read_nowait p)
  perform flush_cache_call p = report ([], []) (flush_cache p)
  perform (consume_call n) p = report ([], pos_rows n p.read_buffer) (consume n p)
  perform close_interval_call p = report ([], []) (close_interval p)
  perform close_interval_nowait_call p = report ([], []) (close_interval_nowait p)
  perform close_call p = report ([], []) (close p)
  perform (write_nowait_call array) p =
      report (offered (checked_rows p.dtype array), []) (write_nowait array p)
  perform reread_last_call p = report ([], []) (reread_last p)
  perform is_empty_call p = report ([], []) (is_empty p)
  perform consume_all_call p = report ([], p.read_buffer) (consume_all p)
  perform (enable_cache_call lines) p = (ok ([], []), enable_cache lines p)
  perform close_nowait_call p = report ([], []) (close_nowait p)
  perform fail_call p = (ok ([], []), fail p)

  -- The calls in turn, up to the first that raises: all rows written and all rows consumed.
  unfoldable pub session :
      List (Call Row Dtype Matrix) → Action (LocalPipe Row Dtype S) (List Row × List Row)
  session [] = pure ([], [])
  session (c ∷ cs) = do
    first ← perform c
    rest ← session cs
    pure (first.0 ++ rest.0, first.1 ++ rest.1)

  -- `write_nowait` puts its rows in front of those in the cache, and `enable_cache` drops these.
  abbrev pub is_orderly : Call Row Dtype Matrix → LocalPipe Row Dtype S → Bool
  is_orderly (write_nowait_call array) p = is_nil p.cache
  is_orderly (enable_cache_call lines) p = is_nil p.cache
  is_orderly _ p = true

  -- Whether the cache is empty at each of these two calls that the session comes to.
  unfoldable pub are_orderly : List (Call Row Dtype Matrix) → LocalPipe Row Dtype S → Bool
  unfolding perform
  are_orderly [] p = true
  are_orderly (c ∷ cs) p = is_orderly c p && where_ok (perform c p) (are_orderly cs)

  perform-Balanced :
      (c : Call Row Dtype Matrix) (p : LocalPipe Row Dtype S)
      → IsValid p
      → is_orderly c p ≡ true
      → Balanced p (perform c p)
  unfolding perform
  perform-Balanced (write_call array) p v o =
      Stores-Balanced (offered (checked_rows p.dtype array)) p (write array p)
        (write-Stores array p v)
  perform-Balanced read_call p v o = Reads-Balanced p (read p) (read-Reads p v)
  perform-Balanced read_nowait_call p v o = Reads-Balanced p (read_nowait p) (read_nowait-Reads p v)
  perform-Balanced flush_cache_call p v o = Keeps-Balanced p (flush_cache p) (flush_cache-Keeps p v)
  perform-Balanced (consume_call n) p v o =
      Consumes-Balanced n p (consume n p) v (consume-Consumes n p v)
  perform-Balanced close_interval_call p v o =
      Keeps-Balanced p (close_interval p) (close_interval-Preserves p v)
  perform-Balanced close_interval_nowait_call p v o =
      Keeps-Balanced p (close_interval_nowait p) (close_interval_nowait-Preserves p v)
  perform-Balanced close_call p v o = Keeps-Balanced p (close p) (close-Preserves p v)
  perform-Balanced (write_nowait_call array) p v o =
      Stores-Balanced (offered (checked_rows p.dtype array)) p (write_nowait array p)
        (write_nowait-Stores array p v (nil_of p.cache o))
  perform-Balanced reread_last_call p v o =
      Keeps-Balanced p (reread_last p) (reread_last-Preserves p v)
  perform-Balanced is_empty_call p v o = Keeps-Balanced p (is_empty p) (is_empty-Preserves p v)
  perform-Balanced consume_all_call p v o =
      consumed_all-Balanced p (consume_all p) v (consume_all-Consumes p v)
  perform-Balanced (enable_cache_call lines) p v o = (
    enable_cache-IsValid lines p v,
    enable_cache-stored lines p (nil_of p.cache o) ∙ sym (append-nil (stored p)),
  )
  perform-Balanced close_nowait_call p v o =
      Keeps-Balanced p (close_nowait p) (close_nowait-Preserves p v)
  perform-Balanced fail_call p v o =
      ((fail-Keeps p v).0, (fail-Keeps p v).1 ∙ sym (append-nil (stored p)))

  perform-IsValid :
      (c : Call Row Dtype Matrix) (p : LocalPipe Row Dtype S) → IsValid p → IsValid (perform c p).1
  unfolding perform
  perform-IsValid (write_nowait_call array) p v =
      report-IsValid (offered (checked_rows p.dtype array), []) (write_nowait array p)
        (write_nowait-IsValid array p v)
  perform-IsValid (enable_cache_call lines) p v = enable_cache-IsValid lines p v
  perform-IsValid c p v = Balanced-IsValid p (perform c p) (perform-Balanced c p v refl)

  -- A pipe that is valid is valid after every sequence of calls, also where one of them raises.
  pub session-IsValid :
      (calls : List (Call Row Dtype Matrix)) (p : LocalPipe Row Dtype S)
      → IsValid p
      → IsValid (session calls p).1
  unfolding session
  session-IsValid [] p v = v
  session-IsValid (c ∷ cs) p v =
      then-IsValid p (perform c p) (session cs) (perform-IsValid c p v)
        (session-IsValid cs (perform c p).1)

  -- For every sequence of calls on a valid pipe, where the cache is empty at each `write_nowait` and
  -- `enable_cache`: if all calls succeed, the rows consumed followed by those that the pipe still holds
  -- are those that it held at first followed by those written, in order.
  pub session-Balanced :
      (calls : List (Call Row Dtype Matrix)) (p : LocalPipe Row Dtype S)
      → IsValid p
      → are_orderly calls p ≡ true
      → Balanced p (session calls p)
  unfolding session are_orderly
  session-Balanced [] p v o = (v, sym (append-nil (stored p)))
  session-Balanced (c ∷ cs) p v o =
      then-Balanced p (perform c p) (session cs)
        (perform-Balanced c p v (and-true_left (is_orderly c p) _ o)) (are_orderly cs)
        (and-true_right (is_orderly c p) _ o) (session-Balanced cs)
