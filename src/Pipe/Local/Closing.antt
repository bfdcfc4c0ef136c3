-- ===== src/Pipe/Local/Closing.antt =====
-- The end of a local pipe: closing it, and the methods that do not keep its rows.
use joule.Base.{◌+◌, ◌≤◌, ◌≡◌, true, false, Option, some, List, ◌∷◌, length, arith, if◌then◌else◌}
use joule.Base.Int.{◌+ℤ◌}
use joule.Pipe.{Result, ok, raised, Sink, value_error}
use joule.Pipe.Local.{
  LocalPipe, flush_cache, flush_if_caching, for_subscribers, close, change_layout, read_queue, fill,
  gather, write_rows, put,
}

module _ {Row Dtype S : Type 0} where
  -- What `close` does to a pipe that is not closed, where no exception stops it.
  abbrev pub Closes : LocalPipe Row Dtype S → Result (Unit {0}) × LocalPipe Row Dtype S → Type 0
  Closes p (ok _, q) =
      (q.is_closed ≡ true) × (q.callbacks ≡ (if p.close_cb then p.callbacks + 1 else p.callbacks))
  Closes p (raised e, q) = (q.is_closed ≡ false) × (q.callbacks ≡ p.callbacks)

module _ {Row Dtype S : Type 0} ⦃sink : Sink Row Dtype S⦄ where
  -- Writing touches neither the callback nor the flag that says the pipe is closed.
  abbrev Leaves : LocalPipe Row Dtype S → LocalPipe Row Dtype S → Type 0
  Leaves p q = (q.is_closed ≡ p.is_closed) × (q.callbacks ≡ p.callbacks) × (q.close_cb ≡ p.close_cb)

  flush_cache-Leaves : (p : LocalPipe Row Dtype S) → Leaves p (flush_cache p).1
  unfolding flush_cache write_rows put for_subscribers
  flush_cache-Leaves p = ground arith

  flush_if_caching-Leaves : (p : LocalPipe Row Dtype S) → Leaves p (flush_if_caching p).1
  unfolding flush_if_caching
  flush_if_caching-Leaves p = ground (arith, flush_cache-Leaves p)

  close-Closes : (p : LocalPipe Row Dtype S) → p.is_closed ≡ false → Closes p (close p)
  unfolding close for_subscribers
  close-Closes p h = ground (arith, flush_if_caching-Leaves p)

  again :
      (p : LocalPipe Row Dtype S) (out : Result (Unit {0}) × LocalPipe Row Dtype S)
      → Closes p out
      → out.0 ≡ ok tt
      → close out.1 ≡ (ok tt, out.1)
  unfolding close
  again p (ok u, q) c e = simp (c.0)
  again p (raised x, q) c e = cc

  -- Closing a pipe that is open, if it succeeds, marks it closed and runs the callback once, if there
  -- is one; if it raises, the pipe stays open and no callback has run. Closing it again does nothing.
  pub close_once :
      (p : LocalPipe Row Dtype S)
      → p.is_closed ≡ false
      → Closes p (close p) × ((close p).0 ≡ ok tt → close (close p).1 ≡ (ok tt, (close p).1))
  close_once p h = let c = close-Closes p h in (c, again p (close p) c)

module _ {Row Dtype S : Type 0} where
  -- After `change_layout` on a pipe whose queue starts with a block of two rows or more, the next
  -- read raises numpy's error: `queued_rows` is reset and the queue is not.
  pub change_layout_breaks_read :
      (d : Dtype) (p : LocalPipe Row Dtype S) (block : List Row) (q : List (Option (List Row)))
      → p.queue ≡ some block ∷ q
      → 2 ≤ length block
      → (read_queue (change_layout d p)).0 ≡ raised value_error
  unfolding read_queue change_layout fill gather ◌+ℤ◌
  change_layout_breaks_read d p block q e h = ground arith
