-- ===== src/Pipe/Output.antt =====
-- The pipe into a byte stream: src/joule/models/pipes/output_pipe.py. What is handed to the writer is
-- the list `sent`: the bytes of a row, or an interval token (`none`). A writer that is not there yet is
-- made by the factory. `broken` says that the other side has gone, and `drain` raises.
pub mod Sending
mod Tests
use joule.Base.{
  ℕ, ◌+◌, Bool, true, false, Option, none, some, List, [], ◌∷◌, ◌++◌, map, length, leb,
  if◌then◌else◌,
}
use joule.Pipe.{
  closed, index_error, os_error, Result, ok, raised, Action, pure, raise, gets, modify, ◌>>=◌, ◌>>◌,
  Numpy, Data, is_nil, checked_rows, Sink, each,
}

-- The attributes of an `OutputPipe`. `cache` holds the rows `_cache[:_cache_index]`, `cache_size` is
-- `len(_cache)`. `callbacks` counts the runs of `close_cb`.
pub record OutputPipe (Row Dtype S : Type 0) : Type 0 where
  pub dtype : Dtype
  pub is_closed : Bool
  pub has_writer : Bool
  pub broken : Bool
  pub sent : List (Option Row)
  pub caching : Bool
  pub cache : List Row
  pub cache_size : ℕ
  pub subscribers : List S
  pub close_cb : Bool
  pub callbacks : ℕ

module _ {Row Dtype S : Type 0} where
  pub enable_cache : ℕ → OutputPipe Row Dtype S → OutputPipe Row Dtype S
  enable_cache lines p = record p { caching = true; cache = []; cache_size = lines }

  -- `await self.writer.drain()`
  pub drain : Action (OutputPipe Row Dtype S) (Unit {0})
  drain p = if p.broken then (raised os_error, p) else (ok tt, p)

  -- `self.writer.write(...)`
  pub send : List (Option Row) → Action (OutputPipe Row Dtype S) (Unit {0})
  send items p = (ok tt, record p { sent = p.sent ++ items })

  pub open_writer : Action (OutputPipe Row Dtype S) (Unit {0})
  open_writer p = (ok tt, record p { has_writer = true })

  pub for_subscribers : Action S (Unit {0}) → Action (OutputPipe Row Dtype S) (Unit {0})
  for_subscribers m p =
      let (r, subscribers) = each m p.subscribers in (r, record p { subscribers = subscribers })

  -- Cached rows that are not sent are dropped.
  pub close_interval_nowait : Action (OutputPipe Row Dtype S) (Unit {0})
  close_interval_nowait p =
      if p.is_closed
      then (raised closed, p)
      else if p.has_writer
      then send (none ∷ []) (record p { cache = [] })
      else (ok tt, p)

module _ {Row Dtype S : Type 0} ⦃sink : Sink Row Dtype S⦄ where
  -- `_write`
  pub write_rows : List Row → Action (OutputPipe Row Dtype S) (Unit {0})
  write_rows rows = do
    open_writer
    dtype ← gets (λ p. p.dtype)
    for_subscribers (sink.write dtype rows)
    send (map some rows)
    drain

  pub flush_cache : Action (OutputPipe Row Dtype S) (Unit {0})
  flush_cache p =
      let written = (write_rows p.cache >> modify (λ q. record q { cache = [] })) p in
      if p.is_closed then (raised closed, p) else if is_nil p.cache then (ok tt, p) else written

  -- `if self._caching: await self.flush_cache()`
  pub flush_if_caching : Action (OutputPipe Row Dtype S) (Unit {0})
  flush_if_caching p = if p.caching then flush_cache p else (ok tt, p)

  -- The body of the loop of `write` that fills the cache.
  pub cache_row : Row → Action (OutputPipe Row Dtype S) (Unit {0})
  cache_row row p =
      let p' = record p { cache = p.cache ++ row ∷ [] } in
      let flushed = flush_cache p' in
      if leb p.cache_size (length p.cache)
      then (raised index_error, p)
      else if leb p'.cache_size (length p'.cache)
      then flushed
      else (ok tt, p')

  pub cache_rows : List Row → Action (OutputPipe Row Dtype S) (Unit {0})
  cache_rows [] = pure tt
  cache_rows (row ∷ rows) = cache_row row >> cache_rows rows

  pub close_interval : Action (OutputPipe Row Dtype S) (Unit {0})
  close_interval p =
      let closing = (flush_if_caching >> send (none ∷ []) >> drain) p in
      if p.is_closed then (raised closed, p) else if p.has_writer then closing else (ok tt, p)

  -- The writer is closed after the callback, the subscribers after the writer.
  pub close : Action (OutputPipe Row Dtype S) (Unit {0})
  close p =
      let closing : Action (OutputPipe Row Dtype S) (Unit {0}) = do
        flush_if_caching
        modify (λ q. record q { callbacks = if q.close_cb then q.callbacks + 1 else q.callbacks })
        modify (λ q. record q { has_writer = false })
        for_subscribers sink.close
        modify (λ q. record q { is_closed = true })
      in if p.is_closed then (ok tt, p) else closing p

  -- `write`, on rows that have passed the checks
  abbrev pub write_checked : Result (Option (List Row)) → Action (OutputPipe Row Dtype S) (Unit {0})
  write_checked (raised e) p = (raised e, p)
  write_checked (ok none) p = (ok tt, p)
  write_checked (ok (some rows)) p = if p.caching then cache_rows rows p else write_rows rows p

module _ {Row Dtype Matrix S : Type 0} ⦃np : Numpy Row Dtype Matrix⦄ ⦃sink : Sink Row Dtype S⦄ where
  pub write : Data Row Dtype Matrix → Action (OutputPipe Row Dtype S) (Unit {0})
  write array p =
      if p.is_closed then (raised closed, p) else write_checked (checked_rows p.dtype array) p
