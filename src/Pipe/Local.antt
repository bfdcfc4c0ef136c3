-- ===== src/Pipe/Local.antt =====
-- The pipe between tasks: src/joule/models/pipes/local_pipe.py. A coroutine that has to wait for
-- another task (a read of an empty queue, a write to a full one) ends with `would_block`, in the
-- state in which it waits. `flatten` only formats what is returned and is left out.
pub mod Queue
pub mod Invariant
pub mod Write
pub mod Nowait
pub mod Reading
pub mod Methods
pub mod Balance
pub mod Fifo
pub mod Closing
pub mod Breaks
pub mod Rounds
pub mod ReadAll
mod Tests
use joule.Base.{
  ℕ, ◌+◌, Bool, true, false, ◌&&◌, Option, none, some, List, [], ◌∷◌, ◌++◌, ltb, leb, ◌==◌,
  if◌then◌else◌, length, drop,
}
use joule.Base.Int.{ℤ, pos, ◌+ℤ◌, ◌-ℤ◌}
use joule.Pipe.{
  failed, closed, negative_consume, consume_too_many, nothing_to_reread, has_subscribers,
  has_callback, empty_pipe, value_error, index_error, queue_full, would_block, Result, ok, raised,
  Action, pure, raise, gets, modify, ◌>>=◌, ◌>>◌, Numpy, Data, is_nil, checked_rows, Sink, each,
}

-- The attributes of a `LocalPipe`. `cache` holds the rows `_cache[:_cache_index]`, `cache_size` is
-- `len(_cache)`. A `write_limit` of 0 is an unbounded queue. `callbacks` counts the runs of
-- `close_cb`.
pub record LocalPipe (Row Dtype S : Type 0) : Type 0 where
  pub dtype : Dtype
  pub is_closed : Bool
  pub is_failed : Bool
  pub reread : Bool
  pub last_read : Bool
  pub interval_break : Bool
  pub read_buffer : List Row
  pub queue : List (Option (List Row))
  pub queued_rows : ℤ
  pub write_limit : ℕ
  pub caching : Bool
  pub cache : List Row
  pub cache_size : ℕ
  pub subscribers : List S
  pub close_cb : Bool
  pub callbacks : ℕ

abbrev pub Gathered : Type 0 → Type 0
Gathered Row = Result (Bool × List Row) × (List (Option (List Row)) × ℤ)

module _ {Row : Type 0} where
  -- `buffer[start:end] = block`, on the buffer's size and the rows copied so far. numpy refuses a
  -- block that does not fit, but for one of a single row, which it broadcasts over no row.
  pub fill : ℕ → List Row → List Row → Result (List Row)
  fill size rows block =
      if leb (length rows + length block) size
      then ok (rows ++ block)
      else if length block == 1
      then ok rows
      else raised value_error

  -- The loop of `_read`, on the rows copied so far, the queue and `queued_rows`. It returns whether
  -- it stopped at an interval break, and the rows.
  pub gather : ℕ → List Row → List (Option (List Row)) → ℤ → Gathered Row
  gather size rows [] queued = (ok (false, rows), ([], queued))
  gather size rows (none ∷ queue) queued = (ok (true, rows), (queue, queued))
  gather size rows (some block ∷ queue) queued = elim (fill size rows block) [
    | ok rows' ↦ gather size rows' queue (queued -ℤ pos (length block))
    | raised e ↦ (raised e, (queue, queued))
  ]

module _ {Row Dtype S : Type 0} where
  -- `LocalPipe.__init__`
  abbrev pub new_pipe : Dtype → ℕ → Bool → LocalPipe Row Dtype S
  new_pipe dtype write_limit close_cb = record {
    dtype = dtype;
    is_closed = false;
    is_failed = false;
    reread = false;
    last_read = false;
    interval_break = false;
    read_buffer = [];
    queue = [];
    queued_rows = pos 0;
    write_limit = write_limit;
    caching = false;
    cache = [];
    cache_size = 0;
    subscribers = [];
    close_cb = close_cb;
    callbacks = 0;
  }

  abbrev pub gathered : Gathered Row → Action (LocalPipe Row Dtype S) (List Row)
  gathered (raised e, (queue, queued)) p =
      (raised e, record p { queue = queue; queued_rows = queued })
  gathered (ok (break, rows), (queue, queued)) p = (
    ok rows,
    record p {
      read_buffer = rows;
      queue = queue;
      queued_rows = queued;
      interval_break = if break then true else p.interval_break;
    },
  )

  abbrev pub gather_from : Result (List Row) → ℕ → Action (LocalPipe Row Dtype S) (List Row)
  gather_from (raised e) size p = (raised e, p)
  gather_from (ok rows) size p = gathered (gather size rows p.queue p.queued_rows) p

  abbrev pub read_sized : ℤ → Action (LocalPipe Row Dtype S) (List Row)
  read_sized (ℤ.negsuc n) p = (raised value_error, p)
  read_sized (pos size) p = gather_from (fill size [] p.read_buffer) size p

  -- `_read`: the queue is popped as the loop runs, the buffer is assigned at the end.
  pub read_queue : Action (LocalPipe Row Dtype S) (List Row)
  read_queue p = read_sized (p.queued_rows +ℤ pos (length p.read_buffer)) p

  pub read_nowait : Action (LocalPipe Row Dtype S) (List Row)
  read_nowait p =
      if p.is_failed
      then (raised failed, p)
      else if p.reread
      then (
        if is_nil p.read_buffer then raised nothing_to_reread else ok p.read_buffer,
        record p { reread = false },
      )
      else if is_nil p.queue && (if is_nil p.read_buffer then false else true)
      then (ok p.read_buffer, p)
      else if is_nil p.queue && is_nil p.read_buffer && p.is_closed
      then (raised empty_pipe, p)
      else read_queue p

  unfoldable pub consume : ℤ → Action (LocalPipe Row Dtype S) (Unit {0})
  consume (ℤ.negsuc n) p = (raised negative_consume, p)
  consume (pos n) p =
      if n == 0
      then (ok tt, p)
      else if ltb (length p.read_buffer) n
      then (raised consume_too_many, p)
      else (ok tt, record p { read_buffer = drop n p.read_buffer })

  pub consume_all : Action (LocalPipe Row Dtype S) (Unit {0})
  consume_all p = consume (pos (length p.read_buffer)) p

  -- `Pipe.reread_last`, `Pipe.fail`
  pub reread_last : Action (LocalPipe Row Dtype S) (Unit {0})
  reread_last p = (ok tt, record p { reread = true })

  pub fail : LocalPipe Row Dtype S → LocalPipe Row Dtype S
  fail p = record p { is_failed = true }

  pub enable_cache : ℕ → LocalPipe Row Dtype S → LocalPipe Row Dtype S
  enable_cache lines p = record p { caching = true; cache = []; cache_size = lines }

  pub change_layout : Dtype → LocalPipe Row Dtype S → LocalPipe Row Dtype S
  change_layout dtype p = record p {
    dtype = dtype;
    read_buffer = [];
    queued_rows = pos 0;
    cache = if p.caching then [] else p.cache;
  }

  pub close_nowait : Action (LocalPipe Row Dtype S) (Unit {0})
  close_nowait p =
      if is_nil p.subscribers
      then (if p.close_cb then (raised has_callback, p) else (ok tt, record p { is_closed = true }))
      else (raised has_subscribers, p)

  -- `queue.put`: it waits while a bounded queue is full.
  pub put : Option (List Row) → Action (LocalPipe Row Dtype S) (Unit {0})
  put item p =
      if p.write_limit == 0
      then (ok tt, record p { queue = p.queue ++ item ∷ [] })
      else if leb p.write_limit (length p.queue)
      then (raised would_block, p)
      else (ok tt, record p { queue = p.queue ++ item ∷ [] })

  -- `queue.put_nowait`
  pub put_nowait : Option (List Row) → Action (LocalPipe Row Dtype S) (Unit {0})
  put_nowait item p =
      if p.write_limit == 0
      then (ok tt, record p { queue = p.queue ++ item ∷ [] })
      else if leb p.write_limit (length p.queue)
      then (raised queue_full, p)
      else (ok tt, record p { queue = p.queue ++ item ∷ [] })

  abbrev pub count_rows : List Row → Action (LocalPipe Row Dtype S) (Unit {0})
  count_rows rows = modify (λ p. record p { queued_rows = p.queued_rows +ℤ pos (length rows) })

  -- A loop over the subscribers.
  pub for_subscribers : Action S (Unit {0}) → Action (LocalPipe Row Dtype S) (Unit {0})
  for_subscribers m p =
      let (r, subscribers) = each m p.subscribers in (r, record p { subscribers = subscribers })

-- What `Pipe.is_empty` makes of a read, which is read again where it returns.
abbrev pub emptiness : {Row : Type 0} → Result (List Row) → Result Bool
emptiness (ok rows) = ok false
emptiness (raised empty_pipe) = ok true
emptiness (raised e) = raised e

abbrev pub read_again :
    {Row Dtype S : Type 0} → Result (List Row) → LocalPipe Row Dtype S → LocalPipe Row Dtype S
read_again (ok rows) p = record p { reread = true }
read_again (raised e) p = p

module _ {Row Dtype S : Type 0} ⦃sink : Sink Row Dtype S⦄ where
  -- `_write`
  pub write_rows : List Row → Action (LocalPipe Row Dtype S) (Unit {0})
  write_rows rows = do
    dtype ← gets (λ p. p.dtype)
    for_subscribers (sink.write dtype rows)
    put (some rows)
    count_rows rows

  pub flush_cache : Action (LocalPipe Row Dtype S) (Unit {0})
  flush_cache p =
      let written = (write_rows p.cache >> modify (λ q. record q { cache = [] })) p in
      if p.is_closed then (raised closed, p) else if is_nil p.cache then (ok tt, p) else written

  -- `if self._caching: await self.flush_cache()`
  pub flush_if_caching : Action (LocalPipe Row Dtype S) (Unit {0})
  flush_if_caching p = if p.caching then flush_cache p else (ok tt, p)

  -- The body of the loop of `write` that fills the cache.
  pub cache_row : Row → Action (LocalPipe Row Dtype S) (Unit {0})
  cache_row row p =
      let p' = record p { cache = p.cache ++ row ∷ [] } in
      let flushed = flush_cache p' in
      if leb p.cache_size (length p.cache)
      then (raised index_error, p)
      else if leb p'.cache_size (length p'.cache)
      then flushed
      else (ok tt, p')

  pub cache_rows : List Row → Action (LocalPipe Row Dtype S) (Unit {0})
  cache_rows [] = pure tt
  cache_rows (row ∷ rows) = cache_row row >> cache_rows rows

  pub close : Action (LocalPipe Row Dtype S) (Unit {0})
  close p =
      let closing : Action (LocalPipe Row Dtype S) (Unit {0}) = do
        flush_if_caching
        for_subscribers sink.close
        modify (λ q. record q {
          is_closed = true;
          callbacks = if q.close_cb then q.callbacks + 1 else q.callbacks;
        })
      in if p.is_closed then (ok tt, p) else closing p

  -- `read`
  pub read : Action (LocalPipe Row Dtype S) (List Row)
  read p =
      let fresh = record p { interval_break = false } in
      let ready = if is_nil p.queue then record fresh { last_read = true } else fresh in
      if p.reread
      then (ok p.read_buffer, record p { reread = false })
      else if p.is_failed
      then (close >> raise failed) p
      else if is_nil p.queue && (if p.is_closed then false else true)
      then (raised would_block, fresh)
      else (read_queue >>= λ rows q.
            (if is_nil rows && q.is_closed then raised empty_pipe else ok rows, q))
          ready

  pub close_interval : Action (LocalPipe Row Dtype S) (Unit {0})
  close_interval p =
      let closing : Action (LocalPipe Row Dtype S) (Unit {0}) = do
        flush_if_caching
        put none
        for_subscribers sink.close_interval
      in if p.is_failed
        then (raised failed, p)
        else if p.is_closed
        then (raised closed, p)
        else closing p

  pub close_interval_nowait : Action (LocalPipe Row Dtype S) (Unit {0})
  close_interval_nowait p =
      if p.is_failed
      then (raised failed, p)
      else (put_nowait none >> for_subscribers sink.close_interval_nowait) p

  -- `Pipe.is_empty`
  pub is_empty : Action (LocalPipe Row Dtype S) Bool
  is_empty p =
      let (r, p') = read p in if p.reread then (ok false, p) else (emptiness r, read_again r p')

abbrev pub when_checked :
    {Row P : Type 0}
    → Result (Option (List Row))
    → (List Row → Action P (Unit {0}))
    → Action P (Unit {0})
when_checked (raised e) k p = (raised e, p)
when_checked (ok none) k p = (ok tt, p)
when_checked (ok (some rows)) k p = k rows p

module _ {Row Dtype Matrix S : Type 0} ⦃np : Numpy Row Dtype Matrix⦄ ⦃sink : Sink Row Dtype S⦄ where
  pub write : Data Row Dtype Matrix → Action (LocalPipe Row Dtype S) (Unit {0})
  write array p =
      if p.is_failed
      then (close >> raise failed) p
      else if p.is_closed
      then (raised closed, p)
      else when_checked (checked_rows p.dtype array)
          (λ rows q. if q.caching then cache_rows rows q else write_rows rows q) p

  -- All subscribers are taken to be local pipes; another is refused by the source.
  pub write_nowait : Data Row Dtype Matrix → Action (LocalPipe Row Dtype S) (Unit {0})
  write_nowait array p =
      if p.is_failed
      then (raised failed, p)
      else if p.is_closed
      then (raised closed, p)
      else when_checked (checked_rows p.dtype array)
          (λ rows. do
            for_subscribers (sink.write_nowait p.dtype rows)
            put_nowait (some rows)
            count_rows rows)
          p
