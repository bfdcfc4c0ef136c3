-- ===== src/Inserter.antt =====
-- The task that moves a stream from its pipe into its tables: `Inserter` of
-- src/joule/models/data_store/timescale_inserter.py, with the checks of src/joule/utilities/misc.py. A
-- statement that the connection is lost in has no effect.
pub mod Untouched
pub mod Conservation
pub mod Retry
mod Tests
use joule.Base.{
  ℕ, ◌+◌, ◌-◌, ◌*◌, ◌/◌, ◌%◌, Bool, true, false, not, ◌&&◌, ◌||◌, Option, none, some, List, [], ◌∷◌,
  ◌++◌, map, length, ltb, ◌==◌, if◌then◌else◌, min,
}
use joule.Base.Time.{Timestamped, times}
use joule.Base.Int.{ℤ, pos, ltb_ℤ, ◌+ℤ◌, ◌-ℤ◌}
use joule.Pipe.{
  Error, Result, ok, raised, Action, pure, raise, gets, modify, raise_if, ◌>>=◌, ◌>>◌, is_nil, Sink,
  data_error, connection_error, empty_pipe,
}
use joule.Pipe.Local.{LocalPipe, read, consume}
use joule.Decimator.{max_chunk_interval}
use joule.Worker.{diffs, steps_back, is_after}
use joule.Store.{Tables, leb_ℤ, where_, create_stream_table, close_interval, remove_interval_breaks}

-- `timestamps_are_monotonic`
pub timestamps_are_monotonic : List ℤ → Option ℤ → Bool
timestamps_are_monotonic [] last_ts = true
timestamps_are_monotonic (t ∷ ts) last_ts =
    if steps_back (diffs (t ∷ ts)) then false else is_after last_ts t

-- The statements of a round that the connection may be lost in, if in any.
pub data Stage : Type 0 where
  nowhere at_measure at_acquire at_first_close at_merge at_copy at_decimate at_close at_cleanup :
      Stage

abbrev pub number : Stage → ℕ
number nowhere = 0
number at_measure = 1
number at_acquire = 2
number at_first_close = 3
number at_merge = 4
number at_copy = 5
number at_decimate = 6
number at_close = 7
number at_cleanup = 8

-- What a round depends on besides the state: where the connection is lost, and the clock.
pub record Moment : Type 0 where
  pub lost : Stage
  pub now : ℤ

-- numpy, psutil and TimescaleDB: whether a row has a NaN, the chunk interval that the differences of
-- some timestamps give, and the rows that `drop_chunks` leaves of a table.
pub record Outside (Row : Type 0) : Type 0 where
  pub has_nan : Row → Bool
  pub interval_of : List ℤ → ℕ
  pub drop_chunks : ℕ → ℤ → List Row → List Row

-- What the inserter asks of its decimator.
pub record Decimation (Row D : Type 0) : Type 0 where
  pub start : ℕ → D
  pub process : List Row → D → D
  pub close_interval : D → D
  pub set_chunk_interval : ℕ → D → D

-- The stream and the arguments of `Inserter.__init__`; a `keep_us` of `none` is KEEP_ALL.
pub record Settings : Type 0 where
  pub merge_gap : ℤ
  pub cleanup_interval : ℕ
  pub decimate : Bool
  pub keep_us : Option ℕ

-- The attributes of an `Inserter` and the variables of `run`. `copied` holds the rows that
-- `copy_to_table` has written, in order.
pub record Inserter (Row Dtype S D : Type 0) : Type 0 where
  pub pipe : LocalPipe Row Dtype S
  pub db : Tables Row
  pub copied : List Row
  pub decimator : Option D
  pub first_insert : Bool
  pub last_ts : Option ℤ
  pub ticks : ℕ
  pub chunk_interval : ℕ
  pub data_rate_buffer : List ℤ

abbrev pub Run : Type 0 → Type 0 → Type 0 → Type 0 → Type 0
Run Row Dtype S D = Action (Inserter Row Dtype S D) (Unit {0})

abbrev pub on_decimator : {D : Type 0} → (D → D) → Option D → Option D
on_decimator f none = none
on_decimator f (some d) = some (f d)

abbrev pub asks : {P : Type 0} → Moment → Stage → Action P (Unit {0}) → Action P (Unit {0})
asks m stage action p =
    if number m.lost == number stage then (raised connection_error, p) else action p

module _ {Row : Type 0} ⦃ts : Timestamped Row⦄ where
  -- The row in its place in the table.
  pub insert_row : Row → List Row → List Row
  insert_row r [] = r ∷ []
  insert_row r (row ∷ rows) =
      let rest = insert_row r rows in
      if ltb_ℤ (ts.timestamp r) (ts.timestamp row) then r ∷ row ∷ rows else row ∷ rest

  pub insert_rows : List Row → List Row → List Row
  insert_rows [] table = table
  insert_rows (r ∷ rs) table = insert_rows rs (insert_row r table)

  -- The table has a row at the time, so that its primary key is violated.
  abbrev pub is_taken : ℤ → List Row → Bool
  is_taken t [] = false
  is_taken t (row ∷ rows) =
      if leb_ℤ t (ts.timestamp row) && leb_ℤ (ts.timestamp row) t then true else is_taken t rows

  abbrev pub any_taken : List Row → List Row → Bool
  any_taken [] table = false
  any_taken (r ∷ rs) table = is_taken (ts.timestamp r) table || any_taken rs table

  -- `data['timestamp'][-1]`
  abbrev pub last_time : Row → List Row → ℤ
  last_time r [] = ts.timestamp r
  last_time r (row ∷ rows) = last_time row rows

abbrev pub any_nan : {Row : Type 0} ⦃out : Outside Row⦄ → List Row → Bool
any_nan [] = false
any_nan ⦃out⦄ (row ∷ rows) = out.has_nan row || any_nan rows

-- `except (PostgresConnectionError, socket.error)`
abbrev pub try_again :
    {Row Dtype S D : Type 0}
    → Result (Unit {0}) × Inserter Row Dtype S D
    → Result (Unit {0}) × Inserter Row Dtype S D
try_again (raised connection_error, s) = (ok tt, s)
try_again (r, s) = (r, s)

module _ {Row Dtype S D : Type 0} ⦃ts : Timestamped Row⦄ ⦃out : Outside Row⦄
    ⦃dec : Decimation Row D⦄ where
  abbrev pub on_tables : (Tables Row → Tables Row) → Inserter Row Dtype S D → Inserter Row Dtype S D
  on_tables f s = record s { db = f s.db }

  -- `update_chunk_interval`
  pub update_chunk_interval : Moment → ℕ → Run Row Dtype S D
  update_chunk_interval m chunk_interval s =
      let limit = min chunk_interval max_chunk_interval in
      asks m at_measure
        (modify
          (λ t. record t { decimator = on_decimator (dec.set_chunk_interval limit) t.decimator }))
        (record s { chunk_interval = limit })

  -- `_measure_data_rate`
  pub measure_data_rate : Moment → List Row → Run Row Dtype S D
  measure_data_rate m rows s =
      let buffer = s.data_rate_buffer ++ times rows in
      let measured = record s { data_rate_buffer = buffer } in
      if s.chunk_interval == 0
      then (if ltb (length buffer) 200
          then (ok tt, measured)
          else update_chunk_interval m (out.interval_of buffer) measured)
      else (ok tt, s)

  -- The start of the first insert: `first_insert` is reset before the calls.
  pub close_before : Settings → Moment → Row → Run Row Dtype S D
  close_before settings m row s =
      let merge = asks m at_merge (
        modify (
          on_tables (
            remove_interval_breaks (ts.timestamp row -ℤ settings.merge_gap) (ts.timestamp row)))) in
      let closing =
        (asks m at_first_close (modify (on_tables (close_interval (ts.timestamp row -ℤ pos 1))))
          >> (if ltb_ℤ (pos 0) settings.merge_gap then merge else pure tt)) in
      if s.first_insert then closing (record s { first_insert = false }) else (ok tt, s)

  -- The checks, and the assignments before the copy.
  pub check_rows : Settings → Row → List Row → Run Row Dtype S D
  check_rows settings row rows s =
      let fresh = if settings.decimate then some (dec.start s.chunk_interval) else none in
      if not (timestamps_are_monotonic (times (row ∷ rows)) s.last_ts)
      then (raised data_error, s)
      else if any_nan (row ∷ rows)
      then (raised data_error, s)
      else (
        ok tt,
        record s {
          last_ts = some (last_time row rows);
          decimator = elim s.decimator [ none ↦ fresh | some d ↦ some d ];
        },
      )

  -- `copy_to_table`
  pub copy_to_table : List Row → Run Row Dtype S D
  copy_to_table rows s = if any_taken rows s.db.rows then (raised data_error, s) else (
    ok tt,
    record s { db = record s.db { rows = insert_rows rows s.db.rows }; copied = s.copied ++ rows },
  )

  abbrev pub consume_rows : List Row → Run Row Dtype S D
  consume_rows rows s =
      let (r, pipe) = consume (pos (length rows)) s.pipe in (r, record s { pipe = pipe })

  -- `if self.decimator is not None: await self.decimator.process(conn, data)`
  abbrev pub decimate_rows : Moment → List Row → Run Row Dtype S D
  decimate_rows m rows s =
      let decimate =
        asks m at_decimate
          (modify (λ t. record t { decimator = on_decimator (dec.process rows) t.decimator })) in
      elim s.decimator [ none ↦ (ok tt, s) | some d ↦ decimate s ]

  -- The block that inserts new data.
  pub insert_data : Settings → Moment → List Row → Run Row Dtype S D
  insert_data settings m [] = pure tt
  insert_data settings m (row ∷ rows) =
      close_before settings m row
      >> check_rows settings row rows
      >> asks m at_copy (copy_to_table (row ∷ rows))
      >> consume_rows (row ∷ rows)
      >> decimate_rows m (row ∷ rows)

  -- `if pipe.end_of_interval and last_ts is not None`
  abbrev pub close_behind : Moment → ℤ → Run Row Dtype S D
  close_behind m t = asks m at_close (
      modify (λ s. record s {
        db = close_interval t s.db;
        decimator = on_decimator dec.close_interval s.decimator;
      }))

  pub end_interval : Moment → Run Row Dtype S D
  end_interval m s =
      if s.pipe.interval_break
      then (elim s.last_ts [ none ↦ (ok tt, s) | some t ↦ close_behind m t s ])
      else (ok tt, s)

  -- `cleanup`
  pub cleanup : Settings → Moment → Run Row Dtype S D
  cleanup settings m s = elim settings.keep_us [
    | none ↦ (ok tt, s)
    | some keep_us ↦
        asks m at_cleanup
          (modify (
            on_tables (λ db. record db {
              rows = out.drop_chunks (keep_us / 1000000) m.now db.rows;
              breaks = where_ (λ t. leb_ℤ (m.now -ℤ pos keep_us) t) db.breaks;
            })))
          s
  ]

  pub tick : Settings → Moment → Run Row Dtype S D
  tick settings m s =
      let counted = record s { ticks = s.ticks + 1 } in
      if (counted.ticks % settings.cleanup_interval) == 0
      then cleanup settings m counted
      else (ok tt, counted)

  -- The inner `try` of a round.
  pub save : Settings → Moment → List Row → Run Row Dtype S D
  save settings m rows s =
      try_again
        ((asks m at_acquire (insert_data settings m rows) >> end_interval m >> tick settings m) s)

module _ {Row Dtype S D : Type 0} ⦃ts : Timestamped Row⦄ ⦃out : Outside Row⦄
    ⦃dec : Decimation Row D⦄ ⦃sink : Sink Row Dtype S⦄ where
  abbrev pub read_pipe : Action (Inserter Row Dtype S D) (List Row)
  read_pipe s = let (r, pipe) = read s.pipe in (r, record s { pipe = pipe })

  -- The body of the loop of `run`.
  pub round : Settings → Moment → Run Row Dtype S D
  round settings m = read_pipe >>= λ rows. measure_data_rate m rows >> save settings m rows

  abbrev pub stop_or :
      Result (Unit {0}) × Inserter Row Dtype S D
      → (Inserter Row Dtype S D → Result (Unit {0}) × Inserter Row Dtype S D)
      → Result (Unit {0}) × Inserter Row Dtype S D
  stop_or (ok _, s) later = later s
  stop_or (raised empty_pipe, s) later = (ok tt, s)
  stop_or (raised e, s) later = (raised e, s)

  -- The loop of `run`, for a number of rounds.
  pub rounds : Settings → List Moment → Run Row Dtype S D
  rounds settings [] s = (ok tt, s)
  rounds settings (m ∷ ms) s = stop_or (round settings m s) (rounds settings ms)

  -- `run`, whose first statement is made before the loop.
  pub run : Settings → List Moment → Run Row Dtype S D
  run settings ms s = rounds settings ms (on_tables create_stream_table s)
