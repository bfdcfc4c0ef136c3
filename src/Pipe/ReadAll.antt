-- ===== src/Pipe/ReadAll.antt =====
-- `Pipe.read_all` of src/joule/models/pipes/pipe.py, over the methods of the pipe that it calls. The
-- direction of the pipe is not modelled, and `maxrows` is not negative. `flatten` only formats what is
-- returned.
use joule.Base.{
  ℕ, zero, suc, ◌+◌, ◌-◌, Bool, true, false, Option, none, some, List, ◌++◌, length, take, ltb,
  if◌then◌else◌,
}
use joule.Base.Int.{ℤ, pos}
use joule.Pipe.{
  Error, no_data, more_than_maxrows, value_error, index_error, queue_full, os_error, would_block,
  data_error, connection_error, Result, ok, raised, Action, pure, raise, ◌>>=◌, ◌>>◌,
}

-- Whether `except PipeError` catches it.
unfoldable pub is_pipe_error : Error → Bool
is_pipe_error value_error = false
is_pipe_error index_error = false
is_pipe_error queue_full = false
is_pipe_error os_error = false
is_pipe_error would_block = false
is_pipe_error data_error = false
is_pipe_error connection_error = false
is_pipe_error e = true

-- What is returned after the loop: `data` is `None` until a read succeeds.
unfoldable pub all_read : {Row : Type 0} → Option (List Row) → Result (List Row)
all_read none = raised no_data
all_read (some rows) = ok rows

-- The methods of a pipe that `read_all` calls.
pub record Methods (P Row : Type 0) : Type 0 where
  pub read : Action P (List Row)
  pub consume : ℤ → Action P (Unit {0})
  pub close : Action P (Unit {0})

module _ {P Row : Type 0} (self : Methods P Row) where
  -- The body of the `try`.
  unfoldable pub read_block : Action P (List Row)
  read_block = do rows ← self.read; self.consume (pos (length rows)); pure rows

  -- What happens when there are too many rows: `rows` are those that are kept.
  unfoldable pub overflow : Bool → List Row → Action P (List Row)
  overflow error_on_overflow rows =
      self.close >> (if error_on_overflow then raise more_than_maxrows else pure rows)

  -- What is done with the rows of a read, where `go_on` is the rest of the loop.
  unfoldable pub keep_rows :
      ℕ
      → Bool
      → Option (List Row)
      → List Row
      → P
      → (List Row → Option (Result (List Row) × P))
      → Option (Result (List Row) × P)
  unfolding overflow
  keep_rows maxrows error none new p go_on =
      if ltb maxrows (length new) then some (overflow error (take maxrows new) p) else go_on new
  keep_rows maxrows error (some rows) new p go_on =
      if ltb maxrows (length rows + length new)
      then some (overflow error (rows ++ take (maxrows - length rows) new) p)
      else go_on (rows ++ new)

  -- What follows the `try`: the next round, or the end of the loop.
  unfoldable pub after_try :
      ℕ
      → Bool
      → Option (List Row)
      → Result (List Row) × P
      → (List Row → P → Option (Result (List Row) × P))
      → Option (Result (List Row) × P)
  unfolding keep_rows is_pipe_error all_read
  after_try maxrows error so_far (ok new, p) go_on =
      keep_rows maxrows error so_far new p (λ rows. go_on rows p)
  after_try maxrows error so_far (raised e, p) go_on =
      some (if is_pipe_error e then all_read so_far else raised e, p)

  -- The loop, on fuel, with the rows read so far.
  unfoldable pub read_all_loop :
      ℕ → ℕ → Bool → Option (List Row) → P → Option (Result (List Row) × P)
  unfolding read_block after_try
  read_all_loop zero maxrows error so_far p = none
  read_all_loop (suc fuel) maxrows error so_far p =
      after_try maxrows error so_far (read_block p)
        λ rows p'. read_all_loop fuel maxrows error (some rows) p'

  unfoldable pub read_all : ℕ → ℕ → Bool → P → Option (Result (List Row) × P)
  unfolding read_all_loop
  read_all fuel maxrows error p = read_all_loop fuel maxrows error none p
