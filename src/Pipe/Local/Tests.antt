-- ===== src/Pipe/Local/Tests.antt =====
-- A local pipe of numbers, whose only subscriber accepts everything and remembers the rows.
use joule.Base.{
  ℕ, true, false, ◌≡◌, refl, Option, none, some, List, [], ◌∷◌, ◌++◌, length, arith, ◌==◌,
  if◌then◌else◌,
}
use joule.Base.Int.{pos, ◌+ℤ◌, ◌-ℤ◌}
use joule.Pipe.{
  ok, raised, Numpy, Data, Sink, structured, matrix, value_error, checked_rows, validate_data,
  apply_dtype, each,
}
use joule.Pipe.Local.{
  LocalPipe, new_pipe, read_queue, change_layout, write, write_nowait, read, close, close_interval,
  flush_if_caching, flush_cache, cache_row, cache_rows, put, put_nowait, for_subscribers,
  write_rows, fill, gather, consume, consume_all, reread_last, enable_cache,
}
use joule.Pipe.Local.Queue.{queue_rows}
use joule.Pipe.Local.Invariant.{IsValid, Stores}
use joule.Pipe.Local.Write.{offered, write-Stores}
use joule.Pipe.Local.Balance.{Balanced}
use joule.Pipe.Local.Fifo.{
  Call, write_call, write_nowait_call, read_call, reread_last_call, consume_call, consume_all_call,
  enable_cache_call, flush_cache_call, close_interval_call, close_call, session, perform,
  are_orderly, session-IsValid, session-Balanced,
}
use joule.Pipe.Local.Rounds.{outcome}
use joule.Pipe.Local.Closing.{change_layout_breaks_read}

-- Rows are numbers, the dtype is the number of columns, and a matrix is its rows' numbers with the
-- number of columns; only the columns have to agree.
abbrev assign_rows : ℕ → List ℕ × ℕ → Option (List ℕ)
assign_rows d (rows, width) = if d == width then some rows else none

assign_rows-length :
    (d : ℕ) (m : List ℕ × ℕ) (rows : List ℕ)
    → assign_rows d m ≡ some rows
    → length rows ≡ length m.0
assign_rows-length d m rows h = ground arith

same_number : (a : ℕ) → (a == a) ≡ true
same_number a = ground arith

instance abbrev numbers : Numpy ℕ ℕ (List ℕ × ℕ)
numbers = record {
  same_dtype = λ a b. a == b;
  same_dtype-refl = same_number;
  n_rows = λ m. length m.0;
  n_columns = λ m. m.1;
  assign = assign_rows;
  length-assign = assign_rows-length;
}

instance abbrev recorder : Sink ℕ ℕ (List ℕ)
recorder = record {
  write = λ d rows s. (ok tt, s ++ rows);
  write_nowait = λ d rows s. (ok tt, s ++ rows);
  close_interval = λ s. (ok tt, s);
  close_interval_nowait = λ s. (ok tt, s);
  close = λ s. (ok tt, s);
}

abbrev TestPipe : Type 0
TestPipe = LocalPipe ℕ ℕ (List ℕ)

-- What may be written to it.
abbrev TestData : Type 0
TestData = Data ℕ ℕ (List ℕ × ℕ)

abbrev table : TestData
table = matrix (1 ∷ 2 ∷ 3 ∷ [], 1)

abbrev single : TestData
single = structured 1 (4 ∷ [])

abbrev fresh : TestPipe
fresh = record (new_pipe 1 0 true) { subscribers = [] ∷ [] }

abbrev cached : TestPipe
cached = record fresh { caching = true; cache_size = 2 }

fresh-IsValid : IsValid fresh
fresh-IsValid = record { counted = refl; fits = omega arith; uncached = λ _. refl }

cached-IsValid : IsValid cached
cached-IsValid = record { counted = refl; fits = omega arith; uncached = λ _. refl }

abbrev calls : List (Call ℕ ℕ (List ℕ × ℕ))
calls =
    write_call table
    ∷ close_interval_call
    ∷ write_call (structured 1 (4 ∷ 5 ∷ []))
    ∷ read_call
    ∷ consume_call (pos 2)
    ∷ reread_last_call
    ∷ read_call
    ∷ consume_all_call
    ∷ flush_cache_call
    ∷ write_nowait_call (structured 1 (6 ∷ []))
    ∷ enable_cache_call 7
    ∷ read_call
    ∷ consume_call (pos 2)
    ∷ close_call
    ∷ []

write-Stores_example : Stores (offered (checked_rows 1 table)) cached (write table cached)
write-Stores_example = write-Stores table cached cached-IsValid

-- All calls succeed; the row of the last write is still there.
session_runs : (session calls cached).0 ≡ ok (1 ∷ 2 ∷ 3 ∷ 4 ∷ 5 ∷ 6 ∷ [], 1 ∷ 2 ∷ 3 ∷ 4 ∷ 5 ∷ [])
unfolding session perform write write_nowait checked_rows validate_data apply_dtype cache_rows
    cache_row flush_cache write_rows for_subscribers each put put_nowait close_interval
    flush_if_caching read read_queue ◌+ℤ◌ ◌-ℤ◌ close fill gather consume consume_all reread_last
    enable_cache
session_runs = refl

session-Balanced_example : Balanced cached (session calls cached)
unfolding are_orderly session perform write write_nowait checked_rows validate_data apply_dtype
    cache_rows cache_row flush_cache write_rows for_subscribers each put put_nowait close_interval
    flush_if_caching read read_queue ◌+ℤ◌ ◌-ℤ◌ close fill gather consume consume_all reread_last
    enable_cache
session-Balanced_example = session-Balanced calls cached cached-IsValid refl

-- The cache is not empty at the second call, whose row overtakes that in the cache.
abbrev overtaking : List (Call ℕ ℕ (List ℕ × ℕ))
overtaking = write_call single ∷ write_nowait_call (structured 1 (5 ∷ [])) ∷ []

session-IsValid_example : IsValid (session overtaking cached).1
session-IsValid_example = session-IsValid overtaking cached cached-IsValid

abbrev filled : TestPipe
filled = record fresh { queue = some (1 ∷ 2 ∷ []) ∷ none ∷ some (3 ∷ []) ∷ []; queued_rows = pos 3 }

change_layout_breaks_read_example : (read_queue (change_layout 2 filled)).0 ≡ raised value_error
change_layout_breaks_read_example =
    change_layout_breaks_read 2 filled (1 ∷ 2 ∷ []) (none ∷ some (3 ∷ []) ∷ []) refl (omega arith)

-- A pipe whose writer has closed it, with two intervals of which nothing is read yet.
abbrev ended : TestPipe
ended = record filled { is_closed = true }

-- The first two of the three rows.
read_all_first_two :
    outcome 2 false none (ended.read_buffer ++ queue_rows ended.queue) ≡ ok (1 ∷ 2 ∷ [])
read_all_first_two = refl

-- The writer breaks the interval, writes three rows and closes the pipe.
abbrev break_first : TestPipe
break_first = (close (write table (close_interval (new_pipe 1 0 false)).1).1).1
