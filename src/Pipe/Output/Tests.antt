-- ===== src/Pipe/Output/Tests.antt =====
-- An output pipe of numbers without subscribers: rows are structured arrays of dtype 1.
use joule.Base.{ℕ, ◌≡◌, refl, true, false, none, some, List, [], ◌∷◌, ◌==◌, arith}
use joule.Pipe.{
  ok, Numpy, Data, Sink, structured, ◌>>◌, each, checked_rows, validate_data, apply_dtype,
}
use joule.Pipe.Output.{
  OutputPipe, write, write_rows, flush_cache, cache_row, cache_rows, close_interval,
  close_interval_nowait, drain, send, open_writer, for_subscribers,
}
use joule.Pipe.Output.Sending.{
  offered, Sends, Breaks, write-Sends, close_interval-Breaks, close_interval_without_writer,
}

instance abbrev no_matrices : Numpy ℕ ℕ (List ℕ)
no_matrices = record {
  same_dtype = λ a b. a == b;
  same_dtype-refl = λ a. ground arith;
  n_rows = λ m. 0;
  n_columns = λ m. 0;
  assign = λ d m. none;
  length-assign = λ d m rows h. absurd cc;
}

instance abbrev silent : Sink ℕ ℕ (List ℕ)
silent = record {
  write = λ d rows s. (ok tt, s);
  write_nowait = λ d rows s. (ok tt, s);
  close_interval = λ s. (ok tt, s);
  close_interval_nowait = λ s. (ok tt, s);
  close = λ s. (ok tt, s);
}

abbrev caching_pipe : OutputPipe ℕ ℕ (List ℕ)
caching_pipe = record {
  dtype = 1;
  is_closed = false;
  has_writer = false;
  broken = false;
  sent = [];
  caching = true;
  cache = 1 ∷ [];
  cache_size = 3;
  subscribers = [];
  close_cb = false;
  callbacks = 0;
}

abbrev rows : Data ℕ ℕ (List ℕ)
rows = structured 1 (2 ∷ 3 ∷ 4 ∷ [])

write_runs : write rows caching_pipe ≡ (
  ok tt,
  record caching_pipe { has_writer = true; sent = some 1 ∷ some 2 ∷ some 3 ∷ []; cache = 4 ∷ [] },
)
unfolding write checked_rows validate_data apply_dtype cache_rows cache_row flush_cache write_rows
    for_subscribers send drain open_writer each
write_runs = refl

-- The cached row is dropped.
nowait_runs :
    close_interval_nowait (record caching_pipe { has_writer = true })
    ≡ (ok tt, record caching_pipe { has_writer = true; sent = none ∷ []; cache = [] })
unfolding close_interval_nowait send
nowait_runs = refl

write-Sends_example : Sends (offered (checked_rows 1 rows)) caching_pipe (write rows caching_pipe)
write-Sends_example = write-Sends rows caching_pipe (λ off. absurd cc)

close_interval-Breaks_example :
    Breaks
      (record caching_pipe { has_writer = true })
      (close_interval (record caching_pipe { has_writer = true }))
close_interval-Breaks_example =
    close_interval-Breaks (record caching_pipe { has_writer = true }) refl (λ off. absurd cc)

close_interval_without_writer_example :
    (((close_interval >> flush_cache) caching_pipe).0 ≡ ok tt)
    × (((close_interval >> flush_cache) caching_pipe).1.sent ≡ some 1 ∷ [])
    × (((close_interval >> flush_cache) caching_pipe).1.cache ≡ [])
close_interval_without_writer_example =
    close_interval_without_writer caching_pipe refl refl refl refl
