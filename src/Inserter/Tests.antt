-- ===== src/Inserter/Tests.antt =====
-- An inserter of rows that are their own timestamps, whose decimator counts the rows.
use joule.Base.{ℕ, ◌+◌, ◌≡◌, refl, true, false, none, some, [], ◌∷◌, length, arith}
use joule.Base.Time.{Timestamped, times}
use joule.Base.Int.{pos, ◌-ℤ◌}
use joule.Pipe.{ok, raised, Sink, data_error}
use joule.Pipe.Local.{LocalPipe, new_pipe}
use joule.Pipe.Local.Invariant.{IsValid}
use joule.Worker.{diffs, least, wrap_int64}
use joule.Inserter.{
  Outside, Decimation, Settings, Inserter, at_copy, nowhere, save, run, timestamps_are_monotonic,
}
use joule.Inserter.Untouched.{Conserves}
use joule.Inserter.Conservation.{run-Conserves}
use joule.Inserter.Retry.{losing, save-retry}

instance abbrev own_time : Timestamped ℕ
own_time = record { timestamp = λ t. pos t }

instance abbrev no_nan : Outside ℕ
no_nan = record {
  has_nan = λ row. false;
  interval_of = λ ts. length ts;
  drop_chunks = λ keep now rows. rows;
}

instance abbrev counting : Decimation ℕ ℕ
counting = record {
  start = λ chunk_interval. 0;
  process = λ rows n. n + length rows;
  close_interval = λ n. n;
  set_chunk_interval = λ chunk_interval n. n;
}

instance abbrev nobody : Sink ℕ ℕ ℕ
nobody = record {
  write = λ d rows s. (ok tt, s);
  write_nowait = λ d rows s. (ok tt, s);
  close_interval = λ s. (ok tt, s);
  close_interval_nowait = λ s. (ok tt, s);
  close = λ s. (ok tt, s);
}

abbrev settings : Settings
settings = record { merge_gap = pos 0; cleanup_interval = 1; decimate = true; keep_us = none }

-- Two rows and a break wait in the pipe.
abbrev waiting : LocalPipe ℕ ℕ ℕ
waiting = record (new_pipe 1 0 false) { queue = some (5 ∷ 6 ∷ []) ∷ none ∷ []; queued_rows = pos 2 }

abbrev waiting-IsValid : IsValid waiting
waiting-IsValid = record { counted = refl; fits = omega arith; uncached = λ _. refl }

abbrev inserter : Inserter ℕ ℕ ℕ ℕ
inserter = record {
  pipe = waiting;
  db = record { created = false; rows = []; breaks = [] };
  copied = [];
  decimator = none;
  first_insert = true;
  last_ts = none;
  ticks = 0;
  chunk_interval = 7;
  data_rate_buffer = [];
}

run-Conserves_example :
    Conserves inserter
      (run settings (losing at_copy (pos 0) ∷ losing nowhere (pos 9) ∷ []) inserter).1
run-Conserves_example =
    run-Conserves settings (losing at_copy (pos 0) ∷ losing nowhere (pos 9) ∷ []) inserter
      waiting-IsValid

-- The inserter in a later round.
abbrev later_inserter : Inserter ℕ ℕ ℕ ℕ
later_inserter = record inserter { first_insert = false; last_ts = some (pos 4) }

save-retry_example :
    ((save settings (losing at_copy (pos 0)) (5 ∷ 6 ∷ []) later_inserter).0 ≡ ok tt)
    × ((save settings
          (losing nowhere (pos 2))
          (5 ∷ 6 ∷ 7 ∷ [])
          (save settings (losing at_copy (pos 0)) (5 ∷ 6 ∷ []) later_inserter).1).0
        ≡ raised data_error)
unfolding timestamps_are_monotonic times
save-retry_example =
    save-retry settings (pos 0) (pos 2) 5 (6 ∷ []) (7 ∷ []) later_inserter refl
      (unfold diffs least wrap_int64 ◌-ℤ◌ in refl) refl refl
