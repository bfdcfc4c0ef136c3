-- ===== src/Inserter/Retry.antt =====
-- A copy in which the connection is lost, and the round that tries again.
use joule.Base.{◌≡◌, refl, true, false, some, List, ◌∷◌, ◌++◌, arith, ap, sym, subst, ◌∙◌}
use joule.Base.Time.{Timestamped, times}
use joule.Base.Int.{ℤ, ltb_ℤ}
use joule.Pipe.{Result, ok, raised, ◌>>◌, data_error, connection_error}
use joule.Inserter.{
  Moment, Stage, nowhere, Settings, Inserter, Outside, Decimation, timestamps_are_monotonic,
  any_nan, last_time, check_rows, close_before, insert_data, save, asks, copy_to_table,
  consume_rows, decimate_rows, at_copy, end_interval, tick, try_again,
}

not_after :
    (t last : ℤ) (ts : List ℤ)
    → ltb_ℤ last t ≡ false
    → timestamps_are_monotonic (t ∷ ts) (some last) ≡ false
unfolding timestamps_are_monotonic
not_after t last ts h = ground arith

-- A moment at which the connection is lost at a stage.
abbrev pub losing : Stage → ℤ → Moment
losing stage now = record { lost = stage; now = now }

module _ {Row Dtype S D : Type 0} ⦃ts : Timestamped Row⦄ ⦃outside : Outside Row⦄
    ⦃dec : Decimation Row D⦄ where
  close_skipped :
      (settings : Settings) (m : Moment) (row : Row) (s : Inserter Row Dtype S D)
      → s.first_insert ≡ false
      → close_before settings m row s ≡ (ok tt, s)
  unfolding close_before
  close_skipped settings m row s old = simp old refl

  check_refuses :
      (settings : Settings) (row : Row) (rows : List Row) (last : ℤ) (s : Inserter Row Dtype S D)
      → s.last_ts ≡ some last
      → ltb_ℤ last (ts.timestamp row) ≡ false
      → check_rows settings row rows s ≡ (raised data_error, s)
  unfolding check_rows times
  check_refuses settings row rows last s there late =
      let stale = not_after (ts.timestamp row) last (times rows) late in simp (there, stale) refl

  -- What `insert_data` does once the rows are checked, and from the start, on the results of the calls
  -- before.
  abbrev behind_check :
      Moment
      → List Row
      → Inserter Row Dtype S D
      → Result (Unit {0}) × Inserter Row Dtype S D
      → Result (Unit {0}) × Inserter Row Dtype S D
  behind_check m rows s out =
      ((λ (_ : Inserter Row Dtype S D). out)
          >> asks m at_copy (copy_to_table rows)
          >> consume_rows rows
          >> decimate_rows m rows)
        s

  abbrev behind_close :
      Settings
      → Moment
      → Row
      → List Row
      → Inserter Row Dtype S D
      → Result (Unit {0}) × Inserter Row Dtype S D
      → Result (Unit {0}) × Inserter Row Dtype S D
  behind_close settings m row rows s out =
      behind_check m (row ∷ rows) s
        (((λ (_ : Inserter Row Dtype S D). out) >> check_rows settings row rows) s)

  -- Where `last_ts` is not before the first of some rows, these are refused.
  refused :
      (settings : Settings) (m : Moment) (row : Row) (rows : List Row) (last : ℤ)
      (s : Inserter Row Dtype S D)
      → s.first_insert ≡ false
      → s.last_ts ≡ some last
      → ltb_ℤ last (ts.timestamp row) ≡ false
      → insert_data settings m (row ∷ rows) s ≡ (raised data_error, s)
  unfolding insert_data
  refused settings m row rows last s old there late =
      ap (behind_close settings m row rows s) (close_skipped settings m row s old)
      ∙ ap (behind_check m (row ∷ rows) s) (check_refuses settings row rows last s there late)

  -- The state that a lost copy leaves.
  checked :
      (settings : Settings) (row : Row) (rows : List Row) (s : Inserter Row Dtype S D)
      → timestamps_are_monotonic (times (row ∷ rows)) s.last_ts ≡ true
      → any_nan (row ∷ rows) ≡ false
      → (check_rows settings row rows s).0 ≡ ok tt
  unfolding check_rows
  checked settings row rows s mono sound = simp (mono, sound) refl

  checked_last :
      (settings : Settings) (row : Row) (rows : List Row) (s : Inserter Row Dtype S D)
      → timestamps_are_monotonic (times (row ∷ rows)) s.last_ts ≡ true
      → any_nan (row ∷ rows) ≡ false
      → (check_rows settings row rows s).1.last_ts ≡ some (last_time row rows)
  unfolding check_rows
  checked_last settings row rows s mono sound = simp (mono, sound) refl

  checked_first :
      (settings : Settings) (row : Row) (rows : List Row) (s : Inserter Row Dtype S D)
      → s.first_insert ≡ false
      → (check_rows settings row rows s).1.first_insert ≡ false
  unfolding check_rows
  checked_first settings row rows s old = ground arith

  lost_copy :
      (settings : Settings) (row : Row) (rows : List Row) (now : ℤ) (s : Inserter Row Dtype S D)
      → s.first_insert ≡ false
      → (check_rows settings row rows s).0 ≡ ok tt
      → insert_data settings (losing at_copy now) (row ∷ rows) s
        ≡ (raised connection_error, (check_rows settings row rows s).1)
  unfolding insert_data
  lost_copy settings row rows now s old passed =
      let m = losing at_copy now in
      ap (behind_close settings m row rows s) (close_skipped settings m row s old)
      ∙ ap (λ r. behind_check m (row ∷ rows) s (r, (check_rows settings row rows s).1)) passed

  -- The end of `save`, on the result of the insert.
  abbrev behind_insert :
      Settings
      → Moment
      → Inserter Row Dtype S D
      → Result (Unit {0}) × Inserter Row Dtype S D
      → Result (Unit {0}) × Inserter Row Dtype S D
  behind_insert settings m s out =
      try_again (((λ (_ : Inserter Row Dtype S D). out) >> end_interval m >> tick settings m) s)

  -- After the first insert, where rows that pass the checks and whose last is not before their first are
  -- being copied and the connection is lost, the round ends without an exception, and the next one,
  -- although the connection holds, refuses these rows, with any rows behind them, with a DataError.
  pub save-retry :
      (settings : Settings) (now later : ℤ) (row : Row) (rows more : List Row)
      (s : Inserter Row Dtype S D)
      → s.first_insert ≡ false
      → timestamps_are_monotonic (times (row ∷ rows)) s.last_ts ≡ true
      → any_nan (row ∷ rows) ≡ false
      → ltb_ℤ (last_time row rows) (ts.timestamp row) ≡ false
      → ((save settings (losing at_copy now) (row ∷ rows) s).0 ≡ ok tt)
        × ((save settings
              (losing nowhere later)
              (row ∷ rows ++ more)
              (save settings (losing at_copy now) (row ∷ rows) s).1).0
            ≡ raised data_error)
  unfolding save
  save-retry settings now later row rows more s old mono sound late =
      let left = (check_rows settings row rows s).1 in
      let failed =
        ap (behind_insert settings (losing at_copy now) s)
          (lost_copy settings row rows now s old (checked settings row rows s mono sound)) in
      let again = ap (behind_insert settings (losing nowhere later) left) (
        refused settings (losing nowhere later) row (rows ++ more) (last_time row rows) left
          (checked_first settings row rows s old) (checked_last settings row rows s mono sound)
          late) in
      subst
        (λ (out : Result (Unit {0}) × Inserter Row Dtype S D).
          (out.0 ≡ ok tt)
          × ((save settings (losing nowhere later) (row ∷ rows ++ more) out.1).0
              ≡ raised data_error))
        (sym failed) (refl, ap (λ (out : Result (Unit {0}) × Inserter Row Dtype S D). out.0) again)
