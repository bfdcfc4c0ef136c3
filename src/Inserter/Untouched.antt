-- ===== src/Inserter/Untouched.antt =====
-- The steps of a round that leave the pipe and the rows copied alone, and how steps follow each other.
use joule.Base.{
  ℕ, ◌≡◌, refl, false, List, ◌++◌, length, take, arith, if◌then◌else◌, ◌∙◌, ◌==◌, if_ind,
}
use joule.Base.Time.{Timestamped}
use joule.Base.Int.{pos, ltb_ℤ, ◌-ℤ◌}
use joule.Store.{Tables, remove_interval_breaks, close_interval}
use joule.Pipe.{Result, ok, raised, pure, modify, ◌>>◌}
use joule.Pipe.Local.{LocalPipe, consume}
use joule.Pipe.Local.Invariant.{stored, IsValid}
use joule.Pipe.Local.Reading.{Consumes}
use joule.Inserter.{
  Moment, Stage, Settings, Inserter, Run, Outside, Decimation, asks, number, on_tables,
  update_chunk_interval, measure_data_rate, close_before, check_rows, decimate_rows, end_interval,
  cleanup, tick, try_again, at_merge, at_first_close,
}

module _ {Row Dtype S D : Type 0} where
  -- The pipe and the rows copied are as before.
  abbrev pub Untouched : Inserter Row Dtype S D → Inserter Row Dtype S D → Type 0
  Untouched s q = (q.pipe ≡ s.pipe) × (q.copied ≡ s.copied)

  -- The rows copied and those that the pipe holds are as before, in order.
  abbrev pub Conserves : Inserter Row Dtype S D → Inserter Row Dtype S D → Type 0
  Conserves s q = IsValid q.pipe × (q.copied ++ stored q.pipe ≡ s.copied ++ stored s.pipe)

  pub Untouched-trans :
      (s q r : Inserter Row Dtype S D) → Untouched s q → Untouched q r → Untouched s r
  Untouched-trans s q r h k = (k.0 ∙ h.0, k.1 ∙ h.1)

  pub then-Untouched :
      (k : Run Row Dtype S D) (s : Inserter Row Dtype S D)
      (out : Result (Unit {0}) × Inserter Row Dtype S D)
      → Untouched s out.1
      → ((t : Inserter Row Dtype S D) → Untouched t (k t).1)
      → Untouched s (((λ (_ : Inserter Row Dtype S D). out) >> k) s).1
  then-Untouched k s (ok _, q) h rest = Untouched-trans s q (k q).1 h (rest q)
  then-Untouched k s (raised e, q) h rest = h

  pub asks-Untouched :
      (m : Moment) (stage : Stage) (k : Run Row Dtype S D) (s : Inserter Row Dtype S D)
      → Untouched s (k s).1
      → Untouched s (asks m stage k s).1
  asks-Untouched m stage k s h =
      if_ind (λ (out : Result (Unit {0}) × Inserter Row Dtype S D). Untouched s out.1)
        (number m.lost == number stage) (λ _. (refl, refl)) (λ _. h)

  pub then-Conserves :
      (k : Run Row Dtype S D) (s t : Inserter Row Dtype S D)
      (out : Result (Unit {0}) × Inserter Row Dtype S D)
      → Conserves s out.1
      → ((q : Inserter Row Dtype S D) → IsValid q.pipe → Conserves q (k q).1)
      → Conserves s (((λ (_ : Inserter Row Dtype S D). out) >> k) t).1
  then-Conserves k s t (ok _, q) h rest = ((rest q h.0).0, (rest q h.0).1 ∙ h.1)
  then-Conserves k s t (raised e, q) h rest = h

  pub Untouched-Conserves :
      (s q : Inserter Row Dtype S D) → IsValid s.pipe → Untouched s q → Conserves s q
  Untouched-Conserves s q v h = rw (h.0, h.1) (v, refl)

  -- A step that leaves both alone, before one that may rely on the pipe.
  pub after-Conserves :
      (k : Run Row Dtype S D) (s : Inserter Row Dtype S D)
      (out : Result (Unit {0}) × Inserter Row Dtype S D)
      → IsValid s.pipe
      → Untouched s out.1
      → ((q : Inserter Row Dtype S D) → Untouched s q → Conserves q (k q).1)
      → Conserves s (((λ (_ : Inserter Row Dtype S D). out) >> k) s).1
  after-Conserves k s (ok _, q) v h rest =
      ((rest q h).0, (rest q h).1 ∙ (Untouched-Conserves s q v h).1)
  after-Conserves k s (raised e, q) v h rest = Untouched-Conserves s q v h

  pub try_again-Conserves :
      (s : Inserter Row Dtype S D) (out : Result (Unit {0}) × Inserter Row Dtype S D)
      → Conserves s out.1
      → Conserves s (try_again out).1
  try_again-Conserves s (ok _, q) h = h
  try_again-Conserves s (raised e, q) h = ground arith

module _ {Row Dtype S : Type 0} where
  -- What `consume` does with the rows of the whole buffer.
  pub consumed :
      (p : LocalPipe Row Dtype S) (n : ℕ) (out : Result (Unit {0}) × LocalPipe Row Dtype S)
      → Consumes (pos n) p out
      → out.0 ≡ ok tt
      → IsValid out.1 × (stored p ≡ take n p.read_buffer ++ stored out.1)
  consumed p n (ok _, q) h e = (h.0, h.2)
  consumed p n (raised x, q) h e = absurd (ground arith)

  pub consume_succeeds :
      (p : LocalPipe Row Dtype S) → (consume (pos (length p.read_buffer)) p).0 ≡ ok tt
  unfolding consume
  consume_succeeds p = ground arith

module _ {Row Dtype S D : Type 0} ⦃ts : Timestamped Row⦄ ⦃outside : Outside Row⦄
    ⦃dec : Decimation Row D⦄ where
  abbrev pub LeavesRows : Run Row Dtype S D → Type 0
  LeavesRows k = (s : Inserter Row Dtype S D) → Untouched s (k s).1

  pub measure_data_rate-Untouched :
      (m : Moment) (rows : List Row) → LeavesRows (measure_data_rate m rows)
  unfolding measure_data_rate update_chunk_interval
  measure_data_rate-Untouched m rows s = ground arith

  pub tables-Untouched :
      (m : Moment) (stage : Stage) (f : Tables Row → Tables Row)
      → LeavesRows (asks m stage (modify (on_tables f)))
  tables-Untouched m stage f s = asks-Untouched m stage (modify (on_tables f)) s (refl, refl)

  pub close_before-Untouched :
      (settings : Settings) (m : Moment) (row : Row) → LeavesRows (close_before settings m row)
  unfolding close_before
  close_before-Untouched settings m row s =
      let start = record s { first_insert = false } in
      let forget =
        remove_interval_breaks (ts.timestamp row -ℤ settings.merge_gap) (ts.timestamp row) in
      let merge : Run Row Dtype S D = asks m at_merge (modify (on_tables forget)) in
      let before = close_interval (ts.timestamp row -ℤ pos 1) in
      let closing : Run Row Dtype S D = asks m at_first_close (modify (on_tables before)) in
      let after : Run Row Dtype S D = if ltb_ℤ (pos 0) settings.merge_gap then merge else pure tt in
      if_ind (λ (out : Result (Unit {0}) × Inserter Row Dtype S D). Untouched s out.1)
        s.first_insert
        (λ _.
          then-Untouched after start (closing start)
            (tables-Untouched m at_first_close before start)
            λ t.
              if_ind (λ (k : Run Row Dtype S D). Untouched t (k t).1)
                (ltb_ℤ (pos 0) settings.merge_gap) (λ _. tables-Untouched m at_merge forget t)
                (λ _. (refl, refl)))
        (λ _. (refl, refl))

  pub check_rows-Untouched :
      (settings : Settings) (row : Row) (rows : List Row)
      → LeavesRows (check_rows settings row rows)
  unfolding check_rows
  check_rows-Untouched settings row rows s = ground arith

  pub decimate_rows-Untouched : (m : Moment) (rows : List Row) → LeavesRows (decimate_rows m rows)
  decimate_rows-Untouched m rows s = ground arith

  pub end_interval-Untouched : (m : Moment) → LeavesRows (end_interval m)
  unfolding end_interval
  end_interval-Untouched m s = ground arith

  pub tick-Untouched : (settings : Settings) (m : Moment) → LeavesRows (tick settings m)
  unfolding tick cleanup
  tick-Untouched settings m s = ground arith
