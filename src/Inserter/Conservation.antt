-- ===== src/Inserter/Conservation.antt =====
-- The rows of an inserter, between its pipe and its table.
use joule.Base.{
  ◌≡◌, refl, List, [], ◌∷◌, ◌++◌, length, arith, append_assoc, ap, sym, ◌∙◌, take-length, ◌==◌,
  if_ind,
}
use joule.Base.Time.{Timestamped}
use joule.Base.Int.{pos}
use joule.Store.{create_stream_table}
use joule.Pipe.{Result, ok, raised, ◌>>=◌, ◌>>◌, Sink}
use joule.Pipe.Local.{LocalPipe, read, consume}
use joule.Pipe.Local.Invariant.{stored, IsValid}
use joule.Pipe.Local.Reading.{Reads, read-Reads, consume-Consumes}
use joule.Inserter.{
  Moment, Settings, Inserter, Run, Outside, Decimation, asks, number, on_tables, measure_data_rate,
  close_before, check_rows, copy_to_table, any_taken, consume_rows, decimate_rows, insert_data,
  end_interval, tick, save, round, stop_or, rounds, run, at_copy, at_acquire,
}
use joule.Inserter.Untouched.{
  Conserves, Untouched, Untouched-Conserves, after-Conserves, check_rows-Untouched,
  close_before-Untouched, consume_succeeds, consumed, decimate_rows-Untouched,
  end_interval-Untouched, measure_data_rate-Untouched, then-Conserves, then-Untouched,
  tick-Untouched, try_again-Conserves,
}

module _ {Row Dtype S D : Type 0} ⦃ts : Timestamped Row⦄ ⦃outside : Outside Row⦄
    ⦃dec : Decimation Row D⦄ where
  -- Rows that are copied, or not, while the pipe stays as it is.
  abbrev Copies :
      Inserter Row Dtype S D → List Row → Result (Unit {0}) × Inserter Row Dtype S D → Type 0
  Copies s rows (ok _, q) = (q.pipe ≡ s.pipe) × (q.copied ≡ s.copied ++ rows)
  Copies s rows (raised e, q) = Untouched s q

  copy_to_table-Copies :
      (m : Moment) (rows : List Row) (s : Inserter Row Dtype S D)
      → Copies s rows (asks m at_copy (copy_to_table rows) s)
  unfolding copy_to_table
  copy_to_table-Copies m rows s =
      if_ind (Copies s rows) (number m.lost == number at_copy) (λ _. (refl, refl))
        λ _.
          if_ind (Copies s rows) (any_taken rows s.db.rows) (λ _. (refl, refl)) (λ _. (refl, refl))

  >>-Copies :
      (k : Run Row Dtype S D) (rows : List Row) (s t : Inserter Row Dtype S D)
      (out : Result (Unit {0}) × Inserter Row Dtype S D)
      → Untouched s out.1
      → ((q : Inserter Row Dtype S D) → Copies q rows (k q))
      → Copies s rows (((λ (_ : Inserter Row Dtype S D). out) >> k) t)
  >>-Copies k rows s t (raised e, q) h rest = h
  >>-Copies k rows s t (ok _, q) h rest = moved (k q) (rest q)
    where
      moved :
          (out : Result (Unit {0}) × Inserter Row Dtype S D) → Copies q rows out → Copies s rows out
      moved (ok _, r) c = (c.0 ∙ h.0, c.1 ∙ ap (λ l. l ++ rows) h.1)
      moved (raised e, r) c = (c.0 ∙ h.0, c.1 ∙ h.1)

  -- The `consume` behind a copy of the whole read buffer.
  consume-Conserves :
      (rows : List Row) (s t : Inserter Row Dtype S D)
      (out : Result (Unit {0}) × Inserter Row Dtype S D)
      → IsValid s.pipe
      → rows ≡ s.pipe.read_buffer
      → Copies s rows out
      → Conserves s (((λ (_ : Inserter Row Dtype S D). out) >> consume_rows rows) t).1
  consume-Conserves rows s t (raised e, q) v same h = Untouched-Conserves s q v h
  consume-Conserves rows s t (ok _, q) v same h =
      let n = length s.pipe.read_buffer in
      let left = (consume (pos n) s.pipe).1 in
      let done =
        consumed s.pipe n (consume (pos n) s.pipe) (consume-Consumes (pos n) s.pipe v)
          (consume_succeeds s.pipe) in
      let whole = done.1 ∙ ap (λ l. l ++ stored left) (take-length s.pipe.read_buffer) in
      rw (same, h.0, h.1, same)
        (
          done.0,
          append_assoc s.copied s.pipe.read_buffer (stored left)
              ∙ ap (λ l. s.copied ++ l) (sym whole),
        )

  insert_data-Conserves :
      (settings : Settings) (m : Moment) (rows : List Row) (s : Inserter Row Dtype S D)
      → IsValid s.pipe
      → rows ≡ s.pipe.read_buffer
      → Conserves s (insert_data settings m rows s).1
  unfolding insert_data
  insert_data-Conserves settings m [] s v same = (v, refl)
  insert_data-Conserves settings m (row ∷ rows) s v same =
      let block = row ∷ rows in
      let closed = close_before settings m row s in
      let checked = ((λ (_ : Inserter Row Dtype S D). closed) >> check_rows settings row rows) s in
      let checked_h =
        then-Untouched (check_rows settings row rows) s closed
          (close_before-Untouched settings m row s) (check_rows-Untouched settings row rows) in
      let copying = asks m at_copy (copy_to_table block) in
      let copied_h = >>-Copies copying block s s checked checked_h (copy_to_table-Copies m block) in
      let copied = ((λ (_ : Inserter Row Dtype S D). checked) >> copying) s in
      let out = ((λ (_ : Inserter Row Dtype S D). copied) >> consume_rows block) s in
      then-Conserves (decimate_rows m block) s s out
        (consume-Conserves block s s copied v same copied_h)
        (λ q v'.
          Untouched-Conserves q (decimate_rows m block q).1 v' (decimate_rows-Untouched m block q))

  save-Conserves :
      (settings : Settings) (m : Moment) (rows : List Row) (s : Inserter Row Dtype S D)
      → IsValid s.pipe
      → rows ≡ s.pipe.read_buffer
      → Conserves s (save settings m rows s).1
  unfolding save
  save-Conserves settings m rows s v same =
      let inserted = asks m at_acquire (insert_data settings m rows) s in
      let inserted_h =
        if_ind (λ (out : Result (Unit {0}) × Inserter Row Dtype S D). Conserves s out.1)
          (number m.lost == number at_acquire) (λ _. (v, refl))
          (λ _. insert_data-Conserves settings m rows s v same) in
      let ended = ((λ (_ : Inserter Row Dtype S D). inserted) >> end_interval m) s in
      let ended_h =
        then-Conserves (end_interval m) s s inserted inserted_h
          (λ q v'. Untouched-Conserves q (end_interval m q).1 v' (end_interval-Untouched m q)) in
      try_again-Conserves s (((λ (_ : Inserter Row Dtype S D). ended) >> tick settings m) s) (
        then-Conserves (tick settings m) s s ended ended_h
          (λ q v'. Untouched-Conserves q (tick settings m q).1 v' (tick-Untouched settings m q)))

  measured-Conserves :
      (settings : Settings) (m : Moment) (rows : List Row) (s : Inserter Row Dtype S D)
      → IsValid s.pipe
      → rows ≡ s.pipe.read_buffer
      → Conserves s ((measure_data_rate m rows >> save settings m rows) s).1
  measured-Conserves settings m rows s v same =
      after-Conserves (save settings m rows) s (measure_data_rate m rows s) v
        (measure_data_rate-Untouched m rows s)
        (λ q h.
          save-Conserves settings m rows q (rw h.0 v)
            (same ∙ ap (λ (p : LocalPipe Row Dtype S). p.read_buffer) (sym h.0)))

  read-Conserves :
      (settings : Settings) (m : Moment) (s : Inserter Row Dtype S D)
      (out : Result (List Row) × LocalPipe Row Dtype S)
      → Reads s.pipe out
      → Conserves s
          (((λ (t : Inserter Row Dtype S D). (out.0, record t { pipe = out.1 })) >>= λ rows.
              measure_data_rate m rows >> save settings m rows)
            s).1
  read-Conserves settings m s (raised e, p) h = (h.0, ap (λ l. s.copied ++ l) h.1)
  read-Conserves settings m s (ok rows, p) h =
      let read_state = record s { pipe = p } in
      let later = measured-Conserves settings m rows read_state h.0 h.2 in
      (later.0, later.1 ∙ ap (λ l. s.copied ++ l) h.1)

module _ {Row Dtype S D : Type 0} ⦃ts : Timestamped Row⦄ ⦃outside : Outside Row⦄
    ⦃dec : Decimation Row D⦄ ⦃sink : Sink Row Dtype S⦄ where
  round-Conserves :
      (settings : Settings) (m : Moment) (s : Inserter Row Dtype S D)
      → IsValid s.pipe
      → Conserves s (round settings m s).1
  unfolding round
  round-Conserves settings m s v = read-Conserves settings m s (read s.pipe) (read-Reads s.pipe v)

  stop_or-Conserves :
      (s : Inserter Row Dtype S D) (out : Result (Unit {0}) × Inserter Row Dtype S D)
      (later : Run Row Dtype S D)
      → Conserves s out.1
      → ((q : Inserter Row Dtype S D) → IsValid q.pipe → Conserves q (later q).1)
      → Conserves s (stop_or out later).1
  stop_or-Conserves s (ok _, q) later h rest = ((rest q h.0).0, (rest q h.0).1 ∙ h.1)
  stop_or-Conserves s (raised e, q) later h rest = ground arith

  rounds-Conserves :
      (settings : Settings) (ms : List Moment) (s : Inserter Row Dtype S D)
      → IsValid s.pipe
      → Conserves s (rounds settings ms s).1
  unfolding rounds
  rounds-Conserves settings [] s v = (v, refl)
  rounds-Conserves settings (m ∷ ms) s v =
      stop_or-Conserves s (round settings m s) (rounds settings ms) (round-Conserves settings m s v)
        (rounds-Conserves settings ms)

  -- However many rounds an inserter makes, wherever the connection is lost in them and however the run
  -- ends, the rows that it has copied to the table, followed by those that its pipe holds, are the same
  -- rows in the same order as before, and the pipe stays valid.
  pub run-Conserves :
      (settings : Settings) (ms : List Moment) (s : Inserter Row Dtype S D)
      → IsValid s.pipe
      → Conserves s (run settings ms s).1
  unfolding run
  run-Conserves settings ms s v = rounds-Conserves settings ms (on_tables create_stream_table s) v
