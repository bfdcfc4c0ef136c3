-- ===== src/Pipe/Local/Rounds.antt =====
-- One round of `read_all` on a local pipe that its writer has closed.
use joule.Base.{
  ℕ, zero, suc, ◌+◌, ◌-◌, ◌≤◌, ◌<◌, ◌≡◌, refl, Bool, true, false, Option, none, some, List, [], ◌∷◌,
  ◌++◌, length, take, take-front, drop, arith, ltb, if◌then◌else◌, append-nil, append_assoc,
  length-append, ap, sym, subst, tests, lt→ltb, ◌∙◌, Bool-cases, inl, inr,
}
use joule.Base.Int.{pos}
use joule.Pipe.{Result, ok, raised, empty_pipe, no_data, more_than_maxrows, Sink, is_nil}
use joule.Pipe.ReadAll.{Methods, read_block, overflow, keep_rows, after_try, all_read}
use joule.Pipe.Local.{LocalPipe, read, consume, close}
use joule.Pipe.Local.Queue.{
  queue_rows, first_interval, after_break, taken, read_queue-first_interval, queue_rows-split,
}
use joule.Pipe.Local.Breaks.{BreaksFollowRows, nothing_left, fewer_reads}

module _ {Row : Type 0} where
  pub drop-length : (rows : List Row) → drop (length rows) rows ≡ []
  drop-length [] = refl
  drop-length (row ∷ rows) = drop-length rows

  pub length-is_nil : (rows : List Row) → length rows ≡ 0 → rows ≡ []
  length-is_nil [] h = refl
  length-is_nil (row ∷ rows) h = absurd (omega arith)

  pub take-behind :
      (m : ℕ) (rows more : List Row)
      → length rows ≤ m
      → take m (rows ++ more) ≡ rows ++ take (m - length rows) more
  take-behind m [] more h = ap (λ k. take k more) (omega arith)
  take-behind zero (row ∷ rows) more h = absurd (omega arith)
  take-behind (suc m) (row ∷ rows) more h =
      ap (λ t. row ∷ t)
        (take-behind m rows more (omega arith) ∙ ap (λ k. rows ++ take k more) (omega arith))

  -- What `read_all` returns from a pipe that still has the rows `rest`.
  abbrev pub outcome_of : ℕ → Bool → List Row → Result (List Row)
  outcome_of maxrows error rows =
      if ltb maxrows (length rows)
      then (if error then raised more_than_maxrows else ok (take maxrows rows))
      else ok rows

  abbrev pub outcome : ℕ → Bool → Option (List Row) → List Row → Result (List Row)
  outcome maxrows error none [] = raised no_data
  outcome maxrows error none (row ∷ rest) = outcome_of maxrows error (row ∷ rest)
  outcome maxrows error (some rows) rest = outcome_of maxrows error (rows ++ rest)

  -- What was read so far is not too much.
  abbrev pub Within : ℕ → Option (List Row) → Type 0
  Within maxrows none = Unit
  Within maxrows (some rows) = length rows ≤ maxrows

  pub all_read-outcome :
      (maxrows : ℕ) (error : Bool) (so_far : Option (List Row))
      → Within maxrows so_far
      → all_read so_far ≡ outcome maxrows error so_far []
  unfolding all_read
  all_read-outcome maxrows error none w = refl
  all_read-outcome maxrows error (some rows) w = rw append-nil (ground arith)

module _ {Row Dtype S : Type 0} where
  -- The writer has closed the pipe, and `queued_rows` counts the rows of the queue.
  pub record IsClosed (p : LocalPipe Row Dtype S) : Type 0 where
    pub counted : p.queued_rows ≡ pos (length (queue_rows p.queue))
    pub closed : p.is_closed ≡ true
    pub works : p.is_failed ≡ false
    pub forward : p.reread ≡ false

  -- The pipe after a read, and after its rows are consumed.
  abbrev pub after_read : LocalPipe Row Dtype S → LocalPipe Row Dtype S
  after_read p = taken (record p {
    interval_break = false;
    last_read = if is_nil p.queue then true else p.last_read;
  })

module _ {Row Dtype S : Type 0} ⦃sink : Sink Row Dtype S⦄ where
  pub read-first_interval :
      (p : LocalPipe Row Dtype S)
      → IsClosed p
      → read p ≡ (
        if is_nil (p.read_buffer ++ first_interval p.queue)
            then raised empty_pipe
            else ok (p.read_buffer ++ first_interval p.queue),
        after_read p,
      )
  unfolding read
  read-first_interval p c =
      let fresh = record p { interval_break = false } in
      ground (
        arith,
        read_queue-first_interval fresh c.counted,
        read_queue-first_interval (record fresh { last_read = true }) c.counted,
      )

  -- The methods of a local pipe.
  abbrev pub methods : Methods (LocalPipe Row Dtype S) Row
  methods = record { read = read; consume = consume; close = close }

  pub read_block-none :
      (p : LocalPipe Row Dtype S)
      → IsClosed p
      → p.read_buffer ++ first_interval p.queue ≡ []
      → read_block methods p ≡ (raised empty_pipe, after_read p)
  unfolding read_block
  read_block-none p c e = ground (arith, read-first_interval p c)

  pub consume-everything :
      (p : LocalPipe Row Dtype S)
      → consume (pos (length p.read_buffer)) p ≡ (ok tt, record p { read_buffer = [] })
  unfolding consume
  consume-everything p = ground (arith, drop-length p.read_buffer, length-is_nil p.read_buffer)

  -- A read takes the rows before the first break, and they are consumed.
  pub read_block-rows :
      (p : LocalPipe Row Dtype S) (row : Row) (rows : List Row)
      → IsClosed p
      → p.read_buffer ++ first_interval p.queue ≡ row ∷ rows
      → read_block methods p ≡ (ok (row ∷ rows), record (after_read p) { read_buffer = [] })
  unfolding read_block
  read_block-rows p row rows c e =
      ground (arith, read-first_interval p c, consume-everything (after_read p))

  pub close-closed : (p : LocalPipe Row Dtype S) → p.is_closed ≡ true → close p ≡ (ok tt, p)
  unfolding close
  close-closed p h = simp h

  pub overflow-closed :
      (error : Bool) (rows : List Row) (p : LocalPipe Row Dtype S)
      → p.is_closed ≡ true
      → overflow methods error rows p ≡ (if error then raised more_than_maxrows else ok rows, p)
  unfolding overflow
  overflow-closed true rows p h = ground (arith, close-closed p h)
  overflow-closed false rows p h = ground (arith, close-closed p h)

  -- The loop, from a read that is given.
  abbrev pub Returns :
      Option (Result (List Row) × LocalPipe Row Dtype S) → Result (List Row) → Type 0
  Returns out r = (p : LocalPipe Row Dtype S) × (out ≡ some (r, p))

  pub overflow-outcome :
      (maxrows : ℕ) (error : Bool) (kept rows : List Row) (p : LocalPipe Row Dtype S)
      → p.is_closed ≡ true
      → maxrows < length rows
      → kept ≡ take maxrows rows
      → overflow methods error kept p ≡ (outcome_of maxrows error rows, p)
  overflow-outcome maxrows error kept rows p h many e =
      overflow-closed error kept p h ∙ rw (lt→ltb _ _ many) (rw e refl)

  -- The rows of a read are kept, and the loop goes on with what is left.
  pub keep_rows-outcome :
      (maxrows : ℕ) (error : Bool) (so_far : Option (List Row)) (row : Row) (rows rest : List Row)
      (p : LocalPipe Row Dtype S)
      (go_on : List Row → Option (Result (List Row) × LocalPipe Row Dtype S))
      → p.is_closed ≡ true
      → Within maxrows so_far
      → ((kept : List Row)
          → length kept ≤ maxrows
          → Returns (go_on kept) (outcome maxrows error (some kept) rest))
      → Returns
          (keep_rows methods maxrows error so_far (row ∷ rows) p go_on)
          (outcome maxrows error so_far (row ∷ (rows ++ rest)))
  unfolding keep_rows
  keep_rows-outcome maxrows error none row rows rest p go_on h w more =
      elim (Bool-cases (ltb maxrows (length (row ∷ rows)))) [
        | inl many ↦ (
          p,
          rw many (
              ap some (
                overflow-outcome maxrows error (take maxrows (row ∷ rows)) ((row ∷ rows) ++ rest) p
                  h (omega (tests, length-append (row ∷ rows) rest, many))
                  (sym (take-front maxrows (row ∷ rows) rest (omega (tests, many)))))),
        )
        | inr few ↦ rw few (more (row ∷ rows) (ground arith))
      ]
  keep_rows-outcome maxrows error (some kept) row rows rest p go_on h w more =
      elim (Bool-cases (ltb maxrows (length kept + length (row ∷ rows)))) [
        | inl many ↦
            let new = row ∷ rows in
            let fewer = take-front (maxrows - length kept) new rest (omega (tests, many)) in
            (
              p,
              rw many (
                  ap some (
                    overflow-outcome maxrows error (kept ++ take (maxrows - length kept) new)
                      (kept ++ (new ++ rest)) p h
                      (omega
                        (tests, length-append kept (new ++ rest), length-append new rest, many))
                      (sym
                        (take-behind maxrows kept (new ++ rest) w ∙ ap (λ t. kept ++ t) fewer)))),
            )
        | inr few ↦ rw few (
            subst
              (λ (t : List Row). Returns (go_on (kept ++ row ∷ rows)) (outcome_of maxrows error t))
              (append_assoc kept (row ∷ rows) rest)
              (more (kept ++ row ∷ rows) (ground (arith, length-append kept (row ∷ rows)))))
      ]

  -- The reads that are left, at most.
  abbrev pub reads_left : LocalPipe Row Dtype S → ℕ
  reads_left p = length p.queue + (if is_nil p.read_buffer then 0 else 1)

  abbrev pub HasRows : LocalPipe Row Dtype S → Type 0
  HasRows p = BreaksFollowRows (if is_nil p.read_buffer then false else true) p.queue

  -- One round, where `go_on` is the rest of the loop.
  pub one_round :
      (maxrows : ℕ) (error : Bool) (so_far : Option (List Row)) (p : LocalPipe Row Dtype S)
      (rows : List Row)
      (go_on : List Row
        → LocalPipe Row Dtype S
        → Option (Result (List Row) × LocalPipe Row Dtype S))
      → p.read_buffer ++ first_interval p.queue ≡ rows
      → IsClosed p
      → HasRows p
      → Within maxrows so_far
      → ((kept : List Row)
          → length (after_break p.queue) < reads_left p
          → length kept ≤ maxrows
          → Returns
              (go_on kept (record (after_read p) { read_buffer = [] }))
              (outcome maxrows error (some kept) (queue_rows (after_break p.queue))))
      → Returns
          (after_try methods maxrows error so_far (read_block methods p) go_on)
          (outcome maxrows error so_far (p.read_buffer ++ queue_rows p.queue))
  unfolding after_try
  one_round maxrows error so_far p [] go_on e c h w more = (
    after_read p,
    ap (λ out. after_try methods maxrows error so_far out go_on) (read_block-none p c e)
        ∙ rw (nothing_left p.read_buffer p.queue h e, all_read-outcome maxrows error so_far w) refl,
  )
  one_round maxrows error so_far p (row ∷ rows) go_on e c h w more =
      let q = record (after_read p) { read_buffer = [] } in
      let rest = queue_rows (after_break p.queue) in
      let all : p.read_buffer ++ queue_rows p.queue ≡ row ∷ (rows ++ rest) =
        ap (λ t. p.read_buffer ++ t) (sym (queue_rows-split p.queue))
        ∙ sym (append_assoc p.read_buffer (first_interval p.queue) rest)
        ∙ ap (λ t. t ++ rest) e in
      rw all (
        subst
          (λ out.
            Returns (after_try methods maxrows error so_far out go_on)
              (outcome maxrows error so_far (row ∷ (rows ++ rest))))
          (sym (read_block-rows p row rows c e))
          (keep_rows-outcome maxrows error so_far row rows rest q (λ kept. go_on kept q) c.closed w
            (λ kept few. more kept (fewer_reads p.read_buffer p.queue row rows e) few)))
