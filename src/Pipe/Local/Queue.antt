-- ===== src/Pipe/Local/Queue.antt =====
-- What a read of a local pipe takes from its queue.
use joule.Base.{
  ℕ, ◌+◌, ◌≤◌, ◌≡◌, refl, Bool, true, false, Option, none, some, List, [], ◌∷◌, ◌++◌, length, arith,
  length-append, append_assoc, append-nil, if◌then◌else◌, ap,
}
use joule.Base.Int.{ℤ, pos, ◌+ℤ◌, ◌-ℤ◌, int_laws, eq_of_parts, pos_part, neg_part}
use joule.Pipe.{ok}
use joule.Pipe.Local.{LocalPipe, fill, gather, read_queue}

module _ {Row : Type 0} where
  -- All queued rows.
  abbrev pub queue_rows : List (Option (List Row)) → List Row
  queue_rows [] = []
  queue_rows (none ∷ q) = queue_rows q
  queue_rows (some block ∷ q) = block ++ queue_rows q

  -- The rows before the first interval break, whether there is one, and what is behind it.
  abbrev pub first_interval : List (Option (List Row)) → List Row
  first_interval [] = []
  first_interval (none ∷ q) = []
  first_interval (some block ∷ q) = block ++ first_interval q

  abbrev pub has_break : List (Option (List Row)) → Bool
  has_break [] = false
  has_break (none ∷ q) = true
  has_break (some block ∷ q) = has_break q

  abbrev pub after_break : List (Option (List Row)) → List (Option (List Row))
  after_break [] = []
  after_break (none ∷ q) = q
  after_break (some block ∷ q) = after_break q

  pub queue_rows-split :
      (q : List (Option (List Row))) → first_interval q ++ queue_rows (after_break q) ≡ queue_rows q
  queue_rows-split [] = refl
  queue_rows-split (none ∷ q) = refl
  queue_rows-split (some block ∷ q) = rw append_assoc (rw (queue_rows-split q))

  pub queue_rows-append :
      (q r : List (Option (List Row))) → queue_rows (q ++ r) ≡ queue_rows q ++ queue_rows r
  queue_rows-append [] r = refl
  queue_rows-append (none ∷ q) r = queue_rows-append q r
  queue_rows-append (some block ∷ q) r = rw (queue_rows-append q r, append_assoc)

  fill-fits :
      (size : ℕ) (rows block : List Row)
      → length rows + length block ≤ size
      → fill size rows block ≡ ok (rows ++ block)
  unfolding fill
  fill-fits size rows block h = ground arith

  gather-first_interval :
      (size : ℕ) (rows : List Row) (q : List (Option (List Row))) (queued : ℤ)
      → length rows + length (queue_rows q) ≤ size
      → queued ≡ pos (length (queue_rows q))
      → gather size rows q queued ≡ (
        ok (has_break q, rows ++ first_interval q),
        (after_break q, pos (length (queue_rows (after_break q)))),
      )
  unfolding gather
  gather-first_interval size rows [] queued h e = rw (append-nil rows, e)
  gather-first_interval size rows (none ∷ q) queued h e = rw (append-nil rows, e)
  gather-first_interval size rows (some block ∷ q) queued h e =
      let n = length-append block (queue_rows q) in
      let split = append_assoc rows block (first_interval q) in
      let rest =
        gather-first_interval size (rows ++ block) q (queued -ℤ pos (length block))
          (omega (arith, n, length-append rows block)) (rw e (omega (int_laws, n))) in
      rw (fill-fits size rows block (omega (arith, n)), gather) (rw split at rest)

module _ {Row Dtype S : Type 0} (p : LocalPipe Row Dtype S) where
  -- The state after a read that took the first interval of the queue.
  abbrev pub taken : LocalPipe Row Dtype S
  taken = record p {
    read_buffer = p.read_buffer ++ first_interval p.queue;
    queue = after_break p.queue;
    queued_rows = pos (length (queue_rows (after_break p.queue)));
    interval_break = if has_break p.queue then true else p.interval_break;
  }

  -- If `queued_rows` is the number of queued rows, `_read` returns the rows of the buffer and those
  -- queued before the first break, and drops that break.
  pub read_queue-first_interval :
      p.queued_rows ≡ pos (length (queue_rows p.queue))
      → read_queue p ≡ (ok (p.read_buffer ++ first_interval p.queue), taken)
  unfolding read_queue
  read_queue-first_interval e =
      let n = length p.read_buffer in
      let size = length (queue_rows p.queue) + n in
      let total : p.queued_rows +ℤ pos n ≡ pos size =
        eq_of_parts _ _ (omega (int_laws, ap pos_part e, ap neg_part e)) in
      rw
        (
          total,
          fill-fits size [] p.read_buffer (omega arith),
          gather-first_interval size p.read_buffer p.queue p.queued_rows (omega arith) e,
        )
        refl
