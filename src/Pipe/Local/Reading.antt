-- ===== src/Pipe/Local/Reading.antt =====
-- Reads of a local pipe, and `consume`.
use joule.Base.{
  ℕ, ◌≤◌, ◌≡◌, refl, Bool, true, false, ◌&&◌, List, ◌++◌, length, take, drop, arith, append_assoc,
  if◌then◌else◌, ap, sym, ◌∙◌, take-append-drop, if_ind,
}
use joule.Base.Int.{ℤ, pos}
use joule.Pipe.{Result, ok, raised, Sink, failed, empty_pipe, ◌>>◌, ◌>>=◌, raise, is_nil}
use joule.Pipe.Local.{LocalPipe, read_queue, read, read_nowait, consume, close}
use joule.Pipe.Local.Queue.{queue_rows, taken, queue_rows-split, read_queue-first_interval}
use joule.Pipe.Local.Invariant.{stored, IsValid, Keeps}
use joule.Pipe.Local.Write.{close-Preserves}

module _ {Row Dtype S : Type 0} where
  -- A read keeps the rows that the pipe holds, and what it returns is its new read buffer.
  abbrev pub Reads : LocalPipe Row Dtype S → Result (List Row) × LocalPipe Row Dtype S → Type 0
  Reads p (ok rows, q) = IsValid q × (stored q ≡ stored p) × (rows ≡ q.read_buffer)
  Reads p (raised e, q) = IsValid q × (stored q ≡ stored p)

  taken-Keeps : (p : LocalPipe Row Dtype S) → IsValid p → Keeps p (taken p)
  taken-Keeps p v = (
    record { counted = refl; fits = v.fits; uncached = v.uncached },
    rw (append_assoc, ← queue_rows-split p.queue, append_assoc) refl,
  )

  pub read_queue-Reads : (p : LocalPipe Row Dtype S) → IsValid p → Reads p (read_queue p)
  read_queue-Reads p v =
      rw (read_queue-first_interval p v.counted) ((taken-Keeps p v).0, (taken-Keeps p v).1, refl)

  -- The flags of a read are no rows.
  abbrev flagged : LocalPipe Row Dtype S → Bool → Bool → Bool → LocalPipe Row Dtype S
  flagged p reread break last = record p {
    reread = reread;
    interval_break = break;
    last_read = last;
  }

  flagged-IsValid :
      (p : LocalPipe Row Dtype S) (a b c : Bool) → IsValid p → IsValid (flagged p a b c)
  flagged-IsValid p a b c v = record { counted = v.counted; fits = v.fits; uncached = v.uncached }

  pub read_nowait-Reads : (p : LocalPipe Row Dtype S) → IsValid p → Reads p (read_nowait p)
  unfolding read_nowait
  read_nowait-Reads p v =
      ground (arith, read_queue-Reads p v, flagged-IsValid p false p.interval_break p.last_read v)

  -- What a successful `consume` leaves: the rows it dropped came first.
  abbrev pub Consumes :
      ℤ → LocalPipe Row Dtype S → Result (Unit {0}) × LocalPipe Row Dtype S → Type 0
  Consumes (pos n) p (ok _, q) =
      IsValid q × (n ≤ length p.read_buffer) × (stored p ≡ take n p.read_buffer ++ stored q)
  Consumes (ℤ.negsuc n) p (ok _, q) = ⊥
  Consumes n p (raised e, q) = q ≡ p

  dropped-Consumes :
      (n : ℕ) (p : LocalPipe Row Dtype S)
      → IsValid p
      → n ≤ length p.read_buffer
      → Consumes (pos n) p (ok tt, record p { read_buffer = drop n p.read_buffer })
  dropped-Consumes n p v h = (
    record { counted = v.counted; fits = v.fits; uncached = v.uncached },
    h,
    let rest = queue_rows p.queue ++ p.cache in
        ap (λ t. t ++ rest) (sym (take-append-drop n p.read_buffer))
        ∙ append_assoc (take n p.read_buffer) (drop n p.read_buffer) rest,
  )

  pub consume-Consumes :
      (n : ℤ) (p : LocalPipe Row Dtype S) → IsValid p → Consumes n p (consume n p)
  unfolding consume
  consume-Consumes (ℤ.negsuc n) p v = refl
  consume-Consumes (pos n) p v = ground (arith, dropped-Consumes n p v)

  failed-Reads :
      {A : Type 0} (p : LocalPipe Row Dtype S) (out : Result A × LocalPipe Row Dtype S)
      → Keeps p out.1
      → Reads p (((λ (_ : LocalPipe Row Dtype S). out) >> raise failed) p)
  failed-Reads p (ok a, q) h = h
  failed-Reads p (raised e, q) h = h

  -- The last lines of `read`, which refuse to return no rows from a closed pipe.
  not_empty-Reads :
      (p : LocalPipe Row Dtype S) (out : Result (List Row) × LocalPipe Row Dtype S)
      → Reads p out
      → Reads p (
          ((λ (_ : LocalPipe Row Dtype S). out) >>= λ rows q.
          (if is_nil rows && q.is_closed then raised empty_pipe else ok rows, q))
            p)
  not_empty-Reads p (ok rows, q) h =
      if_ind (λ (r : Result (List Row)). Reads p (r, q)) (is_nil rows && q.is_closed)
        (λ _. (h.0, h.1)) (λ _. h)
  not_empty-Reads p (raised e, q) h = h

module _ {Row Dtype S : Type 0} ⦃sink : Sink Row Dtype S⦄ where
  pub read-Reads : (p : LocalPipe Row Dtype S) → IsValid p → Reads p (read p)
  unfolding read
  read-Reads p v =
      let last = flagged-IsValid p p.reread false true v in
      let plain = flagged-IsValid p p.reread false p.last_read v in
      let Goal = Reads p in
      if_ind Goal p.reread
        (λ _. (flagged-IsValid p false p.interval_break p.last_read v, refl, refl))
        λ _.
          if_ind Goal p.is_failed (λ _. failed-Reads p (close p) (close-Preserves p v))
            λ _.
              if_ind Goal (is_nil p.queue && (if p.is_closed then false else true))
                (λ _. (plain, refl))
                λ _.
                  if_ind
                    (λ q. Goal (
                      (read_queue >>= λ rows q'.
                      (if is_nil rows && q'.is_closed then raised empty_pipe else ok rows, q'))
                        q))
                    (is_nil p.queue) (λ _. not_empty-Reads p _ (read_queue-Reads _ last))
                    (λ _. not_empty-Reads p _ (read_queue-Reads _ plain))
