-- ===== src/Pipe/Local/Nowait.antt =====
-- `write_nowait` of a local pipe, which does not use the cache.
use joule.Base.{subst, ◌≡◌, refl, Option, none, some, List, [], arith, append-nil, sym, if_ind}
use joule.Pipe.{Result, ok, raised, Sink, ◌>>◌, Numpy, Data, checked_rows, failed, closed}
use joule.Pipe.Local.{
  LocalPipe, put_nowait, count_rows, write_nowait, for_subscribers, when_checked,
}
use joule.Pipe.Local.Invariant.{
  stored, IsValid, Puts, Puts-Stores, put-counted, Stores, subscribers-Keeps, raised-Stores,
}
use joule.Pipe.Local.Write.{offered}

module _ {Row Dtype S : Type 0} ⦃sink : Sink Row Dtype S⦄ where
  nowait-Puts :
      (d : Dtype) (rows : List Row) (p : LocalPipe Row Dtype S)
      → Puts rows p (
          (for_subscribers (sink.write_nowait d rows)
              >> (put_nowait (some rows) >> count_rows rows))
            p)
  unfolding for_subscribers put_nowait
  nowait-Puts d rows p = ground arith

  nowait-Stores :
      (r : Result (Option (List Row))) (p : LocalPipe Row Dtype S)
      → IsValid p
      → p.cache ≡ []
      → Stores (offered r) p (
          when_checked r
            (λ rows.
              for_subscribers (sink.write_nowait p.dtype rows)
              >> (put_nowait (some rows) >> count_rows rows))
            p)
  nowait-Stores (raised e) p v bare = raised-Stores [] p p e (v, refl)
  nowait-Stores (ok none) p v bare = (v, sym (append-nil (stored p)))
  nowait-Stores (ok (some rows)) p v bare = Puts-Stores rows p _ v bare (nowait-Puts p.dtype rows p)

  Puts-IsValid :
      (rows : List Row) (p : LocalPipe Row Dtype S)
      (out : Result (Unit {0}) × LocalPipe Row Dtype S)
      → IsValid p
      → Puts rows p out
      → IsValid out.1
  Puts-IsValid rows p (ok u, q) v e = subst IsValid (sym e) record {
    counted = put-counted p.queued_rows p.queue rows v.counted;
    fits = v.fits;
    uncached = v.uncached;
  }
  Puts-IsValid rows p (raised x, q) v e =
      subst IsValid (sym e) (subscribers-Keeps p q.subscribers v).0

  nowait-IsValid :
      (r : Result (Option (List Row))) (p : LocalPipe Row Dtype S)
      → IsValid p
      → IsValid
          (when_checked r
            (λ rows.
              for_subscribers (sink.write_nowait p.dtype rows)
              >> (put_nowait (some rows) >> count_rows rows))
            p).1
  nowait-IsValid (raised e) p v = v
  nowait-IsValid (ok none) p v = v
  nowait-IsValid (ok (some rows)) p v = Puts-IsValid rows p _ v (nowait-Puts p.dtype rows p)

module _ {Row Dtype Matrix S : Type 0} ⦃np : Numpy Row Dtype Matrix⦄ ⦃sink : Sink Row Dtype S⦄ where
  pub write_nowait-IsValid :
      (array : Data Row Dtype Matrix) (p : LocalPipe Row Dtype S)
      → IsValid p
      → IsValid (write_nowait array p).1
  unfolding write_nowait
  write_nowait-IsValid array p v =
      let Goal = λ (out : Result (Unit {0}) × LocalPipe Row Dtype S). IsValid out.1 in
      if_ind Goal p.is_failed (λ _. v)
        λ _. if_ind Goal p.is_closed (λ _. v) (λ _. nowait-IsValid (checked_rows p.dtype array) p v)

  -- A `write_nowait` to a valid pipe whose cache is empty keeps it valid. If it succeeds, the rows that the
  -- data holds are stored behind those that were there, in order; if it raises, a prefix of them is.
  pub write_nowait-Stores :
      (array : Data Row Dtype Matrix) (p : LocalPipe Row Dtype S)
      → IsValid p
      → p.cache ≡ []
      → Stores (offered (checked_rows p.dtype array)) p (write_nowait array p)
  unfolding write_nowait
  write_nowait-Stores array p v bare =
      let rows = offered (checked_rows p.dtype array) in
      if_ind (Stores rows p) p.is_failed (λ _. raised-Stores rows p p failed (v, refl))
        λ _.
          if_ind (Stores rows p) p.is_closed (λ _. raised-Stores rows p p closed (v, refl))
            (λ _. nowait-Stores (checked_rows p.dtype array) p v bare)
