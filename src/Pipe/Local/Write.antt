-- ===== src/Pipe/Local/Write.antt =====
-- Writes to a local pipe, and the calls that close it or an interval of it.
use joule.Base.{
  ◌+◌, ◌≡◌, refl, true, Option, none, some, List, [], ◌∷◌, ◌++◌, length, arith, append-nil,
  if◌then◌else◌, ap, sym, ◌∙◌, Bool-cases, inl, inr, if_ind, ◌||◌, ◌≢◌,
}
use joule.Base.Int.{pos}
use joule.Pipe.{
  Result, ok, raised, Action, Sink, ◌>>◌, Numpy, Data, checked_rows, raise, modify, failed, closed,
}
use joule.Pipe.Local.{
  LocalPipe, flush_if_caching, cache_rows, write_rows, put, put_nowait, for_subscribers, close,
  close_interval, close_interval_nowait, write, when_checked,
}
use joule.Pipe.Local.Queue.{queue_rows, queue_rows-append}
use joule.Pipe.Local.Invariant.{
  stored, IsValid, Keeps, Stores, subscribers-Keeps, flush_cache-Keeps, cache_rows-Stores,
  write_rows-Stores, raised-Stores,
}

module _ {Row Dtype S : Type 0} where
  -- A method that keeps the rows of a valid pipe, whether it raises or not.
  abbrev pub Preserves : {A : Type 0} → Action (LocalPipe Row Dtype S) A → Type 0
  Preserves m = (p : LocalPipe Row Dtype S) → IsValid p → Keeps p (m p).1

  after-Keeps :
      {A B : Type 0} (p : LocalPipe Row Dtype S) (out : Result A × LocalPipe Row Dtype S)
      (k : Action (LocalPipe Row Dtype S) B)
      → Keeps p out.1
      → Preserves k
      → Keeps p (((λ _. out) >> k) p).1
  after-Keeps p (ok a, q) k h hk = ((hk q h.0).0, (hk q h.0).1 ∙ h.1)
  after-Keeps p (raised e, q) k h hk = h

  pub >>-Preserves :
      {A B : Type 0} (m : Action (LocalPipe Row Dtype S) A) (k : Action (LocalPipe Row Dtype S) B)
      → Preserves m
      → Preserves k
      → Preserves (m >> k)
  >>-Preserves m k hm hk p v = after-Keeps p (m p) k (hm p v) hk

  for_subscribers-Preserves : (m : Action S (Unit {0})) → Preserves (for_subscribers m)
  unfolding for_subscribers
  for_subscribers-Preserves m p v = subscribers-Keeps p (for_subscribers m p).1.subscribers v

  break-Keeps :
      (p : LocalPipe Row Dtype S) → IsValid p → Keeps p (record p { queue = p.queue ++ none ∷ [] })
  break-Keeps p v =
      let same = queue_rows-append p.queue (none ∷ []) ∙ append-nil (queue_rows p.queue) in
      (
        record {
          counted = v.counted ∙ ap (λ t. pos (length t)) (sym same);
          fits = v.fits;
          uncached = v.uncached;
        },
        rw same,
      )

  put-none-Preserves : Preserves (put none)
  unfolding put
  put-none-Preserves p v = ground (arith, break-Keeps p v)

  put_nowait-none-Preserves : Preserves (put_nowait none)
  unfolding put_nowait
  put_nowait-none-Preserves p v = ground (arith, break-Keeps p v)

  abbrev mark_closed : Action (LocalPipe Row Dtype S) (Unit {0})
  mark_closed = modify (λ q. record q {
    is_closed = true;
    callbacks = if q.close_cb then q.callbacks + 1 else q.callbacks;
  })

  mark_closed-Preserves : Preserves mark_closed
  mark_closed-Preserves p v =
      (record { counted = v.counted; fits = v.fits; uncached = v.uncached }, refl)

module _ {Row Dtype S : Type 0} ⦃sink : Sink Row Dtype S⦄ where
  flush_if_caching-Preserves : Preserves {Row = Row} {Dtype = Dtype} {S = S} flush_if_caching
  unfolding flush_if_caching
  flush_if_caching-Preserves p v = ground (arith, flush_cache-Keeps p v)

  pub close-Preserves : Preserves {Row = Row} {Dtype = Dtype} {S = S} close
  unfolding close
  close-Preserves p v =
      let rest =
        >>-Preserves (for_subscribers sink.close) mark_closed (for_subscribers-Preserves sink.close)
          mark_closed-Preserves in
      let closing =
        >>-Preserves flush_if_caching (for_subscribers sink.close >> mark_closed)
          flush_if_caching-Preserves rest p v in
      elim (Bool-cases p.is_closed) [
        | inl done ↦ simp done (v, refl)
        | inr going ↦ simp going closing
      ]

  -- Closing an interval keeps the rows of a valid pipe, also where it raises.
  pub close_interval-Preserves : Preserves {Row = Row} {Dtype = Dtype} {S = S} close_interval
  unfolding close_interval
  close_interval-Preserves p v =
      let rest =
        >>-Preserves (put none) (for_subscribers sink.close_interval) put-none-Preserves
          (for_subscribers-Preserves sink.close_interval) in
      let closing =
        >>-Preserves flush_if_caching (put none >> for_subscribers sink.close_interval)
          flush_if_caching-Preserves rest p v in
      elim (Bool-cases p.is_failed) [
        | inl bad ↦ simp bad (v, refl)
        | inr sound ↦ elim (Bool-cases p.is_closed) [
          | inl done ↦ simp (sound, done) (v, refl)
          | inr going ↦ simp (sound, going) closing
        ]
      ]

  pub close_interval_nowait-Preserves :
      Preserves {Row = Row} {Dtype = Dtype} {S = S} close_interval_nowait
  unfolding close_interval_nowait
  close_interval_nowait-Preserves p v =
      let closing =
        >>-Preserves (put_nowait none) (for_subscribers sink.close_interval_nowait)
          put_nowait-none-Preserves (for_subscribers-Preserves sink.close_interval_nowait) p v in
      ground (arith, closing)

module _ {Row Dtype S : Type 0} where
  closing-Stores :
      (rows : List Row) (p : LocalPipe Row Dtype S)
      (out : Result (Unit {0}) × LocalPipe Row Dtype S)
      → Keeps p out.1
      → Stores rows p (((λ (_ : LocalPipe Row Dtype S). out) >> raise failed) p)
  closing-Stores rows p (ok a, q) h = raised-Stores rows p q failed h
  closing-Stores rows p (raised e, q) h = raised-Stores rows p q e h

  closing_raises :
      (p : LocalPipe Row Dtype S) (out : Result (Unit {0}) × LocalPipe Row Dtype S)
      → (((λ (_ : LocalPipe Row Dtype S). out) >> raise {A = Unit {0}} failed) p).0 ≢ ok tt
  closing_raises p (ok a, q) e = cc
  closing_raises p (raised x, q) e = cc

-- The rows that a call of `write` offers: what passes its checks, and nothing if they refuse.
abbrev pub offered : {Row : Type 0} → Result (Option (List Row)) → List Row
offered (ok (some rows)) = rows
offered _ = []

module _ {Row Dtype S : Type 0} ⦃sink : Sink Row Dtype S⦄ where
  when_checked-Stores :
      (r : Result (Option (List Row))) (p : LocalPipe Row Dtype S)
      → IsValid p
      → Stores
          (offered r)
          p
          (when_checked r (λ rows q. if q.caching then cache_rows rows q else write_rows rows q) p)
  when_checked-Stores (raised e) p v = raised-Stores [] p p e (v, refl)
  when_checked-Stores (ok none) p v = (v, sym (append-nil (stored p)))
  when_checked-Stores (ok (some rows)) p v = elim (Bool-cases p.caching) [
    | inl on ↦ simp on (cache_rows-Stores rows p v on)
    | inr off ↦ simp off (write_rows-Stores rows p v off)
  ]

module _ {Row Dtype Matrix S : Type 0} ⦃np : Numpy Row Dtype Matrix⦄ ⦃sink : Sink Row Dtype S⦄ where
  -- A write to a valid pipe keeps it valid. If it succeeds, the rows that the data holds are stored
  -- behind those that were there, in order; if it raises, a prefix of them is (a write to a closed
  -- or failed pipe raises).
  pub write-Stores :
      (array : Data Row Dtype Matrix) (p : LocalPipe Row Dtype S)
      → IsValid p
      → Stores (offered (checked_rows p.dtype array)) p (write array p)
  unfolding write
  write-Stores array p v =
      let rows = offered (checked_rows p.dtype array) in
      if_ind (Stores rows p) p.is_failed
        (λ _. closing-Stores rows p (close p) (close-Preserves p v))
        λ _.
          if_ind (Stores rows p) p.is_closed (λ _. raised-Stores rows p p closed (v, refl))
            (λ _. when_checked-Stores (checked_rows p.dtype array) p v)

  -- A write to a failed or closed pipe never succeeds.
  pub write_refused :
      (array : Data Row Dtype Matrix) (p : LocalPipe Row Dtype S)
      → (p.is_failed || p.is_closed) ≡ true
      → (write array p).0 ≢ ok tt
  unfolding write
  write_refused array p h =
      if_ind (λ (out : Result (Unit {0}) × LocalPipe Row Dtype S). out.0 ≢ ok tt) p.is_failed
        (λ _. closing_raises p (close p))
        λ sound.
          if_ind (λ (out : Result (Unit {0}) × LocalPipe Row Dtype S). out.0 ≢ ok tt) p.is_closed
            (λ _ e. cc) (λ going. absurd (ground arith))
