-- ===== src/Pipe/Local/Invariant.antt =====
-- The rows that a local pipe holds, and what every write does to them.
use joule.Base.{
  ℕ, zero, suc, min, ◌≤◌, ◌<◌, ◌≡◌, refl, true, false, Option, some, List, [], ◌∷◌, ◌++◌, length,
  take, arith, length-append, append_assoc, append-nil, ap, sym, subst, ◌∙◌, take-length, leb, inl,
  inr, Bool-cases,
}
use joule.Base.Int.{ℤ, pos, ◌+ℤ◌, int_laws}
use joule.Pipe.{Result, ok, raised, Action, Sink, Error, index_error, ◌>>◌}
use joule.Pipe.Local.{
  LocalPipe, write_rows, flush_cache, cache_row, cache_rows, put, for_subscribers,
}
use joule.Pipe.Local.Queue.{queue_rows, queue_rows-append}

module _ {Row Dtype S : Type 0} where
  -- The rows written and not yet consumed, the oldest first.
  abbrev pub stored : LocalPipe Row Dtype S → List Row
  stored p = p.read_buffer ++ (queue_rows p.queue ++ p.cache)

  pub record IsValid (p : LocalPipe Row Dtype S) : Type 0 where
    pub counted : p.queued_rows ≡ pos (length (queue_rows p.queue))
    pub fits : length p.cache ≤ p.cache_size
    pub uncached : p.caching ≡ false → p.cache ≡ []

  -- What `_write` and the flush do to a pipe: a block is put at the end of the queue, or, where an
  -- exception stops it, only subscribers have changed.
  abbrev pub Puts :
      List Row → LocalPipe Row Dtype S → Result (Unit {0}) × LocalPipe Row Dtype S → Type 0
  Puts rows p (ok _, p') = p' ≡ record p {
    queue = p.queue ++ some rows ∷ [];
    queued_rows = p.queued_rows +ℤ pos (length rows);
    subscribers = p'.subscribers;
  }
  Puts rows p (raised e, p') = p' ≡ record p { subscribers = p'.subscribers }

module _ {Row Dtype S : Type 0} ⦃sink : Sink Row Dtype S⦄ where
  write_rows-Puts : (rows : List Row) (p : LocalPipe Row Dtype S) → Puts rows p (write_rows rows p)
  unfolding write_rows for_subscribers put
  write_rows-Puts rows p = ground arith

module _ {Row : Type 0} where
  -- The queue counts a block that is put.
  pub put-counted :
      (queued : ℤ) (q : List (Option (List Row))) (rows : List Row)
      → queued ≡ pos (length (queue_rows q))
      → queued +ℤ pos (length rows) ≡ pos (length (queue_rows (q ++ some rows ∷ [])))
  put-counted queued q rows e =
      rw (e, queue_rows-append q (some rows ∷ []), append-nil rows)
        (omega (int_laws, length-append (queue_rows q) rows))

  -- A prefix of one row is one of any list that starts with it.
  take_one : (row : Row) (rows : List Row) (k : ℕ) → take k (row ∷ []) ≡ take (min k 1) (row ∷ rows)
  take_one row rows zero = refl
  take_one row rows (suc zero) = refl
  take_one row rows (suc (suc k)) = let e : min (suc (suc k)) 1 ≡ 1 = omega arith in rw e

module _ {Row Dtype S : Type 0} where
  -- Still valid, with the same rows.
  abbrev pub Keeps : LocalPipe Row Dtype S → LocalPipe Row Dtype S → Type 0
  Keeps p q = IsValid q × (stored q ≡ stored p)

  -- Still valid, with more rows at the end: all of `rows` after a success, else some of the first.
  abbrev pub Stores :
      List Row → LocalPipe Row Dtype S → Result (Unit {0}) × LocalPipe Row Dtype S → Type 0
  Stores rows p (ok _, q) = IsValid q × (stored q ≡ stored p ++ rows)
  Stores rows p (raised e, q) = IsValid q × (k : ℕ) × (stored q ≡ stored p ++ take k rows)

  pub subscribers-Keeps :
      (p : LocalPipe Row Dtype S) (ss : List S)
      → IsValid p
      → Keeps p (record p { subscribers = ss })
  subscribers-Keeps p ss v =
      (record { counted = v.counted; fits = v.fits; uncached = v.uncached }, refl)

  abbrev blocked : LocalPipe Row Dtype S → List Row → List S → LocalPipe Row Dtype S
  blocked p rows ss = record p {
    queue = p.queue ++ some rows ∷ [];
    queued_rows = p.queued_rows +ℤ pos (length rows);
    subscribers = ss;
  }

  flushed-Keeps :
      (p : LocalPipe Row Dtype S) (ss : List S)
      → IsValid p
      → Keeps p (record (blocked p p.cache ss) { cache = [] })
  flushed-Keeps p ss v = (
    record {
      counted = put-counted p.queued_rows p.queue p.cache v.counted;
      fits = omega arith;
      uncached = λ _. refl;
    },
    rw (queue_rows-append p.queue (some p.cache ∷ []), append-nil p.cache, append-nil) refl,
  )

  put-Stores :
      (p : LocalPipe Row Dtype S) (rows : List Row) (ss : List S)
      → IsValid p
      → p.cache ≡ []
      → Stores rows p (ok tt, blocked p rows ss)
  put-Stores p rows ss v bare = (
    record {
      counted = put-counted p.queued_rows p.queue rows v.counted;
      fits = v.fits;
      uncached = v.uncached;
    },
    simp (queue_rows-append, bare, append-nil, append_assoc),
  )

  pub raised-Stores :
      (rows : List Row) (p q : LocalPipe Row Dtype S) (e : Error)
      → Keeps p q
      → Stores rows p (raised e, q)
  raised-Stores rows p q e h = (h.0, 0, rw append-nil h.1)

  pub Puts-Stores :
      (rows : List Row) (p : LocalPipe Row Dtype S)
      (out : Result (Unit {0}) × LocalPipe Row Dtype S)
      → IsValid p
      → p.cache ≡ []
      → Puts rows p out
      → Stores rows p out
  Puts-Stores rows p (ok u, q) v bare e =
      subst (λ x. Stores rows p (ok u, x)) (sym e) (put-Stores p rows q.subscribers v bare)
  Puts-Stores rows p (raised x, q) v bare e =
      subst (λ y. Stores rows p (raised x, y)) (sym e)
        (raised-Stores rows p (record p { subscribers = q.subscribers }) x
          (subscribers-Keeps p q.subscribers v))

  -- A step that keeps the rows may follow.
  Stores-Keeps :
      (rows : List Row) (p p' : LocalPipe Row Dtype S)
      (out : Result (Unit {0}) × LocalPipe Row Dtype S)
      → stored p' ≡ stored p ++ rows
      → Keeps p' out.1
      → Stores rows p out
  Stores-Keeps rows p p' (ok u, q) e h = (h.0, h.1 ∙ e)
  Stores-Keeps rows p p' (raised x, q) e h =
      (h.0, length rows, h.1 ∙ e ∙ ap (λ t. stored p ++ t) (sym (take-length rows)))

  prefix-Stores :
      (row : Row) (rows : List Row) (p q : LocalPipe Row Dtype S)
      (out : Result (Unit {0}) × LocalPipe Row Dtype S)
      → stored q ≡ stored p ++ row ∷ []
      → Stores rows q out
      → Stores (row ∷ rows) p out
  prefix-Stores row rows p q (ok u, q') e h =
      (h.0, h.1 ∙ ap (λ t. t ++ rows) e ∙ append_assoc (stored p) (row ∷ []) rows)
  prefix-Stores row rows p q (raised x, q') e (v, k, h) = (
    v,
    suc k,
    h ∙ ap (λ t. t ++ take k rows) e ∙ append_assoc (stored p) (row ∷ []) (take k rows),
  )

  -- One row, and then the others.
  then-Stores :
      (row : Row) (rows : List Row) (p : LocalPipe Row Dtype S)
      (out : Result (Unit {0}) × LocalPipe Row Dtype S)
      (next : Action (LocalPipe Row Dtype S) (Unit {0}))
      → Stores (row ∷ []) p out
      → (IsValid out.1 → Stores rows out.1 (next out.1))
      → Stores (row ∷ rows) p (((λ q. out) >> next) p)
  then-Stores row rows p (ok u, q) next h more = prefix-Stores row rows p q (next q) h.1 (more h.0)
  then-Stores row rows p (raised e, q) next (v, k, same) more =
      (v, min k 1, same ∙ ap (λ t. stored p ++ t) (take_one row rows k))

module _ {Row Dtype S : Type 0} ⦃sink : Sink Row Dtype S⦄ where
  pub flush_cache-Keeps : (p : LocalPipe Row Dtype S) → IsValid p → Keeps p (flush_cache p).1
  unfolding flush_cache
  flush_cache-Keeps p v =
      let ss = (write_rows p.cache p).1.subscribers in
      ground (arith, write_rows-Puts p.cache p, subscribers-Keeps p ss v, flushed-Keeps p ss v)

  flush_cache-caching : (p : LocalPipe Row Dtype S) → (flush_cache p).1.caching ≡ p.caching
  unfolding flush_cache
  flush_cache-caching p = ground (arith, write_rows-Puts p.cache p)

  pub write_rows-Stores :
      (rows : List Row) (p : LocalPipe Row Dtype S)
      → IsValid p
      → p.caching ≡ false
      → Stores rows p (write_rows rows p)
  write_rows-Stores rows p v off =
      Puts-Stores rows p (write_rows rows p) v (v.uncached off) (write_rows-Puts rows p)

  cached-Stores :
      (row : Row) (p : LocalPipe Row Dtype S)
      → IsValid p
      → p.caching ≡ true
      → length p.cache < p.cache_size
      → Stores (row ∷ []) p (ok tt, record p { cache = p.cache ++ row ∷ [] })
  cached-Stores row p v on room = (
    record {
      counted = v.counted;
      fits = omega (arith, length-append p.cache (row ∷ []));
      uncached = λ off. cc;
    },
    simp append_assoc,
  )

  cache_row-Stores :
      (row : Row) (p : LocalPipe Row Dtype S)
      → IsValid p
      → p.caching ≡ true
      → Stores (row ∷ []) p (cache_row row p)
  unfolding cache_row
  cache_row-Stores row p v on =
      let p' = record p { cache = p.cache ++ row ∷ [] } in
      elim (Bool-cases (leb p.cache_size (length p.cache))) [
        | inl full ↦ rw full (raised-Stores (row ∷ []) p p index_error (v, refl))
        | inr room ↦
            let (v', more) = cached-Stores row p v on (ground arith) in
            elim (Bool-cases (leb p'.cache_size (length p'.cache))) [
              | inl flush ↦
                  rw (room, flush)
                    (Stores-Keeps (row ∷ []) p p' (flush_cache p') more (flush_cache-Keeps p' v'))
              | inr keep ↦ rw (room, keep) (v', more)
            ]
      ]

  cache_row-caching :
      (row : Row) (p : LocalPipe Row Dtype S) → (cache_row row p).1.caching ≡ p.caching
  unfolding cache_row
  cache_row-caching row p =
      ground (arith, flush_cache-caching (record p { cache = p.cache ++ row ∷ [] }))

  pub cache_rows-Stores :
      (rows : List Row) (p : LocalPipe Row Dtype S)
      → IsValid p
      → p.caching ≡ true
      → Stores rows p (cache_rows rows p)
  unfolding cache_rows
  cache_rows-Stores [] p v on = (v, sym (append-nil (stored p)))
  cache_rows-Stores (row ∷ rows) p v on =
      then-Stores row rows p (cache_row row p) (cache_rows rows) (cache_row-Stores row p v on)
        (λ v'. cache_rows-Stores rows (cache_row row p).1 v' (cache_row-caching row p ∙ on))
