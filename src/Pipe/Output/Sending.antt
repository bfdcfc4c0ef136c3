-- ===== src/Pipe/Output/Sending.antt =====
-- What an output pipe sends: rows and interval tokens.
use joule.Base.{
  ◌≡◌, refl, true, false, Option, none, some, List, [], ◌∷◌, ◌++◌, map, length, leb, arith,
  append-nil, append_assoc, Bool-cases, inl, inr, if_ind, ap, sym, subst, ◌∙◌,
}
use mathlib.Core.List.{map-append}
use joule.Pipe.{
  Result, ok, raised, Action, Numpy, Data, Sink, ◌>>◌, checked_rows, each, modify, is_nil,
}
use joule.Pipe.Output.{
  OutputPipe, drain, send, open_writer, for_subscribers, write_rows, flush_cache, flush_if_caching,
  cache_row, cache_rows, close_interval, write_checked, write,
}

-- The rows that a call of `write` offers: what passes its checks, and nothing if they refuse.
abbrev pub offered : {Row : Type 0} → Result (Option (List Row)) → List Row
offered (ok (some rows)) = rows
offered _ = []

module _ {Row Dtype S : Type 0} where
  -- What is sent, before what is cached.
  abbrev pub held : OutputPipe Row Dtype S → List (Option Row)
  held p = p.sent ++ map some p.cache

  -- What `_write` does where no exception stops it.
  abbrev pub Puts :
      List Row → OutputPipe Row Dtype S → Result (Unit {0}) × OutputPipe Row Dtype S → Type 0
  Puts rows p (ok _, q) =
      q
      ≡ record p { has_writer = true; sent = p.sent ++ map some rows; subscribers = q.subscribers }
  Puts rows p (raised e, q) = Unit

  -- What a flush does where no exception stops it.
  abbrev pub Flushes : OutputPipe Row Dtype S → Result (Unit {0}) × OutputPipe Row Dtype S → Type 0
  Flushes p (ok _, q) = (q.sent ≡ held p) × (q.cache ≡ []) × (q.caching ≡ p.caching)
  Flushes p (raised e, q) = Unit

  -- After a success the pipe holds the rows behind what it held before; a pipe that is not caching has
  -- an empty cache.
  abbrev pub Sends :
      List Row → OutputPipe Row Dtype S → Result (Unit {0}) × OutputPipe Row Dtype S → Type 0
  Sends rows p (ok _, q) =
      (held q ≡ held p ++ map some rows)
      × (q.caching ≡ p.caching)
      × (q.caching ≡ false → q.cache ≡ [])
  Sends rows p (raised e, q) = Unit

  Puts-Flushes :
      (p : OutputPipe Row Dtype S) (out : Result (Unit {0}) × OutputPipe Row Dtype S)
      → Puts p.cache p out
      → Flushes p
          (((λ (_ : OutputPipe Row Dtype S). out) >> modify (λ q. record q { cache = [] })) p)
  Puts-Flushes p (ok u, q) h = ground arith
  Puts-Flushes p (raised e, q) h = tt

  Puts-Sends :
      (rows : List Row) (p : OutputPipe Row Dtype S)
      (out : Result (Unit {0}) × OutputPipe Row Dtype S)
      → p.cache ≡ []
      → Puts rows p out
      → Sends rows p out
  Puts-Sends rows p (ok u, q) empty h = rw h (rw empty (simp append-nil, refl, λ _. refl))
  Puts-Sends rows p (raised e, q) empty h = tt

  Flushes-Sends :
      (row : Row) (p : OutputPipe Row Dtype S) (out : Result (Unit {0}) × OutputPipe Row Dtype S)
      → Flushes (record p { cache = p.cache ++ row ∷ [] }) out
      → Sends (row ∷ []) p out
  Flushes-Sends row p (ok u, q) (sent, empty, same) = (
    rw
        (
          sent,
          empty,
          append-nil (p.sent ++ map some (p.cache ++ row ∷ [])),
          map-append some p.cache (row ∷ []),
        )
        (sym (append_assoc p.sent (map some p.cache) (some row ∷ []))),
    same,
    λ _. empty,
  )
  Flushes-Sends row p (raised e, q) h = tt

  -- One row, and then the others.
  then-Sends :
      (row : Row) (rows : List Row) (p : OutputPipe Row Dtype S)
      (out : Result (Unit {0}) × OutputPipe Row Dtype S)
      (next : Action (OutputPipe Row Dtype S) (Unit {0}))
      → Sends (row ∷ []) p out
      → (out.1.caching ≡ p.caching → Sends rows out.1 (next out.1))
      → Sends (row ∷ rows) p (((λ (_ : OutputPipe Row Dtype S). out) >> next) p)
  then-Sends row rows p (raised e, q) next h more = tt
  then-Sends row rows p (ok u, q) next h more = joined (next q) h (more h.1)
    where
      joined :
          (out : Result (Unit {0}) × OutputPipe Row Dtype S)
          → Sends (row ∷ []) p (ok u, q)
          → Sends rows q out
          → Sends (row ∷ rows) p out
      joined (raised e, r) a b = tt
      joined (ok v, r) a b = (
        b.0
            ∙ ap (λ t. t ++ map some rows) a.0
            ∙ append_assoc (held p) (some row ∷ []) (map some rows),
        b.1 ∙ a.1,
        b.2,
      )

module _ {Row Dtype S : Type 0} ⦃sink : Sink Row Dtype S⦄ where
  write_rows-Puts : (rows : List Row) (p : OutputPipe Row Dtype S) → Puts rows p (write_rows rows p)
  unfolding write_rows for_subscribers send drain open_writer
  write_rows-Puts rows p = ground arith

  flush_cache-Flushes : (p : OutputPipe Row Dtype S) → Flushes p (flush_cache p)
  unfolding flush_cache
  flush_cache-Flushes p =
      if_ind (Flushes p) p.is_closed (λ _. tt)
        λ _.
          if_ind (Flushes p) (is_nil p.cache)
            (λ nil.
              let e : p.cache ≡ [] = ground arith in (rw e (sym (append-nil p.sent)), e, refl))
            (λ _. Puts-Flushes p (write_rows p.cache p) (write_rows-Puts p.cache p))

  cache_row-Sends :
      (row : Row) (p : OutputPipe Row Dtype S)
      → p.caching ≡ true
      → Sends (row ∷ []) p (cache_row row p)
  unfolding cache_row
  cache_row-Sends row p on =
      let p' = record p { cache = p.cache ++ row ∷ [] } in
      if_ind (Sends (row ∷ []) p) (leb p.cache_size (length p.cache)) (λ _. tt)
        λ _.
          if_ind (Sends (row ∷ []) p) (leb p'.cache_size (length p'.cache))
            (λ _. Flushes-Sends row p (flush_cache p') (flush_cache-Flushes p'))
            (λ _. (
              rw (map-append some p.cache (row ∷ []))
                  (sym (append_assoc p.sent (map some p.cache) (some row ∷ []))),
              refl,
              λ off. cc,
            ))

  cache_rows-Sends :
      (rows : List Row) (p : OutputPipe Row Dtype S)
      → p.caching ≡ true
      → Sends rows p (cache_rows rows p)
  unfolding cache_rows
  cache_rows-Sends [] p on = (sym (append-nil (held p)), refl, λ off. cc)
  cache_rows-Sends (row ∷ rows) p on =
      then-Sends row rows p (cache_row row p) (cache_rows rows) (cache_row-Sends row p on)
        λ same. cache_rows-Sends rows (cache_row row p).1 (same ∙ on)

  write_checked-Sends :
      (r : Result (Option (List Row))) (p : OutputPipe Row Dtype S)
      → (p.caching ≡ false → p.cache ≡ [])
      → Sends (offered r) p (write_checked r p)
  write_checked-Sends (raised e) p v = tt
  write_checked-Sends (ok none) p v = (sym (append-nil (held p)), refl, v)
  write_checked-Sends (ok (some rows)) p v = elim (Bool-cases p.caching) [
    | inl on ↦ simp on (cache_rows-Sends rows p on)
    | inr off ↦ simp off (Puts-Sends rows p (write_rows rows p) (v off) (write_rows-Puts rows p))
  ]

  -- After a success, the cached rows are sent and an interval token behind them.
  abbrev pub Breaks : OutputPipe Row Dtype S → Result (Unit {0}) × OutputPipe Row Dtype S → Type 0
  Breaks p (ok _, q) = (q.sent ≡ held p ++ none ∷ []) × (q.cache ≡ [])
  Breaks p (raised e, q) = Unit

  Flushes-Breaks :
      (p : OutputPipe Row Dtype S) (out : Result (Unit {0}) × OutputPipe Row Dtype S)
      → Flushes p out
      → Breaks p (((λ (_ : OutputPipe Row Dtype S). out) >> send (none ∷ []) >> drain) p)
  unfolding send drain
  Flushes-Breaks p (ok u, q) (sent, empty, same) =
      if_ind (Breaks p) q.broken (λ _. tt) (λ _. (ap (λ t. t ++ none ∷ []) sent, empty))
  Flushes-Breaks p (raised e, q) h = tt

  flush_if_caching-Flushes :
      (p : OutputPipe Row Dtype S)
      → (p.caching ≡ false → p.cache ≡ [])
      → Flushes p (flush_if_caching p)
  unfolding flush_if_caching
  flush_if_caching-Flushes p v = elim (Bool-cases p.caching) [
    | inl on ↦ simp on (flush_cache-Flushes p)
    | inr off ↦ simp off (rw (v off) (sym (append-nil p.sent)), v off, refl)
  ]

  -- If `close_interval` succeeds on a pipe that has a writer, and whose cache is empty where it is not
  -- caching, all rows that were sent or cached are sent and then an interval token.
  pub close_interval-Breaks :
      (p : OutputPipe Row Dtype S)
      → p.has_writer ≡ true
      → (p.caching ≡ false → p.cache ≡ [])
      → Breaks p (close_interval p)
  unfolding close_interval
  close_interval-Breaks p writer v =
      if_ind (Breaks p) p.is_closed (λ _. tt)
        λ _. simp writer (Flushes-Breaks p (flush_if_caching p) (flush_if_caching-Flushes p v))

  write_rows_alone :
      (rows : List Row) (p : OutputPipe Row Dtype S)
      → p.subscribers ≡ []
      → p.broken ≡ false
      → write_rows rows p
        ≡ (ok tt, record p { has_writer = true; sent = p.sent ++ map some rows; subscribers = [] })
  unfolding write_rows for_subscribers send drain open_writer each
  write_rows_alone rows p alone there = simp (alone, there)

  flush_cache_alone :
      (p : OutputPipe Row Dtype S)
      → p.is_closed ≡ false
      → p.subscribers ≡ []
      → p.broken ≡ false
      → ((flush_cache p).0 ≡ ok tt)
        × ((flush_cache p).1.sent ≡ p.sent ++ map some p.cache)
        × ((flush_cache p).1.cache ≡ [])
  unfolding flush_cache write_rows open_writer for_subscribers each
  flush_cache_alone p unclosed alone there =
      let whole = write_rows_alone p.cache p alone there in
      elim (Bool-cases (is_nil p.cache)) [
        | inl nil ↦
            let e : p.cache ≡ [] = ground arith in
            simp (unclosed, nil) (refl, rw e (sym (append-nil p.sent)), e)
        | inr some_rows ↦ simp (unclosed, some_rows, whole) (refl, refl, refl)
      ]

  -- On an open pipe that has no writer yet, whose other side is there and to which nobody subscribes,
  -- `close_interval` and then a flush succeed, send the cached rows and send no interval token.
  pub close_interval_without_writer :
      (p : OutputPipe Row Dtype S)
      → p.has_writer ≡ false
      → p.is_closed ≡ false
      → p.subscribers ≡ []
      → p.broken ≡ false
      → (((close_interval >> flush_cache) p).0 ≡ ok tt)
        × (((close_interval >> flush_cache) p).1.sent ≡ p.sent ++ map some p.cache)
        × (((close_interval >> flush_cache) p).1.cache ≡ [])
  close_interval_without_writer p writer unclosed alone there =
      let skip : close_interval p ≡ (ok tt, p) = unfold close_interval in simp (writer, unclosed) in
      subst
        (λ (out : Result (Unit {0}) × OutputPipe Row Dtype S).
          let both = ((λ (_ : OutputPipe Row Dtype S). out) >> flush_cache) p in
          (both.0 ≡ ok tt) × (both.1.sent ≡ p.sent ++ map some p.cache) × (both.1.cache ≡ []))
        (sym skip) (flush_cache_alone p unclosed alone there)

module _ {Row Dtype Matrix S : Type 0} ⦃np : Numpy Row Dtype Matrix⦄ ⦃sink : Sink Row Dtype S⦄ where
  -- If a write succeeds, the rows of the data are behind those that were sent or cached before, in
  -- order and each once, for a pipe whose cache is empty where it is not caching; it stays so.
  pub write-Sends :
      (array : Data Row Dtype Matrix) (p : OutputPipe Row Dtype S)
      → (p.caching ≡ false → p.cache ≡ [])
      → Sends (offered (checked_rows p.dtype array)) p (write array p)
  unfolding write
  write-Sends array p v =
      if_ind (Sends (offered (checked_rows p.dtype array)) p) p.is_closed (λ _. tt)
        (λ _. write_checked-Sends (checked_rows p.dtype array) p v)
