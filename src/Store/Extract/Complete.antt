-- ===== src/Store/Extract/Complete.antt =====
-- What `_extract_data` hands to its callback, where no interval ends one row before a block does.
use joule.Base.{
  ℕ, zero, suc, ◌-◌, ◌%◌, ◌≤◌, ◌<◌, ◌≡◌, ◌≢◌, refl, ap, sym, subst, ◌∙◌, Bool, true, false, Option,
  none, some, List, [], ◌∷◌, ◌++◌, map, length, take, drop, arith, Bool-cases, inl, inr,
  if◌then◌else◌, ltb, ◌==◌, take-append-drop, length-take, length-drop, length-append, append-nil,
  append_assoc,
}
use native.Mathlib.Nat.{mod-eq-sub-mod, mod-eq_of_lt}
use joule.Base.Time.{Timestamped, times}
use joule.Base.Int.{ℤ}
use joule.Store.{within, where_, newest, next_us, Tables}
use joule.Store.Extract.{
  prepend, append_blocks, selected, block_of, end_round, extract_interval, extract_intervals,
  extract_data, same_time,
}
use joule.Store.Extract.Query.{IsIncreasing, selected-drop}

module _ {A : Type 0} where
  abbrev pub flatten : List (List A) → List A
  flatten [] = []
  flatten (x ∷ xs) = x ++ flatten xs

  flatten-append : (xs ys : List (List A)) → flatten (xs ++ ys) ≡ flatten xs ++ flatten ys
  flatten-append [] ys = refl
  flatten-append (x ∷ xs) ys =
      ap (λ t. x ++ t) (flatten-append xs ys) ∙ sym (append_assoc x (flatten xs) (flatten ys))

  pub take_all : (n : ℕ) (xs : List A) → length xs ≤ n → take n xs ≡ xs
  take_all zero [] h = refl
  take_all zero (x ∷ xs) h = absurd (omega arith)
  take_all (suc n) [] h = refl
  take_all (suc n) (x ∷ xs) h = ap (λ t. x ∷ t) (take_all n xs (omega arith))

  -- The rows of an interval, and the token behind them if it is not the last.
  abbrev pub ended : A → Bool → List A → List A
  ended token is_last rows = if is_last then rows else rows ++ token ∷ []

  -- The blocks that were made hold the rows, in order.
  abbrev pub Holds : List A → Option (List (List A)) → Type 0
  Holds rows none = ⊥
  Holds rows (some blocks) = flatten blocks ≡ rows

  Holds-prepend :
      (block rows : List A) (o : Option (List (List A)))
      → Holds rows o
      → Holds (block ++ rows) (prepend block o)
  Holds-prepend block rows (some blocks) h = ap (λ t. block ++ t) h
  Holds-prepend block rows none h = h

  Holds-append_blocks :
      (xs ys : List A) (o p : Option (List (List A)))
      → Holds xs o
      → Holds ys p
      → Holds (xs ++ ys) (append_blocks o p)
  Holds-append_blocks xs ys (some bs) (some cs) h k = rw (flatten-append bs cs, h, k) refl
  Holds-append_blocks xs ys none p h k = h
  Holds-append_blocks xs ys (some bs) none h k = k

  -- An interval that is not the last does not end one row before a block does.
  abbrev pub Aligned : ℕ → Bool → List A → Type 0
  Aligned size true rows = Unit
  Aligned size false rows = length rows % size ≢ size - 1

  Aligned-drop :
      (size : ℕ) (is_last : Bool) (rows : List A)
      → size ≤ length rows
      → Aligned size is_last rows
      → Aligned size is_last (drop size rows)
  Aligned-drop size true rows h k = tt
  Aligned-drop size false rows h k =
      λ e. k (mod-eq-sub-mod h ∙ ap (λ n. n % size) (sym (length-drop size rows)) ∙ e)

  ended-append :
      (token : A) (is_last : Bool) (n : ℕ) (rows : List A)
      → take n rows ++ ended token is_last (drop n rows) ≡ ended token is_last rows
  ended-append token true n rows = take-append-drop n rows
  ended-append token false n rows =
      sym (append_assoc (take n rows) (drop n rows) (token ∷ []))
      ∙ ap (λ t. t ++ token ∷ []) (take-append-drop n rows)

module _ {Row : Type 0} ⦃ts : Timestamped Row⦄ where
  block_of_few :
      (size : ℕ) (token : Row) (is_last : Bool) (sel : List Row)
      → length sel < size
      → block_of size token is_last sel ≡ ended token is_last sel
  unfolding block_of
  block_of_few size token true sel few = ground arith
  block_of_few size token false sel few = ground arith

  block_of_full :
      (size : ℕ) (token : Row) (is_last : Bool) (found : List Row)
      → length found ≡ size
      → block_of size token is_last found ≡ found
  unfolding block_of
  block_of_full size token is_last found full = ground arith

  end_round_short :
      (size : ℕ) (np_data : List Row) (more : Option (List (List Row)))
      → length np_data < size
      → Holds np_data (end_round size np_data more)
  unfolding end_round
  end_round_short size [] more short = refl
  end_round_short size (row ∷ rows) more short =
      let test : ltb (length (row ∷ rows)) size ≡ true = ground arith in
      let some_rows : (length (row ∷ rows) == 0) ≡ false = ground arith in
      simp (test, some_rows) (append-nil (row ∷ rows))

  end_round_full :
      (k : ℕ) (np_data : List Row) (more : Option (List (List Row)))
      → length np_data ≡ suc k
      → end_round (suc k) np_data more ≡ prepend np_data more
  unfolding end_round
  end_round_full k np_data more full = ground arith

  short_block :
      (k : ℕ) (token : Row) (is_last : Bool) (sel : List Row)
      → length sel < suc k
      → Aligned (suc k) is_last sel
      → length (ended token is_last sel) < suc k
  short_block k token true sel few aligned = few
  short_block k token false sel few aligned =
      let whole = length-append sel (token ∷ []) in
      let small = mod-eq_of_lt {n = length sel} {m = suc k} few in
      let apart : length sel ≢ k = λ e. aligned (small ∙ e ∙ omega arith) in
      omega (arith, whole, apart)

  -- With fuel greater than the number of its rows, an interval of increasing rows is handed over whole and
  -- in order, the token behind it if it is not the last.
  extract_interval-Holds :
      (fuel k : ℕ) (token : Row) (is_last : Bool) (start end : Option ℤ) (rows : List Row)
      → IsIncreasing rows
      → Aligned (suc k) is_last (selected start end rows)
      → length (selected start end rows) < fuel
      → Holds
          (ended token is_last (selected start end rows))
          (extract_interval fuel (suc k) token is_last start end rows)
  unfolding extract_interval
  extract_interval-Holds zero k token is_last start end rows h aligned enough = absurd (omega arith)
  extract_interval-Holds (suc fuel) k token is_last start end rows h aligned enough =
      let sel = selected start end rows in
      elim (Bool-cases (ltb (length sel) (suc k))) [
        | inl few ↦
            rw
              (
                take_all (suc k) sel (ground arith),
                block_of_few (suc k) token is_last sel (ground arith),
              )
              (end_round_short (suc k) (ended token is_last sel) _
                (short_block k token is_last sel (ground arith) aligned))
        | inr many ↦
            let enough_rows : suc k ≤ length sel = ground arith in
            let taken = length-take (suc k) sel in
            let full : length (take (suc k) sel) ≡ suc k = omega (arith, taken) in
            let behind = selected-drop k start end rows h enough_rows in
            let here = next_us (newest (times (take (suc k) sel))) in
            let fewer = length-drop (suc k) sel in
            let more = extract_interval fuel (suc k) token is_last here end rows in
            let later =
              extract_interval-Holds fuel k token is_last here end rows h
                (subst (Aligned (suc k) is_last) (sym behind)
                  (Aligned-drop (suc k) is_last sel enough_rows aligned))
                (rw behind (omega (arith, fewer))) in
            rw
              (
                block_of_full (suc k) token is_last (take (suc k) sel) full,
                end_round_full k (take (suc k) sel) more full,
              )
              (subst (λ l. Holds l (prepend (take (suc k) sel) more))
                (ended-append token is_last (suc k) sel)
                (Holds-prepend (take (suc k) sel) (ended token is_last (drop (suc k) sel)) more
                  (subst (λ l. Holds (ended token is_last l) more) behind later)))
      ]

  where-shorter : (p : Row → Bool) (rows : List Row) → length (where_ p rows) ≤ length rows
  unfolding where_
  where-shorter p [] = omega arith
  where-shorter p (row ∷ rows) = let rest = where-shorter p rows in ground arith

  pub selected-shorter :
      (start end : Option ℤ) (rows : List Row) → length (selected start end rows) ≤ length rows
  unfolding selected
  selected-shorter start end rows = where-shorter (λ row. within start end (ts.timestamp row)) rows

  -- The rows between the boundaries, a token behind each interval but the last. An interval that ends
  -- where it starts is left out with its token.
  abbrev pub expected : Row → Option ℤ → List (Option ℤ) → List Row → List Row
  expected token start [] rows = []
  expected token start (end ∷ []) rows = if same_time start end then [] else selected start end rows
  expected token start (end ∷ next ∷ ends) rows =
      let later = expected token end (next ∷ ends) rows in
      if same_time start end then later else (selected start end rows ++ token ∷ []) ++ later

  -- No interval but the last ends one row before a block does.
  abbrev pub AllAligned : ℕ → Option ℤ → List (Option ℤ) → List Row → Type 0
  AllAligned size start [] rows = Unit
  AllAligned size start (end ∷ []) rows = Unit
  AllAligned size start (end ∷ next ∷ ends) rows =
      Aligned size false (selected start end rows) × AllAligned size end (next ∷ ends) rows

  extract_intervals-Holds :
      (fuel k : ℕ) (token : Row) (start : Option ℤ) (ends : List (Option ℤ)) (rows : List Row)
      → IsIncreasing rows
      → AllAligned (suc k) start ends rows
      → length rows < fuel
      → Holds
          (expected token start ends rows)
          (extract_intervals fuel (suc k) token start ends rows)
  unfolding extract_intervals
  extract_intervals-Holds fuel k token start [] rows h aligned enough = refl
  extract_intervals-Holds fuel k token start (end ∷ []) rows h aligned enough =
      let few = selected-shorter start end rows in
      let whole =
        extract_interval-Holds fuel k token true start end rows h tt (omega (arith, few)) in
      elim (Bool-cases (same_time start end)) [
        | inl same ↦ simp same refl
        | inr differ ↦ simp differ whole
      ]
  extract_intervals-Holds fuel k token start (end ∷ next ∷ ends) rows h aligned enough =
      let few = selected-shorter start end rows in
      let whole =
        extract_interval-Holds fuel k token false start end rows h aligned.0 (omega (arith, few)) in
      let later = extract_intervals-Holds fuel k token end (next ∷ ends) rows h aligned.1 enough in
      let both =
        Holds-append_blocks (selected start end rows ++ token ∷ [])
          (expected token end (next ∷ ends) rows)
          (extract_interval fuel (suc k) token false start end rows)
          (extract_intervals fuel (suc k) token end (next ∷ ends) rows) whole later in
      elim (Bool-cases (same_time start end)) [
        | inl same ↦ simp same later
        | inr differ ↦ simp differ both
      ]

  -- The boundaries of a read: the breaks in its range, and its end.
  abbrev pub ends_of : Option ℤ → Option ℤ → Tables Row → List (Option ℤ)
  ends_of start end db = map some (where_ (within start end) db.breaks) ++ end ∷ []

  -- Where the tables exist, their rows are in increasing order of time and no interval but the last has
  -- one row less than a multiple of the block size, a read ends with fuel greater than the number of
  -- rows, and its blocks hold the rows between the boundaries in order, with an interval token behind
  -- each interval but the last, where an interval that ends at its start is left out with its token.
  pub extract_data-Holds :
      (fuel k : ℕ) (token : Row) (start end : Option ℤ) (db : Tables Row) (rows : List Row)
      → db.created ≡ true
      → IsIncreasing rows
      → AllAligned (suc k) start (ends_of start end db) rows
      → length rows < fuel
      → Holds
          (expected token start (ends_of start end db) rows)
          (extract_data fuel (suc k) token start end db rows)
  unfolding extract_data
  extract_data-Holds fuel k token start end db rows created h aligned enough =
      rw created
        (extract_intervals-Holds fuel k token start (ends_of start end db) rows h aligned enough)
