-- ===== src/Store/Extract/Loops.antt =====
-- A token that fills a block of `_extract_data`.
use joule.Base.{
  ℕ, zero, suc, ◌≡◌, refl, ap, ◌∙◌, true, false, Option, none, some, List, [], ◌∷◌, ◌++◌, length,
  take, arith, ltb, ◌==◌, length-append,
}
use joule.Base.Time.{Timestamped, times}
use joule.Base.Int.{ℤ, pos, ◌+ℤ◌}
use joule.Store.{newest, next_us}
use joule.Store.Extract.{selected, block_of, end_round, extract_interval}
use joule.Store.Extract.Complete.{take_all}

module _ {A : Type 0} where
  pub newest-append : (xs : List A) (x : A) → newest (xs ++ x ∷ []) ≡ some x
  newest-append [] x = refl
  newest-append (y ∷ []) x = refl
  newest-append (y ∷ z ∷ xs) x = newest-append (z ∷ xs) x

module _ {Row : Type 0} ⦃ts : Timestamped Row⦄ where
  pub times-append :
      (xs : List Row) (x : Row) → times (xs ++ x ∷ []) ≡ times xs ++ ts.timestamp x ∷ []
  unfolding times
  times-append [] x = refl
  times-append (y ∷ xs) x = ap (λ t. ts.timestamp y ∷ t) (times-append xs x)

  -- A block that the token fills.
  token_fills :
      (k : ℕ) (token : Row) (sel : List Row)
      → length sel ≡ k
      → block_of (suc k) token false (take (suc k) sel) ≡ sel ++ token ∷ []
  unfolding block_of
  token_fills k token sel e =
      let test : ltb (length sel) (suc k) ≡ true = ground arith in
      rw (take_all (suc k) sel (omega arith)) simp test

  goes_on :
      (k : ℕ) (token : Row) (sel : List Row) (more : Option (List (List Row)))
      → length sel ≡ k
      → more ≡ none
      → end_round (suc k) (sel ++ token ∷ []) more ≡ none
  unfolding end_round
  goes_on k token sel more e stuck =
      let whole = length-append sel (token ∷ []) in
      let some_rows : (length (sel ++ token ∷ []) == 0) ≡ false = ground arith in
      let full : ltb (length (sel ++ token ∷ [])) (suc k) ≡ false = ground arith in
      simp (some_rows, full, stuck)

  next_of :
      (token : Row) (sel : List Row)
      → next_us (newest (times (sel ++ token ∷ []))) ≡ some (ts.timestamp token +ℤ pos 1)
  next_of token sel =
      ap next_us
        (ap newest (times-append sel token) ∙ newest-append (times sel) (ts.timestamp token))

  from_token :
      (fuel k : ℕ) (token : Row) (end : Option ℤ) (rows sel : List Row)
      → selected (some (ts.timestamp token +ℤ pos 1)) end rows ≡ sel
      → length sel ≡ k
      → extract_interval fuel (suc k) token false (some (ts.timestamp token +ℤ pos 1)) end rows
        ≡ none
  unfolding extract_interval
  from_token zero k token end rows sel found e = refl
  from_token (suc fuel) k token end rows sel found e =
      let again = next_of token sel in
      let more =
        extract_interval fuel (suc k) token false (some (ts.timestamp token +ℤ pos 1)) end rows in
      rw (found, token_fills k token sel e, again)
        (goes_on k token sel more e (from_token fuel k token end rows sel found e))

  -- Where an interval that is not the last has one row less than a block, and the query from one
  -- microsecond after the time of the token finds the same rows, its read has no end: no fuel is enough.
  pub extract_interval-token_loop :
      (fuel k : ℕ) (token : Row) (start end : Option ℤ) (rows : List Row)
      → length (selected start end rows) ≡ k
      → selected (some (ts.timestamp token +ℤ pos 1)) end rows ≡ selected start end rows
      → extract_interval fuel (suc k) token false start end rows ≡ none
  unfolding extract_interval
  extract_interval-token_loop zero k token start end rows e same = refl
  extract_interval-token_loop (suc fuel) k token start end rows e same =
      let sel = selected start end rows in
      let again = next_of token sel in
      let more =
        extract_interval fuel (suc k) token false (some (ts.timestamp token +ℤ pos 1)) end rows in
      rw (token_fills k token sel e, again)
        (goes_on k token sel more e (from_token fuel k token end rows sel same e))
