-- ===== src/Store/Extract/Query.antt =====
-- What a query finds behind the last row of a block.
use joule.Base.{
  ℕ, zero, suc, ◌≤◌, ◌≡◌, refl, ap, sym, subst, ◌∙◌, Bool, true, false, Option, some, List, [], ◌∷◌,
  length, take, drop, arith, Bool-cases, inl, inr,
}
use joule.Base.Time.{Timestamped, times}
use joule.Base.Int.{ℤ, pos, ◌+ℤ◌, ◌<ℤ◌, +ℤ_parts}
use joule.Store.{within, where_, newest, next_us, is_before}
use joule.Store.Extract.{selected}

module _ {A : Type 0} where
  -- A query within the result of a wider one.
  where-where :
      (p q : A → Bool) (xs : List A)
      → ((x : A) → q x ≡ true → p x ≡ true)
      → where_ q (where_ p xs) ≡ where_ q xs
  unfolding where_
  where-where p q [] h = refl
  where-where p q (x ∷ xs) h =
      let rest = where-where p q xs h in
      elim (Bool-cases (p x)) [
        | inl yes_p ↦ elim (Bool-cases (q x)) [
          | inl yes_q ↦ simp (yes_p, yes_q, rest)
          | inr no_q ↦ simp (yes_p, no_q, rest)
        ]
        | inr no_p ↦ elim (Bool-cases (q x)) [
          | inl yes_q ↦ let e = h x yes_q in cc
          | inr no_q ↦ simp (no_p, no_q, rest)
        ]
      ]

  -- All of a list passes a test.
  abbrev pub Passes : (A → Bool) → List A → Type 0
  Passes p [] = Unit
  Passes p (x ∷ xs) = (p x ≡ true) × Passes p xs

  where-Passes : (p : A → Bool) (xs : List A) → Passes p (where_ p xs)
  unfolding where_
  where-Passes p [] = tt
  where-Passes p (x ∷ xs) = elim (Bool-cases (p x)) [
    | inl yes_p ↦ simp yes_p (refl, where-Passes p xs)
    | inr no_p ↦ simp no_p (where-Passes p xs)
  ]

  pub where_all : (p : A → Bool) (xs : List A) → Passes p xs → where_ p xs ≡ xs
  unfolding where_
  where_all p [] h = refl
  where_all p (x ∷ xs) h = let rest = where_all p xs h.1 in simp (h.0, rest)

module _ {Row : Type 0} ⦃ts : Timestamped Row⦄ where
  -- Every row is later than the time.
  abbrev pub AllAfter : ℤ → List Row → Type 0
  AllAfter t [] = Unit
  AllAfter t (row ∷ rows) = (t <ℤ ts.timestamp row) × AllAfter t rows

  abbrev pub IsIncreasing : List Row → Type 0
  IsIncreasing [] = Unit
  IsIncreasing (row ∷ rows) = AllAfter (ts.timestamp row) rows × IsIncreasing rows

  where-AllAfter :
      (t : ℤ) (p : Row → Bool) (rows : List Row) → AllAfter t rows → AllAfter t (where_ p rows)
  unfolding where_
  where-AllAfter t p [] h = tt
  where-AllAfter t p (row ∷ rows) h = elim (Bool-cases (p row)) [
    | inl yes_p ↦ simp yes_p (h.0, where-AllAfter t p rows h.1)
    | inr no_p ↦ simp no_p (where-AllAfter t p rows h.1)
  ]

  where-IsIncreasing :
      (p : Row → Bool) (rows : List Row) → IsIncreasing rows → IsIncreasing (where_ p rows)
  unfolding where_
  where-IsIncreasing p [] h = tt
  where-IsIncreasing p (row ∷ rows) h = elim (Bool-cases (p row)) [
    | inl yes_p ↦
        simp yes_p (where-AllAfter (ts.timestamp row) p rows h.0, where-IsIncreasing p rows h.1)
    | inr no_p ↦ simp no_p (where-IsIncreasing p rows h.1)
  ]

  -- The rows later than `t` are those from one microsecond after it.
  later_rows :
      (t : ℤ) (start end : Option ℤ) (rows : List Row)
      → AllAfter t rows
      → Passes (λ row. within start end (ts.timestamp row)) rows
      → Passes (λ row. within (some (t +ℤ pos 1)) end (ts.timestamp row)) rows
  unfolding within
  later_rows t start end [] h k = tt
  later_rows t start end (row ∷ rows) h k =
      let step = +ℤ_parts t (pos 1) in
      let before : is_before end (ts.timestamp row) ≡ true = ground arith in
      (ground arith, later_rows t start end rows h.1 k.1)

  -- A row is not from one microsecond after the last of some rows that are later than it.
  excluded :
      (n : ℕ) (t : ℤ) (end : Option ℤ) (row : Row) (rows : List Row)
      → AllAfter t (row ∷ rows)
      → within (next_us (newest (times (take (suc n) (row ∷ rows))))) end t ≡ false
  unfolding times
  excluded zero t end row rows h =
      let step = +ℤ_parts (ts.timestamp row) (pos 1) in unfold within in ground arith
  excluded (suc n) t end row [] h =
      let step = +ℤ_parts (ts.timestamp row) (pos 1) in unfold within in ground arith
  excluded (suc n) t end row (row' ∷ rows) h = excluded n t end row' rows h.1

  -- On increasing rows of the range, the query from one microsecond after the last of the first `n`
  -- finds what is behind these.
  after_block :
      (n : ℕ) (row : Row) (start end : Option ℤ) (rows : List Row)
      → IsIncreasing (row ∷ rows)
      → Passes (λ r. within start end (ts.timestamp r)) (row ∷ rows)
      → selected (next_us (newest (times (take (suc n) (row ∷ rows))))) end (row ∷ rows)
        ≡ drop (suc n) (row ∷ rows)
  unfolding selected where_ times
  after_block zero row start end rows h k =
      let t = ts.timestamp row in
      let step = +ℤ_parts t (pos 1) in
      let out : within (some (t +ℤ pos 1)) end t ≡ false = unfold within in ground arith in
      let rest =
        where_all (λ r. within (some (t +ℤ pos 1)) end (ts.timestamp r)) rows
          (later_rows t start end rows h.0 k.1) in
      simp (out, rest)
  after_block (suc n) row start end [] h k =
      let t = ts.timestamp row in
      let step = +ℤ_parts t (pos 1) in
      let out : within (some (t +ℤ pos 1)) end t ≡ false = unfold within in ground arith in simp out
  after_block (suc n) row start end (row' ∷ rows) h k =
      let out = excluded n (ts.timestamp row) end row' rows h.0 in
      simp out (after_block n row' start end rows h.1 k.1)

  -- Rows from one microsecond after some rows of the range are in the range.
  later_start :
      (n : ℕ) (start end : Option ℤ) (row : Row) (rows : List Row) (t : ℤ)
      → Passes (λ r. within start end (ts.timestamp r)) (row ∷ rows)
      → within (next_us (newest (times (take (suc n) (row ∷ rows))))) end t ≡ true
      → within start end t ≡ true
  unfolding within times
  later_start zero start end row rows t k h =
      let step = +ℤ_parts (ts.timestamp row) (pos 1) in ground arith
  later_start (suc n) start end row [] t k h =
      let step = +ℤ_parts (ts.timestamp row) (pos 1) in ground arith
  later_start (suc n) start end row (row' ∷ rows) t k h = later_start n start end row' rows t k.1 h

  behind_block :
      (n : ℕ) (start end : Option ℤ) (rows sel : List Row)
      → selected start end rows ≡ sel
      → IsIncreasing rows
      → suc n ≤ length sel
      → selected (next_us (newest (times (take (suc n) sel)))) end rows ≡ drop (suc n) sel
  unfolding selected
  behind_block n start end rows [] e h enough = absurd (omega arith)
  behind_block n start end rows (row ∷ rest) e h enough =
      let p = λ (r : Row). within start end (ts.timestamp r) in
      let u = next_us (newest (times (take (suc n) (row ∷ rest)))) in
      let q = λ (r : Row). within u end (ts.timestamp r) in
      let passing : Passes p (row ∷ rest) = subst (Passes p) e (where-Passes p rows) in
      let increasing : IsIncreasing (row ∷ rest) =
        subst IsIncreasing e (where-IsIncreasing p rows h) in
      let wider =
        where-where p q rows (λ r. later_start n start end row rest (ts.timestamp r) passing) in
      sym wider ∙ ap (where_ q) e ∙ after_block n row start end rest increasing passing

  -- A query that starts right after a block of another with the same end finds what the block left.
  pub selected-drop :
      (n : ℕ) (start end : Option ℤ) (rows : List Row)
      → IsIncreasing rows
      → suc n ≤ length (selected start end rows)
      → selected (next_us (newest (times (take (suc n) (selected start end rows))))) end rows
        ≡ drop (suc n) (selected start end rows)
  selected-drop n start end rows h enough =
      behind_block n start end rows (selected start end rows) refl h enough
