-- ===== src/Decimator/Chunks.antt =====
-- Decimation of rows that arrive in blocks.
use joule.Base.{
  ℕ, zero, suc, ◌+◌, ◌*◌, ◌/◌, ◌≤◌, ◌<◌, ◌≡◌, refl, ap, sym, subst, List, [], ◌∷◌, ◌++◌, map,
  length, take, drop, arith, length-append, length-drop, append_assoc, Bool-cases, inl, inr, ◌==◌,
  ◌≢◌,
}
use native.Mathlib.Nat.{mul-add-div_right, div-mul-le_self, zero-div, add-mul}
use mathlib.Core.List.{map-append}
use joule.Decimator.{Samples, Decimator, groups, decimate_group, process_rows, width}

module _ {ℓ} {A : Type ℓ} where
  take_append_of_le : (n : ℕ) (xs ys : List A) → n ≤ length xs → take n (xs ++ ys) ≡ take n xs
  take_append_of_le zero xs ys h = refl
  take_append_of_le (suc n) [] ys h = absurd (omega arith)
  take_append_of_le (suc n) (x ∷ xs) ys h =
      ap (λ t. x ∷ t) (take_append_of_le n xs ys (omega arith))

  drop_append_of_le : (n : ℕ) (xs ys : List A) → n ≤ length xs → drop n (xs ++ ys) ≡ drop n xs ++ ys
  drop_append_of_le zero xs ys h = refl
  drop_append_of_le (suc n) [] ys h = absurd (omega arith)
  drop_append_of_le (suc n) (x ∷ xs) ys h = drop_append_of_le n xs ys (omega arith)

  drop-drop : (m n : ℕ) (xs : List A) → drop n (drop m xs) ≡ drop (m + n) xs
  drop-drop zero n xs = let e : zero + n ≡ n = omega arith in rw e
  drop-drop (suc m) zero [] = let e : suc m + 0 ≡ suc m = omega arith in rw e
  drop-drop (suc m) (suc n) [] = let e : suc m + suc n ≡ suc (m + suc n) = omega arith in rw e
  drop-drop (suc m) n (x ∷ xs) =
      let e : suc m + n ≡ suc (m + n) = omega arith in rw e (drop-drop m n xs)

module _ {V : Type 0} where
  groups-append :
      (n k : ℕ) (xs ys : List (List V)) → n * k ≤ length xs → groups n k (xs ++ ys) ≡ groups n k xs
  unfolding groups
  groups-append zero k xs ys h = refl
  groups-append (suc n) k xs ys h =
      let first : k ≤ length xs = omega (arith, add-mul n 1 k) in
      let rest : n * k ≤ length (drop k xs) = omega (arith, length-drop k xs) in
      rw (
        take_append_of_le k xs ys first,
        drop_append_of_le k xs ys first,
        groups-append n k (drop k xs) ys rest,
      )

  groups-add :
      (n m k : ℕ) (xs : List (List V))
      → groups (n + m) k xs ≡ groups n k xs ++ groups m k (drop (n * k) xs)
  unfolding groups
  groups-add zero m k xs =
      let e : zero + m ≡ m = omega arith in let z : zero * k ≡ zero = omega arith in rw (e, z)
  groups-add (suc n) m k xs =
      let e : suc n + m ≡ suc (n + m) = omega arith in
      let z : suc n * k ≡ k + n * k = omega arith in
      rw (e, z, ← drop-drop k (n * k) xs, ← groups-add n m k (drop k xs))

  -- Every row has `m` columns.
  abbrev pub HasWidth : ℕ → List (List V) → Type 0
  HasWidth m [] = Unit
  HasWidth m (row ∷ rows) = (length row ≡ m) × HasWidth m rows

  HasWidth-append :
      (m : ℕ) (xs ys : List (List V)) → HasWidth m xs → HasWidth m ys → HasWidth m (xs ++ ys)
  HasWidth-append m [] ys hx hy = hy
  HasWidth-append m (x ∷ xs) ys hx hy = (hx.0, HasWidth-append m xs ys hx.1 hy)

  HasWidth-prefix : (m : ℕ) (xs ys : List (List V)) → HasWidth m (xs ++ ys) → HasWidth m xs
  HasWidth-prefix m [] ys h = tt
  HasWidth-prefix m (x ∷ xs) ys h = (h.0, HasWidth-prefix m xs ys h.1)

  HasWidth-suffix : (m : ℕ) (xs ys : List (List V)) → HasWidth m (xs ++ ys) → HasWidth m ys
  HasWidth-suffix m [] ys h = h
  HasWidth-suffix m (x ∷ xs) ys h = HasWidth-suffix m xs ys h.1

  HasWidth-drop : (m n : ℕ) (xs : List (List V)) → HasWidth m xs → HasWidth m (drop n xs)
  HasWidth-drop m zero xs h = h
  HasWidth-drop m (suc n) [] h = h
  HasWidth-drop m (suc n) (x ∷ xs) h = HasWidth-drop m n xs h.1

  -- A group is made only of rows that are there, so the first row gives the width.
  width_of :
      (m : ℕ) (rows : List (List V)) (k : ℕ)
      → HasWidth m rows
      → length rows / k * k ≢ 0
      → width rows ≡ m
  width_of m [] k h some_whole = absurd (some_whole (rw (zero-div k) (omega arith)))
  width_of m (row ∷ rows) k h some_whole = h.0

  -- The whole groups of some rows, and what is left over.
  abbrev whole : ℕ → List (List V) → List (List (List V))
  whole k rows = groups (length rows / k) k rows

  abbrev left_over : ℕ → List (List V) → List (List V)
  left_over k rows = drop (length rows / k * k) rows

  module _ (k : ℕ) (xs ys : List (List V)) (positive : 0 < k) where
    count_append : length (xs ++ ys) / k ≡ length xs / k + length (left_over k xs ++ ys) / k
    count_append =
        let n = length xs / k in
        let total : length (xs ++ ys) ≡ n * k + length (left_over k xs ++ ys) = omega (
          arith,
          length-append xs ys,
          length-append (left_over k xs) ys,
          length-drop (n * k) xs,
          div-mul-le_self (length xs) k,
        ) in
        rw total (mul-add-div_right positive n (length (left_over k xs ++ ys)))

    whole-append : whole k (xs ++ ys) ≡ whole k xs ++ whole k (left_over k xs ++ ys)
    whole-append =
        let n = length xs / k in
        let fits = div-mul-le_self (length xs) k in
        rw (
          count_append,
          groups-add n (length (left_over k xs ++ ys) / k) k (xs ++ ys),
          groups-append n k xs ys fits,
          drop_append_of_le (n * k) xs ys fits,
        )

    left_over-append : left_over k (xs ++ ys) ≡ left_over k (left_over k xs ++ ys)
    left_over-append =
        let n = length xs / k in
        let m = length (left_over k xs ++ ys) / k in
        let fits = div-mul-le_self (length xs) k in
        rw (
          count_append,
          add-mul n m k,
          ← drop-drop (n * k) (m * k) (xs ++ ys),
          drop_append_of_le (n * k) xs ys fits,
        )

module _ {V : Type 0} ⦃samples : Samples V⦄ where
  -- With a positive factor the two branches of `_process` are one: whole groups are decimated, what is
  -- left over is kept.
  process_rows-whole :
      (d : Decimator V) (m : ℕ) (rows : List (List V))
      → 0 < d.factor
      → HasWidth m (d.buffer ++ rows)
      → process_rows d rows ≡ (
        map (decimate_group d.again m) (whole d.factor (d.buffer ++ rows)),
        record d { buffer = left_over d.factor (d.buffer ++ rows) },
      )
  unfolding process_rows groups
  process_rows-whole d m rows positive h =
      let joined = d.buffer ++ rows in
      let n = length joined / d.factor in
      elim (Bool-cases (n * d.factor == 0)) [
        | inl few ↦
            let none_whole : n ≡ 0 = grind arith in
            let no_rows : 0 * d.factor ≡ 0 = omega arith in simp (none_whole, no_rows)
        | inr some_whole ↦
            let w : width joined ≡ m = width_of m joined d.factor h (ground arith) in
            simp (some_whole, w)
      ]

  -- Rows that arrive in two blocks are decimated to the same rows as when they arrive in one, and the
  -- same rows stay in the buffer, for a positive factor and rows of one width.
  pub process_rows-append :
      (d : Decimator V) (m : ℕ) (xs ys : List (List V))
      → 0 < d.factor
      → HasWidth m (d.buffer ++ (xs ++ ys))
      → let (first, after_first) = process_rows d xs in
        let (second, after_second) = process_rows after_first ys in
        process_rows d (xs ++ ys) ≡ (first ++ second, after_second)
  process_rows-append d m xs ys positive h =
      let k = d.factor in
      let joined = d.buffer ++ xs in
      let split = sym (append_assoc d.buffer xs ys) in
      let wide : HasWidth m (joined ++ ys) = subst (HasWidth m) split h in
      let first = process_rows-whole d m xs positive (HasWidth-prefix m joined ys wide) in
      let rest = record d { buffer = left_over k joined } in
      let second = process_rows-whole rest m ys positive (
        HasWidth-append m (left_over k joined) ys
          (HasWidth-drop m (length joined / k * k) joined (HasWidth-prefix m joined ys wide))
          (HasWidth-suffix m joined ys wide)) in
      rw (
        process_rows-whole d m (xs ++ ys) positive h,
        first,
        second,
        split,
        whole-append k joined ys positive,
        left_over-append k joined ys positive,
        map-append,
      )
