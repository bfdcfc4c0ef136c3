-- ===== src/MedianFilter/Windows.antt =====
-- The medians of the windows of rows.
use joule.Base.{
  ℕ, zero, suc, ◌+◌, ◌-◌, ◌*◌, ◌≤◌, ◌<◌, ◌≡◌, refl, sym, ap, ◌∙◌, true, List, [], ◌∷◌, ◌++◌, length,
  take, drop, leb, if◌then◌else◌, arith, length-append, length-map, append_assoc, take-front,
  Bool-cases, inl, inr,
}
use mathlib.Core.List.{map-append}
use joule.MedianFilter.{window_medians, zip_rows, timestamps, values}

module _ {V : Type 0} (median : List V → V) (b n : ℕ) where
  -- The row in front, with another value.
  abbrev pub with_value : V → List (ℕ × V) → List (ℕ × V)
  with_value v [] = []
  with_value v ((t, _) ∷ rows) = (t, v) ∷ []

  -- A row for each `n` rows that stand together: the timestamp of the one at `b`, and the median.
  abbrev pub medians : List (ℕ × V) → List (ℕ × V)
  medians [] = []
  medians (row ∷ rows) =
      if leb n (length (row ∷ rows))
      then with_value (median (take n (values (row ∷ rows)))) (drop b (row ∷ rows)) ++ medians rows
      else []

  medians-short : (rows : List (ℕ × V)) → length rows < n → medians rows ≡ []
  medians-short [] h = refl
  medians-short (row ∷ rows) h = ground arith

  drop-nil : (k : ℕ) → drop {A = ℕ × V} k [] ≡ []
  drop-nil zero = refl
  drop-nil (suc k) = refl

  with_value-append :
      (v : V) (k : ℕ) (rows more : List (ℕ × V))
      → k < length rows
      → with_value v (drop k (rows ++ more)) ≡ with_value v (drop k rows)
  with_value-append v k [] more h = absurd (omega arith)
  with_value-append v zero (row ∷ rows) more h = refl
  with_value-append v (suc k) (row ∷ rows) more h = with_value-append v k rows more (omega arith)

  -- The windows of rows that come in two parts.
  pub medians-append :
      (rows more : List (ℕ × V))
      → b < n
      → medians (rows ++ more) ≡ medians rows ++ medians (drop (length rows + 1 - n) rows ++ more)
  medians-append [] more h =
      ap (λ (rows : List (ℕ × V)). medians (rows ++ more)) (sym (drop-nil (1 - n)))
  medians-append (row ∷ rows) more h = elim (Bool-cases (leb n (suc (length rows)))) [
    | inl e ↦
        let first = row ∷ rows in
        let longer : leb n (suc (length (rows ++ more))) ≡ true =
          ground (arith, length-append rows more) in
        let fits : n ≤ suc (length rows) = ground arith in
        let left : length first + 1 - n ≡ suc (length rows + 1 - n) = omega arith in
        let window : take n (values (first ++ more)) ≡ take n (values first) =
          rw (map-append (λ (r : ℕ × V). r.1) first more) (
            take-front n (values first) (values more)
              (omega (arith, length-map (λ (r : ℕ × V). r.1) rows))) in
        rw (e, longer, left)
          (ap (λ w. with_value (median w) (drop b (first ++ more)) ++ medians (rows ++ more)) window
            ∙ ap (λ rs. rs ++ medians (rows ++ more))
                (with_value-append _ b first more (omega arith))
            ∙ ap (λ rs. with_value (median (take n (values first))) (drop b first) ++ rs)
                (medians-append rows more h)
            ∙ sym (
                append_assoc (with_value (median (take n (values first))) (drop b first))
                  (medians rows) _))
    | inr e ↦
        let none_left : length (row ∷ rows) + 1 - n ≡ 0 = ground arith in rw (e, none_left) refl
  ]

module _ {V : Type 0} (median : List V → V) (b : ℕ) where
  drop-step :
      (k : ℕ) (x : ℕ × V) (xs : List (ℕ × V))
      → k ≤ length xs
      → (y : ℕ × V) × (drop k (x ∷ xs) ≡ y ∷ drop k xs)
  drop-step zero x xs h = (x, refl)
  drop-step (suc k) x [] h = absurd (omega arith)
  drop-step (suc k) x (x' ∷ xs) h = drop-step k x' xs (omega arith)

  zip-nil : (ts : List ℕ) → zip_rows {V = V} ts [] ≡ []
  zip-nil [] = refl
  zip-nil (t ∷ ts) = refl

  -- The timestamps from `b` on, with the medians of the windows.
  pub zip_rows-medians :
      (rows : List (ℕ × V))
      → zip_rows
          (take (length rows - b * 2) (timestamps (drop b rows)))
          (window_medians median (b * 2 + 1) (values rows))
        ≡ medians median b (b * 2 + 1) rows
  zip_rows-medians [] = zip-nil (take (0 - b * 2) (timestamps {V = V} (drop b [])))
  zip_rows-medians (row ∷ rows) =
      let same = length-map (λ (r : ℕ × V). r.1) rows in
      elim (Bool-cases (leb (b * 2 + 1) (suc (length rows)))) [
        | inl e ↦
            let (y, front) = drop-step b row rows (ground arith) in
            let one_more : suc (length rows) - b * 2 ≡ suc (length rows - b * 2) = ground arith in
            rw (same, e, one_more, front) (rw (zip_rows-medians rows) refl)
        | inr e ↦ rw (same, e) (zip-nil _)
      ]

  pub length-medians :
      (rows : List (ℕ × V))
      → length (medians median b (b * 2 + 1) rows) ≡ length rows + 1 - (b * 2 + 1)
  length-medians [] = omega arith
  length-medians (row ∷ rows) = elim (Bool-cases (leb (b * 2 + 1) (suc (length rows)))) [
    | inl e ↦
        let (y, front) = drop-step b row rows (ground arith) in
        let fits : b * 2 + 1 ≤ suc (length rows) = ground arith in
        rw (e, front) (omega (arith, length-medians rows))
    | inr e ↦ rw e (ground arith)
  ]

  pub length-window_medians :
      (n : ℕ) (vs : List V) → 1 ≤ n → length (window_medians median n vs) ≡ length vs + 1 - n
  length-window_medians n [] h = omega arith
  length-window_medians n (v ∷ vs) h = ground (arith, length-window_medians n vs h)
