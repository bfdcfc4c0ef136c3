-- ===== src/MedianFilter/Tests.antt =====
-- A median filter on numbers.
use joule.Base.{
  ℕ, zero, suc, ◌+◌, ◌-◌, ◌*◌, ◌/◌, ◌≤◌, ◌≡◌, refl, ◌∙◌, false, List, [], ◌∷◌, ◌++◌, length, take,
  drop, leb, ◌==◌, if◌then◌else◌, arith, length-append, length-take, Bool-cases, if_ind, inl, inr,
  take-front, take-length,
}
use joule.MedianFilter.{
  window_medians, inner, Scipy, Read, rows_written, waiting, output_rows, run_median, value_error,
}
use joule.MedianFilter.Sliding.{Slides, run_median-Slides}

abbrev insert_value : ℕ → List ℕ → List ℕ
insert_value v [] = v ∷ []
insert_value v (w ∷ ws) = if leb v w then v ∷ (w ∷ ws) else w ∷ insert_value v ws

abbrev sorted_values : List ℕ → List ℕ
sorted_values [] = []
sorted_values (v ∷ vs) = insert_value v (sorted_values vs)

abbrev first_or_zero : List ℕ → ℕ
first_or_zero [] = 0
first_or_zero (v ∷ vs) = v

abbrev middle_value : List ℕ → ℕ
middle_value vs = first_or_zero (drop (length vs / 2) (sorted_values vs))

-- The values at the ends are kept as they are.
abbrev keep_ends : ℕ → List ℕ → List ℕ
keep_ends n vs =
    if leb n (length vs)
    then take (n / 2) vs ++ (window_medians middle_value n vs ++ take (n / 2) vs)
    else []

drop-take_append : (b : ℕ) (vs ws : List ℕ) → b ≤ length vs → drop b (take b vs ++ ws) ≡ ws
drop-take_append zero vs ws h = refl
drop-take_append (suc b) [] ws h = absurd (omega arith)
drop-take_append (suc b) (v ∷ vs) ws h = drop-take_append b vs ws (omega arith)

no_window :
    (n : ℕ) (vs : List ℕ) → leb n (length vs) ≡ false → window_medians middle_value n vs ≡ []
no_window n [] h = refl
no_window n (v ∷ vs) h = rw h refl

inner-nil : (b : ℕ) → inner {A = ℕ} b [] ≡ []
unfolding inner
inner-nil zero = refl
inner-nil (suc b) =
    let none_left : 0 - suc b * 2 ≡ 0 = omega arith in
    rw none_left (if_ind (λ (out : List ℕ). out ≡ []) (suc b == 0) (λ _. refl) (λ _. refl))

inner-both_ends :
    (b : ℕ) (vs ws : List ℕ) → 1 ≤ b → b ≤ length vs → inner b (take b vs ++ (ws ++ take b vs)) ≡ ws
unfolding inner
inner-both_ends b vs ws h long =
    let ends = take b vs in
    let nonzero : (b == 0) ≡ false = ground arith in
    let size : length (ends ++ (ws ++ ends)) - b * 2 ≡ length ws =
      omega (arith, length-append ends (ws ++ ends), length-append ws ends, length-take b vs) in
    rw (nonzero, size, drop-take_append b vs (ws ++ ends) long)
      (take-front (length ws) ws ends (omega arith) ∙ take-length ws)

inner-keep_ends :
    (b : ℕ) (vs : List ℕ)
    → 1 ≤ b
    → inner b (keep_ends (b * 2 + 1) vs) ≡ window_medians middle_value (b * 2 + 1) vs
inner-keep_ends b vs h =
    let n = b * 2 + 1 in
    let half : n / 2 ≡ b = omega arith in
    elim (Bool-cases (leb n (length vs))) [
      | inl fits ↦
          rw (fits, half) (inner-both_ends b vs (window_medians middle_value n vs) h (ground arith))
      | inr short ↦ rw (short, no_window n vs short) (inner-nil b)
    ]

abbrev numbers : Scipy ℕ
numbers = record { medfilt = keep_ends; median = middle_value; medfilt-inner = inner-keep_ends }

abbrev read_of : List (ℕ × ℕ) → Read ℕ
read_of rows = record { new_rows = rows; end_of_interval = false; pipe_closed = false }

-- Three reads: the first has too few rows.
abbrev reads : List (Read ℕ)
reads =
    read_of ((1, 5) ∷ (2, 9) ∷ [])
    ∷ read_of ((3, 7) ∷ (4, 1) ∷ (5, 3) ∷ (6, 8) ∷ (7, 8) ∷ [])
    ∷ read_of ((8, 2) ∷ [])
    ∷ []

run_median-Slides_example : Slides middle_value 1 reads [] (run_median numbers 3 reads [])
run_median-Slides_example =
    run_median-Slides numbers 1 (omega arith) reads [] (refl, refl, (refl, refl, (refl, refl, tt)))

run_median-reads :
    run_median numbers 3 reads []
    ≡ waiting
        (rows_written ((2, 7) ∷ (3, 7) ∷ (4, 3) ∷ (5, 3) ∷ (6, 8) ∷ []) ∷ [])
        ((6, 8) ∷ (7, 8) ∷ (8, 2) ∷ [])
unfolding run_median output_rows inner
run_median-reads = refl

-- With a window of one the slice that leaves out no row is empty, and numpy refuses it.
window_of_one : run_median numbers 1 (read_of ((1, 5) ∷ (2, 9) ∷ []) ∷ []) [] ≡ value_error []
unfolding run_median output_rows inner
window_of_one = refl
