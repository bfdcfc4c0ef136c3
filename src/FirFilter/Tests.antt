-- ===== src/FirFilter/Tests.antt =====
-- A moving sum of three numbers, and other taps.
use mathlib.Core.List.{reverse}
use joule.Base.{ℕ, ◌+◌, ◌*◌, ◌≡◌, refl, false, true, List, [], ◌∷◌, length, arith}
use joule.MedianFilter.{
  window_medians, inner, Read, rows_written, interval_closed, waiting, assertion_error, run_filter,
}
use joule.MedianFilter.Sliding.{Slides}
use joule.FirFilter.{Convolution, filtered_rows, run_fir, mean_taps}
use joule.FirFilter.Sliding.{run_fir-Slides}

abbrev dot : List ℕ → List ℕ → ℕ
dot [] vs = 0
dot (t ∷ ts) [] = 0
dot (t ∷ ts) (v ∷ vs) = t * v + dot ts vs

-- A convolution reverses the taps.
abbrev weigh : List ℕ → List ℕ → ℕ
weigh taps vs = dot (reverse taps) vs

abbrev numbers : Convolution ℕ ℕ
numbers = record {
  convolve = λ taps vs. window_medians (weigh taps) (length taps) vs;
  weighted = weigh;
  convolve-windows = λ taps vs some_taps long. refl;
}

abbrev read_of : List (ℕ × ℕ) → Read ℕ
read_of rows = record { new_rows = rows; end_of_interval = false; pipe_closed = false }

abbrev taps : List ℕ
taps = 1 ∷ 10 ∷ 100 ∷ []

abbrev reads : List (Read ℕ)
reads =
    read_of ((1, 5) ∷ (2, 9) ∷ [])
    ∷ read_of ((3, 7) ∷ (4, 1) ∷ (5, 3) ∷ (6, 8) ∷ [])
    ∷ read_of ((7, 2) ∷ [])
    ∷ []

run_fir-Slides_example : Slides (weigh taps) 1 reads [] (run_fir numbers taps reads [])
run_fir-Slides_example =
    run_fir-Slides numbers taps 1 (omega arith) refl reads []
      (refl, refl, (refl, refl, (refl, refl, tt)))

run_fir-reads :
    run_fir numbers taps reads []
    ≡ waiting
        (rows_written ((2, 597) ∷ (3, 971) ∷ (4, 713) ∷ (5, 138) ∷ []) ∷ [])
        ((5, 3) ∷ (6, 8) ∷ (7, 2) ∷ [])
unfolding run_fir filtered_rows inner run_filter
run_fir-reads = refl

-- The end of an interval: its rows are not mixed with those that come later.
run_fir-ends :
    run_fir numbers
      (mean_taps (λ n. 1) 3)
      (record {
        new_rows = (1, 1) ∷ (2, 2) ∷ (3, 3) ∷ (4, 4) ∷ (5, 5) ∷ (6, 6) ∷ [];
        end_of_interval = true;
        pipe_closed = false;
      }
        ∷ [])
      []
    ≡ waiting (rows_written ((2, 6) ∷ (3, 9) ∷ (4, 12) ∷ (5, 15) ∷ []) ∷ interval_closed ∷ []) []
unfolding run_fir filtered_rows inner run_filter mean_taps
run_fir-ends = refl

even_taps : run_fir numbers (1 ∷ 1 ∷ []) reads [] ≡ assertion_error
unfolding run_fir
even_taps = refl
