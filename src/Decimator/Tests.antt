-- ===== src/Decimator/Tests.antt =====
-- Decimation run on small data: samples are numbers, and a mean is rounded down.
use joule.Base.{
  ℕ, ◌+◌, ◌*◌, ◌/◌, ◌<◌, ◌≡◌, refl, false, none, List, [], ◌∷◌, ◌++◌, length, arith, ltb,
  if◌then◌else◌, min, ◌≢◌,
}
use joule.Decimator.{
  Samples, Decimator, decimate_group, groups, process_rows, process, new_decimator,
}
use joule.Decimator.Chunks.{process_rows-append}
use joule.Decimator.Levels.{process_rows_sizes, process-ne-none}

abbrev total : List ℕ → ℕ
total [] = 0
total (x ∷ xs) = x + total xs

abbrev least : List ℕ → ℕ
least [] = 0
least (x ∷ []) = x
least (x ∷ y ∷ xs) = min x (least (y ∷ xs))

abbrev greatest : List ℕ → ℕ
greatest [] = 0
greatest (x ∷ xs) = let rest = greatest xs in if ltb x rest then rest else x

instance whole_numbers : Samples ℕ
whole_numbers = record {
  mean = λ column. total column / length column;
  minimum = least;
  maximum = greatest;
  structure = λ row. row;
}

-- A timestamp and one element.
abbrev rows : List (List ℕ)
rows = (10 ∷ 1 ∷ []) ∷ (20 ∷ 5 ∷ []) ∷ (30 ∷ 7 ∷ []) ∷ (40 ∷ 9 ∷ []) ∷ (50 ∷ 2 ∷ []) ∷ []

abbrev first_level : Decimator ℕ
first_level = record {
  level = 2;
  again = false;
  factor = 2;
  buffer = [];
  path_created = false;
  chunk_interval = 0;
}

decimated : (process_rows first_level rows).0 ≡ (15 ∷ 3 ∷ 1 ∷ 5 ∷ []) ∷ (35 ∷ 8 ∷ 7 ∷ 9 ∷ []) ∷ []
unfolding process_rows groups decimate_group whole_numbers
decimated = refl

decimated_again :
    (process_rows {V = ℕ}
      (new_decimator 2 2 0)
      ((15 ∷ 3 ∷ 1 ∷ 5 ∷ []) ∷ (35 ∷ 8 ∷ 7 ∷ 9 ∷ []) ∷ [])).0
    ≡ (25 ∷ 5 ∷ 1 ∷ 9 ∷ []) ∷ []
unfolding process_rows groups decimate_group new_decimator whole_numbers
decimated_again = refl

process_rows-append_example :
    let (first, after_first) = process_rows first_level ((10 ∷ 1 ∷ []) ∷ []) in
    let (second, after_second) = process_rows after_first ((20 ∷ 5 ∷ []) ∷ (30 ∷ 7 ∷ []) ∷ []) in
    process_rows first_level ((10 ∷ 1 ∷ []) ∷ (20 ∷ 5 ∷ []) ∷ (30 ∷ 7 ∷ []) ∷ [])
    ≡ (first ++ second, after_second)
process_rows-append_example =
    process_rows-append first_level 2 ((10 ∷ 1 ∷ []) ∷ []) ((20 ∷ 5 ∷ []) ∷ (30 ∷ 7 ∷ []) ∷ [])
      (omega arith) (refl, (refl, (refl, tt)))

process_rows_sizes_example :
    let (out, d) = process_rows first_level rows in
    (length out ≡ (0 + 5) / 2) × (length out * 2 + length d.buffer ≡ 0 + 5) × (length d.buffer < 2)
process_rows_sizes_example = process_rows_sizes first_level rows (omega arith)

process-ne-none_example : process 7 first_level (first_level ∷ []) rows ≢ none
process-ne-none_example =
    process-ne-none 7 first_level (first_level ∷ []) rows
      (omega arith, omega arith, (omega arith, omega arith, tt)) (omega arith)
