-- ===== src/MedianFilter.antt =====
-- `MedianFilter.run` of src/joule/client/builtins/median_filter.py, on the reads of its input. A read
-- returns the rows that were not consumed and new ones. scipy is a parameter.
pub mod Windows
pub mod Sliding
mod Tests
use joule.Base.{
  ℕ, zero, suc, ◌+◌, ◌-◌, ◌*◌, ◌/◌, ◌≤◌, ◌≡◌, Bool, true, false, Option, none, some, List, [], ◌∷◌,
  ◌++◌, map, length, take, drop, leb, ltb, ◌==◌, if◌then◌else◌,
}

-- The median of each `n` values that stand together.
abbrev pub window_medians : {V : Type 0} → (List V → V) → ℕ → List V → List V
window_medians median n [] = []
window_medians median n (v ∷ vs) =
    if leb n (length (v ∷ vs)) then median (take n (v ∷ vs)) ∷ window_medians median n vs else []

-- `xs[b:-b]`, which is empty for 0
unfoldable pub inner : {A : Type 0} → ℕ → List A → List A
inner b xs = if b == 0 then [] else take (length xs - b * 2) (drop b xs)

-- `medfilt(values, [n, 1])`, which pads the values with zeros at both ends. Away from these it is the
-- median of each window, for an odd size.
pub record Scipy (V : Type 0) : Type 0 where
  pub medfilt : ℕ → List V → List V
  pub median : List V → V
  pub medfilt-inner :
      (b : ℕ) (vs : List V)
      → 1 ≤ b
      → inner b (medfilt (b * 2 + 1) vs) ≡ window_medians median (b * 2 + 1) vs

-- A read: the new rows, the flag of the end of an interval after it, and whether the pipe is closed. A
-- row is a timestamp and the values of its columns.
pub record Read (V : Type 0) : Type 0 where
  pub new_rows : List (ℕ × V)
  pub end_of_interval : Bool
  pub pipe_closed : Bool

-- What is written to the output.
pub data Written (V : Type 0) : Type 0 where
  rows_written : List (ℕ × V) → Written V
  interval_closed : Written V

pub data Outcome (V : Type 0) : Type 0 where
  waiting : List (Written V) → List (ℕ × V) → Outcome V
  returned : List (Written V) → Outcome V
  value_error : List (Written V) → Outcome V
  assertion_error : Outcome V

-- The two columns of the output, which have to be as long as its array.
abbrev pub zip_rows : {V : Type 0} → List ℕ → List V → List (ℕ × V)
zip_rows [] vs = []
zip_rows (t ∷ ts) [] = []
zip_rows (t ∷ ts) (v ∷ vs) = (t, v) ∷ zip_rows ts vs

module _ {V : Type 0} where
  abbrev pub timestamps : List (ℕ × V) → List ℕ
  timestamps = map (λ row. row.0)

  abbrev pub values : List (ℕ × V) → List V
  values = map (λ row. row.1)

  abbrev pub written_before : List (Written V) → Outcome V → Outcome V
  written_before ws (waiting out buffer) = waiting (ws ++ out) buffer
  written_before ws (returned out) = returned (ws ++ out)
  written_before ws (value_error out) = value_error (ws ++ out)
  written_before ws assertion_error = assertion_error

module _ {V : Type 0} (sp : Scipy V) (n : ℕ) where
  -- The rows of the output, where numpy takes the columns.
  unfoldable pub output_rows : List (ℕ × V) → Option (List (ℕ × V))
  output_rows sarray_in =
      let bound = n / 2 in
      let filtered = inner bound (sp.medfilt n (values sarray_in)) in
      let times = inner bound (timestamps sarray_in) in
      let output_len = length sarray_in + 1 - n in
      if length filtered == output_len
      then (if length times == output_len then some (zip_rows times filtered) else none)
      else none

module _ {V : Type 0} where
  -- What is written for the rows of a read, and what is not consumed of them; `go_on` is the rest of
  -- the loop.
  abbrev pub write_output :
      List (ℕ × V) → Bool → Option (List (ℕ × V)) → (List (ℕ × V) → Outcome V) → Outcome V
  write_output rows at_end none go_on = value_error []
  write_output rows at_end (some out) go_on =
      let rest = go_on (drop (length out) rows) in
      let next = go_on [] in
      if at_end
      then written_before (rows_written out ∷ interval_closed ∷ []) next
      else written_before (rows_written out ∷ []) rest

  -- The loop for windows of `n` rows, on the reads that come and the rows that are not consumed; `output`
  -- makes the rows of the output.
  unfoldable pub run_filter :
      ℕ → (List (ℕ × V) → Option (List (ℕ × V))) → List (Read V) → List (ℕ × V) → Outcome V
  run_filter n output [] buffer = waiting [] buffer
  run_filter n output (read ∷ reads) buffer =
      let rows = buffer ++ read.new_rows in
      let go_on = λ (left : List (ℕ × V)). run_filter n output reads left in
      let dropped = written_before (interval_closed ∷ []) (go_on []) in
      let kept = go_on rows in
      let written = write_output rows read.end_of_interval (output rows) go_on in
      if ltb (length rows) (n * 2)
      then (if read.pipe_closed
          then returned []
          else if read.end_of_interval
          then dropped
          else kept)
      else written

-- `MedianFilter.run`
unfoldable pub run_median : {V : Type 0} → Scipy V → ℕ → List (Read V) → List (ℕ × V) → Outcome V
unfolding run_filter
run_median sp n reads buffer = run_filter n (output_rows sp n) reads buffer
