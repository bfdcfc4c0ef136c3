-- ===== src/Decimator.antt =====
-- The decimator of src/joule/models/data_store/timescale_inserter.py. Samples are an abstract type:
-- numpy's floating-point `mean`, `min` and `max` of a column, and the casts of the result, are
-- parameters. A row is flat, with its timestamp first, as `_process` builds it.
pub mod Chunks
pub mod Levels
mod Tests
use joule.Base.{
  ℕ, zero, suc, ◌+◌, ◌-◌, ◌*◌, ◌/◌, Bool, true, false, Option, none, some, List, [], ◌∷◌, ◌++◌, map,
  length, take, drop, ltb, ◌==◌, if◌then◌else◌, get_elem?, min,
}

-- numpy, on the samples of a column; `structure` makes a row of the result array of a flat row.
pub record Samples (V : Type 0) : Type 0 where
  pub mean : List V → V
  pub minimum : List V → V
  pub maximum : List V → V
  pub structure : List V → List V

module _ {V : Type 0} where
  abbrev pub head_or_nil : List V → List V
  head_or_nil [] = []
  head_or_nil (x ∷ xs) = x ∷ []

  -- Column `i` of a group of rows.
  abbrev pub column : ℕ → List (List V) → List V
  column i [] = []
  column i (row ∷ rows) = head_or_nil (drop i row) ++ column i rows

  -- `f` of each of the columns `start` to `start + n - 1`.
  abbrev pub columns : (List V → V) → ℕ → ℕ → List (List V) → List V
  columns f start zero group = []
  columns f start (suc n) group = f (column start group) ∷ columns f (suc start) n group

  -- `reshape(n // factor, factor, m)`: the rows of each group.
  pub groups : ℕ → ℕ → List (List V) → List (List (List V))
  groups zero factor rows = []
  groups (suc n) factor rows = take factor rows ∷ groups n factor (drop factor rows)

  abbrev pub width : List (List V) → ℕ
  width [] = 0
  width (row ∷ rows) = length row

pub record Decimator (V : Type 0) : Type 0 where
  pub level : ℕ
  pub again : Bool
  pub factor : ℕ
  pub buffer : List (List V)
  pub path_created : Bool
  pub chunk_interval : ℕ

abbrev pub max_chunk_interval : ℕ
max_chunk_interval = 1000 * 1000 * 60 * 60 * 24 * 365

module _ {V : Type 0} where
  -- `Decimator.__init__`
  pub new_decimator : ℕ → ℕ → ℕ → Decimator V
  new_decimator from_level factor chunk_interval = record {
    level = from_level * factor;
    again = ltb 1 from_level;
    factor = factor;
    buffer = [];
    path_created = false;
    chunk_interval = min chunk_interval max_chunk_interval;
  }

-- What is asked of the database, in order.
pub data DbCall (V : Type 0) : Type 0 where
  create_decimation_table : ℕ → DbCall V
  update_chunk_interval : ℕ → ℕ → DbCall V
  copy_to_table : ℕ → List (List V) → DbCall V

module _ {V : Type 0} where
  -- The child that `process` makes.
  abbrev pub child_of : Decimator V → Decimator V
  child_of d = new_decimator d.level d.factor (d.chunk_interval * 4)

  -- The decimator in front of what its child's `process` has done.
  abbrev pub extend :
      Decimator V
      → List (DbCall V)
      → Option (List (Decimator V) × List (DbCall V))
      → Option (List (Decimator V) × List (DbCall V))
  extend d calls none = none
  extend d calls (some (chain, later)) = some (d ∷ chain, calls ++ later)

  -- The end of `process`: it returns if there is no decimated row, and else hands them to the child.
  abbrev pub pass_on :
      List (List V)
      → Decimator V
      → List (Decimator V)
      → List (DbCall V)
      → (List (List V) → Option (List (Decimator V) × List (DbCall V)))
      → Option (List (Decimator V) × List (DbCall V))
  pass_on [] d chain calls child = some (d ∷ chain, calls)
  pass_on (r ∷ rs) d chain calls child = extend d calls (child (r ∷ rs))

module _ {V : Type 0} ⦃samples : Samples V⦄ where
  -- One row of `out`: the means, the minima and the maxima of a group.
  pub decimate_group : Bool → ℕ → List (List V) → List V
  decimate_group true m group =
      let c = (m - 1) / 3 in
      samples.structure (
        columns samples.mean 0 (c + 1) group
        ++ columns samples.minimum (c + 1) c group
        ++ columns samples.maximum (2 * c + 1) c group)
  decimate_group false m group = samples.structure (
      columns samples.mean 0 m group
      ++ columns samples.minimum 1 (m - 1) group
      ++ columns samples.maximum 1 (m - 1) group)

  -- `_process`: the decimated rows; what is left over stays in the buffer.
  pub process_rows : Decimator V → List (List V) → List (List V) × Decimator V
  process_rows d sarray =
      let joined = d.buffer ++ sarray in
      let n = length joined / d.factor in
      if n * d.factor == 0 then ([], record d { buffer = joined }) else (
        map (decimate_group d.again (width joined)) (groups n d.factor joined),
        record d { buffer = drop (n * d.factor) joined },
      )

  -- The calls of `process` that set up the table.
  pub setup_calls : Decimator V → List (DbCall V)
  setup_calls d =
      if d.path_created
      then []
      else create_decimation_table d.level
        ∷ (if d.chunk_interval == 0
            then []
            else update_chunk_interval d.level d.chunk_interval ∷ [])

  -- `process` up to the call of the child: the decimated rows, the decimator and the calls made.
  pub process_level : Decimator V → List (List V) → List (List V) × Decimator V × List (DbCall V)
  process_level d rows =
      let calls = setup_calls d in
      let (out, d') = process_rows (record d { path_created = true }) rows in
      (out, d', calls ++ (elim out [ [] ↦ [] | r ∷ rs ↦ copy_to_table d.level (r ∷ rs) ∷ [] ]))

  -- `process` where there is no child yet: one is made when the first row for it arrives. The fuel
  -- bounds the number of children that are made; `none` means that it ran out.
  pub process_made : ℕ → Decimator V → List (List V) → Option (List (Decimator V) × List (DbCall V))
  process_made zero d rows = none
  process_made (suc fuel) d rows =
      let (out, d', calls) = process_level d rows in
      pass_on out d' [] calls (process_made fuel (child_of d'))

  -- `process` on a decimator and the chain of its children, the nearest first.
  pub process :
      ℕ
      → Decimator V
      → List (Decimator V)
      → List (List V)
      → Option (List (Decimator V) × List (DbCall V))
  process fuel d [] rows = process_made fuel d rows
  process fuel d (child ∷ chain) rows =
      let (out, d', calls) = process_level d rows in
      pass_on out d' (child ∷ chain) calls (process fuel child chain)

-- `Decimator.close_interval`, on a decimator and its children
pub close_interval : {V : Type 0} → List (Decimator V) → List (Decimator V)
close_interval [] = []
close_interval (d ∷ chain) = record d { buffer = [] } ∷ close_interval chain
