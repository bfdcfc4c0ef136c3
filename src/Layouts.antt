-- ===== src/Layouts.antt =====
-- The layouts of streams, such as float32_8: `DataStream.layout` and `decimated_layout` of
-- src/joule/models/data_stream.py, and their reading by `compute_dtype` and `interval_token` of
-- src/joule/models/pipes/pipe.py. numpy's dtypes are a parameter.
pub mod Accepted
mod Tests
use joule.Base.{
  ℕ, ◌+◌, ◌-◌, ◌*◌, ◌/◌, ◌<◌, ◌≡◌, Bool, true, false, Option, none, some, List, [], ◌∷◌, ◌++◌, drop,
  ◌==◌, ◌&&◌, if◌then◌else◌,
}
use joule.Base.Int.{ℤ, pos, negsuc}
use joule.Base.Text.{Text, codes, split, lower}
use joule.Base.Numeral.{parse_int, decimal}
use joule.PipeConfig.{Datatype, datatype_name}

-- `"%s_%d" % (self.datatype.name.lower(), len(self.elements))`
unfoldable pub layout : Datatype → ℕ → Text
unfolding decimal
layout datatype n_elements = lower (datatype_name datatype) ++ (b'_' ∷ decimal n_elements)

-- A minimum, a maximum and a mean for each element.
unfoldable pub decimated_layout : ℕ → Text
unfolding decimal
decimated_layout n_elements = codes "float32" ++ (b'_' ∷ decimal (n_elements * 3))

-- The types `<i`, `<u` and `<f`
pub data Kind : Type 0 where
  signed_integer unsigned_integer floating : Kind

-- `np.dtype([('timestamp', '<i8'), ('data', kind and size, (count,))])`, a ValueError, or numpy's
-- TypeError for a type that it does not know.
pub data Outcome : Type 0 where
  dtype : Kind → ℤ → ℤ → Outcome
  value_error type_error : Outcome

-- Whether numpy knows a type of so many bytes, and takes so many elements in a row.
pub record Dtypes : Type 0 where
  pub known : Kind → ℤ → Bool
  pub count_fits : ℤ → Bool
  pub knows_integers :
      (known signed_integer (pos 2) ≡ true)
      × (known signed_integer (pos 4) ≡ true)
      × (known signed_integer (pos 8) ≡ true)
  pub knows_floats : (known floating (pos 4) ≡ true) × (known floating (pos 8) ≡ true)
  pub small_counts_fit : (n : ℕ) → n < 100000000 → count_fits (pos n) ≡ true

-- `n // 8`
abbrev pub eighth : ℤ → ℤ
eighth (pos n) = pos (n / 8)
eighth (negsuc n) = negsuc (n / 8)

-- `s.startswith(prefix)`
unfoldable pub starts_with : Text → Text → Bool
starts_with [] s = true
starts_with (c ∷ prefix) [] = false
starts_with (c ∷ prefix) (d ∷ s) = d == c && starts_with prefix s

module _ (np : Dtypes) where
  abbrev sized : Kind → Option ℤ → ℤ → Outcome
  sized kind none count = value_error
  sized kind (some bits) count =
      if np.known kind (eighth bits)
      then (if np.count_fits count then dtype kind (eighth bits) count else value_error)
      else type_error

  -- `compute_dtype`, on the parts of the layout
  unfoldable pub typed_parts : Text → Option ℤ → Outcome
  unfolding parse_int starts_with
  typed_parts ltype none = value_error
  typed_parts ltype (some count) =
      if starts_with (codes "int") ltype
      then sized signed_integer (parse_int (drop 3 ltype)) count
      else if starts_with (codes "uint") ltype
      then sized unsigned_integer (parse_int (drop 4 ltype)) count
      else if starts_with (codes "float") ltype
      then sized floating (parse_int (drop 5 ltype)) count
      else value_error

  abbrev pub at_parts : List Text → Outcome
  at_parts (ltype ∷ lcount ∷ rest) = typed_parts ltype (parse_int lcount)
  at_parts parts = value_error

  unfoldable pub compute_dtype : Text → Outcome
  unfolding typed_parts split
  compute_dtype text = at_parts (split b'_' text)

-- `nelem` of `interval_token`: `none` is an exception.
abbrev pub second_number : List Text → Option ℤ
second_number (first ∷ second ∷ rest) = parse_int second
second_number parts = none

unfoldable pub token_width : Text → Option ℤ
unfolding split parse_int
token_width text = second_number (split b'_' text)
