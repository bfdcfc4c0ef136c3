-- ===== src/Layouts/Accepted.antt =====
-- What `compute_dtype` makes of the layouts of streams.
use joule.Base.{ℕ, ◌*◌, ◌<◌, ◌≡◌, refl, ◌∙◌, ap, true, false, some, [], ◌∷◌, ◌++◌, arith}
use joule.Base.Int.{ℤ, pos}
use joule.Base.Text.{Text, codes, lower, split, has_char, split-append, split_single}
use joule.Base.Numeral.{decimal}
use joule.Base.Decimal.{parse_int-decimal, decimal-no_underscore}
use joule.PipeConfig.{Datatype, float64, float32, int64, int32, int16, datatype_name}
use joule.Layouts.{
  layout, decimated_layout, Kind, signed_integer, floating, dtype, Dtypes, typed_parts,
  compute_dtype, token_width, at_parts, second_number,
}

-- What a data type means, and the bytes that it takes.
abbrev pub kind_of : Datatype → Kind
kind_of float64 = floating
kind_of float32 = floating
kind_of int64 = signed_integer
kind_of int32 = signed_integer
kind_of int16 = signed_integer

abbrev pub size_of : Datatype → ℕ
size_of float64 = 8
size_of float32 = 4
size_of int64 = 8
size_of int32 = 4
size_of int16 = 2

name_no_underscore : (d : Datatype) → has_char b'_' (lower (datatype_name d)) ≡ false
unfolding has_char
name_no_underscore float64 = refl
name_no_underscore float32 = refl
name_no_underscore int64 = refl
name_no_underscore int32 = refl
name_no_underscore int16 = refl

-- The parts of a layout, where the name has no underscore.
split_layout :
    (name : Text) (n : ℕ)
    → has_char b'_' name ≡ false
    → split b'_' (name ++ (b'_' ∷ decimal n)) ≡ name ∷ decimal n ∷ []
split_layout name n h =
    split-append b'_' name (decimal n) h
    ∙ ap (λ parts. name ∷ parts) (split_single b'_' (decimal n) (decimal-no_underscore n))

module _ (np : Dtypes) where
  typed_name :
      (d : Datatype) (count : ℤ)
      → np.count_fits count ≡ true
      → typed_parts np (lower (datatype_name d)) (some count)
        ≡ dtype (kind_of d) (pos (size_of d)) count
  unfolding typed_parts
  typed_name float64 count h = rw (np.knows_floats.1, h) refl
  typed_name float32 count h = rw (np.knows_floats.0, h) refl
  typed_name int64 count h = rw (np.knows_integers.2, h) refl
  typed_name int32 count h = rw (np.knows_integers.1, h) refl
  typed_name int16 count h = rw (np.knows_integers.0, h) refl

  read_layout :
      (name : Text) (n : ℕ)
      → has_char b'_' name ≡ false
      → (compute_dtype np (name ++ (b'_' ∷ decimal n)) ≡ typed_parts np name (some (pos n)))
        × (token_width (name ++ (b'_' ∷ decimal n)) ≡ some (pos n))
  unfolding compute_dtype token_width
  read_layout name n h =
      let parts = split_layout name n h in
      let count = parse_int-decimal n in
      (ap (at_parts np) parts ∙ ap (typed_parts np name) count, ap second_number parts ∙ count)

  -- Where three times the number of elements is below 10^8, a stream's layout is read as the type of
  -- its data type, with the bytes that this takes and a column for each element, and gives the interval
  -- token as many columns; the layout of its decimations is read as floats of four bytes with three
  -- columns for each element, and gives the token as many.
  pub compute_dtype-layout :
      (d : Datatype) (n : ℕ)
      → n * 3 < 100000000
      → (compute_dtype np (layout d n) ≡ dtype (kind_of d) (pos (size_of d)) (pos n))
        × (token_width (layout d n) ≡ some (pos n))
        × (compute_dtype np (decimated_layout n) ≡ dtype floating (pos 4) (pos (n * 3)))
        × (token_width (decimated_layout n) ≡ some (pos (n * 3)))
  unfolding layout decimated_layout
  compute_dtype-layout d n h =
      let (own, width) = read_layout (lower (datatype_name d)) n (name_no_underscore d) in
      let (decimated, decimated_width) =
        read_layout (codes "float32") (n * 3) (name_no_underscore float32) in
      (
        own ∙ typed_name d (pos n) (np.small_counts_fit n (omega arith)),
        width,
        decimated ∙ typed_name float32 (pos (n * 3)) (np.small_counts_fit (n * 3) h),
        decimated_width,
      )
