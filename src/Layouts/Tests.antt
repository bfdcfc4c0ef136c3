-- ===== src/Layouts/Tests.antt =====
-- A numpy that knows the types of up to eight bytes.
use joule.Base.{ℕ, ◌*◌, ◌<◌, ◌≡◌, refl, Bool, true, false, ◌||◌, some, ltb, ◌==◌, arith}
use joule.Base.Int.{ℤ, pos, negsuc}
use joule.Base.Text.{codes}
use joule.PipeConfig.{float64, int16}
use joule.Layouts.{
  layout, decimated_layout, Kind, floating, unsigned_integer, dtype, value_error, type_error,
  Dtypes, compute_dtype, token_width,
}
use joule.Layouts.Accepted.{kind_of, size_of, compute_dtype-layout}

abbrev usual_size : Kind → ℤ → Bool
usual_size kind (negsuc n) = false
usual_size floating (pos n) = n == 2 || n == 4 || n == 8
usual_size kind (pos n) = n == 1 || n == 2 || n == 4 || n == 8

abbrev count_below : ℤ → Bool
count_below (negsuc n) = false
count_below (pos n) = ltb n 100000000

count_below-small : (n : ℕ) → n < 100000000 → count_below (pos n) ≡ true
count_below-small n h = ground arith

abbrev usual : Dtypes
usual = record {
  known = usual_size;
  count_fits = count_below;
  knows_integers = (refl, refl, refl);
  knows_floats = (refl, refl);
  small_counts_fit = count_below-small;
}

compute_dtype-layout_example :
    (compute_dtype usual (layout int16 12) ≡ dtype (kind_of int16) (pos (size_of int16)) (pos 12))
    × (token_width (layout int16 12) ≡ some (pos 12))
    × (compute_dtype usual (decimated_layout 12) ≡ dtype floating (pos 4) (pos (12 * 3)))
    × (token_width (decimated_layout 12) ≡ some (pos (12 * 3)))
compute_dtype-layout_example = compute_dtype-layout usual int16 12 (omega arith)

written : layout float64 103 ≡ codes "float64_103"
unfolding layout
written = refl

unsigned : compute_dtype usual (codes "uint8_2") ≡ dtype unsigned_integer (pos 1) (pos 2)
unfolding compute_dtype
unsigned = refl

no_count : compute_dtype usual (codes "float32") ≡ value_error
unfolding compute_dtype
no_count = refl

-- numpy's exception is not caught.
unknown_size : compute_dtype usual (codes "int24_1") ≡ type_error
unfolding compute_dtype
unknown_size = refl
