-- ===== src/FirFilter.antt =====
-- `FIRFilterModule.run` of src/joule/client/fir_filter_module.py and the moving average of
-- src/joule/client/builtins/mean_filter.py. The loop is that of the median filter, with other rows in the
-- output. `np.convolve` is a parameter.
pub mod Sliding
mod Tests
use joule.Base.{
  ℕ, zero, suc, ◌+◌, ◌-◌, ◌/◌, ◌%◌, ◌≤◌, ◌≡◌, Bool, Option, none, some, List, [], ◌∷◌, length, ◌==◌,
  if◌then◌else◌,
}
use joule.MedianFilter.{
  window_medians, inner, Read, Outcome, assertion_error, zip_rows, timestamps, values, run_filter,
}

-- `np.convolve(values, taps, mode='valid')`: a value for each window of as many values as there are
-- taps, where there are at least as many values.
pub record Convolution (T V : Type 0) : Type 0 where
  pub convolve : List T → List V → List V
  pub weighted : List T → List V → V
  pub convolve-windows :
      (taps : List T) (vs : List V)
      → 1 ≤ length taps
      → length taps ≤ length vs
      → convolve taps vs ≡ window_medians (weighted taps) (length taps) vs

module _ {T V : Type 0} (cv : Convolution T V) (taps : List T) where
  -- The rows of the output, where numpy takes the columns.
  unfoldable pub filtered_rows : List (ℕ × V) → Option (List (ℕ × V))
  filtered_rows sarray_in =
      let times = inner (length taps / 2) (timestamps sarray_in) in
      let data_out = cv.convolve taps (values sarray_in) in
      let output_len = length sarray_in + 1 - length taps in
      if length times == output_len
      then (if length data_out == output_len then some (zip_rows times data_out) else none)
      else none

  unfoldable pub run_fir : List (Read V) → List (ℕ × V) → Outcome V
  run_fir reads buffer =
      if length taps % 2 == 0
      then assertion_error
      else run_filter (length taps) filtered_rows reads buffer

-- `np.ones((n,))`, each times a tap
unfoldable pub equal_taps : {T : Type 0} → T → ℕ → List T
equal_taps tap zero = []
equal_taps tap (suc n) = tap ∷ equal_taps tap n

-- `make_filter` of the moving average: each tap is one divided by the window.
unfoldable pub mean_taps : {T : Type 0} → (ℕ → T) → ℕ → List T
unfolding equal_taps
mean_taps fraction window = equal_taps (fraction window) window
