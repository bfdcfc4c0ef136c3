-- ===== src/FirFilter/Sliding.antt =====
-- The output of a FIR filter for the rows of an interval, in whatever reads they come.
use joule.Base.{
  ℕ, ◌+◌, ◌-◌, ◌*◌, ◌/◌, ◌%◌, ◌≤◌, ◌≡◌, refl, ap, ◌∙◌, true, false, some, List, length, ◌==◌, arith,
  length-map,
}
use joule.MedianFilter.{window_medians, Read, values}
use joule.MedianFilter.Windows.{medians, zip_rows-medians, length-window_medians}
use joule.MedianFilter.Sliding.{GoOn, Slides, inner_times, length-inner_times, run_filter-windows}
use joule.FirFilter.{Convolution, filtered_rows, run_fir}

module _ {T V : Type 0} (cv : Convolution T V) (taps : List T) (b : ℕ) (odd : 1 ≤ b)
    (size : length taps ≡ b * 2 + 1) where
  filtered_rows-windows :
      (rows : List (ℕ × V))
      → (b * 2 + 1) * 2 ≤ length rows
      → filtered_rows cv taps rows ≡ some (medians (cv.weighted taps) b (b * 2 + 1) rows)
  unfolding filtered_rows
  filtered_rows-windows rows long =
      let n = b * 2 + 1 in
      let vs = values rows in
      let n_values = length-map (λ (r : ℕ × V). r.1) rows in
      let half : length taps / 2 ≡ b = omega arith in
      let convolved =
        cv.convolve-windows taps vs (omega arith) (omega (arith, n_values))
        ∙ ap (λ k. window_medians (cv.weighted taps) k vs) size in
      let many =
        length-window_medians (cv.weighted taps) b n vs (omega arith)
        ∙ ap (λ k. k + 1 - n) n_values in
      let same : ((length rows + 1 - n) == (length rows + 1 - n)) ≡ true = ground arith in
      rw
        (
          half,
          convolved,
          inner_times b rows odd,
          size,
          many,
          length-inner_times b rows,
          same,
          zip_rows-medians (cv.weighted taps) b rows,
        )
        refl

  -- However the rows of an open interval are read, a FIR filter with an odd number of taps, three or more,
  -- waits for more rows in the end, and what it has written, followed by the weighted windows of the rows
  -- that it has not consumed, is a row for each window of all rows that have come, with the timestamp of
  -- the row in its middle and its weighted value.
  pub run_fir-Slides :
      (reads : List (Read V)) (buffer : List (ℕ × V))
      → GoOn reads
      → Slides (cv.weighted taps) b reads buffer (run_fir cv taps reads buffer)
  unfolding run_fir
  run_fir-Slides reads buffer h =
      let odd_taps : (length taps % 2 == 0) ≡ false =
        let rest : length taps % 2 ≡ 1 = omega arith in ground arith in
      rw (odd_taps, size)
        (run_filter-windows (cv.weighted taps) b (filtered_rows cv taps) filtered_rows-windows reads
          buffer h)
