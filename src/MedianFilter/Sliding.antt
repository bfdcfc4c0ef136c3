-- ===== src/MedianFilter/Sliding.antt =====
-- The output of the filter for the rows of an interval, in whatever reads they come.
use joule.Base.{
  Option, ℕ, zero, suc, ◌+◌, ◌-◌, ◌*◌, ◌/◌, ◌≤◌, ◌≡◌, refl, sym, ap, ◌∙◌, true, false, some, List,
  [], ◌∷◌, ◌++◌, length, take, drop, ltb, ◌==◌, arith, length-map, length-take, length-drop,
  append_assoc, append-nil, Bool-cases, inl, inr,
}
use joule.MedianFilter.{
  inner, Scipy, Read, Written, rows_written, interval_closed, Outcome, waiting, timestamps, values,
  written_before, output_rows, run_filter, run_median,
}
use joule.MedianFilter.Windows.{
  medians, medians-append, zip_rows-medians, length-window_medians, length-medians,
}

module _ {V : Type 0} where
  -- The rows that are written.
  abbrev pub all_written : List (Written V) → List (ℕ × V)
  all_written [] = []
  all_written (rows_written rows ∷ ws) = rows ++ all_written ws
  all_written (interval_closed ∷ ws) = all_written ws

  -- The rows that come.
  abbrev pub all_new : List (Read V) → List (ℕ × V)
  all_new [] = []
  all_new (read ∷ reads) = read.new_rows ++ all_new reads

  -- The reads are from an open pipe, and no interval ends.
  abbrev pub GoOn : List (Read V) → Type 0
  GoOn [] = Unit
  GoOn (read ∷ reads) = (read.end_of_interval ≡ false) × (read.pipe_closed ≡ false) × GoOn reads

  timestamps-drop :
      (k : ℕ) (rows : List (ℕ × V)) → drop k (timestamps rows) ≡ timestamps (drop k rows)
  timestamps-drop zero rows = refl
  timestamps-drop (suc k) [] = refl
  timestamps-drop (suc k) (row ∷ rows) = timestamps-drop k rows

module _ {V : Type 0} (b : ℕ) where
  pub inner_times :
      (rows : List (ℕ × V))
      → 1 ≤ b
      → inner b (timestamps rows) ≡ take (length rows - b * 2) (timestamps (drop b rows))
  unfolding inner
  inner_times rows odd =
      let nonzero : (b == 0) ≡ false = ground arith in
      rw (nonzero, length-map (λ (r : ℕ × V). r.0) rows, timestamps-drop b rows) refl

  pub length-inner_times :
      (rows : List (ℕ × V))
      → length (take (length rows - b * 2) (timestamps (drop b rows)))
        ≡ length rows + 1 - (b * 2 + 1)
  length-inner_times rows = omega (
    arith,
    length-take (length rows - b * 2) (timestamps (drop b rows)),
    length-map (λ (r : ℕ × V). r.0) (drop b rows),
    length-drop b rows,
  )

module _ {V : Type 0} (sp : Scipy V) (b : ℕ) (odd : 1 ≤ b) where
  abbrev size : ℕ
  size = b * 2 + 1

  abbrev rows_of_medians : List (ℕ × V) → List (ℕ × V)
  rows_of_medians = medians sp.median b size

  -- numpy takes the columns, and they are the medians of the windows.
  output_rows-medians :
      (rows : List (ℕ × V)) → output_rows sp size rows ≡ some (rows_of_medians rows)
  unfolding output_rows
  output_rows-medians rows =
      let half : size / 2 ≡ b = omega arith in
      let filtered = sp.medfilt-inner b (values rows) odd in
      let long =
        length-window_medians sp.median b size (values rows) (omega arith)
        ∙ ap (λ k. k + 1 - size) (length-map (λ (r : ℕ × V). r.1) rows) in
      let same : ((length rows + 1 - size) == (length rows + 1 - size)) ≡ true = ground arith in
      rw
        (
          half,
          filtered,
          inner_times b rows odd,
          long,
          length-inner_times b rows,
          same,
          zip_rows-medians sp.median b rows,
        )
        refl

module _ {V : Type 0} (value : List V → V) (b : ℕ) where
  abbrev window_size : ℕ
  window_size = b * 2 + 1

  -- A row for each window.
  abbrev windows_of : List (ℕ × V) → List (ℕ × V)
  windows_of = medians value b window_size

  -- The rows that are written, and those that the rows that are not consumed would give.
  abbrev pub Slides : List (Read V) → List (ℕ × V) → Outcome V → Type 0
  Slides reads buffer outcome =
      (out : List (Written V)) × (left : List (ℕ × V)) × (outcome ≡ waiting out left)
      × (all_written out ++ windows_of left ≡ windows_of (buffer ++ all_new reads))

  -- Nothing is written for these rows, or their medians are.
  kept-Slides :
      (buffer : List (ℕ × V)) (read : Read V) (reads : List (Read V)) (outcome : Outcome V)
      → Slides reads (buffer ++ read.new_rows) outcome
      → Slides (read ∷ reads) buffer outcome
  kept-Slides buffer read reads outcome (out, left, e, same) =
      (out, left, e, same ∙ ap windows_of (append_assoc buffer read.new_rows (all_new reads)))

  written-Slides :
      (buffer : List (ℕ × V)) (read : Read V) (reads : List (Read V)) (outcome : Outcome V)
      → Slides reads
          (drop (length (windows_of (buffer ++ read.new_rows))) (buffer ++ read.new_rows))
          outcome
      → Slides
          (read ∷ reads)
          buffer
          (written_before (rows_written (windows_of (buffer ++ read.new_rows)) ∷ []) outcome)
  written-Slides buffer read reads outcome (out, left, e, same) =
      let rows = buffer ++ read.new_rows in
      let dropped =
        ap (λ k. windows_of (drop k rows ++ all_new reads)) (length-medians value b rows) in
      (
        rows_written (windows_of rows) ∷ out,
        left,
        ap (written_before (rows_written (windows_of rows) ∷ [])) e,
        append_assoc (windows_of rows) (all_written out) (windows_of left)
            ∙ ap (λ rs. windows_of rows ++ rs) (same ∙ dropped)
            ∙ sym (medians-append value b window_size rows (all_new reads) (omega arith))
            ∙ ap windows_of (append_assoc buffer read.new_rows (all_new reads)),
      )

  module _ (output : List (ℕ × V) → Option (List (ℕ × V)))
      (makes_windows : (rows : List (ℕ × V))
        → window_size * 2 ≤ length rows
        → output rows ≡ some (windows_of rows)) where
    pub run_filter-windows :
        (reads : List (Read V)) (buffer : List (ℕ × V))
        → GoOn reads
        → Slides reads buffer (run_filter window_size output reads buffer)
    unfolding run_filter
    run_filter-windows [] buffer h = ([], buffer, refl, ap windows_of (sym (append-nil buffer)))
    run_filter-windows (read ∷ reads) buffer (inside, open_pipe, h) =
        let rows = buffer ++ read.new_rows in
        elim (Bool-cases (ltb (length rows) (window_size * 2))) [
          | inl few ↦
              rw (few, open_pipe, inside)
                (kept-Slides buffer read reads (run_filter window_size output reads rows)
                  (run_filter-windows reads rows h))
          | inr many ↦
              let left = drop (length (windows_of rows)) rows in
              rw (many, makes_windows rows (ground arith), inside)
                (written-Slides buffer read reads (run_filter window_size output reads left)
                  (run_filter-windows reads left h))
        ]

module _ {V : Type 0} (sp : Scipy V) (b : ℕ) (odd : 1 ≤ b) where
  -- However the rows of an open interval are read, the filter with an odd window of three or more waits
  -- for more rows in the end, and what it has written, followed by the medians of the windows of the rows
  -- that it has not consumed, is a row for each window of all rows that have come, with the timestamp of
  -- the row in its middle and its median.
  pub run_median-Slides :
      (reads : List (Read V)) (buffer : List (ℕ × V))
      → GoOn reads
      → Slides sp.median b reads buffer (run_median sp (b * 2 + 1) reads buffer)
  unfolding run_median
  run_median-Slides =
      run_filter-windows sp.median b (output_rows sp (b * 2 + 1))
        (λ rows _. output_rows-medians sp b odd rows)
