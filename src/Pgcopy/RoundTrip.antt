-- ===== src/Pgcopy/RoundTrip.antt =====
-- The bytes that are copied to PostgreSQL, read back.
use native.Mathlib.Nat.{mul-mod_left, mul-div_cancel}
use joule.Base.{
  ℕ, zero, suc, ◌+◌, ◌-◌, ◌*◌, ◌/◌, ◌%◌, ◌^◌, ◌<◌, ◌≡◌, refl, sym, ap, ◌∙◌, List, [], ◌∷◌, ◌++◌,
  length, take, drop, arith, length-append, append_assoc,
}
use joule.Pgcopy.{
  Layout, StreamRow, rows_read, big_endian, read_big_endian, header, footer, element_bytes,
  to_postgres, from_postgres, row_bytes, all_row_bytes, data_to_bytes, row_size, read_elements,
  read_row, read_rows, parts_to_data, bytes_to_data,
}

-- `v` is below 256 to the power of `size`: it fits in so many bytes.
abbrev pub Fits : ℕ → ℕ → Type 0
Fits zero v = v ≡ 0
Fits (suc size) v = Fits size (v / 256)

abbrev pub AllFit : ℕ → List ℕ → Type 0
AllFit size [] = Unit
AllFit size (e ∷ es) = Fits size e × AllFit size es

-- A row of the layout, whose numbers fit in their types.
pub record HasLayout (layout : Layout) (row : StreamRow) : Type 0 where
  pub full : length row.elements ≡ layout.n_elem
  pub int64 : row.timestamp < 2 ^ 64
  pub elements_fit : AllFit layout.elem_length row.elements

abbrev pub AllHaveLayout : Layout → List StreamRow → Type 0
AllHaveLayout layout [] = Unit
AllHaveLayout layout (row ∷ rows) = HasLayout layout row × AllHaveLayout layout rows

module _ {A : Type 0} where
  take-append_first : (n : ℕ) (xs ys : List A) → length xs ≡ n → take n (xs ++ ys) ≡ xs
  take-append_first zero [] ys e = refl
  take-append_first zero (x ∷ xs) ys e = absurd (omega arith)
  take-append_first (suc n) [] ys e = absurd (omega arith)
  take-append_first (suc n) (x ∷ xs) ys e =
      ap (λ t. x ∷ t) (take-append_first n xs ys (omega arith))

  drop-append_first : (n : ℕ) (xs ys : List A) → length xs ≡ n → drop n (xs ++ ys) ≡ ys
  drop-append_first zero [] ys e = refl
  drop-append_first zero (x ∷ xs) ys e = absurd (omega arith)
  drop-append_first (suc n) [] ys e = absurd (omega arith)
  drop-append_first (suc n) (x ∷ xs) ys e = drop-append_first n xs ys (omega arith)

length-big_endian : (size v : ℕ) → length (big_endian size v) ≡ size
unfolding big_endian
length-big_endian zero v = refl
length-big_endian (suc size) v = omega (
  arith,
  length-append (big_endian size (v / 256)) (v % 256 ∷ []),
  length-big_endian size (v / 256),
)

read_big_endian-append :
    (v : ℕ) (bytes more : List ℕ)
    → read_big_endian v (bytes ++ more) ≡ read_big_endian (read_big_endian v bytes) more
unfolding read_big_endian
read_big_endian-append v [] more = refl
read_big_endian-append v (b ∷ bytes) more = read_big_endian-append (v * 256 + b) bytes more

-- A number that fits is read back from its bytes.
read_big_endian-big_endian : (size v : ℕ) → Fits size v → read_big_endian 0 (big_endian size v) ≡ v
unfolding big_endian read_big_endian
read_big_endian-big_endian zero v fits = sym fits
read_big_endian-big_endian (suc size) v fits =
    read_big_endian-append 0 (big_endian size (v / 256)) (v % 256 ∷ [])
    ∙ omega (arith, read_big_endian-big_endian size (v / 256) fits)

length-element_bytes :
    (size : ℕ) (es : List ℕ) → length (element_bytes size es) ≡ length es * (4 + size)
unfolding element_bytes
length-element_bytes size [] = omega arith
length-element_bytes size (e ∷ es) = grind (
  arith,
  length-append (big_endian 4 size) (big_endian size e ++ element_bytes size es),
  length-append (big_endian size e) (element_bytes size es),
  length-big_endian 4 size,
  length-big_endian size e,
  length-element_bytes size es,
)

-- The elements are read back, whatever follows them.
read_elements-element_bytes :
    (size : ℕ) (es more : List ℕ)
    → AllFit size es
    → read_elements size (length es) (element_bytes size es ++ more) ≡ es
unfolding element_bytes read_elements
read_elements-element_bytes size [] more fits = refl
read_elements-element_bytes size (e ∷ es) more fits =
    let first = big_endian size e in
    let rest = element_bytes size es ++ more in
    rw
      (
        append_assoc first (element_bytes size es) more,
        take-append_first size first rest (length-big_endian size e),
        drop-append_first size first rest (length-big_endian size e),
        read_big_endian-big_endian size e fits.0,
        read_elements-element_bytes size es more fits.1,
      )
      refl

postgres_time : (ts : ℕ) → ts < 2 ^ 64 → from_postgres (to_postgres ts) ≡ ts
postgres_time ts h = omega arith

time-Fits : (ts : ℕ) → Fits 8 (to_postgres ts)
time-Fits ts = omega arith

time_back :
    (ts : ℕ) → ts < 2 ^ 64 → from_postgres (read_big_endian 0 (big_endian 8 (to_postgres ts))) ≡ ts
time_back ts h =
    ap from_postgres (read_big_endian-big_endian 8 (to_postgres ts) (time-Fits ts))
    ∙ postgres_time ts h

one_more : (n size nbytes : ℕ) → nbytes ≡ n * size + 21 → nbytes + size - 21 ≡ (n + 1) * size
one_more n size nbytes e = grind arith

module _ (layout : Layout) where
  length-row_bytes :
      (row : StreamRow) → HasLayout layout row → length (row_bytes layout row) ≡ row_size layout
  unfolding row_bytes
  length-row_bytes row h = grind (
    arith,
    length-append (big_endian 8 (to_postgres row.timestamp))
        (element_bytes layout.elem_length row.elements),
    length-big_endian 8 (to_postgres row.timestamp),
    length-element_bytes layout.elem_length row.elements,
  )

  read_row-row_bytes :
      (row : StreamRow) (more : List ℕ)
      → HasLayout layout row
      → read_row layout (row_bytes layout row ++ more) ≡ row
  unfolding row_bytes read_row
  read_row-row_bytes row more h =
      let time = time_back row.timestamp h.int64 in
      let elements : read_elements layout.elem_length layout.n_elem
            (element_bytes layout.elem_length row.elements ++ more)
          ≡ row.elements =
        rw (← h.full)
          (read_elements-element_bytes layout.elem_length row.elements more h.elements_fit) in
      ap
        (λ t.
          let r : StreamRow = record {
            timestamp = t;
            elements =
                read_elements layout.elem_length layout.n_elem
                  (element_bytes layout.elem_length row.elements ++ more);
          } in
          r)
        time
      ∙ ap (λ es. let r : StreamRow = record { timestamp = row.timestamp; elements = es } in r)
          elements

  length-all_row_bytes :
      (rows : List StreamRow)
      → AllHaveLayout layout rows
      → length (all_row_bytes layout rows) ≡ length rows * row_size layout
  unfolding all_row_bytes
  length-all_row_bytes [] h = omega arith
  length-all_row_bytes (row ∷ rows) h =
      let size = row_size layout in
      length-append (row_bytes layout row) (all_row_bytes layout rows)
      ∙ grind (arith, length-row_bytes row h.0, length-all_row_bytes rows h.1)

  read_rows-all_row_bytes :
      (rows : List StreamRow)
      → AllHaveLayout layout rows
      → read_rows layout (length rows) (all_row_bytes layout rows) ≡ rows
  unfolding all_row_bytes read_rows
  read_rows-all_row_bytes [] h = refl
  read_rows-all_row_bytes (row ∷ rows) h =
      rw
        (
          read_row-row_bytes row (all_row_bytes layout rows) h.0,
          drop-append_first (row_size layout) (row_bytes layout row) (all_row_bytes layout rows)
              (length-row_bytes row h.0),
          read_rows-all_row_bytes rows h.1,
        )
        refl

  -- A buffer with whole rows between the header and the footer.
  parts_to_data-rows :
      (nbytes n : ℕ) (body : List ℕ)
      → nbytes ≡ length body + 21
      → length body ≡ n * row_size layout
      → parts_to_data layout nbytes header (body ++ footer) ≡ rows_read (read_rows layout n body)
  unfolding parts_to_data
  parts_to_data-rows nbytes n body e m =
      let size = row_size layout in
      let inside : nbytes - 21 ≡ length body = omega arith in
      let count : length body / size ≡ n = rw m (mul-div_cancel n (omega arith)) in
      let whole : (nbytes + size - 21) % size ≡ 0 =
        ap (λ t. t % size) (one_more n size nbytes (omega arith)) ∙ mul-mod_left (n + 1) size in
      rw
        (
          inside,
          whole,
          take-append_first (length body) body footer refl,
          drop-append_first (length body) body footer refl,
          count,
        )
        refl

  -- Rows of a layout whose numbers fit in their types are read back as they are from the bytes that
  -- are copied to PostgreSQL for them.
  pub bytes_to_data-data_to_bytes :
      (rows : List StreamRow)
      → AllHaveLayout layout rows
      → bytes_to_data layout (data_to_bytes layout rows) ≡ rows_read rows
  unfolding data_to_bytes bytes_to_data
  bytes_to_data-data_to_bytes rows h =
      let body = all_row_bytes layout rows in
      parts_to_data-rows (length (data_to_bytes layout rows)) (length rows) body
        (omega (arith, length-append body footer)) (length-all_row_bytes rows h)
      ∙ ap rows_read (read_rows-all_row_bytes rows h)
