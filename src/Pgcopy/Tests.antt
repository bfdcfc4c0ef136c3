-- ===== src/Pgcopy/Tests.antt =====
-- Two rows of two elements of two bytes each.
use joule.Base.{ℕ, ◌≡◌, refl, List, [], ◌∷◌, ◌++◌, take, arith}
use joule.Pgcopy.{
  Layout, StreamRow, rows_read, bad_header, invalid_size, invalid_footer, header, data_to_bytes,
  bytes_to_data,
}
use joule.Pgcopy.RoundTrip.{AllHaveLayout, bytes_to_data-data_to_bytes}

abbrev int16_2 : Layout
int16_2 = record { n_elem = 2; elem_length = 2 }

-- The first time is before the year 2000.
abbrev rows : List StreamRow
rows =
    record { timestamp = 1000; elements = 1 ∷ 65535 ∷ [] }
    ∷ record { timestamp = 946684800000258; elements = 258 ∷ 0 ∷ [] }
    ∷ []

abbrev second_bytes : List ℕ
second_bytes =
    0 ∷ 3 ∷ 0 ∷ 0 ∷ 0 ∷ 8 ∷ 0 ∷ 0 ∷ 0 ∷ 0 ∷ 0 ∷ 0 ∷ 1 ∷ 2 ∷ 0 ∷ 0 ∷ 0 ∷ 2 ∷ 1 ∷ 2 ∷ 0 ∷ 0 ∷ 0 ∷ 2
    ∷ 0 ∷ 0 ∷ []

second_row_bytes :
    data_to_bytes int16_2 (record { timestamp = 946684800000258; elements = 258 ∷ 0 ∷ [] } ∷ [])
    ≡ header ++ (second_bytes ++ 255 ∷ 255 ∷ [])
unfolding data_to_bytes
second_row_bytes = refl

rows-have_layout : AllHaveLayout int16_2 rows
rows-have_layout = (
  record { full = refl; int64 = omega arith; elements_fit = (refl, (refl, tt)) },
  (record { full = refl; int64 = omega arith; elements_fit = (refl, (refl, tt)) }, tt),
)

bytes_to_data-data_to_bytes_example :
    bytes_to_data int16_2 (data_to_bytes int16_2 rows) ≡ rows_read rows
bytes_to_data-data_to_bytes_example = bytes_to_data-data_to_bytes int16_2 rows rows-have_layout

-- A buffer that is cut off.
cut_footer : bytes_to_data int16_2 (header ++ second_bytes) ≡ invalid_size
unfolding bytes_to_data
cut_footer = refl

cut_header : bytes_to_data int16_2 (take 12 header) ≡ bad_header
unfolding bytes_to_data
cut_header = refl

other_footer : bytes_to_data int16_2 (header ++ (second_bytes ++ 0 ∷ 0 ∷ [])) ≡ invalid_footer
unfolding bytes_to_data
other_footer = refl
