-- ===== src/Pgcopy.antt =====
-- The binary form in which rows are copied to and from PostgreSQL: `data_to_bytes` and
-- `bytes_to_data` of src/joule/models/data_store/psql_helpers.py. An element is the bit pattern of its
-- type, a number of `elem_length` bytes, and a timestamp that of an int64.
pub mod RoundTrip
mod Tests
use joule.Base.{
  ℕ, zero, suc, ◌+◌, ◌-◌, ◌*◌, ◌/◌, ◌%◌, ◌^◌, not, List, [], ◌∷◌, ◌++◌, length, take, drop, ◌==◌,
  if◌then◌else◌,
}
use joule.Base.Text.{Text, codes, text_eq}

-- What is read of numpy's dtype: the number of elements of a row, and the size of one.
pub record Layout : Type 0 where
  pub n_elem : ℕ
  pub elem_length : ℕ

pub record StreamRow : Type 0 where
  pub timestamp : ℕ
  pub elements : List ℕ

-- The DataErrors.
pub data Outcome : Type 0 where
  rows_read : List StreamRow → Outcome
  bad_header invalid_size invalid_footer : Outcome

-- `postgres_ts_offset`
abbrev pub postgres_ts_offset : ℕ
postgres_ts_offset = 946684800000000

-- The bytes of a number in big-endian order, the highest ones left out where they do not fit.
unfoldable pub big_endian : ℕ → ℕ → List ℕ
big_endian zero v = []
big_endian (suc size) v = big_endian size (v / 256) ++ v % 256 ∷ []

unfoldable pub read_big_endian : ℕ → List ℕ → ℕ
read_big_endian v [] = v
read_big_endian v (b ∷ bytes) = read_big_endian (v * 256 + b) bytes

-- `pack('!11sii', b'PGCOPY\n\377\r\n\0', 0, 0)`
abbrev pub header : List ℕ
header = codes "PGCOPY" ++ (10 ∷ 255 ∷ 13 ∷ 10 ∷ 0 ∷ 0 ∷ 0 ∷ 0 ∷ 0 ∷ 0 ∷ 0 ∷ 0 ∷ 0 ∷ [])

-- `pack('!h', -1)`
abbrev pub footer : List ℕ
footer = 255 ∷ 255 ∷ []

unfoldable pub element_bytes : ℕ → List ℕ → List ℕ
unfolding big_endian
element_bytes elem_length [] = []
element_bytes elem_length (e ∷ es) =
    big_endian 4 elem_length ++ (big_endian elem_length e ++ element_bytes elem_length es)

-- int64 subtraction and addition of the offset
abbrev pub to_postgres : ℕ → ℕ
to_postgres ts = (ts + 2 ^ 64 - postgres_ts_offset) % 2 ^ 64

abbrev pub from_postgres : ℕ → ℕ
from_postgres time = (time + postgres_ts_offset) % 2 ^ 64

-- A row of `pgcopy`.
unfoldable pub row_bytes : Layout → StreamRow → List ℕ
unfolding element_bytes
row_bytes layout row =
    big_endian 2 (layout.n_elem + 1)
    ++ (big_endian 4 8
        ++ (big_endian 8 (to_postgres row.timestamp)
            ++ element_bytes layout.elem_length row.elements))

unfoldable pub all_row_bytes : Layout → List StreamRow → List ℕ
unfolding row_bytes
all_row_bytes layout [] = []
all_row_bytes layout (row ∷ rows) = row_bytes layout row ++ all_row_bytes layout rows

unfoldable pub data_to_bytes : Layout → List StreamRow → List ℕ
unfolding all_row_bytes
data_to_bytes layout rows = header ++ (all_row_bytes layout rows ++ footer)

-- `pgcopy_dtype.itemsize`
abbrev pub row_size : Layout → ℕ
row_size layout = 14 + layout.n_elem * (4 + layout.elem_length)

unfoldable pub read_elements : ℕ → ℕ → List ℕ → List ℕ
unfolding read_big_endian
read_elements elem_length zero bytes = []
read_elements elem_length (suc n) bytes =
    read_big_endian 0 (take elem_length (drop 4 bytes))
    ∷ read_elements elem_length n (drop elem_length (drop 4 bytes))

unfoldable pub read_row : Layout → List ℕ → StreamRow
unfolding read_elements
read_row layout bytes = record {
  timestamp = from_postgres (read_big_endian 0 (take 8 (drop 6 bytes)));
  elements = read_elements layout.elem_length layout.n_elem (drop 14 bytes);
}

-- `np.frombuffer`, and the assignment of the columns
unfoldable pub read_rows : Layout → ℕ → List ℕ → List StreamRow
unfolding read_row
read_rows layout zero bytes = []
read_rows layout (suc n) bytes =
    read_row layout bytes ∷ read_rows layout n (drop (row_size layout) bytes)

-- What `bytes_to_data` makes of the number of bytes, the header, and the bytes behind it. The remainder
-- is that of Python, whose dividend is negative where the footer is cut off.
unfoldable pub parts_to_data : Layout → ℕ → List ℕ → List ℕ → Outcome
unfolding read_rows text_eq
parts_to_data layout nbytes rx_header rest =
    let size = row_size layout in
    let rows = read_rows layout ((nbytes - 21) / size) (take (nbytes - 21) rest) in
    if not (text_eq rx_header header)
    then bad_header
    else if not ((nbytes + size - 21) % size == 0)
    then invalid_size
    else if not (text_eq footer (drop (nbytes - 21) rest))
    then invalid_footer
    else rows_read rows

unfoldable pub bytes_to_data : Layout → List ℕ → Outcome
unfolding parts_to_data
bytes_to_data layout buffer = parts_to_data layout (length buffer) (take 19 buffer) (drop 19 buffer)
