-- ===== src/Pipe/Input.antt =====
-- The pipe out of a byte stream: src/joule/models/pipes/input_pipe.py, with `find_interval_token` of
-- src/joule/models/pipes/pipe.py. `arrivals` is what the calls of the stream reader's `read` return, in
-- order, an empty one for a timeout; behind it the reader is at its end. Bytes are numbers.
pub mod Token
pub mod Cutting
pub mod Framing
pub mod Partial
mod Tests
use joule.Base.{
  ℕ, zero, suc, ◌+◌, ◌-◌, ◌*◌, ◌/◌, ◌%◌, ◌<◌, ◌≡◌, Bool, true, false, ◌&&◌, Option, none, some,
  List, [], ◌∷◌, ◌++◌, map, length, take, drop, leb, ltb, ◌==◌, if◌then◌else◌,
}
use joule.Base.Int.{ℤ, pos, negsuc, ltb_ℤ, ◌-ℤ◌, ◌*ℤ◌}
use joule.Pipe.{
  closed, negative_consume, consume_too_many, empty_pipe, value_error, Result, ok, raised, Action,
  is_nil,
}

-- numpy on the pipe's dtype: the bytes of a row, the row that they hold, `np.array_equal` with the token,
-- and the bytes of the token, which is a row.
pub record Layout (Row : Type 0) : Type 0 where
  pub rowbytes : ℕ
  pub decode : List ℕ → Row
  pub equals_token : Row → Bool
  pub token_bytes : List ℕ
  pub rowbytes-pos : 0 < rowbytes
  pub length-token_bytes : length token_bytes ≡ rowbytes
  pub equals_token-token_bytes : equals_token (decode token_bytes) ≡ true

-- The attributes of an `InputPipe`. `buffer` holds the rows `buffer[:last_index]`, of an array of twice
-- `BUFFER_SIZE` rows, and `beyond` is by how much `last_index` is more than their number;
-- `reader_closes` and `callbacks` count the calls of `_reader_close` and `close_cb`.
pub record InputPipe (Row : Type 0) : Type 0 where
  pub buffer_size : ℕ
  pub has_reader : Bool
  pub reader_close : Bool
  pub reader_closes : ℕ
  pub close_cb : Bool
  pub callbacks : ℕ
  pub is_closed : Bool
  pub reread : Bool
  pub last_read : Bool
  pub interval_break : Bool
  pub byte_buffer : List ℕ
  pub unprocessed : List ℕ
  pub buffer : List Row
  pub beyond : ℕ
  pub arrivals : List (List ℕ)

abbrev pub last_index : {Row : Type 0} → InputPipe Row → ℕ
last_index p = length p.buffer + p.beyond

abbrev pub is_prefix : List ℕ → List ℕ → Bool
is_prefix [] bytes = true
is_prefix (a ∷ xs) [] = false
is_prefix (a ∷ xs) (b ∷ bs) = (a == b) && is_prefix xs bs

-- `raw.find(token_bytes) != -1`
pub occurs : List ℕ → List ℕ → Bool
occurs token [] = is_nil token
occurs token (b ∷ bs) =
    let later = occurs token bs in if is_prefix token (b ∷ bs) then true else later

-- `xs[:n]` and `xs[n:]`
abbrev pub upto : ℤ → List ℕ → List ℕ
upto (pos n) bytes = take n bytes
upto (negsuc n) bytes = take (length bytes - (n + 1)) bytes

abbrev pub from : ℤ → List ℕ → List ℕ
from (pos n) bytes = drop n bytes
from (negsuc n) bytes = drop (length bytes - (n + 1)) bytes

abbrev pub is_zero : ℤ → Bool
is_zero (pos n) = n == 0
is_zero (negsuc n) = false

abbrev pub next_index : Option ℕ → Option ℕ
next_index none = none
next_index (some i) = some (suc i)

-- What `find_interval_token` and the end of `read` make of the bytes to be processed: the bytes of whole
-- rows, those of a token, and the rest.
pub record Frame : Type 0 where
  pub row_bytes : List ℕ
  pub gap : List ℕ
  pub rest : List ℕ
  pub interval_break : Bool

module _ {Row : Type 0} ⦃layout : Layout Row⦄ where
  pub rows_of : ℕ → List ℕ → List Row
  rows_of zero bytes = []
  rows_of (suc n) bytes =
      layout.decode (take layout.rowbytes bytes) ∷ rows_of n (drop layout.rowbytes bytes)

  -- `np.frombuffer`
  pub frombuffer : List ℕ → Result (List Row)
  frombuffer bytes =
      if (length bytes % layout.rowbytes) == 0
      then ok (rows_of (length bytes / layout.rowbytes) bytes)
      else raised value_error

  -- The position of the first token among rows.
  pub token_index : List Row → Option ℕ
  token_index [] = none
  token_index (row ∷ rows) =
      let later = next_index (token_index rows) in if layout.equals_token row then some 0 else later

module _ (Row : Type 0) ⦃layout : Layout Row⦄ where
  -- `find_interval_token`, with the row index in place of the two positions that come of it.
  pub find_interval_token : List ℕ → Result (Option ℕ)
  find_interval_token raw =
      if occurs layout.token_bytes raw
      then (elim (frombuffer {Row = Row} raw) [
        | raised e ↦ raised e
        | ok rows ↦ ok (token_index rows)
      ])
      else ok none

  abbrev pub frame_at : List ℕ → Option ℕ → Frame
  frame_at bytes none = record { row_bytes = bytes; gap = []; rest = []; interval_break = false }
  frame_at bytes (some i) =
      let n = length layout.token_bytes in
      record {
        row_bytes = take (i * n) bytes;
        gap = take n (drop (i * n) bytes);
        rest = drop n (drop (i * n) bytes);
        interval_break = true;
      }

module _ {Row : Type 0} ⦃layout : Layout Row⦄ where
  -- The last lines of `read`. numpy refuses rows that do not fit in the array, but for a single one, which it
  -- broadcasts over the empty slice behind a full array; `last_index` counts it all the same.
  pub append_rows : Frame → Result (List Row) → Action (InputPipe Row) (List Row)
  append_rows frame (raised e) p = (raised e, p)
  append_rows frame (ok rows) p =
      if leb (length p.buffer + length rows) (p.buffer_size * 2)
      then (ok (p.buffer ++ rows), record p { buffer = p.buffer ++ rows })
      else if length rows == 1
      then (ok p.buffer, record p { beyond = p.beyond + 1 })
      else (raised value_error, p)

  abbrev pub take_frame : Result (Option ℕ) → List ℕ → Action (InputPipe Row) (List Row)
  take_frame (raised e) bytes p = (raised e, record p { interval_break = false })
  take_frame (ok loc) bytes p =
      let frame = frame_at Row bytes loc in
      append_rows frame (frombuffer frame.row_bytes) (record p {
        unprocessed = frame.rest ++ p.unprocessed;
        interval_break = frame.interval_break;
      })

  -- `unprocessed_np_buffer` in front of the new bytes, of which `max_bytes` are processed.
  pub process_bytes : ℤ → List ℕ → Action (InputPipe Row) (List Row)
  process_bytes max_bytes bytes p =
      let all = p.unprocessed ++ bytes in
      if is_nil p.unprocessed
      then take_frame (find_interval_token Row bytes) bytes p
      else if ltb_ℤ max_bytes (pos (length all))
      then take_frame (find_interval_token Row (upto max_bytes all)) (upto max_bytes all)
          (record p { unprocessed = from max_bytes all })
      else take_frame (find_interval_token Row all) all (record p { unprocessed = [] })

  -- The bytes of whole rows, from `byte_buffer` and what has been read.
  pub align_bytes : ℤ → List ℕ → Action (InputPipe Row) (List Row)
  align_bytes max_bytes raw p =
      let extra = (length raw + length p.byte_buffer) % layout.rowbytes in
      let kept = length raw - extra in
      if ltb 0 extra
      then process_bytes max_bytes (p.byte_buffer ++ take kept raw)
          (record p { byte_buffer = drop kept raw })
      else process_bytes max_bytes (p.byte_buffer ++ raw) (record p { byte_buffer = [] })

  -- The loop that reads until a row's bytes are there.
  pub collect : ℤ → List ℕ → List (List ℕ) → Action (InputPipe Row) (List Row)
  collect max_bytes raw [] p =
      let done = record p { arrivals = [] } in
      if is_nil p.unprocessed && (last_index p == 0)
      then (raised empty_pipe, done)
      else align_bytes max_bytes raw
          (if is_nil p.unprocessed then record done { last_read = true } else done)
  collect max_bytes raw (new_data ∷ arrivals) p =
      let more = collect max_bytes (raw ++ new_data) arrivals p in
      if ltb (length (raw ++ new_data)) layout.rowbytes
      then more
      else align_bytes max_bytes (raw ++ new_data) (record p { arrivals = arrivals })

  -- `max_rows`
  abbrev pub max_rows : InputPipe Row → ℤ
  max_rows p = pos p.buffer_size -ℤ pos (last_index p + length p.unprocessed % layout.rowbytes)

  pub read_more : Action (InputPipe Row) (List Row)
  read_more p =
      if is_zero (max_rows p)
      then (ok p.buffer, p)
      else collect (max_rows p *ℤ pos layout.rowbytes) [] p.arrivals p

  -- `read`
  pub read : Action (InputPipe Row) (List Row)
  read p =
      let made = if p.has_reader then p else record p { has_reader = true; reader_close = true } in
      if p.reread
      then (ok p.buffer, record p { reread = false })
      else if made.is_closed
      then (
        raised closed,
        record made {
          reader_closes = if made.reader_close then made.reader_closes + 1 else made.reader_closes;
        },
      )
      else read_more made

  -- `np.roll` and the new `last_index`. Where that was beyond the array, which is full then, the rows that
  -- are rolled to its end may come before the new one.
  abbrev pub roll : ℕ → InputPipe Row → InputPipe Row
  roll n p =
      let size = length p.buffer in
      let rolled = drop (n % size) p.buffer ++ take (n % size) p.buffer in
      if p.beyond == 0
      then record p { buffer = drop n p.buffer }
      else record p { buffer = take (last_index p - n) rolled; beyond = p.beyond - n }

  pub consume : ℤ → Action (InputPipe Row) (Unit {0})
  consume (negsuc n) p = (raised negative_consume, p)
  consume (pos n) p =
      if n == 0
      then (ok tt, p)
      else if ltb (last_index p) n
      then (raised consume_too_many, p)
      else (ok tt, roll n p)

  pub consume_all : Action (InputPipe Row) (Unit {0})
  consume_all p = consume (pos (last_index p)) p

  pub close : Action (InputPipe Row) (Unit {0})
  close p =
      let shut = record p {
        reader_closes = if p.reader_close then p.reader_closes + 1 else p.reader_closes;
        reader_close = false;
      } in
      if p.is_closed then (ok tt, shut) else (
        ok tt,
        record shut {
          is_closed = true;
          callbacks = if p.close_cb then p.callbacks + 1 else p.callbacks;
          close_cb = false;
        },
      )
