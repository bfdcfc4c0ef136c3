-- ===== src/Pipe/Input/Tests.antt =====
-- An input pipe whose rows are two bytes, with the token 0 0.
use joule.Base.{ℕ, ◌+◌, ◌*◌, ◌≡◌, refl, true, false, List, [], ◌∷◌, arith, ◌==◌}
use joule.Base.Int.{pos, ◌-ℤ◌, ◌*ℤ◌}
use joule.Pipe.{ok}
use joule.Pipe.Input.{
  Layout, InputPipe, consume, read, read_more, collect, align_bytes, append_rows, process_bytes,
  find_interval_token, frombuffer, rows_of, occurs, token_index,
}
use joule.Pipe.Input.Framing.{Frames, read-Frames}

abbrev two_bytes : List ℕ → ℕ
two_bytes [] = 0
two_bytes (a ∷ []) = a
two_bytes (a ∷ b ∷ bytes) = a + 256 * b

instance abbrev pairs : Layout ℕ
pairs = record {
  rowbytes = 2;
  decode = two_bytes;
  equals_token = λ row. row == 0;
  token_bytes = 0 ∷ 0 ∷ [];
  rowbytes-pos = omega arith;
  length-token_bytes = refl;
  equals_token-token_bytes = refl;
}

abbrev new_pipe : List (List ℕ) → InputPipe ℕ
new_pipe arrivals = record {
  buffer_size = 10;
  has_reader = false;
  reader_close = false;
  reader_closes = 0;
  close_cb = false;
  callbacks = 0;
  is_closed = false;
  reread = false;
  last_read = false;
  interval_break = false;
  byte_buffer = [];
  unprocessed = [];
  buffer = [];
  beyond = 0;
  arrivals = arrivals;
}

-- The first row comes in two parts; a token and a part of the next row are behind it.
abbrev in_parts : InputPipe ℕ
in_parts = new_pipe ((7 ∷ []) ∷ (1 ∷ 0 ∷ 0 ∷ 9 ∷ []) ∷ (2 ∷ []) ∷ [])

first_read : (read in_parts).0 ≡ ok (263 ∷ [])
unfolding read append_rows read_more collect align_bytes process_bytes find_interval_token
    frombuffer rows_of occurs token_index ◌-ℤ◌ ◌*ℤ◌
first_read = refl

read-Frames_example : Frames [] (7 ∷ 1 ∷ 0 ∷ 0 ∷ 9 ∷ 2 ∷ []) (read in_parts)
read-Frames_example = read-Frames in_parts (omega arith)

-- A row that has not been consumed, and half a row behind it.
abbrev half_a_row : InputPipe ℕ
half_a_row = record (new_pipe []) { has_reader = true; buffer = 5 ∷ []; byte_buffer = 3 ∷ [] }

-- A single row that comes to a full array, of two rows here, is lost, and counted.
abbrev full_array : InputPipe ℕ
full_array = record (new_pipe ((9 ∷ 1 ∷ []) ∷ [])) { buffer_size = 1; buffer = 5 ∷ 6 ∷ [] }

full_array_read : read full_array ≡ (
  ok (5 ∷ 6 ∷ []),
  record full_array { has_reader = true; reader_close = true; arrivals = []; beyond = 1 },
)
unfolding read append_rows read_more collect align_bytes process_bytes find_interval_token
    frombuffer rows_of occurs token_index ◌-ℤ◌ ◌*ℤ◌
full_array_read = refl

-- The roll brings the first row to the place of the lost one.
full_array_consume : (consume (pos 1) (record full_array { beyond = 1 })).1.buffer ≡ 6 ∷ 5 ∷ []
unfolding consume
full_array_consume = refl
