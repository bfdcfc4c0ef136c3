-- ===== src/StreamController/Requests.antt =====
-- The requests to create, move and delete data streams in src/joule/controllers/stream_controller.py, on
-- the table of streams: what they do once the stream and the folder are found and the JSON is read.
use joule.Base.{ℕ, suc, Bool, true, false, ◌||◌, Option, none, some, List, [], ◌∷◌, if◌then◌else◌}
use joule.Base.Text.{Text, text_eq}
use joule.StreamController.{
  StreamEntry, name_in_folder, is_stream, NameAnswer, accepted, name_exists, not_found,
  stream_is_locked, no_elements, elements_repeat, move_stream,
}

-- `next_id` is the id that the database gives to the next data stream.
pub record StreamTable : Type 0 where
  pub rows : List StreamEntry
  pub next_id : ℕ

pub data Request : Type 0 where
  creation : (elements : List Text) (name : Text) (destination : ℕ) → Request
  moving : (x destination : ℕ) → Request
  deletion : (x : ℕ) → Request

unfoldable pub is_among : Text → List Text → Bool
unfolding text_eq
is_among s [] = false
is_among s (t ∷ ts) = text_eq s t || is_among s ts

-- `len(set(names)) != len(names)`
unfoldable pub repeats : List Text → Bool
unfolding is_among
repeats [] = false
repeats (s ∷ ts) = is_among s ts || repeats ts

-- The end of `create`.
unfoldable pub create_stream : List Text → Text → ℕ → StreamTable → NameAnswer
unfolding repeats name_in_folder
create_stream [] name destination t = no_elements
create_stream (s ∷ elements) name destination t =
    let new : StreamEntry = record {
      id = t.next_id;
      name = name;
      folder_id = destination;
      is_event = false;
    } in
    if repeats (s ∷ elements)
    then elements_repeat
    else if name_in_folder (λ row. true) t.rows destination name
    then name_exists
    else accepted (new ∷ t.rows)

-- `db.get(DataStream, x)`, of which the name is kept.
unfoldable pub get_stream : ℕ → List StreamEntry → Option Text
get_stream x [] = none
get_stream x (row ∷ rows) = if is_stream x row then some row.name else get_stream x rows

unfoldable pub remove_stream : ℕ → List StreamEntry → List StreamEntry
remove_stream x [] = []
remove_stream x (row ∷ rows) =
    let rest = remove_stream x rows in if is_stream x row then rest else row ∷ rest

-- What is done with the stream, which is found and not locked.
abbrev pub with_stream : Bool → Option Text → (Text → NameAnswer) → NameAnswer
with_stream locked none go_on = not_found
with_stream true (some name) go_on = stream_is_locked
with_stream false (some name) go_on = go_on name

-- The table after an answer; a refusal leaves it as it was.
abbrev pub committed : NameAnswer → ℕ → StreamTable → StreamTable
committed (accepted rows) n t = record { rows = rows; next_id = n }
committed refusal n t = t

-- `locked` is that of the stream in the table for a move, and locked or active for a deletion.
module _ (locked : Bool → List StreamEntry → ℕ → Bool) where
  unfoldable pub handle_request : Request → StreamTable → StreamTable
  unfolding create_stream get_stream move_stream remove_stream
  handle_request (creation elements name destination) t =
      committed (create_stream elements name destination t) (suc t.next_id) t
  handle_request (moving x destination) t =
      committed
        (with_stream (locked false t.rows x) (get_stream x t.rows)
          (λ name. move_stream x name destination t.rows))
        t.next_id t
  handle_request (deletion x) t =
      committed
        (with_stream (locked true t.rows x) (get_stream x t.rows)
          (λ name. accepted (remove_stream x t.rows)))
        t.next_id t

  unfoldable pub handle_requests : List Request → StreamTable → StreamTable
  unfolding handle_request
  handle_requests [] t = t
  handle_requests (r ∷ rs) t = handle_requests rs (handle_request r t)
