-- ===== src/StreamController.antt =====
-- The rows of the tables of data and event streams in src/joule/controllers/stream_controller.py, and the
-- ends of `move` and `update` on them, once the stream and the folder are found.
pub mod Requests
pub mod Naming
pub mod Session
pub mod Clash
mod Tests
use joule.Base.{ℕ, Bool, true, false, ◌||◌, ◌&&◌, not, List, [], ◌∷◌, ◌==◌, if◌then◌else◌}
use joule.Base.Text.{Text, text_eq}

-- A row of the table of data streams, or of that of event streams, whose ids may be the same.
pub record StreamEntry : Type 0 where
  pub id : ℕ
  pub name : Text
  pub folder_id : ℕ
  pub is_event : Bool

-- Whether the stream is in the folder under this name, and `counts` holds of it.
abbrev pub is_named : (StreamEntry → Bool) → StreamEntry → ℕ → Text → Bool
is_named counts row folder name = row.folder_id == folder && (text_eq row.name name && counts row)

-- Whether the folder has a stream of this name, for which `counts` holds.
unfoldable pub name_in_folder : (StreamEntry → Bool) → List StreamEntry → ℕ → Text → Bool
name_in_folder counts [] folder name = false
name_in_folder counts (row ∷ rows) folder name =
    is_named counts row folder name || name_in_folder counts rows folder name

abbrev pub is_stream : ℕ → StreamEntry → Bool
is_stream x row = not row.is_event && row.id == x

-- The row of the data stream, changed.
unfoldable pub change_stream : ℕ → (StreamEntry → StreamEntry) → List StreamEntry → List StreamEntry
change_stream x f [] = []
change_stream x f (row ∷ rows) = (if is_stream x row then f row else row) ∷ change_stream x f rows

-- `accepted` has the rows of the table afterwards; the others are refusals.
pub data NameAnswer : Type 0 where
  accepted : List StreamEntry → NameAnswer
  name_exists : NameAnswer
  not_found stream_is_locked no_elements elements_repeat : NameAnswer

-- The end of `move`: the destination is found, and `name` is that of the stream.
unfoldable pub move_stream : ℕ → Text → ℕ → List StreamEntry → NameAnswer
unfolding name_in_folder change_stream
move_stream x name destination rows =
    if name_in_folder (λ row. true) rows destination name
    then name_exists
    else accepted (change_stream x (λ row. record row { folder_id = destination }) rows)

-- The end of `update`, which changes the name and then tests it; a rollback undoes the change.
unfoldable pub rename_stream : ℕ → ℕ → Text → List StreamEntry → NameAnswer
unfolding name_in_folder change_stream
rename_stream x folder name rows =
    let renamed = change_stream x (λ row. record row { name = name }) rows in
    if name_in_folder (λ row. not (row.id == x)) renamed folder name
    then name_exists
    else accepted renamed
