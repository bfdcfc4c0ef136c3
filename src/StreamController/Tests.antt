-- ===== src/StreamController/Tests.antt =====
-- Two folders with data streams, and an event stream whose id is that of a data stream.
use joule.Base.{arith, Bool, inl, inr, ℕ, ◌≡◌, refl, true, false, List, [], ◌∷◌}
use joule.Base.Text.{Text, codes, text_eq}
use joule.StreamController.{
  StreamEntry, name_in_folder, accepted, name_exists, elements_repeat, move_stream, rename_stream,
}
use joule.StreamController.Naming.{NamesDiffer}
use joule.StreamController.Requests.{
  StreamTable, Request, creation, moving, deletion, is_among, repeats, create_stream,
  handle_requests,
}
use joule.StreamController.Session.{IsConsistent, handle_requests-IsConsistent}
use joule.StreamController.Clash.{is_event_stream, is_data_stream, rename_stream-clash}

abbrev data_row : ℕ → Text → ℕ → StreamEntry
data_row x name folder = record { id = x; name = name; folder_id = folder; is_event = false }

abbrev event_row : ℕ → Text → ℕ → StreamEntry
event_row x name folder = record { id = x; name = name; folder_id = folder; is_event = true }

abbrev streams : List StreamEntry
streams =
    event_row 1 (codes "faults") 10
    ∷ data_row 1 (codes "voltage") 10
    ∷ data_row 2 (codes "current") 10
    ∷ data_row 3 (codes "voltage") 11
    ∷ []

abbrev after_move : List StreamEntry
after_move =
    event_row 1 (codes "faults") 10
    ∷ data_row 1 (codes "voltage") 10
    ∷ data_row 2 (codes "current") 11
    ∷ data_row 3 (codes "voltage") 11
    ∷ []

streams-NamesDiffer : NamesDiffer streams
unfolding name_in_folder text_eq
streams-NamesDiffer = (refl, (refl, (refl, (refl, tt))))

move_current : move_stream 2 (codes "current") 11 streams ≡ accepted after_move
unfolding move_stream text_eq
move_current = refl

abbrev nothing_locked : Bool → List StreamEntry → ℕ → Bool
nothing_locked deleting rows x = false

abbrev start : StreamTable
start = record { rows = streams; next_id = 4 }

abbrev session : List Request
session =
    creation (codes "x" ∷ []) (codes "power") 10
    ∷ moving 2 11
    ∷ moving 1 11
    ∷ deletion 3
    ∷ moving 1 11
    ∷ []

-- The second move to folder 11 succeeds, once the stream that had the name is deleted.
abbrev after_session : StreamTable
after_session = record {
  rows =
      data_row 4 (codes "power") 10
      ∷ event_row 1 (codes "faults") 10
      ∷ data_row 1 (codes "voltage") 11
      ∷ data_row 2 (codes "current") 11
      ∷ [];
  next_id = 5;
}

session_runs : handle_requests nothing_locked session start ≡ after_session
unfolding handle_requests name_in_folder move_stream text_eq
session_runs = refl

start-IsConsistent : IsConsistent start
start-IsConsistent = record {
  names = streams-NamesDiffer;
  ids = (
    inl refl,
    (
      inr (omega arith, (refl, (refl, tt))),
      (inr (omega arith, (refl, tt)), (inr (omega arith, tt), tt)),
    ),
  );
}

handle_requests-IsConsistent_example : IsConsistent (handle_requests nothing_locked session start)
handle_requests-IsConsistent_example =
    handle_requests-IsConsistent nothing_locked session start start-IsConsistent

-- Elements that have one name are refused.
create_repeated :
    create_stream (codes "x" ∷ codes "y" ∷ codes "x" ∷ []) (codes "power") 10 start
    ≡ elements_repeat
unfolding create_stream repeats is_among text_eq
create_repeated = refl

-- The other folder has a stream of this name.
move_voltage : move_stream 1 (codes "voltage") 11 streams ≡ name_exists
unfolding move_stream text_eq
move_voltage = refl

rename_stream-clash_example :
    (rows' : List StreamEntry) × (rename_stream 1 10 (codes "faults") streams ≡ accepted rows')
    × (name_in_folder is_event_stream rows' 10 (codes "faults") ≡ true)
    × (name_in_folder is_data_stream rows' 10 (codes "faults") ≡ true)
unfolding name_in_folder text_eq
rename_stream-clash_example = rename_stream-clash 1 10 (codes "faults") streams refl refl refl

-- The stream with another id is refused the name.
rename_current : rename_stream 2 10 (codes "faults") streams ≡ name_exists
unfolding rename_stream text_eq
rename_current = refl
