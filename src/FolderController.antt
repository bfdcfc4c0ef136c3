-- ===== src/FolderController.antt =====
-- The handler `move` of src/joule/controllers/folder_controller.py, with `root` and `find` of
-- src/joule/models/folder.py on the table of folders that the database session holds. Timestamps are
-- not modelled, and the loop over the parents of the destination runs on fuel.
pub mod Rows
pub mod Acyclic
pub mod Given
pub mod Moving
mod Tests
use joule.Base.{
  ℕ, zero, suc, Bool, true, false, not, Option, none, some, List, [], ◌∷◌, ◌==◌, if◌then◌else◌,
}
use joule.Base.Text.{Text}
use joule.FolderController.Rows.{
  FolderRow, Table, parent_of, name_of, get_folder, has_child_named, find, set_parent,
}

-- How a request names a folder.
pub data Place : Type 0 where
  by_path : Text → Place
  by_id : ℕ → Place
  unspecified : Place

-- The body of a request to move a folder.
pub record MoveRequest : Type 0 where
  pub is_json : Bool
  pub source : Place
  pub destination : Place

-- `moved` is the response with the folder, `unhandled` an exception that the handler does not catch; the
-- others are its refusals.
pub data Response : Type 0 where
  moved : Response
  not_json no_source not_found folder_is_locked : Response
  destination_error no_destination name_taken parent_in_child : Response
  unhandled : Response

-- What the handler relies on: whether a folder is locked, which Folders models on the tree, and whether
-- SQLAlchemy raises a CircularDependencyError for the table that it is to commit.
pub record Database : Type 0 where
  pub folder_locked : Table → ℕ → Bool
  pub refuses : Table → Bool

-- The response and the table after it. `none` where the loop runs out of fuel.
abbrev pub Handled : Type 0
Handled = Option (Response × Table)

-- What is found for a place, with the table after the search.
pub data Found : Type 0 where
  found : Option ℕ → Table → Found
  invalid_path : Found
  nowhere : Found

abbrev pub search_result : Option (Option ℕ × Table) → Found
search_result none = invalid_path
search_result (some (x, t)) = found x t

-- `folder.find` or `db.get`
unfoldable pub look_up : Bool → Place → Table → Found
unfolding find get_folder
look_up create (by_path path) t = search_result (find path create t)
look_up create (by_id x) t = found (get_folder t.folders x) t
look_up create unspecified t = nowhere

-- The loop over the parents: whether `x` is one of them.
unfoldable pub meets : ℕ → List FolderRow → ℕ → Option ℕ → Option Bool
meets fuel rows x none = some false
meets zero rows x (some p) = none
meets (suc fuel) rows x (some p) =
    let rest = meets fuel rows x (parent_of rows p) in if p == x then some true else rest

abbrev pub unless_circular : Option Bool → Response × Table → Response × Table → Handled
unless_circular none refused done = none
unless_circular (some true) refused done = some refused
unless_circular (some false) refused done = some done

module _ (db : Database) where
  -- From the test of the names of the destination on. `t` is the table before the request, to which a
  -- rollback returns.
  unfoldable pub place_in : ℕ → ℕ → Table → ℕ → Table → Handled
  unfolding meets set_parent has_child_named name_of parent_of
  place_in fuel x t destination t' =
      let after = record t' { folders = set_parent x destination t'.folders } in
      let check = meets fuel t'.folders x (parent_of t'.folders destination) in
      let placed =
        unless_circular check (parent_in_child, t)
          (if db.refuses after then (parent_in_child, t) else (moved, after)) in
      if has_child_named t'.folders destination (name_of t'.folders x)
      then some (name_taken, t)
      else placed

  -- The destination, once the folder is found. Where it is missing, its children cannot be read.
  abbrev pub to_destination : ℕ → ℕ → Table → Found → Handled
  to_destination fuel x t nowhere = some (no_destination, t)
  to_destination fuel x t invalid_path = some (destination_error, t)
  to_destination fuel x t (found none t') = some (unhandled, t')
  to_destination fuel x t (found (some d) t') = place_in fuel x t d t'

  abbrev pub from_source : ℕ → Place → Table → Found → Handled
  from_source fuel destination t nowhere = some (no_source, t)
  from_source fuel destination t invalid_path = some (unhandled, t)
  from_source fuel destination t (found none t') = some (not_found, t')
  from_source fuel destination t (found (some x) t') =
      let search = look_up true destination t' in
      if db.folder_locked t' x then some (folder_is_locked, t') else to_destination fuel x t' search

  unfoldable pub move : ℕ → MoveRequest → Table → Handled
  unfolding look_up place_in
  move fuel request t =
      if not request.is_json
      then some (not_json, t)
      else from_source fuel request.destination t (look_up false request.source t)
