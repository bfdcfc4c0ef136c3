-- ===== src/FolderController/Rows.antt =====
-- The table of folders, and the search for a folder in it.
use joule.Base.{
  ℕ, suc, Bool, false, ◌||◌, not, Option, none, some, List, [], ◌∷◌, ◌==◌, if◌then◌else◌,
}
use joule.Base.Text.{Text, codes, text_eq, is_empty_text, split}

-- A row of the table of folders.
pub record FolderRow : Type 0 where
  pub id : ℕ
  pub name : Text
  pub parent : Option ℕ

-- `next_id` is the id that the database gives next.
pub record Table : Type 0 where
  pub folders : List FolderRow
  pub next_id : ℕ

-- The parent of a folder.
unfoldable pub parent_of : List FolderRow → ℕ → Option ℕ
parent_of [] x = none
parent_of (row ∷ rows) x = if row.id == x then row.parent else parent_of rows x

unfoldable pub name_of : List FolderRow → ℕ → Text
name_of [] x = []
name_of (row ∷ rows) x = if row.id == x then row.name else name_of rows x

-- `db.get(Folder, x)`
unfoldable pub get_folder : List FolderRow → ℕ → Option ℕ
get_folder [] x = none
get_folder (row ∷ rows) x = if row.id == x then some row.id else get_folder rows x

abbrev pub is_child : ℕ → Option ℕ → Bool
is_child x none = false
is_child x (some p) = p == x

-- Whether a child of `x` has the name.
unfoldable pub has_child_named : List FolderRow → ℕ → Text → Bool
has_child_named [] x name = false
has_child_named (row ∷ rows) x name =
    (if is_child x row.parent then text_eq row.name name else false) || has_child_named rows x name

-- `db.query(Folder).filter_by(parent=parent, name=name)`
unfoldable pub child_named : List FolderRow → ℕ → Text → Option ℕ
unfolding text_eq
child_named [] x name = none
child_named (row ∷ rows) x name =
    if is_child x row.parent
    then (if text_eq row.name name then some row.id else child_named rows x name)
    else child_named rows x name

-- A new row, with its id.
unfoldable pub add_folder : Text → Option ℕ → Table → ℕ × Table
add_folder name parent t = (
  t.next_id,
  record {
    folders = record { id = t.next_id; name = name; parent = parent } ∷ t.folders;
    next_id = suc t.next_id;
  },
)

unfoldable pub root_of : List FolderRow → Option ℕ
root_of [] = none
root_of (row ∷ rows) = elim row.parent [ none ↦ some row.id | some p ↦ root_of rows ]

-- A root that is found, or a new one.
unfoldable pub root_or_new : Option ℕ → Table → ℕ × Table
unfolding add_folder
root_or_new (some x) t = (x, t)
root_or_new none t = add_folder (codes "root") none t

-- `root`
unfoldable pub root : Table → ℕ × Table
unfolding root_of root_or_new
root t = root_or_new (root_of t.folders) t

-- The folder of a chunk that is found, or a new one, from which `go_on` follows the other chunks.
unfoldable pub child_or_new :
    Option ℕ → Bool → Text → ℕ → Table → (ℕ → Table → Option ℕ × Table) → Option ℕ × Table
unfolding add_folder
child_or_new (some x) create name parent t go_on = go_on x t
child_or_new none create name parent t go_on =
    let (new, t') = add_folder name (some parent) t in if create then go_on new t' else (none, t)

-- `find`, on the chunks of a path below a folder
unfoldable pub find_chunks : Bool → List Text → ℕ → Table → Option ℕ × Table
unfolding child_named child_or_new
find_chunks create [] parent t = (some parent, t)
find_chunks create (name ∷ chunks) parent t =
    child_or_new (child_named t.folders parent name) create name parent t
      (λ x t'. find_chunks create chunks x t')

unfoldable pub has_empty : List Text → Bool
has_empty [] = false
has_empty (chunk ∷ chunks) = is_empty_text chunk || has_empty chunks

-- `find` from the root; `none` is a ConfigurationError.
unfoldable pub find : Text → Bool → Table → Option (Option ℕ × Table)
unfolding root find_chunks has_empty split
find [] create t = none
find (c ∷ path) create t =
    let (top, t') = root t in
    let chunks = split b'/' path in
    if not (c == b'/')
    then none
    else if is_empty_text path
    then some (some top, t')
    else if has_empty chunks
    then none
    else some (find_chunks create chunks top t')

-- `destination.children.append(my_folder)`
unfoldable pub set_parent : ℕ → ℕ → List FolderRow → List FolderRow
set_parent x parent [] = []
set_parent x parent (row ∷ rows) =
    record row { parent = if row.id == x then some parent else row.parent }
    ∷ set_parent x parent rows
