-- ===== src/Folders.antt =====
-- The tree of folders and streams: src/joule/models/folder.py. What the database session holds is the
-- tree; `none` is a ConfigurationError where nothing else is said.
pub mod Paths
pub mod Creating
mod Tests
use joule.Base.{
  ℕ, ◌+◌, ◌≡◌, Bool, true, false, ◌||◌, Option, none, some, List, [], ◌∷◌, ◌++◌, map, if◌then◌else◌,
}
use joule.Base.Text.{Text, text_eq, has_char, is_empty_text, split, join}

pub record DataStream : Type 0 where
  pub name : Text
  pub is_configured : Bool
  pub is_destination : Bool
  pub is_source : Bool

pub record EventStream : Type 0 where
  pub name : Text

-- `Stream`
pub data Stream : Type 0 where
  data_stream : DataStream → Stream
  event_stream : EventStream → Stream

abbrev pub stream_name : Stream → Text
stream_name (data_stream s) = s.name
stream_name (event_stream s) = s.name

-- The columns of a folder.
pub record Info : Type 0 where
  pub name : Text
  pub description : Option Text

mutual
  pub data Folder : Type 0 where
    folder : Info → List DataStream → List EventStream → Children → Folder

  pub data Children : Type 0 where
    no_child : Children
    child : Folder → Children → Children

abbrev pub info_of : Folder → Info
info_of (folder info data_streams event_streams children) = info

abbrev pub name_of : Folder → Text
name_of f = (info_of f).name

-- The loop over streams that stops at a name.
pub first_named : Text → List Stream → Option Stream
first_named name [] = none
first_named name (s ∷ streams) =
    let later = first_named name streams in if text_eq (stream_name s) name then some s else later

abbrev pub or_else : {A : Type 0} → Option A → Option A → Option A
or_else (some a) later = some a
or_else none later = later

-- `find_stream_by_segments`, on the first segment and the others.
mutual
  pub find_stream_by_segments : Text → List Text → Folder → Option Stream
  find_stream_by_segments first [] (folder info data_streams event_streams children) =
      or_else (first_named first (map data_stream data_streams))
        (first_named first (map event_stream event_streams))
  find_stream_by_segments first (next ∷ rest) (folder info data_streams event_streams children) =
      find_in_children first next rest children

  pub find_in_children : Text → Text → List Text → Children → Option Stream
  find_in_children first next rest no_child = none
  find_in_children first next rest (child f children) =
      let below = find_stream_by_segments next rest f in
      let later = find_in_children first next rest children in
      if text_eq (name_of f) first then below else later

-- `path[1:]`
abbrev pub behind_first : Text → Text
behind_first [] = []
behind_first (c ∷ t) = t

abbrev pub find_stream_at : List Text → Folder → Option Stream
find_stream_at [] root = none
find_stream_at (first ∷ rest) root = find_stream_by_segments first rest root

-- `stream_type`, where one is given.
pub data StreamType : Type 0 where
  data_type event_type : StreamType

abbrev pub of_type : Option StreamType → Option Stream → Option Stream
of_type none found = found
of_type (some stream_type) none = none
of_type (some data_type) (some (data_stream s)) = some (data_stream s)
of_type (some data_type) (some (event_stream s)) = none
of_type (some event_type) (some (data_stream s)) = none
of_type (some event_type) (some (event_stream s)) = some (event_stream s)

pub find_stream_by_path : Text → Option StreamType → Folder → Option Stream
find_stream_by_path path stream_type root =
    of_type stream_type (find_stream_at (split b'/' (behind_first path)) root)

-- `_get_path`, on the names of the folders from the nearest up to the root's child.
pub get_path : List Text → Text → Text
get_path [] path = b'/' ∷ path
get_path (name ∷ parents) path = get_path parents (name ++ (b'/' ∷ path))

-- `get_stream_path`, of a stream that is neither remote nor without a folder.
pub get_stream_path : List Text → Stream → Text
get_stream_path parents s = get_path parents (stream_name s)

abbrev pub any_stream : {A : Type 0} → List A → Bool
any_stream [] = false
any_stream (s ∷ streams) = true

mutual
  pub contains_streams : Folder → Bool
  contains_streams (folder info data_streams event_streams children) =
      if any_stream data_streams
      then true
      else if any_stream event_streams
      then true
      else children_contain_streams children

  pub children_contain_streams : Children → Bool
  children_contain_streams no_child = false
  children_contain_streams (child f children) =
      if contains_streams f then true else children_contain_streams children

-- `DataStream.locked`
abbrev pub is_locked : DataStream → Bool
is_locked s = s.is_configured || s.is_destination || s.is_source

abbrev pub any_locked : List DataStream → Bool
any_locked [] = false
any_locked (s ∷ streams) = if is_locked s then true else any_locked streams

-- `Folder.locked`, of a folder with a parent; the root is always locked.
mutual
  pub locked : Folder → Bool
  locked (folder info data_streams event_streams children) =
      if children_locked children then true else any_locked data_streams

  pub children_locked : Children → Bool
  children_locked no_child = false
  children_locked (child f children) = if locked f then true else children_locked children

-- `validate_name`; a name that is None is `none`.
pub validate_name : Option Text → Option Text
validate_name none = none
validate_name (some name) =
    if is_empty_text name then none else if has_char b'/' name then none else some name

-- The attributes of a request; a name may be given as None, and so may a description.
pub record Attrs : Type 0 where
  pub name : Option (Option Text)
  pub description : Option (Option Text)

abbrev pub set_name : Option (Option Text) → Info → Option Info
set_name none info = some info
set_name (some name) info = elim (validate_name name) [
  | none ↦ none
  | some valid ↦ some (record info { name = valid })
]

abbrev pub set_description : Option (Option Text) → Info → Info
set_description none info = info
set_description (some description) info = record info { description = description }

-- `update_attributes`
pub update_attributes : Attrs → Folder → Option Folder
update_attributes attrs (folder info data_streams event_streams children) =
    elim (set_name attrs.name info) [
      | none ↦ none
      | some named ↦
          some
            (folder (set_description attrs.description named) data_streams event_streams children)
    ]

-- The folders that `find` makes where the first chunk is not there: the last one, which is returned, and
-- the first one, which is appended to the parent's children.
abbrev pub new_folder : Text → Children → Folder
new_folder name children = folder (record { name = name; description = none }) [] [] children

pub make_folders : Text → List Text → Folder × Folder
make_folders name [] = (new_folder name no_child, new_folder name no_child)
make_folders name (next ∷ chunks) =
    let (last, first) = make_folders next chunks in (last, new_folder name (child first no_child))

abbrev pub has_named : Text → Children → Bool
has_named name no_child = false
has_named name (child f children) = text_eq (name_of f) name || has_named name children

-- What a search gives, with the tree after it; `none` is an exception.
abbrev pub Search : Type 0 → Type 0
Search Tree = Option (Option Folder × Tree)

-- The search in the children of a folder, in the first child, and behind it.
abbrev pub in_parent : (Children → Folder) → Search Children → Search Folder
in_parent parent none = none
in_parent parent (some (found, children)) = some (found, parent children)

abbrev pub in_first : Children → Search Folder → Search Children
in_first children none = none
in_first children (some (found, f)) = some (found, child f children)

abbrev pub in_others : Folder → Search Children → Search Children
in_others f none = none
in_others f (some (found, children)) = some (found, child f children)

-- `find` below a parent, on the chunks of the path: what is found, and the tree after it. The source
-- joins the chunks that are left and splits them again in each call. `none` is the MultipleResultsFound
-- that the query raises where two children have the name.
mutual
  pub find_chunks : Bool → List Text → Folder → Search Folder
  find_chunks create [] f = some (some f, f)
  find_chunks create (name ∷ chunks) (folder info data_streams event_streams children) =
      in_parent (folder info data_streams event_streams) (find_child create name chunks children)

  pub find_child : Bool → Text → List Text → Children → Search Children
  find_child create name chunks no_child =
      let (last, first) = make_folders name chunks in
      if create then some (some last, child first no_child) else some (none, no_child)
  find_child create name chunks (child f children) =
      let here = find_chunks create chunks f in
      let later = find_child create name chunks children in
      if text_eq (name_of f) name
      then (if has_named name children then none else in_first children here)
      else in_others f later

abbrev pub any_empty : List Text → Bool
any_empty [] = false
any_empty (chunk ∷ chunks) = is_empty_text chunk || any_empty chunks

abbrev pub chunks_of : List Text → List Text
chunks_of [] = []
chunks_of (first ∷ chunks) = chunks

abbrev pub starts_with_slash : Text → Bool
starts_with_slash [] = false
starts_with_slash (c ∷ t) = has_char c (b'/' ∷ [])

-- `find`; `none` is a ConfigurationError or a MultipleResultsFound.
pub find : Text → Bool → Folder → Search Folder
find path create root =
    let chunks = chunks_of (split b'/' path) in
    if starts_with_slash path
    then (if text_eq path (b'/' ∷ [])
        then some (some root, root)
        else if any_empty chunks
        then none
        else find_chunks create chunks root)
    else none
