-- ===== src/Folders/Paths.antt =====
-- The path of a stream, and the search by a path.
use joule.Base.{
  ◌≡◌, refl, ap, sym, ◌∙◌, false, none, some, List, [], ◌∷◌, ◌++◌, map, Bool-cases, inl, inr,
}
use joule.Base.Text.{Text, text_eq, text_eq_refl, text_eq_eq, split, join, Lacks, split-join}
use joule.Folders.{
  DataStream, EventStream, Stream, data_stream, event_stream, stream_name, Info, Folder, folder,
  Children, no_child, child, name_of, first_named, or_else, find_stream_by_segments,
  find_in_children, find_stream_at, behind_first, find_stream_by_path, get_path, get_stream_path,
}

-- A stream of a list, and a child of a folder.
pub data IsIn : Stream → List Stream → Type 0 where
  first : (s : Stream) (l : List Stream) → IsIn s (s ∷ l)
  later : (s t : Stream) (l : List Stream) → IsIn s l → IsIn s (t ∷ l)

pub data IsChild : Folder → Children → Type 0 where
  first_child : (f : Folder) (cs : Children) → IsChild f (child f cs)
  later_child : (f g : Folder) (cs : Children) → IsChild f cs → IsChild f (child g cs)

abbrev pub streams_of : List DataStream → List EventStream → List Stream
streams_of ds es = map data_stream ds ++ map event_stream es

-- A stream is below a folder, at the segments of a path.
pub data IsAt : Folder → Text → List Text → Stream → Type 0 where
  in_folder :
      (info : Info) (ds : List DataStream) (es : List EventStream) (cs : Children) (s : Stream)
      → IsIn s (streams_of ds es)
      → IsAt (folder info ds es cs) (stream_name s) [] s
  in_child :
      (info : Info) (ds : List DataStream) (es : List EventStream) (cs : Children) (f : Folder)
      (next : Text) (rest : List Text) (s : Stream)
      → IsChild f cs
      → IsAt f next rest s
      → IsAt (folder info ds es cs) (name_of f) (next ∷ rest) s

-- No stream, or no child, of a list has the name.
abbrev pub NoStream : Text → List Stream → Type 0
NoStream name [] = Unit
NoStream name (s ∷ l) = (text_eq (stream_name s) name ≡ false) × NoStream name l

abbrev pub NoChild : Text → Children → Type 0
NoChild name no_child = Unit
NoChild name (child f cs) = (text_eq (name_of f) name ≡ false) × NoChild name cs

abbrev pub DistinctStreams : List Stream → Type 0
DistinctStreams [] = Unit
DistinctStreams (s ∷ l) = NoStream (stream_name s) l × DistinctStreams l

-- No two streams of a folder, and no two children, have the same name, anywhere in the tree.
unfoldable mutual
  pub AreDistinct : Folder → Type 0
  AreDistinct (folder info ds es cs) = DistinctStreams (streams_of ds es) × AreDistinctChildren cs

  pub AreDistinctChildren : Children → Type 0
  AreDistinctChildren no_child = Unit
  AreDistinctChildren (child f cs) = NoChild (name_of f) cs × AreDistinct f × AreDistinctChildren cs

first_named-append :
    (name : Text) (l m : List Stream)
    → first_named name (l ++ m) ≡ or_else (first_named name l) (first_named name m)
unfolding first_named
first_named-append name [] m = refl
first_named-append name (s ∷ l) m =
    let rest = first_named-append name l m in
    elim (Bool-cases (text_eq (stream_name s) name)) [
      | inl same ↦ simp same refl
      | inr differ ↦ simp differ rest
    ]

not_first :
    (s t : Stream) (l : List Stream)
    → IsIn s l
    → NoStream (stream_name t) l
    → text_eq (stream_name s) (stream_name t) ≡ false
not_first s t _ (first _ l) h = h.0
not_first s t _ (later _ u l i) h = not_first s t l i h.1

text_eq_sym : (a b : Text) → text_eq a b ≡ false → text_eq b a ≡ false
text_eq_sym a b h = elim (Bool-cases (text_eq b a)) [
  | inl same ↦ let e = text_eq_eq b a same in let r = text_eq_refl a in absurd cc
  | inr differ ↦ differ
]

first_named-IsIn :
    (s : Stream) (l : List Stream)
    → IsIn s l
    → DistinctStreams l
    → first_named (stream_name s) l ≡ some s
unfolding first_named
first_named-IsIn s _ (first _ l) h = simp (text_eq_refl (stream_name s)) refl
first_named-IsIn s _ (later _ t l i) h =
    simp (text_eq_sym (stream_name s) (stream_name t) (not_first s t l i h.0))
      (first_named-IsIn s l i h.1)

not_first_child :
    (f g : Folder) (cs : Children)
    → IsChild f cs
    → NoChild (name_of g) cs
    → text_eq (name_of g) (name_of f) ≡ false
not_first_child f g _ (first_child _ cs) h = text_eq_sym (name_of f) (name_of g) h.0
not_first_child f g _ (later_child _ k cs i) h = not_first_child f g cs i h.1

child-AreDistinct :
    (f : Folder) (cs : Children) → IsChild f cs → AreDistinctChildren cs → AreDistinct f
unfolding AreDistinct
child-AreDistinct f _ (first_child _ cs) h = h.1
child-AreDistinct f _ (later_child _ g cs i) h = child-AreDistinct f cs i h.2

find_in_children-IsChild :
    (f : Folder) (next : Text) (rest : List Text) (cs : Children)
    → IsChild f cs
    → AreDistinctChildren cs
    → find_in_children (name_of f) next rest cs ≡ find_stream_by_segments next rest f
unfolding find_stream_by_segments AreDistinct
find_in_children-IsChild f next rest _ (first_child _ cs) h = simp (text_eq_refl (name_of f)) refl
find_in_children-IsChild f next rest _ (later_child _ g cs i) h =
    simp (not_first_child f g cs i h.0) (find_in_children-IsChild f next rest cs i h.2)

find_stream_by_segments-IsAt :
    (f : Folder) (first_segment : Text) (rest : List Text) (s : Stream)
    → IsAt f first_segment rest s
    → AreDistinct f
    → find_stream_by_segments first_segment rest f ≡ some s
unfolding find_stream_by_segments AreDistinct
find_stream_by_segments-IsAt _ _ _ s (in_folder info ds es cs _ i) h =
    sym (first_named-append (stream_name s) (map data_stream ds) (map event_stream es))
    ∙ first_named-IsIn s (streams_of ds es) i h.0
find_stream_by_segments-IsAt _ _ _ s (in_child info ds es cs f next rest _ c i) h =
    find_in_children-IsChild f next rest cs c h.1
    ∙ find_stream_by_segments-IsAt f next rest s i (child-AreDistinct f cs c h.1)

-- The segments from the root, of the parents from the nearest.
abbrev pub segments_of : List Text → List Text → List Text
segments_of [] segments = segments
segments_of (name ∷ parents) segments = segments_of parents (name ∷ segments)

get_path-join :
    (parents : List Text) (first_segment : Text) (segments : List Text)
    → get_path parents (join b'/' (first_segment ∷ segments))
      ≡ b'/' ∷ join b'/' (segments_of parents (first_segment ∷ segments))
unfolding get_path join
get_path-join [] first_segment segments = refl
get_path-join (name ∷ parents) first_segment segments =
    get_path-join parents name (first_segment ∷ segments)

-- In a tree where no two streams of a folder and no two children have the same name, and no segment of a
-- path has a slash, the path that get_stream_path makes of a stream, from the names of the folders above it,
-- leads find_stream_by_path to this stream.
pub find_stream_by_path-get_stream_path :
    (root : Folder) (parents : List Text) (s : Stream) (first_segment : Text) (rest : List Text)
    → AreDistinct root
    → IsAt root first_segment rest s
    → segments_of parents (stream_name s ∷ []) ≡ first_segment ∷ rest
    → Lacks b'/' (first_segment ∷ rest)
    → find_stream_by_path (get_stream_path parents s) none root ≡ some s
unfolding find_stream_by_path get_stream_path join
find_stream_by_path-get_stream_path root parents s first_segment rest distinct at segments plain =
    let path = get_path-join parents (stream_name s) [] ∙ ap (λ l. b'/' ∷ join b'/' l) segments in
    ap (λ p. find_stream_at (split b'/' (behind_first p)) root) path
    ∙ ap (λ l. find_stream_at l root) (split-join b'/' first_segment rest plain)
    ∙ find_stream_by_segments-IsAt root first_segment rest s at distinct
