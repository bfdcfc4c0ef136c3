-- ===== src/Folders/Tests.antt =====
-- A root with a folder `a`, in which there is a folder `b` with a data stream `s` and an event stream `e`.
use joule.Base.{◌≡◌, ◌≢◌, refl, true, false, none, some, [], ◌∷◌}
use joule.Base.Text.{Text, codes, text_eq, has_char, split}
use joule.Folders.{
  DataStream, EventStream, data_stream, event_stream, Info, Folder, folder, no_child, child,
  new_folder, find, find_chunks, make_folders, find_stream_by_path, find_stream_by_segments,
  first_named, get_stream_path, locked, contains_streams, update_attributes, validate_name,
  event_type,
}
use joule.Folders.Paths.{
  first, later, first_child, in_folder, in_child, AreDistinct, find_stream_by_path-get_stream_path,
}
use joule.Folders.Creating.{find_again}

abbrev info : Text → Info
info name = record { name = name; description = none }

abbrev s : DataStream
s = record { name = codes "s"; is_configured = true; is_destination = false; is_source = false }

abbrev e : EventStream
e = record { name = codes "e" }

abbrev folder_b : Folder
folder_b = folder (info (codes "b")) (s ∷ []) (e ∷ []) no_child

abbrev folder_a : Folder
folder_a = folder (info (codes "a")) [] [] (child folder_b no_child)

abbrev root : Folder
root = folder (info (codes "root")) [] [] (child folder_a no_child)

finds_events : find_stream_by_path (codes "/a/b/e") (some event_type) root ≡ some (event_stream e)
unfolding find_stream_by_path find_stream_by_segments first_named split text_eq
finds_events = refl

locks : locked folder_a ≡ true
unfolding locked
locks = refl

has_streams : contains_streams root ≡ true
unfolding contains_streams
has_streams = refl

no_slash :
    update_attributes (record { name = some (some (codes "a/b")); description = none }) folder_a
    ≡ none
unfolding update_attributes validate_name has_char
no_slash = refl

find_stream_by_path-get_stream_path_example :
    find_stream_by_path (get_stream_path (codes "b" ∷ codes "a" ∷ []) (event_stream e)) none root
    ≡ some (event_stream e)
unfolding AreDistinct text_eq has_char
find_stream_by_path-get_stream_path_example =
    find_stream_by_path-get_stream_path root (codes "b" ∷ codes "a" ∷ []) (event_stream e)
      (codes "a") (codes "b" ∷ codes "e" ∷ [])
      (tt, (tt, (tt, (tt, (((refl, tt), (tt, tt)), tt), tt)), tt))
      (in_child (info (codes "root")) [] [] (child folder_a no_child) folder_a (codes "b")
        (codes "e" ∷ []) (event_stream e) (first_child folder_a no_child)
        (in_child (info (codes "a")) [] [] (child folder_b no_child) folder_b (codes "e") []
          (event_stream e) (first_child folder_b no_child)
          (in_folder (info (codes "b")) (s ∷ []) (e ∷ []) no_child (event_stream e) (
            later (event_stream e) (data_stream s) (event_stream e ∷ [])
              (first (event_stream e) [])))))
      refl (refl, (refl, (refl, tt)))

-- The tree after `/a/c` has been made in it.
abbrev folder_c : Folder
folder_c = new_folder (codes "c") no_child

abbrev root_with_c : Folder
root_with_c =
    folder (info (codes "root")) [] []
      (child (folder (info (codes "a")) [] [] (child folder_b (child folder_c no_child))) no_child)

find_again_example :
    (some folder_c ≢ none)
    × (find (codes "/a/c") false root_with_c ≡ some (some folder_c, root_with_c))
unfolding find find_chunks make_folders split text_eq has_char
find_again_example = find_again (codes "/a/c") root (some folder_c, root_with_c) refl

-- Two folders of one name.
abbrev twice : Folder
twice =
    folder (record { name = codes "root"; description = none }) [] []
      (child (new_folder (codes "a") no_child) (child (new_folder (codes "a") no_child) no_child))

twice_raises : find (codes "/a/b") true twice ≡ none
unfolding find find_chunks split text_eq has_char
twice_raises = refl
