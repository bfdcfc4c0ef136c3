-- ===== src/Folders/Creating.antt =====
-- `find` where it creates folders.
use joule.Base.{
  ◌≡◌, ◌≢◌, refl, ap, sym, subst, true, false, Option, none, some, List, [], ◌∷◌, Bool-cases, inl,
  inr,
}
use mathlib.Core.Option.{some-ne-none, some-injective}
use joule.Base.Text.{Text, text_eq, text_eq_refl, split}
use joule.Folders.{
  Folder, folder, Children, no_child, child, name_of, make_folders, find_chunks, find_child, find,
  has_named, Search, in_parent, in_first, in_others, chunks_of, any_empty, starts_with_slash,
}

name_of-make_folders :
    (name : Text) (chunks : List Text) → name_of (make_folders name chunks).1 ≡ name
unfolding make_folders
name_of-make_folders name [] = refl
name_of-make_folders name (next ∷ chunks) = refl

-- The folders that were made are found.
made_found :
    (name : Text) (chunks : List Text)
    → find_chunks false chunks (make_folders name chunks).1
      ≡ some (some (make_folders name chunks).0, (make_folders name chunks).1)
unfolding make_folders find_chunks
made_found name [] = refl
made_found name (next ∷ chunks) =
    let there = name_of-make_folders next chunks in
    let same = text_eq_refl next in
    let rest = made_found next chunks in simp (there, same, rest) refl

child_found :
    (name : Text) (chunks : List Text)
    → find_child false name chunks (child (make_folders name chunks).1 no_child)
      ≡ some (some (make_folders name chunks).0, child (make_folders name chunks).1 no_child)
unfolding find_chunks
child_found name chunks =
    simp (name_of-make_folders name chunks, text_eq_refl name, made_found name chunks) refl

-- A search that does not raise, from the one inside it.
in_parent-some :
    (parent : Children → Folder) (inner : Search Children) (out : Option Folder × Folder)
    → in_parent parent inner ≡ some out
    → (cs : Children) × (inner ≡ some (out.0, cs)) × (out.1 ≡ parent cs)
in_parent-some parent none out h = absurd cc
in_parent-some parent (some (found, cs)) out h =
    let same = some-injective _ _ h in
    (
      cs,
      ap (λ (o : Option Folder × Folder). some (o.0, cs)) same,
      ap (λ (o : Option Folder × Folder). o.1) (sym same),
    )

in_first-some :
    (children : Children) (inner : Search Folder) (out : Option Folder × Children)
    → in_first children inner ≡ some out
    → (f : Folder) × (inner ≡ some (out.0, f)) × (out.1 ≡ child f children)
in_first-some children none out h = absurd cc
in_first-some children (some (found, f)) out h =
    let same = some-injective _ _ h in
    (
      f,
      ap (λ (o : Option Folder × Children). some (o.0, f)) same,
      ap (λ (o : Option Folder × Children). o.1) (sym same),
    )

in_others-some :
    (f : Folder) (inner : Search Children) (out : Option Folder × Children)
    → in_others f inner ≡ some out
    → (cs : Children) × (inner ≡ some (out.0, cs)) × (out.1 ≡ child f cs)
in_others-some f none out h = absurd cc
in_others-some f (some (found, cs)) out h =
    let same = some-injective _ _ h in
    (
      cs,
      ap (λ (o : Option Folder × Children). some (o.0, cs)) same,
      ap (λ (o : Option Folder × Children). o.1) (sym same),
    )

-- A search that creates gives a folder, keeps the name of the parent, and is repeated by one that does not
-- create.
abbrev Repeats : List Text → Folder → Option Folder × Folder → Type 0
Repeats chunks f out =
    (out.0 ≢ none) × (find_chunks false chunks out.1 ≡ some out) × (name_of out.1 ≡ name_of f)

abbrev RepeatsBelow : Text → List Text → Option Folder × Children → Type 0
RepeatsBelow name chunks out = (out.0 ≢ none) × (find_child false name chunks out.1 ≡ some out)

mutual
  unfolding find_chunks

  find_chunks-Repeats :
      (chunks : List Text) (f : Folder) (out : Option Folder × Folder)
      → find_chunks true chunks f ≡ some out
      → Repeats chunks f out
  find_chunks-Repeats [] f out h =
      subst (Repeats [] f) (some-injective _ _ h) (some-ne-none f, refl, refl)
  find_chunks-Repeats (name ∷ chunks) (folder info ds es children) (found, after) h =
      let (cs, inner, same) =
        in_parent-some (folder info ds es) (find_child true name chunks children) (found, after)
          h in
      let (there, below) = find_child-RepeatsBelow name chunks children (found, cs) inner in
      subst (λ t. Repeats (name ∷ chunks) (folder info ds es children) (found, t)) (sym same)
        (there, ap (in_parent (folder info ds es)) below, refl)

  find_child-RepeatsBelow :
      (name : Text) (chunks : List Text) (children : Children) (out : Option Folder × Children)
      → find_child true name chunks children ≡ some out
      → RepeatsBelow name chunks out
  find_child-RepeatsBelow name chunks no_child out h =
      subst (RepeatsBelow name chunks) (some-injective _ _ h)
        (some-ne-none (make_folders name chunks).0, child_found name chunks)
  find_child-RepeatsBelow name chunks (child f cs) (found, after) h =
      elim (Bool-cases (text_eq (name_of f) name)) [
        | inl same ↦ elim (Bool-cases (has_named name cs)) [
          | inl twice ↦ absurd (some-ne-none (found, after) (sym (simp (same, twice) at h)))
          | inr once ↦
              let (f', inner, e) =
                in_first-some cs (find_chunks true chunks f) (found, after)
                  (simp (same, once) at h) in
              let (there, here, kept) = find_chunks-Repeats chunks f (found, f') inner in
              subst (λ t. RepeatsBelow name chunks (found, t)) (sym e)
                (there, simp (kept, same, once, here) refl)
        ]
        | inr differ ↦
            let (cs', inner, e) =
              in_others-some f (find_child true name chunks cs) (found, after) (simp differ at h) in
            let (there, later) = find_child-RepeatsBelow name chunks cs (found, cs') inner in
            subst (λ t. RepeatsBelow name chunks (found, t)) (sym e)
              (there, simp (differ, later) refl)
      ]

-- What `find` gives and leaves where it creates: it is given and left again where it does not.
abbrev Stays : Text → Option Folder → Folder → Type 0
Stays path found root = (found ≢ none) × (find path false root ≡ some (found, root))

chunks-Stays :
    (path : Text) (root : Folder) (out : Option Folder × Folder)
    → starts_with_slash path ≡ true
    → text_eq path (b'/' ∷ []) ≡ false
    → any_empty (chunks_of (split b'/' path)) ≡ false
    → find_chunks true (chunks_of (split b'/' path)) root ≡ some out
    → Stays path out.0 out.1
unfolding find
chunks-Stays path root out slash deeper full h =
    let (there, again, kept) = find_chunks-Repeats (chunks_of (split b'/' path)) root out h in
    (there, simp (slash, deeper, full) again)

root-Stays :
    (path : Text) (root : Folder)
    → starts_with_slash path ≡ true
    → text_eq path (b'/' ∷ []) ≡ true
    → Stays path (some root) root
unfolding find
root-Stays path root slash here = (some-ne-none root, simp (slash, here) refl)

-- Where `find` is to create what is missing and raises no exception, it gives a folder, and if it is
-- called again on the tree that it leaves, without creating anything, it gives the same folder and
-- leaves the tree as it is.
pub find_again :
    (path : Text) (root : Folder) (out : Option Folder × Folder)
    → find path true root ≡ some out
    → (out.0 ≢ none) × (find path false out.1 ≡ some out)
unfolding find
find_again path root out e =
    let chunks = chunks_of (split b'/' path) in
    elim (Bool-cases (starts_with_slash path)) [
      | inl slash ↦ elim (Bool-cases (text_eq path (b'/' ∷ []))) [
        | inl here ↦
            let same = some-injective _ _ (simp (slash, here) at e) in
            subst (λ (o : Option Folder × Folder). Stays path o.0 o.1) same
              (root-Stays path root slash here)
        | inr deeper ↦ elim (Bool-cases (any_empty chunks)) [
          | inl hollow ↦ absurd (some-ne-none out (sym (simp (slash, deeper, hollow) at e)))
          | inr full ↦
              chunks-Stays path root out slash deeper full (simp (slash, deeper, full) at e)
        ]
      ]
      | inr no_slash ↦ absurd (some-ne-none out (sym (simp no_slash at e)))
    ]
