-- ===== src/FolderController/Given.antt =====
-- The search for a folder, which may make it, in a valid table.
use joule.Base.{
  ℕ, suc, ◌<◌, ◌≡◌, subst, Bool, not, Option, none, some, List, [], ◌∷◌, ◌==◌, if◌then◌else◌, arith,
  Bool-cases, if_ind, inl, inr,
}
use joule.Base.Text.{Text, is_empty_text, codes, split}
use joule.FolderController.Rows.{
  FolderRow, Table, parent_of, get_folder, child_named, add_folder, root_of, root_or_new, root,
  child_or_new, find_chunks, find, has_empty, set_parent,
}
use joule.FolderController.{
  Place, by_path, by_id, unspecified, Found, found, invalid_path, nowhere, look_up, search_result,
}
use joule.FolderController.Acyclic.{Ranks, IsAcyclic}

-- A folder that is there, if one is meant.
abbrev pub IsBelow : ℕ → Option ℕ → Type 0
IsBelow n none = Unit
IsBelow n (some p) = p < n

-- All ids have been given.
abbrev pub AllGiven : ℕ → List FolderRow → Type 0
AllGiven n [] = Unit
AllGiven n (row ∷ rows) = (row.id < n) × IsBelow n row.parent × AllGiven n rows

pub record IsValid (t : Table) : Type 0 where
  pub acyclic : IsAcyclic t.folders
  pub given : AllGiven t.next_id t.folders

pub IsBelow-suc : (n : ℕ) (o : Option ℕ) → IsBelow n o → IsBelow (suc n) o
IsBelow-suc n none h = tt
IsBelow-suc n (some p) h = omega arith

pub AllGiven-suc : (n : ℕ) (rows : List FolderRow) → AllGiven n rows → AllGiven (suc n) rows
AllGiven-suc n [] g = tt
AllGiven-suc n (row ∷ rows) g = (omega arith, IsBelow-suc n row.parent g.1, AllGiven-suc n rows g.2)

pub parent_of-given :
    (n : ℕ) (rows : List FolderRow) (x p : ℕ) → AllGiven n rows → parent_of rows x ≡ some p → p < n
unfolding parent_of
parent_of-given n [] x p g h = cc
parent_of-given n (row ∷ rows) x p g h = elim (Bool-cases (row.id == x)) [
  | inl e ↦
      let up : row.parent ≡ some p = rw e at h in
      let below : IsBelow n (some p) = subst (λ o. IsBelow n o) up g.1 in below
  | inr e ↦ parent_of-given n rows x p g.2 (rw e at h)
]

pub get_folder-given :
    (n : ℕ) (rows : List FolderRow) (x : ℕ) → AllGiven n rows → IsBelow n (get_folder rows x)
unfolding get_folder
get_folder-given n [] x g = tt
get_folder-given n (row ∷ rows) x g = elim (Bool-cases (row.id == x)) [
  | inl e ↦ rw e g.0
  | inr e ↦ rw e (get_folder-given n rows x g.2)
]

pub child_named-given :
    (n : ℕ) (rows : List FolderRow) (x : ℕ) (name : Text)
    → AllGiven n rows
    → IsBelow n (child_named rows x name)
unfolding child_named
child_named-given n [] x name g = tt
child_named-given n (row ∷ rows) x name g = ground (arith, child_named-given n rows x name g.2)

pub root_of-given : (n : ℕ) (rows : List FolderRow) → AllGiven n rows → IsBelow n (root_of rows)
unfolding root_of
root_of-given n [] g = tt
root_of-given n (row ∷ rows) g = ground (arith, root_of-given n rows g.2)

pub set_parent-given :
    (n x d : ℕ) (rows : List FolderRow) → d < n → AllGiven n rows → AllGiven n (set_parent x d rows)
unfolding set_parent
set_parent-given n x d [] h g = tt
set_parent-given n x d (row ∷ rows) h g = (
  g.0,
  if_ind (λ o. IsBelow n o) (row.id == x) (λ _. h) (λ _. g.1),
  set_parent-given n x d rows h g.2,
)

-- The rank of a new folder below `o`, which ranks above its parent.
abbrev pub rank_below : (ℕ → ℕ) → Option ℕ → ℕ
rank_below rank none = 0
rank_below rank (some p) = suc (rank p)

pub add_folder-Ranks :
    (rank : ℕ → ℕ) (name : Text) (o : Option ℕ) (t : Table)
    → Ranks t.folders rank
    → AllGiven t.next_id t.folders
    → IsBelow t.next_id o
    → Ranks
        (add_folder name o t).1.folders
        (λ y. if t.next_id == y then rank_below rank o else rank y)
unfolding add_folder parent_of
add_folder-Ranks rank name o t ranks g below y p h = elim (Bool-cases (t.next_id == y)) [
  | inl e ↦
      let up : o ≡ some p = rw e at h in
      let given : IsBelow t.next_id (some p) = subst (λ q. IsBelow t.next_id q) up below in
      ground (arith, up)
  | inr e ↦
      let up : parent_of t.folders y ≡ some p = rw e at h in
      let given = parent_of-given t.next_id t.folders y p g up in ground (arith, ranks y p up)
]

pub add_folder-IsValid :
    (name : Text) (o : Option ℕ) (t : Table)
    → IsValid t
    → IsBelow t.next_id o
    → IsValid (add_folder name o t).1 × ((add_folder name o t).0 < (add_folder name o t).1.next_id)
unfolding add_folder
add_folder-IsValid name o t v below =
    let (rank, ranks) = v.acyclic in
    (
      record {
        acyclic = (
          λ y. if t.next_id == y then rank_below rank o else rank y,
          add_folder-Ranks rank name o t ranks v.given below,
        );
        given =
            (omega arith, IsBelow-suc t.next_id o below, AllGiven-suc t.next_id t.folders v.given);
      },
      omega arith,
    )

pub root_or_new-IsValid :
    (o : Option ℕ) (t : Table)
    → IsValid t
    → IsBelow t.next_id o
    → IsValid (root_or_new o t).1 × ((root_or_new o t).0 < (root_or_new o t).1.next_id)
unfolding root_or_new
root_or_new-IsValid none t v h = add_folder-IsValid (codes "root") none t v tt
root_or_new-IsValid (some x) t v h = (v, h)

pub root-IsValid : (t : Table) → IsValid t → IsValid (root t).1 × ((root t).0 < (root t).1.next_id)
unfolding root
root-IsValid t v =
    root_or_new-IsValid (root_of t.folders) t v (root_of-given t.next_id t.folders v.given)

-- A search leaves a valid table, and what it finds is in it.
abbrev pub GoodSearch : Option ℕ × Table → Type 0
GoodSearch (o, t) = IsValid t × IsBelow t.next_id o

pub child_or_new-Good :
    (o : Option ℕ) (create : Bool) (name : Text) (parent : ℕ) (t : Table)
    (go_on : ℕ → Table → Option ℕ × Table)
    → IsValid t
    → parent < t.next_id
    → IsBelow t.next_id o
    → ((x : ℕ) (t' : Table) → IsValid t' → x < t'.next_id → GoodSearch (go_on x t'))
    → GoodSearch (child_or_new o create name parent t go_on)
unfolding child_or_new
child_or_new-Good (some x) create name parent t go_on v h below more = more x t v below
child_or_new-Good none create name parent t go_on v h below more =
    let (v', given) = add_folder-IsValid name (some parent) t v h in
    let new = add_folder name (some parent) t in
    if_ind (λ out. GoodSearch out) create (λ _. more new.0 new.1 v' given) (λ _. (v, tt))

pub find_chunks-Good :
    (create : Bool) (chunks : List Text) (parent : ℕ) (t : Table)
    → IsValid t
    → parent < t.next_id
    → GoodSearch (find_chunks create chunks parent t)
unfolding find_chunks
find_chunks-Good create [] parent t v h = (v, h)
find_chunks-Good create (name ∷ chunks) parent t v h =
    child_or_new-Good (child_named t.folders parent name) create name parent t
      (λ x t'. find_chunks create chunks x t') v h
      (child_named-given t.next_id t.folders parent name v.given)
      (λ x t' v' h'. find_chunks-Good create chunks x t' v' h')

-- What is found for a place.
abbrev pub GoodFound : Found → Type 0
GoodFound (found o t) = GoodSearch (o, t)
GoodFound invalid_path = Unit
GoodFound nowhere = Unit

-- The search of a path.
abbrev pub GoodFind : Option (Option ℕ × Table) → Type 0
GoodFind none = Unit
GoodFind (some out) = GoodSearch out

pub find-Good :
    (path : Text) (create : Bool) (t : Table) → IsValid t → GoodFind (find path create t)
unfolding find
find-Good [] create t v = tt
find-Good (c ∷ path) create t v =
    let (v', given) = root-IsValid t v in
    if_ind GoodFind (not (c == b'/')) (λ _. tt)
      (λ _.
        if_ind GoodFind (is_empty_text path) (λ _. (v', given))
          (λ _.
            if_ind GoodFind (has_empty (split b'/' path)) (λ _. tt)
              (λ _. find_chunks-Good create (split b'/' path) (root t).0 (root t).1 v' given)))

pub search_result-Good :
    (out : Option (Option ℕ × Table)) → GoodFind out → GoodFound (search_result out)
search_result-Good none h = tt
search_result-Good (some out) h = h

pub look_up-Good :
    (create : Bool) (p : Place) (t : Table) → IsValid t → GoodFound (look_up create p t)
unfolding look_up
look_up-Good create (by_path path) t v =
    search_result-Good (find path create t) (find-Good path create t v)
look_up-Good create (by_id x) t v = (v, get_folder-given t.next_id t.folders x v.given)
look_up-Good create unspecified t v = tt
