-- ===== src/StreamController/Naming.antt =====
-- Tables in which the names of the streams of a folder differ, and a move in them.
use joule.Base.{
  ℕ, ◌≡◌, refl, Bool, true, false, ◌||◌, ◌&&◌, List, [], ◌∷◌, ◌==◌, if◌then◌else◌, arith,
  Bool-cases, if_ind, subst, inl, inr,
}
use joule.Base.Text.{Text, text_eq}
use joule.StreamController.{
  StreamEntry, is_named, name_in_folder, is_stream, change_stream, accepted, name_exists,
  move_stream,
}

abbrev pub anyone : StreamEntry → Bool
anyone row = true

-- No two streams of a folder have the same name.
abbrev pub NamesDiffer : List StreamEntry → Type 0
NamesDiffer [] = Unit
NamesDiffer (row ∷ rows) =
    (name_in_folder anyone rows row.folder_id row.name ≡ false) × NamesDiffer rows

-- The data stream `x`, if it is there, has the name, and there is one row of it.
abbrev pub IsAbsent : ℕ → List StreamEntry → Type 0
IsAbsent x [] = Unit
IsAbsent x (row ∷ rows) = (is_stream x row ≡ false) × IsAbsent x rows

abbrev pub IsNamed : ℕ → Text → List StreamEntry → Type 0
IsNamed x name [] = Unit
IsNamed x name (row ∷ rows) =
    if is_stream x row then ((row.name ≡ name) × IsAbsent x rows) else IsNamed x name rows

change_stream-absent :
    (x : ℕ) (f : StreamEntry → StreamEntry) (rows : List StreamEntry)
    → IsAbsent x rows
    → change_stream x f rows ≡ rows
unfolding change_stream
change_stream-absent x f [] a = refl
change_stream-absent x f (row ∷ rows) (other, a) = rw (other, change_stream-absent x f rows a) refl

pub or-false_left : (a b : Bool) → (a || b) ≡ false → a ≡ false
or-false_left true b h = cc
or-false_left false b h = refl

text_eq_sym : (s t : Text) → text_eq s t ≡ text_eq t s
unfolding text_eq
text_eq_sym [] [] = refl
text_eq_sym [] (c ∷ t) = refl
text_eq_sym (c ∷ s) [] = refl
text_eq_sym (c ∷ s) (e ∷ t) = ground (arith, text_eq_sym s t)

pub or-false_right : (a b : Bool) → (a || b) ≡ false → b ≡ false
or-false_right true b h = cc
or-false_right false b h = h

module _ (x d : ℕ) (name : Text) where
  abbrev moved_to : StreamEntry → StreamEntry
  moved_to row = record row { folder_id = d }

  -- Another stream does not meet the one that moves.
  moved-name_in_folder :
      (folder : ℕ) (other : Text) (rows : List StreamEntry)
      → IsNamed x name rows
      → ((d == folder) && text_eq name other) ≡ false
      → name_in_folder anyone rows folder other ≡ false
      → name_in_folder anyone (change_stream x moved_to rows) folder other ≡ false
  unfolding name_in_folder change_stream
  moved-name_in_folder folder other [] n apart h = refl
  moved-name_in_folder folder other (row ∷ rows) n apart h =
      let this : is_named anyone row folder other ≡ false = or-false_left _ _ h in
      let later : name_in_folder anyone rows folder other ≡ false =
        or-false_right (is_named anyone row folder other) _ h in
      let rest = change_stream x moved_to rows in
      if_ind
        (λ (r : StreamEntry).
          (is_named anyone r folder other || name_in_folder anyone rest folder other) ≡ false)
        (is_stream x row)
        (λ e.
          let named : (row.name ≡ name) × IsAbsent x rows = rw e at n in
          rw (change_stream-absent x moved_to rows named.1, named.0) (ground arith))
        (λ e.
          let others : IsNamed x name rows = rw e at n in
          let kept = moved-name_in_folder folder other rows others apart later in
          ground (arith, kept))

  -- A stream that does not move is not in the destination under the name.
  apart :
      (row : StreamEntry) (rows : List StreamEntry)
      → name_in_folder anyone (row ∷ rows) d name ≡ false
      → ((d == row.folder_id) && text_eq name row.name) ≡ false
  unfolding name_in_folder
  apart row rows free =
      let this : is_named anyone row d name ≡ false = or-false_left _ _ free in
      ground (arith, this, text_eq_sym name row.name)

  -- Every other stream of the destination has another name.
  moved-NamesDiffer :
      (rows : List StreamEntry)
      → IsNamed x name rows
      → name_in_folder anyone rows d name ≡ false
      → NamesDiffer rows
      → NamesDiffer (change_stream x moved_to rows)
  unfolding change_stream name_in_folder
  moved-NamesDiffer [] n free names = tt
  moved-NamesDiffer (row ∷ rows) n free names =
      let others_free : name_in_folder anyone rows d name ≡ false =
        or-false_right (is_named anyone row d name) _ free in
      elim (Bool-cases (is_stream x row)) [
        | inl e ↦
            let named : (row.name ≡ name) × IsAbsent x rows = rw e at n in
            rw (e, change_stream-absent x moved_to rows named.1) (rw named.0 others_free, names.1)
        | inr e ↦
            let later : IsNamed x name rows = rw e at n in
            rw e (
              moved-name_in_folder row.folder_id row.name rows later (apart row rows free) names.0,
              moved-NamesDiffer rows later others_free names.1,
            )
      ]

  -- Where there is one row of a data stream, and the names of the streams of each folder differ, they do so
  -- after a move of it that is accepted.
  pub move_stream-NamesDiffer :
      (rows rows' : List StreamEntry)
      → IsNamed x name rows
      → NamesDiffer rows
      → move_stream x name d rows ≡ accepted rows'
      → NamesDiffer rows'
  unfolding move_stream
  move_stream-NamesDiffer rows rows' n names h =
      elim (Bool-cases (name_in_folder anyone rows d name)) [
        | inl taken ↦ let bad : name_exists ≡ accepted rows' = rw taken at h in absurd (cc)
        | inr free ↦
            let same : accepted (change_stream x moved_to rows) ≡ accepted rows' = rw free at h in
            subst NamesDiffer (cc) (moved-NamesDiffer rows n free names)
      ]
