-- ===== src/StreamController/Session.antt =====
-- Sequences of requests to create, move and delete data streams.
use joule.Base.{
  ℕ, suc, ◌≡◌, ◌<◌, refl, Bool, true, false, none, some, List, [], ◌∷◌, arith, if_ind, Bool-cases,
  inl, inr, subst, ◌⊎◌,
}
use joule.Base.Text.{Text}
use joule.StreamController.{
  StreamEntry, is_named, name_in_folder, is_stream, change_stream, accepted, move_stream,
}
use joule.StreamController.Requests.{
  StreamTable, Request, creation, moving, deletion, repeats, create_stream, get_stream,
  remove_stream, with_stream, committed, handle_request, handle_requests,
}
use joule.StreamController.Naming.{
  NamesDiffer, IsAbsent, IsNamed, anyone, move_stream-NamesDiffer, or-false_left, or-false_right,
}

-- There is one row of each data stream, and its id has been given.
abbrev pub IdsDiffer : ℕ → List StreamEntry → Type 0
IdsDiffer n [] = Unit
IdsDiffer n (row ∷ rows) =
    ((row.is_event ≡ true) ⊎ ((row.id < n) × IsAbsent row.id rows)) × IdsDiffer n rows

-- The names of the streams of each folder differ, and so do the ids of the data streams.
pub record IsConsistent (t : StreamTable) : Type 0 where
  pub names : NamesDiffer t.rows
  pub ids : IdsDiffer t.next_id t.rows

abbrev in_folder : ℕ → StreamEntry → StreamEntry
in_folder d row = record row { folder_id = d }

-- The next id is that of no data stream.
IsAbsent-next_id :
    (n m : ℕ) (rows : List StreamEntry) → m < suc n → IdsDiffer m rows → IsAbsent n rows
IsAbsent-next_id n m [] h ids = tt
IsAbsent-next_id n m (row ∷ rows) h (inl event, ids) =
    (ground (arith, event), IsAbsent-next_id n m rows h ids)
IsAbsent-next_id n m (row ∷ rows) h (inr (below, a), ids) =
    (ground (arith, below, h), IsAbsent-next_id n m rows h ids)

IdsDiffer-suc : (n : ℕ) (rows : List StreamEntry) → IdsDiffer n rows → IdsDiffer (suc n) rows
IdsDiffer-suc n [] ids = tt
IdsDiffer-suc n (row ∷ rows) (inl event, ids) = (inl event, IdsDiffer-suc n rows ids)
IdsDiffer-suc n (row ∷ rows) (inr (below, a), ids) =
    (inr (omega (arith, below), a), IdsDiffer-suc n rows ids)

module _ (x : ℕ) where
  get_stream-IsNamed :
      (n : ℕ) (name : Text) (rows : List StreamEntry)
      → IdsDiffer n rows
      → get_stream x rows ≡ some name
      → IsNamed x name rows
  unfolding get_stream
  get_stream-IsNamed n name [] ids h = tt
  get_stream-IsNamed n name (row ∷ rows) ids h = elim (Bool-cases (is_stream x row)) [
    | inl e ↦
        let this : some row.name ≡ some name = rw e at h in
        let here : IsAbsent row.id rows = elim ids.0 [
          | inl event ↦ absurd (ground (arith, event, e))
          | inr known ↦ known.1
        ] in
        rw e (cc, subst (λ y. IsAbsent y rows) (ground (arith, e)) here)
    | inr e ↦
        let later : get_stream x rows ≡ some name = rw e at h in
        rw e (get_stream-IsNamed n name rows ids.1 later)
  ]

  IsAbsent-moved :
      (d y : ℕ) (rows : List StreamEntry)
      → IsAbsent y rows
      → IsAbsent y (change_stream x (in_folder d) rows)
  unfolding change_stream
  IsAbsent-moved d y [] a = tt
  IsAbsent-moved d y (row ∷ rows) (other, a) = (
    if_ind (λ (r : StreamEntry). is_stream y r ≡ false) (is_stream x row) (λ e. other) (λ e. other),
    IsAbsent-moved d y rows a,
  )

  IdsDiffer-moved :
      (d n : ℕ) (rows : List StreamEntry)
      → IdsDiffer n rows
      → IdsDiffer n (change_stream x (in_folder d) rows)
  unfolding change_stream
  IdsDiffer-moved d n [] ids = tt
  IdsDiffer-moved d n (row ∷ rows) (this, ids) =
      let rest = change_stream x (in_folder d) rows in
      let kept : (row.is_event ≡ true) ⊎ ((row.id < n) × IsAbsent row.id rest) = elim this [
        | inl event ↦ inl event
        | inr (below, a) ↦ inr (below, IsAbsent-moved d row.id rows a)
      ] in
      (
        if_ind (λ (r : StreamEntry). (r.is_event ≡ true) ⊎ ((r.id < n) × IsAbsent r.id rest))
            (is_stream x row) (λ e. kept) (λ e. kept),
        IdsDiffer-moved d n rows ids,
      )

  IsAbsent-removed :
      (y : ℕ) (rows : List StreamEntry) → IsAbsent y rows → IsAbsent y (remove_stream x rows)
  unfolding remove_stream
  IsAbsent-removed y [] a = tt
  IsAbsent-removed y (row ∷ rows) (other, a) =
      let rest = IsAbsent-removed y rows a in
      if_ind (IsAbsent y) (is_stream x row) (λ e. rest) (λ e. (other, rest))

  IdsDiffer-removed :
      (n : ℕ) (rows : List StreamEntry) → IdsDiffer n rows → IdsDiffer n (remove_stream x rows)
  unfolding remove_stream
  IdsDiffer-removed n [] ids = tt
  IdsDiffer-removed n (row ∷ rows) (this, ids) =
      let rest = IdsDiffer-removed n rows ids in
      if_ind (IdsDiffer n) (is_stream x row) (λ e. rest)
        (λ e. (
          elim this [
            | inl event ↦ inl event
            | inr (below, a) ↦ inr (below, IsAbsent-removed row.id rows a)
          ],
          rest,
        ))

  name_in_folder-removed :
      (folder : ℕ) (name : Text) (rows : List StreamEntry)
      → name_in_folder anyone rows folder name ≡ false
      → name_in_folder anyone (remove_stream x rows) folder name ≡ false
  unfolding remove_stream name_in_folder
  name_in_folder-removed folder name [] h = refl
  name_in_folder-removed folder name (row ∷ rows) h =
      let this : is_named anyone row folder name ≡ false = or-false_left _ _ h in
      let later : name_in_folder anyone rows folder name ≡ false =
        or-false_right (is_named anyone row folder name) _ h in
      let rest = name_in_folder-removed folder name rows later in
      if_ind (λ rs. name_in_folder anyone rs folder name ≡ false) (is_stream x row) (λ e. rest)
        (λ e. rw this rest)

  NamesDiffer-removed :
      (rows : List StreamEntry) → NamesDiffer rows → NamesDiffer (remove_stream x rows)
  unfolding remove_stream
  NamesDiffer-removed [] names = tt
  NamesDiffer-removed (row ∷ rows) (this, names) =
      let rest = NamesDiffer-removed rows names in
      if_ind NamesDiffer (is_stream x row) (λ e. rest)
        (λ e. (name_in_folder-removed row.folder_id row.name rows this, rest))

create_stream-IsConsistent :
    (elements : List Text) (name : Text) (d : ℕ) (t : StreamTable)
    → IsConsistent t
    → IsConsistent (committed (create_stream elements name d t) (suc t.next_id) t)
unfolding create_stream
create_stream-IsConsistent [] name d t c = c
create_stream-IsConsistent (s ∷ elements) name d t c = elim (Bool-cases (repeats (s ∷ elements))) [
  | inl repeated ↦ rw repeated c
  | inr differ ↦ elim (Bool-cases (name_in_folder anyone t.rows d name)) [
    | inl taken ↦ rw (differ, taken) c
    | inr free ↦
        let absent = IsAbsent-next_id t.next_id t.next_id t.rows (omega arith) c.ids in
        rw (differ, free)
          record {
            names = (free, c.names);
            ids = (inr (omega arith, absent), IdsDiffer-suc t.next_id t.rows c.ids);
          }
  ]
]

move_stream-IsConsistent :
    (x d : ℕ) (name : Text) (t : StreamTable)
    → IsConsistent t
    → get_stream x t.rows ≡ some name
    → IsConsistent (committed (move_stream x name d t.rows) t.next_id t)
unfolding move_stream
move_stream-IsConsistent x d name t c h = elim (Bool-cases (name_in_folder anyone t.rows d name)) [
  | inl taken ↦ rw taken c
  | inr free ↦
      let moved = change_stream x (in_folder d) t.rows in
      let done : move_stream x name d t.rows ≡ accepted moved = rw free refl in
      let named = get_stream-IsNamed x t.next_id name t.rows c.ids h in
      rw free record {
        names = move_stream-NamesDiffer x d name t.rows moved named c.names done;
        ids = IdsDiffer-moved x d t.next_id t.rows c.ids;
      }
]

module _ (locked : Bool → List StreamEntry → ℕ → Bool) where
  handle_request-IsConsistent :
      (r : Request) (t : StreamTable) → IsConsistent t → IsConsistent (handle_request locked r t)
  unfolding handle_request
  handle_request-IsConsistent (creation elements name d) t c =
      create_stream-IsConsistent elements name d t c
  handle_request-IsConsistent (moving x d) t c =
      elim (get_stream x t.rows)
          as (λ o.
            get_stream x t.rows ≡ o
            → IsConsistent (
                committed
                  (with_stream (locked false t.rows x) o (λ name. move_stream x name d t.rows))
                  t.next_id t)) [
                    | none ↦ λ e. c
                    | some name ↦ λ e. elim (Bool-cases (locked false t.rows x)) [
                      | inl held ↦ rw held c
                      | inr free ↦ rw free (move_stream-IsConsistent x d name t c e)
                    ]
                  ]
        refl
  handle_request-IsConsistent (deletion x) t c =
      elim (get_stream x t.rows)
        as (λ o. IsConsistent (
          committed
            (with_stream (locked true t.rows x) o (λ name. accepted (remove_stream x t.rows)))
            t.next_id t)) [
              | none ↦ c
              | some name ↦ elim (Bool-cases (locked true t.rows x)) [
                | inl held ↦ rw held c
                | inr free ↦ rw free record {
                  names = NamesDiffer-removed x t.rows c.names;
                  ids = IdsDiffer-removed x t.next_id t.rows c.ids;
                }
              ]
            ]

  -- Where the names of the streams of each folder differ, and each data stream has one row and an id that
  -- has been given, the same is true after any sequence of requests to create, move or delete data
  -- streams, whichever of them are refused.
  pub handle_requests-IsConsistent :
      (rs : List Request) (t : StreamTable)
      → IsConsistent t
      → IsConsistent (handle_requests locked rs t)
  unfolding handle_requests
  handle_requests-IsConsistent [] t c = c
  handle_requests-IsConsistent (r ∷ rs) t c =
      handle_requests-IsConsistent rs (handle_request locked r t)
        (handle_request-IsConsistent r t c)
