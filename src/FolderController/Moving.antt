-- ===== src/FolderController/Moving.antt =====
-- What a request to move a folder leaves behind.
use joule.Base.{
  ℕ, ◌≤◌, ◌<◌, ◌≡◌, refl, subst, ap, ◌∙◌, ◌⊎◌, Bool, true, false, not, Option, none, some, ◌==◌,
  if◌then◌else◌, arith, Bool-cases, if_ind, inl, inr, Option-cases,
}
use joule.FolderController.Rows.{Table, parent_of, set_parent, has_child_named, name_of}
use joule.FolderController.{
  Place, MoveRequest, Response, Database, Handled, Found, found, moved, not_json, no_source,
  not_found, folder_is_locked, destination_error, no_destination, name_taken, parent_in_child,
  unhandled, unless_circular, invalid_path, nowhere, look_up, meets, place_in, to_destination,
  from_source, move,
}
use joule.FolderController.Acyclic.{parent_of-set_parent, meets-total, new_rank, Ranks-new_rank}
use joule.FolderController.Given.{IsValid, set_parent-given, GoodFound, look_up-Good}

-- A folder is its own parent.
abbrev pub HasOwnParent : Table → Type 0
HasOwnParent t = (x : ℕ) × (parent_of t.folders x ≡ some x)

abbrev pub Good : Response × Table → Type 0
Good (r, t) = IsValid t ⊎ ((r ≡ moved) × HasOwnParent t)

-- With enough fuel there is a response, and the table after it is good.
abbrev pub Handles : (ℕ → Handled) → Type 0
Handles h =
    (enough : ℕ) × ((fuel : ℕ)
      → enough ≤ fuel
      → (out : Response × Table) × (h fuel ≡ some out) × Good out)

answers : (out : Response × Table) → Good out → Handles (λ fuel. some out)
answers out good = (0, λ fuel h. (out, refl, good))

module _ (t : Table) (v : IsValid t) (x d : ℕ) (given : d < t.next_id) where
  placed : Table
  placed = record t { folders = set_parent x d t.folders }

  -- The folder is placed in another that is not below it.
  placed-IsValid :
      (fuel : ℕ)
      → (d == x) ≡ false
      → meets fuel t.folders x (parent_of t.folders d) ≡ some false
      → IsValid placed
  unfolding placed
  placed-IsValid fuel apart clear =
      let (rank, ranks) = v.acyclic in
      record {
        acyclic = (
          new_rank t.folders rank ranks x d fuel apart clear,
          Ranks-new_rank t.folders rank ranks x d fuel apart clear,
        );
        given = set_parent-given t.next_id x d t.folders given v.given;
      }

  -- The folder is not there.
  unplaced-IsValid : parent_of (set_parent x d t.folders) x ≡ none → IsValid placed
  unfolding placed
  unplaced-IsValid missing =
      let (rank, ranks) = v.acyclic in
      record {
        acyclic = (
          rank,
          λ y p h. elim (parent_of-set_parent x d t.folders y p h) [
            | inl (same, here) ↦
                let up : parent_of (set_parent x d t.folders) x ≡ some p =
                  subst (λ z. parent_of (set_parent x d t.folders) z ≡ some p) same h in
                absurd (cc)
            | inr (other, up) ↦ ranks y p up
          ],
        );
        given = set_parent-given t.next_id x d t.folders given v.given;
      }

  own_parent :
      (p : ℕ) → d ≡ x → parent_of (set_parent x d t.folders) x ≡ some p → HasOwnParent placed
  unfolding placed
  own_parent p same up = elim (parent_of-set_parent x d t.folders x p up) [
    | inl (_, here) ↦ (x, up ∙ ap some (here ∙ same))
    | inr (other, _) ↦ absurd (other refl)
  ]

  placed-Good :
      (fuel : ℕ)
      → meets fuel t.folders x (parent_of t.folders d) ≡ some false
      → Good (moved, placed)
  unfolding placed
  placed-Good fuel clear = elim (Bool-cases (d == x)) [
    | inr apart ↦ inl (placed-IsValid fuel apart clear)
    | inl same ↦ elim (Option-cases (parent_of (set_parent x d t.folders) x)) [
      | inl missing ↦ inl (unplaced-IsValid missing)
      | inr (p, up) ↦ inr (refl, own_parent p (ground arith) up)
    ]
  ]

-- An answer is given, and the table after it is good.
abbrev IsAnswered : Handled → Type 0
IsAnswered h = (out : Response × Table) × (h ≡ some out) × Good out

unless_circular-IsAnswered :
    (c : Option Bool) (b : Bool) (refused done : Response × Table)
    → c ≡ some b
    → Good refused
    → (c ≡ some false → Good done)
    → IsAnswered (unless_circular c refused done)
unless_circular-IsAnswered none b refused done e g more = absurd (cc)
unless_circular-IsAnswered (some true) b refused done e g more = (refused, refl, g)
unless_circular-IsAnswered (some false) b refused done e g more = (done, refl, more refl)

module _ (db : Database) where
  place_in-Handles :
      (t t' : Table) (x d : ℕ)
      → IsValid t
      → IsValid t'
      → d < t'.next_id
      → Handles (λ fuel. place_in db fuel x t d t')
  unfolding place_in placed
  place_in-Handles t t' x d v v' given =
      let (rank, ranks) = v'.acyclic in
      let rows = t'.folders in
      let after = record t' { folders = set_parent x d rows } in
      (
        rank d,
        λ fuel h.
            let (b, e) =
              meets-total rows rank ranks fuel x (parent_of rows d)
                (λ p up. omega (arith, ranks d p up)) in
            if_ind IsAnswered (has_child_named rows d (name_of rows x))
              (λ _. ((name_taken, t), refl, inl v))
              (λ _.
                unless_circular-IsAnswered (meets fuel rows x (parent_of rows d)) b
                  (parent_in_child, t)
                  (if db.refuses after then (parent_in_child, t) else (moved, after)) e (inl v)
                  (λ clear.
                    if_ind Good (db.refuses after) (λ _. inl v)
                      (λ _. placed-Good t' v' x d given fuel clear))),
      )

  to_destination-Handles :
      (x : ℕ) (t : Table) (f : Found)
      → IsValid t
      → GoodFound f
      → Handles (λ fuel. to_destination db fuel x t f)
  to_destination-Handles x t nowhere v g = answers (no_destination, t) (inl v)
  to_destination-Handles x t invalid_path v g = answers (destination_error, t) (inl v)
  to_destination-Handles x t (found none t') v g = answers (unhandled, t') (inl g.0)
  to_destination-Handles x t (found (some d) t') v g = place_in-Handles t t' x d v g.0 g.1

  if-Handles :
      (b : Bool) (out : Response × Table) (h : ℕ → Handled)
      → Good out
      → Handles h
      → Handles (λ fuel. if b then some out else h fuel)
  if-Handles true out h g k = answers out g
  if-Handles false out h g k = k

  from_source-Handles :
      (destination : Place) (t : Table) (f : Found)
      → IsValid t
      → GoodFound f
      → Handles (λ fuel. from_source db fuel destination t f)
  from_source-Handles destination t nowhere v g = answers (no_source, t) (inl v)
  from_source-Handles destination t invalid_path v g = answers (unhandled, t) (inl v)
  from_source-Handles destination t (found none t') v g = answers (not_found, t') (inl g.0)
  from_source-Handles destination t (found (some x) t') v g =
      let search = look_up true destination t' in
      if-Handles (db.folder_locked t' x) (folder_is_locked, t')
        (λ fuel. to_destination db fuel x t' search) (inl g.0)
        (to_destination-Handles x t' search g.0 (look_up-Good true destination t' g.0))

  -- Where no folder is above itself and all ids in the table have been given, a request to move a folder
  -- is answered with enough fuel, whatever it says, and afterwards the same is true of the table, also
  -- where folders have been made for the path of the destination; unless the folder is moved and some
  -- folder is now its own parent.
  pub move-Handles :
      (request : MoveRequest) (t : Table) → IsValid t → Handles (λ fuel. move db fuel request t)
  unfolding move
  move-Handles request t v =
      if-Handles (not request.is_json) (not_json, t)
        (λ fuel. from_source db fuel request.destination t (look_up false request.source t)) (inl v)
        (from_source-Handles request.destination t (look_up false request.source t) v
          (look_up-Good false request.source t v))
