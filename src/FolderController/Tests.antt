-- ===== src/FolderController/Tests.antt =====
-- The folders /a/b and /c.
use joule.Base.{ℕ, ◌≡◌, refl, true, false, none, some, [], ◌∷◌, ◌==◌, if◌then◌else◌, arith}
use joule.Base.Text.{codes}
use joule.FolderController.Rows.{Table, parent_of}
use joule.FolderController.{MoveRequest, Database, by_path, by_id, moved, parent_in_child, move}
use joule.FolderController.Acyclic.{Ranks}
use joule.FolderController.Given.{IsValid}
use joule.FolderController.Moving.{Handles, move-Handles}

abbrev small : Table
small = record {
  folders =
      record { id = 2; name = codes "b"; parent = some 1 }
      ∷ record { id = 1; name = codes "a"; parent = some 0 }
      ∷ record { id = 3; name = codes "c"; parent = some 0 }
      ∷ record { id = 0; name = codes "root"; parent = none }
      ∷ [];
  next_id = 4;
}

-- Nothing is locked but the root, and every table is committed.
abbrev open_database : Database
open_database = record { folder_locked = λ t x. x == 0; refuses = λ t. false }

abbrev rank : ℕ → ℕ
rank x = if x == 0 then 0 else if x == 2 then 2 else 1

small-Ranks : Ranks small.folders rank
unfolding parent_of
small-Ranks x p h = ground arith

small-IsValid : IsValid small
small-IsValid = record { acyclic = (rank, small-Ranks); given = omega arith }

-- /a to a new folder below /c.
abbrev request : MoveRequest
request = record {
  is_json = true;
  source = by_path (codes "/a");
  destination = by_path (codes "/c/new");
}

move-Handles_example : Handles (λ fuel. move open_database fuel request small)
move-Handles_example = move-Handles open_database request small small-IsValid

move-request :
    move open_database 4 request small
    ≡ some (
      moved,
      record {
        folders =
            record { id = 4; name = codes "new"; parent = some 3 }
            ∷ record { id = 2; name = codes "b"; parent = some 1 }
            ∷ record { id = 1; name = codes "a"; parent = some 4 }
            ∷ record { id = 3; name = codes "c"; parent = some 0 }
            ∷ record { id = 0; name = codes "root"; parent = none }
            ∷ [];
        next_id = 5;
      },
    )
unfolding move
move-request = refl

-- /a to a new folder below /a/b: what was made is rolled back.
move-into_child :
    move open_database 4
      (record { is_json = true; source = by_id 1; destination = by_path (codes "/a/b/new") })
      small
    ≡ some (parent_in_child, small)
unfolding move
move-into_child = refl
