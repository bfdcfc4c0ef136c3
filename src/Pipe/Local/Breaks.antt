-- ===== src/Pipe/Local/Breaks.antt =====
-- The rows between the interval breaks of a local pipe's queue.
use joule.Base.{
  ◌+◌, ◌≤◌, ◌<◌, ◌≡◌, refl, Bool, true, false, Option, none, some, List, [], ◌∷◌, ◌++◌, length,
  arith, if◌then◌else◌,
}
use joule.Pipe.{is_nil}
use joule.Pipe.Local.Queue.{queue_rows, first_interval, after_break}

module _ {Row : Type 0} where
  -- Every interval break in the queue has a row before it, behind the break before; `seen` says
  -- whether there is one before the queue.
  abbrev pub BreaksFollowRows : Bool → List (Option (List Row)) → Type 0
  BreaksFollowRows seen [] = Unit
  BreaksFollowRows seen (none ∷ q) = (seen ≡ true) × BreaksFollowRows false q
  BreaksFollowRows seen (some [] ∷ q) = BreaksFollowRows seen q
  BreaksFollowRows seen (some (row ∷ rows) ∷ q) = BreaksFollowRows true q

  pub after_break-BreaksFollowRows :
      (seen : Bool) (q : List (Option (List Row)))
      → BreaksFollowRows seen q
      → BreaksFollowRows false (after_break q)
  after_break-BreaksFollowRows seen [] h = tt
  after_break-BreaksFollowRows seen (none ∷ q) h = h.1
  after_break-BreaksFollowRows seen (some [] ∷ q) h = after_break-BreaksFollowRows seen q h
  after_break-BreaksFollowRows seen (some (row ∷ rows) ∷ q) h =
      after_break-BreaksFollowRows true q h

  -- Where the first interval has no rows, nothing has any.
  pub no_first_interval :
      (q : List (Option (List Row)))
      → BreaksFollowRows false q
      → first_interval q ≡ []
      → queue_rows q ≡ []
  no_first_interval [] h e = refl
  no_first_interval (none ∷ q) h e = cc
  no_first_interval (some [] ∷ q) h e = no_first_interval q h e
  no_first_interval (some (row ∷ rows) ∷ q) h e = cc

  pub length-after_break :
      (item : Option (List Row)) (q : List (Option (List Row)))
      → length (after_break (item ∷ q)) ≤ length q
  length-after_break none q = omega arith
  length-after_break (some rows) [] = omega arith
  length-after_break (some rows) (item ∷ q) = omega (arith, length-after_break item q)

  -- The rows of a buffer and a queue.
  pub nothing_left :
      (buffer : List Row) (q : List (Option (List Row)))
      → BreaksFollowRows (if is_nil buffer then false else true) q
      → buffer ++ first_interval q ≡ []
      → buffer ++ queue_rows q ≡ []
  nothing_left [] q h e = no_first_interval q h e
  nothing_left (row ∷ rows) q h e = cc

  pub fewer_reads :
      (buffer : List Row) (q : List (Option (List Row))) (row : Row) (rows : List Row)
      → buffer ++ first_interval q ≡ row ∷ rows
      → length (after_break q) < length q + (if is_nil buffer then 0 else 1)
  fewer_reads [] [] row rows e = cc
  fewer_reads [] (item ∷ q) row rows e = omega (arith, length-after_break item q)
  fewer_reads (x ∷ xs) [] row rows e = omega arith
  fewer_reads (x ∷ xs) (item ∷ q) row rows e = omega (arith, length-after_break item q)
