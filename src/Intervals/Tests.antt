-- ===== src/Intervals/Tests.antt =====
-- Interval sets on small inputs.
use joule.Base.{not, ◌&&◌, ◌≡◌, refl, List, [], ◌∷◌, arith}
use joule.Intervals.{
  Interval, interval_difference, interval_intersection, interval_math_helper, decorate, imerge,
  scan, visit,
}
use joule.Intervals.Merge.{covers}
use joule.Intervals.Membership.{covers-interval_difference, covers-interval_intersection}

-- The cases of tests/utilities/test_interval_tools.py are of this shape: adjacent and nested
-- intervals, and a hole.
abbrev src : List Interval
src = (0, 5) ∷ (5, 10) ∷ (20, 30) ∷ []

abbrev dest : List Interval
dest = (5, 7) ∷ (22, 25) ∷ (25, 40) ∷ []

difference_runs : interval_difference src dest ≡ (0, 5) ∷ (7, 10) ∷ (20, 22) ∷ []
unfolding interval_difference interval_math_helper decorate imerge scan visit
difference_runs = refl

intersection_runs : interval_intersection src dest ≡ (5, 7) ∷ (22, 25) ∷ (25, 30) ∷ []
unfolding interval_intersection interval_math_helper decorate imerge scan visit
intersection_runs = refl

covers-interval_difference_example :
    covers 8 (interval_difference src dest) ≡ (covers 8 src && not (covers 8 dest))
covers-interval_difference_example =
    covers-interval_difference 8 0 src dest (omega arith) (omega arith)

covers-interval_intersection_example :
    covers 6 (interval_intersection src dest) ≡ (covers 6 src && covers 6 dest)
covers-interval_intersection_example =
    covers-interval_intersection 6 0 src dest (omega arith) (omega arith)
