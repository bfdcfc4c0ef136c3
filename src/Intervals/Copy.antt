-- ===== src/Intervals/Copy.antt =====
-- src/joule/cli/data/copy.py: which intervals of the source are copied. The statements that compute
-- `new_intervals` and `existing_intervals` from the interval lists of the two nodes.
use joule.Base.{ℕ, ◌&&◌, not, ◌≡◌, List, arith}
use joule.Intervals.{Interval, interval_difference}
use joule.Intervals.Merge.{IsOrderedFrom, covers}
use joule.Intervals.Membership.{covers-interval_difference}
use joule.Intervals.Shape.{interval_difference-IsProperFrom, IsProperFrom-IsOrderedFrom}

pub new_intervals : List Interval → List Interval → List Interval
new_intervals src_intervals dest_intervals = interval_difference src_intervals dest_intervals

pub existing_intervals : List Interval → List Interval → List Interval
existing_intervals src_intervals dest_intervals =
    interval_difference src_intervals (new_intervals src_intervals dest_intervals)

-- For ordered interval lists, a time of the source is to be copied exactly if the destination lacks
-- it, and counts as existing exactly if the destination has it.
pub copy_splits_source :
    (t lo : ℕ) (src dest : List Interval)
    → IsOrderedFrom lo src
    → IsOrderedFrom lo dest
    → (covers t (new_intervals src dest) ≡ (covers t src && not (covers t dest)))
      × (covers t (existing_intervals src dest) ≡ (covers t src && covers t dest))
unfolding new_intervals existing_intervals
copy_splits_source t lo src dest hs hd =
    let fresh = covers-interval_difference t lo src dest hs hd in
    let proper = interval_difference-IsProperFrom lo src dest hs hd in
    let old =
      covers-interval_difference t lo src (interval_difference src dest) hs
        (IsProperFrom-IsOrderedFrom lo _ proper) in
    (fresh, ground (arith, fresh, old))
