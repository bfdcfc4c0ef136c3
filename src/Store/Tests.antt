-- ===== src/Store/Tests.antt =====
-- Tables whose rows are their own timestamps.
use joule.Base.{ℕ, ◌≡◌, refl, true, none, some, [], ◌∷◌}
use joule.Base.Time.{Timestamped, times}
use joule.Base.Int.{pos, ◌+ℤ◌}
use joule.Store.{
  Tables, within, where_, insert_time, close_interval, convert_time_bounds, limit_time_bounds,
  get_boundaries, remove_interval_breaks, type_error,
}
use joule.Store.OneRow.{close_interval-one_row, then_row}
use joule.Store.Reading.{intervals_from, intervals}

instance abbrev own_time : Timestamped ℕ
own_time = record { timestamp = λ t. pos t }

abbrev five_rows : Tables ℕ
five_rows = record { created = true; rows = 1 ∷ 2 ∷ 5 ∷ 6 ∷ 9 ∷ []; breaks = pos 3 ∷ [] }

abbrev no_rows : Tables ℕ
no_rows = record { created = true; rows = []; breaks = [] }

close_after_six : (close_interval (pos 7) five_rows).breaks ≡ pos 3 ∷ pos 7 ∷ []
unfolding close_interval where_ times insert_time ◌+ℤ◌
close_after_six = refl

two_intervals_found : intervals none none five_rows ≡ some ((pos 1, pos 3) ∷ (pos 5, pos 10) ∷ [])
unfolding intervals intervals_from get_boundaries convert_time_bounds where_ within times ◌+ℤ◌
two_intervals_found = refl

empty_bounds : convert_time_bounds (some (pos 1)) none no_rows ≡ type_error
unfolding convert_time_bounds times
empty_bounds = refl

limits : limit_time_bounds (some (pos 4)) (some (pos 100)) five_rows ≡ some (some (pos 4, pos 10))
unfolding limit_time_bounds convert_time_bounds times ◌+ℤ◌
limits = refl

merged : (remove_interval_breaks (pos 2) (pos 5) five_rows).breaks ≡ []
unfolding remove_interval_breaks where_
merged = refl

close_interval-one_row_example :
    ((close_interval (pos 9) five_rows).breaks ≡ pos 3 ∷ pos 10 ∷ [])
    × (close_interval (pos 10) (then_row (pos 9) 10 five_rows) ≡ then_row (pos 9) 10 five_rows)
unfolding times ◌+ℤ◌
close_interval-one_row_example =
    close_interval-one_row (pos 9) 10 five_rows refl refl (refl, (refl, (refl, (refl, (refl, tt)))))
      (refl, tt) refl
