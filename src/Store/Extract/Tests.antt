-- ===== src/Store/Extract/Tests.antt =====
-- Reads of rows that are their own timestamps, in blocks of three, with a token at time 0.
use joule.Base.{ℕ, ◌≡◌, refl, true, false, none, some, List, [], ◌∷◌, arith}
use joule.Base.Time.{Timestamped, times}
use joule.Base.Int.{pos, ◌+ℤ◌}
use joule.Store.{Tables, within, where_}
use joule.Store.Extract.{
  selected, block_of, end_round, extract_interval, extract_intervals, extract_data,
}
use joule.Store.Extract.Complete.{Holds, extract_data-Holds}
use joule.Store.Extract.Loops.{extract_interval-token_loop}

instance abbrev own_time : Timestamped ℕ
own_time = record { timestamp = λ t. pos t }

abbrev seven_rows : List ℕ
seven_rows = 1 ∷ 2 ∷ 3 ∷ 4 ∷ 7 ∷ 8 ∷ 9 ∷ []

-- A break behind the first four rows.
abbrev two_intervals : Tables ℕ
two_intervals = record { created = true; rows = seven_rows; breaks = pos 5 ∷ [] }

extract_two_intervals :
    extract_data 8 3 0 (some (pos 1)) (some (pos 9)) two_intervals seven_rows
    ≡ some ((1 ∷ 2 ∷ 3 ∷ []) ∷ (4 ∷ 0 ∷ []) ∷ (7 ∷ 8 ∷ []) ∷ [])
unfolding extract_data extract_intervals extract_interval end_round block_of selected where_ within
    times ◌+ℤ◌
extract_two_intervals = refl

extract_data-Holds_example :
    Holds
      (1 ∷ 2 ∷ 3 ∷ 4 ∷ 0 ∷ 7 ∷ 8 ∷ [])
      (extract_data 8 3 0 (some (pos 1)) (some (pos 9)) two_intervals seven_rows)
unfolding selected where_ within
extract_data-Holds_example =
    extract_data-Holds 8 2 0 (some (pos 1)) (some (pos 9)) two_intervals seven_rows refl
      (omega arith) (ground arith) (omega arith)

-- Two rows before the break, so that the token is the third.
extract_interval-token_loop_example :
    extract_interval 100 3 0 false (some (pos 1)) (some (pos 3)) seven_rows ≡ none
unfolding ◌+ℤ◌
extract_interval-token_loop_example =
    extract_interval-token_loop 100 2 0 (some (pos 1)) (some (pos 3)) seven_rows
      (unfold selected where_ within in refl) refl
