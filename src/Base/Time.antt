-- ===== src/Base/Time.antt =====
-- Rows with a timestamp, an integer number of microseconds from the epoch.
use joule.Base.{List, map}
use joule.Base.Int.{ℤ}

-- A timestamp for each row.
pub record Timestamped (Row : Type 0) : Type 0 where
  pub timestamp : Row → ℤ

unfoldable pub times : {Row : Type 0} ⦃ts : Timestamped Row⦄ → List Row → List ℤ
times ⦃ts⦄ rows = map ts.timestamp rows
