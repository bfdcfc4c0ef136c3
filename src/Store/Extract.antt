-- ===== src/Store/Extract.antt =====
-- Reading a stream out of its tables: `_extract_data` of
-- src/joule/models/data_store/timescale.py. The blocks are what the callback is given. The rows are
-- those of the table of the decimation level, which is the data table or one beside it.
pub mod Query
pub mod Complete
pub mod Loops
mod Tests
use joule.Base.{
  ℕ, zero, suc, ◌+◌, Bool, true, false, not, ◌&&◌, Option, none, some, List, [], ◌∷◌, ◌++◌, map,
  length, take, if◌then◌else◌, ltb, ◌==◌,
}
use joule.Base.Time.{Timestamped, times}
use joule.Base.Int.{ℤ, pos, ltb_ℤ}
use joule.Store.{Tables, within, where_, newest, next_us, leb_ℤ}

abbrev pub prepend : {A : Type 0} → A → Option (List A) → Option (List A)
prepend x none = none
prepend x (some xs) = some (x ∷ xs)

abbrev pub append_blocks : {A : Type 0} → Option (List A) → Option (List A) → Option (List A)
append_blocks none later = none
append_blocks (some xs) none = none
append_blocks (some xs) (some ys) = some (xs ++ ys)

abbrev pub same_ℤ : ℤ → ℤ → Bool
same_ℤ a b = leb_ℤ a b && leb_ℤ b a

-- `start == end`
abbrev pub same_time : Option ℤ → Option ℤ → Bool
same_time none none = true
same_time none (some b) = false
same_time (some a) none = false
same_time (some a) (some b) = same_ℤ a b

module _ {Row : Type 0} ⦃ts : Timestamped Row⦄ where
  -- `SELECT * FROM ... WHERE time >= start AND time < end ORDER BY time ASC`
  pub selected : Option ℤ → Option ℤ → List Row → List Row
  selected start end rows = where_ (λ row. within start end (ts.timestamp row)) rows

  -- `np_data`, from what a query found: the token is put behind the last block of an interval that is
  -- not the last.
  pub block_of : ℕ → Row → Bool → List Row → List Row
  block_of size token is_last found =
      if ltb (length found) size && not is_last then found ++ token ∷ [] else found

  -- The end of a round, with the rounds that may follow.
  pub end_round : ℕ → List Row → Option (List (List Row)) → Option (List (List Row))
  end_round size np_data more =
      if length np_data == 0
      then some []
      else if ltb (length np_data) size
      then some (np_data ∷ [])
      else prepend np_data more

  -- The loop over one interval, with its blocks of at most `size` rows. `none` means that the fuel ran
  -- out.
  pub extract_interval :
      ℕ → ℕ → Row → Bool → Option ℤ → Option ℤ → List Row → Option (List (List Row))
  extract_interval zero size token is_last start end rows = none
  extract_interval (suc fuel) size token is_last start end rows =
      let np_data = block_of size token is_last (take size (selected start end rows)) in
      end_round size np_data
        (extract_interval fuel size token is_last (next_us (newest (times np_data))) end rows)

  -- The loop over the boundaries, the end of the data behind them.
  pub extract_intervals :
      ℕ → ℕ → Row → Option ℤ → List (Option ℤ) → List Row → Option (List (List Row))
  extract_intervals fuel size token start [] rows = some []
  extract_intervals fuel size token start (end ∷ []) rows =
      let blocks = extract_interval fuel size token true start end rows in
      if same_time start end then some [] else blocks
  extract_intervals fuel size token start (end ∷ next ∷ ends) rows =
      let blocks = extract_interval fuel size token false start end rows in
      let later = extract_intervals fuel size token end (next ∷ ends) rows in
      if same_time start end then later else append_blocks blocks later

  pub extract_data :
      ℕ → ℕ → Row → Option ℤ → Option ℤ → Tables Row → List Row → Option (List (List Row))
  extract_data fuel size token start end db rows =
      if db.created
      then extract_intervals fuel size token start
          (map some (where_ (within start end) db.breaks) ++ end ∷ []) rows
      else some ([] ∷ [])
