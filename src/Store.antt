-- ===== src/Store.antt =====
-- The tables of a data stream: src/joule/models/data_store/psql_helpers.py, and the intervals that
-- src/joule/models/data_store/timescale.py finds in them. A query is the relation that its SQL states.
-- The conversions between timestamps and PostgreSQL's times are taken to be exact.
pub mod Extract
pub mod Breaks
pub mod OneRow
pub mod Reading
mod Tests
use joule.Base.{
  ℕ, ◌+◌, ◌-◌, ◌*◌, ◌^◌, Bool, true, false, not, ◌&&◌, Option, none, some, List, [], ◌∷◌, ◌++◌, map,
  length, take, if◌then◌else◌, ltb,
}
use joule.Base.Time.{Timestamped, times}
use joule.Base.Int.{ℤ, pos, ltb_ℤ, ◌+ℤ◌, ◌-ℤ◌}

-- The data table and the interval table of a stream, in the order of their times, once they are
-- created.
pub record Tables (Row : Type 0) : Type 0 where
  pub created : Bool
  pub rows : List Row
  pub breaks : List ℤ

abbrev pub leb_ℤ : ℤ → ℤ → Bool
leb_ℤ a b = not (ltb_ℤ b a)

-- `time >= start AND time < end`, where each bound may be left out (`query_time_bounds`)
abbrev pub is_from : Option ℤ → ℤ → Bool
is_from none t = true
is_from (some start) t = leb_ℤ start t

abbrev pub is_before : Option ℤ → ℤ → Bool
is_before none t = true
is_before (some end) t = ltb_ℤ t end

pub within : Option ℤ → Option ℤ → ℤ → Bool
within start end t = is_from start t && is_before end t

module _ {A : Type 0} where
  -- `WHERE p`
  pub where_ : (A → Bool) → List A → List A
  where_ p [] = []
  where_ p (x ∷ xs) = let rest = where_ p xs in if p x then x ∷ rest else rest

  -- `LIMIT 1`
  abbrev pub first_of : List A → Option A
  first_of [] = none
  first_of (x ∷ xs) = some x

  -- `ORDER BY time DESC LIMIT 1`
  abbrev pub newest : List A → Option A
  newest [] = none
  newest (x ∷ []) = some x
  newest (x ∷ y ∷ ys) = newest (y ∷ ys)

-- The times of a list with one more, in their place.
pub insert_time : ℤ → List ℤ → List ℤ
insert_time t [] = t ∷ []
insert_time t (u ∷ us) = if ltb_ℤ t u then t ∷ u ∷ us else u ∷ insert_time t us

module _ {Row : Type 0} where
  -- `create_stream_table`
  pub create_stream_table : Tables Row → Tables Row
  create_stream_table db =
      if db.created then db else record { created = true; rows = []; breaks = [] }

  -- The last statement of `close_interval`, from the last row and the last break at or before the time.
  abbrev pub place_break : Option ℤ → Option ℤ → Tables Row → Tables Row
  place_break none last_interval db = db
  place_break (some last_ts) none db = record db {
    breaks = insert_time (last_ts +ℤ pos 1) db.breaks;
  }
  place_break (some last_ts) (some last_interval) db =
      if ltb_ℤ last_interval last_ts
      then record db { breaks = insert_time (last_ts +ℤ pos 1) db.breaks }
      else db

  pub remove_interval_breaks : ℤ → ℤ → Tables Row → Tables Row
  remove_interval_breaks start end db = record db {
    breaks = where_ (λ t. not (leb_ℤ start t && leb_ℤ t end)) db.breaks;
  }

module _ {Row : Type 0} ⦃ts : Timestamped Row⦄ where
  pub close_interval : ℤ → Tables Row → Tables Row
  close_interval t db =
      let last_ts = newest (where_ (λ u. leb_ℤ u t) (times db.rows)) in
      let last_interval = newest (where_ (λ u. leb_ℤ u t) db.breaks) in
      if db.created then place_break last_ts last_interval db else db

  -- `get_closest_ts`
  pub get_closest_ts : ℤ → Tables Row → Option ℤ
  get_closest_ts t db =
      if db.created then newest (where_ (λ u. ltb_ℤ u t) (times db.rows)) else none

-- What `convert_time_bounds` comes to: the bounds, None, or a TypeError.
pub data Bounds : Type 0 where
  bounds : ℤ → ℤ → Bounds
  no_bounds : Bounds
  type_error : Bounds

abbrev pub bounds_from : Option ℤ → Option ℤ → Bounds
bounds_from none end = no_bounds
bounds_from (some start) none = type_error
bounds_from (some start) (some end) = bounds start end

abbrev pub next_us : Option ℤ → Option ℤ
next_us none = none
next_us (some t) = some (t +ℤ pos 1)

-- `max` and `min` of a given bound and one of the data
abbrev pub later_of : Option ℤ → ℤ → ℤ
later_of none t = t
later_of (some s) t = if ltb_ℤ s t then t else s

abbrev pub earlier_of : Option ℤ → ℤ → ℤ
earlier_of none t = t
earlier_of (some s) t = if ltb_ℤ t s then t else s

-- `limit_time_bounds`, from the bounds of the data
abbrev pub limited : Option ℤ → Option ℤ → Bounds → Option (Option (ℤ × ℤ))
limited start end (bounds first last) = some (some (later_of start first, earlier_of end last))
limited start end no_bounds = some none
limited start end type_error = none

module _ {Row : Type 0} ⦃ts : Timestamped Row⦄ where
  -- The start: as given, or the time of the first row.
  abbrev pub start_or_first : Option ℤ → Tables Row → Option ℤ
  start_or_first (some start) db = some start
  start_or_first none db = if db.created then first_of (times db.rows) else none

  -- The end: as given, or one microsecond after the last row. The sum is made before the test for
  -- None, so that an empty table is a TypeError.
  abbrev pub with_end : Option ℤ → Option ℤ → Tables Row → Bounds
  with_end none end db = no_bounds
  with_end (some start) (some end) db = bounds start end
  with_end (some start) none db =
      if db.created then bounds_from (some start) (next_us (newest (times db.rows))) else no_bounds

  pub convert_time_bounds : Option ℤ → Option ℤ → Tables Row → Bounds
  convert_time_bounds start end db = with_end (start_or_first start db) end db

  pub limit_time_bounds : Option ℤ → Option ℤ → Tables Row → Option (Option (ℤ × ℤ))
  limit_time_bounds start end db = limited start end (convert_time_bounds none none db)

  -- `get_boundaries`; `none` is the TypeError.
  abbrev pub boundaries_in : Bounds → Tables Row → Option (List ℤ)
  boundaries_in no_bounds db = some []
  boundaries_in type_error db = none
  boundaries_in (bounds start end) db =
      if db.created
      then some (start ∷ (where_ (within (some start) (some end)) db.breaks ++ end ∷ []))
      else some []

  pub get_boundaries : Option ℤ → Option ℤ → Tables Row → Option (List ℤ)
  get_boundaries start end db = boundaries_in (convert_time_bounds start end db) db
