-- ===== src/Store/Reading.antt =====
-- The intervals of a stream: `intervals` of src/joule/models/data_store/timescale.py, on the times of
-- its rows. An interval of one row is one microsecond long.
use joule.Base.{
  ◌≡◌, ◌≢◌, refl, Bool, true, Option, none, some, List, [], ◌∷◌, arith, Bool-cases, inl, inr,
}
use joule.Base.Time.{Timestamped, times}
use joule.Base.Int.{ℤ, pos, ltb_ℤ, ◌+ℤ◌}
use joule.Store.{Tables, within, where_, first_of, newest, get_boundaries}

abbrev pub add_interval : Option ℤ → Option ℤ → Option (List (ℤ × ℤ)) → Option (List (ℤ × ℤ))
add_interval none prev_ts later = later
add_interval (some cur_start) none later = none
add_interval (some cur_start) (some prev_ts) none = none
add_interval (some cur_start) (some prev_ts) (some later) =
    some ((cur_start, prev_ts +ℤ pos 1) ∷ later)

-- The loop, from `cur_start`; `none` is the AttributeError of a time that was not found.
unfoldable pub intervals_from : Option ℤ → List ℤ → List ℤ → Option (List (ℤ × ℤ))
intervals_from cur_start [] ts = some []
intervals_from cur_start (boundary ∷ []) ts =
    add_interval cur_start (newest (where_ (λ t. ltb_ℤ t boundary) ts)) (some [])
intervals_from cur_start (boundary ∷ next ∷ boundaries) ts =
    add_interval cur_start (newest (where_ (λ t. ltb_ℤ t boundary) ts)) (
      intervals_from (first_of (where_ (within (some boundary) (some next)) ts)) (next ∷ boundaries)
        ts)

abbrev pub intervals_in : Option (List ℤ) → List ℤ → Option (List (ℤ × ℤ))
intervals_in none ts = none
intervals_in (some boundaries) ts = intervals_from none boundaries ts

module _ {Row : Type 0} ⦃ts : Timestamped Row⦄ where
  unfoldable pub intervals : Option ℤ → Option ℤ → Tables Row → Option (List (ℤ × ℤ))
  intervals start end db = intervals_in (get_boundaries start end db) (times db.rows)

module _ {A : Type 0} where
  newest-some : (x : A) (xs : List A) → newest (x ∷ xs) ≢ none
  newest-some x [] = λ e. absurd (ground arith)
  newest-some x (y ∷ ys) = newest-some y ys

  -- Where a narrower query finds something, so does a wider one.
  found_too :
      (p q : A → Bool) (x : A) (xs : List A)
      → ((y : A) → p y ≡ true → q y ≡ true)
      → first_of (where_ p xs) ≡ some x
      → newest (where_ q xs) ≢ none
  unfolding where_
  found_too p q x [] wider e = absurd (ground arith)
  found_too p q x (y ∷ ys) wider e = elim (Bool-cases (q y)) [
    | inl yes_q ↦ simp yes_q (newest-some y (where_ q ys))
    | inr no_q ↦ elim (Bool-cases (p y)) [
      | inl yes_p ↦ let also = wider y yes_p in absurd cc
      | inr no_p ↦ simp no_q (found_too p q x ys wider (simp no_p at e))
    ]
  ]

before_end : (b next u : ℤ) → within (some b) (some next) u ≡ true → ltb_ℤ u next ≡ true
unfolding within
before_end b next u e = ground arith

add_interval_total :
    (cur prev : Option ℤ) (later : Option (List (ℤ × ℤ)))
    → ((t : ℤ) → cur ≡ some t → prev ≢ none)
    → later ≢ none
    → add_interval cur prev later ≢ none
add_interval_total none prev later h k = k
add_interval_total (some t) none later h k = λ e. h t refl refl
add_interval_total (some t) (some p) none h k = k
add_interval_total (some t) (some p) (some l) h k = λ e. absurd (ground arith)

intervals_from_total :
    (cur : Option ℤ) (b : ℤ) (bs ts : List ℤ)
    → ((t : ℤ) → cur ≡ some t → newest (where_ (λ u. ltb_ℤ u b) ts) ≢ none)
    → intervals_from cur (b ∷ bs) ts ≢ none
unfolding intervals_from
intervals_from_total cur b [] ts h =
    add_interval_total cur (newest (where_ (λ u. ltb_ℤ u b) ts)) (some []) h
      (λ e. absurd (ground arith))
intervals_from_total cur b (next ∷ bs) ts h =
    let inside = λ (u : ℤ) (e : within (some b) (some next) u ≡ true). before_end b next u e in
    add_interval_total cur (newest (where_ (λ u. ltb_ℤ u b) ts))
      (intervals_from (first_of (where_ (within (some b) (some next)) ts)) (next ∷ bs) ts) h
      (intervals_from_total (first_of (where_ (within (some b) (some next)) ts)) next bs ts
        (λ t. found_too (within (some b) (some next)) (λ u. ltb_ℤ u next) t ts inside))

in_boundaries : (o : Option (List ℤ)) (ts : List ℤ) → o ≢ none → intervals_in o ts ≢ none
unfolding intervals_from
in_boundaries none ts h = absurd (h refl)
in_boundaries (some []) ts h = λ e. absurd (ground arith)
in_boundaries (some (b ∷ bs)) ts h =
    intervals_from_total none b bs ts (λ t e. absurd (ground arith))

module _ {Row : Type 0} ⦃ts : Timestamped Row⦄ where
  -- Where `get_boundaries` has a result, so has `intervals`: each start that it keeps has a row before the
  -- next boundary.
  pub intervals_total :
      (start end : Option ℤ) (db : Tables Row)
      → get_boundaries start end db ≢ none
      → intervals start end db ≢ none
  unfolding intervals
  intervals_total start end db h = in_boundaries (get_boundaries start end db) (times db.rows) h
