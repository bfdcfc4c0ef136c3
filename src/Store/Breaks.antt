-- ===== src/Store/Breaks.antt =====
-- The breaks that `close_interval` places, of src/joule/models/data_store/psql_helpers.py.
use joule.Base.{
  ◌+◌, ◌≡◌, ◌≢◌, refl, ap, Bool, true, false, ◌&&◌, Option, none, some, List, [], ◌∷◌, arith,
  Bool-cases, inl, inr, if◌then◌else◌,
}
use joule.Base.Time.{Timestamped, times}
use joule.Base.Int.{ℤ, pos, ltb_ℤ, ◌+ℤ◌, ◌<ℤ◌, ◌≤ℤ◌, pos_part, neg_part, +ℤ_parts, eq_of_parts}
use joule.Store.{Tables, where_, newest, insert_time, place_break, close_interval, leb_ℤ}

-- A break behind `l`, at the latest one microsecond after `t`.
abbrev pub has_break : ℤ → ℤ → List ℤ → Bool
has_break l t [] = false
has_break l t (b ∷ bs) = if ltb_ℤ l b && leb_ℤ b (t +ℤ pos 1) then true else has_break l t bs

has_break-insert_time :
    (l t b : ℤ) (bs : List ℤ)
    → (ltb_ℤ l b && leb_ℤ b (t +ℤ pos 1)) ≡ true
    → has_break l t (insert_time b bs) ≡ true
unfolding insert_time
has_break-insert_time l t b [] h = simp h
has_break-insert_time l t b (u ∷ us) h = elim (Bool-cases (ltb_ℤ b u)) [
  | inl first ↦ simp (first, h)
  | inr behind ↦
      let rest = has_break-insert_time l t b us h in
      elim (Bool-cases (ltb_ℤ l u && leb_ℤ u (t +ℤ pos 1))) [
        | inl here ↦ simp (behind, here)
        | inr later ↦ simp (behind, later) rest
      ]
]

newest_behind :
    (l u b : ℤ) (w : List ℤ) → newest (u ∷ w) ≡ some b → u ≤ℤ l → l <ℤ b → newest w ≡ some b
newest_behind l u b [] e h k = absurd (grind arith)
newest_behind l u b (x ∷ w) e h k = e

-- A newest break at or before `t` that is behind `l`.
newest-has_break :
    (l t : ℤ) (bs : List ℤ) (b : ℤ)
    → newest (where_ (λ u. leb_ℤ u t) bs) ≡ some b
    → l <ℤ b
    → has_break l t bs ≡ true
unfolding where_
newest-has_break l t [] b e h = absurd (ground arith)
newest-has_break l t (u ∷ us) b e h =
    let step = +ℤ_parts t (pos 1) in
    elim (Bool-cases (ltb_ℤ l u && leb_ℤ u (t +ℤ pos 1))) [
      | inl here ↦ simp here refl
      | inr later ↦ elim (Bool-cases (leb_ℤ u t)) [
        | inl found ↦
            let at_start : u ≤ℤ l = ground arith in
            simp later (
              newest-has_break l t us b
                (newest_behind l u b (where_ (λ v. leb_ℤ v t) us) (simp found at e) at_start h) h)
        | inr not_found ↦ simp later (newest-has_break l t us b (simp not_found at e) h)
      ]
    ]

placed :
    {Row : Type 0}
    → (l t : ℤ) (db : Tables Row) (last_interval : Option ℤ) → l ≤ℤ t
    → newest (where_ (λ u. leb_ℤ u t) db.breaks) ≡ last_interval
    → last_interval ≢ some l
    → has_break l t (place_break (some l) last_interval db).breaks ≡ true
placed l t db none h e differ =
    let here = +ℤ_parts l (pos 1) in
    let there = +ℤ_parts t (pos 1) in
    has_break-insert_time l t (l +ℤ pos 1) db.breaks (ground arith)
placed l t db (some b) h e differ =
    let here = +ℤ_parts l (pos 1) in
    let there = +ℤ_parts t (pos 1) in
    elim (Bool-cases (ltb_ℤ b l)) [
      | inl behind ↦ simp behind (has_break-insert_time l t (l +ℤ pos 1) db.breaks (ground arith))
      | inr ahead ↦
          let apart : b ≢ l = λ same. differ (ap some same) in
          let not_level = λ (level : pos_part b + neg_part l ≡ pos_part l + neg_part b).
            apart (eq_of_parts b l level) in
          simp ahead (newest-has_break l t db.breaks b e (grind (arith, not_level)))
    ]

module _ {Row : Type 0} ⦃ts : Timestamped Row⦄ where
  -- Where the last row at or before a time is at `l`, and the last break at or before it is not at `l`,
  -- closing the interval there leaves a break behind `l`, at the latest one microsecond after the time.
  pub close_interval-has_break :
      (l t : ℤ) (db : Tables Row)
      → db.created ≡ true
      → newest (where_ (λ u. leb_ℤ u t) (times db.rows)) ≡ some l
      → l ≤ℤ t
      → newest (where_ (λ u. leb_ℤ u t) db.breaks) ≢ some l
      → has_break l t (close_interval t db).breaks ≡ true
  unfolding close_interval
  close_interval-has_break l t db created last h differ =
      simp (created, last)
        (placed l t db (newest (where_ (λ u. leb_ℤ u t) db.breaks)) h refl differ)

  -- Where the last break at or before a time is at the last row, no break is placed.
  pub close_interval_at_break :
      (l t : ℤ) (db : Tables Row)
      → newest (where_ (λ u. leb_ℤ u t) (times db.rows)) ≡ some l
      → newest (where_ (λ u. leb_ℤ u t) db.breaks) ≡ some l
      → close_interval t db ≡ db
  unfolding close_interval
  close_interval_at_break l t db last level =
      let test : ltb_ℤ l l ≡ false = ground arith in
      elim (Bool-cases db.created) [
        | inl made ↦ simp (made, last, level, test)
        | inr unmade ↦ simp unmade
      ]
