-- ===== src/Store/OneRow.antt =====
-- An interval of one row right behind another, in `close_interval` of
-- src/joule/models/data_store/psql_helpers.py.
use joule.Base.{
  ◌≡◌, refl, ap, sym, subst, ◌∙◌, Bool, true, false, Option, none, some, List, [], ◌∷◌, ◌++◌, arith,
  if_ind,
}
use joule.Base.Time.{Timestamped, times}
use joule.Base.Int.{ℤ, pos, ltb_ℤ, ◌+ℤ◌, +ℤ_parts}
use mathlib.Core.Option.{some-ne-none, some-injective}
use joule.Store.{Tables, where_, newest, insert_time, place_break, close_interval, leb_ℤ}
use joule.Store.Breaks.{close_interval_at_break}
use joule.Store.Extract.Query.{Passes, where_all}
use joule.Store.Extract.Loops.{newest-append, times-append}

-- Tests that all times of a list pass, and what is then newest.
Passes-weaker :
    (p q : ℤ → Bool) (us : List ℤ) → ((u : ℤ) → q u ≡ true → p u ≡ true) → Passes q us → Passes p us
Passes-weaker p q [] weaker h = tt
Passes-weaker p q (u ∷ us) weaker h = (weaker u h.0, Passes-weaker p q us weaker h.1)

Passes-append :
    (p : ℤ → Bool) (us : List ℤ) (v : ℤ) → Passes p us → p v ≡ true → Passes p (us ++ v ∷ [])
Passes-append p [] v h k = (k, tt)
Passes-append p (u ∷ us) v h k = (h.0, Passes-append p us v h.1 k)

newest-Passes : (p : ℤ → Bool) (us : List ℤ) (b : ℤ) → Passes p us → newest us ≡ some b → p b ≡ true
newest-Passes p [] b h e = absurd (some-ne-none b (sym e))
newest-Passes p (u ∷ []) b h e = subst (λ v. p v ≡ true) (some-injective u b e) h.0
newest-Passes p (u ∷ v ∷ us) b h e = newest-Passes p (v ∷ us) b h.1 e

insert_last : (t : ℤ) (us : List ℤ) → Passes (λ u. ltb_ℤ u t) us → insert_time t us ≡ us ++ t ∷ []
unfolding insert_time
insert_last t [] h = refl
insert_last t (u ∷ us) h =
    let behind : ltb_ℤ t u ≡ false = ground (arith, h.0) in
    let rest = insert_last t us h.1 in simp (behind, rest) refl

-- A break is placed behind breaks that are all before the last row.
place_last :
    {Row : Type 0}
    → (l : ℤ) (db : Tables Row) (o : Option ℤ) → newest db.breaks ≡ o
    → Passes (λ u. ltb_ℤ u l) db.breaks
    → place_break (some l) o db ≡ record db { breaks = db.breaks ++ (l +ℤ pos 1) ∷ [] }
place_last l db none e h =
    let step = +ℤ_parts l (pos 1) in
    let earlier =
      Passes-weaker (λ u. ltb_ℤ u (l +ℤ pos 1)) (λ u. ltb_ℤ u l) db.breaks (λ u k. ground arith)
        h in
    ap (λ (bs : List ℤ). record db { breaks = bs }) (insert_last (l +ℤ pos 1) db.breaks earlier)
place_last l db (some b) e h =
    let step = +ℤ_parts l (pos 1) in
    let earlier =
      Passes-weaker (λ u. ltb_ℤ u (l +ℤ pos 1)) (λ u. ltb_ℤ u l) db.breaks (λ u k. ground arith)
        h in
    let behind = newest-Passes (λ u. ltb_ℤ u l) db.breaks b h e in
    simp behind
      (ap (λ (bs : List ℤ). record db { breaks = bs }) (insert_last (l +ℤ pos 1) db.breaks earlier))

module _ {Row : Type 0} ⦃ts : Timestamped Row⦄ where
  -- The break behind the last row.
  first_closing :
      (l : ℤ) (db : Tables Row)
      → db.created ≡ true
      → newest (times db.rows) ≡ some l
      → Passes (λ u. leb_ℤ u l) (times db.rows)
      → Passes (λ u. ltb_ℤ u l) db.breaks
      → close_interval l db ≡ record db { breaks = db.breaks ++ (l +ℤ pos 1) ∷ [] }
  unfolding close_interval
  first_closing l db made last within breaks_before =
      let found = ap newest (where_all (λ u. leb_ℤ u l) (times db.rows) within) ∙ last in
      let placed =
        place_last l db (newest (where_ (λ u. leb_ℤ u l) db.breaks))
          (sym (
            ap newest (
              where_all (λ u. leb_ℤ u l) db.breaks
                (Passes-weaker (λ u. leb_ℤ u l) (λ u. ltb_ℤ u l) db.breaks (λ u k. ground arith)
                  breaks_before))))
          breaks_before in
      let closed = record db { breaks = db.breaks ++ (l +ℤ pos 1) ∷ [] } in
      let moved =
        ap (λ o. place_break o (newest (where_ (λ u. leb_ℤ u l) db.breaks)) db) found ∙ placed in
      if_ind (λ (d : Tables Row). d ≡ closed) db.created (λ _. moved) (λ unmade. absurd cc)

  -- After a break behind the rows, a row right behind them.
  abbrev pub then_row : ℤ → Row → Tables Row → Tables Row
  then_row l row db = record (close_interval l db) { rows = db.rows ++ row ∷ [] }

  second_closing :
      (l : ℤ) (row : Row) (db : Tables Row)
      → ts.timestamp row ≡ l +ℤ pos 1
      → Passes (λ u. leb_ℤ u l) (times db.rows)
      → Passes (λ u. ltb_ℤ u l) db.breaks
      → (all : Tables Row) → all.rows ≡ db.rows ++ row ∷ []
      → all.breaks ≡ db.breaks ++ (l +ℤ pos 1) ∷ []
      → close_interval (l +ℤ pos 1) all ≡ all
  second_closing l row db here within breaks_before all rows breaks =
      let t = l +ℤ pos 1 in
      let step = +ℤ_parts l (pos 1) in
      let p = λ (u : ℤ). leb_ℤ u t in
      let at : p t ≡ true = ground arith in
      let all_times : times all.rows ≡ times db.rows ++ t ∷ [] =
        ap times rows ∙ times-append db.rows row ∙ ap (λ u. times db.rows ++ u ∷ []) here in
      let rows_pass =
        Passes-append p (times db.rows) t
          (Passes-weaker p (λ u. leb_ℤ u l) (times db.rows) (λ u k. ground arith) within) at in
      let breaks_pass =
        Passes-append p db.breaks t
          (Passes-weaker p (λ u. ltb_ℤ u l) db.breaks (λ u k. ground arith) breaks_before) at in
      close_interval_at_break t t all
        (rw all_times (
          ap newest (where_all p (times db.rows ++ t ∷ []) rows_pass)
          ∙ newest-append (times db.rows) t))
        (rw breaks
          (ap newest (where_all p (db.breaks ++ t ∷ []) breaks_pass) ∙ newest-append db.breaks t))

  -- Where the rows of a stream end at `l` and its breaks are before `l`, closing the interval at `l` places one
  -- break, one microsecond behind; if then a single row comes at that time and its interval is closed, no
  -- break is placed behind it.
  pub close_interval-one_row :
      (l : ℤ) (row : Row) (db : Tables Row)
      → db.created ≡ true
      → newest (times db.rows) ≡ some l
      → Passes (λ u. leb_ℤ u l) (times db.rows)
      → Passes (λ u. ltb_ℤ u l) db.breaks
      → ts.timestamp row ≡ l +ℤ pos 1
      → ((close_interval l db).breaks ≡ db.breaks ++ (l +ℤ pos 1) ∷ [])
        × (close_interval (l +ℤ pos 1) (then_row l row db) ≡ then_row l row db)
  close_interval-one_row l row db made last within breaks_before here =
      let first = first_closing l db made last within breaks_before in
      let breaks = ap (λ (d : Tables Row). d.breaks) first in
      (breaks, second_closing l row db here within breaks_before (then_row l row db) refl breaks)
