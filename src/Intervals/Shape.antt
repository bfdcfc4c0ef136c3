-- ===== src/Intervals/Shape.antt =====
-- The order of the intervals that `_interval_math_helper` returns.
use joule.Base.{
  ℕ, ◌≤◌, ◌<◌, Bool, false, not, ◌&&◌, refl, Option, none, some, List, [], ◌∷◌, ◌++◌, arith,
  Bool-cases, inl, inr, append-nil, subst, sym,
}
use joule.Intervals.{
  Interval, src_start, src_end, dest_start, dest_end, Event, decorate, imerge, set_flags, closed,
  advance, Scan, visit, scan, interval_math_helper, interval_difference, interval_intersection,
}
use joule.Intervals.Merge.{IsSortedFrom, IsOrderedFrom, imerge-IsSortedFrom, decorate-IsSortedFrom}

-- Between `lo` and `hi`: each interval ends after it starts, and no later than the next one starts.
abbrev pub IsProperWithin : ℕ → ℕ → List Interval → Type 0
IsProperWithin lo hi [] = lo ≤ hi
IsProperWithin lo hi ((s, e) ∷ rest) = (lo ≤ s) × (s < e) × IsProperWithin e hi rest

-- The same with no upper bound.
abbrev pub IsProperFrom : ℕ → List Interval → Type 0
IsProperFrom lo [] = Unit
IsProperFrom lo ((s, e) ∷ rest) = (lo ≤ s) × (s < e) × IsProperFrom e rest

IsProperWithin-append :
    (lo mid hi s e : ℕ) (l : List Interval)
    → IsProperWithin lo mid l
    → mid ≤ s
    → s < e
    → e ≤ hi
    → IsProperWithin lo hi (l ++ (s, e) ∷ [])
IsProperWithin-append lo mid hi s e [] h a b c = omega arith
IsProperWithin-append lo mid hi s e ((s', e') ∷ l) h a b c =
    (h.0, h.1, IsProperWithin-append e' mid hi s e l h.2 a b c)

IsProperWithin-weaken :
    (lo mid hi : ℕ) (l : List Interval)
    → IsProperWithin lo mid l
    → mid ≤ hi
    → IsProperWithin lo hi l
IsProperWithin-weaken lo mid hi [] h a = omega arith
IsProperWithin-weaken lo mid hi ((s, e) ∷ l) h a =
    (h.0, h.1, IsProperWithin-weaken e mid hi l h.2 a)

IsProperWithin-From : (lo hi : ℕ) (l : List Interval) → IsProperWithin lo hi l → IsProperFrom lo l
IsProperWithin-From lo hi [] h = tt
IsProperWithin-From lo hi ((s, e) ∷ l) h = (h.0, h.1, IsProperWithin-From e hi l h.2)

pub IsProperFrom-IsOrderedFrom :
    (lo : ℕ) (l : List Interval) → IsProperFrom lo l → IsOrderedFrom lo l
IsProperFrom-IsOrderedFrom lo [] h = tt
IsProperFrom-IsOrderedFrom lo ((s, e) ∷ l) h =
    (h.0, omega arith, IsProperFrom-IsOrderedFrom e l h.2)

closed-IsProperWithin :
    (lo s ts : ℕ) (r : List Interval)
    → IsProperWithin lo s r
    → s ≤ ts
    → IsProperWithin lo ts (r ++ closed (some s) ts)
closed-IsProperWithin lo s ts r h le =
    ground (
      arith,
      IsProperWithin-append lo s ts s ts r h,
      IsProperWithin-weaken lo s ts r h,
      append-nil r,
    )

-- What is collected ends by the start of the open interval, or by the last event.
abbrev Collected : ℕ → Option ℕ → ℕ → List Interval → Type 0
Collected base none lo r = IsProperWithin base lo r
Collected base (some s) lo r = IsProperWithin base s r × (s ≤ lo)

module _ (op : Bool → Bool → Bool) (base : ℕ) where
  scan-IsProperFrom :
      (lo : ℕ) (es : List Event) (f : Bool × Bool) (out : Option ℕ) (r : List Interval)
      → IsSortedFrom lo es
      → Collected base out lo r
      → let s : Scan = record { in_src = f.0; in_dest = f.1; out_start = out; result = r } in
        IsProperFrom base (scan op es s).result
  unfolding scan visit
  scan-IsProperFrom lo [] f none r h c = IsProperWithin-From base lo r c
  scan-IsProperFrom lo [] f (some s) r h c = IsProperWithin-From base s r c.0
  scan-IsProperFrom lo (e ∷ es) f none r h c =
      let g = set_flags e.key f in
      let weaker = IsProperWithin-weaken base lo e.ts r c h.0 in
      let s : Scan = record { in_src = f.0; in_dest = f.1; out_start = none; result = r } in
      let Goal = λ (b : Bool). IsProperFrom base (scan op es (advance b g e.ts s)).result in
      elim (Bool-cases (op g.0 g.1)) [
        | inl inc ↦
            subst Goal (sym inc)
              (scan-IsProperFrom e.ts es g (some e.ts) r h.1 (weaker, omega arith))
        | inr out ↦
            subst Goal (sym out)
              (scan-IsProperFrom e.ts es g none (r ++ []) h.1 (rw (append-nil r) weaker))
      ]
  scan-IsProperFrom lo (e ∷ es) f (some s) r h c =
      let g = set_flags e.key f in
      let before : Scan = record { in_src = f.0; in_dest = f.1; out_start = some s; result = r } in
      let Goal = λ (b : Bool). IsProperFrom base (scan op es (advance b g e.ts before)).result in
      elim (Bool-cases (op g.0 g.1)) [
        | inl inc ↦
            subst Goal (sym inc) (scan-IsProperFrom e.ts es g (some s) r h.1 (c.0, omega arith))
        | inr out ↦ subst Goal (sym out) (
            scan-IsProperFrom e.ts es g none (r ++ closed (some s) e.ts) h.1
              (closed-IsProperWithin base s e.ts r c.0 (omega arith)))
      ]

  -- For ordered arguments the result is in order and has no empty interval.
  interval_math_helper-IsProperFrom :
      (src dest : List Interval)
      → IsOrderedFrom base src
      → IsOrderedFrom base dest
      → IsProperFrom base (interval_math_helper src dest op)
  unfolding interval_math_helper
  interval_math_helper-IsProperFrom src dest hs hd =
      let xs = decorate src_start src_end src in
      let ys = decorate dest_start dest_end dest in
      scan-IsProperFrom base (imerge xs ys) (false, false) none []
        (imerge-IsSortedFrom base xs ys
          (decorate-IsSortedFrom src_start src_end refl refl base src hs)
          (decorate-IsSortedFrom dest_start dest_end refl refl base dest hd))
        (omega arith)

module _ (lo : ℕ) (src dest : List Interval) (hs : IsOrderedFrom lo src)
    (hd : IsOrderedFrom lo dest) where
  -- For ordered arguments, the intervals of the difference are in order, none starts before the one
  -- before it ends, and each ends after it starts.
  pub interval_difference-IsProperFrom : IsProperFrom lo (interval_difference src dest)
  unfolding interval_difference
  interval_difference-IsProperFrom =
      interval_math_helper-IsProperFrom (λ s d. s && not d) lo src dest hs hd

  -- For ordered arguments, the intervals of the intersection are in order, none starts before the one
  -- before it ends, and each ends after it starts.
  pub interval_intersection-IsProperFrom : IsProperFrom lo (interval_intersection src dest)
  unfolding interval_intersection
  interval_intersection-IsProperFrom =
      interval_math_helper-IsProperFrom (λ s d. s && d) lo src dest hs hd
