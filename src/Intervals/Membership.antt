-- ===== src/Intervals/Membership.antt =====
-- The times in the intervals that the loop of `_interval_math_helper` collects.
use joule.Base.{
  ℕ, ◌≤◌, Bool, true, false, not, ◌&&◌, ◌||◌, ◌≡◌, refl, ◌∙◌, sym, Option, none, some, List, [],
  ◌∷◌, ◌++◌, arith, leb, append-nil, Bool-cases, inl, inr,
}
use joule.Intervals.{
  Interval, src_start, src_end, dest_start, dest_end, Event, decorate, imerge, set_flags, closed,
  Scan, visit, scan, interval_math_helper, interval_difference, interval_intersection,
}
use joule.Intervals.Merge.{
  IsSortedFrom, IsOrderedFrom, covers, flags_at, final_flags, flags_at_early, flags_at-imerge,
  final_flags-imerge, imerge-IsSortedFrom, level-decorate, decorate-IsSortedFrom,
  final_level-decorate, decorate-AllOf,
}

covers-append : (t : ℕ) (xs ys : List Interval) → covers t (xs ++ ys) ≡ (covers t xs || covers t ys)
covers-append t [] ys = refl
covers-append t (x ∷ xs) ys = ground (arith, covers-append t xs ys)

abbrev is_open : Option ℕ → Bool
is_open none = false
is_open (some s) = true

-- The time lies at or after the start of the open interval.
abbrev since : Option ℕ → ℕ → Bool
since none t = true
since (some s) t = leb s t

abbrev StartsBy : Option ℕ → ℕ → Type 0
StartsBy none lo = Unit
StartsBy (some s) lo = s ≤ lo

module _ (op : Bool → Bool → Bool) (t : ℕ) where
  abbrev included : Bool × Bool → Bool
  included f = op f.0 f.1

  scan-covers :
      (lo : ℕ) (es : List Event) (f : Bool × Bool) (out : Option ℕ) (r : List Interval)
      → IsSortedFrom lo es
      → StartsBy out lo
      → is_open out ≡ included f
      → included (final_flags es f) ≡ false
      → let s : Scan = record { in_src = f.0; in_dest = f.1; out_start = out; result = r } in
        covers t (scan op es s).result ≡ (covers t r || (since out t && included (flags_at es f t)))
  unfolding scan visit flags_at final_flags
  scan-covers lo [] f none r h b o z = ground arith
  scan-covers lo [] f (some s) r h b o z = ground arith
  scan-covers lo (e ∷ es) f none r h b o z =
      let g = set_flags e.key f in
      elim (Bool-cases (included g)) [
        | inl inc ↦
            ground (arith, scan-covers e.ts es g (some e.ts) r h.1 (omega arith) (sym inc) z)
        | inr out ↦ ground (
          arith,
          scan-covers e.ts es g none (r ++ []) h.1 tt (sym out) z,
          append-nil r,
          flags_at_early e.ts t es g h.1,
        )
      ]
  scan-covers lo (e ∷ es) f (some s) r h b o z =
      let g = set_flags e.key f in
      elim (Bool-cases (included g)) [
        | inl inc ↦ ground (
          arith,
          scan-covers e.ts es g (some s) r h.1 (omega arith) (sym inc) z,
          flags_at_early e.ts t es g h.1,
        )
        | inr out ↦ ground (
          arith,
          scan-covers e.ts es g none (r ++ closed (some s) e.ts) h.1 tt (sym out) z,
          covers-append t r (closed (some s) e.ts),
          flags_at_early e.ts t es g h.1,
        )
      ]

module _ (op : Bool → Bool → Bool) (t lo : ℕ) (src dest : List Interval) where
  -- The result holds a time exactly where `op` holds of the two memberships.
  covers-interval_math_helper :
      op false false ≡ false
      → IsOrderedFrom lo src
      → IsOrderedFrom lo dest
      → covers t (interval_math_helper src dest op) ≡ op (covers t src) (covers t dest)
  unfolding interval_math_helper
  covers-interval_math_helper outside hs hd =
      let xs = decorate src_start src_end src in
      let ys = decorate dest_start dest_end dest in
      let only_src = decorate-AllOf src_start src_end refl refl true src refl refl in
      let only_dest = decorate-AllOf dest_start dest_end refl refl false dest refl refl in
      let ends = final_flags-imerge xs ys false false only_src only_dest in
      let flags = flags_at-imerge t xs ys false false only_src only_dest in
      scan-covers op t lo (imerge xs ys) (false, false) none []
        (imerge-IsSortedFrom lo xs ys (decorate-IsSortedFrom src_start src_end refl refl lo src hs)
          (decorate-IsSortedFrom dest_start dest_end refl refl lo dest hd))
        tt (sym outside)
        (rw
          (
            ends,
            final_level-decorate src_start src_end refl refl src,
            final_level-decorate dest_start dest_end refl refl dest,
          )
          outside)
      ∙ rw
          (
            flags,
            level-decorate src_start src_end refl refl lo t src hs,
            level-decorate dest_start dest_end refl refl lo t dest hd,
          )
          refl

module _ (t lo : ℕ) (src dest : List Interval) (hs : IsOrderedFrom lo src)
    (hd : IsOrderedFrom lo dest) where
  -- For ordered arguments, a time is in the difference exactly if it is in the first and not in
  -- the second.
  pub covers-interval_difference :
      covers t (interval_difference src dest) ≡ (covers t src && not (covers t dest))
  unfolding interval_difference
  covers-interval_difference =
      covers-interval_math_helper (λ s d. s && not d) t lo src dest refl hs hd

  -- For ordered arguments, a time is in the intersection exactly if it is in both.
  pub covers-interval_intersection :
      covers t (interval_intersection src dest) ≡ (covers t src && covers t dest)
  unfolding interval_intersection
  covers-interval_intersection =
      covers-interval_math_helper (λ s d. s && d) t lo src dest refl hs hd
