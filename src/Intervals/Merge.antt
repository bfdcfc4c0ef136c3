-- ===== src/Intervals/Merge.antt =====
-- The merged event list of `_interval_math_helper`: the flags that its loop has at each time.
use joule.Base.{
  ℕ, ◌≤◌, ◌<◌, Bool, true, false, ◌&&◌, ◌||◌, ◌≡◌, refl, List, [], ◌∷◌, arith, ltb, leb, Bool-cases,
  inl, inr,
}
use joule.Intervals.{
  Interval, Key, src_start, src_end, dest_start, Event, decorate, before, imerge, set_flags,
}

-- No event is before `lo`, or before an earlier event.
abbrev pub IsSortedFrom : ℕ → List Event → Type 0
IsSortedFrom lo [] = Unit
IsSortedFrom lo (e ∷ es) = (lo ≤ e.ts) × IsSortedFrom e.ts es

-- Intervals in order: each starts where the one before ends, or later, and none is backward.
abbrev pub IsOrderedFrom : ℕ → List Interval → Type 0
IsOrderedFrom lo [] = Unit
IsOrderedFrom lo ((s, e) ∷ rest) = (lo ≤ s) × (s ≤ e) × IsOrderedFrom e rest

-- Some interval `[start, end)` of the list holds the time `t`.
abbrev pub covers : ℕ → List Interval → Bool
covers t [] = false
covers t ((s, e) ∷ rest) = leb s t && ltb t e || covers t rest

-- The flags once all events up to time `t` are processed.
unfoldable pub flags_at : List Event → Bool × Bool → ℕ → Bool × Bool
flags_at [] f t = f
flags_at (e ∷ es) f t = elim (leb e.ts t) [ true ↦ flags_at es (set_flags e.key f) t | false ↦ f ]

unfoldable pub final_flags : List Event → Bool × Bool → Bool × Bool
final_flags [] f = f
final_flags (e ∷ es) f = final_flags es (set_flags e.key f)

abbrev pub is_src : Key → Bool
is_src src_start = true
is_src src_end = true
is_src _ = false

abbrev pub is_start : Key → Bool
is_start src_start = true
is_start dest_start = true
is_start _ = false

-- All events are of the source (`true`) or of the destination.
abbrev pub AllOf : Bool → List Event → Type 0
AllOf side [] = Unit
AllOf side (e ∷ es) = (is_src e.key ≡ side) × AllOf side es

-- One side's flag at time `t`.
pub level : List Event → Bool → ℕ → Bool
level [] a t = a
level (e ∷ es) a t = elim (leb e.ts t) [ true ↦ level es (is_start e.key) t | false ↦ a ]

pub final_level : List Event → Bool → Bool
final_level [] a = a
final_level (e ∷ es) a = final_level es (is_start e.key)

-- Before the first event the flags are those of the start.
pub flags_at_early :
    (lo t : ℕ) (es : List Event) (f : Bool × Bool)
    → IsSortedFrom lo es
    → t < lo
    → flags_at es f t ≡ f
unfolding flags_at
flags_at_early lo t [] f h lt = refl
flags_at_early lo t (e ∷ es) f h lt = ground arith

level_early :
    (lo t : ℕ) (es : List Event) (a : Bool) → IsSortedFrom lo es → t < lo → level es a t ≡ a
unfolding level
level_early lo t [] a h lt = refl
level_early lo t (e ∷ es) a h lt = ground arith

flags_at-src :
    (t : ℕ) (es : List Event) (a b : Bool)
    → AllOf true es
    → flags_at es (a, b) t ≡ (level es a t, b)
unfolding flags_at level
flags_at-src t [] a b h = refl
flags_at-src t (e ∷ es) a b h = ground (arith, flags_at-src t es (is_start e.key) b h.1)

flags_at-dest :
    (t : ℕ) (es : List Event) (a b : Bool)
    → AllOf false es
    → flags_at es (a, b) t ≡ (a, level es b t)
unfolding flags_at level
flags_at-dest t [] a b h = refl
flags_at-dest t (e ∷ es) a b h = ground (arith, flags_at-dest t es a (is_start e.key) h.1)

set_flags-src : (k : Key) (a b : Bool) → is_src k ≡ true → set_flags k (a, b) ≡ (is_start k, b)
set_flags-src k a b h = ground arith

set_flags-dest : (k : Key) (a b : Bool) → is_src k ≡ false → set_flags k (a, b) ≡ (a, is_start k)
set_flags-dest k a b h = ground arith

before-le : (x y : Event) → before y x ≡ true → y.ts ≤ x.ts
before-le x y h = ground arith

not-before-le : (x y : Event) → before y x ≡ false → x.ts ≤ y.ts
not-before-le x y h = ground arith

module _ (t : ℕ) (x y : Event) (xs ys rest : List Event) (a b : Bool) where
  merged_dest_first :
      y.ts ≤ x.ts
      → is_src y.key ≡ false
      → flags_at rest (a, is_start y.key) t ≡ (level (x ∷ xs) a t, level ys (is_start y.key) t)
      → flags_at (y ∷ rest) (a, b) t ≡ (level (x ∷ xs) a t, level (y ∷ ys) b t)
  unfolding flags_at level
  merged_dest_first le side ih = ground (arith, set_flags-dest y.key a b side)

  merged_src_first :
      x.ts ≤ y.ts
      → is_src x.key ≡ true
      → flags_at rest (is_start x.key, b) t ≡ (level xs (is_start x.key) t, level (y ∷ ys) b t)
      → flags_at (x ∷ rest) (a, b) t ≡ (level (x ∷ xs) a t, level (y ∷ ys) b t)
  unfolding flags_at level
  merged_src_first le side ih = ground (arith, set_flags-src x.key a b side)

module _ (x y : Event) (xs ys : List Event) where
  imerge-dest : before y x ≡ true → imerge (x ∷ xs) (y ∷ ys) ≡ y ∷ imerge (x ∷ xs) ys
  unfolding imerge
  imerge-dest h = ground arith

  imerge-src : before y x ≡ false → imerge (x ∷ xs) (y ∷ ys) ≡ x ∷ imerge xs (y ∷ ys)
  unfolding imerge
  imerge-src h = ground arith

-- In the merged list each side's flag is what that side alone gives.
pub flags_at-imerge :
    (t : ℕ) (xs ys : List Event) (a b : Bool)
    → AllOf true xs
    → AllOf false ys
    → flags_at (imerge xs ys) (a, b) t ≡ (level xs a t, level ys b t)
unfolding imerge
flags_at-imerge t [] ys a b hx hy = unfold level in flags_at-dest t ys a b hy
flags_at-imerge t (x ∷ xs) [] a b hx hy = unfold level in flags_at-src t (x ∷ xs) a b hx
flags_at-imerge t (x ∷ xs) (y ∷ ys) a b hx hy = elim (Bool-cases (before y x)) [
  | inl dest ↦ rw (imerge-dest x y xs ys dest) (
      merged_dest_first t x y xs ys (imerge (x ∷ xs) ys) a b (before-le x y dest) hy.0
        (flags_at-imerge t (x ∷ xs) ys a (is_start y.key) hx hy.1))
  | inr src ↦ rw (imerge-src x y xs ys src) (
      merged_src_first t x y xs ys (imerge xs (y ∷ ys)) a b (not-before-le x y src) hx.0
        (flags_at-imerge t xs (y ∷ ys) (is_start x.key) b hx.1 hy))
]

pub imerge-IsSortedFrom :
    (lo : ℕ) (xs ys : List Event)
    → IsSortedFrom lo xs
    → IsSortedFrom lo ys
    → IsSortedFrom lo (imerge xs ys)
unfolding imerge
imerge-IsSortedFrom lo [] ys hx hy = hy
imerge-IsSortedFrom lo (x ∷ xs) [] hx hy = hx
imerge-IsSortedFrom lo (x ∷ xs) (y ∷ ys) hx hy = elim (Bool-cases (before y x)) [
  | inl dest ↦
      rw (imerge-dest x y xs ys dest)
        (hy.0, imerge-IsSortedFrom y.ts (x ∷ xs) ys (before-le x y dest, hx.1) hy.1)
  | inr src ↦
      rw (imerge-src x y xs ys src)
        (hx.0, imerge-IsSortedFrom x.ts xs (y ∷ ys) hx.1 (not-before-le x y src, hy.1))
]

final_flags-src :
    (es : List Event) (a b : Bool) → AllOf true es → final_flags es (a, b) ≡ (final_level es a, b)
unfolding final_flags final_level
final_flags-src [] a b h = refl
final_flags-src (e ∷ es) a b h =
    cc (set_flags-src e.key a b h.0, final_flags-src es (is_start e.key) b h.1)

final_flags-dest :
    (es : List Event) (a b : Bool) → AllOf false es → final_flags es (a, b) ≡ (a, final_level es b)
unfolding final_flags final_level
final_flags-dest [] a b h = refl
final_flags-dest (e ∷ es) a b h =
    cc (set_flags-dest e.key a b h.0, final_flags-dest es a (is_start e.key) h.1)

pub final_flags-imerge :
    (xs ys : List Event) (a b : Bool)
    → AllOf true xs
    → AllOf false ys
    → final_flags (imerge xs ys) (a, b) ≡ (final_level xs a, final_level ys b)
unfolding imerge final_flags final_level
final_flags-imerge [] ys a b hx hy = final_flags-dest ys a b hy
final_flags-imerge (x ∷ xs) [] a b hx hy = final_flags-src (x ∷ xs) a b hx
final_flags-imerge (x ∷ xs) (y ∷ ys) a b hx hy = elim (Bool-cases (before y x)) [
  | inl dest ↦ rw (imerge-dest x y xs ys dest) (
      cc (set_flags-dest y.key a b hy.0, final_flags-imerge (x ∷ xs) ys a (is_start y.key) hx hy.1))
  | inr src ↦
      rw (imerge-src x y xs ys src) (
        cc
          (set_flags-src x.key a b hx.0, final_flags-imerge xs (y ∷ ys) (is_start x.key) b hx.1 hy))
]

-- One iterator of `decorate`.
module _ (start end : Key) (opens : is_start start ≡ true) (closes : is_start end ≡ false) where
  pub covers_early :
      (lo t : ℕ) (l : List Interval) → IsOrderedFrom lo l → t < lo → covers t l ≡ false
  covers_early lo t [] h lt = refl
  covers_early lo t ((s, e) ∷ rest) h lt = ground (arith, covers_early e t rest)

  pub level-decorate :
      (lo t : ℕ) (l : List Interval)
      → IsOrderedFrom lo l
      → level (decorate start end l) false t ≡ covers t l
  unfolding decorate level
  level-decorate lo t [] h = refl
  level-decorate lo t ((s, e) ∷ rest) h =
      ground (arith, level-decorate e t rest h.2, covers_early e t rest h.2)

  pub decorate-IsSortedFrom :
      (lo : ℕ) (l : List Interval) → IsOrderedFrom lo l → IsSortedFrom lo (decorate start end l)
  unfolding decorate
  decorate-IsSortedFrom lo [] h = tt
  decorate-IsSortedFrom lo ((s, e) ∷ rest) h = (h.0, (h.1, decorate-IsSortedFrom e rest h.2))

  pub final_level-decorate : (l : List Interval) → final_level (decorate start end l) false ≡ false
  unfolding decorate final_level
  final_level-decorate [] = refl
  final_level-decorate ((s, e) ∷ rest) = ground (arith, final_level-decorate rest)

  pub decorate-AllOf :
      (side : Bool) (l : List Interval)
      → is_src start ≡ side
      → is_src end ≡ side
      → AllOf side (decorate start end l)
  unfolding decorate
  decorate-AllOf side [] h k = tt
  decorate-AllOf side ((s, e) ∷ rest) h k = (h, (k, decorate-AllOf side rest h k))
