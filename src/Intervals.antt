-- ===== src/Intervals.antt =====
-- Interval sets: src/joule/utilities/interval_tools.py. Timestamps are only compared there, so
-- they are natural numbers. An interval is the pair of its start and end.
pub mod Merge
pub mod Membership
pub mod Shape
pub mod Copy
mod Tests
use joule.Base.{
  ℕ, Bool, true, false, not, ◌&&◌, Option, none, some, List, [], ◌∷◌, ◌++◌, ltb, ◌==◌,
  if◌then◌else◌,
}

abbrev pub Interval : Type 0
Interval = ℕ × ℕ

-- The tags 0 to 3 that `decorate` yields, in that order.
pub data Key : Type 0 where
  src_start dest_start src_end dest_end : Key

abbrev pub rank : Key → ℕ
rank src_start = 0
rank dest_start = 1
rank src_end = 2
rank dest_end = 3

-- A decorated end point, `(ts, k, i)`. The third component is never read, and never compared,
-- since the two iterators have no tag in common.
pub record Event : Type 0 where
  pub ts : ℕ
  pub key : Key

pub decorate : Key → Key → List Interval → List Event
decorate key_start key_end [] = []
decorate key_start key_end ((s, e) ∷ rest) =
    record { ts = s; key = key_start }
    ∷ record { ts = e; key = key_end }
    ∷ decorate key_start key_end rest

-- Tuples compare by timestamp, then by tag.
abbrev pub before : Event → Event → Bool
before x y = if x.ts == y.ts then ltb (rank x.key) (rank y.key) else ltb x.ts y.ts

-- `imerge` at two iterators: the heap holds the head of each, and the least is yielded.
pub imerge : List Event → List Event → List Event
imerge [] ys = ys
imerge (x ∷ xs) [] = x ∷ xs
imerge (x ∷ xs) (y ∷ ys) = elim (before y x) [
  | true ↦ y ∷ imerge (x ∷ xs) ys
  | false ↦ x ∷ imerge xs (y ∷ ys)
]

-- The variables of the loop of `_interval_math_helper`.
pub record Scan : Type 0 where
  pub in_src : Bool
  pub in_dest : Bool
  pub out_start : Option ℕ
  pub result : List Interval

abbrev pub set_flags : Key → Bool × Bool → Bool × Bool
set_flags src_start (in_src, in_dest) = (true, in_dest)
set_flags dest_start (in_src, in_dest) = (in_src, true)
set_flags src_end (in_src, in_dest) = (false, in_dest)
set_flags dest_end (in_src, in_dest) = (in_src, false)

-- What the `elif not include` branch appends.
abbrev pub closed : Option ℕ → ℕ → List Interval
closed none ts = []
closed (some start) ts = if start == ts then [] else (start, ts) ∷ []

abbrev pub opened : Option ℕ → ℕ → Option ℕ
opened none ts = some ts
opened (some start) ts = some start

-- One round of the loop, after the flags are set.
abbrev pub advance : Bool → Bool × Bool → ℕ → Scan → Scan
advance include flags ts s =
    if include
    then record {
      in_src = flags.0;
      in_dest = flags.1;
      out_start = opened s.out_start ts;
      result = s.result;
    }
    else record {
      in_src = flags.0;
      in_dest = flags.1;
      out_start = none;
      result = s.result ++ closed s.out_start ts;
    }

pub visit : (Bool → Bool → Bool) → Event → Scan → Scan
visit op e s =
    let flags = set_flags e.key (s.in_src, s.in_dest) in advance (op flags.0 flags.1) flags e.ts s

pub scan : (Bool → Bool → Bool) → List Event → Scan → Scan
scan op [] s = s
scan op (e ∷ es) s = scan op es (visit op e s)

abbrev pub start_scan : Scan
start_scan = record { in_src = false; in_dest = false; out_start = none; result = [] }

pub interval_math_helper : List Interval → List Interval → (Bool → Bool → Bool) → List Interval
unfolding decorate imerge scan visit
interval_math_helper src dest op =
    (scan op (imerge (decorate src_start src_end src) (decorate dest_start dest_end dest))
      start_scan).result

pub interval_difference : List Interval → List Interval → List Interval
unfolding interval_math_helper
interval_difference src dest = interval_math_helper src dest (λ s d. s && not d)

pub interval_intersection : List Interval → List Interval → List Interval
unfolding interval_math_helper
interval_intersection src dest = interval_math_helper src dest (λ s d. s && d)
