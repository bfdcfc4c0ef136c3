-- ===== src/Worker/Timestamps.antt =====
-- The check of the timestamps, against increasing sequences of integers.
use joule.Base.{
  ◌+◌, ◌%◌, ◌<◌, ◌≡◌, refl, Bool, true, false, not, ◌&&◌, Option, some, List, [], ◌∷◌, ◌++◌, arith,
}
use joule.Base.Int.{ℤ, pos, negsuc, pos_part, neg_part, ltb_ℤ, ◌-ℤ◌, -ℤ_parts}
use native.Mathlib.Nat.{mod-eq_of_lt}
use joule.Worker.{
  wrap_int64, diffs, least, steps_back, is_after, verify_monotonic_timestamps, last_of,
}

-- Each timestamp is later than the one before, and the first than `last`.
unfoldable pub increasing_from : Option ℤ → List ℤ → Bool
increasing_from last [] = true
increasing_from last (t ∷ ts) = is_after last t && increasing_from (some t) ts

-- Timestamps whose differences fit into 64 bits: between -2^62 and 2^62.
abbrev pub AreTimes : List ℤ → Type 0
AreTimes [] = Unit
AreTimes (t ∷ ts) =
    (pos_part t < 4611686018427387904) × (neg_part t < 4611686018427387904) × AreTimes ts

wrap_small :
    (d : ℤ) → pos_part d < 9223372036854775808 → neg_part d < 9223372036854775808 → wrap_int64 d ≡ d
unfolding wrap_int64
wrap_small (pos n) hp hn =
    let e : n % 18446744073709551616 ≡ n = mod-eq_of_lt (omega arith) in rw e (ground arith)
wrap_small (negsuc n) hp hn =
    let e : n % 18446744073709551616 ≡ n = mod-eq_of_lt (omega arith) in rw e (ground arith)

-ℤ_small :
    (a b : ℤ)
    → pos_part a + neg_part b < 9223372036854775808
    → neg_part a + pos_part b < 9223372036854775808
    → (pos_part (a -ℤ b) < 9223372036854775808) × (neg_part (a -ℤ b) < 9223372036854775808)
unfolding ◌-ℤ◌
-ℤ_small a b hp hn = ground arith

-- A difference is positive exactly if the second timestamp is later.
later-diff :
    (a b : ℤ) (ts : List ℤ)
    → AreTimes (a ∷ b ∷ ts)
    → ltb_ℤ (pos 0) (wrap_int64 (b -ℤ a)) ≡ ltb_ℤ a b
later-diff a b ts h =
    let parts = -ℤ_parts b a in
    let small = -ℤ_small b a (omega arith) (omega arith) in
    rw (wrap_small (b -ℤ a) small.0 small.1) (ground (arith, parts))

least-positive :
    (d e : ℤ) (ds : List ℤ)
    → ltb_ℤ (pos 0) (least d (e ∷ ds)) ≡ (ltb_ℤ (pos 0) d && ltb_ℤ (pos 0) (least e ds))
unfolding least
least-positive d e ds = ground arith

not-not-and : (x : Bool) → not (not x) ≡ (x && true)
not-not-and true = refl
not-not-and false = refl

join_tests :
    {p x i a : Bool} (y : Bool) → p ≡ (x && y) → x ≡ a → not (not y) ≡ i → not (not p) ≡ (a && i)
join_tests y hp hx hy = ground arith

not-steps_back :
    (t : ℤ) (ts : List ℤ)
    → AreTimes (t ∷ ts)
    → not (steps_back (diffs (t ∷ ts))) ≡ increasing_from (some t) ts
unfolding diffs increasing_from least
not-steps_back t [] h = refl
not-steps_back a (b ∷ []) h = rw (later-diff a b [] h) (not-not-and (ltb_ℤ a b))
not-steps_back a (b ∷ c ∷ ts) h =
    join_tests _ (least-positive (wrap_int64 (b -ℤ a)) (wrap_int64 (c -ℤ b)) (diffs (c ∷ ts)))
      (later-diff a b (c ∷ ts) h) (not-steps_back b (c ∷ ts) (h.2))

-- For timestamps between -2^62 and 2^62, a block passes the check exactly if its timestamps
-- increase, starting after the last of the block before.
pub verify_monotonic_timestamps_lem :
    (last : Option ℤ) (ts : List ℤ)
    → AreTimes ts
    → verify_monotonic_timestamps ts last ≡ increasing_from last ts
unfolding verify_monotonic_timestamps increasing_from
verify_monotonic_timestamps_lem last [] h = refl
verify_monotonic_timestamps_lem last (t ∷ ts) h = let e = not-steps_back t ts h in ground arith

and_cases : (x y : Bool) → (x && y) ≡ true → (x ≡ true) × (y ≡ true)
and_cases x y h = ground arith

-- The last timestamp of a sequence that comes after `last`.
abbrev pub last_after : Option ℤ → List ℤ → Option ℤ
last_after last [] = last
last_after last (t ∷ ts) = some (last_of t ts)

pub increasing-append :
    (last : Option ℤ) (ts us : List ℤ)
    → increasing_from last ts ≡ true
    → increasing_from (last_after last ts) us ≡ true
    → increasing_from last (ts ++ us) ≡ true
unfolding increasing_from
increasing-append last [] us h k = k
increasing-append last (t ∷ []) us h k = rw ((and_cases (is_after last t) true h).0) k
increasing-append last (t ∷ t' ∷ ts) us h k =
    let (first, later) = and_cases (is_after last t) (increasing_from (some t) (t' ∷ ts)) h in
    rw first (increasing-append (some t) (t' ∷ ts) us later k)

pub last_after-append :
    (last : Option ℤ) (ts : List ℤ) (u : ℤ) (us : List ℤ)
    → last_after last (ts ++ u ∷ us) ≡ some (last_of u us)
last_after-append last [] u us = refl
last_after-append last (t ∷ []) u us = refl
last_after-append last (t ∷ t' ∷ ts) u us = last_after-append last (t' ∷ ts) u us
