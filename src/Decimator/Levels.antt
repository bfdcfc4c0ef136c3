-- ===== src/Decimator/Levels.antt =====
-- The chain of decimators: its fuel, the size of each level, and where it is cut.
use joule.Base.{
  ℕ, zero, suc, ◌+◌, ◌*◌, ◌/◌, ◌≤◌, ◌<◌, ◌≡◌, refl, ap, sym, ◌∙◌, true, Option, none, some, List,
  [], ◌∷◌, ◌++◌, length, drop, arith, length-append, length-drop, length-map, ◌==◌, if_ind, ◌≢◌,
}
use native.Mathlib.Nat.{div-mul-le_self, lt-div-mul-add, add-mul, mul-le-mul_left}
use joule.Decimator.{
  Samples, Decimator, DbCall, decimate_group, width, groups, process_rows, process_level,
  process_made, process, child_of, pass_on, new_decimator, extend,
}

-- Groups of `k` rows, `k` at least two, from `r + n` rows where `r < k`: there are at most `n` of them,
-- and fewer where `r` is zero and there is any.
few_groups : (n k r out : ℕ) → 2 ≤ k → r < k → out * k ≤ r + n → out ≤ n
few_groups n k r zero big room fits = omega arith
few_groups n k r (suc out) big room fits =
    let twice : out * 2 ≤ out * k = mul-le-mul_left out big in omega (arith, add-mul out 1 k)

fewer_groups : (n k out : ℕ) → 2 ≤ k → out * k ≤ n → 0 < out → out < n
fewer_groups n k out big fits some_row =
    let twice : out * 2 ≤ out * k = mul-le-mul_left out big in omega arith

module _ {V : Type 0} where
  length-groups : (n k : ℕ) (rows : List (List V)) → length (groups n k rows) ≡ n
  unfolding groups
  length-groups zero k rows = refl
  length-groups (suc n) k rows = ap suc (length-groups n k (drop k rows))

  extend-ne-none :
      (d : Decimator V) (calls : List (DbCall V))
      (o : Option (List (Decimator V) × List (DbCall V)))
      → o ≢ none
      → extend d calls o ≢ none
  extend-ne-none d calls none h e = h refl
  extend-ne-none d calls (some x) h e = cc

  pass_on-ne-none :
      (out : List (List V)) (d : Decimator V) (chain : List (Decimator V)) (calls : List (DbCall V))
      (child : List (List V) → Option (List (Decimator V) × List (DbCall V)))
      → (0 < length out → child out ≢ none)
      → pass_on out d chain calls child ≢ none
  pass_on-ne-none [] d chain calls child h e = cc
  pass_on-ne-none (r ∷ rs) d chain calls child h e =
      extend-ne-none d calls (child (r ∷ rs)) (h (omega arith)) e

  -- Factors of two or more, and buffers that hold less than a group.
  abbrev pub AllBuffered : List (Decimator V) → Type 0
  AllBuffered [] = Unit
  AllBuffered (d ∷ ds) = (2 ≤ d.factor) × (length d.buffer < d.factor) × AllBuffered ds

module _ {V : Type 0} ⦃samples : Samples V⦄ where
  -- A decimator with a factor of two or more makes one row of each whole group of rows and keeps
  -- fewer rows than a group; none is lost.
  pub process_rows_sizes :
      (d : Decimator V) (rows : List (List V))
      → 2 ≤ d.factor
      → let (out, d') = process_rows d rows in
        let n = length d.buffer + length rows in
        (length out ≡ n / d.factor)
        × (length out * d.factor + length d'.buffer ≡ n)
        × (length d'.buffer < d.factor)
  unfolding process_rows
  process_rows_sizes d rows big =
      let joined = d.buffer ++ rows in
      let n = length joined / d.factor in
      let total = length-append d.buffer rows in
      let fits = div-mul-le_self (length joined) d.factor in
      let tight = lt-div-mul-add {a = length joined} {b = d.factor} (omega arith) in
      let kept = length-drop (n * d.factor) joined in
      let Sizes = λ (out : List (List V) × Decimator V).
        (length out.0 ≡ length joined / d.factor)
        × (length out.0 * d.factor + length out.1.buffer ≡ length joined)
        × (length out.1.buffer < d.factor) in
      rw (← total) (
        if_ind Sizes (n * d.factor == 0)
          (λ few.
            let none_whole : n ≡ 0 = grind arith in (sym none_whole, omega arith, ground arith))
          (λ _.
            let made =
              length-map (decimate_group d.again (width joined)) (groups n d.factor joined)
              ∙ length-groups n d.factor joined in
            (made, rw made (omega (arith, kept)), omega (arith, kept))))

  process_level_fits :
      (d : Decimator V) (rows : List (List V))
      → 2 ≤ d.factor
      → length (process_level d rows).0 * d.factor ≤ length d.buffer + length rows
  unfolding process_level
  process_level_fits d rows big =
      let (_, whole, _) = process_rows_sizes (record d { path_created = true }) rows big in
      omega arith

  process_level-factor :
      (d : Decimator V) (rows : List (List V)) → (process_level d rows).1.factor ≡ d.factor
  unfolding process_level process_rows
  process_level-factor d rows = ground arith

  -- A child that is new has an empty buffer, so a level has fewer rows than the one before.
  process_made_fresh :
      (fuel : ℕ) (d : Decimator V) (rows : List (List V))
      → 2 ≤ d.factor
      → length d.buffer ≡ 0
      → length rows < fuel
      → process_made fuel d rows ≢ none
  unfolding process_made new_decimator
  process_made_fresh zero d rows big fresh h = absurd (omega arith)
  process_made_fresh (suc fuel) d rows big fresh h =
      let (out, d', calls) = process_level d rows in
      let fits = process_level_fits d rows big in
      pass_on-ne-none out d' [] calls (process_made fuel (child_of d')) λ some_row.
        let fewer = fewer_groups (length rows) d.factor (length out) big (omega arith) some_row in
        process_made_fresh fuel (child_of d') out (rw (process_level-factor d rows) big) refl
          (omega arith)

  -- `process` ends, whatever the chain, with fuel greater than the number of rows and one, if every
  -- factor is at least two and every buffer holds less than a group.
  pub process-ne-none :
      (fuel : ℕ) (d : Decimator V) (chain : List (Decimator V)) (rows : List (List V))
      → AllBuffered (d ∷ chain)
      → length rows + 1 < fuel
      → process fuel d chain rows ≢ none
  unfolding process process_made new_decimator
  process-ne-none zero d [] rows h enough = absurd (omega arith)
  process-ne-none (suc fuel) d [] rows (big, room, _) enough =
      let (out, d', calls) = process_level d rows in
      let few =
        few_groups (length rows) d.factor (length d.buffer) (length out) big room
          (process_level_fits d rows big) in
      pass_on-ne-none out d' [] calls (process_made fuel (child_of d')) λ _.
        process_made_fresh fuel (child_of d') out (rw (process_level-factor d rows) big) refl
          (omega arith)
  process-ne-none fuel d (child ∷ chain) rows (big, room, rest) enough =
      let (out, d', calls) = process_level d rows in
      let few =
        few_groups (length rows) d.factor (length d.buffer) (length out) big room
          (process_level_fits d rows big) in
      pass_on-ne-none out d' (child ∷ chain) calls (process fuel child chain)
        λ _. process-ne-none fuel child chain out rest (omega arith)
