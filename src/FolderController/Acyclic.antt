-- ===== src/FolderController/Acyclic.antt =====
-- Tables in which no folder is above itself.
use joule.Base.{
  ℕ, zero, suc, ◌+◌, ◌<◌, ◌≡◌, ◌≢◌, ◌⊎◌, refl, subst, ap, ◌∙◌, Bool, true, false, ◌||◌, Option,
  none, some, List, [], ◌∷◌, ◌==◌, if◌then◌else◌, arith, Bool-cases, inl, inr,
}
use joule.FolderController.Rows.{FolderRow, parent_of, set_parent}
use joule.FolderController.{meets}

-- Parents rank below their children.
abbrev pub Ranks : List FolderRow → (ℕ → ℕ) → Type 0
Ranks rows rank = (x p : ℕ) → parent_of rows x ≡ some p → rank p < rank x

abbrev pub IsAcyclic : List FolderRow → Type 0
IsAcyclic rows = (rank : ℕ → ℕ) × Ranks rows rank

-- The new parent is that of the folder, if it is there.
pub parent_of-set_parent :
    (x d : ℕ) (rows : List FolderRow) (y p : ℕ)
    → parent_of (set_parent x d rows) y ≡ some p
    → ((y ≡ x) × (p ≡ d)) ⊎ ((y ≢ x) × (parent_of rows y ≡ some p))
unfolding parent_of set_parent
parent_of-set_parent x d [] y p h = cc
parent_of-set_parent x d (row ∷ rows) y p h = elim (Bool-cases (row.id == y)) [
  | inl here ↦ elim (Bool-cases (row.id == x)) [
    | inl e ↦ inl (ground arith, ground arith)
    | inr e ↦ inr (ground arith, ground arith)
  ]
  | inr later ↦ elim (parent_of-set_parent x d rows y p (rw later at h)) [
    | inl both ↦ inl both
    | inr (other, up) ↦ inr (other, rw later up)
  ]
]

module _ (rows : List FolderRow) (x : ℕ) where
  -- Whether a folder is `x`, or is below it by at most so many steps.
  reaches : ℕ → Option ℕ → Bool
  reaches k none = false
  reaches zero (some y) = false
  reaches (suc k) (some y) = (y == x) || reaches k (parent_of rows y)

  not-reaches : (k fuel : ℕ) (o : Option ℕ) → meets fuel rows x o ≡ some false → reaches k o ≡ false
  unfolding meets reaches
  not-reaches k fuel none h = refl
  not-reaches zero fuel (some y) h = refl
  not-reaches (suc k) zero (some y) h = cc
  not-reaches (suc k) (suc fuel) (some y) h = elim (Bool-cases (y == x)) [
    | inl e ↦ let bad : some true ≡ some false = rw e at h in absurd (cc)
    | inr e ↦ rw e (not-reaches k fuel (parent_of rows y) (rw e at h))
  ]

module _ (rows : List FolderRow) (rank : ℕ → ℕ) (ranks : Ranks rows rank) where
  -- The loop ends.
  pub meets-total :
      (fuel x : ℕ) (o : Option ℕ)
      → ((p : ℕ) → o ≡ some p → rank p < fuel)
      → (b : Bool) × (meets fuel rows x o ≡ some b)
  unfolding meets
  meets-total fuel x none h = (false, refl)
  meets-total zero x (some p) h = absurd (let k = h p refl in omega arith)
  meets-total (suc fuel) x (some p) h = elim (Bool-cases (p == x)) [
    | inl e ↦ (true, rw e refl)
    | inr e ↦
        let (b, rest) =
          meets-total fuel x (parent_of rows p) (λ q up. omega (arith, ranks p q up, h p refl)) in
        (b, rw e rest)
  ]

  -- Enough steps are as good as more.
  reaches-enough :
      (x j k : ℕ) (o : Option ℕ)
      → ((p : ℕ) → o ≡ some p → rank p < j)
      → ((p : ℕ) → o ≡ some p → rank p < k)
      → reaches rows x j o ≡ reaches rows x k o
  unfolding reaches
  reaches-enough x j k none hj hk = refl
  reaches-enough x zero k (some p) hj hk = absurd (let h = hj p refl in omega arith)
  reaches-enough x (suc j) zero (some p) hj hk = absurd (let h = hk p refl in omega arith)
  reaches-enough x (suc j) (suc k) (some p) hj hk =
      ap (λ b. (p == x) || b)
        (reaches-enough x j k (parent_of rows p) (λ q up. omega (arith, ranks p q up, hj p refl))
          (λ q up. omega (arith, ranks p q up, hk p refl)))

  module _ (x d fuel : ℕ) (apart : (d == x) ≡ false)
      (clear : meets fuel rows x (parent_of rows d) ≡ some false) where
    -- Whether a folder moves with `x`.
    moves : ℕ → Bool
    moves y = reaches rows x (suc (rank y)) (some y)

    -- Those that move rank above the destination.
    pub new_rank : ℕ → ℕ
    new_rank y = if moves y then rank y + suc (rank d) else rank y

    moves_self : moves x ≡ true
    unfolding moves reaches
    moves_self = ground arith

    destination_stays : moves d ≡ false
    unfolding moves reaches
    destination_stays = rw apart (not-reaches rows x (rank d) fuel (parent_of rows d) clear)

    moves-parent : (y p : ℕ) → (y == x) ≡ false → parent_of rows y ≡ some p → moves y ≡ moves p
    unfolding moves reaches
    moves-parent y p other up =
        let below = ranks y p up in
        ap (λ b. b || reaches rows x (rank y) (parent_of rows y)) other
        ∙ ap (λ o. reaches rows x (rank y) o) up
        ∙ reaches-enough x (rank y) (suc (rank p)) (some p)
            (λ q same. let e : p ≡ q = cc in subst (λ r. rank r < rank y) e below)
            (λ q same. let e : p ≡ q = cc in subst (λ r. rank r < suc (rank p)) e (omega arith))

    pub Ranks-new_rank : Ranks (set_parent x d rows) new_rank
    unfolding new_rank
    Ranks-new_rank y p h = elim (parent_of-set_parent x d rows y p h) [
      | inl (same, here) ↦ ground (
        arith,
        moves_self,
        destination_stays,
        ap moves same,
        ap moves here,
        ap rank same,
        ap rank here,
      )
      | inr (other, up) ↦ ground (arith, moves-parent y p (ground arith) up, ranks y p up)
    ]
