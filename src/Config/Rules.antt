-- ===== src/Config/Rules.antt =====
-- Postconditions of the parts of `load_config.run`, and a rule for each way in which they are joined.
use joule.Base.{◌≡◌, refl, Bool, false, subst, sym, Bool-cases, inl, inr}
use joule.Config.Ini.{Problem, Result, ok, failed}
use joule.Config.{M, after, ◌>>◌, raise_if}

module _ {W A : Type 0} where
  -- What holds of a result and the files after it, if there is a result.
  abbrev pub Ensures : (A → W → Type 0) → Result A × W → Type 0
  Ensures P (ok a, w) = P a w
  Ensures P (failed e, w) = Unit

  -- The result is such, and the files have not changed.
  abbrev pub Stays : W → (A → Type 0) → A → W → Type 0
  Stays w P a w' = P a × (w' ≡ w)

  pub weaken :
      (P Q : A → W → Type 0) (out : Result A × W)
      → ((a : A) (w : W) → P a w → Q a w)
      → Ensures P out
      → Ensures Q out
  weaken P Q (ok a, w) more h = more a w h
  weaken P Q (failed e, w) more h = tt

module _ {W A B : Type 0} (Q : B → W → Type 0) where
  pub bind_rule :
      (P : A → W → Type 0) (out : Result A × W) (k : A → M W B)
      → Ensures P out
      → ((a : A) (w : W) → P a w → Ensures Q (k a w))
      → Ensures Q (after k out)
  bind_rule P (ok a, w) k h more = more a w h
  bind_rule P (failed e, w) k h more = tt

  pub any_rule :
      (k : A → M W B) (out : Result A × W)
      → ((a : A) (w : W) → Ensures Q (k a w))
      → Ensures Q (after k out)
  any_rule k (ok a, w) more = more a w
  any_rule k (failed e, w) more = tt

  pub same_files_rule :
      (P : A → Type 0) (w : W) (out : Result A × W) (k : A → M W B)
      → Ensures (Stays w P) out
      → ((a : A) → P a → Ensures Q (k a w))
      → Ensures Q (after k out)
  same_files_rule P w (ok a, w') k h more =
      subst (λ (x : W). Ensures Q (k a x)) (sym h.1) (more a h.0)
  same_files_rule P w (failed e, w') k h more = tt

  pub lift_rule :
      (r : Result A) (w : W) (k : A → M W B)
      → ((a : A) → r ≡ ok a → Ensures Q (k a w))
      → Ensures Q (after k (r, w))
  lift_rule (ok a) w k more = more a refl
  lift_rule (failed e) w k more = tt

module _ {W B : Type 0} (Q : B → W → Type 0) where
  pub raise_rule :
      (test : W → Bool) (problem : Problem) (w : W) (k : M W B)
      → (test w ≡ false → Ensures Q (k w))
      → Ensures Q ((raise_if test problem >> k) w)
  raise_rule test problem w k more = elim (Bool-cases (test w)) [
    | inl e ↦ rw e tt
    | inr e ↦ rw e (more e)
  ]
