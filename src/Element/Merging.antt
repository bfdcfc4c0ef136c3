-- ===== src/Element/Merging.antt =====
-- Merging the configuration of an element into another.
use joule.Base.{◌≡◌, refl, ◌∙◌, Bool, true, false, some, ◌==◌, arith, Bool-cases, inl, inr}
use joule.Element.{Floats, Element, same_element, merge_configs}

module _ {F : Type 0} (V : Type 0) ⦃floats : Floats F V⦄ where
  -- The element that takes over the configuration of another.
  abbrev configured : Element F → Element F → Element F
  configured e other = record other { id = e.id; index = e.index }

  same_configured :
      (e other : Element F)
      → e.index ≡ other.index
      → same_element V (configured e other) other ≡ same_element V other other
  unfolding same_element
  same_configured e other h = simp h

  -- After a merge that succeeds the element equals the other, and merging once more changes nothing,
  -- if the other equals itself (none of its floats is a NaN). It keeps its id and its index.
  pub merge_configs_again :
      (e other merged : Element F) (changed : Bool)
      → same_element V other other ≡ true
      → merge_configs V e other ≡ some (changed, merged)
      → (same_element V merged other ≡ true)
        × (merge_configs V merged other ≡ some (false, merged))
        × (merged.id ≡ e.id)
        × (merged.index ≡ e.index)
  unfolding merge_configs
  merge_configs_again e other merged changed regular h =
      elim (Bool-cases (e.index == other.index)) [
        | inl i ↦ elim (Bool-cases (same_element V e other)) [
          | inl s ↦
              let m : merged ≡ e = ground arith in
              let again : merge_configs V e other ≡ some (false, e) = simp (i, s) in
              rw m (s, again, refl, refl)
          | inr d ↦
              let m : merged ≡ configured e other = ground arith in
              let s = same_configured e other (ground arith) ∙ regular in
              let again : merge_configs V (configured e other) other
                  ≡ some (false, configured e other) =
                simp (i, s) in
              rw m (s, again, refl, refl)
        ]
        | inr i ↦ absurd (ground arith)
      ]
