-- ===== src/DataStreams/Merging.antt =====
-- Merging the configuration of a stream into another a second time.
use joule.Base.{
  ℕ, ◌+◌, ◌≤◌, ◌≡◌, refl, ap, sym, subst, ◌∙◌, Bool, true, false, Option, none, some, List, [], ◌∷◌,
  length, ltb, ◌==◌, if◌then◌else◌, arith, Bool-cases, inl, inr, if_ind,
}
use mathlib.Core.Option.{some-ne-none}
use joule.Base.Int.{ℤ, pos, negsuc}
use joule.Base.Text.{Text, text_eq, text_eq_refl}
use joule.Element
use joule.Element.{Floats, Element, same_option}
use joule.Element.Merging.{merge_configs_again}
use joule.DataStreams.{
  StreamConfig, same_bool, same_int, insert_element, sorted, same_attributes, take_attributes,
  touch_if, behind_merge, merge_elements, merge_rest, merge_configs,
}

module _ {F : Type 0} where
  -- The elements have the same indices, in the same order.
  abbrev SameIndices : List (Element F) → List (Element F) → Type 0
  SameIndices [] [] = Unit
  SameIndices [] (f ∷ fs) = ⊥
  SameIndices (e ∷ es) [] = ⊥
  SameIndices (e ∷ es) (f ∷ fs) = (e.index ≡ f.index) × SameIndices es fs

  abbrev StartsFrom : ℕ → List (Element F) → Type 0
  StartsFrom n [] = Unit
  StartsFrom n (e ∷ es) = n ≤ e.index

  abbrev IsAscending : List (Element F) → Type 0
  IsAscending [] = Unit
  IsAscending (e ∷ es) = StartsFrom e.index es × IsAscending es

  insert_element-StartsFrom :
      (n : ℕ) (e : Element F) (es : List (Element F))
      → n ≤ e.index
      → StartsFrom n es
      → StartsFrom n (insert_element e es)
  unfolding insert_element
  insert_element-StartsFrom n e [] h k = h
  insert_element-StartsFrom n e (f ∷ es) h k = elim (Bool-cases (ltb f.index e.index)) [
    | inl behind ↦ simp behind k
    | inr before ↦ simp before h
  ]

  insert_element-IsAscending :
      (e : Element F) (es : List (Element F)) → IsAscending es → IsAscending (insert_element e es)
  unfolding insert_element
  insert_element-IsAscending e [] h = (tt, tt)
  insert_element-IsAscending e (f ∷ es) h = elim (Bool-cases (ltb f.index e.index)) [
    | inl behind ↦ simp behind (
      insert_element-StartsFrom f.index e es (ground arith) h.0,
      insert_element-IsAscending e es h.1,
    )
    | inr before ↦ simp before (ground arith, h)
  ]

  sorted-IsAscending : (es : List (Element F)) → IsAscending (sorted es)
  unfolding sorted
  sorted-IsAscending [] = tt
  sorted-IsAscending (e ∷ es) = insert_element-IsAscending e (sorted es) (sorted-IsAscending es)

  insert_first :
      (e : Element F) (es : List (Element F)) → StartsFrom e.index es → insert_element e es ≡ e ∷ es
  unfolding insert_element
  insert_first e [] h = refl
  insert_first e (f ∷ es) h =
      let test : ltb f.index e.index ≡ false = ground arith in simp test refl

  sorted_ascending : (es : List (Element F)) → IsAscending es → sorted es ≡ es
  unfolding sorted
  sorted_ascending [] h = refl
  sorted_ascending (e ∷ es) h =
      ap (insert_element e) (sorted_ascending es h.1) ∙ insert_first e es h.0

  SameIndices-IsAscending :
      (es fs : List (Element F)) → SameIndices es fs → IsAscending fs → IsAscending es
  SameIndices-IsAscending [] [] h k = tt
  SameIndices-IsAscending [] (f ∷ fs) h k = absurd h
  SameIndices-IsAscending (e ∷ es) [] h k = absurd h
  SameIndices-IsAscending (e ∷ []) (f ∷ []) h k = (tt, tt)
  SameIndices-IsAscending (e ∷ []) (f ∷ g ∷ fs) h k = absurd h.1
  SameIndices-IsAscending (e ∷ d ∷ es) (f ∷ []) h k = absurd h.1
  SameIndices-IsAscending (e ∷ d ∷ es) (f ∷ g ∷ fs) h k =
      (omega (arith, h.0, h.1.0, k.0), SameIndices-IsAscending (d ∷ es) (g ∷ fs) h.1 k.1)

  length-insert_element :
      (e : Element F) (es : List (Element F)) → length (insert_element e es) ≡ length es + 1
  unfolding insert_element
  length-insert_element e [] = omega arith
  length-insert_element e (f ∷ es) = let rest = length-insert_element e es in ground arith

  length-sorted : (es : List (Element F)) → length (sorted es) ≡ length es
  unfolding sorted
  length-sorted [] = refl
  length-sorted (e ∷ es) = omega (arith, length-insert_element e (sorted es), length-sorted es)

  SameIndices-length : (es fs : List (Element F)) → SameIndices es fs → length es ≡ length fs
  SameIndices-length [] [] h = refl
  SameIndices-length [] (f ∷ fs) h = absurd h
  SameIndices-length (e ∷ es) [] h = absurd h
  SameIndices-length (e ∷ es) (f ∷ fs) h = omega (arith, SameIndices-length es fs h.1)

module _ {F : Type 0} (V : Type 0) ⦃floats : Floats F V⦄ where
  -- None of the floats of the elements is a NaN.
  abbrev pub AreRegular : List (Element F) → Type 0
  AreRegular [] = Unit
  AreRegular (e ∷ es) = (Element.same_element V e e ≡ true) × AreRegular es

  abbrev Settled : List (Element F) → List (Element F) → Option Bool × List (Element F) → Type 0
  Settled es others (none, merged) = Unit
  Settled es others (some changed, merged) =
      SameIndices merged es × (merge_elements V merged others ≡ (some false, merged))

  settle :
      (e other : Element F) (es others : List (Element F)) (r : Option (Bool × Element F))
      (later : Option Bool × List (Element F))
      → Element.merge_configs V e other ≡ r
      → Element.same_element V other other ≡ true
      → Settled es others later
      → Settled (e ∷ es) (other ∷ others) (behind_merge V e r es later)
  unfolding merge_elements
  settle e other es others none later h regular k = tt
  settle e other es others (some (changed, merged)) (none, elements) h regular k = tt
  settle e other es others (some (changed, merged)) (some b, elements) h regular k =
      let again = merge_configs_again V e other merged changed regular h in
      let one = again.1 in let rest = k.1 in ((again.3, k.0), rw (one, rest) refl)

  merge_elements-Settled :
      (es others : List (Element F))
      → length es ≡ length others
      → AreRegular others
      → Settled es others (merge_elements V es others)
  unfolding merge_elements
  merge_elements-Settled [] [] h k = (tt, refl)
  merge_elements-Settled [] (o ∷ others) h k = absurd (omega arith)
  merge_elements-Settled (e ∷ es) [] h k = absurd (omega arith)
  merge_elements-Settled (e ∷ es) (o ∷ others) h k =
      settle e o es others (Element.merge_configs V e o) (merge_elements V es others) refl k.0
        (merge_elements-Settled es others (omega arith) k.1)

same_int_refl : (k : ℤ) → same_int k k ≡ true
same_int_refl (pos n) = ground arith
same_int_refl (negsuc n) = ground arith

same_bool_refl : (b : Bool) → same_bool b b ≡ true
same_bool_refl true = refl
same_bool_refl false = refl

same_text_refl : (d : Option Text) → same_option text_eq d d ≡ true
same_text_refl none = refl
same_text_refl (some t) = text_eq_refl t

module _ {F : Type 0} where
  -- The stream after a merge.
  abbrev merged_stream : StreamConfig F → StreamConfig F → List (Element F) → ℕ → StreamConfig F
  merged_stream s other elements n = record (take_attributes s other) {
    elements = elements;
    touched = n;
  }

  same_merged :
      (s other : StreamConfig F) (elements : List (Element F)) (n : ℕ)
      → same_attributes (merged_stream s other elements n) other ≡ true
  unfolding same_attributes take_attributes
  same_merged s other elements n = simp (
    same_int_refl other.keep_us,
    same_bool_refl other.decimate,
    same_text_refl other.description,
    same_bool_refl other.is_configured,
    same_bool_refl other.is_destination,
    same_bool_refl other.is_source,
  )

  touch_if_ind :
      (s other : StreamConfig F) (elements : List (Element F)) (b : Bool)
      (P : StreamConfig F → Type 0)
      → ((n : ℕ) → P (merged_stream s other elements n))
      → P (touch_if b (record (take_attributes s other) { elements = elements }))
  unfolding take_attributes
  touch_if_ind s other elements true P h = h (s.touched + 1)
  touch_if_ind s other elements false P h = h s.touched

module _ {F : Type 0} (V : Type 0) ⦃floats : Floats F V⦄ where
  merge_merged :
      (s other : StreamConfig F) (elements : List (Element F)) (n : ℕ)
      → length elements ≡ length other.elements
      → sorted elements ≡ elements
      → merge_elements V elements (sorted other.elements) ≡ (some false, elements)
      → merge_configs V (merged_stream s other elements n) other
        ≡ (some false, merged_stream s other elements n)
  unfolding merge_configs take_attributes
  merge_merged s other elements n count ascending settled =
      let t = merged_stream s other elements n in
      let test : (length elements == length other.elements) ≡ true = ground arith in
      let same = same_merged s other elements n in
      if_ind (λ (out : Option Bool × StreamConfig F). out ≡ (some false, t))
        (length elements == length other.elements)
        (λ _.
          ap (λ l. merge_rest V t other (merge_elements V l (sorted other.elements))) ascending
          ∙ ap (merge_rest V t other) settled
          ∙ ap
              (λ b. (
                some (if b then false else true),
                touch_if (if b then false else true)
                    (record (take_attributes t other) { elements = elements }),
              ))
              same)
        (λ differ. absurd cc)

  merge_rest_again :
      (s other : StreamConfig F) (out : Option Bool × List (Element F)) (changed : Bool)
      (s' : StreamConfig F)
      → length s.elements ≡ length other.elements
      → Settled V (sorted s.elements) (sorted other.elements) out
      → merge_rest V s other out ≡ (some changed, s')
      → merge_configs V s' other ≡ (some false, s')
  merge_rest_again s other (none, elements) changed s' count h e =
      absurd (some-ne-none changed (sym (ap (λ (o : Option Bool × StreamConfig F). o.0) e)))
  merge_rest_again s other (some b, elements) changed s' count h e =
      let updated = if same_attributes s other then b else true in
      let ascending =
        SameIndices-IsAscending elements (sorted s.elements) h.0 (sorted-IsAscending s.elements) in
      let many =
        SameIndices-length elements (sorted s.elements) h.0 ∙ length-sorted s.elements ∙ count in
      let P = λ (t : StreamConfig F). merge_configs V t other ≡ (some false, t) in
      subst P (ap (λ (o : Option Bool × StreamConfig F). o.1) e) (
        touch_if_ind s other elements updated P
          (λ n. merge_merged s other elements n many (sorted_ascending elements ascending) h.1))

  counted :
      (s other : StreamConfig F) (changed : Bool) (s' : StreamConfig F)
      → (length s.elements == length other.elements) ≡ true
      → merge_configs V s other ≡ (some changed, s')
      → merge_rest V s other (merge_elements V (sorted s.elements) (sorted other.elements))
        ≡ (some changed, s')
  unfolding merge_configs
  counted s other changed s' same e = simp same at e

  miscounted :
      (s other : StreamConfig F) (changed : Bool) (s' : StreamConfig F)
      → (length s.elements == length other.elements) ≡ false
      → merge_configs V s other ≡ (some changed, s')
      → ◌≡◌ {A = Option Bool × StreamConfig F} (none, s) (some changed, s')
  unfolding merge_configs
  miscounted s other changed s' differ e = simp differ at e

  -- If merge_configs succeeds, merging the same configuration once more reports no change and makes
  -- none, if none of the floats of the other stream's elements is a NaN.
  pub merge_configs_settles :
      (s other s' : StreamConfig F) (changed : Bool)
      → AreRegular V (sorted other.elements)
      → merge_configs V s other ≡ (some changed, s')
      → merge_configs V s' other ≡ (some false, s')
  merge_configs_settles s other s' changed regular e =
      elim (Bool-cases (length s.elements == length other.elements)) [
        | inl same ↦
            let count : length s.elements ≡ length other.elements = ground arith in
            let sorted_count =
              length-sorted s.elements ∙ count ∙ sym (length-sorted other.elements) in
            merge_rest_again s other (merge_elements V (sorted s.elements) (sorted other.elements))
              changed s' count
              (merge_elements-Settled V (sorted s.elements) (sorted other.elements) sorted_count
                regular)
              (counted s other changed s' same e)
        | inr differ ↦ absurd (
            some-ne-none changed (
              sym (
                ap (λ (o : Option Bool × StreamConfig F). o.0)
                  (miscounted s other changed s' differ e))))
      ]
