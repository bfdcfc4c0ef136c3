-- ===== src/Element/Attributes.antt =====
-- What `Element.update_attributes` may change.
use joule.Base.{◌≡◌, ◌≢◌, refl, ◌∙◌, Bool, false, Option, none, some, if◌then◌else◌, arith}
use joule.Base.Text.{Text, is_empty_text}
use joule.Element.{
  Converted, number, bad_value, bad_type, Floats, DisplayType, Element, Attrs, Outcome, done,
  configuration_error, type_error, attribute_error, Step, validate_type, continue, ◌then◌, set_name,
  set_units, set_plottable, typed, set_display_type, assign, set_offset, set_scale_factor,
  set_default_max, set_default_min, check_limits, set_attributes, update_attributes,
}

-- Whether the name is the empty text, which a null is not.
abbrev pub is_nameless : Option Text → Bool
is_nameless none = false
is_nameless (some name) = is_empty_text name

module _ {F V : Type 0} where
  -- The element is the same but for the attributes that the request names; a name that was not the empty
  -- text is not the empty text after it.
  abbrev pub Leaves : Attrs V → Element F → Element F → Type 0
  Leaves attrs e e' =
      (e'.id ≡ e.id)
      × (e'.index ≡ e.index)
      × (attrs.new_name ≡ none → e'.name ≡ e.name)
      × (attrs.new_units ≡ none → e'.units ≡ e.units)
      × (attrs.new_plottable ≡ none → e'.plottable ≡ e.plottable)
      × (attrs.new_offset ≡ none → e'.offset ≡ e.offset)
      × (attrs.new_scale_factor ≡ none → e'.scale_factor ≡ e.scale_factor)
      × (attrs.new_display_type ≡ none → e'.display_type ≡ e.display_type)
      × (attrs.new_default_max ≡ none → e'.default_max ≡ e.default_max)
      × (attrs.new_default_min ≡ none → e'.default_min ≡ e.default_min)
      × (is_nameless e.name ≡ false → is_nameless e'.name ≡ false)

  Leaves-refl : (attrs : Attrs V) (e : Element F) → Leaves attrs e e
  Leaves-refl attrs e = (
    refl,
    refl,
    λ _. refl,
    λ _. refl,
    λ _. refl,
    λ _. refl,
    λ _. refl,
    λ _. refl,
    λ _. refl,
    λ _. refl,
    λ h. h,
  )

  Leaves-trans :
      (attrs : Attrs V) (a b c : Element F) → Leaves attrs a b → Leaves attrs b c → Leaves attrs a c
  Leaves-trans attrs a b c p q = (
    q.0 ∙ p.0,
    q.1 ∙ p.1,
    λ h. q.2 h ∙ p.2 h,
    λ h. q.3 h ∙ p.3 h,
    λ h. q.4 h ∙ p.4 h,
    λ h. q.5 h ∙ p.5 h,
    λ h. q.6 h ∙ p.6 h,
    λ h. q.7 h ∙ p.7 h,
    λ h. q.8 h ∙ p.8 h,
    λ h. q.9 h ∙ p.9 h,
    λ h. q.10 (p.10 h),
  )

  -- A step that leaves what the request does not name.
  abbrev IsCareful : Attrs V → Step F → Type 0
  IsCareful attrs m = (e : Element F) → Leaves attrs e (m e).1

  continue-IsCareful :
      (attrs : Attrs V) (e : Element F) (out : Outcome × Element F) (k : Step F)
      → Leaves attrs e out.1
      → IsCareful attrs k
      → Leaves attrs e (continue out k).1
  continue-IsCareful attrs e (done, e') k p q = Leaves-trans attrs e e' (k e').1 p (q e')
  continue-IsCareful attrs e (configuration_error, e') k p q = p
  continue-IsCareful attrs e (type_error, e') k p q = p
  continue-IsCareful attrs e (attribute_error, e') k p q = p

  then-IsCareful :
      (attrs : Attrs V) (m k : Step F)
      → IsCareful attrs m
      → IsCareful attrs k
      → IsCareful attrs (m then k)
  then-IsCareful attrs m k p q e = continue-IsCareful attrs e (m e) k (p e) q

  assign-Leaves :
      (attrs : Attrs V) (e : Element F) (c : Converted F) (set : F → Element F)
      → ((x : F) → Leaves attrs e (set x))
      → Leaves attrs e (assign c set e).1
  assign-Leaves attrs e (number x) set h = h x
  assign-Leaves attrs e bad_value set h = Leaves-refl attrs e
  assign-Leaves attrs e bad_type set h = Leaves-refl attrs e

  typed-Leaves :
      (attrs : Attrs V) (e : Element F) (o : Option DisplayType)
      → attrs.new_display_type ≢ none
      → Leaves attrs e (typed o e).1
  typed-Leaves attrs e none h = Leaves-refl attrs e
  typed-Leaves attrs e (some d) h = ground arith

module _ {F V : Type 0} ⦃floats : Floats F V⦄ (attrs : Attrs V) where
  set_name-IsCareful :
      (o : Option (Option Text)) → attrs.new_name ≡ o → IsCareful {F = F} attrs (set_name o)
  unfolding set_name
  set_name-IsCareful none h e = Leaves-refl attrs e
  set_name-IsCareful (some none) h e = ground arith
  set_name-IsCareful (some (some name)) h e = ground arith

  set_units-IsCareful :
      (o : Option (Option Text)) → attrs.new_units ≡ o → IsCareful {F = F} attrs (set_units o)
  unfolding set_units
  set_units-IsCareful none h e = Leaves-refl attrs e
  set_units-IsCareful (some units) h e = ground arith

  set_plottable-IsCareful :
      (o : Option Bool) → attrs.new_plottable ≡ o → IsCareful {F = F} attrs (set_plottable o)
  unfolding set_plottable
  set_plottable-IsCareful none h e = Leaves-refl attrs e
  set_plottable-IsCareful (some plottable) h e = ground arith

  set_display_type-IsCareful :
      (o : Option (Option Text))
      → attrs.new_display_type ≡ o
      → IsCareful {F = F} attrs (set_display_type o)
  unfolding set_display_type
  set_display_type-IsCareful none h e = Leaves-refl attrs e
  set_display_type-IsCareful (some none) h e = Leaves-refl attrs e
  set_display_type-IsCareful (some (some name)) h e = typed-Leaves attrs e (validate_type name) cc

  set_offset-IsCareful :
      (o : Option V) → attrs.new_offset ≡ o → IsCareful {F = F} attrs (set_offset o)
  unfolding set_offset
  set_offset-IsCareful none h e = Leaves-refl attrs e
  set_offset-IsCareful (some v) h e =
      assign-Leaves attrs e (floats.to_float v) (λ x. record e { offset = x }) λ x. ground arith

  set_scale_factor-IsCareful :
      (o : Option V) → attrs.new_scale_factor ≡ o → IsCareful {F = F} attrs (set_scale_factor o)
  unfolding set_scale_factor
  set_scale_factor-IsCareful none h e = Leaves-refl attrs e
  set_scale_factor-IsCareful (some v) h e =
      assign-Leaves attrs e (floats.to_float v) (λ x. record e { scale_factor = x })
        λ x. ground arith

  set_default_max-IsCareful :
      (o : Option (Option V))
      → attrs.new_default_max ≡ o
      → IsCareful {F = F} attrs (set_default_max o)
  unfolding set_default_max
  set_default_max-IsCareful none h e = Leaves-refl attrs e
  set_default_max-IsCareful (some none) h e = ground arith
  set_default_max-IsCareful (some (some v)) h e =
      assign-Leaves attrs e (floats.to_float v) (λ x. record e { default_max = some x })
        λ x. ground arith

  set_default_min-IsCareful :
      (o : Option (Option V))
      → attrs.new_default_min ≡ o
      → IsCareful {F = F} attrs (set_default_min o)
  unfolding set_default_min
  set_default_min-IsCareful none h e = Leaves-refl attrs e
  set_default_min-IsCareful (some none) h e = ground arith
  set_default_min-IsCareful (some (some v)) h e =
      assign-Leaves attrs e (floats.to_float v) (λ x. record e { default_min = some x })
        λ x. ground arith

  check_limits-IsCareful : IsCareful attrs (check_limits {F = F} V)
  unfolding check_limits
  check_limits-IsCareful e = ground arith

  -- Whatever a request says, and whether it is refused or not, `update_attributes` changes only the
  -- attributes that it names, and a name that was not the empty text is not the empty text after it; it
  -- may be null.
  pub update_attributes-IsCareful : (e : Element F) → Leaves attrs e (update_attributes attrs e).1
  unfolding update_attributes set_attributes
  update_attributes-IsCareful =
      let after_8 : Step F = set_default_min attrs.new_default_min in
      let step_7 : Step F = set_default_max attrs.new_default_max in
      let after_7 = step_7 then after_8 in
      let step_6 : Step F = set_display_type attrs.new_display_type in
      let after_6 = step_6 then after_7 in
      let step_5 : Step F = set_scale_factor attrs.new_scale_factor in
      let after_5 = step_5 then after_6 in
      let step_4 : Step F = set_offset attrs.new_offset in
      let after_4 = step_4 then after_5 in
      let step_3 : Step F = set_plottable attrs.new_plottable in
      let after_3 = step_3 then after_4 in
      let step_2 : Step F = set_units attrs.new_units in
      let after_2 = step_2 then after_3 in
      let step_1 : Step F = set_name attrs.new_name in
      let after_1 = step_1 then after_2 in
      let c_8 : IsCareful attrs after_8 = set_default_min-IsCareful attrs.new_default_min refl in
      let c_7 =
        then-IsCareful attrs step_7 after_8 (set_default_max-IsCareful attrs.new_default_max refl)
          c_8 in
      let c_6 =
        then-IsCareful attrs step_6 after_7 (set_display_type-IsCareful attrs.new_display_type refl)
          c_7 in
      let c_5 =
        then-IsCareful attrs step_5 after_6 (set_scale_factor-IsCareful attrs.new_scale_factor refl)
          c_6 in
      let c_4 =
        then-IsCareful attrs step_4 after_5 (set_offset-IsCareful attrs.new_offset refl) c_5 in
      let c_3 =
        then-IsCareful attrs step_3 after_4 (set_plottable-IsCareful attrs.new_plottable refl)
          c_4 in
      let c_2 =
        then-IsCareful attrs step_2 after_3 (set_units-IsCareful attrs.new_units refl) c_3 in
      let c_1 = then-IsCareful attrs step_1 after_2 (set_name-IsCareful attrs.new_name refl) c_2 in
      then-IsCareful attrs after_1 (check_limits V) c_1 check_limits-IsCareful
