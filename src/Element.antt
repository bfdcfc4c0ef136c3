-- ===== src/Element.antt =====
-- The element of a data stream: src/joule/models/element.py. Floats and the values of a request are
-- parameters. A method that raises gives its exception and the element as far as it was changed.
pub mod Attributes
pub mod Merging
mod Tests
use joule.Base.{ℕ, Bool, true, false, ◌&&◌, Option, none, some, List, [], ◌∷◌, ◌==◌, if◌then◌else◌}
use joule.Base.Text.{Text, text_eq, codes, is_empty_text, upper}

-- Python's floats, and `float(value)` of a value of a request: a number, a ValueError or a
-- TypeError.
pub data Converted (F : Type 0) : Type 0 where
  number : F → Converted F
  bad_value : Converted F
  bad_type : Converted F

pub record Floats (F V : Type 0) : Type 0 where
  pub same : F → F → Bool
  pub at_most : F → F → Bool
  pub to_float : V → Converted F

pub data DisplayType : Type 0 where
  discrete : DisplayType
  continuous : DisplayType
  event : DisplayType

abbrev pub same_display_type : DisplayType → DisplayType → Bool
same_display_type discrete discrete = true
same_display_type continuous continuous = true
same_display_type event event = true
same_display_type _ _ = false

pub record Element (F : Type 0) : Type 0 where
  pub id : Option ℕ
  pub index : ℕ
  pub name : Option Text
  pub units : Option Text
  pub plottable : Bool
  pub display_type : DisplayType
  pub offset : F
  pub scale_factor : F
  pub default_max : Option F
  pub default_min : Option F

-- What is in the dictionary of a request, with `none` inside for a null. `plottable` is its truth value.
pub record Attrs (V : Type 0) : Type 0 where
  pub new_name : Option (Option Text)
  pub new_units : Option (Option Text)
  pub new_plottable : Option Bool
  pub new_offset : Option V
  pub new_scale_factor : Option V
  pub new_display_type : Option (Option Text)
  pub new_default_max : Option (Option V)
  pub new_default_min : Option (Option V)

pub data Outcome : Type 0 where
  done : Outcome
  configuration_error : Outcome
  type_error : Outcome
  attribute_error : Outcome

abbrev pub Step : Type 0 → Type 0
Step F = Element F → Outcome × Element F

pub validate_type : Text → Option DisplayType
validate_type display_type =
    let name = upper display_type in
    if text_eq name (codes "DISCRETE")
    then some discrete
    else if text_eq name (codes "CONTINUOUS")
    then some continuous
    else if text_eq name (codes "EVENT")
    then some event
    else none

abbrev pub same_option : {A : Type 0} → (A → A → Bool) → Option A → Option A → Bool
same_option same none none = true
same_option same (some a) (some b) = same a b
same_option same _ _ = false

module _ {F : Type 0} where
  -- The statements that follow one.
  abbrev pub continue : Outcome × Element F → Step F → Outcome × Element F
  continue (done, e) k = k e
  continue (configuration_error, e) k = (configuration_error, e)
  continue (type_error, e) k = (type_error, e)
  continue (attribute_error, e) k = (attribute_error, e)

  infixr 20 ◌then◌
  abbrev pub ◌then◌ : Step F → Step F → Step F
  (m then k) e = continue (m e) k

  -- The `if`s of `update_attributes`, one for each key.
  pub set_name : Option (Option Text) → Step F
  set_name none e = (done, e)
  set_name (some none) e = (done, record e { name = none })
  set_name (some (some name)) e =
      if is_empty_text name then (configuration_error, e) else (done, record e { name = some name })

  pub set_units : Option (Option Text) → Step F
  set_units none e = (done, e)
  set_units (some units) e = (done, record e { units = units })

  pub set_plottable : Option Bool → Step F
  set_plottable none e = (done, e)
  set_plottable (some plottable) e = (done, record e { plottable = plottable })

  abbrev pub typed : Option DisplayType → Step F
  typed none e = (configuration_error, e)
  typed (some display_type) e = (done, record e { display_type = display_type })

  -- A null has no `upper`.
  pub set_display_type : Option (Option Text) → Step F
  set_display_type none e = (done, e)
  set_display_type (some none) e = (attribute_error, e)
  set_display_type (some (some name)) e = typed (validate_type name) e

  -- What is assigned from `float(value)`.
  abbrev pub assign : Converted F → (F → Element F) → Element F → Outcome × Element F
  assign (number x) set e = (done, set x)
  assign bad_value set e = (configuration_error, e)
  assign bad_type set e = (type_error, e)

module _ {F V : Type 0} ⦃floats : Floats F V⦄ where
  pub set_offset : Option V → Step F
  set_offset none e = (done, e)
  set_offset (some v) e = assign (floats.to_float v) (λ x. record e { offset = x }) e

  pub set_scale_factor : Option V → Step F
  set_scale_factor none e = (done, e)
  set_scale_factor (some v) e = assign (floats.to_float v) (λ x. record e { scale_factor = x }) e

  pub set_default_max : Option (Option V) → Step F
  set_default_max none e = (done, e)
  set_default_max (some none) e = (done, record e { default_max = none })
  set_default_max (some (some v)) e =
      assign (floats.to_float v) (λ x. record e { default_max = some x }) e

  pub set_default_min : Option (Option V) → Step F
  set_default_min none e = (done, e)
  set_default_min (some none) e = (done, record e { default_min = none })
  set_default_min (some (some v)) e =
      assign (floats.to_float v) (λ x. record e { default_min = some x }) e

module _ {F : Type 0} (V : Type 0) ⦃floats : Floats F V⦄ where
  -- Both limits are set and the upper one is at most the lower one.
  abbrev pub crossed : Option F → Option F → Bool
  crossed (some upper_limit) (some lower_limit) = floats.at_most upper_limit lower_limit
  crossed _ _ = false

  -- The test at the end of `update_attributes`.
  pub check_limits : Step F
  check_limits e =
      if crossed e.default_max e.default_min then (configuration_error, e) else (done, e)

  -- `Element.__eq__`, of two elements
  unfoldable pub same_element : Element F → Element F → Bool
  same_element a b =
      same_option text_eq a.name b.name
      && (a.index == b.index)
      && same_option text_eq a.units b.units
      && (if a.plottable then b.plottable else if b.plottable then false else true)
      && same_display_type a.display_type b.display_type
      && floats.same a.offset b.offset
      && floats.same a.scale_factor b.scale_factor
      && same_option floats.same a.default_max b.default_max
      && same_option floats.same a.default_min b.default_min

  -- `merge_configs`: whether anything is changed, and the element; `none` is a ConfigurationError.
  unfoldable pub merge_configs : Element F → Element F → Option (Bool × Element F)
  merge_configs e other =
      if e.index == other.index
      then (if same_element e other
          then some (false, e)
          else some (
            true,
            record e {
              name = other.name;
              units = other.units;
              plottable = other.plottable;
              display_type = other.display_type;
              offset = other.offset;
              scale_factor = other.scale_factor;
              default_max = other.default_max;
              default_min = other.default_min;
            },
          ))
      else none

module _ {F V : Type 0} ⦃floats : Floats F V⦄ where
  -- The assignments of `update_attributes`, in their order.
  pub set_attributes : Attrs V → Step F
  set_attributes attrs =
      set_name attrs.new_name
      then set_units attrs.new_units
      then set_plottable attrs.new_plottable
      then set_offset attrs.new_offset
      then set_scale_factor attrs.new_scale_factor
      then set_display_type attrs.new_display_type
      then set_default_max attrs.new_default_max
      then set_default_min attrs.new_default_min

  pub update_attributes : Attrs V → Step F
  update_attributes attrs = set_attributes attrs then check_limits V
