-- ===== src/Element/Tests.antt =====
-- Elements whose floats are numbers: 13 is refused by `float` and stands for a NaN.
use joule.Base.{ℕ, ◌≡◌, refl, true, false, none, some, leb, ◌==◌, if◌then◌else◌}
use joule.Base.Text.{codes, text_eq}
use joule.Element.{
  Floats, number, bad_value, Element, Attrs, done, configuration_error, attribute_error, continuous,
  discrete, same_element, merge_configs, update_attributes, set_attributes, set_name, set_units,
  set_plottable, set_offset, set_scale_factor, set_display_type, set_default_max, set_default_min,
  check_limits, validate_type,
}
use joule.Element.Attributes.{Leaves, update_attributes-IsCareful}
use joule.Element.Merging.{merge_configs_again}

instance abbrev whole : Floats ℕ ℕ
whole = record {
  same = λ a b. if a == 13 then false else a == b;
  at_most = λ a b. leb a b;
  to_float = λ v. if v == 13 then bad_value else number v;
}

abbrev plain : Element ℕ
plain = record {
  id = some 4;
  index = 0;
  name = some (codes "power");
  units = some (codes "W");
  plottable = true;
  display_type = continuous;
  offset = 0;
  scale_factor = 1;
  default_max = none;
  default_min = some 5;
}

abbrev request : Attrs ℕ
request = record {
  new_name = some (some (codes "p"));
  new_units = none;
  new_plottable = none;
  new_offset = some 2;
  new_scale_factor = none;
  new_display_type = some (some (codes "discrete"));
  new_default_max = some (some 9);
  new_default_min = none;
}

update_runs : update_attributes request plain ≡ (
  done,
  record plain {
    name = some (codes "p");
    offset = 2;
    display_type = discrete;
    default_max = some 9;
  },
)
unfolding update_attributes set_attributes set_name set_units set_plottable set_offset
    set_scale_factor set_display_type set_default_max set_default_min check_limits validate_type
    text_eq
update_runs = refl

-- A request that is refused at its end has changed the element all the same.
refused_late : update_attributes (record request { new_default_max = some (some 3) }) plain ≡ (
  configuration_error,
  record plain {
    name = some (codes "p");
    offset = 2;
    display_type = discrete;
    default_max = some 3;
  },
)
unfolding update_attributes set_attributes set_name set_units set_plottable set_offset
    set_scale_factor set_display_type set_default_max set_default_min check_limits validate_type
    text_eq
refused_late = refl

update_attributes-IsCareful_example : Leaves request plain (update_attributes request plain).1
update_attributes-IsCareful_example = update_attributes-IsCareful request plain

-- A name may be null; a display type may not.
null_name :
    update_attributes (record request { new_name = some none; new_display_type = some none }) plain
    ≡ (attribute_error, record plain { name = none; offset = 2 })
unfolding update_attributes set_attributes set_name set_units set_plottable set_offset
    set_scale_factor set_display_type
null_name = refl

abbrev other_config : Element ℕ
other_config = record plain { id = none; name = some (codes "p"); offset = 3 }

abbrev merged_config : Element ℕ
merged_config = record other_config { id = some 4 }

merge_configs_again_example :
    (same_element ℕ merged_config other_config ≡ true)
    × (merge_configs ℕ merged_config other_config ≡ some (false, merged_config))
    × (merged_config.id ≡ plain.id)
    × (merged_config.index ≡ plain.index)
unfolding same_element merge_configs text_eq
merge_configs_again_example = merge_configs_again ℕ plain other_config merged_config true refl refl
