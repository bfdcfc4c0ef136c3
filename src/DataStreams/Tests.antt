-- ===== src/DataStreams/Tests.antt =====
-- Streams whose elements have numbers for floats.
use joule.Base.{ℕ, ◌*◌, ◌≡◌, refl, true, false, none, some, [], ◌∷◌, leb, ◌==◌}
use joule.Base.Int.{pos, negsuc}
use joule.Base.Text.{Text, codes, text_eq}
use joule.PipeConfig.{float32}
use joule.Element
use joule.Element.{Floats, number, Element, continuous, same_element}
use joule.DataStreams.{
  StreamConfig, merge_configs, merge_elements, sorted, insert_element, same_attributes,
  take_attributes, validate_keep,
}
use joule.DataStreams.Merging.{merge_configs_settles}

instance abbrev numbers : Floats ℕ ℕ
numbers = record { same = λ a b. a == b; at_most = λ a b. leb a b; to_float = λ v. number v }

abbrev element_at : ℕ → Text → Element ℕ
element_at index name = record {
  id = none;
  index = index;
  name = some name;
  units = none;
  plottable = true;
  display_type = continuous;
  offset = 0;
  scale_factor = 1;
  default_max = none;
  default_min = none;
}

abbrev stream : StreamConfig ℕ
stream = record {
  name = codes "s";
  datatype = float32;
  keep_us = negsuc 0;
  decimate = true;
  description = none;
  is_configured = false;
  is_destination = false;
  is_source = false;
  elements = element_at 1 (codes "b") ∷ element_at 0 (codes "a") ∷ [];
  touched = 0;
}

abbrev other_stream : StreamConfig ℕ
other_stream = record stream {
  is_configured = true;
  elements = element_at 0 (codes "a") ∷ element_at 1 (codes "c") ∷ [];
}

-- The stream after a merge.
abbrev merged : StreamConfig ℕ
merged = record other_stream { touched = 1 }

keeps_weeks : validate_keep (codes "2w") ≡ some (pos (2 * (7 * 24 * 60 * 60 * 1000000)))
unfolding validate_keep text_eq
keeps_weeks = refl

keeps_all : validate_keep (codes "ALL") ≡ some (negsuc 0)
unfolding validate_keep text_eq
keeps_all = refl

keeps_nothing : validate_keep (codes "0w") ≡ none
unfolding validate_keep text_eq
keeps_nothing = refl

merge_configs_settles_example : merge_configs ℕ merged other_stream ≡ (some false, merged)
unfolding merge_configs merge_elements sorted insert_element same_attributes take_attributes
    same_element text_eq joule.Element.merge_configs
merge_configs_settles_example =
    merge_configs_settles ℕ stream other_stream merged true (refl, (refl, tt)) refl
