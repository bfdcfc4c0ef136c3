-- ===== src/DataStreams.antt =====
-- The configuration of a data stream: `merge_configs`, `update_attributes` and `validate_keep` of
-- src/joule/models/data_stream.py. A method that raises leaves the stream as far as it was changed.
pub mod Merging
mod Tests
use joule.Base.{
  ℕ, suc, ◌+◌, ◌-◌, ◌*◌, Bool, true, false, not, ◌&&◌, ◌||◌, Option, none, some, List, [], ◌∷◌,
  ◌++◌, map, length, leb, ltb, ◌==◌, if◌then◌else◌, get_elem?,
}
use joule.Base.Int.{ℤ, pos, negsuc}
use joule.Base.Text.{Text, codes, text_eq, has_char, is_empty_text, lower}
use joule.PipeConfig.{Datatype, datatype_name}
use joule.Element
use joule.Element.{
  Attrs, Floats, Element, Outcome, done, configuration_error, type_error, same_option,
}

-- `index_error` is the IndexError of a list of element configurations, `failed` what an element raises.
pub data StreamOutcome : Type 0 where
  stream_done : StreamOutcome
  wrong_name : StreamOutcome
  wrong_count : StreamOutcome
  index_error : StreamOutcome
  failed : Outcome → StreamOutcome

-- The attributes of a `DataStream`, its elements in the order of the relationship. `touched` counts the
-- assignments to `updated_at`.
pub record StreamConfig (F : Type 0) : Type 0 where
  pub name : Text
  pub datatype : Datatype
  pub keep_us : ℤ
  pub decimate : Bool
  pub description : Option Text
  pub is_configured : Bool
  pub is_destination : Bool
  pub is_source : Bool
  pub elements : List (Element F)
  pub touched : ℕ

abbrev pub same_bool : Bool → Bool → Bool
same_bool true b = b
same_bool false b = not b

abbrev pub same_int : ℤ → ℤ → Bool
same_int (pos a) (pos b) = a == b
same_int (negsuc a) (negsuc b) = a == b
same_int _ _ = false

abbrev pub with_change : Bool → Option Bool → Option Bool
with_change changed none = none
with_change changed (some later) = some (changed || later)

module _ {F : Type 0} where
  -- `sorted(elements, key=attrgetter('index'))`
  pub insert_element : Element F → List (Element F) → List (Element F)
  insert_element e [] = e ∷ []
  insert_element e (f ∷ elements) =
      let behind = insert_element e elements in
      if ltb f.index e.index then f ∷ behind else e ∷ f ∷ elements

  pub sorted : List (Element F) → List (Element F)
  sorted [] = []
  sorted (e ∷ elements) = insert_element e (sorted elements)

  abbrev pub keep_first :
      Element F → Option Bool × List (Element F) → Option Bool × List (Element F)
  keep_first e (changed, elements) = (changed, e ∷ elements)

  -- The comparison of the stream's own attributes.
  pub same_attributes : StreamConfig F → StreamConfig F → Bool
  same_attributes s other =
      same_int s.keep_us other.keep_us
      && same_bool s.decimate other.decimate
      && same_option text_eq s.description other.description
      && same_bool s.is_configured other.is_configured
      && same_bool s.is_destination other.is_destination
      && same_bool s.is_source other.is_source

  pub take_attributes : StreamConfig F → StreamConfig F → StreamConfig F
  take_attributes s other = record s {
    keep_us = other.keep_us;
    decimate = other.decimate;
    description = other.description;
    is_configured = other.is_configured;
    is_destination = other.is_destination;
    is_source = other.is_source;
  }

  abbrev pub touch_if : Bool → StreamConfig F → StreamConfig F
  touch_if updated s = if updated then record s { touched = s.touched + 1 } else s

  -- `locked`, `active`, `layout` without its datatype, `decimated_layout` and `data_width`
  abbrev pub is_active : StreamConfig F → Bool
  is_active s = s.is_source || s.is_destination

  abbrev pub decimated_width : StreamConfig F → ℕ
  decimated_width s = length s.elements * 3

  abbrev pub data_width : StreamConfig F → ℕ
  data_width s = length s.elements + 1

module _ {F : Type 0} (V : Type 0) ⦃floats : Floats F V⦄ where
  abbrev pub behind_merge :
      Element F
      → Option (Bool × Element F)
      → List (Element F)
      → Option Bool × List (Element F)
      → Option Bool × List (Element F)
  behind_merge e none elements later = (none, e ∷ elements)
  behind_merge e (some (changed, merged)) elements (later, elements') =
      (with_change changed later, merged ∷ elements')

  -- The loop over the sorted elements: whether one is changed, `none` where it raises, and the elements.
  pub merge_elements : List (Element F) → List (Element F) → Option Bool × List (Element F)
  merge_elements [] others = (some false, [])
  merge_elements (e ∷ elements) [] = (some false, e ∷ elements)
  merge_elements (e ∷ elements) (other ∷ others) =
      behind_merge e (Element.merge_configs V e other) elements (merge_elements elements others)

  abbrev pub merge_rest :
      StreamConfig F
      → StreamConfig F
      → Option Bool × List (Element F)
      → Option Bool × StreamConfig F
  merge_rest s other (none, elements) = (none, record s { elements = elements })
  merge_rest s other (some changed, elements) =
      let updated_config = if same_attributes s other then changed else true in
      (
        some updated_config,
        touch_if updated_config (record (take_attributes s other) { elements = elements }),
      )

  -- `merge_configs`: what it returns, `none` for a ConfigurationError, and the stream. Its elements are
  -- given in the order in which they are merged; the relationship keeps none.
  pub merge_configs : StreamConfig F → StreamConfig F → Option Bool × StreamConfig F
  merge_configs s other =
      if length s.elements == length other.elements
      then merge_rest s other (merge_elements (sorted s.elements) (sorted other.elements))
      else (none, s)

  -- The loop over the elements of a request, by their index.
  abbrev pub behind_update :
      Outcome × Element F
      → List (Element F)
      → StreamOutcome × List (Element F)
      → StreamOutcome × List (Element F)
  behind_update (done, e) elements (r, later) = (r, e ∷ later)
  behind_update (o, e) elements later = (failed o, e ∷ elements)

  pub update_elements : List (Element.Attrs V) → List (Element F) → StreamOutcome × List (Element F)
  update_elements configs [] = (stream_done, [])
  update_elements configs (e ∷ elements) =
      let later = update_elements configs elements in
      elim (get_elem? configs e.index) [
        | none ↦ (index_error, e ∷ elements)
        | some attrs ↦ behind_update (Element.update_attributes attrs e) elements later
      ]

-- The attributes of a request.
pub record StreamAttrs (V : Type 0) : Type 0 where
  pub new_name : Option (Option Text)
  pub new_description : Option (Option Text)
  pub new_keep_us : Option ℤ
  pub new_decimate : Option Bool
  pub new_elements : Option (List (Element.Attrs V))

abbrev pub is_given : {A : Type 0} → Option A → Bool
is_given none = false
is_given (some a) = true

-- `validate_name`, of a name that may be None
abbrev pub valid_name : Option Text → Option Text
valid_name none = none
valid_name (some name) = if is_empty_text name || has_char b'/' name then none else some name

abbrev pub any_given : {V : Type 0} → StreamAttrs V → Bool
any_given attrs =
    is_given attrs.new_name
    || is_given attrs.new_description
    || is_given attrs.new_keep_us
    || is_given attrs.new_decimate

module _ {F : Type 0} (V : Type 0) ⦃floats : Floats F V⦄ where
  abbrev pub set_plain : StreamAttrs V → StreamConfig F → StreamConfig F
  set_plain attrs s = record s {
    description = elim attrs.new_description [ none ↦ s.description | some d ↦ d ];
    keep_us = elim attrs.new_keep_us [ none ↦ s.keep_us | some k ↦ k ];
    decimate = elim attrs.new_decimate [ none ↦ s.decimate | some d ↦ d ];
  }

  -- What follows the loop over the elements.
  abbrev pub behind_elements :
      StreamConfig F → StreamOutcome × List (Element F) → StreamOutcome × StreamConfig F
  behind_elements s (stream_done, elements) =
      (stream_done, touch_if true (record s { elements = elements }))
  behind_elements s (o, elements) = (o, record s { elements = elements })

  abbrev pub set_elements : StreamAttrs V → StreamConfig F → StreamOutcome × StreamConfig F
  set_elements attrs s = elim attrs.new_elements [
    | none ↦ (stream_done, touch_if (any_given attrs) s)
    | some configs ↦
        (if length configs == length s.elements
          then behind_elements s (update_elements V configs s.elements)
          else (wrong_count, s))
  ]

  -- `update_attributes`
  pub update_attributes : StreamAttrs V → StreamConfig F → StreamOutcome × StreamConfig F
  update_attributes attrs s = elim attrs.new_name [
    | none ↦ set_elements attrs (set_plain attrs s)
    | some given ↦ elim (valid_name given) [
      | none ↦ (wrong_name, s)
      | some name ↦ set_elements attrs (set_plain attrs (record s { name = name }))
    ]
  ]

-- The value of a text of digits, behind the digits before.
abbrev pub digits_from : ℕ → Text → Option ℕ
digits_from n [] = some n
digits_from n (c ∷ t) =
    if leb b'0' c && leb c b'9' then digits_from (n * 10 + (c - b'0')) t else none

-- The number and the unit of `^(\d+)([hdwmy])$`.
abbrev pub number_and_unit : Text → Text → Option (ℕ × ℕ)
number_and_unit digits [] = none
number_and_unit digits (unit ∷ []) =
    if is_empty_text digits
    then none
    else elim (digits_from 0 digits) [ none ↦ none | some n ↦ some (n, unit) ]
number_and_unit digits (c ∷ d ∷ t) = number_and_unit (digits ++ c ∷ []) (d ∷ t)

-- `units`, in microseconds
abbrev pub unit_us : ℕ → Option ℕ
unit_us unit =
    if unit == b'h'
    then some (60 * 60 * 1000000)
    else if unit == b'd'
    then some (24 * 60 * 60 * 1000000)
    else if unit == b'w'
    then some (7 * 24 * 60 * 60 * 1000000)
    else if unit == b'm'
    then some (4 * 7 * 24 * 60 * 60 * 1000000)
    else if unit == b'y'
    then some (365 * 24 * 60 * 60 * 1000000)
    else none

abbrev pub keep_of : Option (ℕ × ℕ) → Option ℤ
keep_of none = none
keep_of (some (n, unit)) = elim (unit_us unit) [
  | none ↦ none
  | some us ↦ if n == 0 then none else some (pos (n * us))
]

-- `validate_keep`, on ASCII digits. The source's product is of a float, exact below 2^53.
pub validate_keep : Text → Option ℤ
validate_keep keep =
    if text_eq (lower keep) (codes "none")
    then some (pos 0)
    else if text_eq (lower keep) (codes "all")
    then some (negsuc 0)
    else keep_of (number_and_unit [] keep)
