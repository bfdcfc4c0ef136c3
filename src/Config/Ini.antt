-- ===== src/Config/Ini.antt =====
-- The `configparser.ConfigParser` that `load_config.run` fills from dictionaries and reads. Values that
-- hold a percent sign are written and read by its interpolation, a parameter.
use joule.Base.{Bool, false, ◌||◌, Option, none, some, List, [], ◌∷◌, ◌++◌, if◌then◌else◌}
use joule.Base.Text.{Text, text_eq, lower, codes}

-- The ConfigurationErrors.
pub data Problem : Type 0 where
  module_directory_missing stream_directory_missing : Problem
  invalid_ip_address invalid_port : Problem
  socket_directory_is_file socket_directory_refused socket_directory_not_writable : Problem
  missing_database no_connection : Problem
  invalid_insert_period invalid_cleanup_period invalid_max_log_lines : Problem
  users_file_missing : Problem

-- What is raised. An `OSError` stands for those that `os.mkdir` raises and `run` does not catch.
pub data Failure : Type 0 where
  configuration_error : Problem → Failure
  key_error duplicate_option invalid_interpolation index_error os_error invalid_url : Failure

pub data Result (A : Type 0) : Type 0 where
  ok : A → Result A
  failed : Failure → Result A

-- The keys of a dictionary, or the options of a section, with their values, in their order.
abbrev pub Values : Type 0
Values = List (Text × Text)

abbrev pub Dict : Type 0
Dict = List (Text × Values)

-- The parser's defaults, those of its section DEFAULT, and the other sections.
pub record Parser : Type 0 where
  pub defaults : Values
  pub sections : Dict

-- Whether a value may be set, and what is read for the value of an option of a section; `none` is an
-- `InterpolationError`.
pub record Interpolation : Type 0 where
  pub accepts : Text → Bool
  pub value_of : Parser → Text → Text → Text → Option Text

abbrev pub empty_parser : Parser
empty_parser = record { defaults = []; sections = [] }

module _ {V : Type 0} where
  unfoldable pub lookup : Text → List (Text × V) → Option V
  lookup key [] = none
  lookup key ((k, v) ∷ rest) = if text_eq k key then some v else lookup key rest

  -- `key in d`
  unfoldable pub has_key : Text → List (Text × V) → Bool
  has_key key [] = false
  has_key key ((k, v) ∷ rest) = text_eq k key || has_key key rest

  -- `d[key] = f(d[key])`, where a missing key is added with `f(start)`.
  unfoldable pub update : Text → V → (V → V) → List (Text × V) → List (Text × V)
  update key start f [] = (key, f start) ∷ []
  update key start f ((k, v) ∷ rest) =
      if text_eq k key then (k, f v) ∷ rest else (k, v) ∷ update key start f rest

abbrev pub is_default : Text → Bool
is_default = text_eq (codes "DEFAULT")

-- `set`, on a section that exists
unfoldable pub set_option : Text → Text → Text → Parser → Parser
unfolding update
set_option section key value p =
    if is_default section
    then record p { defaults = update key [] (λ _. value) p.defaults }
    else record p { sections = update section [] (update key [] (λ _. value)) p.sections }

-- The options of one section of `read_dict`. `seen` holds the names that were set before.
unfoldable pub set_options :
    Interpolation → Text → List (Text × Text) → Values → Parser → Result Parser
unfolding set_option has_key
set_options inter section seen [] p = ok p
set_options inter section seen ((name, value) ∷ rest) p =
    let key = lower name in
    let others =
      set_options inter section ((key, value) ∷ seen) rest (set_option section key value p) in
    if has_key key seen
    then failed duplicate_option
    else if inter.accepts value
    then others
    else failed invalid_interpolation

-- `add_section`; the refusal of a section that exists, or of DEFAULT, is ignored.
unfoldable pub add_section : Text → Parser → Parser
unfolding update
add_section section p =
    if is_default section
    then p
    else record p { sections = update section [] (λ values. values) p.sections }

-- `read_dict`, which changes the parser up to an exception
unfoldable pub read_dict : Interpolation → Dict → Parser → Result Parser
unfolding set_options add_section
read_dict inter [] p = ok p
read_dict inter ((section, values) ∷ rest) p =
    elim (set_options inter section [] values (add_section section p)) [
      | ok p' ↦ read_dict inter rest p'
      | failed e ↦ failed e
    ]

-- `section in p`
unfoldable pub has_section : Parser → Text → Bool
unfolding has_key
has_section p section = is_default section || has_key section p.sections

-- The options of a section, in front of the defaults that it does not have.
unfoldable pub add_defaults : Values → Values → Values
unfolding has_key
add_defaults values [] = values
add_defaults values ((k, v) ∷ rest) =
    if has_key k values then add_defaults values rest else add_defaults (values ++ (k, v) ∷ []) rest

abbrev pub found_section : Option Values → Values
found_section none = []
found_section (some values) = values

-- `p[section].items()`, uninterpolated
unfoldable pub options : Parser → Text → Values
unfolding add_defaults lookup
options p section = add_defaults (found_section (lookup section p.sections)) p.defaults

-- `option in p[section]`
unfoldable pub has_option : Parser → Text → Text → Bool
unfolding options has_key
has_option p section name = has_key (lower name) (options p section)

abbrev pub interpolated : Option Text → Result Text
interpolated none = failed invalid_interpolation
interpolated (some value) = ok value

-- `p.get(section, option, fallback=…)`, where `missing` is what happens if there is no such option
unfoldable pub get_or : Interpolation → Result Text → Parser → Text → Text → Result Text
unfolding options lookup
get_or inter missing p section name = elim (lookup (lower name) (options p section)) [
  | none ↦ missing
  | some value ↦ interpolated (inter.value_of p section (lower name) value)
]

-- `p[section][option]`
unfoldable pub get : Interpolation → Parser → Text → Text → Result Text
unfolding get_or has_section
get inter p section name =
    if has_section p section
    then get_or inter (failed key_error) p section name
    else failed key_error
