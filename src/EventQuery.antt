-- ===== src/EventQuery.antt =====
-- The query of the events whose content passes a filter: `query_event_json` of
-- src/joule/models/data_store/psql_helpers.py. How Python writes a float is a parameter.
pub mod Quoting
mod Tests
use joule.Base.{ℕ, Bool, true, false, Option, none, some, List, [], ◌∷◌, ◌++◌, ◌==◌, if◌then◌else◌}
use joule.Base.Text.{Text, codes}

-- `s.replace("'", "''")`
pub double_quotes : Text → Text
double_quotes [] = []
double_quotes (c ∷ s) =
    let rest = double_quotes s in if c == b'\'' then b'\'' ∷ b'\'' ∷ rest else c ∷ rest

pub data StringComparison : Type 0 where
  is : StringComparison
  is_not : StringComparison
  like : StringComparison
  unlike : StringComparison

pub data NumberComparison : Type 0 where
  gt : NumberComparison
  gte : NumberComparison
  lt : NumberComparison
  lte : NumberComparison
  eq : NumberComparison
  neq : NumberComparison

-- A clause of a filter, its comparison told apart. `unusable` is one that does not have three items,
-- or another comparison.
pub data Clause (V : Type 0) : Type 0 where
  on_text : Text → StringComparison → Text → Clause V
  on_number : Text → NumberComparison → V → Clause V
  unusable : Clause V

-- `str(float(value))`, or a ValueError
pub record FloatText (V : Type 0) : Type 0 where
  pub float_text : V → Option Text

-- What stands before the key, between it and the value, and behind the value.
abbrev pub before_key : StringComparison → Text
before_key is = codes "(content->>"
before_key is_not = codes "(NOT (content->>"
before_key like = codes "(content->>"
before_key unlike = codes "(content->>"

abbrev pub between : StringComparison → Text
between is = codes "="
between is_not = codes "="
between like = codes " like "
between unlike = codes " not like "

abbrev pub behind_value : StringComparison → Text
behind_value is = codes ")"
behind_value is_not = codes "))"
behind_value like = codes ")"
behind_value unlike = codes ")"

abbrev pub operator : NumberComparison → Text
operator gt = codes ">"
operator gte = codes ">="
operator lt = codes "<"
operator lte = codes "<="
operator eq = codes "="
operator neq = codes "="

abbrev pub before_cast : NumberComparison → Text
before_cast gt = codes "(CAST (content->>"
before_cast gte = codes "(CAST (content->>"
before_cast lt = codes "(CAST (content->>"
before_cast lte = codes "(CAST (content->>"
before_cast eq = codes "(CAST (content->>"
before_cast neq = codes "(NOT CAST (content->>"

abbrev pub quoted : Text → Text → Text
quoted s rest = b'\'' ∷ (double_quotes s ++ (b'\'' ∷ rest))

abbrev pub with_number : Text → NumberComparison → Option Text → Option Text
with_number key comparison none = none
with_number key comparison (some number) = some (
    before_cast comparison
    ++ quoted key (codes " AS FLOAT)" ++ (operator comparison ++ (number ++ codes ")"))))

module _ {V : Type 0} ⦃floats : FloatText V⦄ where
  -- The SQL of a clause; `none` is an exception.
  pub clause_sql : Clause V → Option Text
  clause_sql (on_text key comparison value) = some (
      before_key comparison
      ++ quoted key (between comparison ++ quoted value (behind_value comparison)))
  clause_sql (on_number key comparison value) = with_number key comparison (floats.float_text value)
  clause_sql unusable = none

-- `separator.join(texts)`
pub join_with : Text → List Text → Text
join_with separator [] = []
join_with separator (t ∷ []) = t
join_with separator (t ∷ u ∷ texts) = t ++ (separator ++ join_with separator (u ∷ texts))

abbrev pub both : {A : Type 0} → Option A → Option (List A) → Option (List A)
both none rest = none
both (some a) none = none
both (some a) (some rest) = some (a ∷ rest)

pub each_sql : {A : Type 0} → (A → Option Text) → List A → Option (List Text)
each_sql f [] = some []
each_sql f (x ∷ xs) = both (f x) (each_sql f xs)

abbrev pub joined : Text → Option (List Text) → Option Text
joined separator none = none
joined separator (some texts) = some (join_with separator texts)

abbrev pub in_parentheses : Option Text → Option Text
in_parentheses none = none
in_parentheses (some t) = some (codes "(" ++ (t ++ codes ")"))

module _ {V : Type 0} ⦃floats : FloatText V⦄ where
  pub query_event_json : List (List (Clause V)) → Option Text
  query_event_json groups = in_parentheses (
      joined (codes " OR ")
        (each_sql (λ group. joined (codes " AND ") (each_sql clause_sql group)) groups))
