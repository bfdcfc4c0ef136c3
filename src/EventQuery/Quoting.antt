-- ===== src/EventQuery/Quoting.antt =====
-- The string literals in which keys and values stand.
use joule.Base.{
  ℕ, ◌≡◌, refl, Bool, true, false, Option, none, some, [], ◌∷◌, ◌++◌, ◌==◌, if◌then◌else◌, arith,
  Bool-cases, inl, inr,
}
use joule.Base.Text.{Text, has_char}
use joule.EventQuery.{
  double_quotes, StringComparison, is, is_not, like, unlike, on_text, FloatText, before_key,
  between, behind_value, quoted, clause_sql,
}

abbrev prepend : ℕ → Option (Text × Text) → Option (Text × Text)
prepend c none = none
prepend c (some (s, rest)) = some (c ∷ s, rest)

-- How PostgreSQL, with `standard_conforming_strings`, reads a literal behind its first quote: two
-- quotes are one, one quote is the end. The flag says that a quote has been read. It gives the
-- literal and what is behind it.
pub read_quoted : Bool → Text → Option (Text × Text)
read_quoted false [] = none
read_quoted true [] = some ([], [])
read_quoted false (c ∷ s) =
    let more = read_quoted false s in
    let quote = read_quoted true s in if c == b'\'' then quote else prepend c more
read_quoted true (c ∷ s) =
    let more = read_quoted false s in if c == b'\'' then prepend c more else some ([], c ∷ s)

-- The first literal of a text.
pub read_literal : Text → Option (Text × Text)
read_literal [] = none
read_literal (c ∷ s) =
    let later = read_literal s in if c == b'\'' then read_quoted false s else later

abbrev starts_with_quote : Text → Bool
starts_with_quote [] = false
starts_with_quote (c ∷ s) = c == b'\''

read_end : (rest : Text) → starts_with_quote rest ≡ false → read_quoted true rest ≡ some ([], rest)
unfolding read_quoted
read_end [] h = refl
read_end (c ∷ s) h = simp h

read_double_quotes :
    (s rest : Text)
    → starts_with_quote rest ≡ false
    → read_quoted false (double_quotes s ++ (b'\'' ∷ rest)) ≡ some (s, rest)
unfolding read_quoted double_quotes
read_double_quotes [] rest h = read_end rest h
read_double_quotes (c ∷ s) rest h =
    let later = read_double_quotes s rest h in
    elim (Bool-cases (c == b'\'')) [
      | inl quote ↦ let same : c ≡ b'\'' = ground arith in simp (same, later)
      | inr other ↦ simp (other, later)
    ]

read_literal-quoted :
    (before s rest : Text)
    → has_char b'\'' before ≡ false
    → starts_with_quote rest ≡ false
    → read_literal (before ++ quoted s rest) ≡ some (s, rest)
unfolding read_literal has_char
read_literal-quoted [] s rest lacks h = read_double_quotes s rest h
read_literal-quoted (c ∷ before) s rest lacks h =
    let other : (c == b'\'') ≡ false = ground arith in
    let without : has_char b'\'' before ≡ false = ground arith in
    simp (other, read_literal-quoted before s rest without h)

before_key-plain : (c : StringComparison) → has_char b'\'' (before_key c) ≡ false
unfolding has_char
before_key-plain is = refl
before_key-plain is_not = refl
before_key-plain like = refl
before_key-plain unlike = refl

between-plain :
    (c : StringComparison) (rest : Text)
    → (has_char b'\'' (between c) ≡ false) × (starts_with_quote (between c ++ rest) ≡ false)
unfolding has_char
between-plain is rest = (refl, refl)
between-plain is_not rest = (refl, refl)
between-plain like rest = (refl, refl)
between-plain unlike rest = (refl, refl)

behind_value-plain :
    (c : StringComparison)
    → (has_char b'\'' (behind_value c) ≡ false) × (starts_with_quote (behind_value c) ≡ false)
unfolding has_char
behind_value-plain is = (refl, refl)
behind_value-plain is_not = (refl, refl)
behind_value-plain like = (refl, refl)
behind_value-plain unlike = (refl, refl)

-- In the SQL of a comparison with a text, the first literal reads as the key, whatever that is, the
-- next one as the value, and there is no third.
pub clause_sql-literals :
    (V : Type 0) ⦃floats : FloatText V⦄ (key : Text) (comparison : StringComparison)
    (value sql : Text)
    → clause_sql {V = V} (on_text key comparison value) ≡ some sql
    → (rest : Text) × (tail : Text) × (read_literal sql ≡ some (key, rest))
      × (read_literal rest ≡ some (value, tail))
      × (has_char b'\'' tail ≡ false)
unfolding clause_sql
clause_sql-literals V key comparison value sql h =
    let tail = behind_value comparison in
    let rest = between comparison ++ quoted value tail in
    let written : sql ≡ before_key comparison ++ quoted key rest = ground arith in
    let (plain, no_quote) = between-plain comparison (quoted value tail) in
    let (tail_plain, tail_no_quote) = behind_value-plain comparison in
    (
      rest,
      tail,
      rw written (
          read_literal-quoted (before_key comparison) key rest (before_key-plain comparison)
            no_quote),
      read_literal-quoted (between comparison) value tail plain tail_no_quote,
      tail_plain,
    )
