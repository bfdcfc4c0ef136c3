-- ===== src/EventQuery/Tests.antt =====
-- Filters whose values hold quotes; floats are written as they come.
use joule.Base.{◌≡◌, refl, false, none, some, [], ◌∷◌}
use joule.Base.Text.{Text, codes, has_char}
use joule.EventQuery.{
  FloatText, is, is_not, gt, on_text, on_number, unusable, clause_sql, query_event_json,
  double_quotes, join_with, each_sql,
}
use joule.EventQuery.Quoting.{read_literal, clause_sql-literals}

instance abbrev as_written : FloatText Text
as_written = record { float_text = λ t. some t }

query_runs :
    query_event_json (
      (on_text (codes "a") is (codes "b") ∷ on_number (codes "c") gt (codes "1.0") ∷ [])
      ∷ (on_text (codes "d") is_not (codes "e'f") ∷ [])
      ∷ [])
    ≡ some (
        codes
          "((content->>'a'='b') AND (CAST (content->>'c' AS FLOAT)>1.0) OR (NOT (content->>'d'='e''f')))")
unfolding query_event_json clause_sql double_quotes join_with each_sql
query_runs = refl

query_refused : query_event_json {V = Text} ((unusable ∷ []) ∷ []) ≡ none
unfolding query_event_json clause_sql each_sql
query_refused = refl

clause_sql-literals_example :
    (rest : Text) × (tail : Text) × (read_literal (codes "(content->>'k'='v'' OR ''x')")
      ≡ some (codes "k", rest))
    × (read_literal rest ≡ some (codes "v' OR 'x", tail))
    × (has_char b'\'' tail ≡ false)
unfolding clause_sql double_quotes
clause_sql-literals_example =
    clause_sql-literals Text (codes "k") is (codes "v' OR 'x")
      (codes "(content->>'k'='v'' OR ''x')") refl
