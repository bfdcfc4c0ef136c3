-- ===== src/Base/Numeral.antt =====
-- Decimal numerals: Python's `int(text)` and `str(number)`, for texts whose digits are ASCII.
use joule.Base.{
  ℕ, zero, suc, ◌+◌, ◌-◌, ◌*◌, ◌/◌, ◌%◌, Bool, true, false, ◌&&◌, Option, none, some, [], ◌∷◌, leb,
  ltb, ◌==◌, if◌then◌else◌,
}
use joule.Base.Int.{ℤ, pos, sub_ℕ}
use joule.Base.Text.{Text, strip}

abbrev pub is_digit : ℕ → Bool
is_digit c = leb b'0' c && leb c b'9'

-- The value of digits behind those that make `n`. An underscore may stand between two digits; `after`
-- says whether a digit stands before.
unfoldable pub read_digits : Bool → ℕ → Text → Option ℕ
read_digits after n [] = if after then some n else none
read_digits after n (c ∷ s) = elim (is_digit c) [
  | true ↦ read_digits true (n * 10 + (c - b'0')) s
  | false ↦ elim (after && (c == b'_')) [ true ↦ read_digits false n s | false ↦ none ]
]

abbrev pub signed_number : Bool → Option ℕ → Option ℤ
signed_number minus none = none
signed_number minus (some n) = some (if minus then sub_ℕ 0 n else pos n)

unfoldable pub read_signed : Text → Option ℤ
unfolding read_digits
read_signed [] = none
read_signed (c ∷ s) =
    if c == b'-'
    then signed_number true (read_digits false 0 s)
    else if c == b'+'
    then signed_number false (read_digits false 0 s)
    else signed_number false (read_digits false 0 (c ∷ s))

-- `int(s)`; `none` is a ValueError.
unfoldable pub parse_int : Text → Option ℤ
unfolding read_signed strip
parse_int s = read_signed (strip s)

-- The digits of `n` in front of others, on fuel.
unfoldable pub write_digits : ℕ → ℕ → Text → Text
write_digits zero n rest = rest
write_digits (suc fuel) n rest =
    let more = write_digits fuel (n / 10) ((n % 10 + b'0') ∷ rest) in
    if ltb n 10 then (n + b'0') ∷ rest else more

-- `str(n)`
unfoldable pub decimal : ℕ → Text
unfolding write_digits
decimal n = write_digits (suc n) n []
