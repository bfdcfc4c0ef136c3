-- ===== src/Base/Decimal.antt =====
-- The decimal numeral of a number, read back.
use mathlib.Core.List.{reverse, reverse-cons, reverse-reverse}
use joule.Base.{
  ℕ, zero, suc, ◌+◌, ◌*◌, ◌/◌, ◌%◌, ◌<◌, ◌≡◌, refl, ◌∙◌, ap, Bool, true, false, some, [], ◌∷◌, ◌++◌,
  arith, ltb, ◌==◌, Bool-cases, inl, inr,
}
use joule.Base.Int.{pos}
use joule.Base.Text.{Text, strip, lstrip, has_char}
use joule.Base.Numeral.{
  is_digit, read_digits, signed_number, read_signed, parse_int, write_digits, decimal,
}

abbrev AllDigits : Text → Type 0
AllDigits [] = Unit
AllDigits (c ∷ s) = (is_digit c ≡ true) × AllDigits s

AllDigits-append : (s t : Text) → AllDigits s → AllDigits t → AllDigits (s ++ t)
AllDigits-append [] t hs ht = ht
AllDigits-append (c ∷ s) t hs ht = (hs.0, AllDigits-append s t hs.1 ht)

AllDigits-reverse : (s : Text) → AllDigits s → AllDigits (reverse s)
AllDigits-reverse [] h = tt
AllDigits-reverse (c ∷ s) h =
    rw (reverse-cons c s)
      (AllDigits-append (reverse s) (c ∷ []) (AllDigits-reverse s h.1) (h.0, tt))

lstrip-digits : (s : Text) → AllDigits s → lstrip s ≡ s
unfolding lstrip
lstrip-digits [] h = refl
lstrip-digits (c ∷ s) h = let d = h.0 in ground arith

strip-digits : (s : Text) → AllDigits s → strip s ≡ s
unfolding strip
strip-digits s h =
    rw (lstrip-digits s h, lstrip-digits (reverse s) (AllDigits-reverse s h)) (reverse-reverse s)

-- A digit is what is written for the last one.
last_digit : (n : ℕ) → n < 10 → is_digit (n + b'0') ≡ true
last_digit n h = ground arith

write_digits-AllDigits :
    (fuel n : ℕ) (rest : Text) → AllDigits rest → AllDigits (write_digits fuel n rest)
unfolding write_digits
write_digits-AllDigits zero n rest h = h
write_digits-AllDigits (suc fuel) n rest h = elim (Bool-cases (ltb n 10)) [
  | inl small ↦ rw small (last_digit n (ground arith), h)
  | inr large ↦ rw large (
      write_digits-AllDigits fuel (n / 10) ((n % 10 + b'0') ∷ rest)
        (last_digit (n % 10) (omega arith), h))
]

read_digit :
    (after : Bool) (acc d : ℕ) (rest : Text)
    → d < 10
    → read_digits after acc ((d + b'0') ∷ rest) ≡ read_digits true (acc * 10 + d) rest
unfolding read_digits
read_digit after acc d rest h = ground (arith, last_digit d h)

read_digits-write_digits :
    (fuel n : ℕ) (after : Bool) (rest : Text)
    → n < fuel
    → read_digits after 0 (write_digits fuel n rest) ≡ read_digits true n rest
unfolding write_digits
read_digits-write_digits zero n after rest h = absurd (omega arith)
read_digits-write_digits (suc fuel) n after rest h = elim (Bool-cases (ltb n 10)) [
  | inl small ↦
      rw small
        (read_digit after 0 n rest (ground arith) ∙ ap (λ k. read_digits true k rest) (omega arith))
  | inr large ↦ rw large (
      read_digits-write_digits fuel (n / 10) after ((n % 10 + b'0') ∷ rest) (ground arith)
      ∙ read_digit true (n / 10) (n % 10) rest (omega arith)
      ∙ ap (λ k. read_digits true k rest) (omega arith))
]

read_signed-digits :
    (s : Text) (n : ℕ) → AllDigits s → read_digits false 0 s ≡ some n → read_signed s ≡ some (pos n)
unfolding read_signed read_digits
read_signed-digits [] n h e = cc
read_signed-digits (c ∷ s) n h e =
    let minus : (c == b'-') ≡ false = ground arith in
    let plus : (c == b'+') ≡ false = ground arith in rw (minus, plus) (ap (signed_number false) e)

pub parse_int-decimal : (n : ℕ) → parse_int (decimal n) ≡ some (pos n)
unfolding parse_int decimal
parse_int-decimal n =
    let s = write_digits (suc n) n [] in
    let digits = write_digits-AllDigits (suc n) n [] tt in
    rw (strip-digits s digits)
      (read_signed-digits s n digits (read_digits-write_digits (suc n) n false [] (omega arith)))

no_underscore : (s : Text) → AllDigits s → has_char b'_' s ≡ false
unfolding has_char
no_underscore [] h = refl
no_underscore (c ∷ s) h = ground (arith, no_underscore s h.1)

pub decimal-no_underscore : (n : ℕ) → has_char b'_' (decimal n) ≡ false
unfolding decimal
decimal-no_underscore n =
    no_underscore (write_digits (suc n) n []) (write_digits-AllDigits (suc n) n [] tt)
