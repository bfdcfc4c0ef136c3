-- ===== src/Pipe/Input/Token.antt =====
-- Where `find_interval_token` finds the token.
use joule.Base.{
  ℕ, zero, suc, ◌+◌, ◌*◌, ◌≤◌, ◌<◌, ◌≡◌, ◌≢◌, refl, ap, sym, subst, ◌∙◌, Bool, true, false, Option,
  none, some, List, [], ◌∷◌, take, drop, arith, Bool-cases, inl, inr,
}
use native.Mathlib.Nat.{suc-mul}
use joule.Pipe.Input.{Layout, is_prefix, occurs, rows_of, token_index, next_index}

drop_nil : {A : Type 0} (n : ℕ) → drop {A = A} n [] ≡ []
drop_nil zero = refl
drop_nil (suc n) = refl

drop-drop : {A : Type 0} (m n : ℕ) (xs : List A) → drop m (drop n xs) ≡ drop (n + m) xs
drop-drop m zero xs = ap (λ k. drop k xs) (omega arith)
drop-drop m (suc n) [] = drop_nil m ∙ sym (drop_nil (suc n + m))
drop-drop m (suc n) (x ∷ xs) =
    let up : suc (n + m) ≡ suc n + m = omega arith in
    drop-drop m n xs ∙ ap (λ k. drop k (x ∷ xs)) up

-- A row among the first rows.
pub take-drop-take :
    {A : Type 0} (m n k : ℕ) (xs : List A)
    → n + m ≤ k
    → take m (drop n (take k xs)) ≡ take m (drop n xs)
take-drop-take zero zero k xs h = refl
take-drop-take (suc m) zero zero xs h = absurd (omega arith)
take-drop-take (suc m) zero (suc k) [] h = refl
take-drop-take (suc m) zero (suc k) (x ∷ xs) h =
    ap (λ t. x ∷ t) (take-drop-take m zero k xs (omega arith))
take-drop-take m (suc n) zero xs h = absurd (omega arith)
take-drop-take m (suc n) (suc k) [] h = refl
take-drop-take m (suc n) (suc k) (x ∷ xs) h = take-drop-take m n k xs (omega arith)

take-IsPrefix : (n : ℕ) (bytes : List ℕ) → is_prefix (take n bytes) bytes ≡ true
take-IsPrefix zero bytes = refl
take-IsPrefix (suc n) [] = refl
take-IsPrefix (suc n) (b ∷ bytes) = ground (arith, take-IsPrefix n bytes)

-- A token that does not occur is not at a row.
absent_here : (token bytes : List ℕ) → occurs token bytes ≡ false → is_prefix token bytes ≡ false
unfolding occurs
absent_here [] [] h = cc
absent_here (a ∷ token) [] h = refl
absent_here token (b ∷ bytes) h = ground arith

absent_later :
    (token : List ℕ) (n : ℕ) (bytes : List ℕ)
    → occurs token bytes ≡ false
    → occurs token (drop n bytes) ≡ false
unfolding occurs
absent_later token zero bytes h = h
absent_later token (suc n) [] h = h
absent_later token (suc n) (b ∷ bytes) h = absent_later token n bytes (ground arith)

pub absent_at :
    (token bytes : List ℕ) (m n : ℕ) → occurs token bytes ≡ false → take m (drop n bytes) ≢ token
absent_at token bytes m n h e =
    let away = absent_here token (drop n bytes) (absent_later token n bytes h) in
    let here : is_prefix token (drop n bytes) ≡ true =
      subst (λ t. is_prefix t (drop n bytes) ≡ true) e (take-IsPrefix m (drop n bytes)) in
    cc

next_index-some :
    (o : Option ℕ) (i : ℕ) → next_index o ≡ some i → (j : ℕ) × (o ≡ some j) × (i ≡ suc j)
next_index-some none i h = absurd cc
next_index-some (some j) i h = (j, refl, cc)

next_index-none : (o : Option ℕ) → next_index o ≡ none → o ≡ none
next_index-none none h = refl
next_index-none (some j) h = absurd cc

-- The bytes of a row of `width` bytes.
abbrev pub row_at : (width : ℕ) → ℕ → List ℕ → List ℕ
row_at width k bytes = take width (drop (k * width) bytes)

next_row :
    (width k : ℕ) (bytes : List ℕ) → row_at width k (drop width bytes) ≡ row_at width (suc k) bytes
next_row width k bytes =
    let up : width + k * width ≡ suc k * width = omega (arith, suc-mul k width) in
    ap (take width) (drop-drop (k * width) width bytes ∙ ap (λ n. drop n bytes) up)

first_row : (width : ℕ) (bytes : List ℕ) → row_at width 0 bytes ≡ take width bytes
first_row width bytes =
    let start : 0 * width ≡ 0 = omega arith in ap (λ n. take width (drop n bytes)) start

module _ (Row : Type 0) ⦃layout : Layout Row⦄ where
  abbrev pub is_token : List ℕ → Bool
  is_token bytes = layout.equals_token (layout.decode bytes)

  -- The row that is found is a token, and those before are not.
  pub token_index-found :
      (n i : ℕ) (bytes : List ℕ)
      → token_index {Row = Row} (rows_of n bytes) ≡ some i
      → is_token (row_at layout.rowbytes i bytes) ≡ true
  unfolding token_index rows_of
  token_index-found zero i bytes h = absurd cc
  token_index-found (suc n) i bytes h = elim (Bool-cases (is_token (take layout.rowbytes bytes))) [
    | inl e ↦
        let first : some zero ≡ some i = rw e at h in
        let same : zero ≡ i = cc in
        subst (λ j. is_token (row_at layout.rowbytes j bytes) ≡ true) same
          (subst (λ b. is_token b ≡ true) (sym (first_row layout.rowbytes bytes)) e)
    | inr e ↦
        let later : next_index (token_index {Row = Row} (rows_of n (drop layout.rowbytes bytes)))
            ≡ some i =
          rw e at h in
        let (j, found, up) = next_index-some _ i later in
        let rest = token_index-found n j (drop layout.rowbytes bytes) found in
        subst (λ k. is_token (row_at layout.rowbytes k bytes) ≡ true) (sym up)
          (subst (λ b. is_token b ≡ true) (next_row layout.rowbytes j bytes) rest)
  ]

  pub token_index-before :
      (n i k : ℕ) (bytes : List ℕ)
      → token_index {Row = Row} (rows_of n bytes) ≡ some i
      → k < i
      → is_token (row_at layout.rowbytes k bytes) ≡ false
  unfolding token_index rows_of
  token_index-before zero i k bytes h below = absurd cc
  token_index-before (suc n) i k bytes h below =
      elim (Bool-cases (is_token (take layout.rowbytes bytes))) [
        | inl e ↦
            let first : some zero ≡ some i = rw e at h in
            let same : zero ≡ i = cc in absurd (omega (arith, same, below))
        | inr e ↦
            let later : next_index
                  (token_index {Row = Row} (rows_of n (drop layout.rowbytes bytes)))
                ≡ some i =
              rw e at h in
            let (j, found, up) = next_index-some _ i later in
            elim k as (λ k. k < i → is_token (row_at layout.rowbytes k bytes) ≡ false) [
              | zero ↦
                  λ _. subst (λ b. is_token b ≡ false) (sym (first_row layout.rowbytes bytes)) e
              | suc m ↦ λ near.
                  subst (λ b. is_token b ≡ false) (next_row layout.rowbytes m bytes)
                    (token_index-before n j m (drop layout.rowbytes bytes) found
                      (omega (arith, up, near)))
            ]
              below
      ]

  pub token_index-none :
      (n k : ℕ) (bytes : List ℕ)
      → token_index {Row = Row} (rows_of n bytes) ≡ none
      → k < n
      → is_token (row_at layout.rowbytes k bytes) ≡ false
  unfolding token_index rows_of
  token_index-none zero k bytes h below = absurd (omega (arith, below))
  token_index-none (suc n) k bytes h below =
      elim (Bool-cases (is_token (take layout.rowbytes bytes))) [
        | inl e ↦ let bad : some zero ≡ none = rw e at h in absurd cc
        | inr e ↦
            let later : next_index
                  (token_index {Row = Row} (rows_of n (drop layout.rowbytes bytes)))
                ≡ none =
              rw e at h in
            elim k as (λ k. k < suc n → is_token (row_at layout.rowbytes k bytes) ≡ false) [
              | zero ↦
                  λ _. subst (λ b. is_token b ≡ false) (sym (first_row layout.rowbytes bytes)) e
              | suc m ↦ λ near.
                  subst (λ b. is_token b ≡ false) (next_row layout.rowbytes m bytes)
                    (token_index-none n m (drop layout.rowbytes bytes) (next_index-none _ later)
                      (omega (arith, near)))
            ]
              below
      ]

  -- What decodes to no token is not the token's bytes.
  pub not-token : (bytes : List ℕ) → is_token bytes ≡ false → bytes ≢ layout.token_bytes
  not-token bytes h e =
      let same : is_token layout.token_bytes ≡ false = subst (λ b. is_token b ≡ false) e h in
      let is : is_token layout.token_bytes ≡ true = layout.equals_token-token_bytes in cc
