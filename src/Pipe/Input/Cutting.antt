-- ===== src/Pipe/Input/Cutting.antt =====
-- How the bytes to be processed are cut at the token that is found.
use joule.Base.{
  ℕ, zero, suc, ◌*◌, ◌/◌, ◌≤◌, ◌<◌, ◌≡◌, ◌≢◌, refl, ap, sym, subst, ◌∙◌, true, false, Option, none,
  some, List, [], ◌++◌, length, take, drop, arith, append_assoc, take-append-drop, length-take, inl,
  inr, ◌⊎◌,
}
use native.Mathlib.Nat.{suc-mul, mul-le-mul_right, div-lt_iff_lt-mul}
use joule.Pipe.{ok}
use joule.Pipe.Input.{
  Layout, occurs, rows_of, frombuffer, token_index, find_interval_token, frame_at,
}
use joule.Pipe.Input.Token.{
  take-drop-take, absent_at, row_at, is_token, token_index-found, token_index-before,
  token_index-none, not-token,
}

module _ (Row : Type 0) ⦃layout : Layout Row⦄ where
  -- The three parts of a frame are the bytes.
  pub frame_whole :
      (bytes later : List ℕ) (loc : Option ℕ)
      → (frame_at Row bytes loc).row_bytes
          ++ ((frame_at Row bytes loc).gap ++ ((frame_at Row bytes loc).rest ++ later))
        ≡ bytes ++ later
  frame_whole bytes later none = refl
  frame_whole bytes later (some i) =
      let n = length layout.token_bytes in
      let behind = drop (i * n) bytes in
      ap (λ l. take (i * n) bytes ++ l)
        (sym (append_assoc (take n behind) (drop n behind) later)
          ∙ ap (λ l. l ++ later) (take-append-drop n behind))
      ∙ (sym (append_assoc (take (i * n) bytes) behind later)
          ∙ ap (λ l. l ++ later) (take-append-drop (i * n) bytes))

  pub frame_gap :
      (bytes : List ℕ) (loc : Option ℕ)
      → length (frame_at Row bytes loc).gap ≤ length layout.token_bytes
  frame_gap bytes none = omega arith
  frame_gap bytes (some i) =
      let n = length layout.token_bytes in omega (arith, length-take n (drop (i * n) bytes))

  pub frame_no_gap :
      (bytes : List ℕ) (loc : Option ℕ)
      → (frame_at Row bytes loc).interval_break ≡ false
      → (frame_at Row bytes loc).gap ≡ []
  frame_no_gap bytes none h = refl
  frame_no_gap bytes (some i) h = absurd (ground arith)

  -- None of the rows in the bytes is the token.
  abbrev pub IsClean : List Row → List ℕ → Type 0
  IsClean rows bytes =
      (k : ℕ) → k < length rows → row_at layout.rowbytes k bytes ≢ layout.token_bytes

  length-rows_of : (n : ℕ) (bytes : List ℕ) → length (rows_of {Row = Row} n bytes) ≡ n
  unfolding rows_of
  length-rows_of zero bytes = refl
  length-rows_of (suc n) bytes = omega (arith, length-rows_of n (drop layout.rowbytes bytes))

  length-frombuffer :
      (bytes : List ℕ) (rows : List Row)
      → frombuffer bytes ≡ ok rows
      → length rows ≡ length bytes / layout.rowbytes
  unfolding frombuffer
  length-frombuffer bytes rows h =
      ground (arith, length-rows_of (length bytes / layout.rowbytes) bytes)

  -- Where the token's bytes occur, the answer is of the rows.
  find_interval_token-rows :
      (bytes : List ℕ) (o : Option ℕ)
      → find_interval_token Row bytes ≡ ok o
      → ((occurs layout.token_bytes bytes ≡ false) × (o ≡ none))
        ⊎ (token_index {Row = Row} (rows_of (length bytes / layout.rowbytes) bytes) ≡ o)
  unfolding find_interval_token frombuffer
  find_interval_token-rows bytes o h = ground arith

  pub frame-IsClean :
      (bytes : List ℕ) (loc : Option ℕ) (rows : List Row)
      → find_interval_token Row bytes ≡ ok loc
      → frombuffer (frame_at Row bytes loc).row_bytes ≡ ok rows
      → IsClean rows (frame_at Row bytes loc).row_bytes
  frame-IsClean bytes none rows h d k below = elim (find_interval_token-rows bytes none h) [
    | inl absent ↦ absent_at layout.token_bytes bytes layout.rowbytes (k * layout.rowbytes) absent.0
    | inr index ↦
        let count = length-frombuffer bytes rows d in
        not-token Row (row_at layout.rowbytes k bytes) (
          token_index-none Row (length bytes / layout.rowbytes) k bytes index
            (omega (arith, count, below)))
  ]
  frame-IsClean bytes (some i) rows h d k below = elim (find_interval_token-rows bytes (some i) h) [
    | inl absent ↦ absurd (let bad = absent.1 in cc)
    | inr index ↦
        let w = layout.rowbytes in
        let front = take (i * length layout.token_bytes) bytes in
        let width : i * length layout.token_bytes ≡ i * w =
          ap (λ n. i * n) layout.length-token_bytes in
        let few : length front < suc i * w = omega (
          arith,
          length-take (i * length layout.token_bytes) bytes,
          width,
          suc-mul i w,
          layout.rowbytes-pos,
        ) in
        let bound : length front / w < suc i = (div-lt_iff_lt-mul layout.rowbytes-pos).1 few in
        let early : k < i = omega (arith, bound, below, length-frombuffer front rows d) in
        let inside : suc k * w ≤ i * w = mul-le-mul_right w early in
        let same : row_at w k front ≡ row_at w k bytes =
          take-drop-take w (k * w) (i * length layout.token_bytes) bytes
            (omega (arith, inside, width, suc-mul k w)) in
        subst (λ b. b ≢ layout.token_bytes) (sym same)
          (not-token Row (row_at w k bytes)
            (token_index-before Row (length bytes / w) i k bytes index early))
  ]

  -- What is cut out is a token.
  pub frame_token :
      (bytes : List ℕ) (loc : Option ℕ)
      → find_interval_token Row bytes ≡ ok loc
      → ((frame_at Row bytes loc).gap ≡ []) ⊎ (is_token Row (frame_at Row bytes loc).gap ≡ true)
  frame_token bytes none h = inl refl
  frame_token bytes (some i) h = elim (find_interval_token-rows bytes (some i) h) [
    | inl absent ↦ absurd (let bad = absent.1 in cc)
    | inr index ↦ inr (
        subst (λ n. is_token Row (take n (drop (i * n) bytes)) ≡ true)
          (sym layout.length-token_bytes)
          (token_index-found Row (length bytes / layout.rowbytes) i bytes index))
  ]
