-- ===== src/PipeConfig/RoundTrip.antt =====
-- What a configuration that is written out is parsed to.
use joule.Base.{
  ℕ, true, false, ◌≡◌, refl, ap, sym, subst, ◌∙◌, some, List, [], ◌∷◌, ◌++◌, arith, append_assoc,
  Bool-cases, inl, inr, ◌==◌,
}
use joule.Base.Text.{
  Text, cons_first, has_char, is_empty_text, split, join, lower, Lacks, split-append, split_single,
  has_char-append, text_eq,
}
use joule.PipeConfig.{
  Datatype, float64, float32, int64, int32, int16, datatype_name, validate_datatype, validate_name,
  pop, split_config, split_path, parse_pipe_config,
}

-- How the configuration is written, as the comment of the source says.
abbrev pub write_config : Text → Text → Text → Text
write_config path name inline = path ++ (b'/' ∷ (name ++ (b':' ∷ inline)))

pop-append : (ps : List Text) (p : Text) → pop (ps ++ p ∷ []) ≡ (ps, p)
unfolding pop
pop-append [] p = refl
pop-append (q ∷ []) p = refl
pop-append (q ∷ r ∷ ps) p = rw (pop-append (r ∷ ps) p)

split_cases : (sep : ℕ) (s : Text) → (p : Text) × (ps : List Text) × (split sep s ≡ p ∷ ps)
unfolding split
split_cases sep [] = ([], [], refl)
split_cases sep (c ∷ s) =
    let (p, ps, e) = split_cases sep s in
    elim (Bool-cases (c == sep)) [
      | inl found ↦ ([], split sep s, simp found)
      | inr other ↦ (c ∷ p, ps, simp (other, e))
    ]

cons_first-append :
    (c : ℕ) (l m : List Text) (p : Text) (ps : List Text)
    → l ≡ p ∷ ps
    → cons_first c (l ++ m) ≡ cons_first c l ++ m
cons_first-append c l m p ps e = rw e

split_last :
    (sep : ℕ) (s t : Text)
    → has_char sep t ≡ false
    → split sep (s ++ (sep ∷ t)) ≡ split sep s ++ t ∷ []
unfolding split
split_last sep [] t h = ground (arith, split_single sep t h)
split_last sep (c ∷ s) t h =
    let (p, ps, e) = split_cases sep s in
    ground (arith, split_last sep s t h, cons_first-append c (split sep s) (t ∷ []) p ps e)

join-cons_first :
    (sep c : ℕ) (l : List Text) (p : Text) (ps : List Text)
    → l ≡ p ∷ ps
    → join sep (cons_first c l) ≡ c ∷ join sep l
unfolding join
join-cons_first sep c l p [] e = rw e
join-cons_first sep c l p (q ∷ ps) e = rw e

join-cons_nil :
    (sep : ℕ) (l : List Text) (p : Text) (ps : List Text)
    → l ≡ p ∷ ps
    → join sep ([] ∷ l) ≡ sep ∷ join sep l
unfolding join
join-cons_nil sep l p ps e = rw e

-- Joining the parts of a split gives the text back.
pub join-split : (sep : ℕ) (s : Text) → join sep (split sep s) ≡ s
unfolding split
join-split sep [] = unfold join in refl
join-split sep (c ∷ s) =
    let (p, ps, e) = split_cases sep s in
    ground (
      arith,
      join-split sep s,
      join-cons_first sep c (split sep s) p ps e,
      join-cons_nil sep (split sep s) p ps e,
    )

has_char-write_config : (path name : Text) → has_char b'/' (path ++ (b'/' ∷ name)) ≡ true
has_char-write_config path name = rw has_char-append (unfold has_char in ground arith)

split_config-append :
    (full inline : Text)
    → has_char b':' full ≡ false
    → has_char b':' inline ≡ false
    → split_config (full ++ (b':' ∷ inline)) ≡ (full, inline)
unfolding split_config
split_config-append full inline hf hi =
    let found : has_char b':' (full ++ (b':' ∷ inline)) ≡ true =
      rw has_char-append (unfold has_char in ground arith) in
    rw (found, split-append b':' full inline hf, split_single b':' inline hi)

split_path-append :
    (path name : Text)
    → has_char b'/' name ≡ false
    → is_empty_text name ≡ false
    → split_path (path ++ (b'/' ∷ name)) ≡ some (path, name)
unfolding split_path
split_path-append path name slash given = rw (
  has_char-write_config path name,
  split_last b'/' path name slash,
  pop-append (split b'/' path) name,
  given,
  join-split b'/' path,
)

-- A configuration written from a path, a name and an inline configuration is parsed to these, if the
-- name is not empty and has no slash, and none of the three has a colon.
pub parse-write_config :
    (path name inline : Text)
    → has_char b':' path ≡ false
    → has_char b':' name ≡ false
    → has_char b':' inline ≡ false
    → has_char b'/' name ≡ false
    → is_empty_text name ≡ false
    → parse_pipe_config (write_config path name inline) ≡ some (path, name, inline)
unfolding parse_pipe_config
parse-write_config path name inline hp hn hi slash given =
    let full = path ++ (b'/' ∷ name) in
    let no_colon : has_char b':' full ≡ false =
      rw has_char-append (unfold has_char in ground arith) in
    rw (
      ← append_assoc path (b'/' ∷ name) (b':' ∷ inline),
      split_config-append full inline no_colon hi,
      split_path-append path name slash given,
    )

cons_first-Lacks :
    (sep c : ℕ) (l : List Text) → (c == sep) ≡ false → Lacks sep l → Lacks sep (cons_first c l)
cons_first-Lacks sep c [] e h = (unfold has_char in ground arith, tt)
cons_first-Lacks sep c (p ∷ ps) e h = (unfold has_char in ground arith, h.1)

split-Lacks : (sep : ℕ) (s : Text) → Lacks sep (split sep s)
unfolding split
split-Lacks sep [] = (unfold has_char in refl, tt)
split-Lacks sep (c ∷ s) = elim (Bool-cases (c == sep)) [
  | inl found ↦ simp found (unfold has_char in refl, split-Lacks sep s)
  | inr other ↦ simp other (cons_first-Lacks sep c (split sep s) other (split-Lacks sep s))
]

pop-concat : (p : Text) (ps : List Text) → (pop (p ∷ ps)).0 ++ (pop (p ∷ ps)).1 ∷ [] ≡ p ∷ ps
unfolding pop
pop-concat p [] = refl
pop-concat p (q ∷ ps) = ap (λ t. p ∷ t) (pop-concat q ps)

pop-Lacks :
    (sep : ℕ) (p : Text) (ps : List Text)
    → Lacks sep (p ∷ ps)
    → has_char sep (pop (p ∷ ps)).1 ≡ false
unfolding pop
pop-Lacks sep p [] h = h.0
pop-Lacks sep p (q ∷ ps) h = pop-Lacks sep q ps h.1

join-snoc :
    (sep : ℕ) (f : Text) (fs : List Text) (l : Text)
    → join sep (f ∷ fs) ++ (sep ∷ l) ≡ join sep (f ∷ fs ++ l ∷ [])
unfolding join
join-snoc sep f [] l = refl
join-snoc sep f (g ∷ fs) l =
    append_assoc f (sep ∷ join sep (g ∷ fs)) (sep ∷ l)
    ∙ ap (λ t. f ++ (sep ∷ t)) (join-snoc sep g fs l)

-- All but the last part, joined, and the last spell the text, if the separator occurs in it.
spelled :
    (sep : ℕ) (full : Text) (front : List Text) (last : Text)
    → front ++ last ∷ [] ≡ split sep full
    → has_char sep full ≡ true
    → has_char sep last ≡ false
    → join sep front ++ (sep ∷ last) ≡ full
spelled sep full [] last e found lacks =
    let same : last ≡ full = unfold join in ap (join sep) e ∙ join-split sep full in
    absurd (let no_sep : has_char sep full ≡ false = rw (← same) lacks in cc)
spelled sep full (f ∷ fs) last e found lacks =
    join-snoc sep f fs last ∙ ap (join sep) e ∙ join-split sep full

split_path_cases :
    (full path name : Text)
    → split_path full ≡ some (path, name)
    → let (front, last) = pop (split b'/' full) in
      (has_char b'/' full ≡ true)
      × (is_empty_text name ≡ false)
      × (path ≡ join b'/' front)
      × (name ≡ last)
unfolding split_path
split_path_cases full path name h = ground arith

split_path_parts :
    (full : Text) (p : Text) (ps : List Text)
    → split b'/' full ≡ p ∷ ps
    → has_char b'/' full ≡ true
    → let (front, last) = pop (split b'/' full) in
      (join b'/' front ++ (b'/' ∷ last) ≡ full) × (has_char b'/' last ≡ false)
split_path_parts full p ps parts found =
    let lacks = subst (Lacks b'/') parts (split-Lacks b'/' full) in
    let no_slash = pop-Lacks b'/' p ps lacks in
    rw parts (
      spelled b'/' full (pop (p ∷ ps)).0 (pop (p ∷ ps)).1 (pop-concat p ps ∙ sym parts) found
          no_slash,
      no_slash,
    )

-- What a full path is split into spells it, and the name is one that `validate_name` accepts.
pub split_path_sound :
    (full path name : Text)
    → split_path full ≡ some (path, name)
    → (path ++ (b'/' ∷ name) ≡ full) × (validate_name name ≡ some name)
unfolding validate_name
split_path_sound full path name h =
    let (found, given, front, last) = split_path_cases full path name h in
    let (p, ps, parts) = split_cases b'/' full in
    let (text, no_slash) = split_path_parts full p ps parts found in
    (rw (front, last) text, let clean = rw (← last) at no_slash in simp (given, clean))

-- Every data type is read back from its name in either case.
pub validate-datatype_name :
    (d : Datatype)
    → (validate_datatype (datatype_name d) ≡ some d)
      × (validate_datatype (lower (datatype_name d)) ≡ some d)
unfolding validate_datatype text_eq
validate-datatype_name float64 = (refl, refl)
validate-datatype_name float32 = (refl, refl)
validate-datatype_name int64 = (refl, refl)
validate-datatype_name int32 = (refl, refl)
validate-datatype_name int16 = (refl, refl)
