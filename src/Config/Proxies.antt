-- ===== src/Config/Proxies.antt =====
-- The proxies that `load_config.run` reads.
use joule.Base.{
  ℕ, suc, ◌≡◌, refl, Option, some, List, [], ◌∷◌, ◌++◌, get_last?, if◌then◌else◌, ◌⊎◌, inl, inr,
  arith, Bool-cases,
}
use joule.Base.Text.{Text, codes}
use joule.Config.Ini.{ok, Values, Parser, get, has_section, options}
use joule.Config.{Proxy, Host}
use joule.Config.Load.{with_slash, parsed, read_proxies, proxies}
use joule.Config.Rules.{Ensures, Stays, weaken, same_files_rule, lift_rule}

get_last?-append : (s : Text) (c : ℕ) → get_last? (s ++ c ∷ []) ≡ some c
get_last?-append [] c = refl
get_last?-append (a ∷ []) c = refl
get_last?-append (a ∷ b ∷ s) c = get_last?-append (b ∷ s) c

-- The text is the other one, with a slash at its end.
abbrev pub Slashed : Text → Text → Type 0
Slashed s t = (get_last? t ≡ some b'/') × ((t ≡ s) ⊎ (t ≡ s ++ b'/' ∷ []))

with_slash-Slashed : (s t : Text) → with_slash s ≡ ok t → Slashed s t
unfolding with_slash
with_slash-Slashed s t h = ground (arith, get_last?-append s b'/')

module _ {W U : Type 0} (host : Host W U) (conf : Parser) where
  -- The URL is that of the value of this option of the section, with a slash at its end.
  abbrev pub IsUrlOf : Text → U → Type 0
  IsUrlOf name url =
      (s : Text) × (t : Text) × (get host.interpolation conf (codes "Proxies") name ≡ ok s)
      × Slashed s t
      × (host.parse_url t ≡ some url)

  -- A proxy for each option, in their order, with the uuids from a number on.
  abbrev pub Numbered : ℕ → Values → List (Proxy U) → Type 0
  Numbered uuid [] [] = Unit
  Numbered uuid ((name, _) ∷ values) (p ∷ ps) =
      (p.name ≡ name) × (p.uuid ≡ uuid) × IsUrlOf name p.url × Numbered (suc uuid) values ps
  Numbered uuid values ps = ⊥

  parsed-url : (o : Option U) (url : U) → parsed o ≡ ok url → o ≡ some url
  parsed-url o url h = ground arith

  read_proxies-Numbered :
      (uuid : ℕ) (values : Values) (w : W)
      → Ensures (Stays w (Numbered uuid values)) (read_proxies host conf uuid values w)
  unfolding read_proxies
  read_proxies-Numbered uuid [] w = (tt, refl)
  read_proxies-Numbered uuid ((name, value) ∷ rest) w =
      let Q = Stays w (Numbered uuid ((name, value) ∷ rest)) in
      lift_rule Q (get host.interpolation conf (codes "Proxies") name) w _ λ s read.
        lift_rule Q (with_slash s) w _ λ t slash.
          lift_rule Q (parsed (host.parse_url t)) w _ λ url e.
            same_files_rule Q (Numbered (suc uuid) rest) w _ _
              (read_proxies-Numbered (suc uuid) rest w)
              λ others h. (
                (
                  refl,
                  refl,
                  (s, t, read, with_slash-Slashed s t slash, parsed-url (host.parse_url t) url e),
                  h,
                ),
                refl,
              )

  -- The proxies of a parser, where none are given if it has no such section.
  abbrev pub ProxiesRight : List (Proxy U) → Type 0
  ProxiesRight ps =
      if has_section conf (codes "Proxies")
      then Numbered 0 (options conf (codes "Proxies")) ps
      else (ps ≡ [])

  pub proxies-Right : (w : W) → Ensures (Stays w ProxiesRight) (proxies host conf w)
  unfolding proxies
  proxies-Right w = elim (Bool-cases (has_section conf (codes "Proxies"))) [
    | inl e ↦
        let values = options conf (codes "Proxies") in
        rw e (
          weaken (Stays w (Numbered 0 values)) (Stays w ProxiesRight) _ (λ ps w' h. (rw e h.0, h.1))
            (read_proxies-Numbered 0 values w))
    | inr e ↦ rw e (rw e refl, refl)
  ]
