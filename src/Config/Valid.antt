-- ===== src/Config/Valid.antt =====
-- What is true of every configuration that `load_config.run` returns.
use joule.Base.{
  ◌≡◌, refl, Bool, true, false, ◌||◌, ◌&&◌, not, Option, none, some, [], ◌++◌, subst, if_ind,
  if◌then◌else◌, arith, Bool-cases, inl, inr,
}
use joule.Base.Int.{ℤ, pos, ltb_ℤ, ◌≤ℤ◌, ◌<ℤ◌}
use joule.Base.Text.{Text, codes}
use joule.Base.Numeral.{parse_int}
use joule.Config.Ini.{
  Problem, Result, ok, failed, Dict, Parser, get, get_or, has_section, no_connection,
  missing_database,
}
use joule.Config.{JouleConfig, SecurityConfig, Host, M, after, ◌>>=◌, ◌>>◌, pure, lift, raise_if}
use joule.Config.Load.{
  checked_number, number, listen, periods, security, directory, is_positive, socket_directory,
  database, users_file, load, filled, run, in_main, main, made_directory,
}
use joule.Config.Rules.{Ensures, Stays, bind_rule, any_rule, same_files_rule, lift_rule, raise_rule}
use joule.Config.Proxies.{ProxiesRight, proxies-Right}

-- The address is one, and the port in range.
abbrev pub ListensRight : {W U : Type 0} → Host W U → Option Text × Option ℤ → Type 0
ListensRight host (none, none) = Unit
ListensRight host (some address, some port) =
    (host.is_ip_address address ≡ true) × (pos 0 ≤ℤ port) × (port ≤ℤ pos 65535)
ListensRight host (address, port) = ⊥

module _ {W U : Type 0} (host : Host W U) (conf : Parser) where
  checked_number-Stays :
      (problem : Problem) (bad : ℤ → Bool) (o : Option ℤ) (w : W)
      → Ensures (Stays w (λ n. bad n ≡ false)) (checked_number problem bad o, w)
  checked_number-Stays problem bad none w = tt
  checked_number-Stays problem bad (some n) w = elim (Bool-cases (bad n)) [
    | inl e ↦ rw e tt
    | inr e ↦ rw e (e, refl)
  ]

  number-Stays :
      (name : Text) (problem : Problem) (bad : ℤ → Bool) (w : W)
      → Ensures (Stays w (λ n. bad n ≡ false)) (number host conf name problem bad w)
  unfolding number
  number-Stays name problem bad w =
      lift_rule (Stays w (λ n. bad n ≡ false)) (main host conf name w).0 w
        (λ value. lift (checked_number problem bad (parse_int value)))
        λ value e. checked_number-Stays problem bad (parse_int value) w

  listen-Stays : (w : W) → Ensures (Stays w (ListensRight host)) (listen host conf w)
  unfolding listen
  listen-Stays w =
      let Q = Stays w (ListensRight host) in
      if_ind (λ (m : M W (Option Text × Option ℤ)). Ensures Q (m w))
        (in_main host conf (codes "IPAddress"))
        (λ _. lift_rule Q (main host conf (codes "IPAddress") w).0 w _ λ address _.
          raise_rule Q (λ v. not (host.is_ip_address address)) _ w _
            λ right.
              same_files_rule Q (λ n. (ltb_ℤ n (pos 0) || ltb_ℤ (pos 65535) n) ≡ false) w _ _
                (number-Stays (codes "Port") _ _ w)
                λ port range. ((ground arith, ground arith, ground arith), refl))
        (λ _. (tt, refl))

  -- What the periods and the number of log lines are.
  abbrev PeriodsRight : ℤ × ℤ × ℤ → Type 0
  PeriodsRight (insert_period, cleanup_period, max_log_lines) =
      (pos 0 <ℤ insert_period) × (insert_period ≤ℤ cleanup_period) × (pos 0 <ℤ max_log_lines)

  periods-Stays : (w : W) → Ensures (Stays w PeriodsRight) (periods host conf w)
  unfolding periods
  periods-Stays w =
      let Q = Stays w PeriodsRight in
      same_files_rule Q _ w _ _ (number-Stays _ _ (λ n. not (is_positive n)) w) λ insert i.
        same_files_rule Q _ w _ _ (number-Stays _ _ (λ n. not (is_positive n) || ltb_ℤ n insert) w)
          λ cleanup c.
            same_files_rule Q _ w _ _ (number-Stays _ _ (λ n. not (is_positive n)) w)
              λ lines l. ((ground arith, ground arith, ground arith), refl)

  security-Stays : (w : W) → Ensures (Stays w (λ _. Unit {0})) (security host conf w)
  unfolding security
  security-Stays w =
      let section = codes "Security" in
      let Q = Stays {A = Option SecurityConfig} w (λ _. Unit {0}) in
      if_ind (λ (m : M W (Option SecurityConfig)). Ensures Q (m w)) (has_section conf section)
        (λ _. lift_rule Q (get host.interpolation conf section (codes "Certificate")) w _ λ _ _.
          lift_rule Q (get host.interpolation conf section (codes "Key")) w _ λ _ _.
            lift_rule Q
              (get_or host.interpolation (ok []) conf section (codes "CertificateAuthority")) w _
              λ _ _. (tt, refl))
        (λ _. (tt, refl))

  module _ (verify : Bool) where
    directory-Stays :
        (name : Text) (problem : Problem) (w : W)
        → Ensures
            (Stays w (λ path. verify ≡ true → host.is_dir w path ≡ true))
            (directory host conf verify name problem w)
    unfolding directory
    directory-Stays name problem w =
        let Q = Stays w (λ path. verify ≡ true → host.is_dir w path ≡ true) in
        lift_rule Q (main host conf name w).0 w _ λ path _.
          raise_rule Q (λ v. not (host.is_dir v path) && verify) problem w _
            λ e. (λ v. ground arith, refl)

    socket_directory-Ensures :
        (w : W)
        → Ensures
            (λ path w'. verify ≡ true → host.is_writable w' path ≡ true)
            (socket_directory host conf verify w)
    unfolding socket_directory
    socket_directory-Ensures w =
        let Q = λ (path : Text) (w' : W). verify ≡ true → host.is_writable w' path ≡ true in
        lift_rule Q (main host conf (codes "SocketDirectory") w).0 w _ λ path _.
          any_rule {A = Unit {0}} Q _
            (if not (host.is_dir w path) && verify
              then made_directory host conf (host.make_directory path w)
              else (ok tt, w))
            λ _ w'.
              raise_rule Q (λ v. not (host.is_writable v path) && verify) _ w' _ λ e v. ground arith

    dsn-Stays :
        (w : W)
        → Ensures (Stays w (λ (_ : Text). Unit {0})) (
            (if in_main host conf (codes "Database")
                then (main host conf (codes "Database") >>= λ address.
                    pure (codes "postgresql://" ++ address))
                else (raise_if (λ _. verify) missing_database >> pure []))
              w)
    dsn-Stays w =
        let Q = Stays {A = Text} w (λ _. Unit {0}) in
        if_ind (λ (m : M W Text). Ensures Q (m w)) (in_main host conf (codes "Database"))
          (λ _. lift_rule Q (main host conf (codes "Database") w).0 w _ λ _ _. (tt, refl))
          (λ _. raise_rule Q (λ _. verify) missing_database w _ λ _. (tt, refl))

    database-Stays :
        (w : W)
        → Ensures
            (Stays w (λ dsn. verify ≡ true → host.connects w dsn ≡ true))
            (database host conf verify w)
    unfolding database
    database-Stays w =
        let Q = Stays w (λ dsn. verify ≡ true → host.connects w dsn ≡ true) in
        same_files_rule {A = Text} Q (λ _. Unit {0}) w _ _ (dsn-Stays w)
          λ dsn _.
            raise_rule Q (λ v. verify && not (host.connects v dsn)) no_connection w _
              λ e. (λ v. ground arith, refl)

    -- A file of users that is named is there.
    abbrev pub UsersRight : W → Option Text → Type 0
    UsersRight w none = Unit
    UsersRight w (some path) = verify ≡ true → host.is_file w path ≡ true

    users_file-Stays : (w : W) → Ensures (Stays w (UsersRight w)) (users_file host conf verify w)
    unfolding users_file
    users_file-Stays w =
        let Q = Stays w (UsersRight w) in
        if_ind (λ (m : M W (Option Text)). Ensures Q (m w)) (in_main host conf (codes "UsersFile"))
          (λ _. lift_rule Q (main host conf (codes "UsersFile") w).0 w _ λ path _.
            raise_rule Q (λ v. not (host.is_file v path) && verify) _ w _
              λ e. (λ v. ground arith, refl))
          (λ _. (tt, refl))

    -- `start` are the files before the configuration is loaded, `w` those after it.
    pub record IsValid (start : W) (c : JouleConfig U) (w : W) : Type 0 where
      pub address : ListensRight host (c.ip_address, c.port)
      pub periods : PeriodsRight (c.insert_period, c.cleanup_period, c.max_log_lines)
      pub proxies : ProxiesRight host conf c.proxies
      pub users : UsersRight w c.users_file
      pub modules_there : verify ≡ true → host.is_dir start c.module_directory ≡ true
      pub streams_there : verify ≡ true → host.is_dir start c.stream_directory ≡ true
      pub sockets_writable : verify ≡ true → host.is_writable w c.socket_directory ≡ true
      pub connects : verify ≡ true → host.connects w c.database ≡ true

    load-IsValid : (w : W) → Ensures (IsValid w) (load host conf verify w)
    unfolding load
    load-IsValid w = lift_rule (IsValid w) (main host conf (codes "Name") w).0 w _ λ name _.
        same_files_rule (IsValid w) _ w _ _ (directory-Stays (codes "ModuleDirectory") _ w)
          λ modules m.
            same_files_rule (IsValid w) _ w _ _ (directory-Stays (codes "StreamDirectory") _ w)
              λ streams s. same_files_rule (IsValid w) _ w _ _ (listen-Stays w) λ address a.
                bind_rule {A = Text} (IsValid w)
                  (λ path w'. verify ≡ true → host.is_writable w' path ≡ true)
                  (socket_directory host conf verify w) _ (socket_directory-Ensures w)
                  λ socket w' k. same_files_rule (IsValid w) _ w' _ _ (database-Stays w') λ dsn d.
                    same_files_rule (IsValid w) _ w' _ _ (periods-Stays w') λ numbers n.
                      same_files_rule (IsValid w) _ w' _ _ (users_file-Stays w') λ users u.
                        same_files_rule (IsValid w) _ w' _ _ (security-Stays w') λ security _.
                          same_files_rule (IsValid w) _ w' _ _ (proxies-Right host conf w')
                            λ proxies p. record {
                              address = a;
                              periods = n;
                              proxies = p;
                              users = u;
                              modules_there = m;
                              streams_there = s;
                              sockets_writable = k;
                              connects = d;
                            }

module _ {W U : Type 0} (host : Host W U) (verify : Bool) where
  -- What a result that is given says.
  Ensures-ok :
      {A : Type 0} (P : A → W → Type 0) (out : Result A × W) (a : A) (w : W)
      → Ensures P out
      → out ≡ (ok a, w)
      → P a w
  Ensures-ok P out a w h e = let k : Ensures P (ok a, w) = subst (λ o. Ensures P o) e h in k

  loaded-IsValid :
      (r : Result Parser) (w : W) (c : JouleConfig U) (w' : W)
      → after (λ conf. load host conf verify) (r, w) ≡ (ok c, w')
      → (conf : Parser) × (r ≡ ok conf) × IsValid host conf verify w c w'
  loaded-IsValid (failed e) w c w' h = absurd (cc)
  loaded-IsValid (ok conf) w c w' h = (
    conf,
    refl,
    Ensures-ok (IsValid host conf verify w) _ c w' (load-IsValid host conf verify w) h,
  )

  -- Whatever the dictionary and the host are, a configuration that `run` returns has been read from a
  -- parser with the defaults and the dictionary in it, and is valid: an address and a port between 0
  -- and 65535, or neither; periods above 0, the cleanup period not below the insert period, and a
  -- positive number of log lines; a proxy for each option of the section, with the uuids from 0 on in
  -- their order, whose URL is that of the value with a slash at its end; and, with `verify`, module and
  -- stream directories that are there before, and a writable socket directory, a database that accepts
  -- a connection and a file of users that is there, if one is named, after it.
  pub run-IsValid :
      (custom : Option Dict) (w : W) (c : JouleConfig U) (w' : W)
      → run host verify custom w ≡ (ok c, w')
      → (conf : Parser) × (filled host custom ≡ ok conf) × IsValid host conf verify w c w'
  unfolding run
  run-IsValid custom w c w' h = loaded-IsValid (filled host custom) w c w' h
