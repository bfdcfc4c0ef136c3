-- ===== src/Config/Load.antt =====
-- `load_config.run`, part by part.
use joule.Base.{
  ℕ, suc, Bool, Option, none, some, List, [], ◌∷◌, ◌++◌, ◌==◌, ◌||◌, ◌&&◌, not, get_last?,
  if◌then◌else◌,
}
use joule.Base.Int.{ℤ, pos, ltb_ℤ}
use joule.Base.Text.{Text, codes, text_eq}
use joule.Base.Numeral.{parse_int}
use joule.Config.Ini.{
  Problem, configuration_error, index_error, os_error, invalid_url, Result, ok, failed, Dict,
  Values, Parser, empty_parser, read_dict, has_section, has_option, get, get_or, options,
  module_directory_missing, stream_directory_missing, invalid_ip_address, invalid_port,
  socket_directory_is_file, socket_directory_refused, socket_directory_not_writable,
  missing_database, no_connection, invalid_insert_period, invalid_cleanup_period,
  invalid_max_log_lines, users_file_missing,
}
use joule.Config.{
  default_config, Proxy, SecurityConfig, JouleConfig, MadeDirectory, made, file_exists,
  permission_denied, other_error, Host, M, ◌>>=◌, ◌>>◌, pure, lift, raise_if,
}

abbrev pub checked_number : Problem → (ℤ → Bool) → Option ℤ → Result ℤ
checked_number problem bad none = failed (configuration_error problem)
checked_number problem bad (some n) = if bad n then failed (configuration_error problem) else ok n

abbrev pub is_positive : ℤ → Bool
is_positive n = ltb_ℤ (pos 0) n

-- `url_str` with a slash at its end; an empty one has no last character.
unfoldable pub with_slash : Text → Result Text
with_slash s = elim (get_last? s) [
  | none ↦ failed index_error
  | some c ↦ ok (if c == b'/' then s else s ++ b'/' ∷ [])
]

abbrev pub parsed : {U : Type 0} → Option U → Result U
parsed none = failed invalid_url
parsed (some url) = ok url

module _ {W U : Type 0} (host : Host W U) (conf : Parser) where
  -- `main_config[name]`
  abbrev pub main : Text → M W Text
  main name = lift (get host.interpolation conf (codes "Main") name)

  -- `name in main_config`
  abbrev pub in_main : Text → Bool
  in_main name = has_option conf (codes "Main") name

  -- A number of the main section, and what refuses it.
  unfoldable pub number : Text → Problem → (ℤ → Bool) → M W ℤ
  number name problem bad = do
    value ← main name
    lift (checked_number problem bad (parse_int value))

  unfoldable pub listen : M W (Option Text × Option ℤ)
  unfolding number
  listen =
      let address = do
        ip_address ← main (codes "IPAddress")
        raise_if (λ w. not (host.is_ip_address ip_address)) invalid_ip_address
        port ← number (codes "Port") invalid_port (λ n. ltb_ℤ n (pos 0) || ltb_ℤ (pos 65535) n)
        pure (some ip_address, some port)
      in if in_main (codes "IPAddress") then address else pure (none, none)

  unfoldable pub periods : M W (ℤ × ℤ × ℤ)
  unfolding number
  periods = do
    insert_period ← number (codes "InsertPeriod") invalid_insert_period (λ n. not (is_positive n))
    cleanup_period ←
        number (codes "CleanupPeriod") invalid_cleanup_period
          (λ n. not (is_positive n) || ltb_ℤ n insert_period)
    max_log_lines ← number (codes "MaxLogLines") invalid_max_log_lines (λ n. not (is_positive n))
    pure (insert_period, cleanup_period, max_log_lines)

  unfoldable pub security : M W (Option SecurityConfig)
  security =
      let section = codes "Security" in
      let read = do
        certfile ← lift (get host.interpolation conf section (codes "Certificate"))
        keyfile ← lift (get host.interpolation conf section (codes "Key"))
        cafile ←
            lift (get_or host.interpolation (ok []) conf section (codes "CertificateAuthority"))
        pure (some (record { certfile = certfile; keyfile = keyfile; cafile = cafile }))
      in if has_section conf section then read else pure none

  -- The loop over the proxies, from a uuid.
  unfoldable pub read_proxies : ℕ → Values → M W (List (Proxy U))
  unfolding with_slash
  read_proxies uuid [] = pure []
  read_proxies uuid ((name, _) ∷ rest) = do
    url_str ← lift (get host.interpolation conf (codes "Proxies") name)
    url_str ← lift (with_slash url_str)
    url ← lift (parsed (host.parse_url url_str))
    others ← read_proxies (suc uuid) rest
    pure (record { name = name; uuid = uuid; url = url } ∷ others)

  unfoldable pub proxies : M W (List (Proxy U))
  unfolding read_proxies
  proxies =
      if has_section conf (codes "Proxies")
      then read_proxies 0 (options conf (codes "Proxies"))
      else pure []

  abbrev pub made_directory : MadeDirectory × W → Result (Unit {0}) × W
  made_directory (made, w) = (ok tt, w)
  made_directory (file_exists, w) = (failed (configuration_error socket_directory_is_file), w)
  made_directory (permission_denied, w) = (failed (configuration_error socket_directory_refused), w)
  made_directory (other_error, w) = (failed os_error, w)

  -- `verify` is the argument of `run`.
  module _ (verify : Bool) where
    unfoldable pub directory : Text → Problem → M W Text
    directory name problem = do
      path ← main name
      raise_if (λ w. not (host.is_dir w path) && verify) problem
      pure path

    unfoldable pub socket_directory : M W Text
    socket_directory = do
      path ← main (codes "SocketDirectory")
      λ w.
          if not (host.is_dir w path) && verify
          then made_directory (host.make_directory path w)
          else (ok tt, w)
      raise_if (λ w. not (host.is_writable w path) && verify) socket_directory_not_writable
      pure path

    unfoldable pub database : M W Text
    database =
        let given = do address ← main (codes "Database"); pure (codes "postgresql://" ++ address)
        in let missing = raise_if (λ w. verify) missing_database >> pure [] in
          do
            dsn ← if in_main (codes "Database") then given else missing
            raise_if (λ w. verify && not (host.connects w dsn)) no_connection
            pure dsn

    unfoldable pub users_file : M W (Option Text)
    users_file =
        let given = do
          path ← main (codes "UsersFile")
          raise_if (λ w. not (host.is_file w path) && verify) users_file_missing
          pure (some path)
        in if in_main (codes "UsersFile") then given else pure none

    -- `run`, on the parser
    unfoldable pub load : M W (JouleConfig U)
    load = do
      name ← main (codes "Name")
      module_directory ← directory (codes "ModuleDirectory") module_directory_missing
      stream_directory ← directory (codes "StreamDirectory") stream_directory_missing
      (ip_address, port) ← listen
      socket ← socket_directory
      database ← database
      (insert_period, cleanup_period, max_log_lines) ← periods
      users_file ← users_file
      security ← security
      proxies ← proxies
      pure (record {
        name = name;
        module_directory = module_directory;
        stream_directory = stream_directory;
        ip_address = ip_address;
        port = port;
        socket_directory = socket;
        database = database;
        insert_period = insert_period;
        cleanup_period = cleanup_period;
        max_log_lines = max_log_lines;
        users_file = users_file;
        proxies = proxies;
        security = security;
      })

-- The parser that `run` reads.
unfoldable pub filled : {W U : Type 0} → Host W U → Option Dict → Result Parser
unfolding read_dict default_config
filled host custom = elim (read_dict host.interpolation default_config empty_parser) [
  | failed e ↦ failed e
  | ok p ↦ elim custom [ none ↦ ok p | some values ↦ read_dict host.interpolation values p ]
]

unfoldable pub run : {W U : Type 0} → Host W U → Bool → Option Dict → M W (JouleConfig U)
unfolding load filled text_eq get get_or has_option parse_int directory listen socket_directory
    database periods users_file security proxies
run host verify custom = lift (filled host custom) >>= λ conf. load host conf verify
