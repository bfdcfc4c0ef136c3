-- ===== src/Config.antt =====
-- The configuration of a node: src/joule/services/load_config.py, with the defaults and the classes of
-- src/joule/models/config.py and src/joule/models/proxy.py.
pub mod Ini
pub mod Load
pub mod Rules
pub mod Valid
pub mod Proxies
mod Tests
use joule.Base.{
  ℕ, suc, Bool, true, false, Option, none, some, List, [], ◌∷◌, ◌++◌, ◌==◌, ◌||◌, ◌&&◌, not,
  get_last?, if◌then◌else◌,
}
use joule.Base.Int.{ℤ, pos, ltb_ℤ, ◌≤ℤ◌}
use joule.Base.Text.{Text, codes}
use joule.Base.Numeral.{parse_int}
use joule.Config.Ini.{
  Failure, Problem, configuration_error, index_error, os_error, key_error, invalid_url, Result, ok,
  failed, Dict, Values, Interpolation, Parser, empty_parser, read_dict, has_section, has_option,
  get, get_or, options, module_directory_missing, stream_directory_missing, invalid_ip_address,
  invalid_port, socket_directory_is_file, socket_directory_refused, socket_directory_not_writable,
  missing_database, no_connection, invalid_insert_period, invalid_cleanup_period,
  invalid_max_log_lines, users_file_missing,
}

-- `DEFAULT_CONFIG`
unfoldable pub default_config : Dict
default_config =
    (
      codes "Main",
      (codes "Name", codes "joule_node")
          ∷ (codes "ModuleDirectory", codes "/etc/joule/module_configs")
          ∷ (codes "StreamDirectory", codes "/etc/joule/stream_configs")
          ∷ (codes "SocketDirectory", codes "/tmp/joule")
          ∷ (codes "InsertPeriod", codes "5")
          ∷ (codes "CleanupPeriod", codes "60")
          ∷ (codes "MaxLogLines", codes "100")
          ∷ [],
    )
    ∷ (codes "Proxies", [])
    ∷ []

pub record Proxy (U : Type 0) : Type 0 where
  pub name : Text
  pub uuid : ℕ
  pub url : U

pub record SecurityConfig : Type 0 where
  pub certfile : Text
  pub keyfile : Text
  pub cafile : Text

pub record JouleConfig (U : Type 0) : Type 0 where
  pub name : Text
  pub module_directory : Text
  pub stream_directory : Text
  pub ip_address : Option Text
  pub port : Option ℤ
  pub socket_directory : Text
  pub database : Text
  pub insert_period : ℤ
  pub cleanup_period : ℤ
  pub max_log_lines : ℤ
  pub users_file : Option Text
  pub proxies : List (Proxy U)
  pub security : Option SecurityConfig

-- How `os.mkdir` and `os.chmod` end.
pub data MadeDirectory : Type 0 where
  made file_exists permission_denied other_error : MadeDirectory

-- What the configuration is checked against: files in a state `W`, the database, `ipaddress`, the
-- URLs `U` of yarl, and the interpolation of values.
pub record Host (W U : Type 0) : Type 0 where
  pub is_dir : W → Text → Bool
  pub is_file : W → Text → Bool
  pub is_writable : W → Text → Bool
  pub make_directory : Text → W → MadeDirectory × W
  pub connects : W → Text → Bool
  pub is_ip_address : Text → Bool
  pub parse_url : Text → Option U
  pub interpolation : Interpolation

-- What may fail, and change the files.
abbrev pub M : Type 0 → Type 0 → Type 0
M W A = W → Result A × W

abbrev pub after : {W A B : Type 0} → (A → M W B) → Result A × W → Result B × W
after f (ok a, w) = f a w
after f (failed e, w) = (failed e, w)

infixl 5 ◌>>=◌ ◌>>◌
abbrev pub ◌>>=◌ : {W A B : Type 0} → M W A → (A → M W B) → M W B
◌>>=◌ m f w = after f (m w)

abbrev pub ◌>>◌ : {W A B : Type 0} → M W A → M W B → M W B
m >> k = m >>= λ _. k

module _ {W : Type 0} where
  abbrev pub pure : {A : Type 0} → A → M W A
  pure a w = (ok a, w)

  abbrev pub lift : {A : Type 0} → Result A → M W A
  lift r w = (r, w)

  abbrev pub raise_if : (W → Bool) → Problem → M W (Unit {0})
  raise_if test problem w = (if test w then failed (configuration_error problem) else ok tt, w)
