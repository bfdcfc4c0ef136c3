-- ===== src/Config/Tests.antt =====
-- A host with a list of directories, and a configuration that it accepts.
use joule.Base.{◌≡◌, refl, Bool, true, false, ◌||◌, none, some, List, [], ◌∷◌}
use joule.Base.Int.{pos}
use joule.Base.Text.{Text, codes, text_eq}
use joule.Config.Ini.{
  Dict, Parser, ok, failed, index_error, configuration_error, invalid_insert_period,
}
use joule.Config.{Host, JouleConfig, made}
use joule.Config.Load.{run, filled}
use joule.Config.Valid.{IsValid, run-IsValid}

abbrev holds : List Text → Text → Bool
holds [] t = false
holds (s ∷ ss) t = text_eq s t || holds ss t

-- The files are the directories. The URL of a text is the text; a percent sign is an ordinary one.
abbrev small_host : Host (List Text) Text
small_host = record {
  is_dir = holds;
  is_file = λ w path. false;
  is_writable = holds;
  make_directory = λ path w. (made, path ∷ w);
  connects = λ w dsn. true;
  is_ip_address = text_eq (codes "127.0.0.1");
  parse_url = some;
  interpolation = record { accepts = λ value. true; value_of = λ p section name value. some value };
}

abbrev directories : List Text
directories = codes "/etc/joule/module_configs" ∷ codes "/etc/joule/stream_configs" ∷ []

abbrev custom : Dict
custom =
    (
      codes "Main",
      (codes "IPAddress", codes "127.0.0.1")
          ∷ (codes "Port", codes " 8088")
          ∷ (codes "Database", codes "joule@localhost")
          ∷ (codes "InsertPeriod", codes "10")
          ∷ [],
    )
    ∷ (
      codes "Proxies",
      (codes "site1", codes "http://localhost:3000")
          ∷ (codes "site2", codes "https://othersite.com/")
          ∷ [],
    )
    ∷ []

abbrev loaded : JouleConfig Text
loaded = record {
  name = codes "joule_node";
  module_directory = codes "/etc/joule/module_configs";
  stream_directory = codes "/etc/joule/stream_configs";
  ip_address = some (codes "127.0.0.1");
  port = some (pos 8088);
  socket_directory = codes "/tmp/joule";
  database = codes "postgresql://joule@localhost";
  insert_period = pos 10;
  cleanup_period = pos 60;
  max_log_lines = pos 100;
  users_file = none;
  proxies =
      record { name = codes "site1"; uuid = 0; url = codes "http://localhost:3000/" }
      ∷ record { name = codes "site2"; uuid = 1; url = codes "https://othersite.com/" }
      ∷ [];
  security = none;
}

-- The socket directory is made.
abbrev after_run : List Text
after_run = codes "/tmp/joule" ∷ directories

run-custom : run small_host true (some custom) directories ≡ (ok loaded, after_run)
unfolding run
run-custom = refl

run-IsValid_example :
    (conf : Parser) × (filled small_host (some custom) ≡ ok conf)
    × IsValid small_host conf true directories loaded after_run
run-IsValid_example =
    run-IsValid small_host true (some custom) directories loaded after_run run-custom

-- A proxy with no URL is refused with an IndexError.
abbrev no_url : Dict
no_url = (codes "Proxies", (codes "site1", []) ∷ []) ∷ []

run-no_url : run small_host false (some no_url) directories ≡ (failed index_error, directories)
unfolding run
run-no_url = refl

-- A period that is not a number is refused; without `verify` no directory is looked for.
abbrev no_period : Dict
no_period = (codes "Main", (codes "insertperiod", codes "soon") ∷ []) ∷ []

run-no_period :
    run small_host false (some no_period) []
    ≡ (failed (configuration_error invalid_insert_period), [])
unfolding run
run-no_period = refl

run_default : run small_host false none [] ≡ (
  ok (record {
    name = codes "joule_node";
    module_directory = codes "/etc/joule/module_configs";
    stream_directory = codes "/etc/joule/stream_configs";
    ip_address = none;
    port = none;
    socket_directory = codes "/tmp/joule";
    database = [];
    insert_period = pos 5;
    cleanup_period = pos 60;
    max_log_lines = pos 100;
    users_file = none;
    proxies = [];
    security = none;
  }),
  [],
)
unfolding run
run_default = refl
