-- ===== src/PipeConfig/Tests.antt =====
-- Pipe configurations of tests/services/test_parse_pipe_config.py, and the theorems at one of them.
use joule.Base.{◌≡◌, refl, some, none, [], ◌∷◌}
use joule.Base.Text.{codes, text_eq, has_char, split, join, strip}
use joule.PipeConfig.{
  float32, strip_remote_config, split_config, split_path, parse_pipe_config, parse_inline_config,
  validate_datatype, pop,
}
use joule.PipeConfig.RoundTrip.{write_config, parse-write_config}

inline_runs :
    parse_inline_config (codes "float32[ x, y,z ]")
    ≡ some (some (float32, codes "x" ∷ codes "y" ∷ codes "z" ∷ []))
unfolding parse_inline_config validate_datatype text_eq split strip
inline_runs = refl

inline_refused : parse_inline_config (codes "float32[x,y") ≡ none
unfolding parse_inline_config validate_datatype text_eq split strip
inline_refused = refl

remote_runs :
    strip_remote_config (codes "node1 /path/x") ≡ some (codes "/path/x", some (codes "node1"))
unfolding strip_remote_config split
remote_runs = refl

no_name : parse_pipe_config (codes "/path/:int64[a]") ≡ none
unfolding parse_pipe_config split_config split_path split join has_char pop
no_name = refl

parse-write_config_example :
    parse_pipe_config (write_config (codes "/path") (codes "x") (codes "int64[a,b]"))
    ≡ some (codes "/path", codes "x", codes "int64[a,b]")
unfolding has_char
parse-write_config_example =
    parse-write_config (codes "/path") (codes "x") (codes "int64[a,b]") refl refl refl refl refl
