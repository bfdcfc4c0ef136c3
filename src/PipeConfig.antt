-- ===== src/PipeConfig.antt =====
-- Pipe configurations, `/path/name:datatype[e0,e1,...]` with an optional node in front:
-- src/joule/services/parse_pipe_config.py, and the validators of
-- src/joule/models/data_stream.py that it calls. Every `ConfigurationError` is `none`.
pub mod RoundTrip
mod Tests
use joule.Base.{
  ℕ, ◌+◌, Bool, true, false, ◌&&◌, ◌||◌, not, Option, none, some, List, [], ◌∷◌, ◌++◌, map, length,
  ◌==◌, if◌then◌else◌, get_last?,
}
use joule.Base.Text.{Text, codes, text_eq, has_char, is_empty_text, split, join, upper, strip}

infixl 5 ◌>>=◌ ◌>>◌
abbrev pub ◌>>=◌ : {A B : Type 0} → Option A → (A → Option B) → Option B
none >>= f = none
some a >>= f = f a

abbrev pub ◌>>◌ : {B : Type 0} → Option (Unit {0}) → Option B → Option B
m >> k = m >>= λ _. k

abbrev pub guard : Bool → Option (Unit {0})
guard true = some tt
guard false = none

-- `DataStream.DATATYPE`
pub data Datatype : Type 0 where
  float64 float32 int64 int32 int16 : Datatype

-- `DATATYPE.name`
abbrev pub datatype_name : Datatype → Text
datatype_name float64 = codes "FLOAT64"
datatype_name float32 = codes "FLOAT32"
datatype_name int64 = codes "INT64"
datatype_name int32 = codes "INT32"
datatype_name int16 = codes "INT16"

abbrev pub datatypes : List Datatype
datatypes = float64 ∷ float32 ∷ int64 ∷ int32 ∷ int16 ∷ []

-- `DATATYPE[name]`: the member of that name.
abbrev pub datatype_of : List Datatype → Text → Option Datatype
datatype_of [] name = none
datatype_of (d ∷ ds) name = if text_eq (datatype_name d) name then some d else datatype_of ds name

-- `data_stream.validate_datatype`
pub validate_datatype : Text → Option Datatype
validate_datatype s = datatype_of datatypes (upper s)

-- `data_stream.validate_name`, on a name that is given
pub validate_name : Text → Option Text
validate_name name = if is_empty_text name || has_char b'/' name then none else some name

-- The first two parts of `pipe_config.split(' ')`: the node and the rest.
abbrev node_and_config : List Text → Option (Text × Option Text)
node_and_config (node ∷ config ∷ rest) = some (config, some node)
node_and_config _ = none

pub strip_remote_config : Text → Option (Text × Option Text)
strip_remote_config [] = none
strip_remote_config (c ∷ s) =
    if c == b'/' then some (c ∷ s, none) else node_and_config (split b' ' (c ∷ s))

-- `pieces[0]`, `pieces[1]` of a split at a colon that is there.
abbrev pub at_colon : List Text → Text × Text
at_colon [] = ([], [])
at_colon (path ∷ []) = (path, [])
at_colon (path ∷ config ∷ rest) = (path, config)

-- `chunks.pop()`: all but the last, and the last.
pub pop : List Text → List Text × Text
pop [] = ([], [])
pop (p ∷ []) = ([], p)
pop (p ∷ q ∷ ps) = let (front, last) = pop (q ∷ ps) in (p ∷ front, last)

-- The full path and the inline configuration.
pub split_config : Text → Text × Text
split_config pipe_config =
    if has_char b':' pipe_config then at_colon (split b':' pipe_config) else (pipe_config, [])

-- The folder's path and the stream's name of a full path.
pub split_path : Text → Option (Text × Text)
split_path full_path = do
  guard (has_char b'/' full_path)
  let chunks = pop (split b'/' full_path)
  guard (not (is_empty_text chunks.1))
  some (join b'/' chunks.0, chunks.1)

pub parse_pipe_config : Text → Option (Text × Text × Text)
parse_pipe_config pipe_config = do
  let pieces = split_config pipe_config
  path ← split_path pieces.0
  some (path.0, path.1, pieces.1)

-- `s[:-1]`
abbrev pub drop_last : Text → Text
drop_last [] = []
drop_last (c ∷ []) = []
drop_last (c ∷ d ∷ s) = c ∷ drop_last (d ∷ s)

abbrev pub ends_with_bracket : Text → Bool
ends_with_bracket s = elim (get_last? s) [ none ↦ false | some c ↦ c == b']' ]

-- The two parts of a split at the bracket; any other number of parts is refused.
abbrev pub datatype_and_elements : List Text → Option (Text × Text)
datatype_and_elements (datatype ∷ elements ∷ []) = some (datatype, elements)
datatype_and_elements _ = none

-- `none` inside is the empty configuration, `(None, None)`.
pub parse_inline_config : Text → Option (Option (Datatype × List Text))
parse_inline_config [] = some none
parse_inline_config (c ∷ s) = do
  parts ← datatype_and_elements (split b'[' (c ∷ s))
  guard (ends_with_bracket (c ∷ s))
  datatype ← validate_datatype (strip parts.0)
  some (some (datatype, map strip (split b',' (drop_last (strip parts.1)))))

abbrev pub has_name : Text → List Text → Bool
has_name name [] = false
has_name name (n ∷ ns) = text_eq n name || has_name name ns

abbrev pub all_named : List Text → List Text → Bool
all_named [] existing = true
all_named (n ∷ ns) existing = has_name n existing && all_named ns existing

abbrev pub same_datatype : Datatype → Datatype → Bool
same_datatype a b = text_eq (datatype_name a) (datatype_name b)

-- `_validate_config_match`, on the datatype and the element names of the existing stream.
pub validate_config_match : Datatype → List Text → Datatype → List Text → Option (Unit {0})
validate_config_match existing_datatype existing_names datatype names = do
  guard (same_datatype datatype existing_datatype)
  guard (length existing_names == length names)
  guard (all_named names existing_names)
