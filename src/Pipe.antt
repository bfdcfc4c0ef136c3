-- ===== src/Pipe.antt =====
-- What the pipe classes share: src/joule/models/pipes/pipe.py and src/joule/errors.py. Exceptions,
-- the checks of data that is written, and the interface of a subscriber.
pub mod Local
pub mod Input
pub mod Output
pub mod ReadAll
use joule.Base.{
  ℕ, Bool, true, false, ◌||◌, ◌≡◌, Option, none, some, List, [], ◌∷◌, ◌==◌, if◌then◌else◌, length,
}

-- The exceptions that the pipes raise, and the data store's DataError and asyncpg's connection errors. A `PipeError` carries its message; `empty_pipe` is
-- `EmptyPipeError`. `would_block` is no exception: the coroutine waits for another task at this
-- point, in the state that is returned.
pub data Error : Type 0 where
  failed closed not_array wrong_dtype wrong_fields wrong_dimensions : Error
  negative_consume consume_too_many nothing_to_reread has_subscribers has_callback no_data : Error
  more_than_maxrows empty_pipe : Error
  value_error index_error queue_full os_error would_block : Error
  data_error connection_error : Error

pub data Result (A : Type 0) : Type 0 where
  ok : A → Result A
  raised : Error → Result A

-- A method of an object with state `P`. What was changed before an exception stays changed.
abbrev pub Action : Type 0 → Type 0 → Type 0
Action P A = P → Result A × P

module _ {P A : Type 0} where
  abbrev pub pure : A → Action P A
  pure a p = (ok a, p)

  abbrev pub raise : Error → Action P A
  raise e p = (raised e, p)

  abbrev pub gets : (P → A) → Action P A
  gets f p = (ok (f p), p)

infixl 5 ◌>>=◌ ◌>>◌
abbrev pub ◌>>=◌ : {P A B : Type 0} → Action P A → (A → Action P B) → Action P B
◌>>=◌ m f p = let (r, p') = m p in elim r [ ok a ↦ f a p' | raised e ↦ (raised e, p') ]

abbrev pub ◌>>◌ : {P A B : Type 0} → Action P A → Action P B → Action P B
m >> k = m >>= λ _. k

abbrev pub raise_if : {P : Type 0} → Bool → Error → Action P (Unit {0})
raise_if c e p = (if c then raised e else ok tt, p)

abbrev pub modify : {P : Type 0} → (P → P) → Action P (Unit {0})
modify f p = (ok tt, f p)

-- The part of numpy that the checks use. `assign d m` is the row array of dtype `d` after its
-- timestamp and data columns are assigned from the matrix `m`, or `none` where an assignment
-- raises; such an array has a row for each row of the matrix.
pub record Numpy (Row Dtype Matrix : Type 0) : Type 0 where
  pub same_dtype : Dtype → Dtype → Bool
  pub same_dtype-refl : (d : Dtype) → same_dtype d d ≡ true
  pub n_rows : Matrix → ℕ
  pub n_columns : Matrix → ℕ
  pub assign : Dtype → Matrix → Option (List Row)
  pub length-assign :
      (d : Dtype) (m : Matrix) (rows : List Row) → assign d m ≡ some rows → length rows ≡ n_rows m

-- What may be handed to `write`: no array, an array of no dimension, a plain one-dimensional array
-- of a length, a structured array, a matrix, or an array of three or more dimensions (the first
-- two are given).
pub data Data (Row Dtype Matrix : Type 0) : Type 0 where
  no_array : Data Row Dtype Matrix
  scalar : Data Row Dtype Matrix
  plain : ℕ → Data Row Dtype Matrix
  structured : Dtype → List Row → Data Row Dtype Matrix
  matrix : Matrix → Data Row Dtype Matrix
  deeper : ℕ → ℕ → Data Row Dtype Matrix

abbrev pub is_nil : {A : Type 0} → List A → Bool
is_nil [] = true
is_nil (x ∷ xs) = false

abbrev pub assigned : {Row : Type 0} → Option (List Row) → Result (List Row)
assigned none = raised wrong_fields
assigned (some rows) = ok rows

module _ {Row Dtype Matrix : Type 0} ⦃np : Numpy Row Dtype Matrix⦄ where
  -- `Pipe._validate_data`: whether there is anything to write.
  pub validate_data : Data Row Dtype Matrix → Result Bool
  validate_data no_array = raised not_array
  validate_data scalar = raised not_array
  validate_data (plain n) = if n == 0 then ok false else raised not_array
  validate_data (structured d rows) = ok (if is_nil rows then false else true)
  validate_data (matrix m) = ok (if np.n_rows m == 0 || np.n_columns m == 0 then false else true)
  validate_data (deeper a b) = ok (if a == 0 || b == 0 then false else true)

  -- `Pipe._apply_dtype`
  pub apply_dtype : Dtype → Data Row Dtype Matrix → Result (List Row)
  apply_dtype dtype no_array = raised wrong_dimensions
  apply_dtype dtype scalar = raised wrong_dimensions
  apply_dtype dtype (plain n) = raised wrong_dtype
  apply_dtype dtype (structured d rows) =
      if np.same_dtype d dtype then ok rows else raised wrong_dtype
  apply_dtype dtype (matrix m) = assigned (np.assign dtype m)
  apply_dtype dtype (deeper a b) = raised wrong_dimensions

  -- The checks at the head of `write`: `none` where there is nothing to write.
  pub checked_rows : Dtype → Data Row Dtype Matrix → Result (Option (List Row))
  checked_rows dtype d = elim (validate_data d) [
    | raised e ↦ raised e
    | ok false ↦ ok none
    | ok true ↦ elim (apply_dtype dtype d) [ raised e ↦ raised e | ok rows ↦ ok (some rows) ]
  ]

-- What a pipe asks of a subscriber. The rows arrive in a structured array with their dtype.
pub record Sink (Row Dtype S : Type 0) : Type 0 where
  pub write : Dtype → List Row → Action S (Unit {0})
  pub write_nowait : Dtype → List Row → Action S (Unit {0})
  pub close_interval : Action S (Unit {0})
  pub close_interval_nowait : Action S (Unit {0})
  pub close : Action S (Unit {0})

-- `for pipe in self.subscribers: pipe.m()`, which stops at the first exception.
pub each : {S : Type 0} → Action S (Unit {0}) → Action (List S) (Unit {0})
each m [] = (ok tt, [])
each m (s ∷ ss) =
    let (r, s') = m s in
    let (rest, ss') = each m ss in
    elim r [ ok _ ↦ (rest, s' ∷ ss') | raised e ↦ (raised e, s' ∷ ss) ]
