-- ===== src/Pipe/Local/Balance.antt =====
-- What a call of a local pipe writes and consumes, and what calls in turn do.
use joule.Base.{
  take-length, ◌≡◌, Bool, true, List, [], ◌++◌, length, take, append_assoc, append-nil, ap, sym,
  subst, ◌∙◌,
}
use joule.Base.Int.{ℤ, pos}
use joule.Pipe.{Result, ok, raised, Action, ◌>>=◌, pure}
use joule.Pipe.Local.{LocalPipe}
use joule.Pipe.Local.Invariant.{stored, IsValid, Keeps, Stores}
use joule.Pipe.Local.Reading.{Reads, Consumes}

abbrev pub pos_rows : {Row : Type 0} → ℤ → List Row → List Row
pos_rows (pos n) rows = take n rows
pos_rows (ℤ.negsuc n) rows = []

-- The rows written and those consumed.
abbrev pub Flow : Type 0 → Type 0
Flow Row = List Row × List Row

module _ {Row Dtype S : Type 0} where
  -- Reports rows written and rows consumed by a call that has succeeded.
  abbrev pub report :
      {A : Type 0}
      → List Row × List Row
      → Result A × LocalPipe Row Dtype S
      → Result (List Row × List Row) × LocalPipe Row Dtype S
  report rows (ok a, q) = (ok rows, q)
  report rows (raised e, q) = (raised e, q)

  -- The rows consumed, before those still held, are the rows held at first before those written.
  abbrev pub Balanced :
      LocalPipe Row Dtype S → Result (List Row × List Row) × LocalPipe Row Dtype S → Type 0
  Balanced p (ok (written, consumed), q) = IsValid q × (consumed ++ stored q ≡ stored p ++ written)
  Balanced p (raised e, q) = IsValid q

  pub Keeps-Balanced :
      {A : Type 0} (p : LocalPipe Row Dtype S) (out : Result A × LocalPipe Row Dtype S)
      → Keeps p out.1
      → Balanced p (report ([], []) out)
  Keeps-Balanced p (ok a, q) h = (h.0, h.1 ∙ sym (append-nil (stored p)))
  Keeps-Balanced p (raised e, q) h = h.0

  pub Reads-Balanced :
      (p : LocalPipe Row Dtype S) (out : Result (List Row) × LocalPipe Row Dtype S)
      → Reads p out
      → Balanced p (report ([], []) out)
  Reads-Balanced p (ok a, q) h = (h.0, h.1 ∙ sym (append-nil (stored p)))
  Reads-Balanced p (raised e, q) h = h.0

  pub Stores-Balanced :
      (rows : List Row) (p : LocalPipe Row Dtype S)
      (out : Result (Unit {0}) × LocalPipe Row Dtype S)
      → Stores rows p out
      → Balanced p (report (rows, []) out)
  Stores-Balanced rows p (ok a, q) h = h
  Stores-Balanced rows p (raised e, q) h = h.0

  pub Consumes-Balanced :
      (n : ℤ) (p : LocalPipe Row Dtype S) (out : Result (Unit {0}) × LocalPipe Row Dtype S)
      → IsValid p
      → Consumes n p out
      → Balanced p (report ([], pos_rows n p.read_buffer) out)
  Consumes-Balanced (pos n) p (ok a, q) v h = (h.0, sym h.2 ∙ sym (append-nil (stored p)))
  Consumes-Balanced (ℤ.negsuc n) p (ok a, q) v h = absurd h
  Consumes-Balanced (pos n) p (raised e, q) v h = subst IsValid (sym h) v
  Consumes-Balanced (ℤ.negsuc n) p (raised e, q) v h = subst IsValid (sym h) v

  join-Balanced :
      (p q : LocalPipe Row Dtype S) (w c : List Row)
      (out : Result (List Row × List Row) × LocalPipe Row Dtype S)
      → c ++ stored q ≡ stored p ++ w
      → Balanced q out
      → Balanced p
          (((λ (_ : LocalPipe Row Dtype S). out) >>= λ rest. pure (w ++ rest.0, c ++ rest.1)) p)
  join-Balanced p q w c (ok (w', c'), r) e h = (
    h.0,
    append_assoc c c' (stored r)
        ∙ ap (λ t. c ++ t) h.1
        ∙ sym (append_assoc c (stored q) w')
        ∙ ap (λ t. t ++ w') e
        ∙ append_assoc (stored p) w w',
  )
  join-Balanced p q w c (raised x, r) e h = h

  abbrev pub where_ok :
      Result (List Row × List Row) × LocalPipe Row Dtype S → (LocalPipe Row Dtype S → Bool) → Bool
  where_ok (ok a, q) test = test q
  where_ok (raised e, q) test = true

  pub then-Balanced :
      (p : LocalPipe Row Dtype S) (out : Result (List Row × List Row) × LocalPipe Row Dtype S)
      (next : Action (LocalPipe Row Dtype S) (List Row × List Row))
      → Balanced p out
      → (test : LocalPipe Row Dtype S → Bool) → where_ok out test ≡ true
      → ((q : LocalPipe Row Dtype S) → IsValid q → test q ≡ true → Balanced q (next q))
      → Balanced p (
          ((λ (_ : LocalPipe Row Dtype S). out) >>= λ first.
          next >>= λ rest. pure (first.0 ++ rest.0, first.1 ++ rest.1))
            p)
  then-Balanced p (ok (w, c), q) next h test o k = join-Balanced p q w c (next q) h.1 (k q h.0 o)
  then-Balanced p (raised x, q) next h test o k = h

  rest-IsValid :
      (p : LocalPipe Row Dtype S) (w c : List Row) (out : Result (Flow Row) × LocalPipe Row Dtype S)
      → IsValid out.1
      → IsValid
          ((◌>>=◌ {B = Flow Row}
              (λ (_ : LocalPipe Row Dtype S). out)
              (λ rest. pure (w ++ rest.0, c ++ rest.1)))
            p).1
  rest-IsValid p w c (ok a, q) v = v
  rest-IsValid p w c (raised e, q) v = v

  pub then-IsValid :
      (p : LocalPipe Row Dtype S) (out : Result (Flow Row) × LocalPipe Row Dtype S)
      (next : Action (LocalPipe Row Dtype S) (Flow Row))
      → IsValid out.1
      → (IsValid out.1 → IsValid (next out.1).1)
      → IsValid
          ((◌>>=◌ {B = Flow Row}
              (λ (_ : LocalPipe Row Dtype S). out)
              (λ first.
                ◌>>=◌ {B = Flow Row} next (λ rest. pure (first.0 ++ rest.0, first.1 ++ rest.1))))
            p).1
  then-IsValid p (ok (w, c), q) next v k = rest-IsValid p w c (next q) (k v)
  then-IsValid p (raised x, q) next v k = v

  pub Balanced-IsValid :
      (p : LocalPipe Row Dtype S) (out : Result (List Row × List Row) × LocalPipe Row Dtype S)
      → Balanced p out
      → IsValid out.1
  Balanced-IsValid p (ok a, q) h = h.0
  Balanced-IsValid p (raised e, q) h = h

  pub report-IsValid :
      {A : Type 0} (rows : List Row × List Row) (out : Result A × LocalPipe Row Dtype S)
      → IsValid out.1
      → IsValid (report rows out).1
  report-IsValid rows (ok a, q) v = v
  report-IsValid rows (raised e, q) v = v

  pub consumed_all-Balanced :
      (p : LocalPipe Row Dtype S) (out : Result (Unit {0}) × LocalPipe Row Dtype S)
      → IsValid p
      → Consumes (pos (length p.read_buffer)) p out
      → Balanced p (report ([], p.read_buffer) out)
  consumed_all-Balanced p out v h =
      subst (λ rows. Balanced p (report ([], rows) out)) (take-length p.read_buffer)
        (Consumes-Balanced (pos (length p.read_buffer)) p out v h)
