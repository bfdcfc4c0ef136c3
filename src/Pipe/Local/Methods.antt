-- ===== src/Pipe/Local/Methods.antt =====
-- The other methods of a local pipe that keep its rows.
use joule.Base.{ℕ, ◌≡◌, refl, Bool, true, List, [], ◌∷◌, length, arith, if_ind}
use joule.Base.Int.{pos}
use joule.Pipe.{Result, ok, raised, Sink, is_nil}
use joule.Pipe.Local.{
  LocalPipe, reread_last, fail, enable_cache, close_nowait, consume_all, read, is_empty, read_again,
}
use joule.Pipe.Local.Invariant.{stored, IsValid, Keeps}
use joule.Pipe.Local.Write.{Preserves}
use joule.Pipe.Local.Reading.{Reads, Consumes, read-Reads, consume-Consumes}

pub nil_of : {A : Type 0} (xs : List A) → is_nil xs ≡ true → xs ≡ []
nil_of [] h = refl
nil_of (x ∷ xs) h = absurd cc

module _ {Row Dtype S : Type 0} where
  pub reread_last-Preserves : Preserves {Row = Row} {Dtype = Dtype} {S = S} reread_last
  unfolding reread_last
  reread_last-Preserves p v =
      (record { counted = v.counted; fits = v.fits; uncached = v.uncached }, refl)

  pub fail-Keeps : (p : LocalPipe Row Dtype S) → IsValid p → Keeps p (fail p)
  unfolding fail
  fail-Keeps p v = (record { counted = v.counted; fits = v.fits; uncached = v.uncached }, refl)

  pub close_nowait-Preserves : Preserves {Row = Row} {Dtype = Dtype} {S = S} close_nowait
  unfolding close_nowait
  close_nowait-Preserves p v =
      let shut : IsValid (record p { is_closed = true }) = record {
        counted = v.counted;
        fits = v.fits;
        uncached = v.uncached;
      } in
      ground (arith, shut)

  pub enable_cache-IsValid :
      (lines : ℕ) (p : LocalPipe Row Dtype S) → IsValid p → IsValid (enable_cache lines p)
  unfolding enable_cache
  enable_cache-IsValid lines p v = record {
    counted = v.counted;
    fits = omega arith;
    uncached = λ _. refl;
  }

  -- Where the cache is empty, it drops no rows.
  pub enable_cache-stored :
      (lines : ℕ) (p : LocalPipe Row Dtype S)
      → p.cache ≡ []
      → stored (enable_cache lines p) ≡ stored p
  unfolding enable_cache
  enable_cache-stored lines p bare = rw bare refl

  pub consume_all-Consumes :
      (p : LocalPipe Row Dtype S)
      → IsValid p
      → Consumes (pos (length p.read_buffer)) p (consume_all p)
  unfolding consume_all
  consume_all-Consumes p v = consume-Consumes (pos (length p.read_buffer)) p v

  read_again-Keeps :
      (p : LocalPipe Row Dtype S) (out : Result (List Row) × LocalPipe Row Dtype S)
      → Reads p out
      → Keeps p (read_again out.0 out.1)
  read_again-Keeps p (ok rows, q) h =
      (record { counted = h.0.counted; fits = h.0.fits; uncached = h.0.uncached }, h.1)
  read_again-Keeps p (raised e, q) h = h

module _ {Row Dtype S : Type 0} ⦃sink : Sink Row Dtype S⦄ where
  pub is_empty-Preserves : Preserves {Row = Row} {Dtype = Dtype} {S = S} is_empty
  unfolding is_empty
  is_empty-Preserves p v =
      if_ind (λ (out : Result Bool × LocalPipe Row Dtype S). Keeps p out.1) p.reread
        (λ _. (v, refl)) (λ _. read_again-Keeps p (read p) (read-Reads p v))
