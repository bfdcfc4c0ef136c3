-- ===== src/Worker/Subscriptions.antt =====
-- `Worker.subscribe` of src/joule/models/worker.py and the function that it returns. A stream and a
-- pipe are known by a number; the subscribers are the pairs of the dictionary, in order. `none` is a
-- stream that the worker does not produce (a SubscriptionError, and a KeyError of `unsubscribe`).
use joule.Base.{
  ℕ, ◌≡◌, refl, Bool, true, false, Option, none, some, List, [], ◌∷◌, ◌++◌, ◌==◌, if◌then◌else◌,
  arith, Bool-cases, inl, inr,
}

abbrev pub Subscribers : Type 0
Subscribers = List (ℕ × List ℕ)

abbrev pub behind : ℕ × List ℕ → Option Subscribers → Option Subscribers
behind entry none = none
behind entry (some rest) = some (entry ∷ rest)

-- An operation on the pipes of a stream.
abbrev pub at_stream : (List ℕ → List ℕ) → ℕ → Subscribers → Option Subscribers
at_stream f stream [] = none
at_stream f stream ((key, pipes) ∷ rest) =
    let later = at_stream f stream rest in
    if key == stream then some ((key, f pipes) ∷ rest) else behind (key, pipes) later

-- `i = l.index(pipe); del l[i]`, and nothing where there is none
pub remove_first : ℕ → List ℕ → List ℕ
remove_first pipe [] = []
remove_first pipe (q ∷ qs) = let rest = remove_first pipe qs in if q == pipe then qs else q ∷ rest

unfoldable pub subscribe : ℕ → ℕ → Subscribers → Option Subscribers
subscribe stream pipe subscribers = at_stream (λ pipes. pipes ++ pipe ∷ []) stream subscribers

pub unsubscribe : ℕ → ℕ → Subscribers → Option Subscribers
unsubscribe stream pipe subscribers = at_stream (remove_first pipe) stream subscribers

abbrev pub has_pipe : ℕ → List ℕ → Bool
has_pipe pipe [] = false
has_pipe pipe (q ∷ qs) = let rest = has_pipe pipe qs in if q == pipe then true else rest

abbrev pub pipes_of : ℕ → Subscribers → List ℕ
pipes_of stream [] = []
pipes_of stream ((key, pipes) ∷ rest) =
    let later = pipes_of stream rest in if key == stream then pipes else later

remove_first-append :
    (pipe : ℕ) (qs : List ℕ) → has_pipe pipe qs ≡ false → remove_first pipe (qs ++ pipe ∷ []) ≡ qs
unfolding remove_first
remove_first-append pipe [] h = ground arith
remove_first-append pipe (q ∷ qs) h =
    let rest : has_pipe pipe qs ≡ false = ground arith in
    let e = remove_first-append pipe qs rest in ground arith

remove_first_missing :
    (pipe : ℕ) (qs : List ℕ) → has_pipe pipe qs ≡ false → remove_first pipe qs ≡ qs
unfolding remove_first
remove_first_missing pipe [] h = refl
remove_first_missing pipe (q ∷ qs) h =
    let rest : has_pipe pipe qs ≡ false = ground arith in
    let e = remove_first_missing pipe qs rest in ground arith

behind-some :
    (entry : ℕ × List ℕ) (o : Option Subscribers) (subs : Subscribers)
    → behind entry o ≡ some subs
    → (rest : Subscribers) × (o ≡ some rest) × (subs ≡ entry ∷ rest)
behind-some entry none subs h = absurd cc
behind-some entry (some rest) subs h = (rest, refl, cc)

-- Where a pipe is not subscribed to a stream, a subscription that succeeds is undone by the function
-- that it returns, and calling that function once more changes nothing.
unsubscribe-subscribe :
    (stream pipe : ℕ) (before after : Subscribers)
    → has_pipe pipe (pipes_of stream before) ≡ false
    → subscribe stream pipe before ≡ some after
    → (unsubscribe stream pipe after ≡ some before) × (unsubscribe stream pipe before ≡ some before)
unfolding subscribe unsubscribe
unsubscribe-subscribe stream pipe [] after fresh done = absurd cc
unsubscribe-subscribe stream pipe ((key, pipes) ∷ rest) after fresh done =
    elim (Bool-cases (key == stream)) [
      | inl here ↦
          let lacks : has_pipe pipe pipes ≡ false = ground arith in
          let added : after ≡ (key, pipes ++ pipe ∷ []) ∷ rest = ground arith in
          let undone = remove_first-append pipe pipes lacks in
          let same = remove_first_missing pipe pipes lacks in
          (simp (added, here, undone), simp (here, same))
      | inr further ↦
          let lacks : has_pipe pipe (pipes_of stream rest) ≡ false = ground arith in
          let tail : behind (key, pipes) (subscribe stream pipe rest) ≡ some after = ground arith in
          let (rest', e, split) =
            behind-some (key, pipes) (subscribe stream pipe rest) after tail in
          let (one, two) = unsubscribe-subscribe stream pipe rest rest' lacks e in
          (simp (split, further, one), simp (further, two))
    ]
