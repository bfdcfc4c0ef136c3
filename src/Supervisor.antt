-- ===== src/Supervisor.antt =====
-- Subscriptions through the supervisor: src/joule/models/supervisor.py. Streams and pipes are known by
-- numbers. The tasks that move the data of remote streams are network input and output.
mod Tests
use joule.Base.{
  ℕ, ◌+◌, Bool, true, false, Option, none, some, List, [], ◌∷◌, ◌++◌, ◌==◌, if◌then◌else◌,
}
use joule.Worker.Subscriptions.{Subscribers}
use joule.Worker.Subscriptions

-- The subscribers of each worker, `remote_inputs`, the subscribers of a pipe, as pairs, and the streams
-- of the tasks that were started.
pub record Supervisor : Type 0 where
  pub workers : List Subscribers
  pub remote_inputs : List (ℕ × ℕ)
  pub pipe_subscribers : List (ℕ × ℕ)
  pub remote_tasks : List ℕ

-- What `subscribe` returns: the function of the worker at a position, that of a pipe, None, or the
-- SubscriptionError.
pub data Answer : Type 0 where
  of_worker : ℕ → Answer
  of_pipe : ℕ → Answer
  nothing : Answer
  no_producer : Answer

abbrev pub in_front : Subscribers → Answer × List Subscribers → Answer × List Subscribers
in_front w (of_worker i, workers) = (of_worker (i + 1), w ∷ workers)
in_front w (answer, workers) = (answer, w ∷ workers)

-- The loop over the workers.
pub subscribe_local : ℕ → ℕ → List Subscribers → Answer × List Subscribers
subscribe_local stream pipe [] = (no_producer, [])
subscribe_local stream pipe (w ∷ workers) =
    let later = subscribe_local stream pipe workers in
    elim (Subscriptions.subscribe stream pipe w) [
      | none ↦ in_front w later
      | some w' ↦ (of_worker 0, w' ∷ workers)
    ]

abbrev pub input_of : ℕ → List (ℕ × ℕ) → Option ℕ
input_of stream [] = none
input_of stream ((key, pipe) ∷ inputs) =
    let later = input_of stream inputs in if key == stream then some pipe else later

-- `_connect_remote_input`; the first subscriber gets no function.
pub connect_remote_input : ℕ → ℕ → Supervisor → Answer × Supervisor
connect_remote_input stream pipe s = elim (input_of stream s.remote_inputs) [
  | some input ↦
      (of_pipe input, record s { pipe_subscribers = s.pipe_subscribers ++ (input, pipe) ∷ [] })
  | none ↦ (
    nothing,
    record s {
      remote_inputs = s.remote_inputs ++ (stream, pipe) ∷ [];
      remote_tasks = s.remote_tasks ++ stream ∷ [];
    },
  )
]

-- `subscribe`
pub subscribe : Bool → ℕ → ℕ → Supervisor → Answer × Supervisor
subscribe is_remote stream pipe s =
    let (answer, workers) = subscribe_local stream pipe s.workers in
    if is_remote
    then connect_remote_input stream pipe s
    else (answer, record s { workers = workers })
