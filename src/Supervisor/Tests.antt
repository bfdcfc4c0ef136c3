-- ===== src/Supervisor/Tests.antt =====
-- Two workers, of which the second produces stream 7.
use joule.Base.{◌≡◌, refl, true, false, [], ◌∷◌}
use joule.Worker.Subscriptions
use joule.Supervisor.{
  Supervisor, of_worker, of_pipe, nothing, no_producer, subscribe, subscribe_local,
  connect_remote_input,
}

abbrev two_workers : Supervisor
two_workers = record {
  workers = ((3, []) ∷ []) ∷ ((7, 1 ∷ []) ∷ []) ∷ [];
  remote_inputs = [];
  pipe_subscribers = [];
  remote_tasks = [];
}

second_worker :
    subscribe false 7 2 two_workers
    ≡ (of_worker 1, record two_workers { workers = ((3, []) ∷ []) ∷ ((7, 1 ∷ 2 ∷ []) ∷ []) ∷ [] })
unfolding subscribe subscribe_local joule.Worker.Subscriptions.subscribe
second_worker = refl

nobody : (subscribe false 8 2 two_workers).0 ≡ no_producer
unfolding subscribe subscribe_local joule.Worker.Subscriptions.subscribe
nobody = refl

-- The first subscriber of a remote stream gets None, the next one a function.
first_remote : (subscribe true 5 2 two_workers).0 ≡ nothing
unfolding subscribe connect_remote_input
first_remote = refl

second_remote : (subscribe true 5 4 (subscribe true 5 2 two_workers).1).0 ≡ of_pipe 2
unfolding subscribe connect_remote_input
second_remote = refl
