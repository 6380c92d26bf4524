-- ===== src/TensorBus/Handlers/Examples.antt =====
-- Two roles' commands for the rounds of one batch.
use etha.Prelude.{pair_eq, ℕ, ◌≡◌, refl, inl, true, none, some, List, [], ◌∷◌, nat_eq, list_eq}
use etha.TensorBus.Rounds.{pos, send, recv, Transfer, Session}
use etha.TensorBus.Handlers.{run, handle_cleanup_batch}
use etha.TensorBus.Handlers.Once.{IsMonotone, rounds, run-IsMonotone}
use etha.TensorBus.Handlers.Held.{IsAccounted, was_released}
use etha.TensorBus.Handlers.Parked.{run-IsAccounted}
use etha.TensorBus.Handlers.Cleanup.{handle_cleanup_batch-releases}

abbrev fresh : Session
fresh = record {
  rank = 0;
  batch = record {
    generation = 1;
    local_leader = 0;
    role_ranks = 5 ∷ 6 ∷ [];
    dual_direction = none;
    dual_direction_buckets = ((5, 6), some (7 ∷ [])) ∷ [];
    dual_direction_done = [];
    dual_round_pending = [];
    pending_register_semaphores = 40 ∷ [];
  };
  hub = record {
    dual_direction = λ g. none;
    transfer_request_round = λ d. none;
    transfer_signal_round = none;
    log = [];
  };
}

abbrev sends : ℕ → ℕ → List ℕ × Transfer
sends r name = (
  r ∷ r ∷ [],
  record {
    transfer_type = send;
    role = some 5;
    sync_round = pos r;
    generation = 1;
    semaphore_name = some name;
  },
)

abbrev receives : ℕ → ℕ → List ℕ × Transfer
receives r name = (
  r ∷ r ∷ [],
  record {
    transfer_type = recv;
    role = some 6;
    sync_round = pos r;
    generation = 1;
    semaphore_name = some name;
  },
)

-- Round 2 runs, the late commands of round 1 are acknowledged, round 3 waits.
abbrev commands : List (List ℕ × Transfer)
commands = sends 2 20 ∷ receives 2 21 ∷ receives 1 22 ∷ sends 1 23 ∷ sends 3 24 ∷ []

ran : rounds (5, 6) (run commands fresh).hub.log ≡ 2 ∷ []
unfolding run
ran = refl

run-IsMonotone_example : IsMonotone (5, 6) (run commands fresh)
run-IsMonotone_example = run-IsMonotone (5, 6) commands fresh (refl, tt)

run-IsAccounted_example : IsAccounted 24 (run commands fresh)
run-IsAccounted_example = run-IsAccounted 24 commands fresh refl

handle_cleanup_batch-releases_example :
    ((handle_cleanup_batch 1 (run commands fresh)).0 ≡ none)
    × (was_released 24 (handle_cleanup_batch 1 (run commands fresh)).1.log ≡ true)
unfolding run
handle_cleanup_batch-releases_example =
    handle_cleanup_batch-releases 24 1 (run commands fresh) refl
      (inl (run-IsAccounted 24 commands fresh refl))
