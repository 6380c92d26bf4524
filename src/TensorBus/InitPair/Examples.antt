-- ===== src/TensorBus/InitPair/Examples.antt =====
-- InitPair of agent.py on two ranks.
use etha.Prelude.{pair_eq, ℕ, ◌-◌, refl, ◌≢◌, false, none, some, List, [], ◌∷◌, nat_eq, list_eq}
use etha.TensorBus.InitPair.{InitPair, Registry, Agent, handle_init_pair}
use etha.TensorBus.InitPair.Ranks.{World, IsRecorded, deliver_all, deliver_all-IsRecorded}
use etha.TensorBus.InitPair.Rejected.{LeavesAlone, handle_init_pair-LeavesAlone}

abbrev register : ℕ → ℕ → InitPair
register name size = record {
  pair_name = 5;
  local_name = name;
  remote_name = 3 - name;
  expected_world_size = size;
  mesh_shape_payload = some 8;
  placements_payload = some 9;
  semaphore_name = some name;
}

abbrev agent : ℕ → Agent
agent r = record { rank = r; pairs = []; pending_pairs = []; released = [] }

abbrev registry : Registry
registry = record {
  store = record { sides = λ p n r. (false, none); entries = []; logged = [] };
  expected_world_size = λ p n. none;
  layouts = λ p n r. record { mesh_shape = none; placements = none };
}

abbrev start : World
start = record { agents = agent; registry = registry }

-- The third registration raises: it disagrees with the first about the size.
abbrev commands : List (ℕ × InitPair)
commands = (0, register 1 2) ∷ (1, register 2 1) ∷ (1, register 1 3) ∷ (1, register 1 2) ∷ []

start-IsRecorded : IsRecorded start
start-IsRecorded r = (refl, λ pair p at name n e. cc)

deliver_all-IsRecorded_example : IsRecorded (deliver_all (λ p. some p) commands start)
deliver_all-IsRecorded_example =
    deliver_all-IsRecorded (λ p. some p) commands start start-IsRecorded

-- The pair is matched, and the layout in the store is missing.
abbrev matched : Agent
matched = record (agent 0) {
  pairs =
      (
        5,
        record {
          local_name = 1;
          remote_name = 2;
          local_ranks = 0 ∷ 1 ∷ [];
          remote_ranks = 2 ∷ [];
          role_ranks = [];
        },
      )
      ∷ [];
}

raises : (handle_init_pair (λ p. some p) (register 1 2) matched registry).problem ≢ none
unfolding handle_init_pair
raises h = absurd (cc h)

handle_init_pair-LeavesAlone_example :
    LeavesAlone
      (λ p. some p)
      (register 1 2)
      matched
      registry
      (handle_init_pair (λ p. some p) (register 1 2) matched registry)
handle_init_pair-LeavesAlone_example =
    handle_init_pair-LeavesAlone (λ p. some p) (register 1 2) matched registry raises
