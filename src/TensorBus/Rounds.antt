-- ===== src/TensorBus/Rounds.antt =====
-- The direction-rounds of a dual batch in src/etha/tensor_bus/agent.py: both roles' commands reach
-- one agent, the first waits, the second starts the transfer.
pub mod Request
use etha.Prelude.{
  pair_eq, ℕ, Bool, true, false, ◌&&◌, ◌||◌, not, Option, none, some, List, [], ◌∷◌, ◌++◌, ltb, leb,
  ◌==◌, nat_eq, list_eq, if◌then◌else◌, length,
}
use etha.Prelude.Dict.{Dict, lookup, insert, erase}

-- An integer of a message.
pub data ℤ : Type 0 where
  pos : ℕ → ℤ
  negsuc : ℕ → ℤ

-- Source role and destination role.
abbrev pub Direction : Type 0
Direction = ℕ × ℕ

-- A round that the agent or the store keeps; `none` is -1, which is also read for a missing key.
abbrev pub Round : Type 0
Round = Option ℕ

abbrev pub Key : Type 0
Key = Direction × ℕ

pub data TransferType : Type 0 where
  send recv : TransferType

-- A generation of 0 matches every batch.
pub record Transfer : Type 0 where
  pub transfer_type : TransferType
  pub role : Option ℕ
  pub sync_round : ℤ
  pub generation : ℕ
  pub semaphore_name : Option ℕ

pub record Pending : Type 0 where
  pub roles : List ℕ
  pub semaphores : List ℕ

-- The fields of `BatchState` that a dual batch uses here, and the role names of its first pair.
-- Buckets are known by number; `none` stands for a direction with a Partial target.
pub record Batch : Type 0 where
  pub generation : ℕ
  pub local_leader : ℕ
  pub role_ranks : List ℕ
  pub dual_direction : Option Direction
  pub dual_direction_buckets : Dict Direction (Option (List ℕ))
  pub dual_direction_done : Dict Direction ℕ
  pub dual_round_pending : Dict Key Pending
  pub pending_register_semaphores : List ℕ

-- What the agent does to the outside.
pub data Event : Type 0 where
  executed : Direction → ℕ → List ℕ → Event
  recorded_error : ℕ → Event
  released : ℕ → Event

-- The store's keys of one batch id, and the events, the newest first. `dual_direction` has one key
-- for each generation.
pub record Hub : Type 0 where
  pub dual_direction : ℕ → Option Direction
  pub transfer_request_round : Direction → Round
  pub transfer_signal_round : Round
  pub log : List Event

-- A batch in the agent's dict, with the hub.
pub record Session : Type 0 where
  pub rank : ℕ
  pub batch : Batch
  pub hub : Hub

pub data Failure : Type 0 where
  invalid_registration store_timeout : Failure

pub data Outcome : Type 0 where
  finished parked : Session → Outcome
  failed : Failure → Session → Outcome

abbrev pub elem : ℕ → List ℕ → Bool
elem x [] = false
elem x (y ∷ ys) = x == y || elem x ys

abbrev pub no_pending : Pending
no_pending = record { roles = []; semaphores = [] }

abbrev pub or_no_pending : Option Pending → Pending
or_no_pending none = no_pending
or_no_pending (some p) = p

abbrev pub pending_at : Key → Dict Key Pending → Pending
pending_at k d = or_no_pending (lookup k d)

abbrev pub with_batch : Session → Batch → Session
with_batch s b = record s { batch = b }

abbrev pub with_log : Session → List Event → Session
with_log s l = record s { hub = record s.hub { log = l } }

unfoldable pub release_all : List ℕ → List Event → List Event
release_all [] log = log
release_all (s ∷ ss) log = release_all ss (released s ∷ log)

-- `_record_command_error` and `_release_semaphore` for each semaphore.
unfoldable pub fail_all : List ℕ → List Event → List Event
fail_all [] log = log
fail_all (s ∷ ss) log = fail_all ss (released s ∷ recorded_error s ∷ log)

-- `sync_round <= done`
abbrev pub is_done : ℕ → Round → Bool
is_done r none = false
is_done r (some d) = leb r d

-- `_publish_transfer_request`
unfoldable pub publish_transfer_request : Direction → ℕ → Session → Session
publish_transfer_request d r s =
    let current = s.hub.transfer_request_round d in
    if not (s.rank == s.batch.local_leader) || is_done r current then s else record s {
      hub = record s.hub {
        transfer_request_round = λ e. if e == d then some r else s.hub.transfer_request_round e;
      };
    }

-- `roles.add(role)`
abbrev pub add_role : ℕ → List ℕ → List ℕ
add_role role roles = if elem role roles then roles else role ∷ roles

abbrev pub append_name : List ℕ → Option ℕ → List ℕ
append_name names none = names
append_name names (some s) = names ++ s ∷ []

abbrev pub other_names : List ℕ → Option ℕ → List ℕ
other_names names none = names
other_names [] (some s) = []
other_names (n ∷ names) (some s) =
    let rest = other_names names (some s) in if n == s then rest else n ∷ rest

-- A round that is done already: what is parked under it is released.
unfoldable pub acknowledge : Key → Session → Session
unfolding release_all
acknowledge k s =
    with_log
      (with_batch s (record s.batch { dual_round_pending = erase k s.batch.dual_round_pending }))
      (release_all (pending_at k s.batch.dual_round_pending).semaphores s.hub.log)

-- `_fail_round`: the other commands of the round fail; the caller's fails when the error is raised.
-- The leader takes the request back to the last round that was done.
unfoldable pub fail_round : Key → Option ℕ → Session → Outcome
unfolding fail_all
fail_round (d, r) name s =
    let pending = s.batch.dual_round_pending in
    let s' =
      with_log (with_batch s (record s.batch { dual_round_pending = erase (d, r) pending }))
        (fail_all (other_names (pending_at (d, r) pending).semaphores name) s.hub.log) in
    failed invalid_registration (
      if s.rank == s.batch.local_leader
      then record s' {
        hub = record s'.hub {
          transfer_request_round = λ e.
              if e == d
              then lookup d s.batch.dual_direction_done
              else s.hub.transfer_request_round e;
        };
      }
      else s')

-- The transfer itself: the round is done before the completion is published, and both come before
-- the parked semaphores are released.
unfoldable pub execute : Key → List ℕ → Session → Session
unfolding release_all
execute (d, r) buckets s =
    let pending = s.batch.dual_round_pending in
    record s {
      batch = record s.batch {
        dual_direction_done = insert d r s.batch.dual_direction_done;
        dual_round_pending = erase (d, r) pending;
      };
      hub = record s.hub {
        transfer_signal_round =
            if s.rank == s.batch.local_leader then some r else s.hub.transfer_signal_round;
        log = release_all (pending_at (d, r) pending).semaphores (executed d r buckets ∷ s.hub.log);
      };
    }

-- `all(round_id == r for round_id in seen)`
abbrev pub all_equal : ℕ → List ℕ → Bool
all_equal r [] = true
all_equal r (x ∷ xs) = x == r && all_equal r xs

-- Both roles are there. `seen` is what `all_gather_object` gathers from the group's ranks.
unfoldable pub complete_round :
    List ℕ → Key → Option ℕ → Option (Option (List ℕ)) → Session → Outcome
unfolding fail_round execute
complete_round seen k name (some (some buckets)) s =
    if all_equal k.1 seen then finished (execute k buckets s) else fail_round k name s
complete_round seen k name _ s = fail_round k name s

-- The first command of a round publishes the request before it is parked.
unfoldable pub request_first : List ℕ → Key → Session → Session
unfolding publish_transfer_request
request_first [] (d, r) s = publish_transfer_request d r s
request_first (_ ∷ _) k s = s

-- The command joins the round's entry.
unfoldable pub join_round : Key → ℕ → Option ℕ → Session → Session
unfolding request_first
join_round k role name s =
    let p = pending_at k s.batch.dual_round_pending in
    let s' = request_first p.roles k s in
    with_batch s' (record s'.batch {
      dual_round_pending =
          insert k
            (record { roles = add_role role p.roles; semaphores = append_name p.semaphores name })
            s'.batch.dual_round_pending;
    })

unfoldable pub run_round : List ℕ → Key → ℕ → Option ℕ → Session → Outcome
unfolding acknowledge join_round complete_round
run_round seen k role name s =
    if is_done k.1 (lookup k.0 s.batch.dual_direction_done)
    then finished (acknowledge k s)
    else let s' = join_round k role name s in
      if ltb (length (pending_at k s'.batch.dual_round_pending).roles) 2
      then parked s'
      else complete_round seen k name (lookup k.0 s'.batch.dual_direction_buckets) s'
