-- ===== src/TensorBus/Client.antt =====
-- src/etha/tensor_bus/client.py: the commands of a client and what it reads when they are done.
pub mod Query
pub mod Stale
mod Examples
use etha.Prelude.{
  pair_eq, List-cases, select, select-append, nat_beq, nat_beq_iff, list_beq, list_beq_iff, ℕ, zero,
  suc, ◌+◌, ◌-◌, ◌*◌, ◌/◌, ◌%◌, ◌^◌, ◌≤◌, ◌<◌, min, max, ◌≡◌, refl, sym, ap, ap₂, subst, fun_ext,
  ◌∙◌, ◌≢◌, ◌↔◌, ◌⊎◌, inl, inr, Bool, true, false, ◌&&◌, ◌||◌, not, Option, none, some, List, [],
  ◌∷◌, ◌++◌, map, arith, ltb, leb, ◌==◌, Eq, nat_eq, list_eq, if◌then◌else◌, Bool-cases,
  Option-cases, length, get_elem?, take, drop, length-append, length-drop, All, All-append, sum,
  sum-append,
}
use etha.TensorBus.Rounds.{ℤ, pos, negsuc, Direction, Round, Transfer, TransferType}
use etha.TensorBus.Status.{
  StateName, transfer_signal, transfer_signal_round, transfer_request_round, StateValue, flag,
  round,
}

-- `TimeoutError`, `RuntimeError`, and the decoder's error for a value of another type.
pub data ClientError : Type 0 where
  timeout_error runtime_error decode_error : ClientError

-- What the client finds when the wait on its semaphore ends: whether it was acquired, and the error
-- and the result written under its name.
pub record Answer : Type 0 where
  pub acquired : Bool
  pub error : Option ℕ
  pub result : Option StateValue

pub data Returned {ℓ} (A : Type ℓ) : Type ℓ where
  value : A → Returned A
  raises : ClientError → Returned A

infixl 5 ◌>>=◌
abbrev pub ◌>>=◌ {ℓ κ} : {A : Type ℓ} {B : Type κ} → Returned A → (A → Returned B) → Returned B
raises e >>= f = raises e
value a >>= f = f a

-- `_raise_command_error`; `connected` says that the state environment is open.
unfoldable pub raise_command_error : Bool → Option ℕ → Returned (Unit {0})
raise_command_error false error = raises runtime_error
raise_command_error true none = value tt
raise_command_error true (some e) = raises runtime_error

-- `_execute_command_with_semaphore` after the command is in the queue.
unfoldable pub execute_command_with_semaphore : Bool → Bool → Answer → Returned (Unit {0})
unfolding raise_command_error
execute_command_with_semaphore connected blocking a =
    if not blocking
    then value tt
    else if a.acquired
    then raise_command_error connected a.error
    else raises timeout_error

unfoldable pub decode_bool : StateValue → Returned Bool
decode_bool (flag b) = value b
decode_bool (round r) = raises decode_error

unfoldable pub decode_int : StateValue → Returned Round
decode_int (flag b) = raises decode_error
decode_int (round r) = value r

-- `completed_round >= sync_round`, where `none` is -1.
abbrev pub reaches : Round → ℤ → Bool
reaches completed (negsuc n) = true
reaches none (pos r) = false
reaches (some d) (pos r) = leb r d

-- `requested == sync_round`
abbrev pub is_round : Round → ℤ → Bool
is_round none (negsuc zero) = true
is_round (some d) (pos r) = d == r
is_round _ _ = false

-- The boolean signal; a result that is missing is false.
unfoldable pub read_signal : Option StateValue → Returned Bool
unfolding decode_bool
read_signal none = value false
read_signal (some v) = decode_bool v

-- A round; one that is missing is -1.
unfoldable pub read_round : Option StateValue → Returned Round
unfolding decode_int
read_round none = value none
read_round (some v) = decode_int v

unfoldable pub signal_name : Option ℤ → StateName
signal_name none = transfer_signal
signal_name (some r) = transfer_signal_round

-- `query_transfer_signal`
unfoldable pub query_transfer_signal : Bool → Option ℤ → Answer → Returned Bool
unfolding execute_command_with_semaphore read_signal read_round
query_transfer_signal connected none a = execute_command_with_semaphore connected true a >>= λ done.
    if connected then read_signal a.result else raises runtime_error
query_transfer_signal connected (some sync_round) a =
    execute_command_with_semaphore connected true a >>= λ done.
    if connected
    then (read_round a.result >>= λ completed. value (reaches completed sync_round))
    else raises runtime_error

-- `query_transfer_request`
unfoldable pub query_transfer_request : Bool → ℤ → Answer → Returned Bool
unfolding execute_command_with_semaphore read_round
query_transfer_request connected sync_round a =
    execute_command_with_semaphore connected true a >>= λ done.
    if connected
    then (read_round a.result >>= λ requested. value (is_round requested sync_round))
    else raises runtime_error

pub record BatchHandler : Type 0 where
  pub batch_id : ℕ
  pub generation : ℕ
  pub closed : Bool

-- The generation in the result of `RegisterTensors`; 0 if there is none.
unfoldable pub read_generation : Option StateValue → Returned ℕ
read_generation none = value 0
read_generation (some (round (some g))) = value g
read_generation (some (round none)) = raises decode_error
read_generation (some (flag b)) = raises decode_error

-- `register_tensors`
unfoldable pub register_tensors : Bool → ℕ → Answer → Returned BatchHandler
unfolding execute_command_with_semaphore read_generation
register_tensors connected batch_id a = execute_command_with_semaphore connected true a >>= λ done.
    (read_generation a.result >>= λ g.
    value (record { batch_id = batch_id; generation = g; closed = false }))

-- The command of `BatchHandler.transfer`; a closed handler raises.
unfoldable pub transfer : BatchHandler → TransferType → Option ℕ → ℤ → Option ℕ → Returned Transfer
transfer h transfer_type role sync_round semaphore_name =
    if h.closed
    then raises runtime_error
    else value (record {
      transfer_type = transfer_type;
      role = role;
      sync_round = sync_round;
      generation = h.generation;
      semaphore_name = semaphore_name;
    })

-- `QueryStatus`, without the semaphore that is made for it.
pub record QueryStatus : Type 0 where
  pub batch_id : ℕ
  pub state_name : StateName
  pub generation : ℕ

-- The queries that a handler's `query_transfer_signal` and `query_transfer_request` send.
unfoldable pub signal_query : BatchHandler → Option ℤ → QueryStatus
unfolding signal_name
signal_query h sync_round = record {
  batch_id = h.batch_id;
  state_name = signal_name sync_round;
  generation = h.generation;
}

unfoldable pub request_query : BatchHandler → Direction → QueryStatus
request_query h direction = record {
  batch_id = h.batch_id;
  state_name = transfer_request_round direction;
  generation = h.generation;
}

-- The generation in the `CleanupBatch` that `close` sends, if it sends one.
unfoldable pub close_command : BatchHandler → Option ℕ
close_command h = if h.closed then none else some h.generation

-- `BatchHandler.close`: the handler is closed once its command has ended well.
unfoldable pub close : Bool → Bool → BatchHandler → Answer → BatchHandler × Returned (Unit {0})
unfolding execute_command_with_semaphore
close connected blocking h a =
    if h.closed then (h, value tt) else elim (execute_command_with_semaphore connected blocking a) [
      | value u ↦ (record h { closed = true }, value tt)
      | raises e ↦ (h, raises e)
    ]
