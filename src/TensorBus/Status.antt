-- ===== src/TensorBus/Status.antt =====
-- `QueryStatus` in src/etha/tensor_bus/agent.py.
pub mod Stale
use etha.Prelude.{
  pair_eq, select, select-append, nat_beq, nat_beq_iff, list_beq, list_beq_iff, ℕ, zero, suc, ◌+◌,
  ◌-◌, ◌*◌, ◌/◌, ◌%◌, ◌^◌, ◌≤◌, ◌<◌, min, max, ◌≡◌, refl, sym, ap, ap₂, subst, fun_ext, ◌∙◌, ◌≢◌,
  ◌↔◌, ◌⊎◌, inl, inr, Bool, true, false, ◌&&◌, ◌||◌, not, Option, none, some, List, [], ◌∷◌, ◌++◌,
  map, arith, ltb, leb, ◌==◌, Eq, nat_eq, list_eq, if◌then◌else◌, Bool-cases, Option-cases, length,
  get_elem?, take, drop, length-append, length-drop, All, All-append, sum, sum-append,
}
use etha.TensorBus.Rounds.{Direction, Round, Batch, Hub}
use etha.TensorBus.Handlers.{is_stale}

pub data StateName : Type 0 where
  transfer_signal transfer_signal_round unknown_state : StateName
  transfer_request_round : Direction → StateName

-- A truth value, or a round with -1 for `none`.
pub data StateValue : Type 0 where
  flag : Bool → StateValue
  round : Round → StateValue

-- Where the answer is written: for the caller's semaphore, or under the state's own key.
pub data Reply : Type 0 where
  no_reply : Reply
  command_result : ℕ → StateValue → Reply
  state_value : StateName → StateValue → Reply

abbrev pub reply_to : Option ℕ → StateName → Option StateValue → Reply
reply_to semaphore_name name none = no_reply
reply_to none name (some v) = state_value name v
reply_to (some s) name (some v) = command_result s v

-- The answer for another generation than the live one.
unfoldable pub stale_state : StateName → StateValue
stale_state transfer_signal = flag false
stale_state _ = round none

-- The store's value; `raw` says whether the boolean signal holds "1".
unfoldable pub live_state : Bool → Hub → StateName → Option StateValue
live_state raw h transfer_signal = some (flag raw)
live_state raw h transfer_signal_round = some (round h.transfer_signal_round)
live_state raw h (transfer_request_round d) = some (round (h.transfer_request_round d))
live_state raw h unknown_state = none

-- `_handle_query_status`
unfoldable pub handle_query_status : ℕ → Option ℕ → StateName → Option Batch → Bool → Hub → Reply
unfolding stale_state live_state
handle_query_status generation semaphore_name name none raw h = no_reply
handle_query_status generation semaphore_name name (some b) raw h =
    reply_to semaphore_name name
      (if is_stale generation b.generation then some (stale_state name) else live_state raw h name)
