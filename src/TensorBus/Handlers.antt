-- ===== src/TensorBus/Handlers.antt =====
-- The handlers of `Transfer` and `CleanupBatch` in src/etha/tensor_bus/agent.py, for one batch id
-- and a dual batch.
pub mod Once
pub mod Held
pub mod Parked
pub mod Cleanup
mod Examples
use etha.Prelude.{
  pair_eq, select, select-append, nat_beq, nat_beq_iff, list_beq, list_beq_iff, ℕ, zero, suc, ◌+◌,
  ◌-◌, ◌*◌, ◌/◌, ◌%◌, ◌^◌, ◌≤◌, ◌<◌, min, max, ◌≡◌, refl, sym, ap, ap₂, subst, fun_ext, ◌∙◌, ◌≢◌,
  ◌↔◌, ◌⊎◌, inl, inr, Bool, true, false, ◌&&◌, ◌||◌, not, Option, none, some, List, [], ◌∷◌, ◌++◌,
  map, arith, ltb, leb, ◌==◌, Eq, nat_eq, list_eq, if◌then◌else◌, Bool-cases, Option-cases, length,
  get_elem?, take, drop, length-append, length-drop, All, All-append, sum, sum-append,
}
use etha.Prelude.Dict.{Dict, lookup}
use etha.TensorBus.Rounds.{
  ℤ, pos, negsuc, Direction, Key, TransferType, send, recv, Transfer, Pending, Batch, Event,
  recorded_error, released, Hub, Session, Failure, invalid_registration, store_timeout, Outcome,
  finished, parked, failed, elem, with_batch, with_log, fail_all, run_round,
}

-- `[name for name in role_ranks if name != role]`, and the first of them.
abbrev pub other_role : ℕ → List ℕ → Option ℕ
other_role role [] = none
other_role role (n ∷ names) = if n == role then other_role role names else some n

abbrev pub direction_of : TransferType → ℕ → ℕ → Direction
direction_of send role other = (role, other)
direction_of recv role other = (other, role)

-- What stands under the generation's key after the leader had its chance to write.
abbrev pub write_pin : Bool → Direction → Option Direction → Option Direction
write_pin is_leader d (some e) = some e
write_pin true d none = some d
write_pin false d none = none

-- The leader writes the first direction under the generation's key; every rank reads it there.
unfoldable pub pin_from : Option Direction → Direction → Session → Session
pin_from (some pinned) d s = s
pin_from none d s =
    let h = s.hub.dual_direction in
    let g = s.batch.generation in
    let written = write_pin (s.rank == s.batch.local_leader) d (h g) in
    record s {
      batch = record s.batch { dual_direction = written };
      hub = record s.hub { dual_direction = λ k. if k == g then written else h k };
    }

unfoldable pub pin_direction : Direction → Session → Session
unfolding pin_from
pin_direction d s = pin_from s.batch.dual_direction d s

-- The rest of the handler, with the direction that the batch is pinned to. `none` is a key that
-- does not appear in time.
unfoldable pub run_pinned : List ℕ → Key → ℕ → Option ℕ → Option Direction → Session → Outcome
unfolding run_round
run_pinned seen k role name none s = failed store_timeout s
run_pinned seen k role name (some pinned) s =
    if k.0 == pinned then run_round seen k role name s else failed invalid_registration s

unfoldable pub run_direction : List ℕ → Direction → ℤ → ℕ → Option ℕ → Session → Outcome
unfolding run_pinned pin_direction
run_direction seen d (negsuc n) role name s = failed invalid_registration s
run_direction seen d (pos r) role name s =
    let s' = pin_direction d s in run_pinned seen (d, r) role name s'.batch.dual_direction s'

unfoldable pub run_role : List ℕ → Transfer → ℕ → Option ℕ → Session → Outcome
unfolding run_direction
run_role seen m role none s = failed invalid_registration s
run_role seen m role (some other) s =
    run_direction seen (direction_of m.transfer_type role other) m.sync_round role m.semaphore_name
      s

-- The issuing role is required, and must be a peer of the pair.
unfoldable pub run_member : List ℕ → Transfer → Option ℕ → Session → Outcome
unfolding run_role
run_member seen m none s = failed invalid_registration s
run_member seen m (some role) s =
    if elem role s.batch.role_ranks
    then run_role seen m role (other_role role s.batch.role_ranks) s
    else failed invalid_registration s

-- `_execute_dual_transfer`
unfoldable pub execute_dual_transfer : List ℕ → Transfer → Session → Outcome
unfolding run_member
execute_dual_transfer seen m s = run_member seen m m.role s

-- A generation that is given on both sides and differs.
abbrev pub is_stale : ℕ → ℕ → Bool
is_stale given live = not (given == 0) && (not (live == 0) && not (given == live))

-- `_handle_transfer` for a batch that the agent has.
unfoldable pub handle_transfer : List ℕ → Transfer → Session → Outcome
unfolding execute_dual_transfer
handle_transfer seen m s =
    if is_stale m.generation s.batch.generation
    then failed invalid_registration s
    else execute_dual_transfer seen m s

abbrev pub named : Option ℕ → List ℕ
named none = []
named (some s) = s ∷ []

-- The end of `_execute_command`: release at completion, record and release at an error.
unfoldable pub settle : Option ℕ → Outcome → Session
unfolding fail_all
settle none (finished s) = s
settle (some name) (finished s) = with_log s (released name ∷ s.hub.log)
settle name (parked s) = s
settle name (failed e s) = with_log s (fail_all (named name) s.hub.log)

-- `_execute_command` of a `Transfer`.
unfoldable pub execute_transfer : List ℕ → Transfer → Session → Session
unfolding handle_transfer settle
execute_transfer seen m s = settle m.semaphore_name (handle_transfer seen m s)

-- A run of commands, each with what its gather gives. After an error that is not an invalid
-- registration the agent stops; the run goes on, and so covers what may follow and more.
unfoldable pub run : List (List ℕ × Transfer) → Session → Session
unfolding execute_transfer
run [] s = s
run ((seen, m) ∷ ms) s = run ms (execute_transfer seen m s)

-- `_reset_dual_store_signals`
unfoldable pub reset_dual_store_signals : Batch → Hub → Hub
reset_dual_store_signals b h = record h {
  transfer_signal_round = none;
  transfer_request_round = λ d.
      if known d b.dual_direction_buckets || is_pinned d b.dual_direction
      then none
      else h.transfer_request_round d;
}
  where
    known : Direction → Dict Direction (Option (List ℕ)) → Bool
    known d [] = false
    known d ((e, v) ∷ rest) = d == e || known d rest

    is_pinned : Direction → Option Direction → Bool
    is_pinned d none = false
    is_pinned d (some e) = d == e

abbrev pub fail_pending : Dict Key Pending → List Event → List Event
fail_pending [] log = log
fail_pending ((k, p) ∷ d) log = fail_pending d (fail_all p.semaphores log)

-- What `_handle_cleanup_batch` leaves: the batch, if the command is for another generation, and the
-- hub.
unfoldable pub handle_cleanup_batch : ℕ → Session → Option Batch × Hub
unfolding fail_all reset_dual_store_signals
handle_cleanup_batch generation s =
    if is_stale generation s.batch.generation
    then (some s.batch, s.hub)
    else let log =
        fail_pending s.batch.dual_round_pending
          (fail_all s.batch.pending_register_semaphores s.hub.log) in
      let h = record s.hub { log = log } in
      (none, if s.rank == s.batch.local_leader then reset_dual_store_signals s.batch h else h)
