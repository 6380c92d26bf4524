-- ===== src/TensorBus/Status/Stale.antt =====
-- A query with an old generation sees nothing of the batch that took the id over.
use etha.Prelude.{
  or-true, pair_eq, ℕ, ◌≡◌, refl, ◌⊎◌, inl, inr, Bool, true, false, Option, none, some, ◌==◌,
  nat_eq, list_eq,
}
use etha.TensorBus.Rounds.{Direction, Batch, Hub}
use etha.TensorBus.Handlers.{is_stale, reset_dual_store_signals}
use etha.TensorBus.Status.{
  StateName, transfer_signal_round, transfer_request_round, stale_state, live_state,
  handle_query_status,
}

reset-direction :
    (b : Batch) (h : Hub) (d : Direction)
    → b.dual_direction ≡ some d
    → (reset_dual_store_signals b h).transfer_request_round d ≡ none
unfolding reset_dual_store_signals
reset-direction b h d e =
    let itself : (d == d) ≡ true = (pair_eq.beq_iff d d).1 refl in rw (e, itself, or-true _) refl

-- For a batch that is pinned to a direction, a query that names another generation is answered, for
-- the completion signal and for the direction's request signal, as a query of the live generation
-- is after the cleanup's reset of the signals: with no round.
pub handle_query_status-reset_dual_store_signals :
    (g live : ℕ) (semaphore_name : Option ℕ) (b : Batch) (d : Direction) (raw : Bool) (h : Hub)
    (name : StateName)
    → is_stale g b.generation ≡ true
    → is_stale live b.generation ≡ false
    → b.dual_direction ≡ some d
    → (name ≡ transfer_signal_round) ⊎ (name ≡ transfer_request_round d)
    → handle_query_status g semaphore_name name (some b) raw h
      ≡ handle_query_status live semaphore_name name (some b) raw (reset_dual_store_signals b h)
unfolding handle_query_status
handle_query_status-reset_dual_store_signals g live semaphore_name b d raw h name old new pinned
      (inl e) =
    rw (e, old, new) (unfold reset_dual_store_signals stale_state live_state in refl)
handle_query_status-reset_dual_store_signals g live semaphore_name b d raw h name old new pinned
      (inr e) =
    rw (e, old, new) (unfold stale_state live_state in rw (reset-direction b h d pinned) refl)
