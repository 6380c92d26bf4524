-- ===== src/TensorBus/Handlers/Cleanup.antt =====
-- A cleanup releases what is parked.
use etha.Prelude.{
  or-true, pair_eq, ℕ, ◌≡◌, refl, subst, ◌⊎◌, inl, inr, Bool, true, false, Option, none, some, List,
  [], ◌∷◌, ◌==◌, nat_eq, list_eq, if◌then◌else◌, Bool-cases,
}
use etha.Prelude.Dict.{Dict, lookup}
use etha.TensorBus.Rounds.{Key, Pending, Event, Session, fail_all, pending_at, or_no_pending, elem}
use etha.TensorBus.Handlers.{is_stale, handle_cleanup_batch, reset_dual_store_signals, fail_pending}
use etha.TensorBus.Handlers.Held.{was_released, IsHeld, IsAccounted, was_released-fail_all}

fail_pending-keeps :
    (x : ℕ) (d : Dict Key Pending) (log : List Event)
    → was_released x log ≡ true
    → was_released x (fail_pending d log) ≡ true
fail_pending-keeps x [] log h = h
fail_pending-keeps x ((j, p) ∷ d) log h =
    fail_pending-keeps x d (fail_all p.semaphores log)
      (rw (was_released-fail_all x p.semaphores log, h) (or-true (elem x p.semaphores)))

or_no_pending-if :
    (b : Bool) (p : Pending) (o : Option Pending)
    → or_no_pending (if b then some p else o) ≡ (if b then p else or_no_pending o)
or_no_pending-if true p o = refl
or_no_pending-if false p o = refl

pending_at-cons :
    (k j : Key) (p : Pending) (d : Dict Key Pending)
    → pending_at k ((j, p) ∷ d) ≡ (if k == j then p else pending_at k d)
pending_at-cons k j p d = or_no_pending-if (k == j) p (lookup k d)

fail_pending-releases :
    (x : ℕ) (k : Key) (d : Dict Key Pending) (log : List Event)
    → elem x (pending_at k d).semaphores ≡ true
    → was_released x (fail_pending d log) ≡ true
fail_pending-releases x k [] log h = cc
fail_pending-releases x k ((j, p) ∷ d) log h = elim (Bool-cases (k == j)) [
  | inl same ↦
      let there : elem x p.semaphores ≡ true =
        rw same at
          (subst (λ (q : Pending). elem x q.semaphores ≡ true) (pending_at-cons k j p d) h) in
      fail_pending-keeps x d (fail_all p.semaphores log)
        (rw (was_released-fail_all x p.semaphores log, there) refl)
  | inr other ↦ fail_pending-releases x k d (fail_all p.semaphores log) (
      rw other at (subst (λ (q : Pending). elem x q.semaphores ≡ true) (pending_at-cons k j p d) h))
]

-- A cleanup for the live generation drops the batch, and releases every semaphore that was parked
-- under a round or by a registration, beside those that were released before.
pub handle_cleanup_batch-releases :
    (x : ℕ) (generation : ℕ) (s : Session)
    → is_stale generation s.batch.generation ≡ false
    → IsAccounted x s ⊎ (elem x s.batch.pending_register_semaphores ≡ true)
    → ((handle_cleanup_batch generation s).0 ≡ none)
      × (was_released x (handle_cleanup_batch generation s).1.log ≡ true)
unfolding handle_cleanup_batch reset_dual_store_signals
handle_cleanup_batch-releases x generation s live h =
    let d : Dict Key Pending = s.batch.dual_round_pending in
    let first : List Event = fail_all s.batch.pending_register_semaphores s.hub.log in
    let done : was_released x (fail_pending d first) ≡ true =
      all_released x d s.batch.pending_register_semaphores s.hub.log h in
    rw live (elim (Bool-cases (s.rank == s.batch.local_leader)) [
      | inl leads ↦ rw leads (refl, done)
      | inr follows ↦ rw follows (refl, done)
    ])
  where
    all_released :
        (x : ℕ) (d : Dict Key Pending) (names : List ℕ) (log : List Event)
        → IsHeld x d log ⊎ (elem x names ≡ true)
        → was_released x (fail_pending d (fail_all names log)) ≡ true
    all_released x d names log (inl (inl r)) =
        fail_pending-keeps x d (fail_all names log)
          (rw (was_released-fail_all x names log, r) (or-true (elem x names)))
    all_released x d names log (inl (inr (k, e))) =
        fail_pending-releases x k d (fail_all names log) e
    all_released x d names log (inr e) =
        fail_pending-keeps x d (fail_all names log) (rw (was_released-fail_all x names log, e) refl)
