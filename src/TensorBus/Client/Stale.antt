-- ===== src/TensorBus/Client/Stale.antt =====
-- A handler of client.py for an older generation of a batch in agent.py.
use etha.Prelude.{
  pair_eq, ℕ, ◌≡◌, refl, sym, ap, ◌∙◌, ◌≢◌, inl, inr, Bool, true, false, Option, none, some, List,
  arith, nat_eq, list_eq,
}
use etha.TensorBus.Rounds.{
  ℤ, pos, TransferType, Direction, Batch, Hub, Session, Outcome, failed, invalid_registration,
}
use etha.TensorBus.Handlers.{is_stale, handle_transfer, handle_cleanup_batch}
use etha.TensorBus.Client.{
  Returned, value, raises, BatchHandler, transfer, close_command, query_transfer_signal,
  query_transfer_request, Answer, QueryStatus, signal_query, request_query,
}
use etha.TensorBus.Client.Query.{asked, IsLive, Says, query_transfer_signal-handle_query_status}

-- What the agent does with the command of a handler, if there is one.
abbrev pub cleanup : Option ℕ → Session → Option Batch × Hub
cleanup none s = (some s.batch, s.hub)
cleanup (some generation) s = handle_cleanup_batch generation s

abbrev pub transfer_of :
    BatchHandler → TransferType → Option ℕ → ℤ → Option ℕ → List ℕ → Session → Returned Outcome
transfer_of h type role r name seen s = elim (transfer h type role r name) [
  | value m ↦ value (handle_transfer seen m s)
  | raises e ↦ raises e
]

-- What the agent answers to a handler's query.
abbrev pub asked_by : ℕ → QueryStatus → Session → Bool → Answer
asked_by name q s raw = asked name q.generation (some s.batch) raw s.hub q.state_name

cleanup_stale :
    (s : Session) (g : ℕ)
    → is_stale g s.batch.generation ≡ true
    → handle_cleanup_batch g s ≡ (some s.batch, s.hub)
unfolding handle_cleanup_batch
cleanup_stale s g h = rw (handle_cleanup_batch, h) refl

stale : (g l : ℕ) → g ≢ 0 → l ≢ 0 → g ≢ l → is_stale g l ≡ true
stale g l p q r = ground (arith, p, q, r)

not_live : (g : ℕ) (b : Batch) → g ≢ 0 → b.generation ≢ 0 → g ≢ b.generation → IsLive g (some b) → ⊥
not_live g b p q r (b', (e, inl z)) = p z
not_live g b p q r (b', (e, inr (inl z))) =
    let same : b ≡ b' = ground (arith, e) in q (ap (λ (c : Batch). c.generation) same ∙ z)
not_live g b p q r (b', (e, inr (inr z))) =
    let same : b ≡ b' = ground (arith, e) in r (z ∙ sym (ap (λ (c : Batch). c.generation) same))

says_no : {P : Type 0} (q : Returned Bool) → (P → ⊥) → Says q P → q ≡ value false
says_no q never (true, (e, iff)) = absurd (never (iff.0 refl))
says_no q never (false, (e, iff)) = e

-- A handler that is open, of a generation other than that of the batch that has its identity now,
-- neither being 0, neither starts a transfer nor takes the batch away; the agent's answers to the
-- queries that it sends for a round say no.
pub handler_stale :
    (h : BatchHandler) (s : Session) (raw : Bool) (name r : ℕ) (d : Direction) (type : TransferType)
    (role : Option ℕ) (semaphore : Option ℕ) (seen : List ℕ)
    → h.closed ≡ false
    → h.generation ≢ 0
    → s.batch.generation ≢ 0
    → h.generation ≢ s.batch.generation
    → (transfer_of h type role (pos r) semaphore seen s ≡ value (failed invalid_registration s))
      × ((cleanup (close_command h) s ≡ (some s.batch, s.hub))
          × ((query_transfer_signal true
                  (some (pos r))
                  (asked_by name (signal_query h (some (pos r))) s raw)
                ≡ value false)
              × (query_transfer_request true (pos r) (asked_by name (request_query h d) s raw)
                  ≡ value false)))
unfolding transfer close_command handle_transfer signal_query request_query
handler_stale h s raw name r d type role semaphore seen usable given live differ =
    let old : is_stale h.generation s.batch.generation ≡ true =
      stale h.generation s.batch.generation given live differ in
    let (signal, (completion, (request, errors))) =
      query_transfer_signal-handle_query_status name h.generation (some s.batch) raw s.hub r 0 d in
    let dead = not_live h.generation s.batch given live differ in
    (
      rw (transfer, usable, handle_transfer, old) refl,
      (
        rw (close_command, usable) (cleanup_stale s h.generation old),
        (says_no _ (λ c. dead c.0) completion, says_no _ (λ c. dead c.0) request),
      ),
    )
