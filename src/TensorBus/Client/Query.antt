-- ===== src/TensorBus/Client/Query.antt =====
-- A query of client.py answered by `_handle_query_status` in agent.py.
use etha.Prelude.{
  pair_eq, nat_beq, nat_beq_iff, ℕ, ◌≤◌, ◌≡◌, refl, ap, ◌∙◌, ◌↔◌, ◌⊎◌, inl, inr, Bool, true, false,
  ◌&&◌, not, Option, none, some, arith, ◌==◌, nat_eq, list_eq, if◌then◌else◌, Bool-cases,
  Option-cases,
}
use etha.TensorBus.Rounds.{pos, Direction, Batch, Hub}
use etha.TensorBus.Handlers.{is_stale}
use etha.TensorBus.Status.{
  StateName, transfer_signal, transfer_signal_round, transfer_request_round, StateValue, Reply,
  command_result, handle_query_status, stale_state, live_state,
}
use etha.TensorBus.Client.{
  Answer, Returned, value, raises, runtime_error, query_transfer_signal, query_transfer_request,
  reaches, is_round,
}

-- The result that the client finds under its semaphore's name.
abbrev pub result_of : ℕ → Reply → Option StateValue
result_of s (command_result t v) = if s == t then some v else none
result_of s _ = none

-- The agent handled the query and released the semaphore.
unfoldable pub answer_of : ℕ → Reply → Answer
answer_of s reply = record { acquired = true; error = none; result = result_of s reply }

-- Whether the agent has the batch in a generation that the query means.
abbrev is_live : ℕ → Option Batch → Bool
is_live generation none = false
is_live generation (some b) = not (is_stale generation b.generation)

-- The agent has the batch, and it is of the query's generation, where neither is 0.
abbrev pub IsLive : ℕ → Option Batch → Type 0
IsLive generation batch =
    (b : Batch) × ((batch ≡ some b)
      × ((generation ≡ 0) ⊎ ((b.generation ≡ 0) ⊎ (generation ≡ b.generation))))

-- The agent's reply to a query of the state, as the client finds it.
abbrev pub asked : ℕ → ℕ → Option Batch → Bool → Hub → StateName → Answer
asked s generation batch raw h name =
    answer_of s (handle_query_status generation (some s) name batch raw h)

asked-some :
    (s generation : ℕ) (b : Batch) (raw : Bool) (h : Hub) (name : StateName)
    → asked s generation (some b) raw h name ≡ record {
      acquired = true;
      error = none;
      result =
          if is_stale generation b.generation
          then some (stale_state name)
          else live_state raw h name;
    }
unfolding answer_of handle_query_status
asked-some s generation b raw h name =
    let self : nat_beq s s ≡ true = ground (arith, nat_beq_iff s s) in
    elim (Bool-cases (is_stale generation b.generation)) [
      | inl stale ↦ rw (stale, self) refl
      | inr live ↦ elim (Option-cases (live_state raw h name)) [
        | inl nothing ↦ rw (live, nothing) refl
        | inr (v, some_state) ↦ rw (live, some_state, self) refl
      ]
    ]

abbrev answered : Bool → Bool → Hub → StateName → Answer
answered stale raw h name = record {
  acquired = true;
  error = none;
  result = if stale then some (stale_state name) else live_state raw h name;
}

signal_if :
    (stale raw : Bool) (h : Hub)
    → query_transfer_signal true none (answered stale raw h transfer_signal)
      ≡ value (not stale && raw)
unfolding query_transfer_signal stale_state live_state
signal_if true raw h = refl
signal_if false raw h = refl

completion_if :
    (stale raw : Bool) (h : Hub) (r : ℕ)
    → query_transfer_signal true (some (pos r)) (answered stale raw h transfer_signal_round)
      ≡ value (not stale && reaches h.transfer_signal_round (pos r))
unfolding query_transfer_signal stale_state live_state
completion_if true raw h r = refl
completion_if false raw h r = refl

request_if :
    (stale raw : Bool) (h : Hub) (r : ℕ) (d : Direction)
    → query_transfer_request true (pos r) (answered stale raw h (transfer_request_round d))
      ≡ value (not stale && is_round (h.transfer_request_round d) (pos r))
unfolding query_transfer_request stale_state live_state
request_if true raw h r d = refl
request_if false raw h r d = refl

answers_with :
    (s generation : ℕ) (batch : Option Batch) (raw : Bool) (h : Hub) (r : ℕ) (d : Direction)
    → (query_transfer_signal true none (asked s generation batch raw h transfer_signal)
        ≡ value (is_live generation batch && raw))
      × (query_transfer_signal true
            (some (pos r))
            (asked s generation batch raw h transfer_signal_round)
          ≡ value (is_live generation batch && reaches h.transfer_signal_round (pos r)))
      × (query_transfer_request true
            (pos r)
            (asked s generation batch raw h (transfer_request_round d))
          ≡ value (is_live generation batch && is_round (h.transfer_request_round d) (pos r)))
unfolding query_transfer_signal query_transfer_request answer_of handle_query_status
answers_with s generation none raw h r d = (refl, refl, refl)
answers_with s generation (some b) raw h r d =
    let stale : Bool = is_stale generation b.generation in
    let at = asked-some s generation b raw h in
    (
      ap (query_transfer_signal true none) (at transfer_signal) ∙ signal_if stale raw h,
      ap (query_transfer_signal true (some (pos r))) (at transfer_signal_round)
          ∙ completion_if stale raw h r,
      ap (query_transfer_request true (pos r)) (at (transfer_request_round d))
          ∙ request_if stale raw h r d,
    )

is_live-IsLive :
    (generation : ℕ) (batch : Option Batch)
    → (is_live generation batch ≡ true) ↔ IsLive generation batch
is_live-IsLive generation none = (λ h. cc, λ (b, (e, l)). cc)
is_live-IsLive generation (some b) = (
  λ h. (b, (refl, live_cases generation b.generation h)),
  λ (b', (e, l)).
      let same : b ≡ b' = ground (arith, e) in
      ap (λ (c : Batch). not (is_stale generation c.generation)) same
      ∙ cases_live generation b'.generation l,
)
  where
    live_cases : (g l : ℕ) → not (is_stale g l) ≡ true → (g ≡ 0) ⊎ ((l ≡ 0) ⊎ (g ≡ l))
    live_cases g l h = elim (Bool-cases (g == 0)) [
      | inl zero_is ↦ inl (ground (arith, zero_is))
      | inr some_g ↦ elim (Bool-cases (l == 0)) [
        | inl zero_is ↦ inr (inl (ground (arith, zero_is)))
        | inr some_l ↦ inr (inr (ground (arith, h, some_g, some_l)))
      ]
    ]

    cases_live : (g l : ℕ) → (g ≡ 0) ⊎ ((l ≡ 0) ⊎ (g ≡ l)) → not (is_stale g l) ≡ true
    cases_live g l (inl e) = ground (arith, e)
    cases_live g l (inr (inl e)) = ground (arith, e)
    cases_live g l (inr (inr e)) = ground (arith, e)

reaches_iff :
    (o : Option ℕ) (r : ℕ) → (reaches o (pos r) ≡ true) ↔ ((c : ℕ) × ((o ≡ some c) × (r ≤ c)))
reaches_iff none r = (λ h. cc, λ (c, (e, l)). cc)
reaches_iff (some c) r = (λ h. (c, (refl, ground (arith, h))), λ (c', (e, l)). ground (arith, e, l))

is_round_iff : (o : Option ℕ) (r : ℕ) → (is_round o (pos r) ≡ true) ↔ (o ≡ some r)
is_round_iff none r = (λ h. cc, λ e. cc)
is_round_iff (some c) r = (λ h. ap some (ground (arith, h)), λ e. ground (arith, e))

-- The agent recorded an error when it handled the query.
abbrev pub with_error : ℕ → Answer → Answer
with_error e a = record a { error = some e }

-- A query returns a truth value, and it is true exactly if the statement holds.
abbrev pub Says : Returned Bool → Type 0 → Type 0
Says q P = (b : Bool) × ((q ≡ value b) × ((b ≡ true) ↔ P))

both_say :
    {P Q : Type 0} (q : Returned Bool) (x y : Bool)
    → q ≡ value (x && y)
    → (x ≡ true) ↔ P
    → (y ≡ true) ↔ Q
    → Says q (P × Q)
both_say q true y e p r = (y, (e, (λ h. (p.0 refl, r.0 h), λ c. r.1 c.1)))
both_say q false y e p r = (false, (e, (λ h. cc, λ c. p.1 c.0)))

pub query_transfer_signal-handle_query_status :
    (s generation : ℕ) (batch : Option Batch) (raw : Bool) (h : Hub) (r e : ℕ) (d : Direction)
    → Says
        (query_transfer_signal true none (asked s generation batch raw h transfer_signal))
        (IsLive generation batch × (raw ≡ true))
      × (Says
            (query_transfer_signal true
              (some (pos r))
              (asked s generation batch raw h transfer_signal_round))
            (IsLive generation batch × ((c : ℕ) × ((h.transfer_signal_round ≡ some c) × (r ≤ c))))
          × (Says
                (query_transfer_request true
                  (pos r)
                  (asked s generation batch raw h (transfer_request_round d)))
                (IsLive generation batch × (h.transfer_request_round d ≡ some r))
              × ((query_transfer_signal true
                      (some (pos r))
                      (with_error e (asked s generation batch raw h transfer_signal_round))
                    ≡ raises runtime_error)
                  × (query_transfer_request true
                        (pos r)
                        (with_error e (asked s generation batch raw h (transfer_request_round d)))
                      ≡ raises runtime_error))))
unfolding query_transfer_signal query_transfer_request answer_of
query_transfer_signal-handle_query_status s generation batch raw h r e d =
    let (signal, completion, request) = answers_with s generation batch raw h r d in
    let live = is_live-IsLive generation batch in
    (
      both_say _ (is_live generation batch) raw signal live (λ e. e, λ e. e),
      (
        both_say _ (is_live generation batch) (reaches h.transfer_signal_round (pos r)) completion
            live (reaches_iff h.transfer_signal_round r),
        (
          both_say _ (is_live generation batch) (is_round (h.transfer_request_round d) (pos r))
              request live (is_round_iff (h.transfer_request_round d) r),
          (refl, refl),
        ),
      ),
    )
