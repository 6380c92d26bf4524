-- ===== src/TensorBus/Handlers/Parked.antt =====
-- No Transfer command's semaphore is forgotten: it is released, or parked under a round.
use etha.Prelude.{
  pair_eq, ℕ, ◌≡◌, refl, ◌∙◌, ◌⊎◌, inl, inr, true, false, ◌||◌, not, Option, none, some, List, [],
  ◌∷◌, ◌++◌, arith, ltb, ◌==◌, nat_eq, list_eq, Bool-cases, length,
}
use etha.Prelude.Dict.{lookup, erase}
use etha.TensorBus.Rounds.{
  ℤ, pos, negsuc, invalid_registration, Direction, Key, Transfer, Pending, Event, executed, Session,
  Outcome, finished, parked, failed, release_all, fail_all, is_done, pending_at, add_role,
  publish_transfer_request, acknowledge, fail_round, execute, complete_round, request_first,
  join_round, run_round, elem, all_equal, other_names,
}
use etha.TensorBus.Handlers.{
  pin_from, pin_direction, run_pinned, run_direction, run_role, run_member, execute_dual_transfer,
  handle_transfer, settle, execute_transfer, run, other_role, direction_of, is_stale, named,
}
use etha.TensorBus.Handlers.Held.{
  was_released, IsHeld, IsAccounted, was_released-release_all, was_released-fail_all,
  other_names-or, erase-IsHeld, insert-IsHeld,
}

abbrev IsDue : ℕ → Option ℕ → Session → Type 0
IsDue x name s = (elem x (named name) ≡ true) ⊎ IsAccounted x s

-- What is due when the command of a semaphore `name` has ended in this way.
abbrev IsSettled : ℕ → Option ℕ → Outcome → Type 0
IsSettled x name (finished s) = IsDue x name s
IsSettled x name (parked s) = IsAccounted x s
IsSettled x name (failed e s) = IsDue x name s

acknowledge-IsDue :
    (x : ℕ) (k : Key) (name : Option ℕ) (s : Session)
    → IsDue x name s
    → IsDue x name (acknowledge k s)
unfolding acknowledge
acknowledge-IsDue x k name s (inl e) = inl e
acknowledge-IsDue x k name s (inr h) =
    let names : List ℕ = (pending_at k s.batch.dual_round_pending).semaphores in
    inr (
      erase-IsHeld x k s.batch.dual_round_pending s.hub.log (release_all names s.hub.log)
        (λ e. was_released-release_all x names s.hub.log ∙ e) h)

execute-IsAccounted :
    (x : ℕ) (k : Key) (buckets : List ℕ) (s : Session)
    → IsAccounted x s
    → IsAccounted x (execute k buckets s)
unfolding execute
execute-IsAccounted x (d, r) buckets s h =
    let names : List ℕ = (pending_at (d, r) s.batch.dual_round_pending).semaphores in
    let log : List Event = executed d r buckets ∷ s.hub.log in
    erase-IsHeld x (d, r) s.batch.dual_round_pending s.hub.log (release_all names log)
      (λ e. was_released-release_all x names log ∙ e) h

-- The command's own semaphore is due; the others of the round are released.
fail_round-IsSettled :
    (x : ℕ) (k : Key) (name : Option ℕ) (s : Session)
    → IsAccounted x s
    → IsSettled x name (fail_round k name s)
unfolding fail_round
fail_round-IsSettled x (d, r) name s h =
    let names : List ℕ = (pending_at (d, r) s.batch.dual_round_pending).semaphores in
    let others : List ℕ = other_names names name in
    let kept : (elem x (named name) ≡ false)
        → IsHeld x (erase (d, r) s.batch.dual_round_pending) (fail_all others s.hub.log) =
      λ mine.
        erase-IsHeld x (d, r) s.batch.dual_round_pending s.hub.log (fail_all others s.hub.log)
          (λ e.
            was_released-fail_all x others s.hub.log
            ∙ other_names-or x names name (was_released x s.hub.log) mine e)
          h in
    elim (Bool-cases (elem x (named name))) [
      | inl mine ↦ elim (Bool-cases (s.rank == s.batch.local_leader)) [
        | inl leads ↦ rw leads (inl mine)
        | inr follows ↦ rw follows (inl mine)
      ]
      | inr other ↦ elim (Bool-cases (s.rank == s.batch.local_leader)) [
        | inl leads ↦ rw leads (inr (kept other))
        | inr follows ↦ rw follows (inr (kept other))
      ]
    ]

complete_round-IsSettled :
    (x : ℕ) (seen : List ℕ) (k : Key) (name : Option ℕ) (buckets : Option (Option (List ℕ)))
    (s : Session)
    → IsAccounted x s
    → IsSettled x name (complete_round seen k name buckets s)
unfolding complete_round
complete_round-IsSettled x seen k name none s h = fail_round-IsSettled x k name s h
complete_round-IsSettled x seen k name (some none) s h = fail_round-IsSettled x k name s h
complete_round-IsSettled x seen k name (some (some buckets)) s h =
    elim (Bool-cases (all_equal k.1 seen)) [
      | inl agree ↦ rw agree (inr (execute-IsAccounted x k buckets s h))
      | inr mixed ↦ rw mixed (fail_round-IsSettled x k name s h)
    ]

request_first-IsHeld :
    (roles : List ℕ) (k : Key) (s : Session)
    → ((request_first roles k s).hub.log ≡ s.hub.log)
      × ((request_first roles k s).batch.dual_round_pending ≡ s.batch.dual_round_pending)
unfolding request_first publish_transfer_request
request_first-IsHeld (x ∷ roles) k s = (refl, refl)
request_first-IsHeld [] (d, r) s =
    elim (Bool-cases
      (not (s.rank == s.batch.local_leader) || is_done r (s.hub.transfer_request_round d))) [
        | inl keeps ↦ rw keeps (refl, refl)
        | inr writes ↦ rw writes (refl, refl)
      ]

join_round-IsAccounted :
    (x : ℕ) (k : Key) (role : ℕ) (name : Option ℕ) (s : Session)
    → IsDue x name s
    → IsAccounted x (join_round k role name s)
unfolding join_round
join_round-IsAccounted x k role name s h =
    let p : Pending = pending_at k s.batch.dual_round_pending in
    let (log, pending) = request_first-IsHeld p.roles k s in
    rw (log, pending)
      (insert-IsHeld x k name (add_role role p.roles) s.batch.dual_round_pending s.hub.log h)

run_round-IsSettled :
    (x : ℕ) (seen : List ℕ) (k : Key) (role : ℕ) (name : Option ℕ) (s : Session)
    → IsDue x name s
    → IsSettled x name (run_round seen k role name s)
unfolding run_round
run_round-IsSettled x seen k role name s h =
    let s' : Session = join_round k role name s in
    elim (Bool-cases (is_done k.1 (lookup k.0 s.batch.dual_direction_done))) [
      | inl old ↦ rw old (acknowledge-IsDue x k name s h)
      | inr new ↦
          rw new
            (elim (Bool-cases (ltb (length (pending_at k s'.batch.dual_round_pending).roles) 2)) [
              | inl alone ↦ rw alone (join_round-IsAccounted x k role name s h)
              | inr both ↦ rw both (
                  complete_round-IsSettled x seen k name
                    (lookup k.0 s'.batch.dual_direction_buckets) s'
                    (join_round-IsAccounted x k role name s h))
            ])
    ]

pin_from-IsDue :
    (x : ℕ) (name : Option ℕ) (o : Option Direction) (e : Direction) (s : Session)
    → IsDue x name s
    → IsDue x name (pin_from o e s)
unfolding pin_from
pin_from-IsDue x name none e s h = h
pin_from-IsDue x name (some p) e s h = h

run_pinned-IsSettled :
    (x : ℕ) (seen : List ℕ) (k : Key) (role : ℕ) (name : Option ℕ) (o : Option Direction)
    (s : Session)
    → IsDue x name s
    → IsSettled x name (run_pinned seen k role name o s)
unfolding run_pinned
run_pinned-IsSettled x seen k role name none s h = h
run_pinned-IsSettled x seen k role name (some pinned) s h = elim (Bool-cases (k.0 == pinned)) [
  | inl same ↦ rw same (run_round-IsSettled x seen k role name s h)
  | inr other ↦ rw other h
]

run_direction-IsSettled :
    (x : ℕ) (seen : List ℕ) (e : Direction) (round : ℤ) (role : ℕ) (name : Option ℕ) (s : Session)
    → IsDue x name s
    → IsSettled x name (run_direction seen e round role name s)
unfolding run_direction pin_direction
run_direction-IsSettled x seen e (negsuc n) role name s h = h
run_direction-IsSettled x seen e (pos r) role name s h =
    let s' : Session = pin_from s.batch.dual_direction e s in
    run_pinned-IsSettled x seen (e, r) role name s'.batch.dual_direction s'
      (pin_from-IsDue x name s.batch.dual_direction e s h)

run_role-IsSettled :
    (x : ℕ) (seen : List ℕ) (m : Transfer) (role : ℕ) (o : Option ℕ) (s : Session)
    → IsDue x m.semaphore_name s
    → IsSettled x m.semaphore_name (run_role seen m role o s)
unfolding run_role
run_role-IsSettled x seen m role none s h = h
run_role-IsSettled x seen m role (some other) s h =
    run_direction-IsSettled x seen (direction_of m.transfer_type role other) m.sync_round role
      m.semaphore_name s h

run_member-IsSettled :
    (x : ℕ) (seen : List ℕ) (m : Transfer) (o : Option ℕ) (s : Session)
    → IsDue x m.semaphore_name s
    → IsSettled x m.semaphore_name (run_member seen m o s)
unfolding run_member
run_member-IsSettled x seen m none s h = h
run_member-IsSettled x seen m (some role) s h = elim (Bool-cases (elem role s.batch.role_ranks)) [
  | inl peer ↦ rw peer (run_role-IsSettled x seen m role (other_role role s.batch.role_ranks) s h)
  | inr stranger ↦ rw stranger h
]

settle-IsAccounted :
    (x : ℕ) (name : Option ℕ) (o : Outcome) → IsSettled x name o → IsAccounted x (settle name o)
unfolding settle
settle-IsAccounted x none (finished s) (inl e) = cc
settle-IsAccounted x none (finished s) (inr h) = h
settle-IsAccounted x (some n) (finished s) (inl e) = inl (ground arith)
settle-IsAccounted x (some n) (finished s) (inr (inl e)) = inl (ground arith)
settle-IsAccounted x (some n) (finished s) (inr (inr p)) = inr p
settle-IsAccounted x none (parked s) h = h
settle-IsAccounted x (some n) (parked s) h = h
settle-IsAccounted x name (failed e s) (inl mine) =
    inl (rw (was_released-fail_all x (named name) s.hub.log, mine) refl)
settle-IsAccounted x name (failed e s) (inr (inl r)) =
    inl (rw (was_released-fail_all x (named name) s.hub.log, r) (ground arith))
settle-IsAccounted x name (failed e s) (inr (inr p)) = inr p

execute_transfer-IsAccounted :
    (x : ℕ) (seen : List ℕ) (m : Transfer) (s : Session)
    → IsDue x m.semaphore_name s
    → IsAccounted x (execute_transfer seen m s)
unfolding execute_transfer handle_transfer execute_dual_transfer
execute_transfer-IsAccounted x seen m s h =
    elim (Bool-cases (is_stale m.generation s.batch.generation)) [
      | inl stale ↦
          rw stale (settle-IsAccounted x m.semaphore_name (failed invalid_registration s) h)
      | inr live ↦ rw live (
          settle-IsAccounted x m.semaphore_name (run_member seen m m.role s)
            (run_member-IsSettled x seen m m.role s h))
    ]

-- The semaphores of a run's commands.
abbrev pub names_of : List (List ℕ × Transfer) → List ℕ
names_of [] = []
names_of ((seen, m) ∷ ms) = named m.semaphore_name ++ names_of ms

elem-append : (x : ℕ) (xs ys : List ℕ) → elem x (xs ++ ys) ≡ (elem x xs || elem x ys)
elem-append x [] ys = refl
elem-append x (y ∷ xs) ys = ground (arith, elem-append x xs ys)

run-keeps :
    (x : ℕ) (ms : List (List ℕ × Transfer)) (s : Session)
    → IsAccounted x s
    → IsAccounted x (run ms s)
unfolding run
run-keeps x [] s h = h
run-keeps x ((seen, m) ∷ ms) s h =
    run-keeps x ms (execute_transfer seen m s) (execute_transfer-IsAccounted x seen m s (inr h))

-- After any sequence of Transfer commands, the semaphore of each of them has been released or is
-- parked under a round.
pub run-IsAccounted :
    (x : ℕ) (ms : List (List ℕ × Transfer)) (s : Session)
    → elem x (names_of ms) ≡ true
    → IsAccounted x (run ms s)
unfolding run
run-IsAccounted x [] s h = cc
run-IsAccounted x ((seen, m) ∷ ms) s h = elim (Bool-cases (elem x (named m.semaphore_name))) [
  | inl mine ↦
      run-keeps x ms (execute_transfer seen m s)
        (execute_transfer-IsAccounted x seen m s (inl mine))
  | inr later ↦
      run-IsAccounted x ms (execute_transfer seen m s)
        (rw (elem-append x (named m.semaphore_name) (names_of ms), later) at h)
]
