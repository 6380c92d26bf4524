-- ===== src/TensorBus/Handlers/Once.antt =====
-- No round of a direction runs twice, and none runs after a later one.
use etha.Prelude.{
  pair_eq, ℕ, ◌<◌, ◌≡◌, refl, inl, inr, false, ◌||◌, not, Option, none, some, List, [], ◌∷◌, arith,
  ltb, ◌==◌, nat_eq, list_eq, if◌then◌else◌, Bool-cases, length,
}
use etha.Prelude.Dict.{lookup, lookup-insert}
use etha.TensorBus.Rounds.{
  ℤ, pos, negsuc, invalid_registration, Direction, Key, Round, Transfer, Event, executed,
  recorded_error, released, Session, Outcome, finished, parked, failed, release_all, fail_all,
  is_done, pending_at, publish_transfer_request, acknowledge, fail_round, execute, complete_round,
  request_first, join_round, run_round, elem, all_equal, other_names,
}
use etha.TensorBus.Handlers.{
  pin_from, pin_direction, run_pinned, run_direction, run_role, run_member, execute_dual_transfer,
  handle_transfer, settle, execute_transfer, run, other_role, direction_of, is_stale,
}

-- The rounds of a direction that ran, the last one first.
abbrev pub rounds : Direction → List Event → List ℕ
rounds d [] = []
rounds d (executed e r buckets ∷ log) = if d == e then r ∷ rounds d log else rounds d log
rounds d (_ ∷ log) = rounds d log

abbrev pub first : List ℕ → Round
first [] = none
first (r ∷ rs) = some r

-- Each round is later than the one before it.
abbrev pub Descends : List ℕ → Type 0
Descends [] = Unit {0}
Descends (r ∷ []) = Unit {0}
Descends (r ∷ q ∷ rs) = (q < r) × Descends (q ∷ rs)

-- The round that the batch keeps as done is the last one that ran.
abbrev pub IsMonotone : Direction → Session → Type 0
IsMonotone d s =
    (lookup d s.batch.dual_direction_done ≡ first (rounds d s.hub.log))
    × Descends (rounds d s.hub.log)

abbrev session_of : Outcome → Session
session_of (finished s) = s
session_of (parked s) = s
session_of (failed e s) = s

rounds-release_all :
    (d : Direction) (ss : List ℕ) (log : List Event) → rounds d (release_all ss log) ≡ rounds d log
unfolding release_all
rounds-release_all d [] log = refl
rounds-release_all d (s ∷ ss) log = rounds-release_all d ss (released s ∷ log)

rounds-fail_all :
    (d : Direction) (ss : List ℕ) (log : List Event) → rounds d (fail_all ss log) ≡ rounds d log
unfolding fail_all
rounds-fail_all d [] log = refl
rounds-fail_all d (s ∷ ss) log = rounds-fail_all d ss (released s ∷ recorded_error s ∷ log)

Descends-cons :
    (r : ℕ) (rs : List ℕ) → is_done r (first rs) ≡ false → Descends rs → Descends (r ∷ rs)
Descends-cons r [] n h = tt
Descends-cons r (q ∷ rs) n h = (ground arith, h)

acknowledge-IsMonotone :
    (d : Direction) (k : Key) (s : Session) → IsMonotone d s → IsMonotone d (acknowledge k s)
unfolding acknowledge
acknowledge-IsMonotone d k s h =
    rw (rounds-release_all d (pending_at k s.batch.dual_round_pending).semaphores s.hub.log) h

fail_round-IsMonotone :
    (d : Direction) (k : Key) (name : Option ℕ) (s : Session)
    → IsMonotone d s
    → IsMonotone d (session_of (fail_round k name s))
unfolding fail_round
fail_round-IsMonotone d (e, r) name s h =
    let names : List ℕ =
      other_names (pending_at (e, r) s.batch.dual_round_pending).semaphores name in
    elim (Bool-cases (s.rank == s.batch.local_leader)) [
      | inl leads ↦ rw (leads, rounds-fail_all d names s.hub.log) h
      | inr fails ↦ rw (fails, rounds-fail_all d names s.hub.log) h
    ]

execute-IsMonotone :
    (d : Direction) (k : Key) (buckets : List ℕ) (s : Session)
    → is_done k.1 (lookup k.0 s.batch.dual_direction_done) ≡ false
    → IsMonotone d s
    → IsMonotone d (execute k buckets s)
unfolding execute
execute-IsMonotone d (e, r) buckets s n h =
    let names : List ℕ = (pending_at (e, r) s.batch.dual_round_pending).semaphores in
    elim (Bool-cases (d == e)) [
      | inl same ↦
          rw
            (
              rounds-release_all d names (executed e r buckets ∷ s.hub.log),
              lookup-insert e d r s.batch.dual_direction_done,
              same,
            )
            (
              refl,
              Descends-cons r (rounds d s.hub.log) (rw (← h.0, (pair_eq.beq_iff d e).0 same) n) h.1,
            )
      | inr other ↦
          rw
            (
              rounds-release_all d names (executed e r buckets ∷ s.hub.log),
              lookup-insert e d r s.batch.dual_direction_done,
              other,
            )
            h
    ]

complete_round-IsMonotone :
    (d : Direction) (seen : List ℕ) (k : Key) (name : Option ℕ) (buckets : Option (Option (List ℕ)))
    (s : Session)
    → is_done k.1 (lookup k.0 s.batch.dual_direction_done) ≡ false
    → IsMonotone d s
    → IsMonotone d (session_of (complete_round seen k name buckets s))
unfolding complete_round
complete_round-IsMonotone d seen k name none s n h = fail_round-IsMonotone d k name s h
complete_round-IsMonotone d seen k name (some none) s n h = fail_round-IsMonotone d k name s h
complete_round-IsMonotone d seen k name (some (some buckets)) s n h =
    elim (Bool-cases (all_equal k.1 seen)) [
      | inl leads ↦ rw leads (execute-IsMonotone d k buckets s n h)
      | inr fails ↦ rw fails (fail_round-IsMonotone d k name s h)
    ]

request_first-IsMonotone :
    (d : Direction) (roles : List ℕ) (k : Key) (s : Session)
    → IsMonotone d s
    → IsMonotone d (request_first roles k s)
      × ((request_first roles k s).batch.dual_direction_done ≡ s.batch.dual_direction_done)
unfolding request_first publish_transfer_request
request_first-IsMonotone d (x ∷ roles) k s h = (h, refl)
request_first-IsMonotone d [] (e, r) s h =
    elim (Bool-cases
      (not (s.rank == s.batch.local_leader) || is_done r (s.hub.transfer_request_round e))) [
        | inl keeps ↦ rw keeps (h, refl)
        | inr writes ↦ rw writes (h, refl)
      ]

run_round-IsMonotone :
    (d : Direction) (seen : List ℕ) (k : Key) (role : ℕ) (name : Option ℕ) (s : Session)
    → IsMonotone d s
    → IsMonotone d (session_of (run_round seen k role name s))
unfolding run_round join_round
run_round-IsMonotone d seen k role name s h =
    let (kept, same) =
      request_first-IsMonotone d (pending_at k s.batch.dual_round_pending).roles k s h in
    let s' : Session = join_round k role name s in
    elim (Bool-cases (is_done k.1 (lookup k.0 s.batch.dual_direction_done))) [
      | inl old ↦ rw old (acknowledge-IsMonotone d k s h)
      | inr new ↦
          rw new
            (elim (Bool-cases (ltb (length (pending_at k s'.batch.dual_round_pending).roles) 2)) [
              | inl alone ↦ rw alone kept
              | inr both ↦ rw both (
                  complete_round-IsMonotone d seen k name
                    (lookup k.0 s'.batch.dual_direction_buckets) s' (rw same new) kept)
            ])
    ]

pin_from-IsMonotone :
    (d : Direction) (o : Option Direction) (e : Direction) (s : Session)
    → IsMonotone d s
    → IsMonotone d (pin_from o e s)
unfolding pin_from
pin_from-IsMonotone d none e s h = h
pin_from-IsMonotone d (some p) e s h = h

run_pinned-IsMonotone :
    (d : Direction) (seen : List ℕ) (k : Key) (role : ℕ) (name : Option ℕ) (o : Option Direction)
    (s : Session)
    → IsMonotone d s
    → IsMonotone d (session_of (run_pinned seen k role name o s))
unfolding run_pinned
run_pinned-IsMonotone d seen k role name none s h = h
run_pinned-IsMonotone d seen k role name (some pinned) s h = elim (Bool-cases (k.0 == pinned)) [
  | inl same ↦ rw same (run_round-IsMonotone d seen k role name s h)
  | inr other ↦ rw other h
]

run_direction-IsMonotone :
    (d : Direction) (seen : List ℕ) (e : Direction) (round : ℤ) (role : ℕ) (name : Option ℕ)
    (s : Session)
    → IsMonotone d s
    → IsMonotone d (session_of (run_direction seen e round role name s))
unfolding run_direction pin_direction
run_direction-IsMonotone d seen e (negsuc n) role name s h = h
run_direction-IsMonotone d seen e (pos r) role name s h =
    let s' : Session = pin_from s.batch.dual_direction e s in
    run_pinned-IsMonotone d seen (e, r) role name s'.batch.dual_direction s'
      (pin_from-IsMonotone d s.batch.dual_direction e s h)

run_role-IsMonotone :
    (d : Direction) (seen : List ℕ) (m : Transfer) (role : ℕ) (o : Option ℕ) (s : Session)
    → IsMonotone d s
    → IsMonotone d (session_of (run_role seen m role o s))
unfolding run_role
run_role-IsMonotone d seen m role none s h = h
run_role-IsMonotone d seen m role (some other) s h =
    run_direction-IsMonotone d seen (direction_of m.transfer_type role other) m.sync_round role
      m.semaphore_name s h

run_member-IsMonotone :
    (d : Direction) (seen : List ℕ) (m : Transfer) (o : Option ℕ) (s : Session)
    → IsMonotone d s
    → IsMonotone d (session_of (run_member seen m o s))
unfolding run_member
run_member-IsMonotone d seen m none s h = h
run_member-IsMonotone d seen m (some role) s h = elim (Bool-cases (elem role s.batch.role_ranks)) [
  | inl peer ↦ rw peer (run_role-IsMonotone d seen m role (other_role role s.batch.role_ranks) s h)
  | inr stranger ↦ rw stranger h
]

settle-IsMonotone :
    (d : Direction) (name : Option ℕ) (o : Outcome)
    → IsMonotone d (session_of o)
    → IsMonotone d (settle name o)
unfolding settle
settle-IsMonotone d none (finished s) h = h
settle-IsMonotone d (some name) (finished s) h = h
settle-IsMonotone d none (parked s) h = h
settle-IsMonotone d (some name) (parked s) h = h
settle-IsMonotone d none (failed e s) h = rw (rounds-fail_all d [] s.hub.log) h
settle-IsMonotone d (some name) (failed e s) h = rw (rounds-fail_all d (name ∷ []) s.hub.log) h

execute_transfer-IsMonotone :
    (d : Direction) (seen : List ℕ) (m : Transfer) (s : Session)
    → IsMonotone d s
    → IsMonotone d (execute_transfer seen m s)
unfolding execute_transfer handle_transfer execute_dual_transfer
execute_transfer-IsMonotone d seen m s h =
    elim (Bool-cases (is_stale m.generation s.batch.generation)) [
      | inl stale ↦
          rw stale (settle-IsMonotone d m.semaphore_name (failed invalid_registration s) h)
      | inr live ↦ rw live (
          settle-IsMonotone d m.semaphore_name (run_member seen m m.role s)
            (run_member-IsMonotone d seen m m.role s h))
    ]

-- Let the round that a batch keeps as done for a direction be the last round of it that ran, and
-- the rounds that ran be ascending. After any sequence of Transfer commands, whatever their roles,
-- rounds, generations and semaphores and whatever the ranks gather, that still holds: no round of
-- the direction runs twice, and none after a later one.
pub run-IsMonotone :
    (d : Direction) (ms : List (List ℕ × Transfer)) (s : Session)
    → IsMonotone d s
    → IsMonotone d (run ms s)
unfolding run
run-IsMonotone d [] s h = h
run-IsMonotone d ((seen, m) ∷ ms) s h =
    run-IsMonotone d ms (execute_transfer seen m s) (execute_transfer-IsMonotone d seen m s h)
