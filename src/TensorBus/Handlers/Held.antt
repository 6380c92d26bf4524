-- ===== src/TensorBus/Handlers/Held.antt =====
-- Where a semaphore can be: released, or held by a round's entry.
use etha.Prelude.{
  or-true, pair_eq, ℕ, ◌≡◌, refl, ◌↔◌, ◌⊎◌, inl, inr, Bool, true, false, ◌||◌, Option, none, some,
  List, [], ◌∷◌, arith, ◌==◌, nat_eq, list_eq, if◌then◌else◌, Bool-cases,
}
use etha.Prelude.Dict.{Dict, insert, erase, lookup-insert, lookup-erase}
use etha.TensorBus.Rounds.{
  Key, Pending, Event, recorded_error, released, Session, release_all, fail_all, pending_at,
  append_name, elem, other_names,
}
use etha.TensorBus.Handlers.{named}

abbrev pub was_released : ℕ → List Event → Bool
was_released x [] = false
was_released x (released y ∷ log) = x == y || was_released x log
was_released x (_ ∷ log) = was_released x log

-- Released, or among the semaphores of some round's entry.
abbrev pub IsHeld : ℕ → Dict Key Pending → List Event → Type 0
IsHeld x d log =
    (was_released x log ≡ true) ⊎ ((k : Key) × (elem x (pending_at k d).semaphores ≡ true))

abbrev pub IsAccounted : ℕ → Session → Type 0
IsAccounted x s = IsHeld x s.batch.dual_round_pending s.hub.log

pub was_released-release_all :
    (x : ℕ) (ss : List ℕ) (log : List Event)
    → was_released x (release_all ss log) ≡ (elem x ss || was_released x log)
unfolding release_all
was_released-release_all x [] log = refl
was_released-release_all x (s ∷ ss) log =
    ground (arith, was_released-release_all x ss (released s ∷ log))

pub was_released-fail_all :
    (x : ℕ) (ss : List ℕ) (log : List Event)
    → was_released x (fail_all ss log) ≡ (elem x ss || was_released x log)
unfolding fail_all
was_released-fail_all x [] log = refl
was_released-fail_all x (s ∷ ss) log =
    ground (arith, was_released-fail_all x ss (released s ∷ recorded_error s ∷ log))

elem-other_names :
    (x : ℕ) (names : List ℕ) (name : Option ℕ)
    → elem x names ≡ true
    → (elem x (named name) || elem x (other_names names name)) ≡ true
elem-other_names x names none h = h
elem-other_names x [] (some s) h = cc
elem-other_names x (n ∷ names) (some s) h = ground (arith, elem-other_names x names (some s))

pub other_names-or :
    (x : ℕ) (names : List ℕ) (name : Option ℕ) (w : Bool)
    → elem x (named name) ≡ false
    → (elem x names || w) ≡ true
    → (elem x (other_names names name) || w) ≡ true
other_names-or x names name w mine h = elim (Bool-cases (elem x names)) [
  | inl there ↦
      let rest : elem x (other_names names name) ≡ true =
        rw mine at (elem-other_names x names name there) in
      rw rest refl
  | inr away ↦ let w' : w ≡ true = rw away at h in rw w' (or-true (elem x (other_names names name)))
]

key_beq_iff : (j k : Key) → ((j == k) ≡ true) ↔ (j ≡ k)
key_beq_iff j k = pair_eq.beq_iff j k

pub elem-append_name :
    (x : ℕ) (names : List ℕ) (name : Option ℕ)
    → elem x (append_name names name) ≡ (elem x names || elem x (named name))
elem-append_name x names none = ground arith
elem-append_name x [] (some s) = refl
elem-append_name x (n ∷ names) (some s) = ground (arith, elem-append_name x names (some s))

-- What an entry held is still held elsewhere, or it was that entry.
pending_at-erase :
    (k j : Key) (d : Dict Key Pending)
    → pending_at j (erase k d)
      ≡ (if j == k then record { roles = []; semaphores = [] } else pending_at j d)
pending_at-erase k j d = ground (arith, lookup-erase k j d)

pending_at-insert :
    (k j : Key) (p : Pending) (d : Dict Key Pending)
    → pending_at j (insert k p d) ≡ (if j == k then p else pending_at j d)
pending_at-insert k j p d = ground (arith, lookup-insert k j p d)

pub erase-IsHeld :
    (x : ℕ) (k : Key) (d : Dict Key Pending) (log log' : List Event)
    → ((elem x (pending_at k d).semaphores || was_released x log) ≡ true
        → was_released x log' ≡ true)
    → IsHeld x d log
    → IsHeld x (erase k d) log'
erase-IsHeld x k d log log' f (inl r) = inl (f (ground arith))
erase-IsHeld x k d log log' f (inr (j, e)) = elim (Bool-cases (j == k)) [
  | inl same ↦ inl (f (rw (← (key_beq_iff j k).0 same, e) refl))
  | inr other ↦ inr (j, rw (pending_at-erase k j d, other) e)
]

-- A command that joins a round leaves its semaphore there.
pub insert-IsHeld :
    (x : ℕ) (k : Key) (name : Option ℕ) (roles : List ℕ) (d : Dict Key Pending) (log : List Event)
    → (elem x (named name) ≡ true) ⊎ IsHeld x d log
    → IsHeld x
        (insert k
          (record { roles = roles; semaphores = append_name (pending_at k d).semaphores name })
          d)
        log
insert-IsHeld x k name roles d log (inl e) =
    let joined : Pending = record {
      roles = roles;
      semaphores = append_name (pending_at k d).semaphores name;
    } in
    let itself : (k == k) ≡ true = (key_beq_iff k k).1 refl in
    inr (
      k,
      rw
          (
            pending_at-insert k k joined d,
            itself,
            elem-append_name x (pending_at k d).semaphores name,
            e,
          )
          (ground arith),
    )
insert-IsHeld x k name roles d log (inr (inl r)) = inl r
insert-IsHeld x k name roles d log (inr (inr (j, e))) =
    let joined : Pending = record {
      roles = roles;
      semaphores = append_name (pending_at k d).semaphores name;
    } in
    elim (Bool-cases (j == k)) [
      | inl same ↦ inr (
        j,
        rw
            (
              pending_at-insert k j joined d,
              same,
              elem-append_name x (pending_at k d).semaphores name,
              ← (key_beq_iff j k).0 same,
              e,
            )
            refl,
      )
      | inr other ↦ inr (j, rw (pending_at-insert k j joined d, other) e)
    ]
