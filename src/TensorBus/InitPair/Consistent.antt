-- ===== src/TensorBus/InitPair/Consistent.antt =====
-- The pending pairs of InitPair in agent.py and the keys in the store.
use etha.Prelude.{
  pair_eq, nat_beq, nat_beq_iff, ℕ, ◌≡◌, refl, subst, ◌≢◌, ◌⊎◌, inl, inr, Bool, true, false, ◌&&◌,
  Option, none, some, arith, ◌==◌, nat_eq, list_eq, if◌then◌else◌, Bool-cases, Option-cases,
}
use etha.Prelude.Dict.{lookup, insert, lookup-insert}
use etha.TensorBus.InitPair.{
  InitPair, Registry, Agent, Pending, Handled, check_matched, check_pending, write_side,
  write_expected, write_layout, both_given, conflicts, write_init_pair_keys, add_semaphore,
  set_default, begin_pair, release, with_pending, handle_matched, handle_first, handle_again,
  handle_init_pair,
}

-- The size that a rank keeps for a side of a pending pair is the one it wrote in the store, where the
-- rank is registered.
abbrev pub Recorded : ℕ → Registry → ℕ → Pending → Type 0
Recorded rank g pair p =
    (name n : ℕ) → lookup name p.expected ≡ some n → g.store.sides pair name rank ≡ (true, some n)

abbrev pub IsConsistent : Agent → Registry → Type 0
IsConsistent a g =
    (pair : ℕ) (p : Pending) → lookup pair a.pending_pairs ≡ some p → Recorded a.rank g pair p

abbrev pub is_own : ℕ → InitPair → ℕ → ℕ → ℕ → Bool
is_own rank msg pair name r = pair == msg.pair_name && (name == msg.local_name && r == rank)

sides-write_init_pair_keys :
    (rank : ℕ) (msg : InitPair) (g : Registry) (pair name r : ℕ)
    → (write_init_pair_keys rank msg g).0.store.sides pair name r ≡ (
        if is_own rank msg pair name r
        then (true, some msg.expected_world_size)
        else g.store.sides pair name r)
unfolding write_init_pair_keys write_side write_expected write_layout
sides-write_init_pair_keys rank msg g pair name r =
    elim (Bool-cases
      (conflicts msg.expected_world_size (g.expected_world_size msg.pair_name msg.local_name))) [
        | inl bad ↦ rw bad refl
        | inr good ↦ elim (Bool-cases (both_given msg)) [
          | inl given ↦ rw (good, given) refl
          | inr bare ↦ rw (good, bare) refl
        ]
      ]

-- The writes keep what is recorded of a pending pair whose size for the side is the message's.
Recorded-write :
    (rank : ℕ) (msg : InitPair) (g : Registry) (pair : ℕ) (p : Pending)
    → ((n : ℕ)
        → pair ≡ msg.pair_name
        → lookup msg.local_name p.expected ≡ some n
        → n ≡ msg.expected_world_size)
    → Recorded rank g pair p
    → Recorded rank (write_init_pair_keys rank msg g).0 pair p
Recorded-write rank msg g pair p fits h name n e =
    elim (Bool-cases (is_own rank msg pair name rank)) [
      | inl own ↦
          let is_pair : pair ≡ msg.pair_name =
            ground (arith, own, nat_beq_iff pair msg.pair_name) in
          let is_name : name ≡ msg.local_name =
            ground (arith, own, nat_beq_iff name msg.local_name) in
          let same : n ≡ msg.expected_world_size = fits n is_pair (rw (← is_name) e) in
          rw (sides-write_init_pair_keys rank msg g pair name rank, own, same) refl
      | inr other ↦ rw (sides-write_init_pair_keys rank msg g pair name rank, other) (h name n e)
    ]

module _ (msg : InitPair) (a : Agent) (g : Registry) where
  abbrev pub written : Registry
  written = (write_init_pair_keys a.rank msg g).0

  -- A size that is pending for the side already is the message's.
  abbrev pub Fits : Type 0
  Fits =
      (p : Pending) (n : ℕ)
      → lookup msg.pair_name a.pending_pairs ≡ some p
      → lookup msg.local_name p.expected ≡ some n
      → n ≡ msg.expected_world_size

  -- The sizes of a new pending pair: the message's, and those that were pending.
  abbrev pub Extends : Pending → Type 0
  Extends p =
      (name n : ℕ)
      → lookup name p.expected ≡ some n
      → ((name ≡ msg.local_name) × (n ≡ msg.expected_world_size))
        ⊎ ((name ≢ msg.local_name)
            × ((old : Pending) × (lookup msg.pair_name a.pending_pairs ≡ some old)
                × (lookup name old.expected ≡ some n)))

  -- What the handler can leave.
  pub data Shape : Handled → Type 0 where
    kept :
        {h : Handled}
        → h.agent.pending_pairs ≡ a.pending_pairs
        → h.agent.rank ≡ a.rank
        → h.registry ≡ g
        → Shape h
    raised : {h : Handled} → h.agent ≡ a → h.registry ≡ written → Fits → Shape h
    stored :
        {h : Handled} (p : Pending)
        → h.agent ≡ with_pending msg.pair_name p a
        → h.registry.store.sides ≡ written.store.sides
        → Fits
        → Extends p
        → Shape h

  same_after_release :
      (s : Option ℕ)
      → ((release s a).pending_pairs ≡ a.pending_pairs) × ((release s a).rank ≡ a.rank)
  same_after_release none = (refl, refl)
  same_after_release (some s) = (refl, refl)

  handle_matched-Shape : (loads : ℕ → Option ℕ) (p : _) → Shape (handle_matched loads msg p a g)
  unfolding handle_matched
  handle_matched-Shape loads p =
      let (pending, rank) = same_after_release msg.semaphore_name in
      elim (Option-cases
        (check_matched loads msg p (g.layouts msg.pair_name msg.local_name a.rank))) [
          | inl fine ↦ rw (handle_matched, fine) (kept pending rank refl)
          | inr (e, bad) ↦ rw (handle_matched, bad) (kept refl refl refl)
        ]

  handle_first-Shape : lookup msg.pair_name a.pending_pairs ≡ none → Shape (handle_first msg a g)
  unfolding handle_first add_semaphore
  handle_first-Shape nothing =
      let fits : Fits = λ p n e h. ground (arith, nothing, e) in
      elim (Option-cases (write_init_pair_keys a.rank msg g).1) [
        | inl fine ↦
            rw (handle_first, fine)
              (stored (add_semaphore msg.local_name msg.semaphore_name (begin_pair msg)) refl refl
                fits (λ name n e. inl (ground (arith, nat_beq_iff name msg.local_name))))
        | inr (e, bad) ↦ rw (handle_first, bad) (raised refl refl fits)
      ]

  check_pending-Fits :
      (p : Pending) (n : ℕ)
      → check_pending msg p ≡ none
      → lookup msg.local_name p.expected ≡ some n
      → n ≡ msg.expected_world_size
  unfolding check_pending
  check_pending-Fits p n h e = ground (arith, h, e, nat_beq_iff n msg.expected_world_size)

  set_default-Extends :
      (p : Pending) (name n : ℕ)
      → lookup msg.pair_name a.pending_pairs ≡ some p
      → check_pending msg p ≡ none
      → lookup name (set_default msg.local_name msg.expected_world_size p.expected) ≡ some n
      → ((name ≡ msg.local_name) × (n ≡ msg.expected_world_size))
        ⊎ ((name ≢ msg.local_name)
            × ((old : Pending) × (lookup msg.pair_name a.pending_pairs ≡ some old)
                × (lookup name old.expected ≡ some n)))
  set_default-Extends p name n at fine e =
      let key : ℕ = msg.local_name in
      let size : ℕ = msg.expected_world_size in
      elim (Option-cases (lookup key p.expected)) [
        | inl fresh ↦
            let found : lookup name (insert key size p.expected) ≡ some n =
              subst
                (λ (o : Option ℕ).
                  lookup name (elim o [ none ↦ insert key size p.expected | some w ↦ p.expected ])
                  ≡ some n)
                fresh e in
            elim (Bool-cases (nat_beq name key)) [
              | inl same ↦
                  let is : name ≡ key = (nat_beq_iff name key).0 same in
                  inl (is, ground (arith, found, lookup-insert key name size p.expected, same))
              | inr other ↦ inr (
                λ is. ground (arith, other, nat_beq_iff name key),
                (p, at, ground (arith, found, lookup-insert key name size p.expected, other)),
              )
            ]
        | inr (w, known) ↦
            let found : lookup name p.expected ≡ some n =
              subst
                (λ (o : Option ℕ).
                  lookup name (elim o [ none ↦ insert key size p.expected | some w ↦ p.expected ])
                  ≡ some n)
                known e in
            elim (Bool-cases (nat_beq name key)) [
              | inl same ↦
                  let is : name ≡ key = (nat_beq_iff name key).0 same in
                  inl (
                    is,
                    check_pending-Fits p n fine
                        (subst (λ (k : ℕ). lookup k p.expected ≡ some n) is found),
                  )
              | inr other ↦ inr (λ is. ground (arith, other, nat_beq_iff name key), (p, at, found))
            ]
      ]

  handle_again-Shape :
      (p : Pending) → lookup msg.pair_name a.pending_pairs ≡ some p → Shape (handle_again msg p a g)
  unfolding handle_again
  handle_again-Shape p at = elim (Option-cases (check_pending msg p)) [
    | inr (e, bad) ↦ rw (handle_again, bad) (kept refl refl refl)
    | inl good ↦
        let fits : Fits = λ q n e h.
          let same : q ≡ p = ground (arith, at, e) in
          check_pending-Fits p n good
            (subst (λ (r : Pending). lookup msg.local_name r.expected ≡ some n) same h) in
        elim (Option-cases (write_init_pair_keys a.rank msg g).1) [
          | inl fine ↦
              let expected = set_default msg.local_name msg.expected_world_size p.expected in
              rw (handle_again, good, fine)
                (stored
                  (add_semaphore msg.local_name msg.semaphore_name
                    (record p { expected = expected }))
                  refl refl fits (λ name n e. set_default-Extends p name n at good e))
          | inr (e, bad) ↦ rw (handle_again, good, bad) (raised refl refl fits)
        ]
  ]

  pub handle_init_pair-Shape : (loads : ℕ → Option ℕ) → Shape (handle_init_pair loads msg a g)
  unfolding handle_init_pair
  handle_init_pair-Shape loads = elim (Option-cases (lookup msg.pair_name a.pairs)) [
    | inr (p, matched) ↦ rw (handle_init_pair, matched) (handle_matched-Shape loads p)
    | inl unmatched ↦ elim (Option-cases (lookup msg.pair_name a.pending_pairs)) [
      | inl new ↦ rw (handle_init_pair, unmatched, new) (handle_first-Shape new)
      | inr (p, old) ↦ rw (handle_init_pair, unmatched, old) (handle_again-Shape p old)
    ]
  ]

  sides-written_other :
      (pair name r : ℕ)
      → is_own a.rank msg pair name r ≡ false
      → written.store.sides pair name r ≡ g.store.sides pair name r
  sides-written_other pair name r other =
      rw (sides-write_init_pair_keys a.rank msg g pair name r, other) refl

  sides-written_own :
      (name n : ℕ)
      → name ≡ msg.local_name
      → n ≡ msg.expected_world_size
      → written.store.sides msg.pair_name name a.rank ≡ (true, some n)
  sides-written_own name n is size =
      let own : is_own a.rank msg msg.pair_name name a.rank ≡ true = ground (
        arith,
        nat_beq_iff msg.pair_name msg.pair_name,
        nat_beq_iff name msg.local_name,
        nat_beq_iff a.rank a.rank,
      ) in
      rw (sides-write_init_pair_keys a.rank msg g msg.pair_name name a.rank, own, size) refl

  is_own_other : (pair name r : ℕ) → r ≢ a.rank → is_own a.rank msg pair name r ≡ false
  is_own_other pair name r ne = ground (arith, nat_beq_iff r a.rank)

  stored_sides :
      (p : Pending)
      → Fits
      → Extends p
      → IsConsistent a g
      → (pair : ℕ) (r : Pending) → lookup pair (insert msg.pair_name p a.pending_pairs) ≡ some r
      → Recorded a.rank (record g { store = written.store }) pair r
  stored_sides p f x c pair r at name n en = elim (Bool-cases (nat_beq pair msg.pair_name)) [
    | inl same ↦
        let is : pair ≡ msg.pair_name = (nat_beq_iff pair msg.pair_name).0 same in
        let new : p ≡ r =
          ground (arith, at, lookup-insert msg.pair_name pair p a.pending_pairs, same) in
        rw is (elim (x name n (rw new en)) [
          | inl (own, size) ↦ sides-written_own name n own size
          | inr (ne, (old, at_old, en_old)) ↦
              rw
                (sides-written_other msg.pair_name name a.rank
                  (ground (arith, ne, nat_beq_iff name msg.local_name)))
                (c msg.pair_name old at_old name n en_old)
        ])
    | inr other ↦
        let before : lookup pair a.pending_pairs ≡ some r =
          ground (arith, at, lookup-insert msg.pair_name pair p a.pending_pairs, other) in
        rw (sides-written_other pair name a.rank (ground (arith, other)))
          (c pair r before name n en)
  ]

  -- The writes of a rank do not touch what the others wrote.
  pub sides-Shape :
      (h : Handled)
      → Shape h
      → (pair name r : ℕ) → r ≢ a.rank
      → h.registry.store.sides pair name r ≡ g.store.sides pair name r
  sides-Shape h (kept p r e) pair name rank ne = rw e refl
  sides-Shape h (raised p e f) pair name rank ne =
      rw e (sides-written_other pair name rank (is_own_other pair name rank ne))
  sides-Shape h (stored p q e f x) pair name rank ne =
      rw e (sides-written_other pair name rank (is_own_other pair name rank ne))

  pub IsConsistent-Shape :
      (h : Handled) → Shape h → IsConsistent a g → IsConsistent h.agent h.registry
  IsConsistent-Shape h (kept p r e) c = rw (p, r, e) c
  IsConsistent-Shape h (raised p e f) c =
      rw (p, e)
        (λ pair q at.
          Recorded-write a.rank msg g pair q
            (λ n is en. f q n (subst (λ k. lookup k a.pending_pairs ≡ some q) is at) en)
            (c pair q at))
  IsConsistent-Shape h (stored p q e f x) c = rw (q, e) (stored_sides p f x c)
