-- ===== src/TensorBus/InitPair/Rejected.antt =====
-- What an InitPair of agent.py leaves alone.
use etha.Prelude.{
  pair_eq, ℕ, ◌≡◌, refl, ◌≢◌, ◌⊎◌, inl, inr, Option, none, nat_eq, list_eq, Option-cases,
}
use etha.Prelude.Dict.{lookup}
use etha.TensorBus.InitPair.{
  InitPair, Registry, Agent, MatchedPair, Pending, Handled, check_matched, check_pending,
  write_init_pair_keys, handle_matched, handle_first, handle_again, handle_init_pair,
}

module _ (loads : ℕ → Option ℕ) (msg : InitPair) (a : Agent) (g : Registry) where
  -- How an InitPair that raises leaves the agent and the store: the agent as it was; the store too, or,
  -- if the pair is not matched, with the keys that were written before the error.
  abbrev pub LeavesAlone : Handled → Type 0
  LeavesAlone h =
      (h.agent ≡ a)
      × ((h.registry ≡ g)
          ⊎ ((lookup msg.pair_name a.pairs ≡ none)
              × (h.registry ≡ (write_init_pair_keys a.rank msg g).0)))

  Rejects : Handled → Type 0
  Rejects h = h.problem ≢ none → LeavesAlone h

  handle_matched-Rejects : (p : MatchedPair) → Rejects (handle_matched loads msg p a g)
  unfolding handle_matched Rejects
  handle_matched-Rejects p =
      elim (Option-cases
        (check_matched loads msg p (g.layouts msg.pair_name msg.local_name a.rank))) [
          | inl fine ↦ rw (handle_matched, fine) (λ bad. absurd (bad refl))
          | inr (e, bad) ↦ rw (handle_matched, bad) (λ b. (refl, inl refl))
        ]

  handle_first-Rejects : lookup msg.pair_name a.pairs ≡ none → Rejects (handle_first msg a g)
  unfolding handle_first Rejects
  handle_first-Rejects new = elim (Option-cases (write_init_pair_keys a.rank msg g).1) [
    | inl fine ↦ rw (handle_first, fine) (λ bad. absurd (bad refl))
    | inr (e, bad) ↦ rw (handle_first, bad) (λ b. (refl, inr (new, refl)))
  ]

  handle_again-Rejects :
      (p : Pending) → lookup msg.pair_name a.pairs ≡ none → Rejects (handle_again msg p a g)
  unfolding handle_again Rejects
  handle_again-Rejects p new = elim (Option-cases (check_pending msg p)) [
    | inr (e, bad) ↦ rw (handle_again, bad) (λ b. (refl, inl refl))
    | inl good ↦ elim (Option-cases (write_init_pair_keys a.rank msg g).1) [
      | inl fine ↦ rw (handle_again, good, fine) (λ bad. absurd (bad refl))
      | inr (e, bad) ↦ rw (handle_again, good, bad) (λ b. (refl, inr (new, refl)))
    ]
  ]

  handle_init_pair-Rejects : Rejects (handle_init_pair loads msg a g)
  unfolding handle_init_pair
  handle_init_pair-Rejects = elim (Option-cases (lookup msg.pair_name a.pairs)) [
    | inr (p, matched) ↦ rw (handle_init_pair, matched) (handle_matched-Rejects p)
    | inl new ↦ elim (Option-cases (lookup msg.pair_name a.pending_pairs)) [
      | inl none_pending ↦ rw (handle_init_pair, new, none_pending) (handle_first-Rejects new)
      | inr (p, old) ↦ rw (handle_init_pair, new, old) (handle_again-Rejects p new)
    ]
  ]

  -- An InitPair that raises leaves the agent as it was, its pending pairs included, and releases
  -- nothing; the store is as it was too, unless the pair is not matched and the error came after the
  -- keys were written.
  pub handle_init_pair-LeavesAlone :
      (handle_init_pair loads msg a g).problem ≢ none → LeavesAlone (handle_init_pair loads msg a g)
  unfolding Rejects
  handle_init_pair-LeavesAlone = handle_init_pair-Rejects
