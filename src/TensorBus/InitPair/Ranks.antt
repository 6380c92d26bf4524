-- ===== src/TensorBus/InitPair/Ranks.antt =====
-- InitPair commands of agent.py on all the ranks that share a store.
use etha.Prelude.{
  pair_eq, nat_beq, nat_beq_iff, ℕ, ◌≡◌, refl, ◌∙◌, ◌≢◌, inl, inr, Option, List, [], ◌∷◌, arith,
  ◌==◌, nat_eq, list_eq, if◌then◌else◌, Bool-cases,
}
use etha.TensorBus.InitPair.{InitPair, Registry, Agent, Handled, handle_init_pair}
use etha.TensorBus.InitPair.Consistent.{
  IsConsistent, Shape, kept, raised, stored, handle_init_pair-Shape, sides-Shape,
  IsConsistent-Shape,
}

-- The agents by rank, and their store.
pub record World : Type 0 where
  pub agents : ℕ → Agent
  pub registry : Registry

-- The agent of a rank handles a command.
unfoldable pub deliver : (ℕ → Option ℕ) → ℕ × InitPair → World → World
unfolding handle_init_pair
deliver loads (r, msg) w =
    let h = handle_init_pair loads msg (w.agents r) w.registry in
    record { agents = λ s. if s == r then h.agent else w.agents s; registry = h.registry }

unfoldable pub deliver_all : (ℕ → Option ℕ) → List (ℕ × InitPair) → World → World
unfolding deliver
deliver_all loads [] w = w
deliver_all loads (c ∷ cs) w = deliver_all loads cs (deliver loads c w)

-- Each rank's pending sizes are those that it wrote.
abbrev pub IsRecorded : World → Type 0
IsRecorded w = (r : ℕ) → ((w.agents r).rank ≡ r) × IsConsistent (w.agents r) w.registry

rank-Shape :
    (msg : InitPair) (a : Agent) (g : Registry) (h : Handled)
    → Shape msg a g h
    → h.agent.rank ≡ a.rank
rank-Shape msg a g h (kept p r e) = r
rank-Shape msg a g h (raised p e f) = rw p refl
rank-Shape msg a g h (stored p q e f x) = rw q refl

deliver-IsRecorded :
    (loads : ℕ → Option ℕ) (r : ℕ) (msg : InitPair) (w : World)
    → IsRecorded w
    → IsRecorded (deliver loads (r, msg) w)
unfolding deliver
deliver-IsRecorded loads r msg w h s =
    let a : Agent = w.agents r in
    let g : Registry = w.registry in
    let left : Handled = handle_init_pair loads msg a g in
    let shape : Shape msg a g left = handle_init_pair-Shape msg a g loads in
    elim (Bool-cases (nat_beq s r)) [
      | inl same ↦
          let is : s ≡ r = (nat_beq_iff s r).0 same in
          rw (same, is)
            (rank-Shape msg a g left shape ∙ (h r).0, IsConsistent-Shape msg a g left shape (h r).1)
      | inr other ↦
          let apart : (w.agents s).rank ≢ a.rank =
            λ e. ground (arith, e, other, (h s).0, (h r).0, nat_beq_iff s r) in
          rw other (
            (h s).0,
            λ pair p at name n e.
                sides-Shape msg a g left shape pair name (w.agents s).rank apart
                ∙ (h s).1 pair p at name n e,
          )
    ]

-- Over any commands on any ranks of one store, in any order and whether they raise or not, the size
-- that a rank keeps for a side of a pending pair is the one that its keys in the store have.
pub deliver_all-IsRecorded :
    (loads : ℕ → Option ℕ) (cs : List (ℕ × InitPair)) (w : World)
    → IsRecorded w
    → IsRecorded (deliver_all loads cs w)
unfolding deliver_all
deliver_all-IsRecorded loads [] w h = h
deliver_all-IsRecorded loads ((r, msg) ∷ cs) w h =
    deliver_all-IsRecorded loads cs (deliver loads (r, msg) w) (deliver-IsRecorded loads r msg w h)
