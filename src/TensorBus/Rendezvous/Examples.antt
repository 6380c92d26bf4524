-- ===== src/TensorBus/Rendezvous/Examples.antt =====
-- Two pairs that become ready one after the other.
use etha.Prelude.{
  pair_eq, ℕ, ◌≡◌, refl, ◌⊎◌, Bool, true, false, ◌||◌, none, some, List, [], ◌∷◌, arith, ◌==◌,
  nat_eq, list_eq, if◌then◌else◌, length, drop, All,
}
use etha.Prelude.Dict.{Dict, lookup}
use etha.Prelude.Sorting.{contains, nat_order}
use etha.TensorBus.Rendezvous.{
  Side, Store, PendingPair, Rank, append_ready_pairs_to_log, consume_completion_log,
}
use etha.TensorBus.Rendezvous.Consume.{IsWithin}
use etha.TensorBus.Rendezvous.Order.{
  Step, register, leader, retry, init_pair, poll, IsOrdered, steps, steps-consume_completion_log,
}

-- Ranks 1 and 3 of four are there, and both expect two.
abbrev side : Side
side r = if r == 1 || r == 3 then (true, some 2) else (false, none)

abbrev missing : Side
missing r = (false, none)

abbrev pending : Dict ℕ PendingPair
pending =
    (7, record { local_name = 0; remote_name = 1; semaphores = 70 ∷ [] })
    ∷ (5, record { local_name = 0; remote_name = 1; semaphores = 50 ∷ [] })
    ∷ []

abbrev only_seven : ℕ → ℕ → Side
only_seven pair name = if pair == 7 then side else missing

abbrev everything : ℕ → ℕ → Side
everything pair name = side

abbrev store : Store
store = record { sides = only_seven; entries = []; logged = [] }

abbrev rank : Rank
rank = record {
  completion_cursor = 0;
  pending_pairs = pending;
  completed = [];
  released = [];
  failed = [];
}

-- The first poll's call for pair 7 raises; a retry makes it pending again.
abbrev raises : ℕ → ℕ → Bool
raises entry pair = false

abbrev succeeds : ℕ → ℕ → Bool
succeeds entry pair = true

-- Pair 7 is ready first, so it comes first, although 5 is smaller; its retry comes last.
abbrev schedule : List Step
schedule =
    leader pending
    ∷ poll raises
    ∷ register everything
    ∷ retry []
    ∷ init_pair pending
    ∷ leader pending
    ∷ []

in_order :
    (consume_completion_log succeeds
      (steps 4 schedule (store, rank)).0
      (steps 4 schedule (store, rank)).1).completed
    ≡ 7 ∷ 5 ∷ 7 ∷ []
unfolding append_ready_pairs_to_log consume_completion_log
in_order = refl

rank-IsOrdered : IsOrdered store rank
rank-IsOrdered = record { inside = omega arith; calls = tt }

steps-consume_completion_log_example :
    let (s', k') = steps 4 schedule (store, rank) in
    let last = consume_completion_log succeeds s' k' in
    (last.completion_cursor ≡ length s'.entries)
    × (IsWithin last.completed s'.entries
        × All
            (λ (p : ℕ). (lookup p k'.pending_pairs ≡ none) ⊎ (contains last.completed p ≡ true))
            (drop k'.completion_cursor s'.entries))
steps-consume_completion_log_example =
    steps-consume_completion_log 4 schedule succeeds store rank rank-IsOrdered
