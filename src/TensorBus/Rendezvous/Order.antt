-- ===== src/TensorBus/Rendezvous/Order.antt =====
-- Whenever a rank polls the completion log, it completes the pairs in the order of the log.
use etha.Prelude.{
  pair_eq, ℕ, ◌≤◌, ◌≡◌, refl, sym, ap, subst, ◌∙◌, ◌⊎◌, inl, inr, Bool, true, false, none, List, [],
  ◌∷◌, ◌++◌, map, arith, ◌==◌, nat_eq, list_eq, if◌then◌else◌, Bool-cases, Option-cases, length,
  take, drop, length-append, length-drop, All,
}
use etha.Prelude.Dict.{Dict, lookup}
use etha.Prelude.Sorting.{sorted_set, contains, nat_order}
use etha.TensorBus.Rendezvous.{
  poll_pending_pairs, Side, Store, PendingPair, Rank, append_ready, append_loop,
  append_ready_pairs_to_log, consume, consume_completion_log,
}
use mathlib.Core.List.{append_assoc, append-nil}
use etha.TensorBus.Rendezvous.Consume.{
  IsWithin, take-all, take-append_le, take-drop, cursor-consume, IsWithin-consume, tried-consume,
  All-contains,
}

-- The steps that the store and a rank see: a side writes its keys, the leader appends, a retried
-- InitPair clears the marker of its pair, the rank handles an InitPair, which changes its pending
-- pairs, the rank polls. Every poll has its own outcomes of `_complete_pair`.
pub data Step : Type 0 where
  register : (ℕ → ℕ → Side) → Step
  leader : Dict ℕ PendingPair → Step
  retry : List ℕ → Step
  init_pair : Dict ℕ PendingPair → Step
  poll : (ℕ → ℕ → Bool) → Step

abbrev pub step : ℕ → Step → Store × Rank → Store × Rank
step world_size (register sides) (s, k) = (record s { sides = sides }, k)
step world_size (leader pending) (s, k) = (append_ready_pairs_to_log world_size pending s, k)
step world_size (retry logged) (s, k) = (record s { logged = logged }, k)
step world_size (init_pair pending) (s, k) = (s, record k { pending_pairs = pending })
step world_size (poll completes) (s, k) = (s, consume_completion_log completes s k)

abbrev pub steps : ℕ → List Step → Store × Rank → Store × Rank
steps world_size [] w = w
steps world_size (t ∷ ts) w = steps world_size ts (step world_size t w)

abbrev Extends : List ℕ → List ℕ → Type 0
Extends xs ys = (more : List ℕ) × (ys ≡ xs ++ more)

Extends-refl : (xs : List ℕ) → Extends xs xs
Extends-refl xs = ([], sym (append-nil xs))

Extends-trans : (xs ys zs : List ℕ) → Extends xs ys → Extends ys zs → Extends xs zs
Extends-trans xs ys zs (a, p) (b, q) =
    (a ++ b, q ∙ ap (λ (l : List ℕ). l ++ b) p ∙ append_assoc xs a b)

append_ready-Extends :
    (w : ℕ) (pending : Dict ℕ PendingPair) (p : ℕ) (s : Store)
    → Extends s.entries (append_ready w pending p s).entries
unfolding append_ready
append_ready-Extends w pending p s = by_test _
  where
    by_test :
        (b : Bool)
        → Extends s.entries
            (if b
              then s
              else record s { entries = s.entries ++ p ∷ []; logged = p ∷ s.logged }).entries
    by_test true = Extends-refl s.entries
    by_test false = (p ∷ [], refl)

append_loop-Extends :
    (w : ℕ) (pending : Dict ℕ PendingPair) (ps : List ℕ) (s : Store)
    → Extends s.entries (append_loop w pending ps s).entries
unfolding append_loop
append_loop-Extends w pending [] s = Extends-refl s.entries
append_loop-Extends w pending (p ∷ ps) s =
    Extends-trans s.entries (append_ready w pending p s).entries _
      (append_ready-Extends w pending p s)
      (append_loop-Extends w pending ps (append_ready w pending p s))

-- A rank's cursor lies within the log, and it has called `_complete_pair` in the order of the
-- entries before the cursor, at most once for each.
pub record IsOrdered (s : Store) (k : Rank) : Type 0 where
  pub inside : k.completion_cursor ≤ length s.entries
  pub calls : IsWithin k.completed (take k.completion_cursor s.entries)

abbrev Ordered : Store × Rank → Type 0
Ordered (s, k) = IsOrdered s k

consume_completion_log-end :
    (f : ℕ → ℕ → Bool) (s : Store) (k : Rank)
    → IsOrdered s k
    → let last = consume_completion_log f s k in
      (last.completion_cursor ≡ length s.entries) × IsWithin last.completed s.entries
unfolding consume_completion_log
consume_completion_log-end f s k i =
    let c : ℕ = k.completion_cursor in
    (
      omega (arith, i.inside, cursor-consume f (drop c s.entries) k, length-drop {0} c s.entries),
      subst (λ (l : List ℕ). IsWithin (consume f (drop c s.entries) k).completed l)
          (take-drop c s.entries)
          (IsWithin-consume f (drop c s.entries) (take c s.entries) k i.calls),
    )

step-IsOrdered :
    (w : ℕ) (t : Step) (s : Store) (k : Rank) → IsOrdered s k → Ordered (step w t (s, k))
unfolding append_ready_pairs_to_log
step-IsOrdered w (register sides) s k i = record { inside = i.inside; calls = i.calls }
step-IsOrdered w (retry logged) s k i = record { inside = i.inside; calls = i.calls }
step-IsOrdered w (init_pair pending) s k i = record { inside = i.inside; calls = i.calls }
step-IsOrdered w (leader pending) s k i =
    let (more, e) = append_loop-Extends w pending (sorted_set (map (λ e. e.0) pending)) s in
    record {
      inside = rw e (omega (arith, i.inside, length-append {0} s.entries more));
      calls = rw e (
          subst (λ (l : List ℕ). IsWithin k.completed l)
            (sym (take-append_le k.completion_cursor s.entries more i.inside)) i.calls);
    }
step-IsOrdered w (poll f) s k i =
    let (cursor, calls) = consume_completion_log-end f s k i in
    record {
      inside = omega (arith, cursor);
      calls =
          subst (λ (l : List ℕ). IsWithin (consume_completion_log f s k).completed l)
            (sym (ap (λ (n : ℕ). take n s.entries) cursor ∙ take-all s.entries)) calls;
    }

steps-Ordered :
    (w : ℕ) (ts : List Step) (s : Store) (k : Rank) → IsOrdered s k → Ordered (steps w ts (s, k))
steps-Ordered w [] s k i = i
steps-Ordered w (t ∷ ts) s k i =
    let (s', k') = step w t (s, k) in steps-Ordered w ts s' k' (step-IsOrdered w t s k i)

tried :
    (f : ℕ → ℕ → Bool) (s : Store) (k : Rank)
    → All
        (λ (p : ℕ).
          (lookup p k.pending_pairs ≡ none)
          ⊎ (contains (consume_completion_log f s k).completed p ≡ true))
        (drop k.completion_cursor s.entries)
unfolding consume_completion_log
tried f s k =
    let xs : List ℕ = drop k.completion_cursor s.entries in
    All-contains
      (λ (p : ℕ).
        (lookup p k.pending_pairs ≡ none) ⊎ (contains (consume f xs k).completed p ≡ true))
      xs xs
      (λ p c. elim (Option-cases (lookup p k.pending_pairs)) [
        | inl away ↦ inl away
        | inr (q, there) ↦ inr (tried-consume f xs k p q c there)
      ])
      (λ p c. c)

-- From a rank that has called `_complete_pair` in the order of the log, whatever sides register, the
-- leader appends, retries clear and InitPairs make pending, and whenever the rank polls in between,
-- with any outcomes: after one more poll it has read the whole log, its calls of `_complete_pair` are
-- in the order of the log, at most one for each entry, and each entry that this poll read names a pair
-- that was not pending or has been tried.
pub steps-consume_completion_log :
    (w : ℕ) (ts : List Step) (f : ℕ → ℕ → Bool) (s : Store) (k : Rank)
    → IsOrdered s k
    → let (s', k') = steps w ts (s, k) in
      let last = consume_completion_log f s' k' in
      (last.completion_cursor ≡ length s'.entries)
      × (IsWithin last.completed s'.entries
          × All
              (λ (p : ℕ). (lookup p k'.pending_pairs ≡ none) ⊎ (contains last.completed p ≡ true))
              (drop k'.completion_cursor s'.entries))
steps-consume_completion_log w ts f s k i =
    let (s', k') = steps w ts (s, k) in
    let (cursor, calls) = consume_completion_log-end f s' k' (steps-Ordered w ts s k i) in
    (cursor, (calls, tried f s' k'))

-- A rank's turn with a pending pair is a poll, on the leader after an append.
pub poll_pending_pairs-steps :
    (w : ℕ) (f : ℕ → ℕ → Bool) (rank : ℕ) (e : ℕ × PendingPair) (es : Dict ℕ PendingPair)
    (s : Store) (k : Rank)
    → let k' = record k { pending_pairs = e ∷ es } in
      poll_pending_pairs w f rank (s, k')
      ≡ steps w (if rank == 0 then leader (e ∷ es) ∷ poll f ∷ [] else poll f ∷ []) (s, k')
unfolding poll_pending_pairs
poll_pending_pairs-steps w f rank e es s k = elim (Bool-cases (rank == 0)) [
  | inl leads ↦ rw leads refl
  | inr follows ↦ rw follows refl
]
