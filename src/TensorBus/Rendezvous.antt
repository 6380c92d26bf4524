-- ===== src/TensorBus/Rendezvous.antt =====
-- The rendezvous of pairs in src/etha/tensor_bus/agent.py: when a side is ready, and the log by
-- which every rank completes the pairs in one order.
pub mod Ready
pub mod Consume
pub mod Order
mod Examples
use etha.Prelude.{
  pair_eq, select, select-append, nat_beq, nat_beq_iff, list_beq, list_beq_iff, ℕ, zero, suc, ◌+◌,
  ◌-◌, ◌*◌, ◌/◌, ◌%◌, ◌^◌, ◌≤◌, ◌<◌, min, max, ◌≡◌, refl, sym, ap, ap₂, subst, fun_ext, ◌∙◌, ◌≢◌,
  ◌↔◌, ◌⊎◌, inl, inr, Bool, true, false, ◌&&◌, ◌||◌, not, Option, none, some, List, [], ◌∷◌, ◌++◌,
  map, arith, ltb, leb, ◌==◌, Eq, nat_eq, list_eq, if◌then◌else◌, Bool-cases, Option-cases, length,
  get_elem?, take, drop, length-append, length-drop, All, All-append, sum, sum-append,
}
use etha.Prelude.Dict.{Dict, lookup, insert, erase}
use etha.Prelude.Sorting.{sorted_set, contains, nat_order}

-- What one side's rank has written: its registration and its expected world size, which may be
-- missing still.
abbrev pub Side : Type 0
Side = ℕ → Bool × Option ℕ

-- The store: each pair's sides by peer name, the log's entries (the n-th is
-- `pair_completion:entry:{n}`, their number the leader's counter), and the pairs that are marked as
-- logged.
pub record Store : Type 0 where
  pub sides : ℕ → ℕ → Side
  pub entries : List ℕ
  pub logged : List ℕ

pub record PendingPair : Type 0 where
  pub local_name : ℕ
  pub remote_name : ℕ
  pub semaphores : List ℕ

-- A rank: its cursor, its pending pairs, the calls of `_complete_pair` in order, and the semaphores
-- released after a completion and after an error.
pub record Rank : Type 0 where
  pub completion_cursor : ℕ
  pub pending_pairs : Dict ℕ PendingPair
  pub completed : List ℕ
  pub released : List ℕ
  pub failed : List ℕ

abbrev pub with_rank : ℕ → ℕ → Option (List ℕ × List ℕ) → Option (List ℕ × List ℕ)
with_rank r size none = none
with_rank r size (some (present, sizes)) = some (r ∷ present, size ∷ sizes)

-- A rank that is not registered is passed over; one without a size ends the loop.
abbrev pub join_rank : ℕ → Bool → Option ℕ → Option (List ℕ × List ℕ) → Option (List ℕ × List ℕ)
join_rank r false size rest = rest
join_rank r true none rest = none
join_rank r true (some size) rest = with_rank r size rest

-- The loop over `n` ranks from `r` on: who is present, with the sizes; `none` is the early return.
unfoldable pub side_loop : Side → ℕ → ℕ → Option (List ℕ × List ℕ)
side_loop side r zero = some ([], [])
side_loop side r (suc n) = join_rank r (side r).0 (side r).1 (side_loop side (suc r) n)

abbrev pub all_equal : ℕ → List ℕ → Bool
all_equal n [] = true
all_equal n (m ∷ ms) = m == n && all_equal n ms

-- One size, the same from every rank, and as many ranks.
unfoldable pub judge : Option (List ℕ × List ℕ) → Option (ℕ × List ℕ)
judge none = none
judge (some (present, [])) = none
judge (some (present, expected ∷ sizes)) =
    if all_equal expected sizes && length present == expected
    then some (expected, present)
    else none

-- `_check_side_ready`
unfoldable pub check_side_ready : ℕ → Side → Option (ℕ × List ℕ)
unfolding side_loop judge
check_side_ready world_size side = judge (side_loop side 0 world_size)

abbrev pub is_ready : Option (ℕ × List ℕ) → Bool
is_ready none = false
is_ready (some p) = true

-- `_pair_ready`
unfoldable pub pair_ready : ℕ → Store → ℕ → PendingPair → Bool
unfolding check_side_ready
pair_ready world_size s pair p =
    is_ready (check_side_ready world_size (s.sides pair p.local_name))
    && is_ready (check_side_ready world_size (s.sides pair p.remote_name))

-- One round of the leader's loop.
unfoldable pub append_ready : ℕ → Dict ℕ PendingPair → ℕ → Store → Store
unfolding pair_ready
append_ready world_size pending pair s =
    if contains s.logged pair || not (ready (lookup pair pending))
    then s
    else record s { entries = s.entries ++ pair ∷ []; logged = pair ∷ s.logged }
  where
    ready : Option PendingPair → Bool
    ready none = false
    ready (some p) = pair_ready world_size s pair p

unfoldable pub append_loop : ℕ → Dict ℕ PendingPair → List ℕ → Store → Store
unfolding append_ready
append_loop world_size pending [] s = s
append_loop world_size pending (p ∷ ps) s =
    append_loop world_size pending ps (append_ready world_size pending p s)

-- `_append_ready_pairs_to_log`
unfoldable pub append_ready_pairs_to_log : ℕ → Dict ℕ PendingPair → Store → Store
unfolding append_loop sorted_set
append_ready_pairs_to_log world_size pending s =
    append_loop world_size pending (sorted_set (map (λ e. e.0) pending)) s

-- One entry. `completes` says at which entry of the log, by its number, and for which pair
-- `_complete_pair` returns; where it raises, the pair stays pending without its semaphores, and may
-- complete at a later entry.
unfoldable pub consume_entry : (ℕ → ℕ → Bool) → ℕ → Rank → Rank
consume_entry completes pair k =
    meet (lookup pair k.pending_pairs) (record k { completion_cursor = k.completion_cursor + 1 })
  where
    meet : Option PendingPair → Rank → Rank
    meet none k = k
    meet (some p) k =
        if completes k.completion_cursor pair
        then record k {
          completed = k.completed ++ pair ∷ [];
          released = k.released ++ p.semaphores;
          pending_pairs = erase pair k.pending_pairs;
        }
        else record k {
          completed = k.completed ++ pair ∷ [];
          failed = k.failed ++ p.semaphores;
          pending_pairs = insert pair (record p { semaphores = [] }) k.pending_pairs;
        }

unfoldable pub consume : (ℕ → ℕ → Bool) → List ℕ → Rank → Rank
unfolding consume_entry
consume completes [] k = k
consume completes (p ∷ ps) k = consume completes ps (consume_entry completes p k)

-- `_consume_completion_log`: from the cursor on, until there is no next entry.
unfoldable pub consume_completion_log : (ℕ → ℕ → Bool) → Store → Rank → Rank
unfolding consume
consume_completion_log completes s k = consume completes (drop k.completion_cursor s.entries) k

-- `_poll_pending_pairs`
unfoldable pub poll_pending_pairs : ℕ → (ℕ → ℕ → Bool) → ℕ → Store × Rank → Store × Rank
unfolding append_ready_pairs_to_log consume_completion_log
poll_pending_pairs world_size completes rank (s, k) = poll k.pending_pairs
  where
    poll : Dict ℕ PendingPair → Store × Rank
    poll [] = (s, k)
    poll (_ ∷ _) =
        let s' = if rank == 0 then append_ready_pairs_to_log world_size k.pending_pairs s else s in
        (s', consume_completion_log completes s' k)
