-- ===== src/TensorBus/Registration.antt =====
-- The registration of a dual batch's tensors in src/etha/tensor_bus/agent.py: the first role waits,
-- the second starts the generation of buckets.
pub mod Settled
mod Examples
use etha.Prelude.{
  pair_eq, select, select-append, nat_beq, nat_beq_iff, list_beq, list_beq_iff, ℕ, zero, suc, ◌+◌,
  ◌-◌, ◌*◌, ◌/◌, ◌%◌, ◌^◌, ◌≤◌, ◌<◌, min, max, ◌≡◌, refl, sym, ap, ap₂, subst, fun_ext, ◌∙◌, ◌≢◌,
  ◌↔◌, ◌⊎◌, inl, inr, Bool, true, false, ◌&&◌, ◌||◌, not, Option, none, some, List, [], ◌∷◌, ◌++◌,
  map, arith, ltb, leb, ◌==◌, Eq, nat_eq, list_eq, if◌then◌else◌, Bool-cases, Option-cases, length,
  get_elem?, take, drop, length-append, length-drop, All, All-append, sum, sum-append,
}
use etha.Prelude.Dict.{Dict, lookup, insert}
use etha.Prelude.Sorting.{sorted_set, nat_order}
use etha.TensorBus.Rounds.{append_name}

-- The part of `BatchState` that registration changes; `registered` has the keys of
-- `pair_role_tensors`.
pub record Registration : Type 0 where
  pub pair_names : List ℕ
  pub generation : ℕ
  pub registered : List (ℕ × ℕ)
  pub parked : List ℕ

pub data Notice : Type 0 where
  wrote_result : ℕ → ℕ → Notice
  recorded_error : ℕ → Notice
  released : ℕ → Notice

-- How a registration ends: the role waits for the other, the buckets are there, their generation
-- failed and the batch is dropped, or the role was registered before. The notices are the newest
-- first; the last two raise an error, which the command's own semaphore is told by its caller.
pub data Registered : Type 0 where
  waiting generated refused : Registration → List Notice → Registered
  aborted : List Notice → Registered

-- `_next_batch_generation`, with the counters of all batch ids.
unfoldable pub next_batch_generation : ℕ → Dict ℕ ℕ → ℕ × Dict ℕ ℕ
next_batch_generation batch_id gens =
    let gen = or_zero (lookup batch_id gens) + 1 in (gen, insert batch_id gen gens)
  where
    or_zero : Option ℕ → ℕ
    or_zero none = 0
    or_zero (some n) = n

abbrev pub has_key : ℕ × ℕ → List (ℕ × ℕ) → Bool
has_key k [] = false
has_key k (j ∷ js) = k == j || has_key k js

-- The loop that enters the role for each pair; `false` is the error of a role registered before.
unfoldable pub merge_role : ℕ → List ℕ → List (ℕ × ℕ) → Bool × List (ℕ × ℕ)
merge_role role [] keys = (true, keys)
merge_role role (p ∷ ps) keys =
    let rest = merge_role role ps (keys ++ (p, role) ∷ []) in
    if has_key (p, role) keys then (false, keys) else rest

abbrev pub roles_of : ℕ → List (ℕ × ℕ) → List ℕ
roles_of pair [] = []
roles_of pair ((p, r) ∷ keys) = if p == pair then r ∷ roles_of pair keys else roles_of pair keys

-- `len(roles_present) < 2` for no pair.
unfoldable pub both_present : List ℕ → List (ℕ × ℕ) → Bool
unfolding sorted_set
both_present [] keys = true
both_present (p ∷ ps) keys = leb 2 (length (sorted_set (roles_of p keys))) && both_present ps keys

-- The parked registrations are given the generation and released.
unfoldable pub report_all : ℕ → List ℕ → List Notice → List Notice
report_all generation [] log = log
report_all generation (s ∷ ss) log =
    report_all generation ss (released s ∷ wrote_result s generation ∷ log)

-- `_abort_dual_registration`
unfoldable pub abort_dual_registration : List ℕ → List Notice → List Notice
abort_dual_registration [] log = log
abort_dual_registration (s ∷ ss) log =
    abort_dual_registration ss (released s ∷ recorded_error s ∷ log)

abbrev pub report_own : Option ℕ → ℕ → List Notice → List Notice
report_own none generation log = log
report_own (some s) generation log = wrote_result s generation ∷ log

-- `generates` says whether `_generate_dual_buckets` returns.
unfoldable pub finish_registration : Bool → Option ℕ → Registration → List Notice → Registered
unfolding report_all abort_dual_registration
finish_registration true name r log =
    generated (record r { parked = [] })
      (report_own name r.generation (report_all r.generation r.parked log))
finish_registration false name r log = aborted (abort_dual_registration r.parked log)

-- `_register_dual_role`
unfoldable pub register_dual_role : Bool → ℕ → Option ℕ → Registration → List Notice → Registered
unfolding merge_role both_present finish_registration
register_dual_role generates role name r log =
    let (new, keys) = merge_role role r.pair_names r.registered in
    let r' = record r { registered = keys } in
    if not new
    then refused r' log
    else if both_present r.pair_names keys
    then finish_registration generates name r' log
    else waiting (record r' { parked = append_name r.parked name }) log
