-- ===== src/Comm/Groups.antt =====
-- src/etha/comm/pg_utils.py, and the process groups that src/etha/comm/get_chunks.py creates.
pub mod Prewarm
mod Examples
use etha.Prelude.{
  pair_eq, select, select-append, nat_beq, nat_beq_iff, list_beq, list_beq_iff, ℕ, zero, suc, ◌+◌,
  ◌-◌, ◌*◌, ◌/◌, ◌%◌, ◌^◌, ◌≤◌, ◌<◌, min, max, ◌≡◌, refl, sym, ap, ap₂, subst, fun_ext, ◌∙◌, ◌≢◌,
  ◌↔◌, ◌⊎◌, inl, inr, Bool, true, false, ◌&&◌, ◌||◌, not, Option, none, some, List, [], ◌∷◌, ◌++◌,
  map, arith, ltb, leb, ◌==◌, Eq, nat_eq, list_eq, if◌then◌else◌, Bool-cases, Option-cases, length,
  get_elem?, take, drop, length-append, length-drop, All, All-append, sum, sum-append,
}
use etha.Prelude.Dict.{Dict, lookup, insert}
use etha.Prelude.Sorting.{sorted_set, nat_order, lex_order}
use etha.Comm.Ir.{Endpoint, Route, M2MMap, Transport, broadcast, same_transport}

-- The cache and the calls of `dist.new_group`, in order. A group is known by the number of the call
-- that made it, as torch names groups by a counter of the process.
pub record Groups : Type 0 where
  pub cache : Dict (List ℕ) ℕ
  pub calls : List (List ℕ)

abbrev cached_or_new : Option ℕ → List ℕ → Groups → ℕ × Groups
cached_or_new (some group) key s = (group, s)
cached_or_new none key s = (
  length s.calls,
  record { cache = insert key (length s.calls) s.cache; calls = s.calls ++ key ∷ [] },
)

unfoldable pub get_or_create_process_group : List ℕ → Groups → ℕ × Groups
unfolding sorted_set
get_or_create_process_group ranks s =
    let key = sorted_set ranks in cached_or_new (lookup key s.cache) key s

-- The ranks of the broadcast routes, one list for each; the set of them is made by the callers.
unfoldable pub broadcast_group_ranks : List Route → List (List ℕ)
unfolding sorted_set
broadcast_group_ranks [] = []
broadcast_group_ranks (r ∷ rs) =
    let rest = broadcast_group_ranks rs in
    if same_transport r.kind broadcast
    then sorted_set (r.src.rank ∷ map (λ d. d.rank) r.dsts) ∷ rest
    else rest

-- `for group_ranks in …: get_or_create_process_group(list(group_ranks))`
unfoldable pub create_all : List (List ℕ) → Groups → Groups
unfolding get_or_create_process_group
create_all [] s = s
create_all (g ∷ gs) s = create_all gs (get_or_create_process_group g s).1

unfoldable pub all_groups : List (Option M2MMap) → List (List ℕ)
unfolding broadcast_group_ranks
all_groups [] = []
all_groups (none ∷ maps) = all_groups maps
all_groups (some m ∷ maps) = broadcast_group_ranks m.routes ++ all_groups maps

unfoldable pub prewarm_broadcast_groups : List (Option M2MMap) → Groups → Groups
unfolding create_all all_groups sorted_set
prewarm_broadcast_groups maps s = create_all (sorted_set (all_groups maps)) s

-- The groups that `m2m_to_chunks` creates before its loop over the routes.
unfoldable pub chunk_groups : M2MMap → Groups → Groups
unfolding create_all broadcast_group_ranks sorted_set
chunk_groups m s = create_all (sorted_set (broadcast_group_ranks m.routes)) s
