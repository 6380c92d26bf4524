-- ===== src/Comm/Groups/Examples.antt =====
-- The groups of two maps.
use etha.Prelude.{pair_eq, ℕ, ◌≡◌, Option, none, some, List, [], ◌∷◌, map, arith, nat_eq, list_eq}
use etha.Prelude.Sorting.{contains, nat_order, lex_order}
use etha.Comm.Ir.{M2MMap, Endpoint, broadcast}
use etha.Comm.Groups.{Groups, all_groups, create_all, prewarm_broadcast_groups, chunk_groups}
use etha.Comm.Groups.Prewarm.{prewarm_broadcast_groups_same, chunk_groups-prewarm_broadcast_groups}

abbrev endpoint : ℕ → Endpoint
endpoint r = record { rank = r; cell = 0 ∷ [] }

abbrev m2m : ℕ → List ℕ → M2MMap
m2m src dsts = record {
  routes = record { src = endpoint src; dsts = map endpoint dsts; kind = broadcast } ∷ [];
  source_num_slicers = 1 ∷ [];
  target_num_slicers = 1 ∷ [];
  source_partial_reductions = [];
}

abbrev none_yet : Groups
none_yet = record { cache = []; calls = [] }

abbrev there : List (Option M2MMap)
there = some (m2m 0 (3 ∷ 2 ∷ [])) ∷ none ∷ some (m2m 4 (5 ∷ 6 ∷ [])) ∷ []

abbrev back : List (Option M2MMap)
back = some (m2m 4 (6 ∷ 5 ∷ [])) ∷ some (m2m 2 (0 ∷ 3 ∷ [])) ∷ []

same_groups_needed : (g : List ℕ) → contains (all_groups there) g ≡ contains (all_groups back) g
unfolding all_groups
same_groups_needed g = ground arith

prewarm_broadcast_groups_same_example :
    prewarm_broadcast_groups there none_yet ≡ prewarm_broadcast_groups back none_yet
prewarm_broadcast_groups_same_example =
    prewarm_broadcast_groups_same there back none_yet same_groups_needed

chunk_groups-prewarm_broadcast_groups_example :
    chunk_groups (m2m 4 (5 ∷ 6 ∷ [])) (prewarm_broadcast_groups there none_yet)
    ≡ prewarm_broadcast_groups there none_yet
unfolding create_all
chunk_groups-prewarm_broadcast_groups_example =
    chunk_groups-prewarm_broadcast_groups (some (m2m 0 (3 ∷ 2 ∷ [])) ∷ none ∷ []) []
      (m2m 4 (5 ∷ 6 ∷ [])) [] none_yet
