-- ===== src/Comm/Routes/Examples.antt =====
-- The routes of two ranks that gathered their maps.
use etha.Prelude.{ℕ, ◌≡◌, refl, none, some, [], ◌∷◌, arith, nat_eq, list_eq}
use etha.Prelude.Sorting.{contains, nat_order, lex_order}
use etha.Comm.Ir.{Endpoint}
use etha.Comm.Routes.{RankMap, destinations, merge_all, keys, cells_of, dict_to_routes}
use etha.Comm.Routes.Merge.{destinations-merge_all}
use etha.Comm.Routes.Canonical.{SameMap, dict_to_routes-SameMap}

abbrev endpoint : ℕ → Endpoint
endpoint r = record { rank = r; cell = 0 ∷ [] }

abbrev gathered_by_2 : RankMap
gathered_by_2 = (0, ((0 ∷ [], endpoint 2 ∷ []) ∷ [])) ∷ []

abbrev gathered_by_3 : RankMap
gathered_by_3 = (0, ((0 ∷ [], endpoint 3 ∷ []) ∷ [])) ∷ (1, ((0 ∷ [], endpoint 3 ∷ []) ∷ [])) ∷ []

abbrev forward : RankMap
forward = (0, ((0 ∷ [], endpoint 2 ∷ []) ∷ [])) ∷ (1, ((0 ∷ [], endpoint 3 ∷ []) ∷ [])) ∷ []

abbrev backward : RankMap
backward = (1, ((0 ∷ [], endpoint 3 ∷ []) ∷ [])) ∷ (0, ((0 ∷ [], endpoint 2 ∷ []) ∷ [])) ∷ []

destinations-merge_all_example :
    destinations (merge_all (some gathered_by_2 ∷ none ∷ some gathered_by_3 ∷ []) []) 0 (0 ∷ [])
    ≡ endpoint 2 ∷ endpoint 3 ∷ []
destinations-merge_all_example =
    destinations-merge_all (some gathered_by_2 ∷ none ∷ some gathered_by_3 ∷ []) [] 0 (0 ∷ [])
      ((refl, (refl, tt), tt), ((refl, (refl, tt), (refl, (refl, tt), tt)), tt))

same_ranks : (r : ℕ) → contains (keys forward) r ≡ contains (keys backward) r
same_ranks r = ground arith

same_cells : (r : ℕ) → cells_of forward r ≡ cells_of backward r
same_cells r = ground arith

forward-SameMap : SameMap forward backward
forward-SameMap = record {
  ranks = same_ranks;
  cells = λ r c. rw (same_cells r) refl;
  dests = λ r c. rw (same_cells r) refl;
}

dict_to_routes-SameMap_example : dict_to_routes forward ≡ dict_to_routes backward
dict_to_routes-SameMap_example = dict_to_routes-SameMap forward backward forward-SameMap
