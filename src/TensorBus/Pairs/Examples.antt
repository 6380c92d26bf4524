-- ===== src/TensorBus/Pairs/Examples.antt =====
-- A pair of two sides, the first with a Partial placement.
use etha.Prelude.{
  pair_eq, ℕ, ◌≡◌, refl, ◌≢◌, List, [], ◌∷◌, arith, ◌==◌, nat_eq, list_eq, if◌then◌else◌, length,
}
use etha.Prelude.Sorting.{nat_order, lex_order}
use etha.Comm.Ir.{M2MMap, Route}
use etha.Comm.Routes.{Cells, RankMap, cells_of, dict_to_routes}
use etha.Comm.Routes.Canonical.{SameMap}
use etha.Comm.Layout.{replicate, partial, shard}
use etha.Comm.Groups.{Groups}
use etha.TensorBus.Pairs.{PairSide, PlacedMesh, complete_pair}
use etha.TensorBus.Pairs.Canonical.{view, view-complete_pair}

abbrev trainer : PairSide
trainer = record {
  name = 1;
  ranks = 0 ∷ 1 ∷ 2 ∷ 3 ∷ [];
  mesh_info = (2 ∷ 2 ∷ [], partial 0 ∷ shard 0 ∷ []) ∷ (2 ∷ 2 ∷ [], partial 0 ∷ shard 0 ∷ []) ∷ [];
}

abbrev server : PairSide
server = record { name = 2; ranks = 4 ∷ 5 ∷ []; mesh_info = (2 ∷ [], replicate ∷ []) ∷ [] }

-- Only the reductions matter here: the first dimension of a mesh of two.
abbrev a_map : PlacedMesh → PlacedMesh → List Route → M2MMap
a_map source target routes = record {
  routes = routes;
  source_num_slicers = [];
  target_num_slicers = [];
  source_partial_reductions = if length source.placements == 2 then (0, 0) ∷ [] else [];
}

-- What two ranks merged, in different orders.
abbrev cell : ℕ → Cells
cell r = (0 ∷ [], record { rank = r; cell = 0 ∷ [] } ∷ []) ∷ []

abbrev forward : RankMap
forward = (0, cell 4) ∷ (1, cell 5) ∷ []

abbrev backward : RankMap
backward = (1, cell 5) ∷ (0, cell 4) ∷ []

same_cells : (r : ℕ) → cells_of forward r ≡ cells_of backward r
same_cells r = ground arith

forward-SameMap : SameMap forward backward
forward-SameMap = record {
  ranks = λ r. ground arith;
  cells = λ r c. rw (same_cells r) refl;
  dests = λ r c. rw (same_cells r) refl;
}

abbrev no_groups : Groups
no_groups = record { cache = []; calls = [] }

one-ne-two : ◌≢◌ {A = ℕ} 1 2
one-ne-two h = absurd (omega arith)

view-complete_pair_example :
    view
      (complete_pair (λ x y. a_map x y (dict_to_routes forward)) 0 (1, 2) trainer server no_groups)
    ≡ view (
        complete_pair
          (λ x y. a_map x y (dict_to_routes backward))
          5
          (1, 2)
          server
          trainer
          no_groups)
view-complete_pair_example =
    view-complete_pair a_map (λ x y. forward) (λ x y. backward) 0 5 (1, 2) trainer server no_groups
      (λ x y. forward-SameMap) one-ne-two
