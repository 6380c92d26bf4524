-- ===== src/Comm/Routes.antt =====
-- src/etha/comm/get_m2m_map.py: the destinations of each source cell, gathered from all ranks, and
-- the list of routes made of them.
pub mod Merge
pub mod Canonical
pub mod Complete
mod Examples
use mathlib.Core.List.{flat_map}
use etha.Prelude.{
  ℕ, zero, suc, ◌+◌, ◌-◌, ◌*◌, ◌/◌, ◌%◌, ◌^◌, ◌≤◌, ◌<◌, min, max, ◌≡◌, refl, sym, ap, ap₂, subst,
  fun_ext, ◌∙◌, ◌≢◌, ◌↔◌, ◌⊎◌, inl, inr, Bool, true, false, ◌&&◌, ◌||◌, not, Option, none, some,
  List, [], ◌∷◌, ◌++◌, map, arith, ltb, leb, ◌==◌, Eq, nat_eq, list_eq, if◌then◌else◌, Bool-cases,
  Option-cases, length, get_elem?, take, drop, length-append, length-drop, All, All-append, sum,
  sum-append,
}
use etha.Prelude.Dict.{Dict, lookup, insert}
use etha.Prelude.Sorting.{sorted_set, nat_order, lex_order}
use etha.Comm.Ir.{Endpoint, Route, Transport, p2p, broadcast, reduce_only}

-- Source cell to destinations, and source rank to cells.
abbrev pub Cells : Type 0
Cells = Dict (List ℕ) (List Endpoint)

abbrev pub RankMap : Type 0
RankMap = Dict ℕ Cells

abbrev pub or_empty {ℓ} : {A : Type ℓ} → Option (List A) → List A
or_empty none = []
or_empty (some xs) = xs

-- Reading a `defaultdict`.
abbrev pub cells_of : RankMap → ℕ → Cells
cells_of m rank = or_empty (lookup rank m)

abbrev pub dests_of : Cells → List ℕ → List Endpoint
dests_of cells cell = or_empty (lookup cell cells)

abbrev pub destinations : RankMap → ℕ → List ℕ → List Endpoint
destinations m rank cell = dests_of (cells_of m rank) cell

-- `m[rank][cell].extend(dsts)`
unfoldable pub extend_cell : ℕ → List ℕ → List Endpoint → RankMap → RankMap
extend_cell rank cell dsts m =
    insert rank (insert cell (destinations m rank cell ++ dsts) (cells_of m rank)) m

-- One decoded entry: which source cell it holds, and where it stands on the target.
pub record Decoded : Type 0 where
  pub source_rank : ℕ
  pub source_cell : List ℕ
  pub target_cell : List ℕ

-- The loop over the entries of the local target shard.
unfoldable pub record_cells : ℕ → List Decoded → RankMap → RankMap
unfolding extend_cell
record_cells rank [] m = m
record_cells rank (d ∷ ds) m =
    record_cells rank ds (
      extend_cell d.source_rank d.source_cell (record { rank = rank; cell = d.target_cell } ∷ []) m)

unfoldable pub merge_cells : ℕ → Cells → RankMap → RankMap
unfolding extend_cell
merge_cells rank [] m = m
merge_cells rank ((cell, dsts) ∷ cells) m = merge_cells rank cells (extend_cell rank cell dsts m)

unfoldable pub merge_rank_map : RankMap → RankMap → RankMap
unfolding merge_cells
merge_rank_map [] m = m
merge_rank_map ((rank, cells) ∷ rest) m = merge_rank_map rest (merge_cells rank cells m)

-- The loop over the gathered maps; a rank that gave none is skipped.
unfoldable pub merge_all : List (Option RankMap) → RankMap → RankMap
unfolding merge_rank_map
merge_all [] m = m
merge_all (none ∷ maps) m = merge_all maps m
merge_all (some r ∷ maps) m = merge_all maps (merge_rank_map r m)

abbrev pub keys {ℓ κ} : {K : Type ℓ} {V : Type κ} → Dict K V → List K
keys d = map (λ e. e.0) d

unfoldable pub kind_of : List Endpoint → Transport
kind_of [] = reduce_only
kind_of (d ∷ []) = p2p
kind_of (d ∷ e ∷ ds) = broadcast

unfoldable pub route_at : RankMap → ℕ → List ℕ → Route
unfolding kind_of
route_at m rank cell =
    let dsts = destinations m rank cell in
    record { src = record { rank = rank; cell = cell }; dsts = dsts; kind = kind_of dsts }

unfoldable pub rank_routes : RankMap → ℕ → List Route
unfolding route_at sorted_set
rank_routes m rank = map (route_at m rank) (sorted_set (keys (cells_of m rank)))

-- `flat_map` by structural recursion, for the outer loop.
unfoldable pub all_routes : RankMap → List ℕ → List Route
unfolding rank_routes
all_routes m [] = []
all_routes m (rank ∷ ranks) = rank_routes m rank ++ all_routes m ranks

unfoldable pub dict_to_routes : RankMap → List Route
unfolding all_routes sorted_set
dict_to_routes m = all_routes m (sorted_set (keys m))
