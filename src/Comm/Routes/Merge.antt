-- ===== src/Comm/Routes/Merge.antt =====
-- What the gathered map of get_m2m_map.py holds for a cell.
use mathlib.Core.List.{append_assoc, append-nil}
use etha.Prelude.{
  nat_beq_iff, list_beq_iff, ℕ, ◌≡◌, ◌∙◌, Bool, true, false, ◌&&◌, Option, none, some, List, [],
  ◌∷◌, ◌++◌, arith, ◌==◌, Eq, nat_eq, list_eq,
}
use etha.Prelude.Dict.{Dict, lookup, insert, lookup-insert}
use etha.Comm.Ir.{Endpoint}
use etha.Comm.Routes.{
  Cells, RankMap, cells_of, dests_of, destinations, extend_cell, merge_cells, merge_rank_map,
  merge_all,
}

-- What one entry adds to the destinations of `(rank, cell)`.
abbrev when : Bool → List Endpoint → List Endpoint
when true ds = ds
when false ds = []

destinations-extend_cell :
    (r : ℕ) (c : List ℕ) (ds : List Endpoint) (m : RankMap) (rank : ℕ) (cell : List ℕ)
    → destinations (extend_cell r c ds m) rank cell
      ≡ destinations m rank cell ++ when (rank == r && cell == c) ds
unfolding extend_cell
destinations-extend_cell r c ds m rank cell = ground (
  arith,
  lookup-insert r rank (insert c (destinations m r c ++ ds) (cells_of m r)) m,
  lookup-insert c cell (destinations m r c ++ ds) (cells_of m r),
  nat_beq_iff rank r,
  list_beq_iff cell c,
  append-nil (destinations m rank cell),
)

-- A Python dict has each key once.
abbrev pub HasDistinctKeys {κ} : {K : Type 0} ⦃e : Eq K⦄ {V : Type κ} → Dict K V → Type κ
HasDistinctKeys [] = Unit
HasDistinctKeys ((k, v) ∷ d) = (lookup k d ≡ none) × HasDistinctKeys d

abbrev pub IsDict : RankMap → Type 0
IsDict [] = Unit {0}
IsDict ((rank, cells) ∷ m) = (lookup rank m ≡ none) × HasDistinctKeys cells × IsDict m

destinations-merge_cells :
    (r : ℕ) (cells : Cells) (m : RankMap) (rank : ℕ) (cell : List ℕ)
    → HasDistinctKeys cells
    → destinations (merge_cells r cells m) rank cell
      ≡ destinations m rank cell ++ when (rank == r) (dests_of cells cell)
unfolding merge_cells
destinations-merge_cells r [] m rank cell h = ground (arith, append-nil (destinations m rank cell))
destinations-merge_cells r ((c, ds) ∷ cells) m rank cell h =
    destinations-merge_cells r cells (extend_cell r c ds m) rank cell h.1
    ∙ rw (destinations-extend_cell r c ds m rank cell) (
        ground (
          arith,
          h.0,
          list_beq_iff cell c,
          append-nil (destinations m rank cell),
          append-nil (destinations m rank cell ++ ds),
        ))

destinations-merge_rank_map :
    (r m : RankMap) (rank : ℕ) (cell : List ℕ)
    → IsDict r
    → destinations (merge_rank_map r m) rank cell
      ≡ destinations m rank cell ++ destinations r rank cell
unfolding merge_rank_map
destinations-merge_rank_map [] m rank cell h = ground (arith, append-nil (destinations m rank cell))
destinations-merge_rank_map ((k, cells) ∷ r) m rank cell h =
    destinations-merge_rank_map r (merge_cells k cells m) rank cell h.2
    ∙ rw (destinations-merge_cells k cells m rank cell h.1) (
        ground (
          arith,
          h.0,
          nat_beq_iff rank k,
          append-nil (destinations m rank cell),
          append-nil (destinations m rank cell ++ dests_of cells cell),
        ))

-- The destinations that the gathered maps give for a cell, rank by rank.
abbrev pub gathered : List (Option RankMap) → ℕ → List ℕ → List Endpoint
gathered [] rank cell = []
gathered (none ∷ maps) rank cell = gathered maps rank cell
gathered (some r ∷ maps) rank cell = destinations r rank cell ++ gathered maps rank cell

abbrev pub AreDicts : List (Option RankMap) → Type 0
AreDicts [] = Unit {0}
AreDicts (none ∷ maps) = AreDicts maps
AreDicts (some r ∷ maps) = IsDict r × AreDicts maps

-- The merged map sends each cell to all the destinations that some rank decoded for it, in the order
-- of the ranks: none is lost and none is added.
pub destinations-merge_all :
    (maps : List (Option RankMap)) (m : RankMap) (rank : ℕ) (cell : List ℕ)
    → AreDicts maps
    → destinations (merge_all maps m) rank cell
      ≡ destinations m rank cell ++ gathered maps rank cell
unfolding merge_all
destinations-merge_all [] m rank cell h = ground (arith, append-nil (destinations m rank cell))
destinations-merge_all (none ∷ maps) m rank cell h = destinations-merge_all maps m rank cell h
destinations-merge_all (some r ∷ maps) m rank cell h =
    destinations-merge_all maps (merge_rank_map r m) rank cell h.1
    ∙ rw (destinations-merge_rank_map r m rank cell h.0) (
        append_assoc (destinations m rank cell) (destinations r rank cell)
          (gathered maps rank cell))
