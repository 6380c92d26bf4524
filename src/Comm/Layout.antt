-- ===== src/Comm/Layout.antt =====
-- src/etha/comm/get_m2m_map.py: the shapes of the shards and of the grid between them.
pub mod Agree
mod Examples
use Prim.Native.Nat.{max}
use etha.Prelude.{
  ℕ, zero, suc, ◌+◌, ◌-◌, ◌*◌, ◌/◌, ◌%◌, ◌^◌, ◌≤◌, ◌<◌, min, max, ◌≡◌, refl, sym, ap, ap₂, subst,
  fun_ext, ◌∙◌, ◌≢◌, ◌↔◌, ◌⊎◌, inl, inr, Bool, true, false, ◌&&◌, ◌||◌, not, Option, none, some,
  List, [], ◌∷◌, ◌++◌, map, arith, ltb, leb, ◌==◌, Eq, nat_eq, list_eq, if◌then◌else◌, Bool-cases,
  Option-cases, length, get_elem?, take, drop, length-append, length-drop, All, All-append, sum,
  sum-append,
}

-- torch's placements; a reduce operation is a number.
pub data Placement : Type 0 where
  shard : ℕ → Placement
  replicate : Placement
  partial : ℕ → Placement

unfoldable pub max_shard_dim : List Placement → ℕ
max_shard_dim [] = 0
max_shard_dim (shard dim ∷ ps) = max dim (max_shard_dim ps)
max_shard_dim (_ ∷ ps) = max_shard_dim ps

unfoldable pub get_tensor_ndim : List Placement → ℕ
unfolding max_shard_dim
get_tensor_ndim ps = max_shard_dim ps + 1

unfoldable pub ones : ℕ → List ℕ
ones zero = []
ones (suc n) = 1 ∷ ones n

-- `shard_shape[dim] *= size`; `none` is the `IndexError`.
unfoldable pub multiply_at : List ℕ → ℕ → ℕ → Option (List ℕ)
multiply_at [] dim size = none
multiply_at (s ∷ shape) zero size = some (s * size ∷ shape)
multiply_at (s ∷ shape) (suc dim) size = elim (multiply_at shape dim size) [
  | none ↦ none
  | some rest ↦ some (s ∷ rest)
]

unfoldable pub shard_loop : List ℕ → List Placement → List ℕ → Option (List ℕ)
unfolding multiply_at
shard_loop mesh [] shape = some shape
shard_loop [] (shard dim ∷ ps) shape = none
shard_loop [] (_ ∷ ps) shape = shard_loop [] ps shape
shard_loop (size ∷ mesh) (shard dim ∷ ps) shape = elim (multiply_at shape dim size) [
  | none ↦ none
  | some shape' ↦ shard_loop mesh ps shape'
]
shard_loop (size ∷ mesh) (_ ∷ ps) shape = shard_loop mesh ps shape

unfoldable pub get_shard_shape : List ℕ → List Placement → ℕ → Option (List ℕ)
unfolding shard_loop ones
get_shard_shape mesh ps ndim = shard_loop mesh ps (ones ndim)

-- `math.gcd`: Euclid's rounds, of which `b + 1` are enough.
unfoldable pub gcd_rounds : ℕ → ℕ → ℕ → ℕ
gcd_rounds zero a b = a
gcd_rounds (suc f) a b = let rest = gcd_rounds f b (a % b) in if b == 0 then a else rest

unfoldable pub gcd : ℕ → ℕ → ℕ
unfolding gcd_rounds
gcd a b = gcd_rounds (b + 1) a b

-- `math.lcm`
unfoldable pub lcm : ℕ → ℕ → ℕ
unfolding gcd
lcm a b = a / gcd a b * b

abbrev pub zip_with : (ℕ → ℕ → ℕ) → List ℕ → List ℕ → List ℕ
zip_with f (x ∷ xs) (y ∷ ys) = f x y ∷ zip_with f xs ys
zip_with f _ _ = []

unfoldable pub middle_tensor_shape : List ℕ → List ℕ → List ℕ
unfolding lcm
middle_tensor_shape source target = zip_with lcm source target

-- `m // o` for each dimension: how many cells of the grid one shard spans.
unfoldable pub num_slicers : List ℕ → List ℕ → List ℕ
num_slicers middle shard_shape = zip_with ◌/◌ middle shard_shape

-- `Partial` is `Replicate` for the trace.
unfoldable pub effective_placement : Placement → Placement
effective_placement (partial op) = replicate
effective_placement p = p

unfoldable pub partial_reductions_from : ℕ → List Placement → List (ℕ × ℕ)
partial_reductions_from i [] = []
partial_reductions_from i (partial op ∷ ps) = (i, op) ∷ partial_reductions_from (suc i) ps
partial_reductions_from i (_ ∷ ps) = partial_reductions_from (suc i) ps

unfoldable pub has_partial : List Placement → Bool
has_partial [] = false
has_partial (partial op ∷ ps) = true
has_partial (_ ∷ ps) = has_partial ps

pub data LayoutError : Type 0 where
  target_partial bad_index : LayoutError

-- The source and the target slicer counts, and the source reductions.
pub record Layout : Type 0 where
  pub middle : List ℕ
  pub source_num_slicers : List ℕ
  pub target_num_slicers : List ℕ
  pub source_partial_reductions : List (ℕ × ℕ)

unfoldable pub layout_of :
    List ℕ
    → List Placement
    → List ℕ
    → List Placement
    → Option (List ℕ)
    → Option (List ℕ)
    → LayoutError ⊎ Layout
unfolding middle_tensor_shape num_slicers partial_reductions_from
layout_of mesh_s ps mesh_t pt (some source) (some target) =
    let middle = middle_tensor_shape source target in
    inr (record {
      middle = middle;
      source_num_slicers = num_slicers middle source;
      target_num_slicers = num_slicers middle target;
      source_partial_reductions = partial_reductions_from 0 ps;
    })
layout_of mesh_s ps mesh_t pt _ _ = inl bad_index

-- The first half of `get_m2m_map`: a target with `Partial` is refused.
unfoldable pub get_layout : List ℕ → List Placement → List ℕ → List Placement → LayoutError ⊎ Layout
unfolding has_partial get_shard_shape get_tensor_ndim effective_placement layout_of
get_layout mesh_s ps mesh_t pt =
    if has_partial pt
    then inl target_partial
    else let source = map effective_placement ps in
      let ndim = max (get_tensor_ndim source) (get_tensor_ndim pt) in
      layout_of mesh_s ps mesh_t pt (get_shard_shape mesh_s source ndim)
        (get_shard_shape mesh_t pt ndim)
