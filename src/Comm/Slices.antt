-- ===== src/Comm/Slices.antt =====
-- src/etha/comm/utils.py: slices of a tensor by a multi-index, and the rank lists of a mesh dimension.
mod Examples
pub mod Lookup
pub mod Cover
use mathlib.Core.List.{flat_map}
use etha.Prelude.{
  ℕ, zero, suc, ◌+◌, ◌-◌, ◌*◌, ◌/◌, ◌%◌, ◌^◌, ◌≤◌, ◌<◌, min, max, ◌≡◌, refl, sym, ap, ap₂, subst,
  fun_ext, ◌∙◌, ◌≢◌, ◌↔◌, ◌⊎◌, inl, inr, Bool, true, false, ◌&&◌, ◌||◌, not, Option, none, some,
  List, [], ◌∷◌, ◌++◌, map, arith, ltb, leb, ◌==◌, Eq, nat_eq, list_eq, if◌then◌else◌, Bool-cases,
  Option-cases, length, get_elem?, take, drop, length-append, length-drop, All, All-append, sum,
  sum-append,
}

-- `slice(start, stop)`
pub record Slice : Type 0 where
  pub start : ℕ
  pub stop : ℕ

-- `range(n)`
unfoldable pub range_from : ℕ → ℕ → List ℕ
range_from i zero = []
range_from i (suc n) = i ∷ range_from (suc i) n

abbrev pub range : ℕ → List ℕ
range n = range_from 0 n

module _ {ℓ} {A : Type ℓ} where
  unfoldable pub prepend_all : List A → List (List A) → List (List A)
  prepend_all [] yss = []
  prepend_all (x ∷ xs) yss = map (◌∷◌ x) yss ++ prepend_all xs yss

  -- `itertools.product(*xss)`: the last factor varies fastest.
  unfoldable pub product : List (List A) → List (List A)
  unfolding prepend_all
  product [] = [] ∷ []
  product (xs ∷ xss) = prepend_all xs (product xss)

abbrev pub nth_slice : ℕ → ℕ → Slice
nth_slice slice_size i = record { start = i * slice_size; stop = (i + 1) * slice_size }

-- The list built for one dimension. A zero divisor is an exception in Python; the counts are
-- products of mesh sizes, which are positive.
unfoldable pub dim_slices : ℕ → ℕ → List Slice
dim_slices dim_size num_slices = map (nth_slice (dim_size / num_slices)) (range num_slices)

unfoldable pub slicers_per_dim : List ℕ → List ℕ → List (List Slice)
unfolding dim_slices
slicers_per_dim (s ∷ shape) (n ∷ nums) = dim_slices s n ∷ slicers_per_dim shape nums
slicers_per_dim _ _ = []

unfoldable pub get_slicer_tuples : List ℕ → List ℕ → List (List Slice)
unfolding slicers_per_dim product
get_slicer_tuples shape nums = product (slicers_per_dim shape nums)

-- The loop from the last index to the first: `(linear_idx, multiplier)`, or an `IndexError` where
-- there are more indices than slicer counts.
unfoldable pub linear_index : List ℕ → List ℕ → Option (ℕ × ℕ)
linear_index [] nums = some (0, 1)
linear_index (i ∷ idx) [] = none
linear_index (i ∷ idx) (n ∷ nums) = elim (linear_index idx nums) [
  | none ↦ none
  | some (linear, multiplier) ↦ some (linear + i * multiplier, multiplier * n)
]

unfoldable pub get_slice_from_multi_index :
    List ℕ → List ℕ → List (List Slice) → Option (List Slice)
unfolding linear_index
get_slice_from_multi_index idx nums tuples = elim (linear_index idx nums) [
  | none ↦ none
  | some (linear, multiplier) ↦ get_elem? tuples linear
]

-- A mesh: its shape and the rank at each coordinate.
pub record Mesh : Type 0 where
  pub shape : List ℕ
  pub at : List ℕ → ℕ

unfoldable pub remove_at : {A : Type 0} → ℕ → List A → List A
remove_at k [] = []
remove_at zero (x ∷ xs) = xs
remove_at (suc k) (x ∷ xs) = x ∷ remove_at k xs

unfoldable pub insert_at : {A : Type 0} → ℕ → A → List A → List A
insert_at zero a xs = a ∷ xs
insert_at (suc k) a [] = a ∷ []
insert_at (suc k) a (x ∷ xs) = x ∷ insert_at k a xs

-- One list of ranks for each choice of the other coordinates; `none` is the `ValueError` of a
-- dimension that the mesh lacks.
unfoldable pub enumerate_partial_subgroup_ranks : Mesh → ℕ → Option (List (List ℕ))
unfolding product remove_at insert_at range_from
enumerate_partial_subgroup_ranks mesh k = elim (get_elem? mesh.shape k) [
  | none ↦ none
  | some size ↦ some (
      map (λ others. map (λ c. mesh.at (insert_at k c others)) (range size))
        (product (map range (remove_at k mesh.shape))))
]
