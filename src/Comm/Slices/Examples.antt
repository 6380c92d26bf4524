-- ===== src/Comm/Slices/Examples.antt =====
-- The slices of utils.py at small shapes.
use etha.Prelude.{
  pair_eq, ◌*◌, ◌/◌, ◌<◌, ◌≡◌, refl, ◌↔◌, some, [], ◌∷◌, arith, nat_eq, list_eq, get_elem?,
}
use etha.Comm.Slices.{Slice, dim_slices, get_slicer_tuples, get_slice_from_multi_index}
use etha.Comm.Slices.Lookup.{get_slice_from_multi_index-slices_at}
use etha.Comm.Slices.Cover.{Covers, dim_slices-Covers}

get_slice_from_multi_index-slices_at_example :
    get_slice_from_multi_index
      (1 ∷ 2 ∷ [])
      (2 ∷ 3 ∷ [])
      (get_slicer_tuples (4 ∷ 6 ∷ []) (2 ∷ 3 ∷ []))
    ≡ some (record { start = 2; stop = 4 } ∷ record { start = 4; stop = 6 } ∷ [])
get_slice_from_multi_index-slices_at_example =
    get_slice_from_multi_index-slices_at (1 ∷ 2 ∷ []) (4 ∷ 6 ∷ []) (2 ∷ 3 ∷ []) refl
      (omega arith, (omega arith, tt))

-- Seven entries in two slices: the last is in neither.
dim_slices-Covers_example :
    ((sl : Slice) × ((get_elem? (dim_slices 7 2) 1 ≡ some sl) × Covers sl 5))
    ↔ ((1 ≡ 5 / (7 / 2)) × (5 < 2 * (7 / 2)))
dim_slices-Covers_example = dim_slices-Covers 7 2 5 1 (omega arith)
