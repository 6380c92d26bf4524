-- ===== src/Comm/Layout/Examples.antt =====
-- The shapes of get_m2m_map.py for two shards against three.
use etha.Prelude.{pair_eq, ℕ, ◌/◌, ◌≡◌, refl, List, [], ◌∷◌, arith, nat_eq, list_eq}
use etha.Comm.Layout.{zip_with, middle_tensor_shape, num_slicers}
use etha.Comm.Layout.Agree.{pieces_agree}

abbrev pieces : List ℕ → List ℕ → List ℕ → List ℕ
pieces shape shards middle = zip_with ◌/◌ shape (num_slicers middle shards)

pieces_agree_example :
    pieces (6 ∷ 5 ∷ []) (2 ∷ 1 ∷ []) (middle_tensor_shape (2 ∷ 1 ∷ []) (3 ∷ 1 ∷ []))
    ≡ pieces (4 ∷ 5 ∷ []) (3 ∷ 1 ∷ []) (middle_tensor_shape (2 ∷ 1 ∷ []) (3 ∷ 1 ∷ []))
pieces_agree_example =
    pieces_agree (12 ∷ 5 ∷ []) (2 ∷ 1 ∷ []) (3 ∷ 1 ∷ []) (6 ∷ 5 ∷ []) (4 ∷ 5 ∷ [])
      ((omega arith, refl), ((omega arith, refl), tt))
      ((omega arith, refl), ((omega arith, refl), tt))
