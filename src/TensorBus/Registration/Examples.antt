-- ===== src/TensorBus/Registration/Examples.antt =====
-- The second role of a batch of one pair.
use etha.Prelude.{pair_eq, [], ◌∷◌, nat_eq, list_eq}
use etha.TensorBus.Registration.{Registration}

abbrev first_role : Registration
first_role = record {
  pair_names = 3 ∷ [];
  generation = 2;
  registered = (3, 5) ∷ [];
  parked = 40 ∷ [];
}
