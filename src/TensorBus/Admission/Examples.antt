-- ===== src/TensorBus/Admission/Examples.antt =====
-- The two roles of a dual batch register on two ranks of agent.py at once.
use etha.Prelude.{
  pair_eq, ℕ, ◌≡◌, refl, ◌↔◌, true, false, none, some, List, [], ◌∷◌, nat_eq, list_eq, get_elem?,
  All,
}
use etha.Prelude.Sorting.{nat_order}
use etha.TensorBus.Layouts.{
  RegisterTensors, Host, Layout, PairSides, is_dual, has_role, layout_of, batch_dual, pair_names,
}
use etha.TensorBus.Admission.{handle_register_tensors}
use etha.TensorBus.Admission.Agree.{admits, handle_register_tensors-Agree}
use etha.TensorBus.Admission.Sound.{handle_register_tensors-Sound}

abbrev register : ℕ → RegisterTensors
register role = record {
  batch_id = 4;
  tensors = 8 ∷ 7 ∷ 8 ∷ [];
  bucket_size = some 64;
  role = some role;
  semaphore_name = some role;
}

abbrev host : Host
host = record {
  pairs = λ n. some (record {
    local_ranks = 1 ∷ 0 ∷ [];
    remote_ranks = 0 ∷ 1 ∷ [];
    dual_endpoint = true;
    roles = 1 ∷ 2 ∷ [];
  });
  batch = none;
  generations = [];
}

abbrev layouts : List Layout
layouts = layout_of (register 1) host ∷ layout_of (register 2) host ∷ []

both_admitted :
    (admits (handle_register_tensors true (register 1) host layouts) ≡ true)
    × (admits (handle_register_tensors true (register 2) host layouts) ≡ true)
unfolding handle_register_tensors
both_admitted = (refl, refl)

-- A role that is not a peer's is refused on both ranks.
wrong_role :
    admits (
      handle_register_tensors true
        (register 1)
        host
        (layout_of (register 1) host ∷ layout_of (register 3) host ∷ []))
    ≡ false
unfolding handle_register_tensors
wrong_role = refl

dual : batch_dual (register 1) host ≡ batch_dual (register 2) host
unfolding batch_dual
dual = refl

handle_register_tensors-Agree_example :
    (admits (handle_register_tensors true (register 1) host layouts) ≡ true)
    ↔ (admits (handle_register_tensors true (register 2) host layouts) ≡ true)
handle_register_tensors-Agree_example =
    handle_register_tensors-Agree layouts (register 1) (register 2) host host 0 1 true true refl
      refl dual refl

handle_register_tensors-Sound_example :
    ((j : ℕ) (l : Layout)
      → get_elem? layouts j ≡ some l
      → l.signature ≡ (layout_of (register 1) host).signature)
    × (All (λ n. (p : PairSides) × (host.pairs n ≡ some p)) (pair_names (register 1))
        × (All
              (λ n. is_dual (host.pairs n) ≡ batch_dual (register 1) host)
              (pair_names (register 1))
            × ((r : ℕ)
                → (register 1).role ≡ some r
                → All (λ n. has_role r (host.pairs n) ≡ true) (pair_names (register 1)))))
handle_register_tensors-Sound_example =
    handle_register_tensors-Sound layouts (register 1) host 0 true refl both_admitted.0
