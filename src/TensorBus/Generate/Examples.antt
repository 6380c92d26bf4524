-- ===== src/TensorBus/Generate/Examples.antt =====
-- The wire types and the buckets of a dual batch of agent.py, on two ranks.
use etha.Prelude.{
  pair_eq, ℕ, ◌+◌, ◌≡◌, refl, ◌≢◌, ◌↔◌, ◌⊎◌, Option, none, some, List, [], ◌∷◌, map, nat_eq,
  list_eq,
}
use etha.Prelude.Dict.{Dict, lookup}
use etha.Prelude.Sorting.{sorted_set, nat_order}
use etha.Comm.Slices.{range_from}
use etha.Comm.Ir.{M2MMap, Tensor, Dtype, p2p}
use etha.Comm.Buckets.{Bucket}
use etha.TensorBus.Rounds.{Direction}
use etha.TensorBus.Generate.{
  Result, ok, raised, DualPair, DualBatch, coalesce_bytes, split_dtype, generate_dual_buckets,
}
use etha.TensorBus.Generate.Wire.{itemsize_of, split_dtype_iff}
use etha.TensorBus.Generate.Shares.{pair_shares}
use etha.TensorBus.Generate.Directions.{gathered, bucketized, lookup-generate_dual_buckets}

abbrev bfloat16 : Dtype
bfloat16 = record { name = 0; itemsize = 2 }

abbrev float16 : Dtype
float16 = record { name = 1; itemsize = 2 }

split_dtype_iff_example :
    (itemsize_of (split_dtype bfloat16 (some float16))
      ≡ itemsize_of (split_dtype float16 (some bfloat16)))
    × ((split_dtype bfloat16 (some float16) ≡ split_dtype float16 (some bfloat16))
        ↔ ((bfloat16.itemsize ≢ float16.itemsize) ⊎ (bfloat16 ≡ float16)))
split_dtype_iff_example = split_dtype_iff bfloat16 float16

abbrev one_route : ℕ → ℕ → M2MMap
one_route src dst = record {
  routes =
      record {
        src = record { rank = src; cell = 0 ∷ [] };
        dsts = record { rank = dst; cell = 0 ∷ [] } ∷ [];
        kind = p2p;
      }
      ∷ [];
  source_num_slicers = 1 ∷ [];
  target_num_slicers = 1 ∷ [];
  source_partial_reductions = [];
}

abbrev weight : ℕ → Dtype → Tensor
weight i d = record { id = i; shape = 4 ∷ []; dtype = d }

-- Roles 1 and 2, each with one tensor; role 2 has no map.
abbrev pair : DualPair
pair = record {
  m2m_by_source_role = (1, some (one_route 0 1)) ∷ (2, none) ∷ [];
  partial_by_source_role = [];
}

abbrev batch : DualBatch
batch = record {
  rank = 0;
  pair_names = 8 ∷ 7 ∷ [];
  bucket_size = some 64;
  pairs = λ n. some pair;
  pair_role_tensors = λ n r. some (weight (n + r) bfloat16 ∷ []);
  pair_role_dtypes = λ n r. some (bfloat16 ∷ []);
}

abbrev made : Result (Dict Direction (Option (List Bucket))) → Dict Direction (Option (List Bucket))
made (raised e) = []
made (ok d) = d

abbrev buckets : Dict Direction (Option (List Bucket))
buckets = made (generate_dual_buckets batch)

generated : generate_dual_buckets batch ≡ ok buckets
unfolding generate_dual_buckets range_from
generated = refl

-- Both pairs' chunks are in one direction, the other has no buckets.
two_directions : map (λ (e : Direction × Option (List Bucket)). e.0) buckets ≡ (1, 2) ∷ (2, 1) ∷ []
unfolding generate_dual_buckets range_from
two_directions = refl

lookup-generate_dual_buckets_example :
    lookup (1, 2) buckets
    ≡ bucketized
        (coalesce_bytes (some 64))
        (gathered (pair_shares batch (1, 2) (sorted_set (8 ∷ 7 ∷ []))))
lookup-generate_dual_buckets_example = lookup-generate_dual_buckets batch buckets generated (1, 2)
