-- ===== src/TensorBus/Generate.antt =====
-- The chunks and buckets of a batch in src/etha/tensor_bus/agent.py: `_generate_dual_buckets`, and the
-- last part of `_handle_register_tensors` for a batch whose sides are on different agents.
pub mod Wire
pub mod Shares
pub mod Directions
mod Examples
use etha.Prelude.{
  pair_eq, List-cases, select, select-append, nat_beq, nat_beq_iff, list_beq, list_beq_iff, ℕ, zero,
  suc, ◌+◌, ◌-◌, ◌*◌, ◌/◌, ◌%◌, ◌^◌, ◌≤◌, ◌<◌, min, max, ◌≡◌, refl, sym, ap, ap₂, subst, fun_ext,
  ◌∙◌, ◌≢◌, ◌↔◌, ◌⊎◌, inl, inr, Bool, true, false, ◌&&◌, ◌||◌, not, Option, none, some, List, [],
  ◌∷◌, ◌++◌, map, arith, ltb, leb, ◌==◌, Eq, nat_eq, list_eq, if◌then◌else◌, Bool-cases,
  Option-cases, length, get_elem?, take, drop, length-append, length-drop, All, All-append, sum,
  sum-append,
}
use etha.Prelude.Dict.{Dict, lookup, insert}
use etha.Prelude.Sorting.{sorted_set, nat_order}
use etha.Comm.Ir.{M2MMap, PartialGroup, Tensor, Dtype, Chunk}
use etha.Comm.Chunks.{Args, m2m_to_chunks}
use etha.Comm.Buckets.{Bucket, chunk_to_bucket_ops}
use etha.TensorBus.Rounds.{Direction}

-- `KeyError`, `IndexError`, `ValueError`, and the agent's own error.
pub data GenerateError : Type 0 where
  key_error index_error value_error invalid_registration : GenerateError

pub data Result {ℓ} (A : Type ℓ) : Type ℓ where
  ok : A → Result A
  raised : GenerateError → Result A

infixl 5 ◌>>=◌
abbrev pub ◌>>=◌ {ℓ κ} : {A : Type ℓ} {B : Type κ} → Result A → (A → Result B) → Result B
raised e >>= f = raised e
ok a >>= f = f a

abbrev pub or_raise {ℓ} : {A : Type ℓ} → GenerateError → Option A → Result A
or_raise e none = raised e
or_raise e (some a) = ok a

-- The type of the smaller items; the first one's if both are as large.
unfoldable pub transfer_dtype_of : Dtype → Dtype → Dtype
transfer_dtype_of first second = if leb first.itemsize second.itemsize then first else second

abbrev pub groups_or_none : Option (List PartialGroup) → List PartialGroup
groups_or_none none = []
groups_or_none (some gs) = gs

-- `m2m_to_chunks` for one tensor.
unfoldable pub tensor_chunks :
    M2MMap
    → ℕ
    → Option Tensor
    → Option Tensor
    → Option Dtype
    → Option (List PartialGroup)
    → Result (List Chunk)
unfolding m2m_to_chunks
tensor_chunks m rank source target dtype partials = or_raise index_error (
    m2m_to_chunks
      (record {
        rank = rank;
        source_tensor = source;
        target_tensor = target;
        transfer_dtype = dtype;
        source_partial_groups = groups_or_none partials;
        source_num_slicers = m.source_num_slicers;
        target_num_slicers = m.target_num_slicers;
      })
      m.routes)

-- `PairState` in the roles' view: the map and the Partial groups of each source role.
pub record DualPair : Type 0 where
  pub m2m_by_source_role : Dict ℕ (Option M2MMap)
  pub partial_by_source_role : Dict ℕ (Option (List PartialGroup))

-- `BatchState` of a dual batch, and the agent's pairs. Tensors and types are kept by pair and role.
pub record DualBatch : Type 0 where
  pub rank : ℕ
  pub pair_names : List ℕ
  pub bucket_size : Option ℕ
  pub pairs : ℕ → Option DualPair
  pub pair_role_tensors : ℕ → ℕ → Option (List Tensor)
  pub pair_role_dtypes : ℕ → ℕ → Option (List Dtype)

-- `bucket_size or 1`
abbrev pub coalesce_bytes : Option ℕ → ℕ
coalesce_bytes none = 1
coalesce_bytes (some zero) = 1
coalesce_bytes (some (suc n)) = suc n

-- `for i in range(len(src_tensors))`
unfoldable pub tensor_loop :
    M2MMap
    → ℕ
    → Option (List PartialGroup)
    → List Tensor
    → List Tensor
    → List Dtype
    → List Dtype
    → Result (List Chunk)
unfolding tensor_chunks transfer_dtype_of
tensor_loop m rank partials [] ts ds es = ok []
tensor_loop m rank partials (s ∷ ss) (t ∷ ts) (d ∷ ds) (e ∷ es) =
    tensor_chunks m rank (some s) (some t) (some (transfer_dtype_of d e)) partials >>= λ cs.
    tensor_loop m rank partials ss ts ds es >>= λ rest. ok (cs ++ rest)
tensor_loop m rank partials (s ∷ ss) _ _ _ = raised index_error

abbrev pub flatten {ℓ} : {A : Type ℓ} → Option (Option A) → Option A
flatten none = none
flatten (some o) = o

-- The chunks of a pair in one direction that has a map.
unfoldable pub pair_chunks : DualBatch → ℕ → DualPair → ℕ → ℕ → M2MMap → Result (List Chunk)
unfolding tensor_loop
pair_chunks b name pair src dst m =
    or_raise key_error (b.pair_role_tensors name src) >>= λ src_tensors.
    or_raise key_error (b.pair_role_tensors name dst) >>= λ dst_tensors.
    or_raise key_error (b.pair_role_dtypes name src) >>= λ src_dtypes.
    or_raise key_error (b.pair_role_dtypes name dst) >>= λ dst_dtypes.
    if length src_tensors == length dst_tensors
    then tensor_loop m b.rank (flatten (lookup src pair.partial_by_source_role)) src_tensors
        dst_tensors src_dtypes dst_dtypes
    else raised invalid_registration

-- `chunks_by_direction`: `none` for a direction without a map.
abbrev pub ByDirection : Type 0
ByDirection = Dict Direction (Option (List Chunk))

-- What a direction has so far: `setdefault(direction, [])`.
abbrev pub so_far : Option (Option (List Chunk)) → Option (List Chunk)
so_far none = some []
so_far (some o) = o

abbrev pub extend_direction :
    Direction → List Chunk → ByDirection → Result (List Chunk) → Result ByDirection
extend_direction d before acc (raised e) = raised e
extend_direction d before acc (ok cs) = ok (insert d (some (before ++ cs)) acc)

-- One direction of one pair.
unfoldable pub direction_step :
    DualBatch → ℕ → DualPair → ℕ → ℕ → Option M2MMap → ByDirection → Result ByDirection
unfolding pair_chunks
direction_step b name pair src dst none acc = ok (insert (src, dst) none acc)
direction_step b name pair src dst (some m) acc = elim (so_far (lookup (src, dst) acc)) [
  | none ↦ ok (insert (src, dst) none acc)
  | some before ↦ extend_direction (src, dst) before acc (pair_chunks b name pair src dst m)
]

abbrev pub keys_of {ℓ} : {A : Type ℓ} → Dict ℕ A → List ℕ
keys_of [] = []
keys_of ((k, v) ∷ d) = k ∷ keys_of d

abbrev pub first_other : ℕ → List ℕ → Option ℕ
first_other src [] = none
first_other src (r ∷ rs) = if r == src then first_other src rs else some r

-- `for src_role in sorted(pair.m2m_by_source_role)`
unfoldable pub role_loop : DualBatch → ℕ → DualPair → List ℕ → ByDirection → Result ByDirection
unfolding direction_step
role_loop b name pair [] acc = ok acc
role_loop b name pair (src ∷ roles) acc =
    or_raise value_error (first_other src (keys_of pair.m2m_by_source_role)) >>= λ dst.
    direction_step b name pair src dst (flatten (lookup src pair.m2m_by_source_role)) acc
    >>= λ next. role_loop b name pair roles next

-- `for pair_name in sorted(batch_state.pair_names)`
unfoldable pub pair_loop : DualBatch → List ℕ → ByDirection → Result ByDirection
unfolding role_loop sorted_set
pair_loop b [] acc = ok acc
pair_loop b (name ∷ names) acc = or_raise key_error (b.pairs name) >>= λ pair.
    role_loop b name pair (sorted_set (keys_of pair.m2m_by_source_role)) acc >>= λ next.
    pair_loop b names next

-- The buckets of each direction. The dictionary is only looked up, so its order is left as it is.
unfoldable pub bucketize : ℕ → ByDirection → Dict Direction (Option (List Bucket))
unfolding chunk_to_bucket_ops
bucketize size [] = []
bucketize size ((d, none) ∷ acc) = (d, none) ∷ bucketize size acc
bucketize size ((d, some cs) ∷ acc) = (d, some (chunk_to_bucket_ops cs size)) ∷ bucketize size acc

-- `_generate_dual_buckets`, after the groups are made.
unfoldable pub generate_dual_buckets : DualBatch → Result (Dict Direction (Option (List Bucket)))
unfolding pair_loop bucketize sorted_set
generate_dual_buckets b = pair_loop b (sorted_set b.pair_names) [] >>= λ acc.
    ok (bucketize (coalesce_bytes b.bucket_size) acc)

-- A pair whose sides are on different agents, with the tensors registered here and the types that
-- the first rank of the other side sent for them.
pub record SplitPair : Type 0 where
  pub m2m_send : Option M2MMap
  pub m2m_recv : Option M2MMap
  pub source_partial_groups : Option (List PartialGroup)
  pub tensors : List Tensor
  pub target_dtypes : List (Option Dtype)

-- The wire type of a tensor: the smaller of both types, its own if they are as large.
unfoldable pub split_dtype : Dtype → Option Dtype → Option Dtype
unfolding transfer_dtype_of
split_dtype mine none = none
split_dtype mine (some theirs) = some (transfer_dtype_of mine theirs)

abbrev pub if_mapped : Option M2MMap → (M2MMap → Result (List Chunk)) → Result (List Chunk)
if_mapped none f = ok []
if_mapped (some m) f = f m

-- The send and receive chunks of a pair's tensors; there is a target type for each.
unfoldable pub split_loop :
    ℕ → SplitPair → List Tensor → List (Option Dtype) → Result (List Chunk × List Chunk)
unfolding tensor_chunks split_dtype
split_loop rank p [] ds = ok ([], [])
split_loop rank p (t ∷ ts) [] = raised index_error
split_loop rank p (t ∷ ts) (d ∷ ds) =
    let dtype = split_dtype t.dtype d in
    if_mapped p.m2m_send (λ m. tensor_chunks m rank (some t) none dtype p.source_partial_groups)
    >>= λ send.
        if_mapped p.m2m_recv (λ m. tensor_chunks m rank none (some t) dtype none) >>= λ recv.
        split_loop rank p ts ds >>= λ rest. ok (send ++ rest.0, recv ++ rest.1)

unfoldable pub split_pairs : ℕ → List SplitPair → Result (List Chunk × List Chunk)
unfolding split_loop
split_pairs rank [] = ok ([], [])
split_pairs rank (p ∷ ps) = split_loop rank p p.tensors p.target_dtypes >>= λ own.
    split_pairs rank ps >>= λ rest. ok (own.0 ++ rest.0, own.1 ++ rest.1)

-- `send_buckets` and `recv_buckets`
unfoldable pub split_buckets : ℕ → Option ℕ → List SplitPair → Result (List Bucket × List Bucket)
unfolding split_pairs chunk_to_bucket_ops
split_buckets rank bucket_size pairs = split_pairs rank pairs >>= λ chunks. ok (
  chunk_to_bucket_ops chunks.0 (coalesce_bytes bucket_size),
  chunk_to_bucket_ops chunks.1 (coalesce_bytes bucket_size),
)
