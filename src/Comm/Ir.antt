-- ===== src/Comm/Ir.antt =====
-- src/etha/comm/ir.py and transfer.py: the types of the mesh-to-mesh map.
use etha.Prelude.{
  list_beq_iff, ℕ, ◌*◌, ◌≡◌, refl, ◌↔◌, Bool, true, false, ◌&&◌, Option, List, [], ◌∷◌, arith, ◌==◌,
  Eq, nat_eq, list_eq,
}
use etha.Comm.Slices.{Slice}

pub data Transport : Type 0 where
  p2p broadcast local reduce_only : Transport

pub Transport-discrete : Discrete Transport
Transport-discrete = hlevel

abbrev pub same_transport : Transport → Transport → Bool
same_transport p2p p2p = true
same_transport broadcast broadcast = true
same_transport local local = true
same_transport reduce_only reduce_only = true
same_transport _ _ = false

-- A rank and its cell in the transfer grid.
pub record Endpoint : Type 0 where
  pub rank : ℕ
  pub cell : List ℕ

pub record Route : Type 0 where
  pub src : Endpoint
  pub dsts : List Endpoint
  pub kind : Transport

-- Reduce operations are only compared, so they are numbers.
pub record M2MMap : Type 0 where
  pub routes : List Route
  pub source_num_slicers : List ℕ
  pub target_num_slicers : List ℕ
  pub source_partial_reductions : List (ℕ × ℕ)

pub record Dtype : Type 0 where
  pub name : ℕ
  pub itemsize : ℕ

-- A tensor is known by an identity, its local shape and its type; the data is modelled with buckets.
pub record Tensor : Type 0 where
  pub id : ℕ
  pub shape : List ℕ
  pub dtype : Dtype

-- A process group with a reduce operation.
abbrev pub PartialGroup : Type 0
PartialGroup = ℕ × ℕ

-- The descriptor of one tensor region, without its buffer.
pub record Chunk : Type 0 where
  pub transport : Transport
  pub is_source : Bool
  pub is_target : Bool
  pub src_rank : ℕ
  pub dst_ranks : List ℕ
  pub chunk_shape : List ℕ
  pub tensor : Tensor
  pub src_tensor : Option Tensor
  pub src_slice : List Slice
  pub dst_slice : List Slice
  pub transfer_dtype : Dtype
  pub src_idx : List ℕ
  pub dst_idx : Option (List ℕ)
  pub source_partial_groups : List PartialGroup

-- `math.prod(chunk_shape) * itemsize`
abbrev pub prod : List ℕ → ℕ
prod [] = 1
prod (n ∷ ns) = n * prod ns

unfoldable pub nbytes : Chunk → ℕ
nbytes c = prod c.chunk_shape * c.transfer_dtype.itemsize

-- The tuple `bucket_key`.
pub record BucketKey : Type 0 where
  pub src_rank : ℕ
  pub dst_ranks : List ℕ
  pub partial_sig : List PartialGroup
  pub cell_key : List ℕ
  pub transport : Transport

-- The cell is part of the key for reduce-only chunks of a partial source.
unfoldable pub cell_key_of : List PartialGroup → List ℕ → List ℕ → List ℕ
cell_key_of (g ∷ gs) [] src_idx = src_idx
cell_key_of _ _ src_idx = []

unfoldable pub bucket_key : Chunk → BucketKey
unfolding cell_key_of
bucket_key c = record {
  src_rank = c.src_rank;
  dst_ranks = c.dst_ranks;
  partial_sig = c.source_partial_groups;
  cell_key = cell_key_of c.source_partial_groups c.dst_ranks c.src_idx;
  transport = c.transport;
}

abbrev pub same_groups : List PartialGroup → List PartialGroup → Bool
same_groups [] [] = true
same_groups ((g, o) ∷ gs) ((h, p) ∷ hs) = g == h && (o == p && same_groups gs hs)
same_groups _ _ = false

unfoldable pub same_key : BucketKey → BucketKey → Bool
same_key a b =
    a.src_rank == b.src_rank
    && (a.dst_ranks == b.dst_ranks
        && (same_groups a.partial_sig b.partial_sig
            && (a.cell_key == b.cell_key && same_transport a.transport b.transport)))

same_groups_sound : (a b : List PartialGroup) → same_groups a b ≡ true → a ≡ b
same_groups_sound [] [] h = refl
same_groups_sound [] (y ∷ b) h = cc
same_groups_sound (x ∷ a) [] h = cc
same_groups_sound ((g, o) ∷ a) ((k, p) ∷ b) h = ground (arith, same_groups_sound a b)

same_groups_refl : (a : List PartialGroup) → same_groups a a ≡ true
same_groups_refl [] = refl
same_groups_refl ((g, o) ∷ a) = ground (arith, same_groups_refl a)

same_transport_sound : (a b : Transport) → same_transport a b ≡ true → a ≡ b
same_transport_sound p2p b h = ground arith
same_transport_sound a b h = ground arith

same_transport_refl : (a : Transport) → same_transport a a ≡ true
same_transport_refl p2p = refl
same_transport_refl a = refl

pub same_key_iff : (a b : BucketKey) → (same_key a b ≡ true) ↔ (a ≡ b)
unfolding same_key
same_key_iff a b = (
  λ h. ground (
    arith,
    list_beq_iff a.dst_ranks b.dst_ranks,
    list_beq_iff a.cell_key b.cell_key,
    same_groups_sound a.partial_sig b.partial_sig,
    same_transport_sound a.transport b.transport,
  ),
  λ e. rw e (
      ground (
        arith,
        list_beq_iff b.dst_ranks b.dst_ranks,
        list_beq_iff b.cell_key b.cell_key,
        same_groups_refl b.partial_sig,
        same_transport_refl b.transport,
      )),
)

instance abbrev pub key_eq : Eq BucketKey
key_eq = record { beq = same_key; beq_iff = same_key_iff }
