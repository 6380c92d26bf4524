-- ===== src/Comm/Chunks.antt =====
-- src/etha/comm/get_chunks.py: the chunks of one rank, made from the routes of a map.
pub mod Lockstep
mod Examples
use etha.Prelude.{
  nat_beq, nat_beq_iff, list_beq, list_beq_iff, ℕ, zero, suc, ◌+◌, ◌-◌, ◌*◌, ◌/◌, ◌%◌, ◌^◌, ◌≤◌,
  ◌<◌, min, max, ◌≡◌, refl, sym, ap, ap₂, subst, fun_ext, ◌∙◌, ◌≢◌, ◌↔◌, ◌⊎◌, inl, inr, Bool, true,
  false, ◌&&◌, ◌||◌, not, Option, none, some, List, [], ◌∷◌, ◌++◌, map, arith, ltb, leb, ◌==◌, Eq,
  nat_eq, list_eq, if◌then◌else◌, Bool-cases, Option-cases, length, get_elem?, take, drop,
  length-append, length-drop, All, All-append, sum, sum-append,
}
use etha.Prelude.Sorting.{sorted_set, nat_order}
use etha.Comm.Slices.{Slice, get_slicer_tuples, get_slice_from_multi_index}
use etha.Comm.Layout.{zip_with, ones}
use etha.Comm.Ir.{
  Endpoint, Route, Transport, p2p, local, same_transport, M2MMap, Dtype, Tensor, PartialGroup,
  Chunk,
}

infixl 5 ◌>>=◌
abbrev pub ◌>>=◌ {ℓ κ} : {A : Type ℓ} {B : Type κ} → Option A → (A → Option B) → Option B
none >>= f = none
some a >>= f = f a

-- The arguments of `m2m_to_chunks` beside the routes. No groups are an empty list.
pub record Args : Type 0 where
  pub rank : ℕ
  pub source_tensor : Option Tensor
  pub target_tensor : Option Tensor
  pub transfer_dtype : Option Dtype
  pub source_partial_groups : List PartialGroup
  pub source_num_slicers : List ℕ
  pub target_num_slicers : List ℕ

-- `(num_slicers + [1] * ndim)[:ndim]`
unfoldable pub extended : List ℕ → List ℕ → List ℕ
unfolding ones
extended nums shape = take (length shape) (nums ++ ones (length shape))

unfoldable pub calculate_chunk_shape : List ℕ → List ℕ → List ℕ
calculate_chunk_shape nums shape = zip_with ◌/◌ shape nums

-- The slices of a cell in one tensor, empty if the tensor is not there; `none` is an `IndexError`.
unfoldable pub slices_of : Option Tensor → List ℕ → List ℕ → Option (List Slice)
unfolding extended get_slice_from_multi_index get_slicer_tuples
slices_of none nums cell = some []
slices_of (some t) nums cell =
    get_slice_from_multi_index cell (extended nums t.shape)
      (get_slicer_tuples t.shape (extended nums t.shape))

-- `__post_init__`: the wire type is that of the tensor if none is given.
abbrev pub wire_dtype : Option Dtype → Tensor → Dtype
wire_dtype none t = t.dtype
wire_dtype (some d) t = d

unfoldable pub dst_ranks_of : Route → List ℕ
dst_ranks_of r = sorted_set (map (λ d. d.rank) r.dsts)

abbrev pub is_some {ℓ} : {A : Type ℓ} → Option A → Bool
is_some none = false
is_some (some a) = true

abbrev pub non_empty {ℓ} : {A : Type ℓ} → List A → Bool
non_empty [] = false
non_empty (x ∷ xs) = true

-- A route from a rank to itself alone.
unfoldable pub self_p2p : Args → Route → Bool
unfolding dst_ranks_of
self_p2p a r = same_transport r.kind p2p && dst_ranks_of r == (a.rank ∷ [])

unfoldable pub source_chunk : Args → Route → Tensor → List Slice → Chunk
unfolding calculate_chunk_shape dst_ranks_of
source_chunk a r t slices = record {
  transport = r.kind;
  is_source = true;
  is_target = false;
  src_rank = a.rank;
  dst_ranks = dst_ranks_of r;
  chunk_shape = calculate_chunk_shape (extended a.source_num_slicers t.shape) t.shape;
  tensor = t;
  src_tensor = none;
  src_slice = slices;
  dst_slice = [];
  transfer_dtype = wire_dtype a.transfer_dtype t;
  src_idx = r.src.cell;
  dst_idx = none;
  source_partial_groups = a.source_partial_groups;
}

unfoldable pub local_chunk :
    Args → Route → Tensor → Tensor → List Slice → Endpoint → List Slice → Chunk
unfolding calculate_chunk_shape dst_ranks_of
local_chunk a r s t src_slices dst dst_slices = record {
  transport = local;
  is_source = true;
  is_target = true;
  src_rank = r.src.rank;
  dst_ranks = dst_ranks_of r;
  chunk_shape = calculate_chunk_shape (extended a.target_num_slicers t.shape) t.shape;
  tensor = t;
  src_tensor = some s;
  src_slice = src_slices;
  dst_slice = dst_slices;
  transfer_dtype = wire_dtype a.transfer_dtype t;
  src_idx = r.src.cell;
  dst_idx = some dst.cell;
  source_partial_groups = if self_p2p a r then a.source_partial_groups else [];
}

unfoldable pub recv_chunk : Args → Route → Tensor → Endpoint → List Slice → Chunk
unfolding calculate_chunk_shape dst_ranks_of
recv_chunk a r t dst dst_slices = record {
  transport = r.kind;
  is_source = false;
  is_target = true;
  src_rank = r.src.rank;
  dst_ranks = dst_ranks_of r;
  chunk_shape = calculate_chunk_shape (extended a.target_num_slicers t.shape) t.shape;
  tensor = t;
  src_tensor = none;
  src_slice = [];
  dst_slice = dst_slices;
  transfer_dtype = wire_dtype a.transfer_dtype t;
  src_idx = r.src.cell;
  dst_idx = some dst.cell;
  source_partial_groups = [];
}

-- The source chunk also writes the local target, from its reduced buffer.
unfoldable pub also_target : Tensor → Tensor → Endpoint → List Slice → Chunk → Chunk
also_target s t dst dst_slices c = record c {
  is_target = true;
  src_tensor = some s;
  tensor = t;
  dst_idx = some dst.cell;
  dst_slice = dst_slices;
}

-- The source chunk of the current route, if it was appended, and the chunks appended after it.
abbrev pub Emitted : Type 0
Emitted = Option Chunk × List Chunk

-- What one destination on this rank adds.
unfoldable pub emit_dst :
    Args
    → Route
    → List Slice
    → Endpoint
    → List Slice
    → Option Tensor
    → Option Tensor
    → Emitted
    → Emitted
emit_dst a r src_slices dst dst_slices source none e = e
emit_dst a r src_slices dst dst_slices none (some t) (src, out) =
    (src, out ++ recv_chunk a r t dst dst_slices ∷ [])
emit_dst a r src_slices dst dst_slices (some s) (some t) (src, out) =
    if r.src.rank == a.rank
    then if non_empty a.source_partial_groups && not (self_p2p a r)
      then (elim src [ none ↦ none | some c ↦ some (also_target s t dst dst_slices c) ], out)
      else (src, out ++ local_chunk a r s t src_slices dst dst_slices ∷ [])
    else (src, out ++ recv_chunk a r t dst dst_slices ∷ [])

unfoldable pub dst_loop : Args → Route → List Slice → List Endpoint → Emitted → Option Emitted
unfolding emit_dst slices_of
dst_loop a r src_slices [] e = some e
dst_loop a r src_slices (dst ∷ dsts) e =
    let skip = dst_loop a r src_slices dsts e in
    let visit = slices_of a.target_tensor a.target_num_slicers dst.cell >>= λ dst_slices.
    dst_loop a r src_slices dsts
      (emit_dst a r src_slices dst dst_slices a.source_tensor a.target_tensor e) in
    if dst.rank == a.rank then visit else skip

abbrev pub flatten_emitted : Emitted → List Chunk
flatten_emitted (none, out) = out
flatten_emitted (some c, out) = c ∷ out

unfoldable pub source_part : Args → Route → List Slice → Option Tensor → Option Chunk
unfolding source_chunk self_p2p
source_part a r slices none = none
source_part a r slices (some s) =
    if self_p2p a r && is_some a.target_tensor then none else some (source_chunk a r s slices)

unfoldable pub route_chunks : Args → Route → Option (List Chunk)
unfolding source_part dst_loop
route_chunks a r =
    if r.src.rank == a.rank
    then (slices_of a.source_tensor a.source_num_slicers r.src.cell >>= λ slices.
        dst_loop a r slices r.dsts (source_part a r slices a.source_tensor, []) >>= λ e.
        some (flatten_emitted e))
    else (dst_loop a r [] r.dsts (none, []) >>= λ e. some (flatten_emitted e))

unfoldable pub m2m_to_chunks : Args → List Route → Option (List Chunk)
unfolding route_chunks
m2m_to_chunks a [] = some []
m2m_to_chunks a (r ∷ rs) = route_chunks a r >>= λ cs. m2m_to_chunks a rs >>= λ ds. some (cs ++ ds)
