-- ===== src/Comm/Buckets/Examples.antt =====
-- The buckets of a few small chunks.
use etha.Prelude.{
  pair_eq, select, ℕ, ◌≡◌, refl, Bool, true, false, none, some, List, [], ◌∷◌, ◌==◌, nat_eq,
  list_eq, All,
}
use etha.Comm.Ir.{Chunk, Tensor, p2p, bucket_key, nbytes}
use etha.Comm.Buckets.{make_bucket, chunk_to_bucket_ops}
use etha.Comm.Buckets.Contents.{count_buckets, count-chunk_to_bucket_ops}
use etha.Comm.Buckets.Coalesced.{IsCoalesced, chunk_to_bucket_ops-IsCoalesced}
use etha.Comm.Buckets.Channels.{on_channel, chunk_on, select-chunk_to_bucket_ops}
use etha.Comm.Buckets.Buffer.{prepare_source, is_aligned, then_received, received-prepare_source}

abbrev tensor : Tensor
tensor = record { id = 0; shape = 4 ∷ []; dtype = record { name = 0; itemsize = 1 } }

abbrev chunk : ℕ → ℕ → Chunk
chunk src n = record {
  transport = p2p;
  is_source = true;
  is_target = false;
  src_rank = src;
  dst_ranks = 9 ∷ [];
  chunk_shape = n ∷ [];
  tensor = tensor;
  src_tensor = none;
  src_slice = [];
  dst_slice = [];
  transfer_dtype = record { name = 0; itemsize = 1 };
  src_idx = 0 ∷ [];
  dst_idx = none;
  source_partial_groups = [];
}

abbrev chunks : List Chunk
chunks = chunk 0 2 ∷ chunk 1 5 ∷ chunk 0 3 ∷ chunk 1 1 ∷ chunk 0 1 ∷ []

abbrev from_zero : Chunk → Bool
from_zero c = c.src_rank == 0

count-chunk_to_bucket_ops_example : count_buckets from_zero (chunk_to_bucket_ops chunks 4) ≡ 3
count-chunk_to_bucket_ops_example = count-chunk_to_bucket_ops from_zero chunks 4

chunk_to_bucket_ops-IsCoalesced_example : All (IsCoalesced 4) (chunk_to_bucket_ops chunks 4)
chunk_to_bucket_ops-IsCoalesced_example = chunk_to_bucket_ops-IsCoalesced chunks 4

select-chunk_to_bucket_ops_example :
    select (on_channel (bucket_key (chunk 0 2))) (chunk_to_bucket_ops chunks 4)
    ≡ select
        (on_channel (bucket_key (chunk 0 2)))
        (chunk_to_bucket_ops (select (chunk_on (bucket_key (chunk 0 2))) chunks) 4)
select-chunk_to_bucket_ops_example = select-chunk_to_bucket_ops (bucket_key (chunk 0 2)) chunks 4

abbrev two : List Chunk
two = chunk 0 2 ∷ chunk 0 1 ∷ []

received-prepare_source_example :
    then_received
      (make_bucket two)
      (prepare_source (make_bucket two) ((5 ∷ 6 ∷ []) ∷ (7 ∷ []) ∷ []) (0 ∷ 0 ∷ 0 ∷ []))
    ≡ some ((5 ∷ 6 ∷ []) ∷ (7 ∷ []) ∷ [])
unfolding nbytes
received-prepare_source_example =
    received-prepare_source two ((5 ∷ 6 ∷ []) ∷ (7 ∷ []) ∷ []) (0 ∷ 0 ∷ 0 ∷ []) (refl, (refl, tt))
      refl

-- Two bytes before one item of four: a bucket that raises.
mixed_types :
    is_aligned
      (chunk 0 2 ∷ record (chunk 0 1) { transfer_dtype = record { name = 1; itemsize = 4 } } ∷ [])
    ≡ false
unfolding nbytes
mixed_types = refl
