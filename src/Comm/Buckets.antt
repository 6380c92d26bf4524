-- ===== src/Comm/Buckets.antt =====
-- src/etha/comm/get_buckets.py, and the layout of a bucket's buffer in src/etha/comm/ir.py.
pub mod Contents
pub mod Coalesced
pub mod Channels
pub mod Buffer
mod Examples
use etha.Prelude.{
  select, select-append, nat_beq, nat_beq_iff, list_beq, list_beq_iff, ℕ, zero, suc, ◌+◌, ◌-◌, ◌*◌,
  ◌/◌, ◌%◌, ◌^◌, ◌≤◌, ◌<◌, min, max, ◌≡◌, refl, sym, ap, ap₂, subst, fun_ext, ◌∙◌, ◌≢◌, ◌↔◌, ◌⊎◌,
  inl, inr, Bool, true, false, ◌&&◌, ◌||◌, not, Option, none, some, List, [], ◌∷◌, ◌++◌, map, arith,
  ltb, leb, ◌==◌, Eq, nat_eq, list_eq, if◌then◌else◌, Bool-cases, Option-cases, length, get_elem?,
  take, drop, length-append, length-drop, All, All-append, sum, sum-append,
}
use etha.Prelude.Dict.{Dict, lookup, insert}
use etha.Comm.Ir.{Chunk, BucketKey, bucket_key, nbytes, key_eq}

-- A bucket is made of at least one chunk; `offsets` are computed once, when it is made.
pub record Bucket : Type 0 where
  pub chunks : List Chunk
  pub offsets : List ℕ

unfoldable pub offsets_from : ℕ → List Chunk → List ℕ
offsets_from cursor [] = []
offsets_from cursor (c ∷ cs) = cursor ∷ offsets_from (cursor + nbytes c) cs

unfoldable pub make_bucket : List Chunk → Bucket
unfolding offsets_from
make_bucket chunks = record { chunks = chunks; offsets = offsets_from 0 chunks }

-- The chunks waiting under one key, and their bytes.
abbrev pub Waiting : Type 0
Waiting = List Chunk × ℕ

-- `defaultdict(lambda: ([], 0))`
abbrev pub or_default : Option Waiting → Waiting
or_default none = ([], 0)
or_default (some w) = w

pub record State : Type 0 where
  pub buckets : List Bucket
  pub grouped_state : Dict BucketKey Waiting

-- A chunk that is small joins those of its key; a group that has reached the size becomes a bucket.
unfoldable pub join_group : ℕ → Chunk → Waiting → State → State
unfolding make_bucket
join_group bucket_size chunk (current_chunks, current_bytes) s =
    let chunks = current_chunks ++ chunk ∷ [] in
    let bytes = current_bytes + nbytes chunk in
    if leb bucket_size bytes
    then record {
      buckets = s.buckets ++ make_bucket chunks ∷ [];
      grouped_state = insert (bucket_key chunk) ([], 0) s.grouped_state;
    }
    else record s { grouped_state = insert (bucket_key chunk) (chunks, bytes) s.grouped_state }

unfoldable pub add_chunk : ℕ → Chunk → State → State
unfolding join_group make_bucket
add_chunk bucket_size chunk s =
    if leb bucket_size (nbytes chunk)
    then record s { buckets = s.buckets ++ make_bucket (chunk ∷ []) ∷ [] }
    else join_group bucket_size chunk (or_default (lookup (bucket_key chunk) s.grouped_state)) s

unfoldable pub chunk_loop : ℕ → List Chunk → State → State
unfolding add_chunk
chunk_loop bucket_size [] s = s
chunk_loop bucket_size (c ∷ cs) s = chunk_loop bucket_size cs (add_chunk bucket_size c s)

-- The last loop: a bucket for each group that still holds chunks.
unfoldable pub leftovers : Dict BucketKey Waiting → List Bucket
unfolding make_bucket
leftovers [] = []
leftovers ((k, ([], bytes)) ∷ g) = leftovers g
leftovers ((k, (c ∷ cs, bytes)) ∷ g) = make_bucket (c ∷ cs) ∷ leftovers g

unfoldable pub chunk_to_bucket_ops : List Chunk → ℕ → List Bucket
unfolding chunk_loop leftovers
chunk_to_bucket_ops chunks bucket_size =
    let s = chunk_loop bucket_size chunks (record { buckets = []; grouped_state = [] }) in
    s.buckets ++ leftovers s.grouped_state
