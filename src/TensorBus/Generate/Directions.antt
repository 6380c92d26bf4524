-- ===== src/TensorBus/Generate/Directions.antt =====
-- No pair's chunks are dropped from a direction of a dual batch in agent.py.
use mathlib.Core.List.{append-nil, append_assoc}
use etha.Comm.Buckets.{Bucket, chunk_to_bucket_ops}
use etha.Prelude.{
  pair_eq, ℕ, ◌≡◌, refl, sym, ap, ◌∙◌, inl, inr, Bool, true, false, Option, none, some, List, [],
  ◌∷◌, ◌++◌, arith, ◌==◌, nat_eq, list_eq, if◌then◌else◌, Bool-cases,
}
use etha.Prelude.Dict.{Dict, lookup}
use etha.Prelude.Sorting.{sorted_set, nat_order}
use etha.Comm.Ir.{Chunk}
use etha.TensorBus.Rounds.{Direction}
use etha.TensorBus.Generate.{
  ok, DualBatch, ByDirection, pair_loop, bucketize, generate_dual_buckets, coalesce_bytes,
}
use etha.TensorBus.Generate.Shares.{>>=-ok, joins, pair_shares, lookup-pair_loop}

-- A direction that no pair has is absent; one that some pair has no map for has no buckets.
abbrev pub all_given : List (Option (List Chunk)) → Bool
all_given [] = true
all_given (none ∷ xs) = false
all_given (some cs ∷ xs) = all_given xs

abbrev pub chunks_of : List (Option (List Chunk)) → List Chunk
chunks_of [] = []
chunks_of (none ∷ xs) = chunks_of xs
chunks_of (some cs ∷ xs) = cs ++ chunks_of xs

abbrev pub gathered : List (Option (List Chunk)) → Option (Option (List Chunk))
gathered [] = none
gathered (x ∷ xs) = some (if all_given (x ∷ xs) then some (chunks_of (x ∷ xs)) else none)

joins-none :
    (b : DualBatch) (d : Direction) (xs : List (Option (List Chunk)))
    → joins b d (some none) xs ≡ some none
joins-none b d [] = refl
joins-none b d (none ∷ xs) = joins-none b d xs
joins-none b d (some cs ∷ xs) = joins-none b d xs

joins-some :
    (b : DualBatch) (d : Direction) (xs : List (Option (List Chunk))) (before : List Chunk)
    → joins b d (some (some before)) xs
      ≡ some (if all_given xs then some (before ++ chunks_of xs) else none)
joins-some b d [] before = ap (λ (l : List Chunk). some (some l)) (sym (append-nil before))
joins-some b d (none ∷ xs) before = joins-none b d xs
joins-some b d (some cs ∷ xs) before =
    joins-some b d xs (before ++ cs)
    ∙ ap (λ (l : List Chunk). some (if all_given xs then some l else none))
        (append_assoc before cs (chunks_of xs))

joins-gathered :
    (b : DualBatch) (d : Direction) (xs : List (Option (List Chunk)))
    → joins b d none xs ≡ gathered xs
joins-gathered b d [] = refl
joins-gathered b d (none ∷ xs) = joins-none b d xs
joins-gathered b d (some cs ∷ xs) = joins-some b d xs cs

-- The buckets of a direction.
abbrev pub bucketized : ℕ → Option (Option (List Chunk)) → Option (Option (List Bucket))
bucketized size none = none
bucketized size (some none) = some none
bucketized size (some (some cs)) = some (some (chunk_to_bucket_ops cs size))

lookup-bucketize :
    (size : ℕ) (d : Direction) (acc : ByDirection)
    → lookup d (bucketize size acc) ≡ bucketized size (lookup d acc)
unfolding bucketize
lookup-bucketize size d [] = refl
lookup-bucketize size d ((k, none) ∷ acc) = elim (Bool-cases (d == k)) [
  | inl own ↦ rw own refl
  | inr other ↦ rw other (lookup-bucketize size d acc)
]
lookup-bucketize size d ((k, some cs) ∷ acc) = elim (Bool-cases (d == k)) [
  | inl own ↦ rw own refl
  | inr other ↦ rw other (lookup-bucketize size d acc)
]

-- When the buckets of a dual batch are generated, those of a direction are the buckets of the chunks
-- of all its pairs, in the order of their names, or none if a pair has no map for the direction.
pub lookup-generate_dual_buckets :
    (b : DualBatch) (buckets : Dict Direction (Option (List Bucket)))
    → generate_dual_buckets b ≡ ok buckets
    → (d : Direction)
    → lookup d buckets
      ≡ bucketized
          (coalesce_bytes b.bucket_size)
          (gathered (pair_shares b d (sorted_set b.pair_names)))
unfolding generate_dual_buckets
lookup-generate_dual_buckets b buckets h d =
    let size : ℕ = coalesce_bytes b.bucket_size in
    let (acc, made, last) =
      >>=-ok (pair_loop b (sorted_set b.pair_names) []) (λ acc. ok (bucketize size acc)) buckets
        h in
    let is : bucketize size acc ≡ buckets = ground (arith, last) in
    rw (← is) (
      lookup-bucketize size d acc
      ∙ ap (bucketized size) (
          lookup-pair_loop b d (sorted_set b.pair_names) [] acc made
          ∙ joins-gathered b d (pair_shares b d (sorted_set b.pair_names))))
