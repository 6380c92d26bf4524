-- ===== src/Comm/Buckets/Contents.antt =====
-- What the buckets of get_buckets.py hold.

use etha.Prelude.{
  ℕ, suc, ◌+◌, ◌≡◌, refl, sym, ap, inl, inr, Bool, List, [], ◌∷◌, ◌++◌, arith, leb, nat_eq, list_eq,
  if◌then◌else◌, Bool-cases,
}
use etha.Prelude.Dict.{Dict, lookup, insert}
use etha.Comm.Ir.{Chunk, BucketKey, bucket_key, nbytes, key_eq}
use etha.Comm.Buckets.{
  Bucket, make_bucket, Waiting, or_default, State, join_group, add_chunk, chunk_loop, leftovers,
  chunk_to_bucket_ops,
}

-- How many chunks pass a test.
abbrev pub count : (Chunk → Bool) → List Chunk → ℕ
count p [] = 0
count p (c ∷ cs) = if p c then suc (count p cs) else count p cs

abbrev pub count_buckets : (Chunk → Bool) → List Bucket → ℕ
count_buckets p [] = 0
count_buckets p (b ∷ bs) = count p b.chunks + count_buckets p bs

abbrev count_groups : (Chunk → Bool) → Dict BucketKey Waiting → ℕ
count_groups p [] = 0
count_groups p ((k, (cs, n)) ∷ g) = count p cs + count_groups p g

module _ (p : Chunk → Bool) where
  count-append : (xs ys : List Chunk) → count p (xs ++ ys) ≡ count p xs + count p ys
  count-append [] ys = omega arith
  count-append (x ∷ xs) ys = ground (arith, count-append xs ys)

  count_buckets-append :
      (xs ys : List Bucket) → count_buckets p (xs ++ ys) ≡ count_buckets p xs + count_buckets p ys
  count_buckets-append [] ys = omega arith
  count_buckets-append (x ∷ xs) ys = omega (arith, count_buckets-append xs ys)

  -- Storing a group counts its chunks in place of those it replaces.
  count_groups-insert :
      (k : BucketKey) (w : Waiting) (g : Dict BucketKey Waiting)
      → count_groups p (insert k w g) + count p (or_default (lookup k g)).0
        ≡ count_groups p g + count p w.0
  count_groups-insert k w [] = omega arith
  count_groups-insert k w ((j, v) ∷ g) = ground (arith, count_groups-insert k w g)

  count_leftovers : (g : Dict BucketKey Waiting) → count_buckets p (leftovers g) ≡ count_groups p g
  unfolding leftovers make_bucket
  count_leftovers [] = refl
  count_leftovers ((k, ([], n)) ∷ g) = omega (arith, count_leftovers g)
  count_leftovers ((k, (c ∷ cs, n)) ∷ g) = omega (arith, count_leftovers g)

  abbrev held : State → ℕ
  held s = count_buckets p s.buckets + count_groups p s.grouped_state

  held-join_group :
      (size : ℕ) (c : Chunk) (w : Waiting) (s : State)
      → w ≡ or_default (lookup (bucket_key c) s.grouped_state)
      → held (join_group size c w s) ≡ held s + count p (c ∷ [])
  unfolding join_group make_bucket
  held-join_group size c (cs, n) s e =
      let k : BucketKey = bucket_key c in
      let joined : List Chunk = cs ++ c ∷ [] in
      let counted : count p (or_default (lookup k s.grouped_state)).0 ≡ count p cs =
        ap (λ (v : Waiting). count p v.0) (sym e) in
      elim (Bool-cases (leb size (n + nbytes c))) [
        | inl full ↦ rw full (
            omega (
              arith,
              count_groups-insert k ([], 0) s.grouped_state,
              count_buckets-append s.buckets (make_bucket joined ∷ []),
              count-append cs (c ∷ []),
              counted,
            ))
        | inr small ↦ rw small (
            omega (
              arith,
              count_groups-insert k (joined, n + nbytes c) s.grouped_state,
              count-append cs (c ∷ []),
              counted,
            ))
      ]

  held-add_chunk :
      (size : ℕ) (c : Chunk) (s : State) → held (add_chunk size c s) ≡ held s + count p (c ∷ [])
  unfolding add_chunk make_bucket
  held-add_chunk size c s = elim (Bool-cases (leb size (nbytes c))) [
    | inl big ↦ rw big (omega (arith, count_buckets-append s.buckets (make_bucket (c ∷ []) ∷ [])))
    | inr small ↦
        rw small
          (held-join_group size c (or_default (lookup (bucket_key c) s.grouped_state)) s refl)
  ]

  held-chunk_loop :
      (size : ℕ) (cs : List Chunk) (s : State) → held (chunk_loop size cs s) ≡ held s + count p cs
  unfolding chunk_loop
  held-chunk_loop size [] s = omega arith
  held-chunk_loop size (c ∷ cs) s = omega (
    arith,
    held-chunk_loop size cs (add_chunk size c s),
    held-add_chunk size c s,
    count-append (c ∷ []) cs,
  )

  -- The buckets hold the chunks that were given, each as often: for every test, as many pass.
  pub count-chunk_to_bucket_ops :
      (cs : List Chunk) (size : ℕ) → count_buckets p (chunk_to_bucket_ops cs size) ≡ count p cs
  unfolding chunk_to_bucket_ops
  count-chunk_to_bucket_ops cs size =
      let s : State = chunk_loop size cs (record { buckets = []; grouped_state = [] }) in
      omega (
        arith,
        count_buckets-append s.buckets (leftovers s.grouped_state),
        count_leftovers s.grouped_state,
        held-chunk_loop size cs (record { buckets = []; grouped_state = [] }),
      )
