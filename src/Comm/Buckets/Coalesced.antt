-- ===== src/Comm/Buckets/Coalesced.antt =====
-- The size and the key of the buckets of get_buckets.py.
use etha.Prelude.{
  ℕ, ◌+◌, ◌<◌, ◌≡◌, refl, sym, ap, subst, ◌⊎◌, inl, inr, List, [], ◌∷◌, ◌++◌, arith, leb, ◌==◌,
  nat_eq, list_eq, Bool-cases, All, All-append,
}
use etha.Prelude.Dict.{Dict, lookup, insert}
use etha.Comm.Ir.{Chunk, BucketKey, bucket_key, nbytes, key_eq, same_key_iff}
use etha.Comm.Buckets.{
  Bucket, make_bucket, Waiting, or_default, State, join_group, add_chunk, chunk_loop, leftovers,
  chunk_to_bucket_ops,
}

abbrev pub total_bytes : List Chunk → ℕ
total_bytes [] = 0
total_bytes (c ∷ cs) = nbytes c + total_bytes cs

total_bytes-append : (xs ys : List Chunk) → total_bytes (xs ++ ys) ≡ total_bytes xs + total_bytes ys
total_bytes-append [] ys = omega arith
total_bytes-append (x ∷ xs) ys = omega (arith, total_bytes-append xs ys)

abbrev pub HasKey : BucketKey → Chunk → Type 0
HasKey k c = bucket_key c ≡ k

-- A bucket is not empty, its chunks share a key, and without its last chunk it is below the size.
pub record IsCoalesced (size : ℕ) (b : Bucket) : Type 0 where
  pub before : List Chunk
  pub last : Chunk
  pub split : b.chunks ≡ before ++ last ∷ []
  pub uniform : All (HasKey (bucket_key last)) b.chunks
  pub small : (before ≡ []) ⊎ (total_bytes before < size)

-- A group holds chunks of its key, fewer bytes than the size, and knows their number.
abbrev IsGroup : ℕ → BucketKey × Waiting → Type 0
IsGroup size (k, (cs, n)) = All (HasKey k) cs × (n ≡ total_bytes cs) × ((cs ≡ []) ⊎ (n < size))

abbrev AreGroups : ℕ → Dict BucketKey Waiting → Type 0
AreGroups size g = All (IsGroup size) g

record IsSound (size : ℕ) (s : State) : Type 0 where
  buckets : All (IsCoalesced size) s.buckets
  groups : AreGroups size s.grouped_state

IsGroup-lookup :
    (size : ℕ) (k : BucketKey) (g : Dict BucketKey Waiting)
    → AreGroups size g
    → IsGroup size (k, or_default (lookup k g))
IsGroup-lookup size k [] h = (tt, refl, inl refl)
IsGroup-lookup size k ((j, w) ∷ g) h = elim (Bool-cases (k == j)) [
  | inl same ↦
      rw same (subst (λ (i : BucketKey). IsGroup size (i, w)) (sym ((same_key_iff k j).0 same)) h.0)
  | inr other ↦ rw other (IsGroup-lookup size k g h.1)
]

AreGroups-insert :
    (size : ℕ) (k : BucketKey) (w : Waiting) (g : Dict BucketKey Waiting)
    → IsGroup size (k, w)
    → AreGroups size g
    → AreGroups size (insert k w g)
AreGroups-insert size k w [] p h = (p, tt)
AreGroups-insert size k w ((j, v) ∷ g) p h = elim (Bool-cases (k == j)) [
  | inl same ↦
      rw same (subst (λ (i : BucketKey). IsGroup size (i, w)) ((same_key_iff k j).0 same) p, h.1)
  | inr other ↦ rw other (h.0, AreGroups-insert size k w g p h.1)
]

IsSound-join_group :
    (size : ℕ) (c : Chunk) (w : Waiting) (s : State)
    → IsGroup size (bucket_key c, w)
    → IsSound size s
    → IsSound size (join_group size c w s)
unfolding join_group make_bucket
IsSound-join_group size c (cs, n) s g h =
    let joined : All (HasKey (bucket_key c)) (cs ++ c ∷ []) =
      All-append (HasKey (bucket_key c)) cs (c ∷ []) g.0 (refl, tt) in
    elim (Bool-cases (leb size (n + nbytes c))) [
      | inl full ↦ rw full (record {
        buckets =
            All-append (IsCoalesced size) s.buckets (make_bucket (cs ++ c ∷ []) ∷ []) h.buckets (
              record {
                before = cs;
                last = c;
                split = refl;
                uniform = joined;
                small = rw g.1 at g.2;
              },
              tt,
            );
        groups =
            AreGroups-insert size (bucket_key c) ([], 0) s.grouped_state (tt, refl, inl refl)
              h.groups;
      })
      | inr small ↦ rw small (record {
        buckets = h.buckets;
        groups =
            AreGroups-insert size (bucket_key c) (cs ++ c ∷ [], n + nbytes c) s.grouped_state
              (
                joined,
                omega (arith, total_bytes-append cs (c ∷ []), g.1),
                inr (ground (arith, small)),
              )
              h.groups;
      })
    ]

IsSound-chunk_loop :
    (size : ℕ) (cs : List Chunk) (s : State) → IsSound size s → IsSound size (chunk_loop size cs s)
unfolding chunk_loop add_chunk make_bucket
IsSound-chunk_loop size [] s h = h
IsSound-chunk_loop size (c ∷ cs) s h =
    IsSound-chunk_loop size cs (add_chunk size c s) (elim (Bool-cases (leb size (nbytes c))) [
      | inl big ↦ rw big (record {
        buckets = All-append (IsCoalesced size) s.buckets (make_bucket (c ∷ []) ∷ []) h.buckets (
          record { before = []; last = c; split = refl; uniform = (refl, tt); small = inl refl },
          tt,
        );
        groups = h.groups;
      })
      | inr small ↦ rw small (
          IsSound-join_group size c (or_default (lookup (bucket_key c) s.grouped_state)) s
            (IsGroup-lookup size (bucket_key c) s.grouped_state h.groups) h)
    ])

-- A list that is not empty, with its last element apart.
snoc_view {ℓ} :
    {A : Type ℓ} (x : A) (xs : List A) → (ys : List A) × (y : A) × (x ∷ xs ≡ ys ++ y ∷ [])
snoc_view x [] = ([], x, refl)
snoc_view x (z ∷ xs) = let (ys, y, e) = snoc_view z xs in (x ∷ ys, y, ap (◌∷◌ x) e)

All-last {ℓ} : {A : Type ℓ} (P : A → Type 0) (xs : List A) (y : A) → All P (xs ++ y ∷ []) → P y
All-last P [] y h = h.0
All-last P (x ∷ xs) y h = All-last P xs y h.1

IsCoalesced-group :
    (size : ℕ) (k : BucketKey) (c : Chunk) (cs : List Chunk) (n : ℕ)
    → IsGroup size (k, (c ∷ cs, n))
    → IsCoalesced size (make_bucket (c ∷ cs))
unfolding make_bucket
IsCoalesced-group size k c cs n g =
    let (ys, y, e) = snoc_view c cs in
    let last_key : bucket_key y ≡ k =
      All-last (HasKey k) ys y (subst (λ (l : List Chunk). All (HasKey k) l) e g.0) in
    record {
      before = ys;
      last = y;
      split = e;
      uniform = subst (λ (j : BucketKey). All (HasKey j) (c ∷ cs)) (sym last_key) g.0;
      small = inr (below ys y e g.2);
    }
  where
    below :
        (ys : List Chunk) (y : Chunk)
        → c ∷ cs ≡ ys ++ y ∷ []
        → ((c ∷ cs ≡ []) ⊎ (n < size))
        → total_bytes ys < size
    below ys y e (inl empty) = cc
    below ys y e (inr lt) = omega (arith, total_bytes-append ys (y ∷ []), ap total_bytes e, g.1, lt)

leftovers-IsCoalesced :
    (size : ℕ) (g : Dict BucketKey Waiting)
    → AreGroups size g
    → All (IsCoalesced size) (leftovers g)
unfolding leftovers
leftovers-IsCoalesced size [] h = tt
leftovers-IsCoalesced size ((k, ([], n)) ∷ g) h = leftovers-IsCoalesced size g h.1
leftovers-IsCoalesced size ((k, (c ∷ cs, n)) ∷ g) h =
    (IsCoalesced-group size k c cs n h.0, leftovers-IsCoalesced size g h.1)

-- No bucket is empty or mixes keys, and a bucket of several chunks would be below the size without
-- its last one.
pub chunk_to_bucket_ops-IsCoalesced :
    (cs : List Chunk) (size : ℕ) → All (IsCoalesced size) (chunk_to_bucket_ops cs size)
unfolding chunk_to_bucket_ops
chunk_to_bucket_ops-IsCoalesced cs size =
    let start : State = record { buckets = []; grouped_state = [] } in
    let s : State = chunk_loop size cs start in
    let h : IsSound size s =
      IsSound-chunk_loop size cs start (record { buckets = tt; groups = tt }) in
    All-append (IsCoalesced size) s.buckets (leftovers s.grouped_state) h.buckets
      (leftovers-IsCoalesced size s.grouped_state h.groups)
