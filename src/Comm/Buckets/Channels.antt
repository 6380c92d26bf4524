-- ===== src/Comm/Buckets/Channels.antt =====
-- The buckets of one channel in get_buckets.py do not depend on the other channels.
use mathlib.Core.List.{append-nil}
use etha.Prelude.{
  select, select-append, ℕ, ◌+◌, ◌≡◌, refl, sym, ap, ap₂, subst, ◌∙◌, inl, inr, Bool, true, false,
  none, some, List, [], ◌∷◌, ◌++◌, arith, leb, ◌==◌, nat_eq, list_eq, Bool-cases, All, All-append,
}
use etha.Prelude.Dict.{Dict, lookup, insert, lookup-insert}
use etha.Comm.Ir.{Chunk, BucketKey, bucket_key, nbytes, key_eq, same_key_iff}
use etha.Comm.Buckets.{
  Bucket, make_bucket, Waiting, or_default, State, join_group, add_chunk, chunk_loop, leftovers,
  chunk_to_bucket_ops,
}

-- The channel of a bucket is the key of its first chunk.
abbrev pub on_channel : BucketKey → Bucket → Bool
on_channel k b = elim b.chunks [ [] ↦ false | c ∷ cs ↦ bucket_key c == k ]

abbrev pub chunk_on : BucketKey → Chunk → Bool
chunk_on k c = bucket_key c == k

-- Each group holds chunks of its own key, under one entry.
abbrev IsGrouped : Dict BucketKey Waiting → Type 0
IsGrouped [] = Unit {0}
IsGrouped ((k, (cs, n)) ∷ g) = All (λ c. bucket_key c ≡ k) cs × (lookup k g ≡ none) × IsGrouped g

IsGrouped-lookup :
    (j : BucketKey) (g : Dict BucketKey Waiting)
    → IsGrouped g
    → All (λ c. bucket_key c ≡ j) (or_default (lookup j g)).0
IsGrouped-lookup j [] h = tt
IsGrouped-lookup j ((i, (cs, n)) ∷ g) h = elim (Bool-cases (j == i)) [
  | inl same ↦ rw same (
      subst (λ (x : BucketKey). All (λ c. bucket_key c ≡ x) cs) (sym ((same_key_iff j i).0 same))
        h.0)
  | inr other ↦ rw other (IsGrouped-lookup j g h.2)
]

IsGrouped-insert :
    (j : BucketKey) (w : Waiting) (g : Dict BucketKey Waiting)
    → All (λ c. bucket_key c ≡ j) w.0
    → IsGrouped g
    → IsGrouped (insert j w g)
IsGrouped-insert j w [] p h = (p, refl, tt)
IsGrouped-insert j w ((i, v) ∷ g) p h = elim (Bool-cases (j == i)) [
  | inl same ↦ rw same (
    subst (λ (x : BucketKey). All (λ c. bucket_key c ≡ x) w.0) ((same_key_iff j i).0 same) p,
    h.1,
    h.2,
  )
  | inr other ↦
      let apart : (i == j) ≡ false = ground (arith, other, same_key_iff i j, same_key_iff j i) in
      rw other (h.0, rw (lookup-insert j i w g, apart) h.1, IsGrouped-insert j w g p h.2)
]

module _ (k : BucketKey) where
  -- What the leftovers hold for the channel.
  abbrev left : Waiting → List Bucket
  left ([], n) = []
  left (c ∷ cs, n) = make_bucket (c ∷ cs) ∷ []

  -- Two states that agree on the channel: the buckets made so far, and the waiting group.
  record Agree (s t : State) : Type 0 where
    buckets : select (on_channel k) s.buckets ≡ select (on_channel k) t.buckets
    group : or_default (lookup k s.grouped_state) ≡ or_default (lookup k t.grouped_state)
    grouped : IsGrouped s.grouped_state
    grouped' : IsGrouped t.grouped_state

  select-leftovers :
      (g : Dict BucketKey Waiting)
      → IsGrouped g
      → select (on_channel k) (leftovers g) ≡ left (or_default (lookup k g))
  unfolding leftovers make_bucket
  select-leftovers [] h = refl
  select-leftovers ((j, ([], n)) ∷ g) h =
      ground (arith, same_key_iff k j, select-leftovers g h.2, h.1)
  select-leftovers ((j, (c ∷ cs, n)) ∷ g) h =
      ground
        (arith, same_key_iff k j, same_key_iff (bucket_key c) k, select-leftovers g h.2, h.1, h.0.0)

  on_channel-make_bucket :
      (cs : List Chunk) (c : Chunk)
      → All (λ d. bucket_key d ≡ bucket_key c) cs
      → on_channel k (make_bucket (cs ++ c ∷ [])) ≡ (bucket_key c == k)
  unfolding make_bucket
  on_channel-make_bucket [] c h = refl
  on_channel-make_bucket (d ∷ ds) c h = ap (λ (j : BucketKey). j == k) h.0

  select-snoc_other :
      (bs : List Bucket) (b : Bucket)
      → on_channel k b ≡ false
      → select (on_channel k) (bs ++ b ∷ []) ≡ select (on_channel k) bs
  select-snoc_other bs b e =
      rw (select-append (on_channel k) bs (b ∷ []), e) (append-nil (select (on_channel k) bs))

  -- What a chunk of another channel leaves as it was.
  abbrev Untouched : State → State → Type 0
  Untouched s t =
      (select (on_channel k) t.buckets ≡ select (on_channel k) s.buckets)
      × (lookup k t.grouped_state ≡ lookup k s.grouped_state)
      × IsGrouped t.grouped_state

  lookup-insert_other :
      (j : BucketKey) (w : Waiting) (g : Dict BucketKey Waiting)
      → (j == k) ≡ false
      → lookup k (insert j w g) ≡ lookup k g
  lookup-insert_other j w g ne =
      let apart : (k == j) ≡ false = ground (arith, ne, same_key_iff j k, same_key_iff k j) in
      rw (lookup-insert j k w g, apart) refl

  join_group-Untouched :
      (size : ℕ) (c : Chunk) (w : Waiting) (s : State)
      → IsGrouped s.grouped_state
      → All (λ d. bucket_key d ≡ bucket_key c) w.0
      → (bucket_key c == k) ≡ false
      → Untouched s (join_group size c w s)
  unfolding join_group
  join_group-Untouched size c (cs, n) s g h ne = elim (Bool-cases (leb size (n + nbytes c))) [
    | inl full ↦ rw full (
      select-snoc_other s.buckets (make_bucket (cs ++ c ∷ [])) (on_channel-make_bucket cs c h ∙ ne),
      lookup-insert_other (bucket_key c) ([], 0) s.grouped_state ne,
      IsGrouped-insert (bucket_key c) ([], 0) s.grouped_state tt g,
    )
    | inr small ↦ rw small (
      refl,
      lookup-insert_other (bucket_key c) (cs ++ c ∷ [], n + nbytes c) s.grouped_state ne,
      IsGrouped-insert (bucket_key c) (cs ++ c ∷ [], n + nbytes c) s.grouped_state
          (All-append (λ d. bucket_key d ≡ bucket_key c) cs (c ∷ []) h (refl, tt)) g,
    )
  ]

  add_chunk-Untouched :
      (size : ℕ) (c : Chunk) (s : State)
      → IsGrouped s.grouped_state
      → (bucket_key c == k) ≡ false
      → Untouched s (add_chunk size c s)
  unfolding add_chunk
  add_chunk-Untouched size c s g ne = elim (Bool-cases (leb size (nbytes c))) [
    | inl big ↦ rw big (
      select-snoc_other s.buckets (make_bucket (c ∷ [])) (on_channel-make_bucket [] c tt ∙ ne),
      refl,
      g,
    )
    | inr small ↦ rw small (
        join_group-Untouched size c (or_default (lookup (bucket_key c) s.grouped_state)) s g
          (IsGrouped-lookup (bucket_key c) s.grouped_state g) ne)
  ]

  select-snoc :
      (bs cs : List Bucket) (b : Bucket)
      → select (on_channel k) bs ≡ select (on_channel k) cs
      → select (on_channel k) (bs ++ b ∷ []) ≡ select (on_channel k) (cs ++ b ∷ [])
  select-snoc bs cs b e =
      rw (select-append (on_channel k) bs (b ∷ []), select-append (on_channel k) cs (b ∷ []), e)
        refl

  lookup-insert_same :
      (j : BucketKey) (w : Waiting) (g : Dict BucketKey Waiting)
      → j ≡ k
      → lookup k (insert j w g) ≡ some w
  lookup-insert_same j w g e =
      let same : (k == j) ≡ true = (same_key_iff k j).1 (sym e) in
      rw (lookup-insert j k w g, same) refl

  join_group-Agree :
      (size : ℕ) (c : Chunk) (w : Waiting) (s t : State)
      → Agree s t
      → All (λ d. bucket_key d ≡ bucket_key c) w.0
      → bucket_key c ≡ k
      → Agree (join_group size c w s) (join_group size c w t)
  unfolding join_group
  join_group-Agree size c (cs, n) s t a h e = elim (Bool-cases (leb size (n + nbytes c))) [
    | inl full ↦ rw full (record {
      buckets = select-snoc s.buckets t.buckets (make_bucket (cs ++ c ∷ [])) a.buckets;
      group = ap or_default (
          lookup-insert_same (bucket_key c) ([], 0) s.grouped_state e
          ∙ sym (lookup-insert_same (bucket_key c) ([], 0) t.grouped_state e));
      grouped = IsGrouped-insert (bucket_key c) ([], 0) s.grouped_state tt a.grouped;
      grouped' = IsGrouped-insert (bucket_key c) ([], 0) t.grouped_state tt a.grouped';
    })
    | inr small ↦
        let w : Waiting = (cs ++ c ∷ [], n + nbytes c) in
        let all : All (λ d. bucket_key d ≡ bucket_key c) (cs ++ c ∷ []) =
          All-append (λ d. bucket_key d ≡ bucket_key c) cs (c ∷ []) h (refl, tt) in
        rw small (record {
          buckets = a.buckets;
          group = ap or_default (
              lookup-insert_same (bucket_key c) w s.grouped_state e
              ∙ sym (lookup-insert_same (bucket_key c) w t.grouped_state e));
          grouped = IsGrouped-insert (bucket_key c) w s.grouped_state all a.grouped;
          grouped' = IsGrouped-insert (bucket_key c) w t.grouped_state all a.grouped';
        })
  ]

  add_chunk-Agree :
      (size : ℕ) (c : Chunk) (s t : State)
      → Agree s t
      → bucket_key c ≡ k
      → Agree (add_chunk size c s) (add_chunk size c t)
  unfolding add_chunk
  add_chunk-Agree size c s t a e = elim (Bool-cases (leb size (nbytes c))) [
    | inl big ↦ rw big (record {
      buckets = select-snoc s.buckets t.buckets (make_bucket (c ∷ [])) a.buckets;
      group = a.group;
      grouped = a.grouped;
      grouped' = a.grouped';
    })
    | inr small ↦
        let same : or_default (lookup (bucket_key c) s.grouped_state)
            ≡ or_default (lookup (bucket_key c) t.grouped_state) =
          rw e a.group in
        rw (small, same)
          (join_group-Agree size c (or_default (lookup (bucket_key c) t.grouped_state)) s t a
            (IsGrouped-lookup (bucket_key c) t.grouped_state a.grouped') e)
  ]

  chunk_loop-Agree :
      (size : ℕ) (cs : List Chunk) (s t : State)
      → Agree s t
      → Agree (chunk_loop size cs s) (chunk_loop size (select (chunk_on k) cs) t)
  unfolding chunk_loop
  chunk_loop-Agree size [] s t a = a
  chunk_loop-Agree size (c ∷ cs) s t a = elim (Bool-cases (bucket_key c == k)) [
    | inl own ↦ rw own (
        chunk_loop-Agree size cs (add_chunk size c s) (add_chunk size c t)
          (add_chunk-Agree size c s t a ((same_key_iff (bucket_key c) k).0 own)))
    | inr other ↦
        let (bs, ls, g) = add_chunk-Untouched size c s a.grouped other in
        rw other (
          chunk_loop-Agree size cs (add_chunk size c s) t (record {
            buckets = bs ∙ a.buckets;
            group = ap or_default ls ∙ a.group;
            grouped = g;
            grouped' = a.grouped';
          }))
  ]

  -- The buckets of a channel, in order, are those that its chunks alone would give: what other
  -- channels a rank has does not move the boundaries.
  pub select-chunk_to_bucket_ops :
      (cs : List Chunk) (size : ℕ)
      → select (on_channel k) (chunk_to_bucket_ops cs size)
        ≡ select (on_channel k) (chunk_to_bucket_ops (select (chunk_on k) cs) size)
  unfolding chunk_to_bucket_ops
  select-chunk_to_bucket_ops cs size =
      let start : State = record { buckets = []; grouped_state = [] } in
      let s : State = chunk_loop size cs start in
      let t : State = chunk_loop size (select (chunk_on k) cs) start in
      let a : Agree s t =
        chunk_loop-Agree size cs start start
          (record { buckets = refl; group = refl; grouped = tt; grouped' = tt }) in
      rw
        (
          select-append (on_channel k) s.buckets (leftovers s.grouped_state),
          select-append (on_channel k) t.buckets (leftovers t.grouped_state),
          select-leftovers s.grouped_state a.grouped,
          select-leftovers t.grouped_state a.grouped',
        )
        (ap₂ (◌++◌) a.buckets (ap left a.group))
