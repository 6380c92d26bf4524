-- ===== src/Comm/Pipeline/Sequential.antt =====
-- The two modes of bucket_comm in comm_methods.py.
use mathlib.Core.List.{append-nil, append_assoc}
use etha.Prelude.{
  pair_eq, select, ℕ, ◌≡◌, refl, sym, ap, ◌∙◌, Bool, some, List, [], ◌∷◌, ◌++◌, Eq, nat_eq, list_eq,
}
use etha.Comm.Pipeline.{Call, prepare, launch, finalize, State, bucket_comm, sequential_comm}
use etha.Comm.Pipeline.Fifo.{
  Follows, start, prepares, launches, finalizes, at, on_channel, at-bucket_comm,
}

-- The buckets on which each call was made, in order.
abbrev pub prepared_of {ℓ} : {B : Type ℓ} → List (Call B) → List B
prepared_of [] = []
prepared_of (prepare b ∷ ls) = b ∷ prepared_of ls
prepared_of (_ ∷ ls) = prepared_of ls

abbrev pub launched_of {ℓ} : {B : Type ℓ} → List (Call B) → List B
launched_of [] = []
launched_of (launch b ∷ ls) = b ∷ launched_of ls
launched_of (_ ∷ ls) = launched_of ls

abbrev pub finalized_of {ℓ} : {B : Type ℓ} → List (Call B) → List B
finalized_of [] = []
finalized_of (finalize b ∷ ls) = b ∷ finalized_of ls
finalized_of (_ ∷ ls) = finalized_of ls

module _ {ℓ} {B : Type ℓ} where
  prepared_of-append :
      (xs ys : List (Call B)) → prepared_of (xs ++ ys) ≡ prepared_of xs ++ prepared_of ys
  prepared_of-append [] ys = refl
  prepared_of-append (prepare b ∷ xs) ys = ap (λ (l : List B). b ∷ l) (prepared_of-append xs ys)
  prepared_of-append (launch b ∷ xs) ys = prepared_of-append xs ys
  prepared_of-append (finalize b ∷ xs) ys = prepared_of-append xs ys

  launched_of-append :
      (xs ys : List (Call B)) → launched_of (xs ++ ys) ≡ launched_of xs ++ launched_of ys
  launched_of-append [] ys = refl
  launched_of-append (prepare b ∷ xs) ys = launched_of-append xs ys
  launched_of-append (launch b ∷ xs) ys = ap (λ (l : List B). b ∷ l) (launched_of-append xs ys)
  launched_of-append (finalize b ∷ xs) ys = launched_of-append xs ys

  finalized_of-append :
      (xs ys : List (Call B)) → finalized_of (xs ++ ys) ≡ finalized_of xs ++ finalized_of ys
  finalized_of-append [] ys = refl
  finalized_of-append (prepare b ∷ xs) ys = finalized_of-append xs ys
  finalized_of-append (launch b ∷ xs) ys = finalized_of-append xs ys
  finalized_of-append (finalize b ∷ xs) ys = ap (λ (l : List B). b ∷ l) (finalized_of-append xs ys)

  -- What was prepared, launched and finalized, and what is still to be.
  record Accounts (xs : List B) (ls : List (Call B)) (bs ps fs : List B) : Type ℓ where
    prepared : prepared_of ls ++ bs ≡ xs
    launched : launched_of ls ++ ps ≡ prepared_of ls
    finalized : finalized_of ls ++ fs ≡ launched_of ls

  Follows-Accounts :
      {m : ℕ} {xs : List B} {ls : List (Call B)} {bs ps fs : List B}
      → Follows m xs ls bs ps fs
      → Accounts xs ls bs ps fs
  Follows-Accounts start = record { prepared = refl; launched = refl; finalized = refl }
  Follows-Accounts (prepares {ls = ls} {b = b} {bs = bs} {ps = ps} {fs = fs} room h) =
      let a = Follows-Accounts h in
      record {
        prepared =
            rw (prepared_of-append ls (prepare b ∷ []), append_assoc (prepared_of ls) (b ∷ []) bs)
              a.prepared;
        launched =
            rw
              (
                prepared_of-append ls (prepare b ∷ []),
                launched_of-append ls (prepare b ∷ []),
                append-nil (launched_of ls),
                ← append_assoc (launched_of ls) ps (b ∷ []),
                a.launched,
              )
              refl;
        finalized =
            rw
              (
                finalized_of-append ls (prepare b ∷ []),
                launched_of-append ls (prepare b ∷ []),
                append-nil (launched_of ls),
                append-nil (finalized_of ls),
              )
              a.finalized;
      }
  Follows-Accounts (launches {ls = ls} {b = b} {bs = bs} {ps = ps} {fs = fs} h) =
      let a = Follows-Accounts h in
      record {
        prepared =
            rw (prepared_of-append ls (launch b ∷ []), append-nil (prepared_of ls)) a.prepared;
        launched =
            rw
              (
                prepared_of-append ls (launch b ∷ []),
                launched_of-append ls (launch b ∷ []),
                append-nil (prepared_of ls),
                append_assoc (launched_of ls) (b ∷ []) ps,
              )
              a.launched;
        finalized =
            rw
              (
                finalized_of-append ls (launch b ∷ []),
                launched_of-append ls (launch b ∷ []),
                append-nil (finalized_of ls),
                ← append_assoc (finalized_of ls) fs (b ∷ []),
                a.finalized,
              )
              refl;
      }
  Follows-Accounts (finalizes {ls = ls} {b = b} {bs = bs} {ps = ps} {fs = fs} h) =
      let a = Follows-Accounts h in
      record {
        prepared =
            rw (prepared_of-append ls (finalize b ∷ []), append-nil (prepared_of ls)) a.prepared;
        launched =
            rw
              (
                prepared_of-append ls (finalize b ∷ []),
                launched_of-append ls (finalize b ∷ []),
                append-nil (prepared_of ls),
                append-nil (launched_of ls),
              )
              a.launched;
        finalized =
            rw
              (
                finalized_of-append ls (finalize b ∷ []),
                launched_of-append ls (finalize b ∷ []),
                append-nil (launched_of ls),
                append_assoc (finalized_of ls) (b ∷ []) fs,
              )
              a.finalized;
      }

  prepared_of-sequential_comm : (bs : List B) → prepared_of (sequential_comm bs) ≡ bs
  unfolding sequential_comm
  prepared_of-sequential_comm [] = refl
  prepared_of-sequential_comm (b ∷ bs) = ap (λ (l : List B). b ∷ l) (prepared_of-sequential_comm bs)

  launched_of-sequential_comm : (bs : List B) → launched_of (sequential_comm bs) ≡ bs
  unfolding sequential_comm
  launched_of-sequential_comm [] = refl
  launched_of-sequential_comm (b ∷ bs) = ap (λ (l : List B). b ∷ l) (launched_of-sequential_comm bs)

  finalized_of-sequential_comm : (bs : List B) → finalized_of (sequential_comm bs) ≡ bs
  unfolding sequential_comm
  finalized_of-sequential_comm [] = refl
  finalized_of-sequential_comm (b ∷ bs) =
      ap (λ (l : List B). b ∷ l) (finalized_of-sequential_comm bs)

-- On the channel of a key the pipeline makes, of each kind, the calls of the sequential mode in order.
pub bucket_comm-sequential_comm {ℓ κ} :
    {K : Type ℓ} ⦃e : Eq K⦄ {B : Type κ} (key : B → K) (m : ℕ) (is_complete : ℕ → B → Bool)
    (fuel : ℕ) (buckets : List B) (s : State K B)
    → bucket_comm key buckets m is_complete fuel ≡ some s
    → (k : K)
    → (prepared_of (at k s.channels).calls
        ≡ select (on_channel key k) (prepared_of (sequential_comm buckets)))
      × (launched_of (at k s.channels).calls
          ≡ select (on_channel key k) (launched_of (sequential_comm buckets)))
      × (finalized_of (at k s.channels).calls
          ≡ select (on_channel key k) (finalized_of (sequential_comm buckets)))
bucket_comm-sequential_comm key m is_complete fuel buckets s h k =
    let ls = (at k s.channels).calls in
    let a = Follows-Accounts (at-bucket_comm key m is_complete fuel buckets s h k) in
    let p = sym (append-nil (prepared_of ls)) ∙ a.prepared in
    let l = sym (append-nil (launched_of ls)) ∙ a.launched in
    let f = sym (append-nil (finalized_of ls)) ∙ a.finalized in
    rw
      (
        prepared_of-sequential_comm buckets,
        launched_of-sequential_comm buckets,
        finalized_of-sequential_comm buckets,
      )
      (p, l ∙ p, f ∙ (l ∙ p))
