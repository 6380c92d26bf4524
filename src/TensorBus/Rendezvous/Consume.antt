-- ===== src/TensorBus/Rendezvous/Consume.antt =====
-- What consuming entries of the completion log in agent.py does to a rank.
use etha.Prelude.{
  pair_eq, nat_beq_iff, ℕ, zero, suc, ◌+◌, ◌≤◌, ◌≡◌, refl, sym, ap, subst, ◌∙◌, ◌⊎◌, inl, inr, Bool,
  true, false, ◌||◌, Option, none, some, List, [], ◌∷◌, ◌++◌, arith, ◌==◌, nat_eq, list_eq,
  Bool-cases, Option-cases, length, take, drop, All,
}
use etha.Prelude.Dict.{lookup, lookup-insert, lookup-erase}
use etha.Prelude.Sorting.{contains, contains-append, nat_order}
use etha.TensorBus.Rendezvous.{PendingPair, Rank, consume_entry, consume}
use mathlib.Core.List.{append_assoc, append-nil}

-- The first list has members of the second, in its order and each at most once.
abbrev pub IsWithin : List ℕ → List ℕ → Type 0
IsWithin [] ys = Unit {0}
IsWithin (x ∷ xs) [] = ⊥
IsWithin (x ∷ xs) (y ∷ ys) = ((x ≡ y) × IsWithin xs ys) ⊎ IsWithin (x ∷ xs) ys

IsWithin-more : (xs ys zs : List ℕ) → IsWithin xs ys → IsWithin xs (ys ++ zs)
IsWithin-more [] ys zs h = tt
IsWithin-more (x ∷ xs) [] zs h = elim h [ ]
IsWithin-more (x ∷ xs) (y ∷ ys) zs (inl (e, h)) = inl (e, IsWithin-more xs ys zs h)
IsWithin-more (x ∷ xs) (y ∷ ys) zs (inr h) = inr (IsWithin-more (x ∷ xs) ys zs h)

IsWithin-one : (z : ℕ) (ys : List ℕ) → IsWithin (z ∷ []) (ys ++ z ∷ [])
IsWithin-one z [] = inl (refl, tt)
IsWithin-one z (y ∷ ys) = inr (IsWithin-one z ys)

IsWithin-both : (xs ys : List ℕ) (z : ℕ) → IsWithin xs ys → IsWithin (xs ++ z ∷ []) (ys ++ z ∷ [])
IsWithin-both [] ys z h = IsWithin-one z ys
IsWithin-both (x ∷ xs) [] z h = elim h [ ]
IsWithin-both (x ∷ xs) (y ∷ ys) z (inl (e, h)) = inl (e, IsWithin-both xs ys z h)
IsWithin-both (x ∷ xs) (y ∷ ys) z (inr h) = inr (IsWithin-both (x ∷ xs) ys z h)

pub take-all : (xs : List ℕ) → take (length xs) xs ≡ xs
take-all [] = refl
take-all (x ∷ xs) = ap (◌∷◌ x) (take-all xs)

pub take-append_le : (n : ℕ) (xs ys : List ℕ) → n ≤ length xs → take n (xs ++ ys) ≡ take n xs
take-append_le zero xs ys h = refl
take-append_le (suc n) [] ys h = absurd (omega (arith, h))
take-append_le (suc n) (x ∷ xs) ys h = ap (◌∷◌ x) (take-append_le n xs ys (omega arith))

pub take-drop : (n : ℕ) (xs : List ℕ) → take n xs ++ drop n xs ≡ xs
take-drop zero xs = refl
take-drop (suc n) [] = refl
take-drop (suc n) (x ∷ xs) = ap (◌∷◌ x) (take-drop n xs)

-- What one entry does to the cursor, to the calls of `_complete_pair`, and to a pair.
completed_by : Option PendingPair → ℕ → List ℕ
completed_by none pair = []
completed_by (some p) pair = pair ∷ []

completed-consume_entry :
    (f : ℕ → ℕ → Bool) (x : ℕ) (k : Rank)
    → ((consume_entry f x k).completion_cursor ≡ k.completion_cursor + 1)
      × ((consume_entry f x k).completed ≡ k.completed ++ completed_by (lookup x k.pending_pairs) x)
unfolding consume_entry completed_by
completed-consume_entry f x k = elim (Option-cases (lookup x k.pending_pairs)) [
  | inl away ↦ rw (consume_entry, away) (refl, sym (append-nil k.completed))
  | inr (p, there) ↦ elim (Bool-cases (f (k.completion_cursor + 1) x)) [
    | inl done ↦ rw (consume_entry, there, done) (refl, refl)
    | inr raised ↦ rw (consume_entry, there, raised) (refl, refl)
  ]
]

-- What is pending stays so while other pairs' entries are consumed.
lookup-consume_entry :
    (f : ℕ → ℕ → Bool) (x y : ℕ) (k : Rank)
    → (y == x) ≡ false
    → lookup y (consume_entry f x k).pending_pairs ≡ lookup y k.pending_pairs
unfolding consume_entry
lookup-consume_entry f x y k other = elim (Option-cases (lookup x k.pending_pairs)) [
  | inl away ↦ rw (consume_entry, away) refl
  | inr (p, there) ↦ elim (Bool-cases (f (k.completion_cursor + 1) x)) [
    | inl done ↦ rw (consume_entry, there, done) (lookup-erase x y k.pending_pairs ∙ rw other refl)
    | inr raised ↦
        rw (consume_entry, there, raised)
          (lookup-insert x y (record p { semaphores = [] }) k.pending_pairs ∙ rw other refl)
  ]
]

pub cursor-consume :
    (f : ℕ → ℕ → Bool) (xs : List ℕ) (k : Rank)
    → (consume f xs k).completion_cursor ≡ k.completion_cursor + length xs
unfolding consume
cursor-consume f [] k = omega arith
cursor-consume f (x ∷ xs) k =
    omega (arith, cursor-consume f xs (consume_entry f x k), (completed-consume_entry f x k).0)

-- One call more, or none, stays within one entry more.
IsWithin-next :
    (xs ys : List ℕ) (o : Option PendingPair) (x : ℕ)
    → IsWithin xs ys
    → IsWithin (xs ++ completed_by o x) (ys ++ x ∷ [])
unfolding completed_by
IsWithin-next xs ys none x h =
    subst (λ (l : List ℕ). IsWithin l (ys ++ x ∷ [])) (sym (append-nil xs))
      (IsWithin-more xs ys (x ∷ []) h)
IsWithin-next xs ys (some p) x h = IsWithin-both xs ys x h

pub IsWithin-consume :
    (f : ℕ → ℕ → Bool) (xs ys : List ℕ) (k : Rank)
    → IsWithin k.completed ys
    → IsWithin (consume f xs k).completed (ys ++ xs)
unfolding consume
IsWithin-consume f [] ys k h =
    subst (λ (l : List ℕ). IsWithin k.completed l) (sym (append-nil ys)) h
IsWithin-consume f (x ∷ xs) ys k h =
    let (cursor, calls) = completed-consume_entry f x k in
    let next : IsWithin (consume_entry f x k).completed (ys ++ x ∷ []) =
      subst (λ (l : List ℕ). IsWithin l (ys ++ x ∷ [])) (sym calls)
        (IsWithin-next k.completed ys (lookup x k.pending_pairs) x h) in
    subst (λ (l : List ℕ). IsWithin (consume f xs (consume_entry f x k)).completed l)
      (append_assoc ys (x ∷ []) xs)
      (IsWithin-consume f xs (ys ++ x ∷ []) (consume_entry f x k) next)

contains-consume :
    (f : ℕ → ℕ → Bool) (xs : List ℕ) (k : Rank) (p : ℕ)
    → contains k.completed p ≡ true
    → contains (consume f xs k).completed p ≡ true
unfolding consume
contains-consume f [] k p h = h
contains-consume f (x ∷ xs) k p h =
    let (cursor, calls) = completed-consume_entry f x k in
    let more : List ℕ = completed_by (lookup x k.pending_pairs) x in
    contains-consume f xs (consume_entry f x k) p (
      ap (λ (l : List ℕ). contains l p) calls
      ∙ contains-append k.completed more p
      ∙ ap (λ (b : Bool). b || contains more p) h)

-- A pending pair that an entry names is tried.
pub tried-consume :
    (f : ℕ → ℕ → Bool) (xs : List ℕ) (k : Rank) (p : ℕ) (q : PendingPair)
    → contains xs p ≡ true
    → lookup p k.pending_pairs ≡ some q
    → contains (consume f xs k).completed p ≡ true
unfolding consume
tried-consume f [] k p q h there = cc
tried-consume f (x ∷ xs) k p q h there = elim (Bool-cases (p == x)) [
  | inl now ↦
      let same : p ≡ x = ground (arith, now) in
      let found : lookup x k.pending_pairs ≡ some q =
        subst (λ (y : ℕ). lookup y k.pending_pairs ≡ some q) same there in
      let calls : (consume_entry f x k).completed ≡ k.completed ++ x ∷ [] =
        (completed-consume_entry f x k).1 ∙ (unfold completed_by in rw found refl) in
      contains-consume f xs (consume_entry f x k) p (
        ap (λ (l : List ℕ). contains l p) calls
        ∙ contains-append k.completed (x ∷ []) p
        ∙ ground (arith, now))
  | inr later ↦
      tried-consume f xs (consume_entry f x k) p q (ground (arith, h, later))
        (lookup-consume_entry f x p k later ∙ there)
]

pub All-contains :
    (P : ℕ → Type 0) (xs ys : List ℕ)
    → ((p : ℕ) → contains ys p ≡ true → P p)
    → ((p : ℕ) → contains xs p ≡ true → contains ys p ≡ true)
    → All P xs
All-contains P [] ys h i = tt
All-contains P (x ∷ xs) ys h i = (
  h x (i x (ground (arith, nat_beq_iff x x))),
  All-contains P xs ys h (λ p c. i p (ground (arith, c))),
)
