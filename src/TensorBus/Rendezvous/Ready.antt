-- ===== src/TensorBus/Rendezvous/Ready.antt =====
-- What `_check_side_ready` promises of a side that it reports ready.
use etha.Prelude.{
  pair_eq, select, ℕ, zero, suc, ◌≡◌, refl, ap, ◌∙◌, inl, inr, Bool, true, false, ◌&&◌, Option,
  none, some, List, [], ◌∷◌, arith, ◌==◌, nat_eq, list_eq, Bool-cases, length, All,
}
use etha.Comm.Slices.{range, range_from}
use etha.TensorBus.Rendezvous.{Side, join_rank, side_loop, all_equal, judge, check_side_ready}

abbrev pub is_registered : Side → ℕ → Bool
is_registered side r = (side r).0

-- Each rank wrote its size.
Wrote : Side → List ℕ → List ℕ → Type 0
Wrote side [] [] = Unit {0}
Wrote side (r ∷ rs) (n ∷ ns) = ((side r).1 ≡ some n) × Wrote side rs ns
Wrote side _ _ = ⊥

abbrev Loop : Side → List ℕ → Option (List ℕ × List ℕ) → Type 0
Loop side rs none = Unit {0}
Loop side rs (some (present, sizes)) =
    (present ≡ select (is_registered side) rs) × Wrote side present sizes

join_rank-Loop :
    (side : Side) (r : ℕ) (rs : List ℕ) (b : Bool) (size : Option ℕ)
    (rest : Option (List ℕ × List ℕ))
    → (side r).0 ≡ b
    → (side r).1 ≡ size
    → Loop side rs rest
    → Loop side (r ∷ rs) (join_rank r b size rest)
unfolding Wrote
join_rank-Loop side r rs false size none e f h = tt
join_rank-Loop side r rs false size (some (present, sizes)) e f h = (rw e h.0, h.1)
join_rank-Loop side r rs true none rest e f h = tt
join_rank-Loop side r rs true (some n) none e f h = tt
join_rank-Loop side r rs true (some n) (some (present, sizes)) e f h =
    (rw e (ap (◌∷◌ r) h.0), (f, h.1))

side_loop-Loop : (side : Side) (n r : ℕ) → Loop side (range_from r n) (side_loop side r n)
unfolding side_loop range_from Wrote
side_loop-Loop side zero r = (refl, tt)
side_loop-Loop side (suc n) r =
    join_rank-Loop side r (range_from (suc r) n) (side r).0 (side r).1 (side_loop side (suc r) n)
      refl refl (side_loop-Loop side n (suc r))

Wrote-equal :
    (side : Side) (n : ℕ) (rs ns : List ℕ)
    → Wrote side rs ns
    → all_equal n ns ≡ true
    → All (λ r. (side r).1 ≡ some n) rs
unfolding Wrote
Wrote-equal side n [] ns h e = tt
Wrote-equal side n (r ∷ rs) [] h e = elim h [ ]
Wrote-equal side n (r ∷ rs) (m ∷ ns) h e =
    let same : m ≡ n = ground arith in
    (h.0 ∙ ap some same, Wrote-equal side n rs ns h.1 (ground arith))

judge_sound :
    (side : Side) (rs : List ℕ) (o : Option (List ℕ × List ℕ)) (expected : ℕ) (ranks : List ℕ)
    → Loop side rs o
    → judge o ≡ some (expected, ranks)
    → (ranks ≡ select (is_registered side) rs)
      × (length ranks ≡ expected)
      × All (λ r. (side r).1 ≡ some expected) ranks
unfolding judge
judge_sound side rs none expected ranks h e = cc
judge_sound side rs (some (present, [])) expected ranks h e = cc
judge_sound side rs (some (present, n ∷ ns)) expected ranks h e =
    elim (Bool-cases (all_equal n ns && length present == n)) [
      | inl good ↦
          let found : some (n, present) ≡ some (expected, ranks) = rw good at e in
          let count : n ≡ expected = ap (λ (o : Option (ℕ × List ℕ)). first n o) found in
          let list : present ≡ ranks = ap (λ (o : Option (ℕ × List ℕ)). second present o) found in
          let equal : all_equal n ns ≡ true = ground arith in
          let many : length present ≡ n = ground arith in
          rw (← list, ← count)
            (h.0, many, Wrote-equal side n present (n ∷ ns) h.1 (rw equal (ground arith)))
      | inr bad ↦ absurd (none_some (rw bad at e))
    ]
  where
    first : ℕ → Option (ℕ × List ℕ) → ℕ
    first n none = n
    first n (some p) = p.0

    second : List ℕ → Option (ℕ × List ℕ) → List ℕ
    second l none = l
    second l (some p) = p.1

    none_some : {p : ℕ × List ℕ} → none ≡ some p → ⊥
    none_some q = cc

-- A side that is reported ready, with its expected size and its ranks: the ranks are all those of
-- the world that registered, in ascending order, they are as many as expected, and each of them
-- wrote that number.
pub check_side_ready_complete :
    (world_size : ℕ) (side : Side) (expected : ℕ) (ranks : List ℕ)
    → check_side_ready world_size side ≡ some (expected, ranks)
    → (ranks ≡ select (is_registered side) (range world_size))
      × (length ranks ≡ expected)
      × All (λ r. (side r).1 ≡ some expected) ranks
unfolding check_side_ready
check_side_ready_complete world_size side expected ranks h =
    judge_sound side (range world_size) (side_loop side 0 world_size) expected ranks
      (side_loop-Loop side world_size 0) h
