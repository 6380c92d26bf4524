-- ===== src/TensorBus/Generate/Wire.antt =====
-- The wire types that the two sides of a split pair choose for a tensor in agent.py.
use etha.Prelude.{
  pair_eq, ℕ, ◌≡◌, refl, ap, ◌≢◌, ◌↔◌, ◌⊎◌, inl, inr, true, Option, none, some, arith, leb, nat_eq,
  list_eq, Bool-cases,
}
use etha.Comm.Ir.{Dtype}
use etha.TensorBus.Generate.{transfer_dtype_of, split_dtype}

abbrev pub itemsize_of : Option Dtype → Option ℕ
itemsize_of none = none
itemsize_of (some d) = some d.itemsize

one_of :
    {a b : Dtype} → (a.itemsize ≢ b.itemsize) ⊎ (a ≡ b) → a.itemsize ≡ b.itemsize → some a ≡ some b
one_of (inl differ) same = absurd (differ same)
one_of (inr e) same = ap some e

-- The two sides, each from its own type and the other's, choose types of one size, and the same type
-- exactly if the sizes differ or the types are the same: two types of one size are sent as the one and
-- read as the other.
pub split_dtype_iff :
    (mine theirs : Dtype)
    → (itemsize_of (split_dtype mine (some theirs)) ≡ itemsize_of (split_dtype theirs (some mine)))
      × ((split_dtype mine (some theirs) ≡ split_dtype theirs (some mine))
          ↔ ((mine.itemsize ≢ theirs.itemsize) ⊎ (mine ≡ theirs)))
unfolding split_dtype transfer_dtype_of
split_dtype_iff a b = elim (Bool-cases (leb a.itemsize b.itemsize)) [
  | inl below ↦ elim (Bool-cases (leb b.itemsize a.itemsize)) [
    | inl above ↦
        let same : a.itemsize ≡ b.itemsize = ground (arith, below, above) in
        rw (below, above) (ap some same, (λ e. inr (ground (arith, e)), λ c. one_of c same))
    | inr strict ↦ rw (below, strict) (refl, (λ e. inl (λ s. ground (arith, strict)), λ c. refl))
  ]
  | inr above ↦
      let below : leb b.itemsize a.itemsize ≡ true = ground (arith, above) in
      rw (above, below) (refl, (λ e. inl (λ s. ground (arith, above)), λ c. refl))
]
