-- ===== src/Comm/Slices/Cover.antt =====
-- Which entries of a dimension the slices of utils.py reach.
use etha.Prelude.{
  pair_eq, ℕ, zero, suc, ◌+◌, ◌*◌, ◌/◌, ◌≤◌, ◌<◌, ◌≡◌, refl, sym, ap, ap₂, subst, ◌∙◌, ◌↔◌, inl,
  inr, Bool, true, false, none, some, map, arith, ltb, nat_eq, list_eq, if◌then◌else◌, Bool-cases,
  get_elem?,
}
use etha.Comm.Slices.{Slice, nth_slice, range_from, dim_slices}

abbrev pub Covers : Slice → ℕ → Type 0
Covers s x = (s.start ≤ x) × (x < s.stop)

-- Two different slices of one dimension have no entry in common.
pub nth_slice_disjoint :
    (size i j x : ℕ) → Covers (nth_slice size i) x → Covers (nth_slice size j) x → i ≡ j
nth_slice_disjoint size i j x p q = grind arith

cover_forth : (q n x i : ℕ) → i < n → i * q ≤ x → x < (i + 1) * q → (i ≡ x / q) × (x < n * q)
cover_forth q n x i lt lo hi = (grind arith, grind arith)

cover_back :
    (q n x i : ℕ) → 0 < q → i ≡ x / q → x < n * q → (i < n) × ((i * q ≤ x) × (x < (i + 1) * q))
cover_back q n x i pos e lt = (grind arith, (grind arith, grind arith))

get_elem-map_range :
    (f : ℕ → Slice) (a n i : ℕ)
    → get_elem? (map f (range_from a n)) i ≡ (if ltb i n then some (f (a + i)) else none)
unfolding range_from
get_elem-map_range f a zero i = let beyond : ltb i 0 ≡ false = ground arith in rw beyond refl
get_elem-map_range f a (suc n) zero =
    let first : ltb 0 (suc n) ≡ true = ground arith in
    let start : a ≡ a + 0 = omega arith in rw first (ap (λ (k : ℕ). some (f k)) start)
get_elem-map_range f a (suc n) (suc i) =
    let next : suc a + i ≡ a + suc i = omega arith in
    let same : ltb (suc i) (suc n) ≡ ltb i n = ground arith in
    get_elem-map_range f (suc a) n i
    ∙ ap₂ (λ (b : Bool) (k : ℕ). if b then some (f k) else none) (sym same) next

get_elem-range_zero :
    (f : ℕ → Slice) (n i : ℕ)
    → get_elem? (map f (range_from 0 n)) i ≡ (if ltb i n then some (f i) else none)
get_elem-range_zero f n i =
    get_elem-map_range f 0 n i ∙ ap (λ (k : ℕ). if ltb i n then some (f k) else none) (omega arith)

dim_slices-slice :
    (s n i : ℕ) (sl : Slice)
    → get_elem? (dim_slices s n) i ≡ some sl
    → (i < n) × (nth_slice (s / n) i ≡ sl)
unfolding dim_slices
dim_slices-slice s n i sl h =
    let e : get_elem? (map (nth_slice (s / n)) (range_from 0 n)) i
        ≡ (if ltb i n then some (nth_slice (s / n) i) else none) =
      get_elem-range_zero (nth_slice (s / n)) n i in
    elim (Bool-cases (ltb i n)) [
      | inl below ↦
          let found : some (nth_slice (s / n) i) ≡ some sl =
            ap (λ (b : Bool). if b then some (nth_slice (s / n) i) else none) (sym below)
            ∙ sym e
            ∙ h in
          (ground (arith, below), ground (arith, found))
      | inr above ↦
          let missing : none ≡ some sl =
            ap (λ (b : Bool). if b then some (nth_slice (s / n) i) else none) (sym above)
            ∙ sym e
            ∙ h in
          cc
    ]

slice-dim_slices : (s n i : ℕ) → i < n → get_elem? (dim_slices s n) i ≡ some (nth_slice (s / n) i)
unfolding dim_slices
slice-dim_slices s n i h =
    let below : ltb i n ≡ true = ground (arith, h) in
    get_elem-range_zero (nth_slice (s / n)) n i
    ∙ ap (λ (b : Bool). if b then some (nth_slice (s / n) i) else none) below

-- Of the slices that a dimension of `s` entries is cut into, `n` of them, there is one numbered `i`
-- that covers entry `x` exactly when `i` is the quotient of `x` by the slice size and `x` lies below
-- `n * (s / n)`: what the division leaves over at the end is in no slice.
pub dim_slices-Covers :
    (s n x i : ℕ)
    → 0 < s / n
    → ((sl : Slice) × ((get_elem? (dim_slices s n) i ≡ some sl) × Covers sl x))
      ↔ ((i ≡ x / (s / n)) × (x < n * (s / n)))
dim_slices-Covers s n x i h = (
  λ (sl, (at, covers)).
      let (below, is) = dim_slices-slice s n i sl at in
      let own : Covers (nth_slice (s / n) i) x =
        subst (λ (t : Slice). Covers t x) (sym is) covers in
      cover_forth (s / n) n x i below own.0 own.1,
  λ c.
      let (below, own) = cover_back (s / n) n x i h c.0 c.1 in
      (nth_slice (s / n) i, (slice-dim_slices s n i below, own)),
)
