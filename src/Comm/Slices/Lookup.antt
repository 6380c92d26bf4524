-- ===== src/Comm/Slices/Lookup.antt =====
-- The linear index of utils.py finds the slices of a multi-index.
use etha.Prelude.{
  ℕ, zero, suc, ◌+◌, ◌*◌, ◌/◌, ◌<◌, ◌≡◌, refl, ap, ◌∙◌, some, List, [], ◌∷◌, ◌++◌, map, arith,
  nat_eq, list_eq, length, get_elem?, length-append,
}
use etha.Comm.Slices.{
  Slice, range, range_from, prepend_all, product, nth_slice, dim_slices, slicers_per_dim,
  get_slicer_tuples, linear_index, get_slice_from_multi_index,
}

-- The slice of each dimension: that of the index, and the whole of a dimension the index leaves out.
abbrev pub slices_at : List ℕ → List ℕ → List ℕ → List Slice
slices_at [] (s ∷ shape) (n ∷ nums) = nth_slice (s / n) 0 ∷ slices_at [] shape nums
slices_at (i ∷ idx) (s ∷ shape) (n ∷ nums) = nth_slice (s / n) i ∷ slices_at idx shape nums
slices_at _ _ _ = []

-- The index lies in the grid; dimensions beyond it are not sliced.
abbrev pub InGrid : List ℕ → List ℕ → Type 0
InGrid [] [] = Unit {0}
InGrid [] (n ∷ nums) = (n ≡ 1) × InGrid [] nums
InGrid (i ∷ idx) [] = ⊥
InGrid (i ∷ idx) (n ∷ nums) = (i < n) × InGrid idx nums

module _ {ℓ} {A : Type ℓ} where
  get_elem?-append_left :
      (xs ys : List A) (i : ℕ) → i < length xs → get_elem? (xs ++ ys) i ≡ get_elem? xs i
  get_elem?-append_left [] ys i h = elim h [ ]
  get_elem?-append_left (x ∷ xs) ys zero h = refl
  get_elem?-append_left (x ∷ xs) ys (suc i) h = get_elem?-append_left xs ys i (omega arith)

  get_elem?-append_right :
      (xs ys : List A) (i : ℕ) → get_elem? (xs ++ ys) (length xs + i) ≡ get_elem? ys i
  get_elem?-append_right [] ys i = ap (get_elem? ys) (omega arith)
  get_elem?-append_right (x ∷ xs) ys i =
      let e : suc (length xs) + i ≡ suc (length xs + i) = omega arith in
      rw e (get_elem?-append_right xs ys i)

  get_elem?-map_cons :
      (x : A) (yss : List (List A)) (i : ℕ) (ys : List A)
      → get_elem? yss i ≡ some ys
      → get_elem? (map (◌∷◌ x) yss) i ≡ some (x ∷ ys)
  get_elem?-map_cons x [] i ys h = cc
  get_elem?-map_cons x (y ∷ yss) zero ys h = ground (arith, h)
  get_elem?-map_cons x (y ∷ yss) (suc i) ys h = get_elem?-map_cons x yss i ys h

  pub length-map {κ} : {B : Type κ} (f : A → B) (xs : List A) → length (map f xs) ≡ length xs
  length-map f [] = refl
  length-map f (x ∷ xs) = ap suc (length-map f xs)

  pub lt-of_get_elem? : (xs : List A) (i : ℕ) (x : A) → get_elem? xs i ≡ some x → i < length xs
  lt-of_get_elem? [] i x h = cc
  lt-of_get_elem? (y ∷ xs) zero x h = omega arith
  lt-of_get_elem? (y ∷ xs) (suc i) x h = omega (arith, lt-of_get_elem? xs i x h)

module _ {ℓ} {A : Type ℓ} (yss : List (List A)) where
  length-prepend_all : (xs : List A) → length (prepend_all xs yss) ≡ length xs * length yss
  unfolding prepend_all
  length-prepend_all [] = omega arith
  length-prepend_all (x ∷ xs) = omega (
    arith,
    length-append {ℓ} (map (◌∷◌ x) yss) (prepend_all xs yss),
    length-map {ℓ, ℓ} (◌∷◌ x) yss,
    length-prepend_all xs,
  )

  -- The elements that begin with the `i`th come as the `i`th block.
  get_elem?-prepend_all :
      (xs : List A) (i j : ℕ) (x : A) (ys : List A)
      → get_elem? xs i ≡ some x
      → get_elem? yss j ≡ some ys
      → get_elem? (prepend_all xs yss) (j + i * length yss) ≡ some (x ∷ ys)
  unfolding prepend_all
  get_elem?-prepend_all [] i j x ys hx hy = cc
  get_elem?-prepend_all (z ∷ xs) zero j x ys hx hy =
      let here : j + 0 * length yss ≡ j = omega arith in
      let block : get_elem? (map (◌∷◌ z) yss) j ≡ some (z ∷ ys) =
        get_elem?-map_cons z yss j ys hy in
      rw here (
        get_elem?-append_left (map (◌∷◌ z) yss) (prepend_all xs yss) j
          (lt-of_get_elem? (map (◌∷◌ z) yss) j (z ∷ ys) block)
        ∙ ground (arith, block, hx))
  get_elem?-prepend_all (z ∷ xs) (suc i) j x ys hx hy =
      let n : ℕ = length yss in
      let shift : j + suc i * length yss ≡ length (map (◌∷◌ z) yss) + (j + i * length yss) =
        omega (arith, length-map {ℓ, ℓ} (◌∷◌ z) yss) in
      rw shift (
        get_elem?-append_right (map (◌∷◌ z) yss) (prepend_all xs yss) (j + i * length yss)
        ∙ get_elem?-prepend_all xs i j x ys hx hy)

get_elem?-range_from {ℓ} :
    {A : Type ℓ} (f : ℕ → A) (k n i : ℕ)
    → i < n
    → get_elem? (map f (range_from k n)) i ≡ some (f (k + i))
unfolding range_from
get_elem?-range_from f k zero i h = elim h [ ]
get_elem?-range_from f k (suc n) zero h = ap (λ (j : ℕ). some (f j)) (omega arith)
get_elem?-range_from f k (suc n) (suc i) h =
    get_elem?-range_from f (suc k) n i (omega arith) ∙ ap (λ (j : ℕ). some (f j)) (omega arith)

length-range_from : (k n : ℕ) → length (range_from k n) ≡ n
unfolding range_from
length-range_from k zero = refl
length-range_from k (suc n) = ap suc (length-range_from (suc k) n)

get_elem?-dim_slices :
    (s n i : ℕ) → i < n → get_elem? (dim_slices s n) i ≡ some (nth_slice (s / n) i)
unfolding dim_slices
get_elem?-dim_slices s n i h =
    get_elem?-range_from (nth_slice (s / n)) 0 n i h
    ∙ ap (λ (j : ℕ). some (nth_slice (s / n) j)) (omega arith)

length-dim_slices : (s n : ℕ) → length (dim_slices s n) ≡ n
unfolding dim_slices
length-dim_slices s n = length-map (nth_slice (s / n)) (range n) ∙ length-range_from 0 n

-- The loop's two results: the position in the table, and the size of the table.
abbrev Found : List ℕ → List ℕ → List ℕ → Type 0
Found idx shape nums =
    (l : ℕ) × (m : ℕ) × (linear_index idx nums ≡ some (l, m))
    × (get_elem? (product (slicers_per_dim shape nums)) l ≡ some (slices_at idx shape nums))
    × (length (product (slicers_per_dim shape nums)) ≡ m)

-- Where nothing is sliced the table has one entry.
unsliced :
    (shape nums : List ℕ)
    → length shape ≡ length nums
    → InGrid [] nums
    → (get_elem? (product (slicers_per_dim shape nums)) 0 ≡ some (slices_at [] shape nums))
      × (length (product (slicers_per_dim shape nums)) ≡ 1)
unfolding slicers_per_dim product
unsliced [] [] e h = (refl, refl)
unsliced [] (n ∷ nums) e h = absurd (omega (arith, e))
unsliced (s ∷ shape) [] e h = absurd (omega (arith, e))
unsliced (s ∷ shape) (n ∷ nums) e h =
    let table : List (List Slice) = product (slicers_per_dim shape nums) in
    let (g, k) = unsliced shape nums (omega arith) h.1 in
    let first : 0 + 0 * length table ≡ 0 = omega arith in
    (
      rw first at (
          get_elem?-prepend_all table (dim_slices s n) 0 0 (nth_slice (s / n) 0)
            (slices_at [] shape nums) (get_elem?-dim_slices s n 0 (omega (arith, h.0))) g),
      rw (length-prepend_all table (dim_slices s n), length-dim_slices s n, k, h.0) (omega arith),
    )

linear_index-Found :
    (idx shape nums : List ℕ) → length shape ≡ length nums → InGrid idx nums → Found idx shape nums
unfolding linear_index slicers_per_dim product
linear_index-Found [] [] [] e h = (0, 1, refl, refl, refl)
linear_index-Found [] [] (n ∷ nums) e h = absurd (omega (arith, e))
linear_index-Found [] (s ∷ shape) [] e h = absurd (omega (arith, e))
linear_index-Found [] (s ∷ shape) (n ∷ nums) e h =
    let (g, k) = unsliced (s ∷ shape) (n ∷ nums) e h in (0, 1, refl, g, k)
linear_index-Found (i ∷ idx) shape [] e h = elim h [ ]
linear_index-Found (i ∷ idx) [] (n ∷ nums) e h = absurd (omega (arith, e))
linear_index-Found (i ∷ idx) (s ∷ shape) (n ∷ nums) e h =
    let (l, m, f, g, k) = linear_index-Found idx shape nums (omega arith) h.1 in
    (
      l + i * m,
      m * n,
      rw f refl,
      rw (← k) (
          get_elem?-prepend_all (product (slicers_per_dim shape nums)) (dim_slices s n) i l
            (nth_slice (s / n) i) (slices_at idx shape nums) (get_elem?-dim_slices s n i h.0) g),
      rw
          (
            length-prepend_all (product (slicers_per_dim shape nums)) (dim_slices s n),
            length-dim_slices s n,
            k,
          )
          (omega arith),
    )

-- For an index inside the grid the lookup succeeds, and gives for each dimension the slice of its
-- own index.
pub get_slice_from_multi_index-slices_at :
    (idx shape nums : List ℕ)
    → length shape ≡ length nums
    → InGrid idx nums
    → get_slice_from_multi_index idx nums (get_slicer_tuples shape nums)
      ≡ some (slices_at idx shape nums)
unfolding get_slice_from_multi_index get_slicer_tuples
get_slice_from_multi_index-slices_at idx shape nums e h =
    let (l, m, f, g, k) = linear_index-Found idx shape nums e h in
    rw (f, get_slice_from_multi_index) g
