-- ===== src/Prelude/Sorting.antt =====
-- `sorted(set(xs))`, and `sorted(d)` for the keys of a dict, over Python's order of numbers and of
-- tuples of numbers.
use etha.Prelude.Tests.{ltb, Eq, nat_eq, list_eq, nat_beq, list_beq, if◌then◌else◌, Bool-cases}
use Prim.Native.Nat.{ℕ}
use mathlib.Core.Path.{◌≡◌, refl, ap, ap₂, sym, ◌∙◌}
use mathlib.Core.Bool.{Bool, true, false, ◌&&◌, ◌||◌}
use mathlib.Core.List.{List, [], ◌∷◌, ◌++◌}
use mathlib.Core.Logic.{inl, inr}
use native.Mathlib.Omega.{arith}

-- A strict order that compares any two different values.
pub record Order {ℓ} (A : Type ℓ) : Type ℓ where
  pub eq : Eq A
  pub lt : A → A → Bool
  pub irrefl : (a : A) → lt a a ≡ false
  pub trans : (a b c : A) → lt a b ≡ true → lt b c ≡ true → lt a c ≡ true
  pub total : (a b : A) → lt a b ≡ false → eq.beq a b ≡ false → lt b a ≡ true

pub ltb_irrefl : (a : ℕ) → ltb a a ≡ false
ltb_irrefl a = ground arith

pub ltb_trans : (a b c : ℕ) → ltb a b ≡ true → ltb b c ≡ true → ltb a c ≡ true
ltb_trans a b c p q = ground arith

pub ltb_total : (a b : ℕ) → ltb a b ≡ false → nat_beq a b ≡ false → ltb b a ≡ true
ltb_total a b p q = ground arith

instance abbrev pub nat_order : Order ℕ
nat_order = record {
  eq = nat_eq;
  lt = ltb;
  irrefl = ltb_irrefl;
  trans = ltb_trans;
  total = ltb_total;
}

-- Python compares tuples from the left; a proper prefix is smaller.
abbrev pub lex_lt : List ℕ → List ℕ → Bool
lex_lt l [] = false
lex_lt [] (y ∷ ys) = true
lex_lt (x ∷ xs) (y ∷ ys) = ltb x y || (nat_beq x y && lex_lt xs ys)

pub lex_irrefl : (l : List ℕ) → lex_lt l l ≡ false
lex_irrefl [] = refl
lex_irrefl (x ∷ xs) = ground (arith, lex_irrefl xs)

pub lex_trans : (a b c : List ℕ) → lex_lt a b ≡ true → lex_lt b c ≡ true → lex_lt a c ≡ true
lex_trans a [] c p q = cc
lex_trans a (y ∷ b) [] p q = cc
lex_trans [] (y ∷ b) (z ∷ c) p q = refl
lex_trans (x ∷ a) (y ∷ b) (z ∷ c) p q = ground (arith, lex_trans a b c)

pub lex_total : (a b : List ℕ) → lex_lt a b ≡ false → list_beq a b ≡ false → lex_lt b a ≡ true
lex_total [] [] p q = cc
lex_total [] (y ∷ b) p q = cc
lex_total (x ∷ a) [] p q = refl
lex_total (x ∷ a) (y ∷ b) p q = ground (arith, lex_total a b)

instance abbrev pub lex_order : Order (List ℕ)
lex_order = record {
  eq = list_eq;
  lt = lex_lt;
  irrefl = lex_irrefl;
  trans = lex_trans;
  total = lex_total;
}

module _ {ℓ} {A : Type ℓ} ⦃o : Order A⦄ where
  abbrev pub contains : List A → A → Bool
  contains [] a = false
  contains (x ∷ xs) a = o.eq.beq a x || contains xs a

  pub contains-append :
      (xs ys : List A) (a : A) → contains (xs ++ ys) a ≡ (contains xs a || contains ys a)
  contains-append [] ys a = refl
  contains-append (x ∷ xs) ys a = ground (arith, contains-append xs ys a)

  unfoldable pub add : A → List A → List A
  add a [] = a ∷ []
  add a (x ∷ xs) = if o.lt a x then a ∷ x ∷ xs else if o.eq.beq a x then x ∷ xs else x ∷ add a xs

  unfoldable pub sorted_set : List A → List A
  unfolding add
  sorted_set [] = []
  sorted_set (x ∷ xs) = add x (sorted_set xs)

  -- Strictly ascending, with no repetition.
  abbrev pub Above : A → List A → Type 0
  Above a [] = Unit {0}
  Above a (x ∷ xs) = (o.lt a x ≡ true) × Above a xs

  abbrev pub Ascends : List A → Type 0
  Ascends [] = Unit {0}
  Ascends (x ∷ xs) = Above x xs × Ascends xs

  pub Above-trans : (a b : A) (xs : List A) → o.lt a b ≡ true → Above b xs → Above a xs
  Above-trans a b [] p h = tt
  Above-trans a b (x ∷ xs) p h = (o.trans a b x p h.0, Above-trans a b xs p h.1)

  Above-add : (a b : A) (xs : List A) → o.lt a b ≡ true → Above a xs → Above a (add b xs)
  unfolding add
  Above-add a b [] p h = (p, tt)
  Above-add a b (x ∷ xs) p h = ground (arith, Above-add a b xs p)

  pub Ascends-add : (a : A) (xs : List A) → Ascends xs → Ascends (add a xs)
  unfolding add
  Ascends-add a [] h = (tt, tt)
  Ascends-add a (x ∷ xs) h = elim (Bool-cases (o.lt a x)) [
    | inl below ↦ rw below ((below, Above-trans a x xs below h.0), h)
    | inr above ↦ elim (Bool-cases (o.eq.beq a x)) [
      | inl same ↦ rw (above, same) h
      | inr differ ↦
          rw (above, differ) (Above-add x a xs (o.total a x above differ) h.0, Ascends-add a xs h.1)
    ]
  ]

  pub sorted_set-Ascends : (xs : List A) → Ascends (sorted_set xs)
  unfolding sorted_set
  sorted_set-Ascends [] = tt
  sorted_set-Ascends (x ∷ xs) = Ascends-add x (sorted_set xs) (sorted_set-Ascends xs)

  pub contains-add :
      (a b : A) (xs : List A) → contains (add a xs) b ≡ (o.eq.beq b a || contains xs b)
  unfolding add
  contains-add a b [] = refl
  contains-add a b (x ∷ xs) = ground (arith, contains-add a b xs, o.eq.beq_iff a x)

  pub contains-sorted_set : (xs : List A) (b : A) → contains (sorted_set xs) b ≡ contains xs b
  unfolding sorted_set
  contains-sorted_set [] b = refl
  contains-sorted_set (x ∷ xs) b =
      contains-add x b (sorted_set xs) ∙ ap (◌||◌ (o.eq.beq b x)) (contains-sorted_set xs b)

  Above-contains : (a b : A) (xs : List A) → Above a xs → contains xs b ≡ true → o.lt a b ≡ true
  Above-contains a b [] h c = cc
  Above-contains a b (x ∷ xs) h c = ground (arith, Above-contains a b xs h.1, o.eq.beq_iff b x)

  same_head :
      (x y : A) (xs ys : List A)
      → Above x xs
      → Above y ys
      → contains (x ∷ xs) x ≡ contains (y ∷ ys) x
      → contains (x ∷ xs) y ≡ contains (y ∷ ys) y
      → x ≡ y
  same_head x y xs ys p q hx hy = ground (
    arith,
    o.eq.beq_iff x x,
    o.eq.beq_iff y y,
    o.eq.beq_iff x y,
    o.eq.beq_iff y x,
    Above-contains y x ys q,
    Above-contains x y xs p,
    o.trans x y x,
    o.irrefl x,
  )

  same_tail :
      (a x y : A) (xs ys : List A)
      → x ≡ y
      → Above x xs
      → Above y ys
      → contains (x ∷ xs) a ≡ contains (y ∷ ys) a
      → contains xs a ≡ contains ys a
  same_tail a x y xs ys e p q h = ground (
    arith,
    e,
    o.eq.beq_iff a x,
    o.eq.beq_iff a y,
    Above-contains x a xs p,
    Above-contains y a ys q,
    o.irrefl a,
  )

  -- Two ascending lists with the same members are equal.
  pub Ascends-ext :
      (xs ys : List A)
      → Ascends xs
      → Ascends ys
      → ((a : A) → contains xs a ≡ contains ys a)
      → xs ≡ ys
  Ascends-ext [] [] p q h = refl
  Ascends-ext [] (y ∷ ys) p q h = ground (arith, h y, o.eq.beq_iff y y)
  Ascends-ext (x ∷ xs) [] p q h = ground (arith, h x, o.eq.beq_iff x x)
  Ascends-ext (x ∷ xs) (y ∷ ys) p q h =
      let e : x ≡ y = same_head x y xs ys p.0 q.0 (h x) (h y) in
      ap₂ (◌∷◌) e (Ascends-ext xs ys p.1 q.1 (λ a. same_tail a x y xs ys e p.0 q.0 (h a)))

  -- The result depends only on the members: not on their order, nor on repetitions.
  pub sorted_set_ext :
      (xs ys : List A) → ((a : A) → contains xs a ≡ contains ys a) → sorted_set xs ≡ sorted_set ys
  sorted_set_ext xs ys h =
      Ascends-ext (sorted_set xs) (sorted_set ys) (sorted_set-Ascends xs) (sorted_set-Ascends ys)
        (λ a. contains-sorted_set xs a ∙ h a ∙ sym (contains-sorted_set ys a))
