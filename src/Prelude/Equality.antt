-- ===== src/Prelude/Equality.antt =====
-- Equality tests on Python's optional values, lists and truth values.
use etha.Prelude.{
  pair_eq, ◌≡◌, refl, ◌↔◌, Bool, true, false, ◌&&◌, Option, none, some, List, [], ◌∷◌, arith, Eq,
  nat_eq, list_eq,
}

module _ {A : Type 0} (e : Eq A) where
  abbrev option_beq : Option A → Option A → Bool
  option_beq none none = true
  option_beq (some a) (some b) = e.beq a b
  option_beq _ _ = false

  pub option_beq_iff : (p q : Option A) → (option_beq p q ≡ true) ↔ (p ≡ q)
  option_beq_iff none none = (λ h. refl, λ h. refl)
  option_beq_iff none (some b) = (λ h. cc, λ h. cc)
  option_beq_iff (some a) none = (λ h. cc, λ h. cc)
  option_beq_iff (some a) (some b) = ground (arith, e.beq_iff a b)

  abbrev pub option_eq : Eq (Option A)
  option_eq = record { beq = option_beq; beq_iff = option_beq_iff }

  abbrev rows_beq : List A → List A → Bool
  rows_beq [] [] = true
  rows_beq (a ∷ l) (b ∷ r) = e.beq a b && rows_beq l r
  rows_beq _ _ = false

  pub rows_beq_iff : (p q : List A) → (rows_beq p q ≡ true) ↔ (p ≡ q)
  rows_beq_iff [] [] = (λ h. refl, λ h. refl)
  rows_beq_iff [] (b ∷ r) = (λ h. cc, λ h. cc)
  rows_beq_iff (a ∷ l) [] = (λ h. cc, λ h. cc)
  rows_beq_iff (a ∷ l) (b ∷ r) = ground (arith, e.beq_iff a b, rows_beq_iff l r)

  abbrev pub rows_eq : Eq (List A)
  rows_eq = record { beq = rows_beq; beq_iff = rows_beq_iff }

abbrev bool_beq : Bool → Bool → Bool
bool_beq true true = true
bool_beq false false = true
bool_beq _ _ = false

pub bool_beq_iff : (p q : Bool) → (bool_beq p q ≡ true) ↔ (p ≡ q)
bool_beq_iff true true = (λ h. refl, λ h. refl)
bool_beq_iff false false = (λ h. refl, λ h. refl)
bool_beq_iff true false = (λ h. cc, λ h. cc)
bool_beq_iff false true = (λ h. cc, λ h. cc)

abbrev pub bool_eq : Eq Bool
bool_eq = record { beq = bool_beq; beq_iff = bool_beq_iff }
