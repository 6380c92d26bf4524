-- ===== src/TensorBus/Layouts.antt =====
-- The layouts that the ranks gather for RegisterTensors in src/etha/tensor_bus/agent.py, and the
-- checks of `_handle_register_tensors` on them.
use etha.Prelude.{
  pair_eq, nat_beq, ℕ, ◌+◌, Bool, true, false, ◌&&◌, ◌||◌, not, Option, none, some, List, [], ◌∷◌,
  map, leb, ◌==◌, Eq, nat_eq, list_eq, if◌then◌else◌,
}
use etha.Prelude.Equality.{option_eq, rows_eq, bool_eq}
use etha.Prelude.Dict.{Dict}
use etha.Prelude.Sorting.{sorted_set, nat_order, lex_lt}
use etha.TensorBus.Registration.{Registration, has_key}

-- The part of `PairState` that is read: the ranks of both sides, whether they are the same, and the
-- names of `role_ranks`.
pub record PairSides : Type 0 where
  pub local_ranks : List ℕ
  pub remote_ranks : List ℕ
  pub dual_endpoint : Bool
  pub roles : List ℕ

-- `RegisterTensors`: the names of the tensors' pairs, without the payloads.
pub record RegisterTensors : Type 0 where
  pub batch_id : ℕ
  pub tensors : List ℕ
  pub bucket_size : Option ℕ
  pub role : Option ℕ
  pub semaphore_name : Option ℕ

abbrev pub Sides : Type 0
Sides = List ℕ × List ℕ

-- A pair's name, the number of its tensors and its sides.
abbrev pub Row : Type 0
Row = ℕ × (ℕ × Option Sides)

-- The first four entries of a layout.
abbrev pub Signature : Type 0
Signature = (ℕ × Option ℕ) × (List Row × Bool)

abbrev pub row_eq : Eq Row
row_eq =
    pair_eq ⦃e = nat_eq⦄
      ⦃f = pair_eq ⦃e = nat_eq⦄ ⦃f = option_eq (pair_eq ⦃e = list_eq⦄ ⦃f = list_eq⦄)⦄⦄

abbrev pub signature_eq : Eq Signature
signature_eq =
    pair_eq ⦃e = pair_eq ⦃e = nat_eq⦄ ⦃f = option_eq nat_eq⦄⦄
      ⦃f = pair_eq ⦃e = rows_eq row_eq⦄ ⦃f = bool_eq⦄⦄

-- The tuple `layout`.
pub record Layout : Type 0 where
  pub signature : Signature
  pub role : Option ℕ
  pub local_ok : Bool
  pub role_dup : Bool

-- A batch of the agent.
pub record Batch : Type 0 where
  pub registration : Registration
  pub dual_layout_signature : Option Signature

-- What a rank has for the message: its pairs, its batch of the message's id, and its counters.
pub record Host : Type 0 where
  pub pairs : ℕ → Option PairSides
  pub batch : Option Batch
  pub generations : Dict ℕ ℕ

abbrev pub insert_sorted : ℕ → List ℕ → List ℕ
insert_sorted n [] = n ∷ []
insert_sorted n (m ∷ ms) = if leb n m then n ∷ m ∷ ms else m ∷ insert_sorted n ms

abbrev pub sorted : List ℕ → List ℕ
sorted [] = []
sorted (n ∷ ns) = insert_sorted n (sorted ns)

abbrev pub sides_of : PairSides → Sides
sides_of p = (sorted p.local_ranks, sorted p.remote_ranks)

-- `tuple(sorted((local_ranks, remote_ranks)))`
abbrev pub membership_of : Option PairSides → Option Sides
membership_of none = none
membership_of (some p) =
    let (loc, rem) = sides_of p in some (if lex_lt rem loc then (rem, loc) else (loc, rem))

abbrev pub known_sides : (ℕ → Option PairSides) → List ℕ → List Sides
known_sides pairs [] = []
known_sides pairs (n ∷ ns) = elim (pairs n) [
  | none ↦ known_sides pairs ns
  | some p ↦ sides_of p ∷ known_sides pairs ns
]

abbrev pub all_of : {A : Type 0} → (A → Bool) → List A → Bool
all_of p [] = true
all_of p (x ∷ xs) = p x && all_of p xs

abbrev pub any_of : {A : Type 0} → (A → Bool) → List A → Bool
any_of p [] = false
any_of p (x ∷ xs) = p x || any_of p xs

-- `len(set(xs)) == 1`
abbrev pub one_value : {A : Type 0} → Eq A → List A → Bool
one_value e [] = false
one_value e (x ∷ xs) = all_of (e.beq x) xs

abbrev pub is_dual : Option PairSides → Bool
is_dual none = false
is_dual (some p) = p.dual_endpoint

abbrev pub elem_of : ℕ → List ℕ → Bool
elem_of n ns = any_of (nat_beq n) ns

abbrev pub has_role : ℕ → Option PairSides → Bool
has_role role none = false
has_role role (some p) = elem_of role p.roles

abbrev pub count : ℕ → List ℕ → ℕ
count n [] = 0
count n (m ∷ ms) = if n == m then 1 + count n ms else count n ms

unfoldable pub pair_names : RegisterTensors → List ℕ
unfolding sorted_set
pair_names msg = sorted_set msg.tensors

unfoldable pub batch_dual : RegisterTensors → Host → Bool
unfolding pair_names
batch_dual msg h = any_of (λ n. is_dual (h.pairs n)) (pair_names msg)

abbrev pub mix_ok : RegisterTensors → Host → Bool
mix_ok msg h = not (batch_dual msg h) || all_of (λ n. is_dual (h.pairs n)) (pair_names msg)

abbrev pub role_ok : RegisterTensors → Host → Bool
role_ok msg h = elim msg.role [
  | none ↦ not (batch_dual msg h)
  | some role ↦ batch_dual msg h && all_of (λ n. has_role role (h.pairs n)) (pair_names msg)
]

abbrev pub role_dup_of : RegisterTensors → Host → Bool
role_dup_of msg h = elim msg.role [
  | none ↦ false
  | some role ↦ elim h.batch [
    | none ↦ false
    | some b ↦
        batch_dual msg h
        && any_of (λ n. has_key (n, role) b.registration.registered) (pair_names msg)
  ]
]

unfoldable pub layout_of : RegisterTensors → Host → Layout
unfolding pair_names batch_dual
layout_of msg h = record {
  signature = (
    (msg.batch_id, msg.bucket_size),
    (
      map (λ n. (n, (count n msg.tensors, membership_of (h.pairs n)))) (pair_names msg),
      one_value (pair_eq ⦃e = list_eq⦄ ⦃f = list_eq⦄) (known_sides h.pairs (pair_names msg)),
    ),
  );
  role = msg.role;
  local_ok = mix_ok msg h && role_ok msg h;
  role_dup = role_dup_of msg h;
}

pub data Problem : Type 0 where
  role_registered invalid_registration wrong_members dual_inconsistent dual_changed
        split_inconsistent :
      Problem

abbrev pub is_given : {A : Type 0} → Option A → Bool
is_given none = false
is_given (some a) = true

-- `not (None in memberships or len(memberships) != 1 or not local_membership_valid)`; the names are
-- those of the rows, so without a name there is no membership.
abbrev pub members_ok : Signature → Bool
members_ok s =
    all_of (λ (r : Row). is_given r.1.1) s.1.0
    && (one_value (option_eq (pair_eq ⦃e = list_eq⦄ ⦃f = list_eq⦄)) (map (λ (r : Row). r.1.1) s.1.0)
        && s.1.1)

abbrev pub same_layout : Layout → Layout → Bool
same_layout a b =
    signature_eq.beq a.signature b.signature
    && ((option_eq nat_eq).beq a.role b.role
        && (bool_eq.beq a.local_ok b.local_ok && bool_eq.beq a.role_dup b.role_dup))

-- Whether the stored signature of a batch is another.
abbrev pub is_changed : Option Signature → Signature → Bool
is_changed none s = false
is_changed (some t) s = not (signature_eq.beq t s)

-- The checks in their order; `none` if all pass.
unfoldable pub check_layouts : Bool → Option Signature → List Layout → Layout → Option Problem
check_layouts dual stored layouts own =
    if any_of (λ (l : Layout). l.role_dup) layouts
    then some role_registered
    else if any_of (λ (l : Layout). not l.local_ok) layouts
    then some invalid_registration
    else if not (members_ok own.signature)
    then some wrong_members
    else if dual
    then if any_of (λ (l : Layout). not (signature_eq.beq l.signature own.signature)) layouts
      then some dual_inconsistent
      else if is_changed stored own.signature
      then some dual_changed
      else none
    else if any_of (λ (l : Layout). not (same_layout l own)) layouts
    then some split_inconsistent
    else none
