-- ===== src/TensorBus/Admission/Agree.antt =====
-- The ranks that gather the same layouts in agent.py take the same way.
use etha.Prelude.{
  pair_eq, List-cases, ℕ, zero, suc, ◌≡◌, refl, sym, ap, ap₂, subst, ◌∙◌, ◌↔◌, inl, inr, Bool, true,
  false, ◌&&◌, not, Option, none, some, List, [], ◌∷◌, arith, nat_eq, list_eq, if◌then◌else◌,
  Bool-cases, Option-cases, get_elem?,
}
use etha.Prelude.Equality.{option_eq, bool_eq}
use etha.TensorBus.Layouts.{
  RegisterTensors, Host, Layout, Signature, Problem, signature_eq, any_of, same_layout, members_ok,
  check_layouts, layout_of, batch_dual, mix_ok, has_role, all_of, pair_names, role_registered,
  invalid_registration, wrong_members, dual_inconsistent, dual_changed, split_inconsistent,
}
use etha.TensorBus.Admission.{
  Admitted, rejected, starts_split, registers_dual, stored_signature, reject, admit, abort_existing,
  abort_opened, handle_register_tensors,
}

not_any-get :
    {A : Type 0} (p : A → Bool) (xs : List A) (i : ℕ) (x : A)
    → any_of p xs ≡ false
    → get_elem? xs i ≡ some x
    → p x ≡ false
not_any-get p [] i x h g = cc
not_any-get p (y ∷ ys) zero x h g = ground (arith, h, g)
not_any-get p (y ∷ ys) (suc i) x h g = not_any-get p ys i x (ground (arith, h)) g

pub not-false : (b : Bool) → not b ≡ false → b ≡ true
not-false true h = refl
not-false false h = cc

-- A check that is passed, and the checks after it.
pub passed :
    (c : Bool) (p : Problem) (o : Option Problem)
    → (if c then some p else o) ≡ none
    → (c ≡ false) × (o ≡ none)
passed true p o h = cc
passed false p o h = (refl, h)

pub and-parts : (b c : Bool) → (b && c) ≡ true → (b ≡ true) × (c ≡ true)
and-parts true c h = (refl, h)
and-parts false c h = cc

-- Layouts that are the same for the test are equal.
same_layout-eq : (a b : Layout) → same_layout a b ≡ true → a ≡ b
same_layout-eq a b h =
    let (first, rest) =
      and-parts (signature_eq.beq a.signature b.signature)
        ((option_eq nat_eq).beq a.role b.role
          && (bool_eq.beq a.local_ok b.local_ok && bool_eq.beq a.role_dup b.role_dup))
        h in
    let (second, last) =
      and-parts ((option_eq nat_eq).beq a.role b.role)
        (bool_eq.beq a.local_ok b.local_ok && bool_eq.beq a.role_dup b.role_dup) rest in
    let (third, fourth) =
      and-parts (bool_eq.beq a.local_ok b.local_ok) (bool_eq.beq a.role_dup b.role_dup) last in
    let e1 : a.signature ≡ b.signature = (signature_eq.beq_iff a.signature b.signature).0 first in
    let e2 : a.role ≡ b.role = ((option_eq nat_eq).beq_iff a.role b.role).0 second in
    let e3 : a.local_ok ≡ b.local_ok = (bool_eq.beq_iff a.local_ok b.local_ok).0 third in
    let e4 : a.role_dup ≡ b.role_dup = (bool_eq.beq_iff a.role_dup b.role_dup).0 fourth in
    λ i. record { signature = e1 i; role = e2 i; local_ok = e3 i; role_dup = e4 i }

module _ (stored : Option Signature) (layouts : List Layout) where
  -- What passing the checks says of the layouts.
  pub check_layouts-dual :
      (own : Layout) (i : ℕ) (l : Layout)
      → check_layouts true stored layouts own ≡ none
      → get_elem? layouts i ≡ some l
      → l.signature ≡ own.signature
  unfolding check_layouts
  check_layouts-dual own i l h g =
      let (no_dup, h1) = passed (any_of (λ (k : Layout). k.role_dup) layouts) role_registered _ h in
      let (all_ok, h2) =
        passed (any_of (λ (k : Layout). not k.local_ok) layouts) invalid_registration _ h1 in
      let (members, h3) = passed (not (members_ok own.signature)) wrong_members _ h2 in
      let (same, h4) =
        passed (any_of (λ (k : Layout). not (signature_eq.beq k.signature own.signature)) layouts)
          dual_inconsistent _ h3 in
      (signature_eq.beq_iff l.signature own.signature).0 (
        not-false (signature_eq.beq l.signature own.signature) (
          not_any-get (λ (k : Layout). not (signature_eq.beq k.signature own.signature)) layouts i l
            same g))

  pub check_layouts-split :
      (own : Layout) (i : ℕ) (l : Layout)
      → check_layouts false stored layouts own ≡ none
      → get_elem? layouts i ≡ some l
      → l ≡ own
  unfolding check_layouts
  check_layouts-split own i l h g =
      let (no_dup, h1) = passed (any_of (λ (k : Layout). k.role_dup) layouts) role_registered _ h in
      let (all_ok, h2) =
        passed (any_of (λ (k : Layout). not k.local_ok) layouts) invalid_registration _ h1 in
      let (members, h3) = passed (not (members_ok own.signature)) wrong_members _ h2 in
      let (same, h4) =
        passed (any_of (λ (k : Layout). not (same_layout k own)) layouts) split_inconsistent _ h3 in
      same_layout-eq l own (
        not-false (same_layout l own)
          (not_any-get (λ (k : Layout). not (same_layout k own)) layouts i l same g))

  -- The checks of a dual batch read no more of the own layout than its signature.
  check_layouts-signature :
      (a b : Layout)
      → a.signature ≡ b.signature
      → check_layouts true stored layouts a ≡ check_layouts true stored layouts b
  unfolding check_layouts
  check_layouts-signature a b e =
      ap (λ (s : Signature). check_layouts true stored layouts (record a { signature = s })) e

  check_layouts-passes :
      (dual : Bool) (a b : Layout) (j : ℕ)
      → check_layouts dual stored layouts a ≡ none
      → get_elem? layouts j ≡ some b
      → check_layouts dual stored layouts b ≡ none
  check_layouts-passes true a b j h g =
      check_layouts-signature b a (check_layouts-dual a j b h g) ∙ h
  check_layouts-passes false a b j h g =
      ap (check_layouts false stored layouts) (check_layouts-split a j b h g) ∙ h

  pub check_layouts-ok :
      (dual : Bool) (a b : Layout) (j : ℕ)
      → check_layouts dual stored layouts a ≡ none
      → get_elem? layouts j ≡ some b
      → b.local_ok ≡ true
  unfolding check_layouts
  check_layouts-ok dual a b j h g =
      let (no_dup, h1) = passed (any_of (λ (k : Layout). k.role_dup) layouts) role_registered _ h in
      let (all_ok, h2) =
        passed (any_of (λ (k : Layout). not k.local_ok) layouts) invalid_registration _ h1 in
      not-false b.local_ok (not_any-get (λ (k : Layout). not k.local_ok) layouts j b all_ok g)

abbrev pub admits : Admitted → Bool
admits (rejected p b gens log) = false
admits (starts_split b gens) = true
admits (registers_dual s gens r) = true

abort_existing-admits :
    (p : Problem) (msg : RegisterTensors) (h : Host) → admits (abort_existing p h) ≡ false
unfolding abort_existing
abort_existing-admits p msg h = elim (Option-cases h.batch) [
  | inl nothing ↦ rw (abort_existing, nothing) refl
  | inr (b, is) ↦ elim (List-cases b.registration.parked) [
    | inl nobody ↦ rw (abort_existing, is, nobody) refl
    | inr (s, ss, they) ↦ rw (abort_existing, is, they) refl
  ]
]

reject-admits : (p : Problem) (msg : RegisterTensors) (h : Host) → admits (reject p msg h) ≡ false
unfolding reject abort_opened
reject-admits dual_inconsistent msg h = refl
reject-admits dual_changed msg h = refl
reject-admits split_inconsistent msg h = refl
reject-admits role_registered msg h = abort_existing-admits role_registered msg h
reject-admits invalid_registration msg h = abort_existing-admits invalid_registration msg h
reject-admits wrong_members msg h = abort_existing-admits wrong_members msg h

pub handle-checked :
    (generates : Bool) (msg : RegisterTensors) (h : Host) (layouts : List Layout)
    → admits (handle_register_tensors generates msg h layouts) ≡ true
    → check_layouts (batch_dual msg h) (stored_signature h) layouts (layout_of msg h) ≡ none
unfolding handle_register_tensors
handle-checked generates msg h layouts ok =
    elim (Option-cases
      (check_layouts (batch_dual msg h) (stored_signature h) layouts (layout_of msg h))) [
        | inl none_is ↦ none_is
        | inr (p, is) ↦
            let no : false ≡ true =
              sym (reject-admits p msg h)
              ∙ subst
                  (λ (o : Option Problem).
                    admits (elim o [
                      | some p ↦ reject p msg h
                      | none ↦ admit generates msg h (layout_of msg h).signature
                    ])
                    ≡ true)
                  is ok in
            cc
      ]

role-given :
    (msg : RegisterTensors) (h : Host)
    → batch_dual msg h ≡ true
    → (layout_of msg h).local_ok ≡ true
    → (r : ℕ) × (msg.role ≡ some r)
unfolding layout_of
role-given msg h dual ok = elim (Option-cases msg.role) [
  | inr given ↦ given
  | inl missing ↦
      let without : (mix_ok msg h && not (batch_dual msg h)) ≡ true =
        subst
          (λ (o : Option ℕ).
            (mix_ok msg h && elim o [
              | none ↦ not (batch_dual msg h)
              | some role ↦
                  batch_dual msg h && all_of (λ n. has_role role (h.pairs n)) (pair_names msg)
            ])
            ≡ true)
          missing ok in
      let (mixed, single) = and-parts (mix_ok msg h) (not (batch_dual msg h)) without in
      let never : false ≡ true = ap not (sym dual) ∙ single in cc
]

handle-admits :
    (generates : Bool) (msg : RegisterTensors) (h : Host) (layouts : List Layout)
    → check_layouts (batch_dual msg h) (stored_signature h) layouts (layout_of msg h) ≡ none
    → (layout_of msg h).local_ok ≡ true
    → admits (handle_register_tensors generates msg h layouts) ≡ true
unfolding handle_register_tensors admit
handle-admits generates msg h layouts checked ok = elim (Bool-cases (batch_dual msg h)) [
  | inl dual ↦
      let (r, is) = role-given msg h dual ok in
      rw (handle_register_tensors, checked, admit, dual, is) refl
  | inr single ↦ rw (handle_register_tensors, checked, admit, single) refl
]

one-way :
    (layouts : List Layout) (first second : RegisterTensors) (h k : Host) (j : ℕ) (g g' : Bool)
    → get_elem? layouts j ≡ some (layout_of second k)
    → batch_dual first h ≡ batch_dual second k
    → stored_signature h ≡ stored_signature k
    → admits (handle_register_tensors g first h layouts) ≡ true
    → admits (handle_register_tensors g' second k layouts) ≡ true
one-way layouts first second h k j g g' at_j dual stored ok =
    let own = handle-checked g first h layouts ok in
    let other =
      check_layouts-passes (stored_signature h) layouts (batch_dual first h) (layout_of first h)
        (layout_of second k) j own at_j in
    handle-admits g' second k layouts
      (ap₂ (λ (d : Bool) (s : Option Signature). check_layouts d s layouts (layout_of second k))
          (sym dual) (sym stored)
        ∙ other)
      (check_layouts-ok (stored_signature h) layouts (batch_dual first h) (layout_of first h)
        (layout_of second k) j own at_j)

-- Two ranks that gather the same layouts, their own at their places, and that agree on whether the
-- batch is dual and on its stored signature, both go on with the registration or both raise.
pub handle_register_tensors-Agree :
    (layouts : List Layout) (first second : RegisterTensors) (h k : Host) (i j : ℕ) (g g' : Bool)
    → get_elem? layouts i ≡ some (layout_of first h)
    → get_elem? layouts j ≡ some (layout_of second k)
    → batch_dual first h ≡ batch_dual second k
    → stored_signature h ≡ stored_signature k
    → (admits (handle_register_tensors g first h layouts) ≡ true)
      ↔ (admits (handle_register_tensors g' second k layouts) ≡ true)
handle_register_tensors-Agree layouts first second h k i j g g' at_i at_j dual stored = (
  one-way layouts first second h k j g g' at_j dual stored,
  one-way layouts second first k h i g' g at_i (sym dual) (sym stored),
)
