-- ===== src/TensorBus/Admission/Sound.antt =====
-- What a registration of tensors that agent.py goes on with has been checked for.
use etha.Prelude.{
  pair_eq, ℕ, ◌≡◌, sym, ap, ◌∙◌, inl, inr, Bool, true, false, ◌&&◌, ◌||◌, not, Option, none, some,
  List, [], ◌∷◌, map, nat_eq, list_eq, Bool-cases, Option-cases, get_elem?, All,
}
use etha.TensorBus.Layouts.{
  RegisterTensors, Host, Layout, Row, Signature, PairSides, any_of, all_of, is_given, members_ok,
  membership_of, is_dual, has_role, mix_ok, role_ok, check_layouts, layout_of, batch_dual,
  pair_names, count, role_registered, invalid_registration, wrong_members,
}
use etha.TensorBus.Admission.{stored_signature, handle_register_tensors}
use etha.TensorBus.Admission.Agree.{
  admits, and-parts, passed, not-false, check_layouts-ok, check_layouts-dual, check_layouts-split,
  handle-checked,
}

all_of-All :
    {A : Type 0} (p : A → Bool) (xs : List A) → all_of p xs ≡ true → All (λ x. p x ≡ true) xs
all_of-All p [] h = tt
all_of-All p (x ∷ xs) h = let (a, b) = and-parts (p x) (all_of p xs) h in (a, all_of-All p xs b)

not_any-All :
    {A : Type 0} (p : A → Bool) (xs : List A) → any_of p xs ≡ false → All (λ x. p x ≡ false) xs
not_any-All p [] h = tt
not_any-All p (x ∷ xs) h = elim (Bool-cases (p x)) [
  | inl yes_is ↦ let never : true ≡ false = ap (λ c. c || any_of p xs) (sym yes_is) ∙ h in cc
  | inr is ↦ (is, not_any-All p xs (ap (λ c. c || any_of p xs) (sym is) ∙ h))
]

all_given-known :
    (pairs : ℕ → Option PairSides) (ns : List ℕ) (f : ℕ → ℕ)
    → all_of (λ (r : Row). is_given r.1.1) (map (λ n. (n, (f n, membership_of (pairs n)))) ns)
      ≡ true
    → All (λ n. (p : PairSides) × (pairs n ≡ some p)) ns
all_given-known pairs [] f h = tt
all_given-known pairs (n ∷ ns) f h =
    let (given, rest) =
      and-parts (is_given (membership_of (pairs n)))
        (all_of (λ (r : Row). is_given r.1.1) (map (λ n. (n, (f n, membership_of (pairs n)))) ns))
        h in
    elim (Option-cases (pairs n)) [
      | inl missing ↦
          let never : false ≡ true =
            ap (λ (o : Option PairSides). is_given (membership_of o)) (sym missing) ∙ given in
          cc
      | inr found ↦ (found, all_given-known pairs ns f rest)
    ]

check_layouts-members :
    (dual : Bool) (stored : Option Signature) (layouts : List Layout) (own : Layout)
    → check_layouts dual stored layouts own ≡ none
    → members_ok own.signature ≡ true
unfolding check_layouts
check_layouts-members dual stored layouts own h =
    let (no_dup, h1) = passed (any_of (λ (k : Layout). k.role_dup) layouts) role_registered _ h in
    let (all_ok, h2) =
      passed (any_of (λ (k : Layout). not k.local_ok) layouts) invalid_registration _ h1 in
    let (members, h3) = passed (not (members_ok own.signature)) wrong_members _ h2 in
    not-false (members_ok own.signature) members

signature-same :
    (dual : Bool) (stored : Option Signature) (layouts : List Layout) (own : Layout)
    → check_layouts dual stored layouts own ≡ none
    → (j : ℕ) (l : Layout) → get_elem? layouts j ≡ some l
    → l.signature ≡ own.signature
signature-same true stored layouts own h j l g = check_layouts-dual stored layouts own j l h g
signature-same false stored layouts own h j l g =
    ap (λ (k : Layout). k.signature) (check_layouts-split stored layouts own j l h g)

mix-same :
    (msg : RegisterTensors) (h : Host)
    → mix_ok msg h ≡ true
    → All (λ n. is_dual (h.pairs n) ≡ batch_dual msg h) (pair_names msg)
unfolding batch_dual
mix-same msg h ok = elim (Bool-cases (batch_dual msg h)) [
  | inl dual ↦
      rw (batch_dual, dual)
        (all_of-All (λ n. is_dual (h.pairs n)) (pair_names msg)
          (ap (λ c. not c || all_of (λ n. is_dual (h.pairs n)) (pair_names msg)) (sym dual) ∙ ok))
  | inr single ↦
      rw (batch_dual, single) (not_any-All (λ n. is_dual (h.pairs n)) (pair_names msg) single)
]

role-known :
    (msg : RegisterTensors) (h : Host) (r : ℕ)
    → role_ok msg h ≡ true
    → msg.role ≡ some r
    → All (λ n. has_role r (h.pairs n) ≡ true) (pair_names msg)
role-known msg h r ok given =
    let known : (batch_dual msg h && all_of (λ n. has_role r (h.pairs n)) (pair_names msg)) ≡ true =
      ap
        (λ (o : Option ℕ). elim o [
          | none ↦ not (batch_dual msg h)
          | some role ↦ batch_dual msg h && all_of (λ n. has_role role (h.pairs n)) (pair_names msg)
        ])
        (sym given)
      ∙ ok in
    let (dual, all) =
      and-parts (batch_dual msg h) (all_of (λ n. has_role r (h.pairs n)) (pair_names msg)) known in
    all_of-All (λ n. has_role r (h.pairs n)) (pair_names msg) all

-- If a rank whose own layout is gathered at its place goes on with a registration, every gathered
-- layout has its batch id, bucket size, pairs, numbers of tensors and sides; the rank knows all the
-- pairs, which are all dual or all split, and a role that is named is one of each.
pub handle_register_tensors-Sound :
    (layouts : List Layout) (msg : RegisterTensors) (h : Host) (i : ℕ) (g : Bool)
    → get_elem? layouts i ≡ some (layout_of msg h)
    → admits (handle_register_tensors g msg h layouts) ≡ true
    → ((j : ℕ) (l : Layout)
        → get_elem? layouts j ≡ some l
        → l.signature ≡ (layout_of msg h).signature)
      × (All (λ n. (p : PairSides) × (h.pairs n ≡ some p)) (pair_names msg)
          × (All (λ n. is_dual (h.pairs n) ≡ batch_dual msg h) (pair_names msg)
              × ((r : ℕ)
                  → msg.role ≡ some r
                  → All (λ n. has_role r (h.pairs n) ≡ true) (pair_names msg))))
unfolding layout_of
handle_register_tensors-Sound layouts msg h i g at_i ok =
    let checked = handle-checked g msg h layouts ok in
    let local =
      check_layouts-ok (stored_signature h) layouts (batch_dual msg h) (layout_of msg h)
        (layout_of msg h) i checked at_i in
    let (mixed, roles) = and-parts (mix_ok msg h) (role_ok msg h) local in
    let members =
      check_layouts-members (batch_dual msg h) (stored_signature h) layouts (layout_of msg h)
        checked in
    let (given, rest) =
      and-parts (all_of (λ (r : Row). is_given r.1.1) (layout_of msg h).signature.1.0) _ members in
    (
      signature-same (batch_dual msg h) (stored_signature h) layouts (layout_of msg h) checked,
      (
        all_given-known h.pairs (pair_names msg) (λ n. count n msg.tensors) given,
        (mix-same msg h mixed, λ r e. role-known msg h r roles e),
      ),
    )
