-- ===== src/KvStore/Names.antt =====
-- The prefixes of src/etha/kvstore/base.py keep the keys of components and namespaces apart.

use etha.Prelude.{
  pair_eq, nat_beq_iff, ◌≡◌, refl, ap, ◌∙◌, ◌≢◌, Option, none, some, [], ◌∷◌, ◌++◌, arith, nat_eq,
  list_eq, All,
}
use etha.KvStore.{
  Text, KvNames, component_of, slash, prefixed, after_slash, third_part, strip_prefix,
}

-- A name without a slash.
abbrev pub IsPlain : Text → Type 0
IsPlain = All (λ c. c ≢ slash)

after_slash-append :
    (name rest : Text) → IsPlain name → after_slash (name ++ slash ∷ rest) ≡ some rest
unfolding after_slash
after_slash-append [] rest h = refl
after_slash-append (c ∷ name) rest h =
    ground (arith, nat_beq_iff c slash, h.0, after_slash-append name rest h.1)

-- Two texts that go on with a slash after a plain name have the same name and the same rest.
plain_cancel :
    (a b xs ys : Text)
    → IsPlain a
    → IsPlain b
    → a ++ slash ∷ xs ≡ b ++ slash ∷ ys
    → (a ≡ b) × (xs ≡ ys)
plain_cancel [] [] xs ys p q e = (refl, cc)
plain_cancel [] (c ∷ b) xs ys p q e = absurd (q.0 (cc))
plain_cancel (c ∷ a) [] xs ys p q e = absurd (p.0 (cc))
plain_cancel (c ∷ a) (d ∷ b) xs ys p q e = ground (arith, plain_cancel a b xs ys p.1 q.1)

-- The prefix is undone when neither the namespace nor the component has a slash.
pub strip_prefix-prefixed :
    (n : KvNames) (key : Text) (component : Option Text)
    → IsPlain n.namespace
    → IsPlain (component_of n component)
    → strip_prefix (prefixed n key component) ≡ key
unfolding strip_prefix prefixed third_part
strip_prefix-prefixed n key component p q =
    let rest : Text = component_of n component ++ slash ∷ key in
    ap (third_part (prefixed n key component)) (after_slash-append n.namespace rest p)
    ∙ ap (λ (o : Option Text). elim o [ none ↦ prefixed n key component | some part ↦ part ])
        (after_slash-append (component_of n component) key q)

-- Two keys of plain names are the same in the store only if they agree in every part.
pub prefixed_inj :
    (n m : KvNames) (key other : Text) (c d : Option Text)
    → IsPlain n.namespace
    → IsPlain m.namespace
    → IsPlain (component_of n c)
    → IsPlain (component_of m d)
    → prefixed n key c ≡ prefixed m other d
    → (n.namespace ≡ m.namespace) × (component_of n c ≡ component_of m d) × (key ≡ other)
unfolding prefixed
prefixed_inj n m key other c d p p' q q' e =
    let (spaces, rest) =
      plain_cancel n.namespace m.namespace (component_of n c ++ slash ∷ key)
        (component_of m d ++ slash ∷ other) p p' e in
    let (components, keys) =
      plain_cancel (component_of n c) (component_of m d) key other q q' rest in
    (spaces, components, keys)
