-- ===== src/TensorBus/Generate/Shares.antt =====
-- What the pairs of a dual batch add to a direction in agent.py.

use etha.Prelude.{
  pair_beq_iff, pair_eq, ℕ, ◌≡◌, refl, sym, ap, ◌∙◌, inl, inr, Bool, true, false, Option, none,
  some, List, [], ◌∷◌, ◌++◌, arith, ◌==◌, nat_eq, list_eq, if◌then◌else◌, Bool-cases,
}
use etha.Prelude.Dict.{lookup, insert, lookup-insert}
use etha.Prelude.Sorting.{sorted_set, nat_order}
use etha.Comm.Ir.{M2MMap, Chunk}
use etha.TensorBus.Rounds.{Direction}
use etha.TensorBus.Generate.{
  Result, ok, raised, GenerateError, value_error, key_error, or_raise, ◌>>=◌, DualPair, DualBatch,
  pair_chunks, ByDirection, so_far, extend_direction, direction_step, keys_of, first_other, flatten,
  role_loop, pair_loop,
}

pub >>=-ok {ℓ κ} :
    {A : Type ℓ} {B : Type κ} (o : Result A) (f : A → Result B) (b : B)
    → (o >>= f) ≡ ok b
    → (a : A) × (o ≡ ok a) × (f a ≡ ok b)
>>=-ok (raised e) f b h = cc
>>=-ok (ok a) f b h = (a, refl, h)

-- The chunks that a role of a pair adds in a direction, `none` if it has no map, nothing if the
-- direction is another.
abbrev pub chunks_or_none : Result (List Chunk) → List Chunk
chunks_or_none (raised e) = []
chunks_or_none (ok cs) = cs

abbrev pub role_share : DualBatch → ℕ → DualPair → ℕ → ℕ → Option M2MMap → Option (List Chunk)
role_share b name pair src dst none = none
role_share b name pair src dst (some m) = some (chunks_or_none (pair_chunks b name pair src dst m))

-- Adding a share to what a direction has.
abbrev pub join : Option (Option (List Chunk)) → Option (List Chunk) → Option (Option (List Chunk))
join o none = some none
join none (some cs) = some (some cs)
join (some none) (some cs) = some none
join (some (some before)) (some cs) = some (some (before ++ cs))

lookup-extended :
    (key d : Direction) (o : Option (Option (List Chunk))) (r : Result (List Chunk))
    (acc next : ByDirection)
    → (elim (so_far o) [
      | none ↦ ok (insert key none acc)
      | some before ↦ extend_direction key before acc r
    ])
      ≡ ok next
    → lookup d next ≡ (if d == key then join o (some (chunks_or_none r)) else lookup d acc)
lookup-extended key d none (raised e) acc next h = cc
lookup-extended key d none (ok cs) acc next h =
    let is : insert key (some cs) acc ≡ next = ground (arith, h) in
    rw (← is, lookup-insert key d (some cs) acc) refl
lookup-extended key d (some none) r acc next h =
    let is : insert key none acc ≡ next = ground (arith, h) in
    rw (← is, lookup-insert key d none acc) refl
lookup-extended key d (some (some before)) (raised e) acc next h = cc
lookup-extended key d (some (some before)) (ok cs) acc next h =
    let is : insert key (some (before ++ cs)) acc ≡ next = ground (arith, h) in
    rw (← is, lookup-insert key d (some (before ++ cs)) acc) refl

lookup-direction_step :
    (b : DualBatch) (name : ℕ) (pair : DualPair) (src dst : ℕ) (m : Option M2MMap)
    (acc next : ByDirection) (d : Direction)
    → direction_step b name pair src dst m acc ≡ ok next
    → lookup d next ≡ (
        if d == (src, dst)
        then join (lookup (src, dst) acc) (role_share b name pair src dst m)
        else lookup d acc)
unfolding direction_step
lookup-direction_step b name pair src dst none acc next d h =
    let is : insert (src, dst) none acc ≡ next = ground (arith, h) in
    rw (← is, lookup-insert (src, dst) d none acc) refl
lookup-direction_step b name pair src dst (some m) acc next d h =
    lookup-extended (src, dst) d (lookup (src, dst) acc) (pair_chunks b name pair src dst m) acc
      next h

or_raise-ok :
    {A : Type 0} (e : GenerateError) (o : Option A) (a : A) → or_raise e o ≡ ok a → o ≡ some a
or_raise-ok e none a h = cc
or_raise-ok e (some c) a h = ground (arith, h)

module _ (b : DualBatch) (d : Direction) where
  -- What the roles of a pair add in the direction, in their order.
  abbrev pub role_shares : ℕ → DualPair → List ℕ → List (Option (List Chunk))
  role_shares name pair [] = []
  role_shares name pair (src ∷ roles) = elim (first_other src (keys_of pair.m2m_by_source_role)) [
    | none ↦ role_shares name pair roles
    | some dst ↦
        if d == (src, dst)
        then role_share b name pair src dst (flatten (lookup src pair.m2m_by_source_role))
          ∷ role_shares name pair roles
        else role_shares name pair roles
  ]

  abbrev pub pair_shares : List ℕ → List (Option (List Chunk))
  pair_shares [] = []
  pair_shares (name ∷ names) = elim (b.pairs name) [
    | none ↦ pair_shares names
    | some pair ↦
        role_shares name pair (sorted_set (keys_of pair.m2m_by_source_role)) ++ pair_shares names
  ]

  abbrev pub joins :
      Option (Option (List Chunk)) → List (Option (List Chunk)) → Option (Option (List Chunk))
  joins o [] = o
  joins o (x ∷ xs) = joins (join o x) xs

  joins-append :
      (xs ys : List (Option (List Chunk))) (o : Option (Option (List Chunk)))
      → joins o (xs ++ ys) ≡ joins (joins o xs) ys
  joins-append [] ys o = refl
  joins-append (x ∷ xs) ys o = joins-append xs ys (join o x)

  role_shares-own :
      (name : ℕ) (pair : DualPair) (src dst : ℕ) (roles : List ℕ)
      → first_other src (keys_of pair.m2m_by_source_role) ≡ some dst
      → (d == (src, dst)) ≡ true
      → role_shares name pair (src ∷ roles)
        ≡ role_share b name pair src dst (flatten (lookup src pair.m2m_by_source_role))
          ∷ role_shares name pair roles
  role_shares-own name pair src dst roles h own = rw (role_shares, h, own) refl

  role_shares-other :
      (name : ℕ) (pair : DualPair) (src dst : ℕ) (roles : List ℕ)
      → first_other src (keys_of pair.m2m_by_source_role) ≡ some dst
      → (d == (src, dst)) ≡ false
      → role_shares name pair (src ∷ roles) ≡ role_shares name pair roles
  role_shares-other name pair src dst roles h other = rw (role_shares, h, other) refl

  lookup-role_loop :
      (name : ℕ) (pair : DualPair) (roles : List ℕ) (acc next : ByDirection)
      → role_loop b name pair roles acc ≡ ok next
      → lookup d next ≡ joins (lookup d acc) (role_shares name pair roles)
  unfolding role_loop
  lookup-role_loop name pair [] acc next h = ground (arith, h)
  lookup-role_loop name pair (src ∷ roles) acc next h =
      let keys : List ℕ = keys_of pair.m2m_by_source_role in
      let m : Option M2MMap = flatten (lookup src pair.m2m_by_source_role) in
      let (dst, found, rest) =
        >>=-ok (or_raise value_error (first_other src keys))
          (λ dst. direction_step b name pair src dst m acc >>= role_loop b name pair roles) next
          h in
      let other : first_other src keys ≡ some dst =
        or_raise-ok value_error (first_other src keys) dst found in
      let (mid, step, last) =
        >>=-ok (direction_step b name pair src dst m acc) (role_loop b name pair roles) next rest in
      let now = lookup-direction_step b name pair src dst m acc mid d step in
      let later = lookup-role_loop name pair roles mid next last in
      elim (Bool-cases (d == (src, dst))) [
        | inl own ↦
            let same : d ≡ (src, dst) = (pair_beq_iff d (src, dst)).0 own in
            let share : Option (List Chunk) = role_share b name pair src dst m in
            let joined : lookup d mid ≡ join (lookup d acc) share =
              now
              ∙ ap (λ (c : Bool). if c then join (lookup (src, dst) acc) share else lookup d acc)
                  own
              ∙ ap (λ (k : Direction). join (lookup k acc) share) (sym same) in
            later
            ∙ ap (λ (o : Option (Option (List Chunk))). joins o (role_shares name pair roles))
                joined
            ∙ ap (joins (lookup d acc)) (sym (role_shares-own name pair src dst roles other own))
        | inr not_own ↦
            let share : Option (List Chunk) = role_share b name pair src dst m in
            let kept : lookup d mid ≡ lookup d acc =
              now
              ∙ ap (λ (c : Bool). if c then join (lookup (src, dst) acc) share else lookup d acc)
                  not_own in
            later
            ∙ ap (λ (o : Option (Option (List Chunk))). joins o (role_shares name pair roles)) kept
            ∙ ap (joins (lookup d acc))
                (sym (role_shares-other name pair src dst roles other not_own))
      ]

  pair_shares-pair :
      (name : ℕ) (names : List ℕ) (pair : DualPair)
      → b.pairs name ≡ some pair
      → pair_shares (name ∷ names)
        ≡ role_shares name pair (sorted_set (keys_of pair.m2m_by_source_role)) ++ pair_shares names
  pair_shares-pair name names pair h = rw (pair_shares, h) refl

  pub lookup-pair_loop :
      (names : List ℕ) (acc next : ByDirection)
      → pair_loop b names acc ≡ ok next
      → lookup d next ≡ joins (lookup d acc) (pair_shares names)
  unfolding pair_loop
  lookup-pair_loop [] acc next h = ground (arith, h)
  lookup-pair_loop (name ∷ names) acc next h =
      let (pair, found, rest) =
        >>=-ok (or_raise key_error (b.pairs name))
          (λ pair.
            role_loop b name pair (sorted_set (keys_of pair.m2m_by_source_role)) acc
            >>= pair_loop b names)
          next h in
      let known : b.pairs name ≡ some pair = or_raise-ok key_error (b.pairs name) pair found in
      let roles : List ℕ = sorted_set (keys_of pair.m2m_by_source_role) in
      let (mid, own, last) =
        >>=-ok (role_loop b name pair roles acc) (pair_loop b names) next rest in
      lookup-pair_loop names mid next last
      ∙ ap (λ (o : Option (Option (List Chunk))). joins o (pair_shares names))
          (lookup-role_loop name pair roles acc mid own)
      ∙ sym (joins-append (role_shares name pair roles) (pair_shares names) (lookup d acc))
      ∙ ap (joins (lookup d acc)) (sym (pair_shares-pair name names pair known))
