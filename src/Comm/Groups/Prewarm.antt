-- ===== src/Comm/Groups/Prewarm.antt =====
-- One pass creates every broadcast group, in the same order on every rank.
use etha.Prelude.{
  or-true, pair_eq, list_beq_iff, ℕ, ◌≡◌, refl, sym, ap, ◌∙◌, inl, inr, Bool, true, false, Option,
  none, some, List, [], ◌∷◌, ◌++◌, arith, ◌==◌, nat_eq, list_eq, if◌then◌else◌, Bool-cases, length,
}
use etha.Prelude.Dict.{lookup, lookup-insert}
use etha.Prelude.Sorting.{
  contains-append, sorted_set, sorted_set_ext, contains, contains-sorted_set, nat_order, lex_order,
}
use etha.Comm.Ir.{M2MMap}
use etha.Comm.Groups.{
  Groups, cached_or_new, get_or_create_process_group, broadcast_group_ranks, create_all, all_groups,
  prewarm_broadcast_groups, chunk_groups,
}

abbrev is_known : Option ℕ → Bool
is_known none = false
is_known (some g) = true

abbrev is_cached : List ℕ → Groups → Bool
is_cached ranks s = is_known (lookup (sorted_set ranks) s.cache)

is_known-if :
    (b : Bool) (n : ℕ) (o : Option ℕ)
    → is_known o ≡ true
    → is_known (if b then some n else o) ≡ true
is_known-if true n o h = refl
is_known-if false n o h = h

cached_or_new-keeps :
    (o : Option ℕ) (key g : List ℕ) (s : Groups)
    → is_cached g s ≡ true
    → is_cached g (cached_or_new o key s).1 ≡ true
cached_or_new-keeps (some n) key g s h = h
cached_or_new-keeps none key g s h =
    rw (lookup-insert key (sorted_set g) (length s.calls) s.cache)
      (is_known-if (sorted_set g == key) (length s.calls) (lookup (sorted_set g) s.cache) h)

cached_or_new-makes :
    (o : Option ℕ) (g : List ℕ) (s : Groups)
    → lookup (sorted_set g) s.cache ≡ o
    → is_cached g (cached_or_new o (sorted_set g) s).1 ≡ true
cached_or_new-makes (some n) g s e = rw e refl
cached_or_new-makes none g s e =
    let itself : (sorted_set g == sorted_set g) ≡ true =
      (list_beq_iff (sorted_set g) (sorted_set g)).1 refl in
    rw (lookup-insert (sorted_set g) (sorted_set g) (length s.calls) s.cache, itself) refl

cached_or_new-cached :
    (o : Option ℕ) (key : List ℕ) (s : Groups) → is_known o ≡ true → (cached_or_new o key s).1 ≡ s
cached_or_new-cached none key s h = cc
cached_or_new-cached (some n) key s h = refl

create_all-keeps :
    (gs : List (List ℕ)) (g : List ℕ) (s : Groups)
    → is_cached g s ≡ true
    → is_cached g (create_all gs s) ≡ true
unfolding create_all get_or_create_process_group
create_all-keeps [] g s h = h
create_all-keeps (x ∷ xs) g s h =
    create_all-keeps xs g (get_or_create_process_group x s).1
      (cached_or_new-keeps (lookup (sorted_set x) s.cache) (sorted_set x) g s h)

create_all-caches :
    (gs : List (List ℕ)) (g : List ℕ) (s : Groups)
    → contains gs g ≡ true
    → is_cached g (create_all gs s) ≡ true
unfolding create_all get_or_create_process_group
create_all-caches [] g s h = cc
create_all-caches (x ∷ xs) g s h = elim (Bool-cases (g == x)) [
  | inl same ↦ rw ((list_beq_iff g x).0 same) (
      create_all-keeps xs x (get_or_create_process_group x s).1
        (cached_or_new-makes (lookup (sorted_set x) s.cache) x s refl))
  | inr other ↦ create_all-caches xs g (get_or_create_process_group x s).1 (rw other at h)
]

create_all-cached :
    (gs : List (List ℕ)) (s : Groups)
    → ((g : List ℕ) → contains gs g ≡ true → is_cached g s ≡ true)
    → create_all gs s ≡ s
unfolding create_all get_or_create_process_group
create_all-cached [] s h = refl
create_all-cached (x ∷ xs) s h =
    let itself : (x == x) ≡ true = (list_beq_iff x x).1 refl in
    let same : (get_or_create_process_group x s).1 ≡ s =
      cached_or_new-cached (lookup (sorted_set x) s.cache) (sorted_set x) s
        (h x (rw itself refl)) in
    ap (create_all xs) same ∙ create_all-cached xs s (λ g e. h g (rw e (or-true (g == x))))

contains-all_groups :
    (before after : List (Option M2MMap)) (m : M2MMap) (g : List ℕ)
    → contains (broadcast_group_ranks m.routes) g ≡ true
    → contains (all_groups (before ++ some m ∷ after)) g ≡ true
unfolding all_groups
contains-all_groups [] after m g h =
    rw (contains-append (broadcast_group_ranks m.routes) (all_groups after) g, h) refl
contains-all_groups (none ∷ before) after m g h = contains-all_groups before after m g h
contains-all_groups (some n ∷ before) after m g h =
    let rest : contains (all_groups (before ++ some m ∷ after)) g ≡ true =
      contains-all_groups before after m g h in
    rw
      (
        contains-append (broadcast_group_ranks n.routes) (all_groups (before ++ some m ∷ after)) g,
        rest,
      )
      (ground arith)

-- Two ranks that have the same cache of groups and have made the same calls so far, and whose maps
-- need the same broadcast groups, whatever the order of the maps and however often a group is needed,
-- make the same calls of `new_group` in the same order and end with the same cache.
pub prewarm_broadcast_groups_same :
    (maps others : List (Option M2MMap)) (s : Groups)
    → ((g : List ℕ) → contains (all_groups maps) g ≡ contains (all_groups others) g)
    → prewarm_broadcast_groups maps s ≡ prewarm_broadcast_groups others s
unfolding prewarm_broadcast_groups
prewarm_broadcast_groups_same maps others s h =
    ap (λ (gs : List (List ℕ)). create_all gs s)
      (sorted_set_ext (all_groups maps) (all_groups others) h)

-- After the pass over some maps, the groups of each of them are in the cache: making the chunks of
-- the map, at once or after other maps' chunks, calls `new_group` no more.
pub chunk_groups-prewarm_broadcast_groups :
    (before after : List (Option M2MMap)) (m : M2MMap) (more : List (List ℕ)) (s : Groups)
    → let warm = create_all more (prewarm_broadcast_groups (before ++ some m ∷ after) s) in
      chunk_groups m warm ≡ warm
unfolding chunk_groups prewarm_broadcast_groups
chunk_groups-prewarm_broadcast_groups before after m more s =
    let maps : List (Option M2MMap) = before ++ some m ∷ after in
    let ours : List (List ℕ) = broadcast_group_ranks m.routes in
    create_all-cached (sorted_set ours)
      (create_all more (create_all (sorted_set (all_groups maps)) s))
      λ g e. create_all-keeps more g (create_all (sorted_set (all_groups maps)) s) (
        create_all-caches (sorted_set (all_groups maps)) g s (
          contains-sorted_set (all_groups maps) g
          ∙ contains-all_groups before after m g (sym (contains-sorted_set ours g) ∙ e)))
