-- ===== src/TensorBus/Pairs/Canonical.antt =====
-- All the ranks of a pair complete it alike in agent.py, whichever side each calls its own.
use etha.Prelude.{
  pair_eq, ℕ, ◌≡◌, refl, sym, ap, fun_ext, ◌∙◌, ◌≢◌, inl, inr, Bool, true, false, ◌&&◌, not, Option,
  none, some, List, ◌++◌, arith, ltb, ◌==◌, nat_eq, list_eq, Bool-cases,
}
use etha.Prelude.Dict.{Dict}
use etha.Prelude.Sorting.{contains-append, sorted_set, contains, sorted_set_ext, nat_order}
use etha.Comm.Ir.{M2MMap, Route}
use etha.Comm.Routes.{RankMap, dict_to_routes}
use etha.Comm.Routes.Canonical.{SameMap, dict_to_routes-SameMap}
use etha.Comm.Groups.{Groups, get_or_create_process_group}
use etha.TensorBus.Pairs.OwnGroups.{blank, view-halves}
use etha.TensorBus.Pairs.{
  PairSide, PlacedMesh, PairError, Completion, raised, completed, is_consistent, Halves, halves,
  pair_state, given, finish, complete_ordered, complete_pair,
}

-- What the ranks agree on: the error, or the state's fields by role and the groups of the process.
pub record Common : Type 0 where
  pub pair_size : ℕ
  pub pair_group : ℕ
  pub dual_endpoint : Bool
  pub role_ranks : Dict ℕ (List ℕ)
  pub role_groups : Dict ℕ ℕ
  pub role_mesh_shapes : Dict ℕ (List ℕ)
  pub m2m_by_source_role : Dict ℕ (Option M2MMap)

pub data View : Type 0 where
  failed : PairError → View
  agreed : Common → Groups → View

abbrev pub view : Completion → View
view (raised e) = failed e
view (completed p s) =
    agreed
      (record {
        pair_size = p.pair_size;
        pair_group = p.pair_group;
        dual_endpoint = p.dual_endpoint;
        role_ranks = p.role_ranks;
        role_groups = p.role_groups;
        role_mesh_shapes = p.role_mesh_shapes;
        m2m_by_source_role = p.m2m_by_source_role;
      })
      s

-- What the ranks agree on does not need the groups that a rank keeps, nor which side is local.
view-finish :
    (a b c d first second : PairSide) (pair_group : ℕ) (dual : Bool) (o : Option (Halves × Groups))
    → view (finish a b first second pair_group dual o)
      ≡ view (finish c d first second pair_group dual (blank o))
unfolding pair_state
view-finish a b c d first second pair_group dual none = refl
view-finish a b c d first second pair_group dual (some (h, s)) = refl

contains_append_comm : (xs ys : List ℕ) (a : ℕ) → contains (xs ++ ys) a ≡ contains (ys ++ xs) a
contains_append_comm xs ys a = ground (arith, contains-append xs ys a, contains-append ys xs a)

same_group :
    (xs ys : List ℕ) (s : Groups)
    → get_or_create_process_group (xs ++ ys) s ≡ get_or_create_process_group (ys ++ xs) s
unfolding get_or_create_process_group
same_group xs ys s = rw (sorted_set_ext (xs ++ ys) (ys ++ xs) (contains_append_comm xs ys)) refl

module _ (get_m2m_map : PlacedMesh → PlacedMesh → M2MMap) (r r' : ℕ) where
  view-complete_ordered :
      (a b c d first second : PairSide) (s : Groups)
      → (is_consistent a.mesh_info && is_consistent b.mesh_info)
        ≡ (is_consistent c.mesh_info && is_consistent d.mesh_info)
      → (given a && given b) ≡ (given c && given d)
      → get_or_create_process_group (a.ranks ++ b.ranks) s
        ≡ get_or_create_process_group (c.ranks ++ d.ranks) s
      → view (complete_ordered get_m2m_map r a b first second s)
        ≡ view (complete_ordered get_m2m_map r' c d first second s)
  unfolding complete_ordered
  view-complete_ordered a b c d first second s valid both group =
      let (pair_group, s1) = get_or_create_process_group (c.ranks ++ d.ranks) s in
      let dual : Bool = sorted_set first.ranks == sorted_set second.ranks in
      let last =
        view-finish a b c d first second pair_group dual (halves get_m2m_map r first second s1)
        ∙ ap (λ (o : Option (Halves × Groups)). view (finish c d first second pair_group dual o))
            (view-halves r r' get_m2m_map first second s1)
        ∙ sym (
            view-finish c d c d first second pair_group dual
              (halves get_m2m_map r' first second s1)) in
      elim (Bool-cases (is_consistent c.mesh_info && is_consistent d.mesh_info)) [
        | inr wrong ↦ rw (complete_ordered, valid, wrong) refl
        | inl right ↦ elim (Bool-cases (dual && not (given c && given d))) [
          | inl bare ↦ rw (complete_ordered, valid, right, both, bare) refl
          | inr fine ↦ rw (complete_ordered, valid, right, both, fine, group) last
        ]
      ]

  view-same_map :
      (got : ℕ × ℕ) (a b : PairSide) (s : Groups)
      → a.name ≢ b.name
      → view (complete_pair get_m2m_map r got a b s) ≡ view (complete_pair get_m2m_map r' got b a s)
  unfolding complete_pair
  view-same_map got a b s ne =
      let valid : (is_consistent a.mesh_info && is_consistent b.mesh_info)
          ≡ (is_consistent b.mesh_info && is_consistent a.mesh_info) =
        ground arith in
      let both : (given a && given b) ≡ (given b && given a) = ground arith in
      let group = same_group a.ranks b.ranks s in
      elim (Bool-cases (ltb a.name b.name)) [
        | inl below ↦
            let above : ltb b.name a.name ≡ false = ground (arith, below) in
            elim (Bool-cases (got == (a.name, b.name))) [
              | inl same ↦
                  rw (complete_pair, below, above, same)
                    (view-complete_ordered a b b a a b s valid both group)
              | inr other ↦ rw (complete_pair, below, above, other) refl
            ]
        | inr not_below ↦
            let below : ltb b.name a.name ≡ true = ground (arith, not_below, ne) in
            elim (Bool-cases (got == (b.name, a.name))) [
              | inl same ↦
                  rw (complete_pair, not_below, below, same)
                    (view-complete_ordered a b b a b a s valid both group)
              | inr other ↦ rw (complete_pair, not_below, below, other) refl
            ]
      ]

-- Two ranks that complete a pair of two names, each from its own side, with the same cache of groups
-- and the same answer of the store, and that have merged equal cells, destinations in order, for any
-- two meshes into the maps that get_m2m_map makes its routes of: they fail alike, or agree on the
-- groups that are made, in order, and on what the state says by role, but for the groups of Partial
-- placements, of which each rank keeps its own.
pub view-complete_pair :
    (make : PlacedMesh → PlacedMesh → List Route → M2MMap)
    (cells cells' : PlacedMesh → PlacedMesh → RankMap) (r r' : ℕ) (got : ℕ × ℕ) (a b : PairSide)
    (s : Groups)
    → ((x y : PlacedMesh) → SameMap (cells x y) (cells' x y))
    → a.name ≢ b.name
    → view (complete_pair (λ x y. make x y (dict_to_routes (cells x y))) r got a b s)
      ≡ view (complete_pair (λ x y. make x y (dict_to_routes (cells' x y))) r' got b a s)
view-complete_pair make cells cells' r r' got a b s same ne =
    let maps : PlacedMesh → PlacedMesh → M2MMap = λ x y. make x y (dict_to_routes (cells x y)) in
    let maps' : PlacedMesh → PlacedMesh → M2MMap = λ x y. make x y (dict_to_routes (cells' x y)) in
    let equal : maps ≡ maps' = fun_ext (λ x.
      fun_ext (λ y. ap (make x y) (dict_to_routes-SameMap (cells x y) (cells' x y) (same x y)))) in
    view-same_map maps r r' got a b s ne
    ∙ ap (λ (f : PlacedMesh → PlacedMesh → M2MMap). view (complete_pair f r' got b a s)) equal
