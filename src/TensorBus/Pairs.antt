-- ===== src/TensorBus/Pairs.antt =====
-- `_complete_pair` in src/etha/tensor_bus/agent.py: the groups and the state of a matched pair.
pub mod OwnGroups
pub mod Canonical
mod Examples
use etha.Prelude.{
  pair_eq, List-cases, select, select-append, nat_beq, nat_beq_iff, list_beq, list_beq_iff, ℕ, zero,
  suc, ◌+◌, ◌-◌, ◌*◌, ◌/◌, ◌%◌, ◌^◌, ◌≤◌, ◌<◌, min, max, ◌≡◌, refl, sym, ap, ap₂, subst, fun_ext,
  ◌∙◌, ◌≢◌, ◌↔◌, ◌⊎◌, inl, inr, Bool, true, false, ◌&&◌, ◌||◌, not, Option, none, some, List, [],
  ◌∷◌, ◌++◌, map, arith, ltb, leb, ◌==◌, Eq, nat_eq, list_eq, if◌then◌else◌, Bool-cases,
  Option-cases, length, get_elem?, take, drop, length-append, length-drop, All, All-append, sum,
  sum-append,
}
use etha.Prelude.Dict.{Dict, insert}
use etha.Prelude.Sorting.{sorted_set, nat_order}
use etha.Comm.Slices.{Mesh, enumerate_partial_subgroup_ranks, linear_index}
use etha.Comm.Ir.{M2MMap, PartialGroup, prod}
use etha.Comm.Layout.{Placement, shard, replicate, partial}
use etha.Comm.Groups.{Groups, get_or_create_process_group}
use etha.TensorBus.Rounds.{elem}

-- One side of a pair: its peer name, its ranks, and the mesh shape and placements of each rank that
-- wrote them.
pub record PairSide : Type 0 where
  pub name : ℕ
  pub ranks : List ℕ
  pub mesh_info : List (List ℕ × List Placement)

-- A mesh with the placements on it.
pub record PlacedMesh : Type 0 where
  pub mesh : Mesh
  pub placements : List Placement

pub data PairError : Type 0 where
  invalid_registration assertion_error value_error : PairError

-- The fields of `PairState`. Groups are known by number; `none` stands for no map and for no mesh.
pub record PairState : Type 0 where
  pub local_name : ℕ
  pub local_ranks : List ℕ
  pub remote_name : ℕ
  pub remote_ranks : List ℕ
  pub pair_size : ℕ
  pub local_group : ℕ
  pub pair_group : ℕ
  pub local_is_first : Bool
  pub m2m_send : Option M2MMap
  pub m2m_recv : Option M2MMap
  pub source_partial_groups : Option (List PartialGroup)
  pub dual_endpoint : Bool
  pub role_ranks : Dict ℕ (List ℕ)
  pub role_groups : Dict ℕ ℕ
  pub role_mesh_shapes : Dict ℕ (List ℕ)
  pub m2m_by_source_role : Dict ℕ (Option M2MMap)
  pub partial_by_source_role : Dict ℕ (Option (List PartialGroup))

-- What completing a pair leaves: an error, or the pair's state and the groups of the process.
pub data Completion : Type 0 where
  raised : PairError → Completion
  completed : PairState → Groups → Completion

-- The inner loop of `_create_partial_groups`.
unfoldable pub subgroup_loop :
    ℕ → List ℕ → ℕ → ℕ → List (List ℕ) → Groups → List PartialGroup × Groups
unfolding get_or_create_process_group sorted_set
subgroup_loop this_rank full_ranks full_group reduce_op [] s = ([], s)
subgroup_loop this_rank full_ranks full_group reduce_op (ranks ∷ subs) s =
    let (group, made) =
      if sorted_set ranks == sorted_set full_ranks
      then (full_group, s)
      else get_or_create_process_group ranks s in
    let (mine, last) = subgroup_loop this_rank full_ranks full_group reduce_op subs made in
    (if elem this_rank ranks then (group, reduce_op) ∷ mine else mine, last)

-- `_create_partial_groups`; `none` is the `ValueError` of a dimension that the mesh lacks.
unfoldable pub create_partial_groups :
    Mesh → List (ℕ × ℕ) → ℕ → List ℕ → ℕ → Groups → Option (List PartialGroup × Groups)
unfolding subgroup_loop enumerate_partial_subgroup_ranks
create_partial_groups mesh [] this_rank full_ranks full_group s = some ([], s)
create_partial_groups mesh ((dim, reduce_op) ∷ reductions) this_rank full_ranks full_group s =
    elim (enumerate_partial_subgroup_ranks mesh dim) [
      | none ↦ none
      | some subs ↦
          let (mine, made) = subgroup_loop this_rank full_ranks full_group reduce_op subs s in
          let rest = create_partial_groups mesh reductions this_rank full_ranks full_group made in
          elim rest [ none ↦ none | some (others, last) ↦ some (mine ++ others, last) ]
    ]

abbrev pub same_list {ℓ} : {A : Type ℓ} → (A → A → Bool) → List A → List A → Bool
same_list eq [] [] = true
same_list eq (a ∷ xs) (b ∷ ys) = eq a b && same_list eq xs ys
same_list eq _ _ = false

abbrev pub same_placement : Placement → Placement → Bool
same_placement (shard n) (shard m) = n == m
same_placement replicate replicate = true
same_placement (partial n) (partial m) = n == m
same_placement _ _ = false

abbrev pub same_info : List ℕ × List Placement → List ℕ × List Placement → Bool
same_info (s, p) (t, q) = s == t && same_list same_placement p q

abbrev pub all_same : List ℕ × List Placement → List (List ℕ × List Placement) → Bool
all_same first [] = true
all_same first (i ∷ is) = same_info i first && all_same first is

-- `_validate_mesh_placement_consistency`, for a side that has any information.
unfoldable pub is_consistent : List (List ℕ × List Placement) → Bool
is_consistent [] = true
is_consistent (i ∷ []) = true
is_consistent (i ∷ is) = all_same i (i ∷ is)

abbrev pub first_of : List ℕ → ℕ
first_of [] = 0
first_of (r ∷ rs) = r

abbrev pub linear_of : Option (ℕ × ℕ) → ℕ
linear_of none = 0
linear_of (some (linear, multiplier)) = linear

-- `torch.arange(ranks[0], ranks[0] + prod(shape)).view(shape)`: a side that is ready has a rank, and
-- a coordinate has one index for each dimension.
unfoldable pub mesh_of : List ℕ → List ℕ → Mesh
unfolding linear_index
mesh_of ranks shape = record {
  shape = shape;
  at = λ idx. first_of ranks + linear_of (linear_index idx shape);
}

abbrev pub is_partial : Placement → Bool
is_partial (partial op) = true
is_partial _ = false

abbrev pub has_partial : List Placement → Bool
has_partial [] = false
has_partial (p ∷ ps) = is_partial p || has_partial ps

abbrev pub reductions_of : Option M2MMap → List (ℕ × ℕ)
reductions_of none = []
reductions_of (some m) = m.source_partial_reductions

-- What is made for the first and the second side, in the order of the names.
pub record Halves : Type 0 where
  pub first_group : ℕ
  pub second_group : ℕ
  pub first_to_second : Option M2MMap
  pub second_to_first : Option M2MMap
  pub first_shape : List ℕ
  pub second_shape : List ℕ
  pub first_partial_groups : Option (List PartialGroup)
  pub second_partial_groups : Option (List PartialGroup)

-- No mesh information of a side: only the groups of the sides are made.
unfoldable pub bare_halves : PairSide → PairSide → Groups → Halves × Groups
unfolding get_or_create_process_group
bare_halves first second s =
    let (first_group, s1) = get_or_create_process_group first.ranks s in
    let (second_group, s2) = get_or_create_process_group second.ranks s1 in
    (
      record {
        first_group = first_group;
        second_group = second_group;
        first_to_second = none;
        second_to_first = none;
        first_shape = [];
        second_shape = [];
        first_partial_groups = none;
        second_partial_groups = none;
      },
      s2,
    )

-- A direction whose target has a Partial placement gets no map. The map is `get_m2m_map`'s.
unfoldable pub map_to : (PlacedMesh → PlacedMesh → M2MMap) → PlacedMesh → PlacedMesh → Option M2MMap
map_to get_m2m_map source target =
    if has_partial target.placements then none else some (get_m2m_map source target)

-- The Partial sub-groups of both directions, the first side's before the second's.
unfoldable pub both_partial_groups :
    ℕ
    → PairSide
    → PlacedMesh
    → ℕ
    → List (ℕ × ℕ)
    → PairSide
    → PlacedMesh
    → ℕ
    → List (ℕ × ℕ)
    → Groups
    → Option (List PartialGroup × (List PartialGroup × Groups))
unfolding create_partial_groups
both_partial_groups rank first fm fg fr second sm sg sr s =
    elim (create_partial_groups fm.mesh fr rank first.ranks fg s) [
      | none ↦ none
      | some (mine, s1) ↦ elim (create_partial_groups sm.mesh sr rank second.ranks sg s1) [
        | none ↦ none
        | some (mine', s2) ↦ some (mine, (mine', s2))
      ]
    ]

unfoldable pub meshed_halves :
    (PlacedMesh → PlacedMesh → M2MMap)
    → ℕ
    → PairSide
    → PlacedMesh
    → PairSide
    → PlacedMesh
    → Groups
    → Option (Halves × Groups)
unfolding map_to both_partial_groups get_or_create_process_group
meshed_halves get_m2m_map rank first fm second sm s =
    let forward = map_to get_m2m_map fm sm in
    let backward = map_to get_m2m_map sm fm in
    let (first_group, s1) = get_or_create_process_group first.ranks s in
    let (second_group, s2) = get_or_create_process_group second.ranks s1 in
    elim (both_partial_groups rank first fm first_group (reductions_of forward) second sm
      second_group (reductions_of backward) s2) [
        | none ↦ none
        | some (mine, (mine', s3)) ↦ some (
          record {
            first_group = first_group;
            second_group = second_group;
            first_to_second = forward;
            second_to_first = backward;
            first_shape = fm.mesh.shape;
            second_shape = sm.mesh.shape;
            first_partial_groups = some mine;
            second_partial_groups = some mine';
          },
          s3,
        )
      ]

unfoldable pub halves :
    (PlacedMesh → PlacedMesh → M2MMap) → ℕ → PairSide → PairSide → Groups → Option (Halves × Groups)
unfolding bare_halves meshed_halves mesh_of
halves get_m2m_map rank first second s = elim first.mesh_info [
  | [] ↦ some (bare_halves first second s)
  | (shape, placements) ∷ more ↦ elim second.mesh_info [
    | [] ↦ some (bare_halves first second s)
    | (shape', placements') ∷ more' ↦
        meshed_halves get_m2m_map rank first
          (record { mesh = mesh_of first.ranks shape; placements = placements }) second
          (record { mesh = mesh_of second.ranks shape'; placements = placements' }) s
  ]
]

-- `groups or None`
abbrev pub or_none : Option (List PartialGroup) → Option (List PartialGroup)
or_none none = none
or_none (some []) = none
or_none (some (g ∷ gs)) = some (g ∷ gs)

unfoldable pub pair_state :
    PairSide → PairSide → PairSide → PairSide → ℕ → Bool → Halves → PairState
pair_state loc rem first second pair_group dual h =
    let is_first = ltb loc.name rem.name in
    record {
      local_name = loc.name;
      local_ranks = loc.ranks;
      remote_name = rem.name;
      remote_ranks = rem.ranks;
      pair_size = length first.ranks + length second.ranks;
      local_group = if is_first then h.first_group else h.second_group;
      pair_group = pair_group;
      local_is_first = is_first;
      m2m_send = if is_first then h.first_to_second else h.second_to_first;
      m2m_recv = if is_first then h.second_to_first else h.first_to_second;
      source_partial_groups = if is_first then h.first_partial_groups else h.second_partial_groups;
      dual_endpoint = dual;
      role_ranks = (first.name, first.ranks) ∷ (second.name, second.ranks) ∷ [];
      role_groups = (first.name, h.first_group) ∷ (second.name, h.second_group) ∷ [];
      role_mesh_shapes = (first.name, h.first_shape) ∷ (second.name, h.second_shape) ∷ [];
      m2m_by_source_role = (first.name, h.first_to_second) ∷ (second.name, h.second_to_first) ∷ [];
      partial_by_source_role =
          (first.name, or_none h.first_partial_groups)
          ∷ (second.name, or_none h.second_partial_groups)
          ∷ [];
    }

abbrev pub given : PairSide → Bool
given side = ltb 0 (length side.mesh_info)

abbrev pub finish :
    PairSide → PairSide → PairSide → PairSide → ℕ → Bool → Option (Halves × Groups) → Completion
finish loc rem first second pair_group dual none = raised value_error
finish loc rem first second pair_group dual (some (h, s)) =
    completed (pair_state loc rem first second pair_group dual h) s

-- `first` and `second` are the sides in the order of their names.
unfoldable pub complete_ordered :
    (PlacedMesh → PlacedMesh → M2MMap)
    → ℕ
    → PairSide
    → PairSide
    → PairSide
    → PairSide
    → Groups
    → Completion
unfolding is_consistent halves pair_state get_or_create_process_group sorted_set
complete_ordered get_m2m_map rank loc rem first second s =
    let dual = sorted_set first.ranks == sorted_set second.ranks in
    if not (is_consistent loc.mesh_info && is_consistent rem.mesh_info)
    then raised assertion_error
    else if dual && not (given loc && given rem)
    then raised value_error
    else let (pair_group, s1) = get_or_create_process_group (loc.ranks ++ rem.ranks) s in
      finish loc rem first second pair_group dual (halves get_m2m_map rank first second s1)

abbrev pub ordered_names : PairSide → PairSide → ℕ × ℕ
ordered_names a b = if ltb a.name b.name then (a.name, b.name) else (b.name, a.name)

-- `_complete_pair`, with the peer names that the wait for `canonical_peers` returned. The two names
-- are different.
unfoldable pub complete_pair :
    (PlacedMesh → PlacedMesh → M2MMap) → ℕ → ℕ × ℕ → PairSide → PairSide → Groups → Completion
unfolding complete_ordered
complete_pair get_m2m_map rank got loc rem s =
    if not (got == ordered_names loc rem)
    then raised invalid_registration
    else if ltb loc.name rem.name
    then complete_ordered get_m2m_map rank loc rem loc rem s
    else complete_ordered get_m2m_map rank loc rem rem loc s
