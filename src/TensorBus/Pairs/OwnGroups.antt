-- ===== src/TensorBus/Pairs/OwnGroups.antt =====
-- Completing a pair in agent.py makes the same groups on every rank.
use etha.Prelude.{
  pair_eq, List-cases, ℕ, ◌≡◌, refl, sym, ap, ap₂, fun_ext, ◌∙◌, inl, inr, Option, none, some, List,
  [], ◌∷◌, ◌==◌, nat_eq, list_eq, if◌then◌else◌, Option-cases,
}
use etha.Prelude.Sorting.{sorted_set, nat_order}
use etha.Comm.Slices.{Mesh, enumerate_partial_subgroup_ranks}
use etha.Comm.Ir.{M2MMap, PartialGroup}
use etha.Comm.Groups.{Groups, get_or_create_process_group}
use etha.TensorBus.Pairs.{
  PairSide, PlacedMesh, subgroup_loop, create_partial_groups, Halves, map_to, reductions_of,
  both_partial_groups, mesh_of, meshed_halves, halves,
}

abbrev groups_of {ℓ} : {A : Type ℓ} → Option (A × Groups) → Option Groups
groups_of none = none
groups_of (some (x, s)) = some s

-- The groups that one dimension and then the others leave.
groups-create_step :
    (r : ℕ) (mesh : Mesh) (dim op : ℕ) (rs : List (ℕ × ℕ)) (full : List ℕ) (group : ℕ)
    (subs : List (List ℕ)) (s : Groups)
    → enumerate_partial_subgroup_ranks mesh dim ≡ some subs
    → groups_of (create_partial_groups mesh ((dim, op) ∷ rs) r full group s)
      ≡ groups_of
          (create_partial_groups mesh rs r full group (subgroup_loop r full group op subs s).1)
unfolding create_partial_groups
groups-create_step r mesh dim op rs full group subs s h =
    elim (Option-cases
      (create_partial_groups mesh rs r full group (subgroup_loop r full group op subs s).1)) [
        | inl bad ↦ rw (create_partial_groups, h, bad) refl
        | inr ((others, last), good) ↦ rw (create_partial_groups, h, good) refl
      ]

abbrev third : Option (List PartialGroup × (List PartialGroup × Groups)) → Option Groups
third none = none
third (some (mine, (others, s))) = some s

abbrev chain : Option Groups → (Groups → Option Groups) → Option Groups
chain none f = none
chain (some s) f = f s

third-both :
    (r : ℕ) (a : PairSide) (am : PlacedMesh) (ag : ℕ) (ar : List (ℕ × ℕ)) (b : PairSide)
    (bm : PlacedMesh) (bg : ℕ) (br : List (ℕ × ℕ)) (s : Groups)
    → third (both_partial_groups r a am ag ar b bm bg br s)
      ≡ chain
          (groups_of (create_partial_groups am.mesh ar r a.ranks ag s))
          (λ t. groups_of (create_partial_groups bm.mesh br r b.ranks bg t))
unfolding both_partial_groups
third-both r a am ag ar b bm bg br s =
    elim (Option-cases (create_partial_groups am.mesh ar r a.ranks ag s)) [
      | inl bad ↦ rw (both_partial_groups, bad) refl
      | inr ((mine, s1), good) ↦
          elim (Option-cases (create_partial_groups bm.mesh br r b.ranks bg s1)) [
            | inl bad ↦ rw (both_partial_groups, good, bad) refl
            | inr ((mine', s2), good') ↦ rw (both_partial_groups, good, good') refl
          ]
    ]

-- The halves without the groups that a rank keeps.
abbrev pub without_own : Halves → Halves
without_own h = record h { first_partial_groups = none; second_partial_groups = none }

abbrev pub blank : Option (Halves × Groups) → Option (Halves × Groups)
blank none = none
blank (some (h, s)) = some (without_own h, s)

abbrev with_groups : Halves → Option Groups → Option (Halves × Groups)
with_groups h none = none
with_groups h (some s) = some (h, s)

abbrev plain_halves :
    (PlacedMesh → PlacedMesh → M2MMap)
    → PairSide
    → PlacedMesh
    → PairSide
    → PlacedMesh
    → Groups
    → Halves
plain_halves get_m2m_map a am b bm s =
    let (ag, s1) = get_or_create_process_group a.ranks s in
    let (bg, s2) = get_or_create_process_group b.ranks s1 in
    record {
      first_group = ag;
      second_group = bg;
      first_to_second = map_to get_m2m_map am bm;
      second_to_first = map_to get_m2m_map bm am;
      first_shape = am.mesh.shape;
      second_shape = bm.mesh.shape;
      first_partial_groups = none;
      second_partial_groups = none;
    }

blank-meshed :
    (get_m2m_map : PlacedMesh → PlacedMesh → M2MMap) (r : ℕ) (a : PairSide) (am : PlacedMesh)
    (b : PairSide) (bm : PlacedMesh) (s : Groups)
    → let (ag, s1) = get_or_create_process_group a.ranks s in
      let (bg, s2) = get_or_create_process_group b.ranks s1 in
      blank (meshed_halves get_m2m_map r a am b bm s)
      ≡ with_groups (plain_halves get_m2m_map a am b bm s) (
          third (
            both_partial_groups r a am ag
              (reductions_of (map_to get_m2m_map am bm))
              b
              bm
              bg
              (reductions_of (map_to get_m2m_map bm am))
              s2))
unfolding meshed_halves
blank-meshed get_m2m_map r a am b bm s =
    let (ag, s1) = get_or_create_process_group a.ranks s in
    let (bg, s2) = get_or_create_process_group b.ranks s1 in
    elim (Option-cases (
      both_partial_groups r a am ag (reductions_of (map_to get_m2m_map am bm)) b bm bg
        (reductions_of (map_to get_m2m_map bm am)) s2)) [
          | inl bad ↦ rw (meshed_halves, bad) refl
          | inr ((mine, (mine', s3)), good) ↦ rw (meshed_halves, good) refl
        ]

module _ (r r' : ℕ) where
  -- The rank decides which groups it keeps, not which are made.
  groups-subgroup_loop :
      (full : List ℕ) (group op : ℕ) (subs : List (List ℕ)) (s : Groups)
      → (subgroup_loop r full group op subs s).1 ≡ (subgroup_loop r' full group op subs s).1
  unfolding subgroup_loop
  groups-subgroup_loop full group op [] s = refl
  groups-subgroup_loop full group op (ranks ∷ subs) s =
      groups-subgroup_loop full group op subs
        (if sorted_set ranks == sorted_set full
          then (group, s)
          else get_or_create_process_group ranks s).1

  groups-create_partial_groups :
      (mesh : Mesh) (rs : List (ℕ × ℕ)) (full : List ℕ) (group : ℕ) (s : Groups)
      → groups_of (create_partial_groups mesh rs r full group s)
        ≡ groups_of (create_partial_groups mesh rs r' full group s)
  unfolding create_partial_groups
  groups-create_partial_groups mesh [] full group s = refl
  groups-create_partial_groups mesh ((dim, op) ∷ rs) full group s =
      elim (Option-cases (enumerate_partial_subgroup_ranks mesh dim)) [
        | inl bad ↦ rw (create_partial_groups, bad) refl
        | inr (subs, good) ↦
            groups-create_step r mesh dim op rs full group subs s good
            ∙ groups-create_partial_groups mesh rs full group
                (subgroup_loop r full group op subs s).1
            ∙ ap (λ (t : Groups). groups_of (create_partial_groups mesh rs r' full group t))
                (groups-subgroup_loop full group op subs s)
            ∙ sym (groups-create_step r' mesh dim op rs full group subs s good)
      ]

  groups-both_partial_groups :
      (a : PairSide) (am : PlacedMesh) (ag : ℕ) (ar : List (ℕ × ℕ)) (b : PairSide) (bm : PlacedMesh)
      (bg : ℕ) (br : List (ℕ × ℕ)) (s : Groups)
      → third (both_partial_groups r a am ag ar b bm bg br s)
        ≡ third (both_partial_groups r' a am ag ar b bm bg br s)
  groups-both_partial_groups a am ag ar b bm bg br s =
      third-both r a am ag ar b bm bg br s
      ∙ ap₂ chain (groups-create_partial_groups am.mesh ar a.ranks ag s)
          (fun_ext (λ t. groups-create_partial_groups bm.mesh br b.ranks bg t))
      ∙ sym (third-both r' a am ag ar b bm bg br s)

  view-meshed_halves :
      (get_m2m_map : PlacedMesh → PlacedMesh → M2MMap) (a : PairSide) (am : PlacedMesh)
      (b : PairSide) (bm : PlacedMesh) (s : Groups)
      → blank (meshed_halves get_m2m_map r a am b bm s)
        ≡ blank (meshed_halves get_m2m_map r' a am b bm s)
  view-meshed_halves get_m2m_map a am b bm s =
      let (ag, s1) = get_or_create_process_group a.ranks s in
      let (bg, s2) = get_or_create_process_group b.ranks s1 in
      let ar : List (ℕ × ℕ) = reductions_of (map_to get_m2m_map am bm) in
      let br : List (ℕ × ℕ) = reductions_of (map_to get_m2m_map bm am) in
      blank-meshed get_m2m_map r a am b bm s
      ∙ ap (with_groups (plain_halves get_m2m_map a am b bm s))
          (groups-both_partial_groups a am ag ar b bm bg br s2)
      ∙ sym (blank-meshed get_m2m_map r' a am b bm s)

  pub view-halves :
      (get_m2m_map : PlacedMesh → PlacedMesh → M2MMap) (a b : PairSide) (s : Groups)
      → blank (halves get_m2m_map r a b s) ≡ blank (halves get_m2m_map r' a b s)
  unfolding halves
  view-halves get_m2m_map a b s = elim (List-cases a.mesh_info) [
    | inl bare ↦ rw (halves, bare) refl
    | inr ((shape, placements), more, eq) ↦ elim (List-cases b.mesh_info) [
      | inl bare ↦ rw (halves, eq, bare) refl
      | inr ((shape', placements'), more', eq') ↦
          rw (halves, eq, eq')
            (view-meshed_halves get_m2m_map a
              (record { mesh = mesh_of a.ranks shape; placements = placements }) b
              (record { mesh = mesh_of b.ranks shape'; placements = placements' }) s)
    ]
  ]
