-- ===== src/TensorBus/Admission.antt =====
-- What `_handle_register_tensors` in src/etha/tensor_bus/agent.py does with a batch after its checks.
pub mod Agree
pub mod Sound
mod Examples
use etha.Prelude.{
  pair_eq, List-cases, select, select-append, nat_beq, nat_beq_iff, list_beq, list_beq_iff, ℕ, zero,
  suc, ◌+◌, ◌-◌, ◌*◌, ◌/◌, ◌%◌, ◌^◌, ◌≤◌, ◌<◌, min, max, ◌≡◌, refl, sym, ap, ap₂, subst, fun_ext,
  ◌∙◌, ◌≢◌, ◌↔◌, ◌⊎◌, inl, inr, Bool, true, false, ◌&&◌, ◌||◌, not, Option, none, some, List, [],
  ◌∷◌, ◌++◌, map, arith, ltb, leb, ◌==◌, Eq, nat_eq, list_eq, if◌then◌else◌, Bool-cases,
  Option-cases, length, get_elem?, take, drop, length-append, length-drop, All, All-append, sum,
  sum-append,
}
use etha.Prelude.Dict.{Dict}
use etha.TensorBus.Registration.{
  Registration, Registered, Notice, next_batch_generation, abort_dual_registration,
  register_dual_role,
}
use etha.TensorBus.Layouts.{
  PairSides, RegisterTensors, Sides, Row, Signature, row_eq, signature_eq, Layout, Batch, Host,
  insert_sorted, sorted, sides_of, membership_of, known_sides, all_of, any_of, one_value, is_dual,
  elem_of, has_role, count, pair_names, batch_dual, mix_ok, role_ok, role_dup_of, layout_of,
  Problem, is_given, members_ok, same_layout, is_changed, check_layouts, role_registered,
  invalid_registration, wrong_members, dual_inconsistent, dual_changed, split_inconsistent,
}

-- How a registration goes on: it raises, with the batch, the counters and the notices that it
-- leaves; the tensors of a split batch are read; a role of a dual batch is registered.
pub data Admitted : Type 0 where
  rejected : Problem → Option Batch → Dict ℕ ℕ → List Notice → Admitted
  starts_split : Batch → Dict ℕ ℕ → Admitted
  registers_dual : Signature → Dict ℕ ℕ → Registered → Admitted

unfoldable pub new_batch : RegisterTensors → Host → Batch × Dict ℕ ℕ
unfolding next_batch_generation
new_batch msg h =
    let (gen, gens) = next_batch_generation msg.batch_id h.generations in
    (
      record {
        registration = record {
          pair_names = pair_names msg;
          generation = gen;
          registered = [];
          parked = [];
        };
        dual_layout_signature = none;
      },
      gens,
    )

-- The batch of the id, or a new one.
abbrev pub open_batch : RegisterTensors → Host → Batch × Dict ℕ ℕ
open_batch msg h = elim h.batch [ none ↦ new_batch msg h | some b ↦ (b, h.generations) ]

abbrev pub stored_signature : Host → Option Signature
stored_signature h = elim h.batch [ none ↦ none | some b ↦ b.dual_layout_signature ]

-- A batch is dropped if a registration is parked.
unfoldable pub abort_existing : Problem → Host → Admitted
unfolding abort_dual_registration
abort_existing p h = elim h.batch [
  | none ↦ rejected p none h.generations []
  | some b ↦ elim b.registration.parked [
    | [] ↦ rejected p h.batch h.generations []
    | s ∷ ss ↦ rejected p none h.generations (abort_dual_registration (s ∷ ss) [])
  ]
]

unfoldable pub abort_opened : Problem → RegisterTensors → Host → Admitted
unfolding abort_dual_registration new_batch
abort_opened p msg h =
    let (b, gens) = open_batch msg h in
    rejected p none gens (abort_dual_registration b.registration.parked [])

unfoldable pub reject : Problem → RegisterTensors → Host → Admitted
unfolding abort_existing abort_opened
reject dual_inconsistent msg h = abort_opened dual_inconsistent msg h
reject dual_changed msg h = abort_opened dual_changed msg h
reject split_inconsistent msg h = rejected split_inconsistent h.batch h.generations []
reject role_registered msg h = abort_existing role_registered h
reject invalid_registration msg h = abort_existing invalid_registration h
reject wrong_members msg h = abort_existing wrong_members h

-- A dual batch without a role does not pass the checks if its own layout is among those gathered.
unfoldable pub admit : Bool → RegisterTensors → Host → Signature → Admitted
unfolding new_batch register_dual_role batch_dual
admit generates msg h s = elim (batch_dual msg h) [
  | false ↦ let (b, gens) = new_batch msg h in starts_split b gens
  | true ↦ elim msg.role [
    | none ↦ reject invalid_registration msg h
    | some role ↦
        let (b, gens) = open_batch msg h in
        registers_dual s gens
          (register_dual_role generates role msg.semaphore_name b.registration [])
  ]
]

-- `_handle_register_tensors` up to the chunks of a split batch. `layouts` is what is gathered, the
-- layout of each rank at its place.
unfoldable pub handle_register_tensors : Bool → RegisterTensors → Host → List Layout → Admitted
unfolding check_layouts reject admit layout_of
handle_register_tensors generates msg h layouts =
    let own = layout_of msg h in
    elim (check_layouts (batch_dual msg h) (stored_signature h) layouts own) [
      | some p ↦ reject p msg h
      | none ↦ admit generates msg h own.signature
    ]
