-- ===== src/TensorBus/InitPair.antt =====
-- `InitPair` in src/etha/tensor_bus/agent.py: one side of a pair registers on a rank.
pub mod Consistent
pub mod Ranks
pub mod Rejected
mod Examples
use etha.Prelude.{
  pair_eq, List-cases, select, select-append, nat_beq, nat_beq_iff, list_beq, list_beq_iff, ℕ, zero,
  suc, ◌+◌, ◌-◌, ◌*◌, ◌/◌, ◌%◌, ◌^◌, ◌≤◌, ◌<◌, min, max, ◌≡◌, refl, sym, ap, ap₂, subst, fun_ext,
  ◌∙◌, ◌≢◌, ◌↔◌, ◌⊎◌, inl, inr, Bool, true, false, ◌&&◌, ◌||◌, not, Option, none, some, List, [],
  ◌∷◌, ◌++◌, map, arith, ltb, leb, ◌==◌, Eq, nat_eq, list_eq, if◌then◌else◌, Bool-cases,
  Option-cases, length, get_elem?, take, drop, length-append, length-drop, All, All-append, sum,
  sum-append,
}
use etha.Prelude.Dict.{Dict, lookup, insert}
use etha.TensorBus.Rounds.{elem}
use etha.TensorBus.Rendezvous
use etha.TensorBus.Rendezvous.{Side}

-- Payloads are pickled bytes, known by number; unpickling is an argument, `none` when it raises.
pub record InitPair : Type 0 where
  pub pair_name : ℕ
  pub local_name : ℕ
  pub remote_name : ℕ
  pub expected_world_size : ℕ
  pub mesh_shape_payload : Option ℕ
  pub placements_payload : Option ℕ
  pub semaphore_name : Option ℕ

-- The two payloads of a rank's side.
pub record Layout : Type 0 where
  pub mesh_shape : Option ℕ
  pub placements : Option ℕ

-- The keys of the rendezvous in the store: the sides, the pairs' markers, the expected size of a
-- side, and the layouts by pair, peer name and rank.
pub record Registry : Type 0 where
  pub store : Rendezvous.Store
  pub expected_world_size : ℕ → ℕ → Option ℕ
  pub layouts : ℕ → ℕ → ℕ → Layout

-- `PairState`: the fields that a repeated registration is compared with. An empty dictionary stands
-- for no `role_ranks`.
pub record MatchedPair : Type 0 where
  pub local_name : ℕ
  pub remote_name : ℕ
  pub local_ranks : List ℕ
  pub remote_ranks : List ℕ
  pub role_ranks : Dict ℕ (List ℕ)

-- `_PendingPair`
pub record Pending : Type 0 where
  pub local_name : ℕ
  pub remote_name : ℕ
  pub expected : Dict ℕ ℕ
  pub semaphores : Dict ℕ (List (Option ℕ))

pub record Agent : Type 0 where
  pub rank : ℕ
  pub pairs : Dict ℕ MatchedPair
  pub pending_pairs : Dict ℕ Pending
  pub released : List ℕ

pub data Problem : Type 0 where
  unknown_peers wrong_size bad_payload layout_changed : Problem

-- What the handler leaves: the agent and the store, and the error if it raises.
pub record Handled : Type 0 where
  pub agent : Agent
  pub registry : Registry
  pub problem : Option Problem

abbrev pub keys : Dict ℕ (List ℕ) → List ℕ
keys [] = []
keys ((k, v) ∷ d) = k ∷ keys d

-- `set(existing.role_ranks or ()) or {existing.local_name, existing.remote_name}`
unfoldable pub peers_of : MatchedPair → List ℕ
peers_of p = elim p.role_ranks [
  | [] ↦ p.local_name ∷ p.remote_name ∷ []
  | e ∷ es ↦ keys p.role_ranks
]

unfoldable pub known_size : MatchedPair → ℕ → ℕ
known_size p name = elim (lookup name p.role_ranks) [
  | some ranks ↦ length ranks
  | none ↦ if name == p.local_name then length p.local_ranks else length p.remote_ranks
]

-- `ForkingPickler.loads(stored) if stored is not None else None`; the outer option is the raise.
unfoldable pub unpickled : (ℕ → Option ℕ) → Option ℕ → Option (Option ℕ)
unpickled loads none = some none
unpickled loads (some payload) = elim (loads payload) [ none ↦ none | some v ↦ some (some v) ]

abbrev pub same_value : Option ℕ → Option ℕ → Bool
same_value none none = true
same_value (some a) (some b) = a == b
same_value _ _ = false

abbrev pub compare_values : Option (Option ℕ) → Option (Option ℕ) → Option Problem
compare_values (some previous) (some requested) =
    if same_value requested previous then none else some layout_changed
compare_values _ _ = some bad_payload

unfoldable pub check_field : (ℕ → Option ℕ) → Option ℕ → Option ℕ → Option Problem
unfolding unpickled
check_field loads stored payload = compare_values (unpickled loads stored) (unpickled loads payload)

-- The checks of a registration for a pair that is matched.
unfoldable pub check_matched : (ℕ → Option ℕ) → InitPair → MatchedPair → Layout → Option Problem
unfolding peers_of known_size check_field
check_matched loads msg p stored =
    if not (elem msg.local_name (peers_of p)) || not (elem msg.remote_name (peers_of p))
    then some unknown_peers
    else if not (msg.expected_world_size == known_size p msg.local_name)
    then some wrong_size
    else elim (check_field loads stored.mesh_shape msg.mesh_shape_payload) [
      | some e ↦ some e
      | none ↦ check_field loads stored.placements msg.placements_payload
    ]

-- The checks for a pair that is pending.
unfoldable pub check_pending : InitPair → Pending → Option Problem
check_pending msg p =
    let peers = p.local_name ∷ p.remote_name ∷ [] in
    if not (elem msg.local_name peers) || not (elem msg.remote_name peers)
    then some unknown_peers
    else elim (lookup msg.local_name p.expected) [
      | none ↦ none
      | some n ↦ if n == msg.expected_world_size then none else some wrong_size
    ]

-- A key of the store's sides, layouts or sizes.
unfoldable pub write_side : ℕ → InitPair → Registry → Registry
write_side rank msg g = record g {
  store = record g.store {
    sides = λ pair name r.
        if pair == msg.pair_name && (name == msg.local_name && r == rank)
        then (true, some msg.expected_world_size)
        else g.store.sides pair name r;
  };
}

unfoldable pub write_expected : InitPair → Registry → Registry
write_expected msg g = record g {
  expected_world_size = λ pair name.
      if pair == msg.pair_name && name == msg.local_name
      then some msg.expected_world_size
      else g.expected_world_size pair name;
}

unfoldable pub write_layout : ℕ → InitPair → Registry → Registry
write_layout rank msg g = record g {
  layouts = λ pair name r.
      if pair == msg.pair_name && (name == msg.local_name && r == rank)
      then record { mesh_shape = msg.mesh_shape_payload; placements = msg.placements_payload }
      else g.layouts pair name r;
}

abbrev pub both_given : InitPair → Bool
both_given msg = elim msg.mesh_shape_payload [
  | none ↦ false
  | some m ↦ elim msg.placements_payload [ none ↦ false | some p ↦ true ]
]

abbrev pub conflicts : ℕ → Option ℕ → Bool
conflicts n none = false
conflicts n (some m) = not (m == n)

-- `_write_init_pair_keys`: the rank's own keys are written before the expected size is compared.
unfoldable pub write_init_pair_keys : ℕ → InitPair → Registry → Registry × Option Problem
unfolding write_side write_expected write_layout
write_init_pair_keys rank msg g =
    let sided = write_side rank msg g in
    let sized = write_expected msg sided in
    if conflicts msg.expected_world_size (g.expected_world_size msg.pair_name msg.local_name)
    then (sided, some wrong_size)
    else (if both_given msg then write_layout rank msg sized else sized, none)

abbrev pub names_at : Option (List (Option ℕ)) → List (Option ℕ)
names_at none = []
names_at (some l) = l

-- `add_semaphore`
unfoldable pub add_semaphore : ℕ → Option ℕ → Pending → Pending
add_semaphore name semaphore p = record p {
  semaphores = insert name (names_at (lookup name p.semaphores) ++ semaphore ∷ []) p.semaphores;
}

-- `setdefault`
abbrev pub set_default : ℕ → ℕ → Dict ℕ ℕ → Dict ℕ ℕ
set_default k v d = elim (lookup k d) [ none ↦ insert k v d | some w ↦ d ]

-- `store.set(f"pair_completion:logged:{pair_name}", "")`
unfoldable pub clear_marker : ℕ → Registry → Registry
clear_marker pair g = record g {
  store = record g.store { logged = select (λ p. not (p == pair)) g.store.logged };
}

abbrev pub begin_pair : InitPair → Pending
begin_pair msg = record {
  local_name = msg.local_name;
  remote_name = msg.remote_name;
  expected = (msg.local_name, msg.expected_world_size) ∷ [];
  semaphores = [];
}

abbrev pub release : Option ℕ → Agent → Agent
release none a = a
release (some s) a = record a { released = s ∷ a.released }

abbrev pub with_pending : ℕ → Pending → Agent → Agent
with_pending pair p a = record a { pending_pairs = insert pair p a.pending_pairs }

-- A pair that is matched: an identical registration is only acknowledged.
unfoldable pub handle_matched : (ℕ → Option ℕ) → InitPair → MatchedPair → Agent → Registry → Handled
unfolding check_matched
handle_matched loads msg p a g =
    elim (check_matched loads msg p (g.layouts msg.pair_name msg.local_name a.rank)) [
      | some e ↦ record { agent = a; registry = g; problem = some e }
      | none ↦ record { agent = release msg.semaphore_name a; registry = g; problem = none }
    ]

-- The first registration of a pair on this rank.
unfoldable pub handle_first : InitPair → Agent → Registry → Handled
unfolding write_init_pair_keys add_semaphore
handle_first msg a g =
    let (written, problem) = write_init_pair_keys a.rank msg g in
    elim problem [
      | some e ↦ record { agent = a; registry = written; problem = some e }
      | none ↦
          let pending = add_semaphore msg.local_name msg.semaphore_name (begin_pair msg) in
          record {
            agent = with_pending msg.pair_name pending a;
            registry = written;
            problem = none;
          }
    ]

-- Another registration of a pair that is pending: the other role's, or a retry.
unfoldable pub handle_again : InitPair → Pending → Agent → Registry → Handled
unfolding check_pending write_init_pair_keys add_semaphore clear_marker
handle_again msg p a g = elim (check_pending msg p) [
  | some e ↦ record { agent = a; registry = g; problem = some e }
  | none ↦
      let (written, problem) = write_init_pair_keys a.rank msg g in
      elim problem [
        | some e ↦ record { agent = a; registry = written; problem = some e }
        | none ↦
            let expected = set_default msg.local_name msg.expected_world_size p.expected in
            let pending =
              add_semaphore msg.local_name msg.semaphore_name (record p { expected = expected }) in
            record {
              agent = with_pending msg.pair_name pending a;
              registry = clear_marker msg.pair_name written;
              problem = none;
            }
      ]
]

-- `_handle_init_pair`
unfoldable pub handle_init_pair : (ℕ → Option ℕ) → InitPair → Agent → Registry → Handled
unfolding handle_matched handle_first handle_again
handle_init_pair loads msg a g = elim (lookup msg.pair_name a.pairs) [
  | some matched ↦ handle_matched loads msg matched a g
  | none ↦ elim (lookup msg.pair_name a.pending_pairs) [
    | none ↦ handle_first msg a g
    | some pending ↦ handle_again msg pending a g
  ]
]
