-- ===== src/Comm/Pipeline.antt =====
-- bucket_comm of src/etha/comm/comm_methods.py: the buckets of a rank, one queue for each channel.
pub mod Turns
pub mod Fifo
pub mod Sequential
pub mod Numbers
pub mod Progress
pub mod Passes
pub mod Terminates
mod Examples
use etha.Prelude.{
  pair_eq, select, select-append, nat_beq, nat_beq_iff, list_beq, list_beq_iff, ℕ, zero, suc, ◌+◌,
  ◌-◌, ◌*◌, ◌/◌, ◌%◌, ◌^◌, ◌≤◌, ◌<◌, min, max, ◌≡◌, refl, sym, ap, ap₂, subst, fun_ext, ◌∙◌, ◌≢◌,
  ◌↔◌, ◌⊎◌, inl, inr, Bool, true, false, ◌&&◌, ◌||◌, not, Option, none, some, List, [], ◌∷◌, ◌++◌,
  map, arith, ltb, leb, ◌==◌, Eq, nat_eq, list_eq, if◌then◌else◌, Bool-cases, Option-cases, length,
  get_elem?, take, drop, length-append, length-drop, All, All-append, sum, sum-append,
}
use etha.Prelude.Dict.{Dict, lookup, insert}

-- The calls made on the buckets of a channel.
pub data Call {ℓ} (B : Type ℓ) : Type ℓ where
  prepare launch finalize : B → Call B

-- The three deques of a channel, and the calls made so far on its buckets, oldest first.
pub record Channel {ℓ} (B : Type ℓ) : Type ℓ where
  pub candidate : List B
  pub prepared : List B
  pub in_flight : List B
  pub calls : List (Call B)

abbrev pub empty_channel {ℓ} : {B : Type ℓ} → Channel B
empty_channel = record { candidate = []; prepared = []; in_flight = []; calls = [] }

-- `defaultdict`: a channel that is not there is an empty one.
abbrev pub channel_or_empty {ℓ} : {B : Type ℓ} → Option (Channel B) → Channel B
channel_or_empty none = empty_channel
channel_or_empty (some c) = c

-- What the turn of a channel in a sweep leaves. The clock counts the calls of `is_complete`.
pub record Turn {ℓ} (B : Type ℓ) : Type ℓ where
  pub progress : Bool
  pub clock : ℕ
  pub channel : Channel B

abbrev pub idle {ℓ} : {B : Type ℓ} → ℕ → Channel B → Turn B
idle clock c = record { progress = false; clock = clock; channel = c }

-- `if candidate and len(prepared) + len(in_flight) < max_in_flight`
unfoldable pub prepare_turn {ℓ} : {B : Type ℓ} → ℕ → ℕ → Channel B → Turn B
prepare_turn max_in_flight clock c = elim c.candidate [
  | [] ↦ idle clock c
  | b ∷ bs ↦
      if ltb (length c.prepared + length c.in_flight) max_in_flight
      then record {
        progress = true;
        clock = clock;
        channel = record c {
          candidate = bs;
          prepared = c.prepared ++ b ∷ [];
          calls = c.calls ++ prepare b ∷ [];
        };
      }
      else idle clock c
]

-- `if prepared and prepared[0].launch()`: a launch waits for the buffer and returns `True`.
unfoldable pub launch_turn {ℓ} : {B : Type ℓ} → ℕ → Channel B → Turn B
launch_turn clock c = elim c.prepared [
  | [] ↦ idle clock c
  | b ∷ bs ↦ record {
    progress = true;
    clock = clock;
    channel = record c {
      prepared = bs;
      in_flight = c.in_flight ++ b ∷ [];
      calls = c.calls ++ launch b ∷ [];
    };
  }
]

-- `if in_flight and in_flight[0].is_complete()`
unfoldable pub complete_turn {ℓ} : {B : Type ℓ} → (ℕ → B → Bool) → ℕ → Channel B → Turn B
complete_turn is_complete clock c = elim c.in_flight [
  | [] ↦ idle clock c
  | b ∷ bs ↦
      if is_complete clock b
      then record {
        progress = true;
        clock = suc clock;
        channel = record c { in_flight = bs; calls = c.calls ++ finalize b ∷ [] };
      }
      else idle (suc clock) c
]

-- `for channel in channels.values()`: whether a turn made progress, the clock and the channels.
pub record Sweep {ℓ κ} (K : Type ℓ) (B : Type κ) : Type (ℓ ⊔ κ) where
  pub made_progress : Bool
  pub clock : ℕ
  pub channels : Dict K (Channel B)

unfoldable pub sweep {ℓ κ} :
    {K : Type ℓ} {B : Type κ} → (ℕ → Channel B → Turn B) → ℕ → Dict K (Channel B) → Sweep K B
sweep turn clock [] = record { made_progress = false; clock = clock; channels = [] }
sweep turn clock ((k, c) ∷ cs) =
    let t = turn clock c in
    let rest = sweep turn t.clock cs in
    record {
      made_progress = t.progress || rest.made_progress;
      clock = rest.clock;
      channels = (k, t.channel) ∷ rest.channels;
    }

-- The channels between two passes.
pub record State {ℓ κ} (K : Type ℓ) (B : Type κ) : Type (ℓ ⊔ κ) where
  pub clock : ℕ
  pub channels : Dict K (Channel B)

-- `while made_progress`: `none` when the fuel runs out.
unfoldable pub pass {ℓ κ} :
    {K : Type ℓ} {B : Type κ} → (ℕ → Channel B → Turn B) → ℕ → State K B → Option (State K B)
unfolding sweep
pass turn zero s = none
pass turn (suc fuel) s =
    let w = sweep turn s.clock s.channels in
    let again = pass turn fuel (record { clock = w.clock; channels = w.channels }) in
    if w.made_progress then again else some (record { clock = w.clock; channels = w.channels })

-- `if channel["candidate"] or channel["prepared"] or channel["in_flight"]`
abbrev pub some_left {ℓ} : {B : Type ℓ} → Channel B → Bool
some_left c =
    ltb 0 (length c.candidate) || (ltb 0 (length c.prepared) || ltb 0 (length c.in_flight))

-- `_has_work`
unfoldable pub has_work {ℓ κ} : {K : Type ℓ} {B : Type κ} → Dict K (Channel B) → Bool
has_work [] = false
has_work ((k, c) ∷ cs) = if some_left c then true else has_work cs

infixl 5 ◌>>=◌
abbrev pub ◌>>=◌ {ℓ κ} : {A : Type ℓ} {B : Type κ} → Option A → (A → Option B) → Option B
none >>= f = none
some a >>= f = f a

-- The three passes of a turn of the main loop.
unfoldable pub round {ℓ κ} :
    {K : Type ℓ} {B : Type κ} → ℕ → (ℕ → B → Bool) → ℕ → State K B → Option (State K B)
unfolding pass
round max_in_flight is_complete fuel s = do
  p ← pass (prepare_turn max_in_flight) fuel s
  l ← pass launch_turn fuel p
  pass (complete_turn is_complete) fuel l

-- `while _has_work()`
unfoldable pub work_loop {ℓ κ} :
    {K : Type ℓ} {B : Type κ} → ℕ → (ℕ → B → Bool) → ℕ → ℕ → State K B → Option (State K B)
unfolding round has_work
work_loop max_in_flight is_complete pass_fuel zero s = none
work_loop max_in_flight is_complete pass_fuel (suc fuel) s = elim (has_work s.channels) [
  | true ↦ do
    t ← round max_in_flight is_complete pass_fuel s
    work_loop max_in_flight is_complete pass_fuel fuel t
  | false ↦ some s
]

module _ {ℓ κ} {K : Type ℓ} ⦃e : Eq K⦄ {B : Type κ} (key : B → K) where
  -- `channels[bucket.key]["candidate"].append(bucket)`
  unfoldable pub add_candidate : B → Dict K (Channel B) → Dict K (Channel B)
  add_candidate b cs =
      let c = channel_or_empty (lookup (key b) cs) in
      insert (key b) (record c { candidate = c.candidate ++ b ∷ [] }) cs

  unfoldable pub add_candidates : List B → Dict K (Channel B) → Dict K (Channel B)
  unfolding add_candidate
  add_candidates [] cs = cs
  add_candidates (b ∷ bs) cs = add_candidates bs (add_candidate b cs)

  -- The pipeline; each of its loops has the fuel.
  unfoldable pub bucket_comm : List B → ℕ → (ℕ → B → Bool) → ℕ → Option (State K B)
  unfolding add_candidates work_loop
  bucket_comm buckets max_in_flight is_complete fuel =
      work_loop max_in_flight is_complete fuel fuel
        (record { clock = 0; channels = add_candidates buckets [] })

-- `sequential=True`: the calls that the one loop makes.
unfoldable pub sequential_comm {ℓ} : {B : Type ℓ} → List B → List (Call B)
sequential_comm [] = []
sequential_comm (b ∷ bs) = prepare b ∷ launch b ∷ finalize b ∷ sequential_comm bs
