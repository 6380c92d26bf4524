-- ===== src/Comm/Pipeline/Fifo.antt =====
-- What the pipeline bucket_comm of comm_methods.py does with the buckets of one channel, whatever the completions.
use mathlib.Core.List.{append-nil, append_assoc}
use etha.Prelude.{
  pair_eq, select, select-append, ℕ, ◌+◌, ◌<◌, ◌≡◌, refl, sym, ap, subst, inl, inr, Bool, true,
  false, ◌||◌, some, List, [], ◌∷◌, ◌++◌, arith, ltb, ◌==◌, Eq, nat_eq, list_eq, Bool-cases, length,
}
use etha.Prelude.Dict.{Dict, lookup, lookup-insert}
use etha.Comm.Pipeline.{
  Call, prepare, launch, finalize, Channel, empty_channel, channel_or_empty, Turn, State, sweep,
  prepare_turn, launch_turn, complete_turn, has_work, some_left, add_candidate, add_candidates,
  bucket_comm,
}
use etha.Comm.Pipeline.Turns.{work_loop-Keeps}

-- What a channel promises: of the buckets `xs`, those that wait, are prepared and are in flight after
-- some calls. Each call takes the head of its queue, and a bucket is prepared while fewer than `m` are.
pub data Follows {ℓ} {B : Type ℓ} (m : ℕ) (xs : List B)
    : List (Call B) → List B → List B → List B → Type ℓ where
  start : Follows m xs [] xs [] []
  prepares :
      {ls : List (Call B)} {b : B} {bs ps fs : List B}
      → length ps + length fs < m
      → Follows m xs ls (b ∷ bs) ps fs
      → Follows m xs (ls ++ prepare b ∷ []) bs (ps ++ b ∷ []) fs
  launches :
      {ls : List (Call B)} {b : B} {bs ps fs : List B}
      → Follows m xs ls bs (b ∷ ps) fs
      → Follows m xs (ls ++ launch b ∷ []) bs ps (fs ++ b ∷ [])
  finalizes :
      {ls : List (Call B)} {b : B} {bs ps fs : List B}
      → Follows m xs ls bs ps (b ∷ fs)
      → Follows m xs (ls ++ finalize b ∷ []) bs ps fs

abbrev pub FollowsChannel {ℓ} : {B : Type ℓ} → ℕ → List B → Channel B → Type ℓ
FollowsChannel m xs c = Follows m xs c.calls c.candidate c.prepared c.in_flight

module _ {ℓ} {B : Type ℓ} (m : ℕ) where
  Follows-ended :
      (ls : List (Call B)) (bs ps fs xs : List B)
      → (ltb 0 (length bs) || (ltb 0 (length ps) || ltb 0 (length fs))) ≡ false
      → Follows m xs ls bs ps fs
      → Follows m xs ls [] [] []
  Follows-ended ls [] [] [] xs e h = h
  Follows-ended ls (b ∷ bs) ps fs xs e h = ground arith
  Follows-ended ls [] (p ∷ ps) fs xs e h = ground arith
  Follows-ended ls [] [] (f ∷ fs) xs e h = ground arith

  prepare_turn-FollowsChannel :
      (xs : List B) (clock : ℕ) (ls : List (Call B)) (bs ps fs : List B)
      → Follows m xs ls bs ps fs
      → FollowsChannel m xs
          (prepare_turn m clock
            (record { candidate = bs; prepared = ps; in_flight = fs; calls = ls })).channel
  unfolding prepare_turn
  prepare_turn-FollowsChannel xs clock ls [] ps fs h = h
  prepare_turn-FollowsChannel xs clock ls (b ∷ bs) ps fs h =
      elim (Bool-cases (ltb (length ps + length fs) m)) [
        | inl room ↦ rw room (prepares (ground arith) h)
        | inr full ↦ rw full h
      ]

  launch_turn-FollowsChannel :
      (xs : List B) (clock : ℕ) (ls : List (Call B)) (bs ps fs : List B)
      → Follows m xs ls bs ps fs
      → FollowsChannel m xs
          (launch_turn clock
            (record { candidate = bs; prepared = ps; in_flight = fs; calls = ls })).channel
  unfolding launch_turn
  launch_turn-FollowsChannel xs clock ls bs [] fs h = h
  launch_turn-FollowsChannel xs clock ls bs (b ∷ ps) fs h = launches h

  complete_turn-FollowsChannel :
      (is_complete : ℕ → B → Bool) (xs : List B) (clock : ℕ) (ls : List (Call B))
      (bs ps fs : List B)
      → Follows m xs ls bs ps fs
      → FollowsChannel m xs
          (complete_turn is_complete clock
            (record { candidate = bs; prepared = ps; in_flight = fs; calls = ls })).channel
  unfolding complete_turn
  complete_turn-FollowsChannel is_complete xs clock ls bs ps [] h = h
  complete_turn-FollowsChannel is_complete xs clock ls bs ps (b ∷ fs) h =
      elim (Bool-cases (is_complete clock b)) [
        | inl done ↦ rw done (finalizes h)
        | inr busy ↦ rw busy h
      ]

module _ {ℓ κ} {K : Type ℓ} ⦃e : Eq K⦄ {B : Type κ} where
  -- The channel of a key; that of an unknown key is empty.
  abbrev pub at : K → Dict K (Channel B) → Channel B
  at k cs = channel_or_empty (lookup k cs)

  at-own :
      (k j : K) (c : Channel B) (cs : Dict K (Channel B)) → (k == j) ≡ true → at k ((j, c) ∷ cs) ≡ c
  at-own k j c cs h = rw h refl

  at-other :
      (k j : K) (c : Channel B) (cs : Dict K (Channel B))
      → (k == j) ≡ false
      → at k ((j, c) ∷ cs) ≡ at k cs
  at-other k j c cs h = rw h refl

  -- A sweep gives the channel of a key one turn, or none when it has no channel.
  at-sweep {μ} :
      (P : Channel B → Type μ) (turn : ℕ → Channel B → Turn B)
      → ((clock : ℕ) (c : Channel B) → P c → P (turn clock c).channel)
      → (k : K) (clock : ℕ) (cs : Dict K (Channel B)) → P (at k cs)
      → P (at k (sweep turn clock cs).channels)
  unfolding sweep
  at-sweep P turn keep k clock [] h = h
  at-sweep P turn keep k clock ((j, c) ∷ cs) h =
      let t : Turn B = turn clock c in
      elim (Bool-cases (k == j)) [
        | inl own ↦
            subst P (sym (at-own k j t.channel (sweep turn t.clock cs).channels own))
              (keep clock c (subst P (at-own k j c cs own) h))
        | inr other ↦
            subst P (sym (at-other k j t.channel (sweep turn t.clock cs).channels other))
              (at-sweep P turn keep k t.clock cs (subst P (at-other k j c cs other) h))
      ]

  at-without_work :
      (k : K) (cs : Dict K (Channel B)) → has_work cs ≡ false → some_left (at k cs) ≡ false
  unfolding has_work
  at-without_work k [] h = refl
  at-without_work k ((j, c) ∷ cs) h =
      ground (arith, at-own k j c cs, at-other k j c cs, at-without_work k cs)

  module _ (key : B → K) where
    abbrev pub on_channel : K → B → Bool
    on_channel k b = k == key b

    at-add_candidate :
        (k : K) (b : B) (xs : List B) (cs : Dict K (Channel B))
        → at k cs ≡ record empty_channel { candidate = select (on_channel k) xs }
        → at k (add_candidate key b cs)
          ≡ record empty_channel { candidate = select (on_channel k) (xs ++ b ∷ []) }
    unfolding add_candidate
    at-add_candidate k b xs cs h =
        let c : Channel B = at (key b) cs in
        let d : Channel B = record c { candidate = c.candidate ++ b ∷ [] } in
        elim (Bool-cases (k == key b)) [
          | inl own ↦
              let same : c ≡ record empty_channel { candidate = select (on_channel k) xs } =
                rw (← (e.beq_iff k (key b)).0 own) h in
              rw (lookup-insert (key b) k d cs, select-append (on_channel k) xs (b ∷ []), own)
                (ap (λ (c : Channel B). record c { candidate = c.candidate ++ b ∷ [] }) same)
          | inr other ↦
              rw
                (
                  lookup-insert (key b) k d cs,
                  select-append (on_channel k) xs (b ∷ []),
                  other,
                  append-nil (select (on_channel k) xs),
                )
                h
        ]

    at-add_candidates :
        (k : K) (ys xs : List B) (cs : Dict K (Channel B))
        → at k cs ≡ record empty_channel { candidate = select (on_channel k) xs }
        → at k (add_candidates key ys cs)
          ≡ record empty_channel { candidate = select (on_channel k) (xs ++ ys) }
    unfolding add_candidates
    at-add_candidates k [] xs cs h = rw (append-nil xs) h
    at-add_candidates k (b ∷ ys) xs cs h = rw (← append_assoc xs (b ∷ []) ys) (
        at-add_candidates k ys (xs ++ b ∷ []) (add_candidate key b cs)
          (at-add_candidate k b xs cs h))

    -- When the pipeline returns, the calls made on the channel of any key are a run of its discipline,
    -- from all the buckets of the key, in the order of the list, to none left.
    pub at-bucket_comm :
        (m : ℕ) (is_complete : ℕ → B → Bool) (fuel : ℕ) (buckets : List B) (s : State K B)
        → bucket_comm key buckets m is_complete fuel ≡ some s
        → (k : K) → Follows m (select (on_channel k) buckets) (at k s.channels).calls [] [] []
    unfolding bucket_comm
    at-bucket_comm m is_complete fuel buckets s h k =
        let xs : List B = select (on_channel k) buckets in
        let P : Channel B → Type _ = FollowsChannel m xs in
        let start : State K B = record { clock = 0; channels = add_candidates key buckets [] } in
        let first : P (at k start.channels) =
          subst P (sym (at-add_candidates k buckets [] [] refl)) Follows.start in
        let (last, over) =
          work_loop-Keeps (λ (t : State K B). P (at k t.channels)) m is_complete
            (λ t.
              at-sweep P (prepare_turn m)
                (λ n c.
                  prepare_turn-FollowsChannel m xs n c.calls c.candidate c.prepared c.in_flight)
                k t.clock t.channels)
            (λ t.
              at-sweep P launch_turn
                (λ n c.
                  launch_turn-FollowsChannel m xs n c.calls c.candidate c.prepared c.in_flight)
                k t.clock t.channels)
            (λ t.
              at-sweep P (complete_turn is_complete)
                (λ n c.
                  complete_turn-FollowsChannel m is_complete xs n c.calls c.candidate c.prepared
                    c.in_flight)
                k t.clock t.channels)
            fuel fuel start s h first in
        let c : Channel B = at k s.channels in
        Follows-ended m c.calls c.candidate c.prepared c.in_flight xs
          (at-without_work k s.channels over) last
