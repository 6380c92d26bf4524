-- ===== src/Comm/Pipeline/Numbers.antt =====
-- How a turn of bucket_comm in comm_methods.py changes the lengths of a channel's deques.
use etha.Prelude.{
  pair_eq, ℕ, ◌+◌, ◌≤◌, ◌<◌, ◌≡◌, refl, inl, inr, Bool, true, false, List, [], ◌∷◌, arith, ltb,
  nat_eq, list_eq, Bool-cases, length, length-append,
}
use etha.Comm.Pipeline.{Call, Channel, Turn, prepare_turn, launch_turn, complete_turn}

module _ {ℓ} {B : Type ℓ} where
  abbrev pub waiting : Channel B → ℕ
  waiting c = length c.candidate

  abbrev pub ready : Channel B → ℕ
  ready c = length c.prepared

  abbrev pub flying : Channel B → ℕ
  flying c = length c.in_flight

  -- The arithmetic of a turn: the numbers of the channel before and after it.
  pub record IsPrepare (m clock : ℕ) (c : Channel B) (t : Turn B) : Type 0 where
    pub clock_same : t.clock ≡ clock
    pub moved : waiting t.channel + ready t.channel ≡ waiting c + ready c
    pub flying_same : flying t.channel ≡ flying c
    pub less : waiting t.channel ≤ waiting c
    pub spent : t.progress ≡ true → waiting t.channel < waiting c
    pub full : t.progress ≡ false → 0 < waiting t.channel → m ≤ ready t.channel + flying t.channel

  pub prepare_turn-IsPrepare :
      (m clock : ℕ) (bs ps fs : List B) (ls : List (Call B))
      → let c : Channel B = record { candidate = bs; prepared = ps; in_flight = fs; calls = ls } in
        IsPrepare m clock c (prepare_turn m clock c)
  unfolding prepare_turn
  prepare_turn-IsPrepare m clock [] ps fs ls = record {
    clock_same = refl;
    moved = refl;
    flying_same = refl;
    less = omega arith;
    spent = λ e. cc;
    full = λ e h. absurd (omega arith);
  }
  prepare_turn-IsPrepare m clock (b ∷ bs) ps fs ls =
      let grown = length-append ps (b ∷ []) in
      elim (Bool-cases (ltb (length ps + length fs) m)) [
        | inl room ↦ rw room (record {
          clock_same = refl;
          moved = omega arith;
          flying_same = refl;
          less = omega arith;
          spent = λ e. omega arith;
          full = λ e. cc;
        })
        | inr none_left ↦ rw none_left (record {
          clock_same = refl;
          moved = refl;
          flying_same = refl;
          less = omega arith;
          spent = λ e. cc;
          full = λ e h. ground arith;
        })
      ]

  pub record IsLaunch (clock : ℕ) (c : Channel B) (t : Turn B) : Type 0 where
    pub clock_same : t.clock ≡ clock
    pub moved : ready t.channel + flying t.channel ≡ ready c + flying c
    pub waiting_same : waiting t.channel ≡ waiting c
    pub less : ready t.channel ≤ ready c
    pub spent : t.progress ≡ true → ready t.channel < ready c
    pub all : t.progress ≡ false → ready t.channel ≡ 0

  pub launch_turn-IsLaunch :
      (clock : ℕ) (bs ps fs : List B) (ls : List (Call B))
      → let c : Channel B = record { candidate = bs; prepared = ps; in_flight = fs; calls = ls } in
        IsLaunch clock c (launch_turn clock c)
  unfolding launch_turn
  launch_turn-IsLaunch clock bs [] fs ls = record {
    clock_same = refl;
    moved = refl;
    waiting_same = refl;
    less = omega arith;
    spent = λ e. cc;
    all = λ e. refl;
  }
  launch_turn-IsLaunch clock bs (b ∷ ps) fs ls =
      let grown = length-append fs (b ∷ []) in
      record {
        clock_same = refl;
        moved = omega arith;
        waiting_same = refl;
        less = omega arith;
        spent = λ e. omega arith;
        all = λ e. cc;
      }

  pub record IsComplete (limit clock : ℕ) (c : Channel B) (t : Turn B) : Type 0 where
    pub ticks : clock ≤ t.clock
    pub moves : 0 < flying c → clock < t.clock
    pub ready_same : ready t.channel ≡ ready c
    pub waiting_same : waiting t.channel ≡ waiting c
    pub less : flying t.channel ≤ flying c
    pub spent : t.progress ≡ true → flying t.channel < flying c
    pub all : limit ≤ clock → t.progress ≡ false → flying t.channel ≡ 0

  pub complete_turn-IsComplete :
      (is_complete : ℕ → B → Bool) (limit : ℕ)
      → ((n : ℕ) (b : B) → limit ≤ n → is_complete n b ≡ true)
      → (clock : ℕ) (bs ps fs : List B) (ls : List (Call B))
      → let c : Channel B = record { candidate = bs; prepared = ps; in_flight = fs; calls = ls } in
        IsComplete limit clock c (complete_turn is_complete clock c)
  unfolding complete_turn
  complete_turn-IsComplete is_complete limit ends clock bs ps [] ls = record {
    ticks = omega arith;
    moves = λ h. omega arith;
    ready_same = refl;
    waiting_same = refl;
    less = omega arith;
    spent = λ e. cc;
    all = λ h e. refl;
  }
  complete_turn-IsComplete is_complete limit ends clock bs ps (b ∷ fs) ls =
      elim (Bool-cases (is_complete clock b)) [
        | inl done ↦ rw done (record {
          ticks = omega arith;
          moves = λ h. omega arith;
          ready_same = refl;
          waiting_same = refl;
          less = omega arith;
          spent = λ e. omega arith;
          all = λ h e. cc;
        })
        | inr busy ↦
            let early : ¬ (limit ≤ clock) = λ h. ground (arith, ends clock b h) in
            rw busy (record {
              ticks = omega arith;
              moves = λ h. omega arith;
              ready_same = refl;
              waiting_same = refl;
              less = omega arith;
              spent = λ e. cc;
              all = λ h e. absurd (early h);
            })
      ]
