-- ===== src/Comm/Pipeline/Passes.antt =====
-- The three passes of a turn of bucket_comm in comm_methods.py, and what each leaves.
use etha.Prelude.{
  pair_eq, ℕ, ◌+◌, ◌-◌, ◌≤◌, ◌<◌, ◌≡◌, refl, Bool, true, some, [], ◌∷◌, arith, nat_eq, list_eq,
}
use etha.Prelude.Dict.{Dict}
use etha.Comm.Pipeline.{
  Channel, Turn, State, pass, prepare_turn, launch_turn, complete_turn, has_work,
}
use etha.Comm.Pipeline.Turns.{pass-Keeps}
use etha.Comm.Pipeline.Progress.{
  total, Each, Each-sweep, Spends, Ticks, pass-ends, sweep-clock, sweep-Ticks, pass-Ticks,
  pass-Balances, pass-Settles, pass-Spends,
}
use etha.Comm.Pipeline.Numbers.{
  waiting, ready, flying, prepare_turn-IsPrepare, launch_turn-IsLaunch, complete_turn-IsComplete,
  IsPrepare, IsLaunch, IsComplete,
}

module _ {ℓ} {B : Type ℓ} where
  abbrev pub left : Channel B → ℕ
  left c = waiting c + ready c + flying c

  abbrev nought : Channel B → ℕ
  nought c = 0

  prepared : (m clock : ℕ) (c : Channel B) → IsPrepare m clock c (prepare_turn m clock c)
  prepared m clock c = prepare_turn-IsPrepare m clock c.candidate c.prepared c.in_flight c.calls

  launched : (clock : ℕ) (c : Channel B) → IsLaunch clock c (launch_turn clock c)
  launched clock c = launch_turn-IsLaunch clock c.candidate c.prepared c.in_flight c.calls

  prepare_turn-Ticks : (m : ℕ) → Ticks {B = B} (prepare_turn m)
  prepare_turn-Ticks m n c = omega (arith, (prepared m n c).clock_same)

  launch_turn-Ticks : Ticks {B = B} launch_turn
  launch_turn-Ticks n c = omega (arith, (launched n c).clock_same)

  completed :
      (is_complete : ℕ → B → Bool) (limit : ℕ)
      → ((n : ℕ) (b : B) → limit ≤ n → is_complete n b ≡ true)
      → (n : ℕ) (c : Channel B) → IsComplete limit n c (complete_turn is_complete n c)
  completed is_complete limit ends n c =
      complete_turn-IsComplete is_complete limit ends n c.candidate c.prepared c.in_flight c.calls

module _ {ℓ κ} {K : Type ℓ} {B : Type κ} where
  total-nought : (cs : Dict K (Channel B)) → total nought cs ≡ 0
  total-nought [] = refl
  total-nought ((k, c) ∷ cs) = omega (arith, total-nought cs)

  Each-zip {μ ν} :
      (P : Channel B → Type μ) (Q : Channel B → Type ν) (R : Channel B → Type 0)
      → ((c : Channel B) → P c → Q c → R c)
      → (cs : Dict K (Channel B)) → Each P cs
      → Each Q cs
      → Each R cs
  Each-zip P Q R f [] p q = tt
  Each-zip P Q R f ((k, c) ∷ cs) p q = (f c p.0 q.0, Each-zip P Q R f cs p.1 q.1)

  -- If each channel with something left has a bucket in flight, and something is left, one is.
  pub total-flying :
      (cs : Dict K (Channel B))
      → Each (λ c. 0 < left c → 0 < flying c) cs
      → 0 < total left cs
      → 0 < total flying cs
  total-flying [] e h = h
  total-flying ((k, c) ∷ cs) e h = ground (arith, total-flying cs e.1, e.0)

  total-none :
      (f : Channel B → ℕ) (cs : Dict K (Channel B)) → Each (λ c. f c ≡ 0) cs → total f cs ≡ 0
  total-none f [] h = refl
  total-none f ((k, c) ∷ cs) h = omega (arith, h.0, total-none f cs h.1)

  pub total-left :
      (cs : Dict K (Channel B))
      → total left cs ≡ total waiting cs + total ready cs + total flying cs
  total-left [] = refl
  total-left ((k, c) ∷ cs) = omega (arith, total-left cs)

  pub has_work-total : (cs : Dict K (Channel B)) → has_work cs ≡ true → 0 < total left cs
  unfolding has_work
  has_work-total [] h = cc
  has_work-total ((k, c) ∷ cs) h = ground (arith, has_work-total cs)

  -- After the first pass nothing was lost, the clock is the same or later, and the room is used.
  pub after_prepare :
      (m fuel : ℕ) (s : State K B)
      → 0 < m
      → total waiting s.channels < fuel
      → (t : State K B) × (pass (prepare_turn m) fuel s ≡ some t)
        × (s.clock ≤ t.clock)
        × (total left t.channels ≡ total left s.channels)
        × Each (λ c. 0 < waiting c → 0 < ready c + flying c) t.channels
  after_prepare m fuel s room h =
      let (t, e) =
        pass-ends (prepare_turn m) waiting (λ n c. ((prepared m n c).less, (prepared m n c).spent))
          fuel s h in
      let same =
        pass-Balances (prepare_turn m) left nought
          (λ n c. omega (arith, (prepared m n c).moved, (prepared m n c).flying_same)) fuel s t e in
      (
        t,
        e,
        omega (
          arith,
          sweep-Ticks (prepare_turn m) (prepare_turn-Ticks m) s.clock s.channels,
          pass-Ticks (prepare_turn m) (prepare_turn-Ticks m) fuel s t e,
        ),
        omega (arith, same, total-nought s.channels, total-nought t.channels),
        pass-Settles (λ c. 0 < waiting c → 0 < ready c + flying c) (prepare_turn m) 0
            (prepare_turn-Ticks m) (λ n c z idle any. omega (arith, (prepared m n c).full idle any))
            fuel s t e (omega arith),
      )

  -- After the second, every channel that has anything left has a bucket in flight.
  pub after_launch :
      (fuel : ℕ) (s : State K B)
      → total ready s.channels < fuel
      → Each (λ c. 0 < waiting c → 0 < ready c + flying c) s.channels
      → (t : State K B) × (pass launch_turn fuel s ≡ some t)
        × (s.clock ≤ t.clock)
        × (total left t.channels ≡ total left s.channels)
        × Each (λ c. 0 < left c → 0 < flying c) t.channels
  after_launch fuel s h used =
      let (t, e) =
        pass-ends launch_turn ready (λ n c. ((launched n c).less, (launched n c).spent)) fuel s h in
      let same =
        pass-Balances launch_turn left nought
          (λ n c. omega (arith, (launched n c).moved, (launched n c).waiting_same)) fuel s t e in
      let still =
        pass-Keeps
          (λ (u : State K B). Each (λ c. 0 < waiting c → 0 < ready c + flying c) u.channels)
          launch_turn
          (λ u.
            Each-sweep (λ c. 0 < waiting c → 0 < ready c + flying c) launch_turn
              (λ n c p any.
                omega (arith, p (omega (arith, (launched n c).waiting_same)), (launched n c).moved))
              u.clock u.channels)
          fuel s t e used in
      let none_ready =
        pass-Settles (λ c. ready c ≡ 0) launch_turn 0 launch_turn-Ticks
          (λ n c z idle. (launched n c).all idle) fuel s t e (omega arith) in
      (
        t,
        e,
        omega (
          arith,
          sweep-Ticks launch_turn launch_turn-Ticks s.clock s.channels,
          pass-Ticks launch_turn launch_turn-Ticks fuel s t e,
        ),
        omega (arith, same, total-nought s.channels, total-nought t.channels),
        Each-zip (λ c. 0 < waiting c → 0 < ready c + flying c) (λ c. ready c ≡ 0)
            (λ c. 0 < left c → 0 < flying c) (λ c p q any. ground arith) t.channels still
            none_ready,
      )

  module _ (is_complete : ℕ → B → Bool) (limit : ℕ)
      (ends : (n : ℕ) (b : B) → limit ≤ n → is_complete n b ≡ true) where
    -- After the third, less is left or the clock has moved towards the limit.
    pub after_complete :
        (fuel : ℕ) (s : State K B)
        → total flying s.channels < fuel
        → 0 < total flying s.channels
        → (t : State K B) × (pass (complete_turn is_complete) fuel s ≡ some t)
          × (total left t.channels ≤ total left s.channels)
          × ((limit - t.clock) + total left t.channels < (limit - s.clock) + total left s.channels)
    after_complete fuel s h any =
        let turn : ℕ → Channel B → Turn B = complete_turn is_complete in
        let at_once : (n : ℕ) (c : Channel B) → IsComplete limit n c (turn n c) =
          completed is_complete limit ends in
        let ticks : Ticks turn = λ n c. (at_once n c).ticks in
        let spends : Spends turn flying = λ n c. ((at_once n c).less, (at_once n c).spent) in
        let (t, e) = pass-ends turn flying spends fuel s h in
        let balance : total left t.channels + total flying s.channels
            ≡ total left s.channels + total flying t.channels =
          pass-Balances turn left flying
            (λ n c. omega (arith, (at_once n c).ready_same, (at_once n c).waiting_same)) fuel s t
            e in
        let fewer : total flying t.channels ≤ total flying s.channels =
          pass-Spends turn flying spends fuel s t e in
        let moved : s.clock < t.clock = omega (
          arith,
          sweep-clock turn flying ticks (λ n c. (at_once n c).moves) s.clock s.channels any,
          pass-Ticks turn ticks fuel s t e,
        ) in
        let all : limit ≤ s.clock → total flying t.channels ≡ 0 = λ late.
          total-none flying t.channels (
            pass-Settles (λ c. flying c ≡ 0) turn limit ticks (λ n c. (at_once n c).all) fuel s t e
              late) in
        (t, e, omega arith, ground arith)
