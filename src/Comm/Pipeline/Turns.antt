-- ===== src/Comm/Pipeline/Turns.antt =====
-- A sweep and a pass of the pipeline in comm_methods.py keep what each turn of a channel keeps.
use etha.Prelude.{
  pair_eq, ℕ, zero, suc, ◌≡◌, refl, sym, subst, ◌∙◌, inl, inr, Bool, true, false, Option, none,
  some, arith, nat_eq, list_eq, Bool-cases,
}
use etha.Comm.Pipeline.{
  Channel, Turn, State, sweep, pass, prepare_turn, launch_turn, complete_turn, round, work_loop,
  has_work, ◌>>=◌,
}

-- The state after one sweep.
abbrev pub swept {ℓ κ} :
    {K : Type ℓ} {B : Type κ} → (ℕ → Channel B → Turn B) → State K B → State K B
swept turn s =
    let w = sweep turn s.clock s.channels in record { clock = w.clock; channels = w.channels }

pub >>=-some {ℓ κ} :
    {A : Type ℓ} {B : Type κ} (o : Option A) (f : A → Option B) (b : B)
    → (o >>= f) ≡ some b
    → (a : A) × (o ≡ some a) × (f a ≡ some b)
>>=-some none f b h = cc
>>=-some (some a) f b h = (a, refl, h)

-- A turn of the main loop, as equations.
module _ {ℓ κ} {K : Type ℓ} {B : Type κ} (max_in_flight : ℕ) (is_complete : ℕ → B → Bool) where
  pub work_loop-more :
      (pass_fuel fuel : ℕ) (s : State K B)
      → has_work s.channels ≡ true
      → work_loop max_in_flight is_complete pass_fuel (suc fuel) s ≡ (
          round max_in_flight is_complete pass_fuel s
          >>= work_loop max_in_flight is_complete pass_fuel fuel)
  unfolding work_loop
  work_loop-more pass_fuel fuel s h = rw (work_loop, h) refl

  pub work_loop-less :
      (pass_fuel fuel : ℕ) (s : State K B)
      → has_work s.channels ≡ false
      → work_loop max_in_flight is_complete pass_fuel (suc fuel) s ≡ some s
  unfolding work_loop
  work_loop-less pass_fuel fuel s h = rw (work_loop, h) refl

module _ {ℓ κ μ} {K : Type ℓ} {B : Type κ} (P : State K B → Type μ) where
  abbrev pub Keeps : (ℕ → Channel B → Turn B) → Type (ℓ ⊔ κ ⊔ μ)
  Keeps turn = (s : State K B) → P s → P (swept turn s)

  pub pass-Keeps :
      (turn : ℕ → Channel B → Turn B)
      → Keeps turn
      → (fuel : ℕ) (s t : State K B) → pass turn fuel s ≡ some t
      → P s
      → P t
  unfolding pass
  pass-Keeps turn keep zero s t e h = cc
  pass-Keeps turn keep (suc fuel) s t e h =
      let kept : P (swept turn s) = keep s h in
      ground (arith, kept, pass-Keeps turn keep fuel (swept turn s) t)

  pub round-Keeps :
      (max_in_flight : ℕ) (is_complete : ℕ → B → Bool)
      → Keeps (prepare_turn max_in_flight)
      → Keeps launch_turn
      → Keeps (complete_turn is_complete)
      → (fuel : ℕ) (s t : State K B) → round max_in_flight is_complete fuel s ≡ some t
      → P s
      → P t
  unfolding round
  round-Keeps m done keep_p keep_l keep_c fuel s t e h =
      let (p, ep, rest) =
        >>=-some (pass (prepare_turn m) fuel s)
          (λ p. pass launch_turn fuel p >>= λ l. pass (complete_turn done) fuel l) t e in
      let (l, el, last) =
        >>=-some (pass launch_turn fuel p) (pass (complete_turn done) fuel) t rest in
      pass-Keeps (complete_turn done) keep_c fuel l t last (
        pass-Keeps launch_turn keep_l fuel p l el
          (pass-Keeps (prepare_turn m) keep_p fuel s p ep h))

  pub work_loop-Keeps :
      (max_in_flight : ℕ) (is_complete : ℕ → B → Bool)
      → Keeps (prepare_turn max_in_flight)
      → Keeps launch_turn
      → Keeps (complete_turn is_complete)
      → (pass_fuel fuel : ℕ) (s t : State K B)
      → work_loop max_in_flight is_complete pass_fuel fuel s ≡ some t
      → P s
      → P t × (has_work t.channels ≡ false)
  unfolding work_loop
  work_loop-Keeps m done p l f pass_fuel zero s t e h = cc
  work_loop-Keeps m done p l f pass_fuel (suc fuel) s t e h =
      elim (Bool-cases (has_work s.channels)) [
        | inl more ↦
            let (u, eu, rest) =
              >>=-some (round m done pass_fuel s) (work_loop m done pass_fuel fuel) t
                (sym (work_loop-more m done pass_fuel fuel s more) ∙ e) in
            work_loop-Keeps m done p l f pass_fuel fuel u t rest
              (round-Keeps m done p l f pass_fuel s u eu h)
        | inr less ↦
            let same : s ≡ t = ground (arith, work_loop-less m done pass_fuel fuel s less, e) in
            (subst P same h, subst (λ (u : State K B). has_work u.channels ≡ false) same less)
      ]
