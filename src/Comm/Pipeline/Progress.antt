-- ===== src/Comm/Pipeline/Progress.antt =====
-- What a sweep and a pass of the pipeline in comm_methods.py use up.
use etha.Prelude.{
  pair_eq, ℕ, zero, suc, ◌+◌, ◌≤◌, ◌<◌, ◌≡◌, refl, sym, subst, ◌∙◌, inl, inr, true, false, some, [],
  ◌∷◌, arith, nat_eq, list_eq, Bool-cases,
}
use etha.Prelude.Dict.{Dict}
use etha.Comm.Pipeline.{Channel, Turn, State, sweep, pass}
use etha.Comm.Pipeline.Turns.{swept, pass-Keeps}

-- Each turn makes the number smaller when it makes progress, and never larger.
abbrev pub Spends {ℓ} : {B : Type ℓ} → (ℕ → Channel B → Turn B) → (Channel B → ℕ) → Type ℓ
Spends turn f =
    (clock : ℕ) (c : _)
    → (f (turn clock c).channel ≤ f c)
      × ((turn clock c).progress ≡ true → f (turn clock c).channel < f c)

-- No turn moves the clock back.
abbrev pub Ticks {ℓ} : {B : Type ℓ} → (ℕ → Channel B → Turn B) → Type ℓ
Ticks turn = (clock : ℕ) (c : _) → clock ≤ (turn clock c).clock

-- What a turn adds to the one number it takes from the other.
abbrev pub Balances {ℓ} :
    {B : Type ℓ} → (ℕ → Channel B → Turn B) → (Channel B → ℕ) → (Channel B → ℕ) → Type ℓ
Balances turn f g =
    (clock : ℕ) (c : _) → f (turn clock c).channel + g c ≡ f c + g (turn clock c).channel

-- What holds of a channel whose turn at the clock or later makes no progress.
abbrev pub Settles {ℓ μ} :
    {B : Type ℓ} → (ℕ → Channel B → Turn B) → ℕ → (Channel B → Type μ) → Type (ℓ ⊔ μ)
Settles turn from P =
    (clock : ℕ) (c : _) → from ≤ clock → (turn clock c).progress ≡ false → P (turn clock c).channel

module _ {ℓ κ} {K : Type ℓ} {B : Type κ} where
  -- A number of each channel, summed.
  abbrev pub total : (Channel B → ℕ) → Dict K (Channel B) → ℕ
  total f [] = 0
  total f ((k, c) ∷ cs) = f c + total f cs

  abbrev pub Each {μ} : (Channel B → Type μ) → Dict K (Channel B) → Type μ
  Each P [] = Unit
  Each P ((k, c) ∷ cs) = P c × Each P cs

  pub Each-sweep {μ} :
      (P : Channel B → Type μ) (turn : ℕ → Channel B → Turn B)
      → ((clock : ℕ) (c : Channel B) → P c → P (turn clock c).channel)
      → (clock : ℕ) (cs : Dict K (Channel B)) → Each P cs
      → Each P (sweep turn clock cs).channels
  unfolding sweep
  Each-sweep P turn keep clock [] h = tt
  Each-sweep P turn keep clock ((k, c) ∷ cs) h =
      (keep clock c h.0, Each-sweep P turn keep (turn clock c).clock cs h.1)

  sweep-Spends :
      (turn : ℕ → Channel B → Turn B) (f : Channel B → ℕ)
      → Spends turn f
      → (clock : ℕ) (cs : Dict K (Channel B))
      → (total f (sweep turn clock cs).channels ≤ total f cs)
        × ((sweep turn clock cs).made_progress ≡ true
            → total f (sweep turn clock cs).channels < total f cs)
  unfolding sweep
  sweep-Spends turn f spends clock [] = (omega arith, λ h. cc)
  sweep-Spends turn f spends clock ((k, c) ∷ cs) =
      let t : Turn B = turn clock c in
      let rest = sweep-Spends turn f spends t.clock cs in ground (arith, spends clock c, rest)

  -- A pass ends when the fuel exceeds what it has to spend.
  pub pass-ends :
      (turn : ℕ → Channel B → Turn B) (f : Channel B → ℕ)
      → Spends turn f
      → (fuel : ℕ) (s : State K B) → total f s.channels < fuel
      → (t : State K B) × (pass turn fuel s ≡ some t)
  unfolding pass
  pass-ends turn f spends zero s h = absurd (omega arith)
  pass-ends turn f spends (suc fuel) s h =
      let spent = sweep-Spends turn f spends s.clock s.channels in
      elim (Bool-cases (sweep turn s.clock s.channels).made_progress) [
        | inl more ↦
            let less : total f (swept turn s).channels < fuel = omega (arith, spent.1 more) in
            rw more (pass-ends turn f spends fuel (swept turn s) less)
        | inr last ↦ rw last (swept turn s, refl)
      ]

  pub pass-Spends :
      (turn : ℕ → Channel B → Turn B) (f : Channel B → ℕ)
      → Spends turn f
      → (fuel : ℕ) (s t : State K B) → pass turn fuel s ≡ some t
      → total f t.channels ≤ total f s.channels
  pass-Spends turn f spends fuel s t e =
      pass-Keeps (λ (u : State K B). total f u.channels ≤ total f s.channels) turn
        (λ u h. omega (arith, (sweep-Spends turn f spends u.clock u.channels).0)) fuel s t e
        (omega arith)

  pub sweep-Ticks :
      (turn : ℕ → Channel B → Turn B)
      → Ticks turn
      → (clock : ℕ) (cs : Dict K (Channel B)) → clock ≤ (sweep turn clock cs).clock
  unfolding sweep
  sweep-Ticks turn ticks clock [] = omega arith
  sweep-Ticks turn ticks clock ((k, c) ∷ cs) =
      omega (arith, ticks clock c, sweep-Ticks turn ticks (turn clock c).clock cs)

  -- A channel whose number is positive moves the clock, so a sweep over such a channel does.
  pub sweep-clock :
      (turn : ℕ → Channel B → Turn B) (f : Channel B → ℕ)
      → Ticks turn
      → ((clock : ℕ) (c : Channel B) → 0 < f c → clock < (turn clock c).clock)
      → (clock : ℕ) (cs : Dict K (Channel B)) → 0 < total f cs
      → clock < (sweep turn clock cs).clock
  unfolding sweep
  sweep-clock turn f ticks moves clock [] h = absurd (omega arith)
  sweep-clock turn f ticks moves clock ((k, c) ∷ cs) h =
      let t : Turn B = turn clock c in
      ground (
        arith,
        ticks clock c,
        moves clock c,
        sweep-Ticks turn ticks t.clock cs,
        sweep-clock turn f ticks moves t.clock cs,
      )

  pub pass-Ticks :
      (turn : ℕ → Channel B → Turn B)
      → Ticks turn
      → (fuel : ℕ) (s t : State K B) → pass turn fuel s ≡ some t
      → (swept turn s).clock ≤ t.clock
  unfolding pass
  pass-Ticks turn ticks zero s t e = cc
  pass-Ticks turn ticks (suc fuel) s t e = ground (
    arith,
    sweep-Ticks turn ticks (swept turn s).clock (swept turn s).channels,
    pass-Ticks turn ticks fuel (swept turn s) t,
  )

  sweep-Balances :
      (turn : ℕ → Channel B → Turn B) (f g : Channel B → ℕ)
      → Balances turn f g
      → (clock : ℕ) (cs : Dict K (Channel B))
      → total f (sweep turn clock cs).channels + total g cs
        ≡ total f cs + total g (sweep turn clock cs).channels
  unfolding sweep
  sweep-Balances turn f g b clock [] = refl
  sweep-Balances turn f g b clock ((k, c) ∷ cs) =
      omega (arith, b clock c, sweep-Balances turn f g b (turn clock c).clock cs)

  pub pass-Balances :
      (turn : ℕ → Channel B → Turn B) (f g : Channel B → ℕ)
      → Balances turn f g
      → (fuel : ℕ) (s t : State K B) → pass turn fuel s ≡ some t
      → total f t.channels + total g s.channels ≡ total f s.channels + total g t.channels
  pass-Balances turn f g b fuel s t e =
      pass-Keeps
        (λ (u : State K B).
          total f u.channels + total g s.channels ≡ total f s.channels + total g u.channels)
        turn (λ u h. omega (arith, h, sweep-Balances turn f g b u.clock u.channels)) fuel s t e refl

  sweep-Settles {μ} :
      (P : Channel B → Type μ) (turn : ℕ → Channel B → Turn B) (from : ℕ)
      → Ticks turn
      → Settles turn from P
      → (clock : ℕ) (cs : Dict K (Channel B)) → from ≤ clock
      → (sweep turn clock cs).made_progress ≡ false
      → Each P (sweep turn clock cs).channels
  unfolding sweep
  sweep-Settles P turn from ticks settles clock [] h e = tt
  sweep-Settles P turn from ticks settles clock ((k, c) ∷ cs) h e =
      let t : Turn B = turn clock c in
      (
        settles clock c h (ground arith),
        sweep-Settles P turn from ticks settles t.clock cs (omega (arith, ticks clock c))
            (ground arith),
      )

  pass-more :
      (turn : ℕ → Channel B → Turn B) (fuel : ℕ) (s : State K B)
      → (sweep turn s.clock s.channels).made_progress ≡ true
      → pass turn (suc fuel) s ≡ pass turn fuel (swept turn s)
  unfolding pass
  pass-more turn fuel s h = rw (pass, h) refl

  pass-last :
      (turn : ℕ → Channel B → Turn B) (fuel : ℕ) (s : State K B)
      → (sweep turn s.clock s.channels).made_progress ≡ false
      → pass turn (suc fuel) s ≡ some (swept turn s)
  unfolding pass
  pass-last turn fuel s h = rw (pass, h) refl

  pub pass-Settles {μ} :
      (P : Channel B → Type μ) (turn : ℕ → Channel B → Turn B) (from : ℕ)
      → Ticks turn
      → Settles turn from P
      → (fuel : ℕ) (s t : State K B) → pass turn fuel s ≡ some t
      → from ≤ s.clock
      → Each P t.channels
  unfolding pass
  pass-Settles P turn from ticks settles zero s t e h = cc
  pass-Settles P turn from ticks settles (suc fuel) s t e h =
      let settled = sweep-Settles P turn from ticks settles s.clock s.channels h in
      let later : from ≤ (swept turn s).clock =
        omega (arith, sweep-Ticks turn ticks s.clock s.channels) in
      elim (Bool-cases (sweep turn s.clock s.channels).made_progress) [
        | inl more ↦
            pass-Settles P turn from ticks settles fuel (swept turn s) t
              (sym (pass-more turn fuel s more) ∙ e) later
        | inr last ↦
            let same : swept turn s ≡ t = ground (arith, pass-last turn fuel s last, e) in
            subst (λ (u : State K B). Each P u.channels) same (settled last)
      ]
