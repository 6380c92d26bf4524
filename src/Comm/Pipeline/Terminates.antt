-- ===== src/Comm/Pipeline/Terminates.antt =====
-- bucket_comm of comm_methods.py ends when the collectives do.
use etha.Prelude.{
  pair_eq, ℕ, zero, suc, ◌+◌, ◌-◌, ◌≤◌, ◌<◌, ◌≡◌, ◌∙◌, inl, inr, Bool, true, some, List, [], ◌∷◌,
  ◌++◌, arith, ◌==◌, Eq, nat_eq, list_eq, Bool-cases, length, length-append,
}
use etha.Prelude.Dict.{Dict, insert}
use etha.Comm.Pipeline.{
  add_candidate, add_candidates, bucket_comm, Channel, State, round, work_loop, has_work,
  add_candidates, add_candidate, bucket_comm,
}
use etha.Comm.Pipeline.Fifo.{at}
use etha.Comm.Pipeline.Turns.{work_loop-more, work_loop-less}
use etha.Comm.Pipeline.Progress.{total}
use etha.Comm.Pipeline.Passes.{
  left, total-flying, has_work-total, total-left, after_prepare, after_launch, after_complete,
}

module _ {ℓ κ} {K : Type ℓ} {B : Type κ} where
  module _ (is_complete : ℕ → B → Bool) (limit : ℕ)
      (ends : (n : ℕ) (b : B) → limit ≤ n → is_complete n b ≡ true) where
    abbrev measure : State K B → ℕ
    measure s = (limit - s.clock) + total left s.channels

    round-ends :
        (m fuel : ℕ) (s : State K B)
        → 0 < m
        → total left s.channels < fuel
        → has_work s.channels ≡ true
        → (t : State K B) × (round m is_complete fuel s ≡ some t)
          × (total left t.channels ≤ total left s.channels)
          × (measure t < measure s)
    unfolding round
    round-ends m fuel s room h more =
        let parts = total-left s.channels in
        let (p, ep, clock_p, left_p, used) = after_prepare m fuel s room (omega arith) in
        let parts_p = total-left p.channels in
        let (l, el, clock_l, left_l, each) = after_launch fuel p (omega arith) used in
        let parts_l = total-left l.channels in
        let any = has_work-total s.channels more in
        let flies = total-flying l.channels each (omega arith) in
        let (t, et, left_t, down) =
          after_complete is_complete limit ends fuel l (omega arith) flies in
        (t, rw (ep, el) et, omega arith, omega arith)

    work_loop-ends :
        (m pass_fuel fuel : ℕ) (s : State K B)
        → 0 < m
        → total left s.channels < pass_fuel
        → measure s < fuel
        → (t : State K B) × (work_loop m is_complete pass_fuel fuel s ≡ some t)
    work_loop-ends m pass_fuel zero s room h lasts = absurd (omega arith)
    work_loop-ends m pass_fuel (suc fuel) s room h lasts = elim (Bool-cases (has_work s.channels)) [
      | inl more ↦
          let (t, e, fewer, down) = round-ends m pass_fuel s room h more in
          let (u, eu) = work_loop-ends m pass_fuel fuel t room (omega arith) (omega arith) in
          (u, work_loop-more m is_complete pass_fuel fuel s more ∙ rw e eu)
      | inr less ↦ (s, work_loop-less m is_complete pass_fuel fuel s less)
    ]

module _ {ℓ κ} {K : Type ℓ} ⦃e : Eq K⦄ {B : Type κ} where
  total-insert :
      (k : K) (c : Channel B) (cs : Dict K (Channel B))
      → total left (insert k c cs) + left (at k cs) ≡ total left cs + left c
  total-insert k c [] = omega arith
  total-insert k c ((j, d) ∷ cs) = elim (Bool-cases (k == j)) [
    | inl own ↦ rw own (omega arith)
    | inr other ↦ rw other (omega (arith, total-insert k c cs))
  ]

  total-add_candidates :
      (key : B → K) (bs : List B) (cs : Dict K (Channel B))
      → total left (add_candidates key bs cs) ≡ length bs + total left cs
  unfolding add_candidates add_candidate
  total-add_candidates key [] cs = omega arith
  total-add_candidates key (b ∷ bs) cs =
      let c : Channel B = at (key b) cs in
      let d : Channel B = record c { candidate = c.candidate ++ b ∷ [] } in
      omega (
        arith,
        total-insert (key b) d cs,
        length-append c.candidate (b ∷ []),
        total-add_candidates key bs (insert (key b) d cs),
      )

  -- The pipeline returns when at least one bucket may be in flight and, from some number of calls of
  -- `is_complete` on, each of them is true: fuel above that number plus the buckets is enough.
  pub bucket_comm-ends :
      (key : B → K) (is_complete : ℕ → B → Bool) (limit : ℕ)
      → ((n : ℕ) (b : B) → limit ≤ n → is_complete n b ≡ true)
      → (m fuel : ℕ) (buckets : List B) → 0 < m
      → limit + length buckets < fuel
      → (s : State K B) × (bucket_comm key buckets m is_complete fuel ≡ some s)
  unfolding bucket_comm
  bucket_comm-ends key is_complete limit ends m fuel buckets room h =
      let all = total-add_candidates key buckets [] in
      work_loop-ends is_complete limit ends m fuel fuel
        (record { clock = 0; channels = add_candidates key buckets [] }) room (omega arith)
        (omega arith)
