-- ===== src/KvStore/Polling.antt =====
-- The waits of TorchTCPStore in src/etha/kvstore/tcp.py end.
use etha.Prelude.{
  pair_eq, nat_beq, nat_beq_iff, ℕ, zero, suc, ◌+◌, ◌-◌, ◌≤◌, ◌<◌, ◌≡◌, refl, subst, ◌≢◌, ◌⊎◌, inl,
  inr, Option, none, some, arith, leb, nat_eq, list_eq, Bool-cases, Option-cases,
}
use etha.Prelude.Sorting.{lex_order}
use etha.KvStore.{Text, KvNames, prefixed}
use etha.KvStore.Tcp.{
  TcpBackend, Wait, found, timed_out, wait_loop, wait_for_key, poll_value, not_empty,
}

-- How a wait from poll `i` on ends, when the time is up at poll `n`: at the first poll that shows a
-- value, unless the time was up at an earlier poll that shows none.
pub record Found {ℓ} {S : Type ℓ} (check : S → Option Text) (servers : ℕ → S) (elapsed : ℕ → ℕ)
    (timeout i n : ℕ) (w : Wait Text) : Type 0 where
  pub at : ℕ
  pub value : Text
  pub from : i ≤ at
  pub until : at ≤ n
  pub shown : check (servers at) ≡ some value
  pub first : (j : ℕ) → i ≤ j → j < at → (check (servers j) ≡ none) × (elapsed j < timeout)
  pub ends : w ≡ found value

pub record TimedOut {ℓ} {S : Type ℓ} (check : S → Option Text) (servers : ℕ → S) (elapsed : ℕ → ℕ)
    (timeout i n : ℕ) (w : Wait Text) : Type 0 where
  pub at : ℕ
  pub from : i ≤ at
  pub until : at ≤ n
  pub none_shown : (j : ℕ) → i ≤ j → j ≤ at → check (servers j) ≡ none
  pub late : timeout ≤ elapsed at
  pub ends : w ≡ timed_out

module _ {ℓ} {S : Type ℓ} (check : S → Option Text) (servers : ℕ → S) (elapsed : ℕ → ℕ)
    (timeout : ℕ) where
  abbrev pub Outcome : ℕ → ℕ → Wait Text → Type 0
  Outcome i n w =
      Found check servers elapsed timeout i n w ⊎ TimedOut check servers elapsed timeout i n w

  -- One more poll before those that a statement speaks of.
  at_or_later :
      (P : ℕ → Type 0) (i k : ℕ)
      → P i
      → ((j : ℕ) → suc i ≤ j → j ≤ k → P j)
      → (j : ℕ) → i ≤ j
      → j ≤ k
      → P j
  at_or_later P i k now later j p q = elim (Bool-cases (nat_beq i j)) [
    | inl same ↦ subst P ((nat_beq_iff i j).0 same) now
    | inr other ↦ later j (ground (arith, nat_beq_iff i j)) q
  ]

  later_outcome :
      (i n : ℕ) (w : Wait Text)
      → check (servers i) ≡ none
      → elapsed i < timeout
      → Outcome (suc i) n w
      → Outcome i n w
  later_outcome i n w e t (inl f) = inl (record {
    at = f.at;
    value = f.value;
    from = omega (arith, f.from);
    until = f.until;
    shown = f.shown;
    first = λ j p q.
        at_or_later (λ j. (check (servers j) ≡ none) × (elapsed j < timeout)) i (f.at - 1) (e, t)
          (λ k r l. f.first k r (omega (arith, f.from))) j p (omega arith);
    ends = f.ends;
  })
  later_outcome i n w e t (inr o) = inr (record {
    at = o.at;
    from = omega (arith, o.from);
    until = o.until;
    none_shown = at_or_later (λ j. check (servers j) ≡ none) i o.at e o.none_shown;
    late = o.late;
    ends = o.ends;
  })

  -- The clock passes the timeout at poll `n`, so the polls from `i` to `n` are enough.
  wait_loop-Outcome :
      (n : ℕ)
      → timeout ≤ elapsed n
      → (fuel i : ℕ) → i + fuel ≡ suc n
      → i ≤ n
      → Outcome i n (wait_loop check servers elapsed timeout fuel i)
  unfolding wait_loop
  wait_loop-Outcome n up zero i e h = absurd (omega arith)
  wait_loop-Outcome n up (suc fuel) i e h =
      let later : Wait Text = wait_loop check servers elapsed timeout fuel (suc i) in
      elim (Option-cases (check (servers i))) [
        | inl nothing ↦ elim (Bool-cases (leb timeout (elapsed i))) [
          | inl late ↦ inr (record {
            at = i;
            from = omega arith;
            until = h;
            none_shown = λ j p q.
                let same : i ≡ j = omega arith in
                subst (λ k. check (servers k) ≡ none) same nothing;
            late = ground arith;
            ends = rw (wait_loop, nothing, late) refl;
          })
          | inr early ↦
              let not_yet : i ≢ n = λ same. ground (arith, up) in
              let rest : Outcome (suc i) n later =
                wait_loop-Outcome n up fuel (suc i) (omega arith) (omega arith) in
              rw (wait_loop, nothing, early) (later_outcome i n later nothing (ground arith) rest)
        ]
        | inr (v, shown) ↦ inl (record {
          at = i;
          value = v;
          from = omega arith;
          until = h;
          shown = shown;
          first = λ j p q. absurd (omega arith);
          ends = rw (wait_loop, shown) refl;
        })
      ]

module _ {ℓ} {S : Type ℓ} (b : TcpBackend S) where
  -- `wait_for_key` ends when its time is up: it returns the value of the key at the first poll at which
  -- the key is there and not empty, or raises if there is none before.
  pub wait_for_key-Outcome :
      (names : KvNames) (key : Text) (timeout : ℕ) (component : Option Text) (servers : ℕ → S)
      (elapsed : ℕ → ℕ) (n : ℕ)
      → timeout ≤ elapsed n
      → Outcome
          (poll_value b not_empty (prefixed names key component))
          servers
          elapsed
          timeout
          0
          n
          (wait_for_key b names key timeout component servers elapsed (suc n))
  unfolding wait_for_key
  wait_for_key-Outcome names key timeout component servers elapsed n up =
      wait_loop-Outcome (poll_value b not_empty (prefixed names key component)) servers elapsed
        timeout n up (suc n) 0 (omega arith) (omega arith)
