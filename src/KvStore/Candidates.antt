-- ===== src/KvStore/Candidates.antt =====
-- wait_for_keys of src/etha/kvstore/tcp.py.
use etha.Prelude.{
  pair_eq, select, list_beq, list_beq_iff, ℕ, zero, suc, ◌+◌, ◌≤◌, ◌<◌, ◌≡◌, refl, sym, subst, ◌≢◌,
  ◌⊎◌, inl, inr, Bool, true, ◌&&◌, Option, none, some, List, [], ◌∷◌, arith, leb, ◌==◌, nat_eq,
  list_eq, if◌then◌else◌, Bool-cases, length, take, All,
}
use etha.Prelude.Sorting.{contains, add, lex_order, Ascends, Above, Ascends-add, contains-add}
use etha.KvStore.{Text, KvNames, prefixed}
use etha.KvStore.Tcp.{TcpBackend}

-- How the wait ends: with keys, with `TimeoutError`, with `ValueError`, or not within the sweeps.
pub data KeysWait : Type 0 where
  found : List Text → KeysWait
  timed_out no_candidates unfinished : KeysWait

length-take {ℓ} : {A : Type ℓ} (n : ℕ) (xs : List A) → n ≤ length xs → length (take n xs) ≡ n
length-take zero xs h = refl
length-take (suc n) [] h = absurd (omega arith)
length-take (suc n) (x ∷ xs) h = omega (arith, length-take n xs (omega arith))

All-take {ℓ κ} : {A : Type ℓ} (P : A → Type κ) (n : ℕ) (xs : List A) → All P xs → All P (take n xs)
All-take P zero xs h = tt
All-take P (suc n) [] h = tt
All-take P (suc n) (x ∷ xs) h = (h.0, All-take P n xs h.1)

Above-take : (a : Text) (n : ℕ) (xs : List Text) → Above a xs → Above a (take n xs)
Above-take a zero xs h = tt
Above-take a (suc n) [] h = tt
Above-take a (suc n) (x ∷ xs) h = (h.0, Above-take a n xs h.1)

Ascends-take : (n : ℕ) (xs : List Text) → Ascends xs → Ascends (take n xs)
Ascends-take zero xs h = tt
Ascends-take (suc n) [] h = tt
Ascends-take (suc n) (x ∷ xs) h = (Above-take x n xs h.0, Ascends-take n xs h.1)

contains_suffix :
    (xs ys : List Text)
    → ((k : Text) → contains xs k ≡ true → contains ys k ≡ true)
    → All (λ k. contains ys k ≡ true) xs
contains_suffix [] ys h = tt
contains_suffix (x ∷ xs) ys h =
    (h x (ground (arith, list_beq_iff x x)), contains_suffix xs ys (λ k e. h k (ground (arith, e))))

contains_self : (xs : List Text) → All (λ k. contains xs k ≡ true) xs
contains_self xs = contains_suffix xs xs (λ k e. e)

module _ {ℓ} {S : Type ℓ} (b : TcpBackend S) (names : KvNames) (component : Option Text)
    (value : Text) where
  -- Whether the key has the value, in one state of the server.
  unfoldable pub has_value : S → Text → Bool
  has_value s key =
      b.check s (prefixed names key component) && b.get s (prefixed names key component) == value

  -- `for key in candidates`; each key is polled in a state of its own.
  unfoldable pub poll_candidates : (Text → S) → List Text → List Text → List Text
  unfolding has_value
  poll_candidates servers [] matched = matched
  poll_candidates servers (k ∷ ks) matched = poll_candidates servers ks (
      if contains matched k
      then matched
      else if has_value (servers k) k
      then add k matched
      else matched)

  -- The sweeps from the one numbered `sweep` on. The keys are kept sorted.
  unfoldable pub keys_loop :
      (ℕ → Text → S) → (ℕ → ℕ) → ℕ → ℕ → List Text → ℕ → ℕ → List Text → KeysWait
  unfolding poll_candidates
  keys_loop servers elapsed timeout expected_count candidates zero sweep matched = unfinished
  keys_loop servers elapsed timeout expected_count candidates (suc fuel) sweep matched =
      let polled = poll_candidates (servers sweep) candidates matched in
      let later =
        keys_loop servers elapsed timeout expected_count candidates fuel (suc sweep) polled in
      if leb expected_count (length matched)
      then found (take expected_count matched)
      else if leb timeout (elapsed sweep)
      then timed_out
      else later

  -- `fnmatch` is Python's.
  unfoldable pub wait_for_keys :
      (Text → Text → Bool)
      → Text
      → ℕ
      → ℕ
      → Option (List Text)
      → (ℕ → Text → S)
      → (ℕ → ℕ)
      → ℕ
      → KeysWait
  unfolding keys_loop
  wait_for_keys fnmatch key_pattern expected_count timeout none servers elapsed fuel = no_candidates
  wait_for_keys fnmatch key_pattern expected_count timeout (some candidate_keys) servers elapsed
        fuel =
      keys_loop servers elapsed timeout expected_count
        (select (λ k. fnmatch k key_pattern) candidate_keys) fuel 0 []

  -- What a returned key has: it is a candidate, and some sweep saw the value.
  pub record IsMatched (servers : ℕ → Text → S) (candidates : List Text) (k : Text) : Type 0 where
    candidate : contains candidates k ≡ true
    sweep : ℕ
    seen : has_value (servers sweep k) k ≡ true

  All-add : (P : Text → Type 0) (k : Text) (xs : List Text) → P k → All P xs → All P (add k xs)
  unfolding add
  All-add P k [] p h = (p, tt)
  All-add P k (x ∷ xs) p h = ground (arith, All-add P k xs p h.1, h.0, h.1, p)

  poll_candidates-IsMatched :
      (servers : ℕ → Text → S) (candidates : List Text) (sweep : ℕ) (ks matched : List Text)
      → All (λ k. contains candidates k ≡ true) ks
      → Ascends matched
      → All (IsMatched servers candidates) matched
      → Ascends (poll_candidates (servers sweep) ks matched)
        × All (IsMatched servers candidates) (poll_candidates (servers sweep) ks matched)
  unfolding poll_candidates
  poll_candidates-IsMatched servers candidates sweep [] matched c a h = (a, h)
  poll_candidates-IsMatched servers candidates sweep (k ∷ ks) matched c a h =
      elim (Bool-cases (contains matched k)) [
        | inl known ↦
            rw known (poll_candidates-IsMatched servers candidates sweep ks matched c.1 a h)
        | inr new ↦ elim (Bool-cases (has_value (servers sweep k) k)) [
          | inl seen ↦
              let found : IsMatched servers candidates k = record {
                candidate = c.0;
                sweep = sweep;
                seen = seen;
              } in
              rw (new, seen)
                (poll_candidates-IsMatched servers candidates sweep ks (add k matched) c.1
                  (Ascends-add k matched a)
                  (All-add (IsMatched servers candidates) k matched found h))
          | inr not_seen ↦
              rw (new, not_seen)
                (poll_candidates-IsMatched servers candidates sweep ks matched c.1 a h)
        ]
      ]

  -- The keys that are returned: as many as expected, ascending, each matched.
  pub record Answers (servers : ℕ → Text → S) (candidates : List Text) (n : ℕ) (w : KeysWait)
      : Type 0 where
    keys : List Text
    ends : w ≡ found keys
    count : length keys ≡ n
    ascends : Ascends keys
    matched : All (IsMatched servers candidates) keys

  -- Why a wait is out of time at a sweep: it is late, and there are fewer keys than expected among
  -- the candidates, though they have all that an earlier sweep saw with the value.
  pub record RunsOut (servers : ℕ → Text → S) (elapsed : ℕ → ℕ) (candidates : List Text)
      (timeout n last : ℕ) (w : KeysWait) : Type 0 where
    ends : w ≡ timed_out
    sweep : ℕ
    in_time : sweep ≤ last
    late : timeout ≤ elapsed sweep
    keys : List Text
    ascends : Ascends keys
    few : length keys < n
    complete :
        (i : ℕ) (k : Text)
        → i < sweep
        → contains candidates k ≡ true
        → has_value (servers i k) k ≡ true
        → contains keys k ≡ true

  kept_by_add :
      (x : Text) (matched : List Text) (k : Text)
      → contains matched k ≡ true
      → contains (add x matched) k ≡ true
  kept_by_add x matched k h = ground (arith, contains-add x k matched, h)

  poll_candidates-keeps :
      (servers : Text → S) (ks matched : List Text) (k : Text)
      → contains matched k ≡ true
      → contains (poll_candidates servers ks matched) k ≡ true
  unfolding poll_candidates
  poll_candidates-keeps servers [] matched k h = h
  poll_candidates-keeps servers (x ∷ ks) matched k h = elim (Bool-cases (contains matched x)) [
    | inl known ↦ rw known (poll_candidates-keeps servers ks matched k h)
    | inr new ↦ elim (Bool-cases (has_value (servers x) x)) [
      | inl seen ↦
          rw (new, seen)
            (poll_candidates-keeps servers ks (add x matched) k (kept_by_add x matched k h))
      | inr not_seen ↦ rw (new, not_seen) (poll_candidates-keeps servers ks matched k h)
    ]
  ]

  -- A candidate that a sweep sees with the value is among the keys after it.
  poll_candidates-sees :
      (servers : Text → S) (ks matched : List Text) (k : Text)
      → contains ks k ≡ true
      → has_value (servers k) k ≡ true
      → contains (poll_candidates servers ks matched) k ≡ true
  unfolding poll_candidates
  poll_candidates-sees servers [] matched k h v = cc
  poll_candidates-sees servers (x ∷ ks) matched k h v =
      let next : List Text =
        if contains matched x
        then matched
        else if has_value (servers x) x
        then add x matched
        else matched in
      elim (Bool-cases (contains ks k)) [
        | inl later ↦ poll_candidates-sees servers ks next k later v
        | inr not_later ↦
            let now : list_beq k x ≡ true = ground (arith, h, not_later) in
            let same : k ≡ x = (list_beq_iff k x).0 now in
            let seen : has_value (servers x) x ≡ true =
              subst (λ (y : Text). has_value (servers y) y ≡ true) same v in
            poll_candidates-keeps servers ks next k (elim (Bool-cases (contains matched x)) [
              | inl known ↦
                  rw known (subst (λ (y : Text). contains matched y ≡ true) (sym same) known)
              | inr new ↦ rw (new, seen) (ground (arith, contains-add x k matched, now))
            ])
      ]

  seen_after :
      (servers : ℕ → Text → S) (candidates : List Text) (sweep : ℕ) (matched : List Text)
      → ((i : ℕ) (k : Text)
          → i < sweep
          → contains candidates k ≡ true
          → has_value (servers i k) k ≡ true
          → contains matched k ≡ true)
      → (i : ℕ) (k : Text) → i < suc sweep
      → contains candidates k ≡ true
      → has_value (servers i k) k ≡ true
      → contains (poll_candidates (servers sweep) candidates matched) k ≡ true
  seen_after servers candidates sweep matched seen i k below c v = elim (Bool-cases (i == sweep)) [
    | inl now ↦
        let same : i ≡ sweep = ground (arith, now) in
        poll_candidates-sees (servers sweep) candidates matched k c
          (subst (λ (j : ℕ). has_value (servers j k) k ≡ true) same v)
    | inr not_now ↦
        poll_candidates-keeps (servers sweep) candidates matched k
          (seen i k (ground (arith, below, not_now)) c v)
  ]

  keys_loop-Answers :
      (servers : ℕ → Text → S) (elapsed : ℕ → ℕ) (timeout count : ℕ) (candidates : List Text)
      (n : ℕ)
      → timeout ≤ elapsed n
      → (fuel sweep : ℕ) (matched : List Text) → sweep + fuel ≡ suc n
      → sweep ≤ n
      → Ascends matched
      → All (IsMatched servers candidates) matched
      → ((i : ℕ) (k : Text)
          → i < sweep
          → contains candidates k ≡ true
          → has_value (servers i k) k ≡ true
          → contains matched k ≡ true)
      → let w : KeysWait = keys_loop servers elapsed timeout count candidates fuel sweep matched in
        Answers servers candidates count w ⊎ RunsOut servers elapsed candidates timeout count n w
  unfolding keys_loop
  keys_loop-Answers servers elapsed timeout count candidates n up zero sweep matched e h a m seen =
      absurd (omega arith)
  keys_loop-Answers servers elapsed timeout count candidates n up (suc fuel) sweep matched e h a m
        seen =
      elim (Bool-cases (leb count (length matched))) [
        | inl enough ↦ rw enough (
            inl (record {
              keys = take count matched;
              ends = refl;
              count = length-take count matched (ground arith);
              ascends = Ascends-take count matched a;
              matched = All-take (IsMatched servers candidates) count matched m;
            }))
        | inr few ↦ elim (Bool-cases (leb timeout (elapsed sweep))) [
          | inl late ↦
              rw (few, late)
                (inr (record {
                  ends = refl;
                  sweep = sweep;
                  in_time = h;
                  late = ground arith;
                  keys = matched;
                  ascends = a;
                  few = ground arith;
                  complete = seen;
                }))
          | inr early ↦
              let not_yet : sweep ≢ n = λ same. ground (arith, up) in
              let polled : List Text = poll_candidates (servers sweep) candidates matched in
              let (a', m') =
                poll_candidates-IsMatched servers candidates sweep candidates matched
                  (contains_self candidates) a m in
              let seen' : (i : ℕ) (k : Text)
                  → i < suc sweep
                  → contains candidates k ≡ true
                  → has_value (servers i k) k ≡ true
                  → contains polled k ≡ true =
                λ i k below c v. seen_after servers candidates sweep matched seen i k below c v in
              rw (few, early)
                (keys_loop-Answers servers elapsed timeout count candidates n up fuel (suc sweep)
                  polled (omega arith) (omega arith) a' m' seen')
        ]
      ]

  -- `wait_for_keys` with candidates ends when its time is up. It returns as many keys as expected,
  -- different and ascending, each a candidate of the pattern that some sweep saw with the value; or it
  -- raises at a sweep that is late, and then the candidates that the sweeps before it saw with the
  -- value are among fewer different keys than expected.
  pub wait_for_keys-Answers :
      (fnmatch : Text → Text → Bool) (key_pattern : Text) (count timeout : ℕ)
      (candidate_keys : List Text) (servers : ℕ → Text → S) (elapsed : ℕ → ℕ) (n : ℕ)
      → timeout ≤ elapsed n
      → let w : KeysWait =
          wait_for_keys fnmatch key_pattern count timeout
            (some candidate_keys)
            servers
            elapsed
            (suc n) in
        let candidates = select (λ k. fnmatch k key_pattern) candidate_keys in
        Answers servers candidates count w ⊎ RunsOut servers elapsed candidates timeout count n w
  unfolding wait_for_keys
  wait_for_keys-Answers fnmatch key_pattern count timeout candidate_keys servers elapsed n up =
      keys_loop-Answers servers elapsed timeout count
        (select (λ k. fnmatch k key_pattern) candidate_keys) n up (suc n) 0 [] (omega arith)
        (omega arith) tt tt (λ i k below c v. absurd (omega (arith, below)))
