-- ===== src/KvStore/Tcp.antt =====
-- src/etha/kvstore/tcp.py: the operations of TorchTCPStore on torch's TCPStore.
use etha.Prelude.{
  pair_eq, select, ℕ, zero, suc, ◌≡◌, Bool, true, false, not, Option, none, some, List, [], ltb,
  leb, ◌==◌, nat_eq, list_eq, if◌then◌else◌, length,
}
use etha.Prelude.Sorting.{add, lex_order}
use etha.KvStore.{Text, KvNames, prefixed}

-- The calls of TCPStore that are used, and what they rely on: a key is there from its first `set` on,
-- and has the value last set.
pub record TcpBackend {ℓ} (S : Type ℓ) : Type ℓ where
  pub check : S → Text → Bool
  pub get : S → Text → Text
  pub set : S → Text → Text → S
  pub check-set :
      (s : S) (k j v : Text) → check (set s k v) j ≡ (if j == k then true else check s j)
  pub get-set : (s : S) (k j v : Text) → get (set s k v) j ≡ (if j == k then v else get s j)

-- A handle on the store: its names, the server's state and `_known_keys`.
pub record TcpStore {ℓ} (S : Type ℓ) : Type ℓ where
  pub names : KvNames
  pub server : S
  pub known_keys : List Text

-- How a wait ends: with a result, with `TimeoutError`, with `ValueError`, or not within the polls.
pub data Wait {ℓ} (A : Type ℓ) : Type ℓ where
  found : A → Wait A
  timed_out no_candidates unfinished : Wait A

-- The polls from the one numbered `poll` on, as many as the fuel.
unfoldable pub wait_loop {ℓ} :
    {S : Type ℓ} → (S → Option Text) → (ℕ → S) → (ℕ → ℕ) → ℕ → ℕ → ℕ → Wait Text
wait_loop check servers elapsed timeout zero poll = unfinished
wait_loop check servers elapsed timeout (suc fuel) poll =
    let later = wait_loop check servers elapsed timeout fuel (suc poll) in
    elim (check (servers poll)) [
      | some value ↦ found value
      | none ↦ if leb timeout (elapsed poll) then timed_out else later
    ]

-- `if value:  # not empty (deleted)`
abbrev pub not_empty : Text → Bool
not_empty v = ltb 0 (length v)

module _ {ℓ} {S : Type ℓ} (b : TcpBackend S) where
  unfoldable pub set : TcpStore S → Text → Text → Option Text → TcpStore S
  set s key value component = record s {
    server = b.set s.server (prefixed s.names key component) value;
    known_keys = add key s.known_keys;
  }

  unfoldable pub get : TcpStore S → Text → Option Text → Option Text
  get s key component =
      if b.check s.server (prefixed s.names key component)
      then some (b.get s.server (prefixed s.names key component))
      else none

  unfoldable pub exists : TcpStore S → Text → Option Text → Bool
  exists s key component = b.check s.server (prefixed s.names key component)

  -- `delete` sets the empty text.
  unfoldable pub delete : TcpStore S → Text → Option Text → TcpStore S × Bool
  delete s key component =
      if b.check s.server (prefixed s.names key component)
      then (
        record s {
          server = b.set s.server (prefixed s.names key component) [];
          known_keys = select (λ k. not (k == key)) s.known_keys;
        },
        true,
      )
      else (s, false)

  -- Binary data goes through base64.
  unfoldable pub set_bytes : (Text → Text) → TcpStore S → Text → Text → Option Text → TcpStore S
  set_bytes b64encode s key bytes component = record s {
    server = b.set s.server (prefixed s.names key component) (b64encode bytes);
    known_keys = add key s.known_keys;
  }

  unfoldable pub get_bytes : (Text → Text) → TcpStore S → Text → Option Text → Option Text
  get_bytes b64decode s key component =
      if b.check s.server (prefixed s.names key component)
      then some (b64decode (b.get s.server (prefixed s.names key component)))
      else none

  -- A poll sees one state of the server; after it the time since the start is read. `ready` says
  -- which value ends the wait.
  unfoldable pub poll_value : (Text → Bool) → Text → S → Option Text
  poll_value ready key s =
      if b.check s key then (if ready (b.get s key) then some (b.get s key) else none) else none

  unfoldable pub wait_for_key : KvNames → Text → ℕ → Option Text → (ℕ → S) → (ℕ → ℕ) → ℕ → Wait Text
  unfolding poll_value wait_loop
  wait_for_key names key timeout component servers elapsed fuel =
      wait_loop (poll_value not_empty (prefixed names key component)) servers elapsed timeout fuel 0

  unfoldable pub wait_for_value :
      KvNames → Text → Text → ℕ → Option Text → (ℕ → S) → (ℕ → ℕ) → ℕ → Wait Text
  unfolding poll_value wait_loop
  wait_for_value names key expected timeout component servers elapsed fuel =
      wait_loop (poll_value (λ v. v == expected) (prefixed names key component)) servers elapsed
        timeout fuel 0
