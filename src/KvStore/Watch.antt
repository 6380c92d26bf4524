-- ===== src/KvStore/Watch.antt =====
-- The waits of EtcdStore in src/etha/kvstore/etcd.py.
use etha.Prelude.{
  pair_eq, ℕ, Bool, false, ◌&&◌, Option, none, some, List, [], ◌∷◌, map, leb, ◌==◌, nat_eq, list_eq,
  if◌then◌else◌, length, take,
}
use etha.Prelude.Sorting.{add, lex_order}
use etha.KvStore.{Text, prefixed, strip_prefix}
use etha.KvStore.Etcd.{EtcdBackend, EtcdStore, get}

-- How a wait ends.
pub data Watched {ℓ} (A : Type ℓ) : Type ℓ where
  found : A → Watched A
  timed_out : Watched A

-- An event of a watch: a key and its value.
abbrev pub KeyEvent : Type 0
KeyEvent = Text × Option Text

-- What the callback and the check share: the keys matched so far, and the result, which is there
-- once `done` is set.
pub record Shared {ℓ κ} (M : Type ℓ) (A : Type κ) : Type (ℓ ⊔ κ) where
  pub matched : M
  pub result : Option A

-- `callback` on the events of one response: it stops at the first that gives a result.
unfoldable pub callback {ℓ κ} :
    {M : Type ℓ} {A : Type κ}
    → (M → KeyEvent → M × Option A)
    → List KeyEvent
    → Shared M A
    → Shared M A
callback on_event [] s = s
callback on_event (e ∷ es) s =
    let (matched, result) = on_event s.matched e in
    let rest = callback on_event es (record s { matched = matched }) in
    elim result [ none ↦ rest | some r ↦ record { matched = matched; result = some r } ]

unfoldable pub callbacks {ℓ κ} :
    {M : Type ℓ} {A : Type κ}
    → (M → KeyEvent → M × Option A)
    → List (List KeyEvent)
    → Shared M A
    → Shared M A
unfolding callback
callbacks on_event [] s = s
callbacks on_event (r ∷ rs) s = callbacks on_event rs (callback on_event r s)

abbrev pub ended {ℓ} : {A : Type ℓ} → Option A → Watched A
ended none = timed_out
ended (some r) = found r

-- `_wait_with_watch`: the responses of the watch are those that come before the check, and those
-- that come after it until the wait for `done` returns.
unfoldable pub wait_with_watch {ℓ κ} :
    {M : Type ℓ} {A : Type κ}
    → (M → M × Option A)
    → (M → KeyEvent → M × Option A)
    → M
    → List (List KeyEvent)
    → List (List KeyEvent)
    → Watched A
unfolding callbacks
wait_with_watch check_fn on_event start before after =
    let s = callbacks on_event before (record { matched = start; result = none }) in
    let (matched, result) = check_fn s.matched in
    let later = callbacks on_event after (record s { matched = matched }) in
    elim result [ some r ↦ found r | none ↦ ended later.result ]

-- `e.value is not None`, for the key.
abbrev pub key_event : Text → Unit {0} → KeyEvent → Unit {0} × Option Text
key_event key m (k, v) = (tt, if k == key then v else none)

-- `e.value == expected_bytes`, for the key.
abbrev pub if_expected : Text → Option Text → Option Text
if_expected expected none = none
if_expected expected (some v) = if v == expected then some v else none

abbrev pub value_event : Text → Text → Unit {0} → KeyEvent → Unit {0} × Option Text
value_event key expected m (k, v) = (tt, if k == key then if_expected expected v else none)

module _ {ℓ} {S : Type ℓ} (b : EtcdBackend S) where
  -- The handle is the one at the check.
  unfoldable pub wait_for_key :
      EtcdStore S → Text → Option Text → List (List KeyEvent) → List (List KeyEvent) → Watched Text
  unfolding wait_with_watch get
  wait_for_key s key component before after =
      wait_with_watch (λ m. (tt, get b s key component))
        (key_event (prefixed s.names key component)) tt before after

  unfoldable pub wait_for_value :
      EtcdStore S
      → Text
      → Text
      → Option Text
      → List (List KeyEvent)
      → List (List KeyEvent)
      → Watched Text
  unfolding wait_with_watch get
  wait_for_value s key expected component before after =
      wait_with_watch (λ m. (tt, if_expected expected (get b s key component)))
        (value_event (prefixed s.names key component) expected) tt before after

-- What comes before the first `*`: the whole text if there is none.
unfoldable pub before_star : Text → Text
before_star [] = []
before_star (c ∷ cs) = if c == b'*' then [] else c ∷ before_star cs

-- `len(matched) >= expected_count`
unfoldable pub enough : ℕ → List Text → Option (List Text)
enough expected_count matched =
    if leb expected_count (length matched)
    then some (map strip_prefix (take expected_count matched))
    else none

-- The matched keys are kept sorted. `fnmatch` is Python's.
module _ (fnmatch : Text → Text → Bool) (pattern value : Text) (expected_count : ℕ) where
  unfoldable pub matches : Text → Option Text → Bool
  matches k none = false
  matches k (some v) = v == value && fnmatch k pattern

  unfoldable pub keys_event : List Text → KeyEvent → List Text × Option (List Text)
  unfolding matches enough
  keys_event matched (k, v) =
      if matches k v
      then (add k matched, enough expected_count (add k matched))
      else (matched, none)

  unfoldable pub add_existing : List (Text × Text) → List Text → List Text
  unfolding matches
  add_existing [] matched = matched
  add_existing ((k, v) ∷ rest) matched =
      add_existing rest (if matches k (some v) then add k matched else matched)

  unfoldable pub check_existing : List (Text × Text) → List Text → List Text × Option (List Text)
  unfolding add_existing enough
  check_existing entries matched =
      let all = add_existing entries matched in (all, enough expected_count all)

unfoldable pub wait_for_keys {ℓ} :
    {S : Type ℓ}
    → EtcdBackend S
    → (Text → Text → Bool)
    → EtcdStore S
    → Text
    → ℕ
    → Text
    → Option Text
    → List (List KeyEvent)
    → List (List KeyEvent)
    → Watched (List Text)
unfolding wait_with_watch check_existing keys_event before_star
wait_for_keys b fnmatch s key_pattern expected_count value component before after =
    let pattern = prefixed s.names key_pattern component in
    wait_with_watch
      (check_existing fnmatch pattern value expected_count
        (b.get_prefix s.server (before_star pattern)))
      (keys_event fnmatch pattern value expected_count) [] before after
