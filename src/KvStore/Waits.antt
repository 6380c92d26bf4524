-- ===== src/KvStore/Waits.antt =====
-- wait_for_value of EtcdStore in src/etha/kvstore/etcd.py loses no event.
use etha.Prelude.{
  pair_eq, list_beq_iff, ◌≡◌, refl, ap, ◌∙◌, inl, inr, Bool, false, ◌&&◌, ◌||◌, Option, none, some,
  List, [], ◌∷◌, arith, ◌==◌, nat_eq, list_eq, if◌then◌else◌, Bool-cases,
}
use etha.KvStore.{Text, prefixed}
use etha.KvStore.Etcd.{EtcdBackend, EtcdStore, get}
use etha.KvStore.Watch.{
  KeyEvent, Shared, found, timed_out, callback, callbacks, wait_with_watch, value_event,
  if_expected, wait_for_value,
}

-- `any(p(x) for x in xs)`
abbrev pub any {ℓ} : {A : Type ℓ} → (A → Bool) → List A → Bool
any p [] = false
any p (x ∷ xs) = p x || any p xs

module _ {ℓ κ} {M : Type ℓ} {A : Type κ} (on_event : M → KeyEvent → M × Option A) where
  callback-some :
      (e : KeyEvent) (es : List KeyEvent) (s : Shared M A) (r : A)
      → (on_event s.matched e).1 ≡ some r
      → (callback on_event (e ∷ es) s).result ≡ some r
  unfolding callback
  callback-some e es s r h = rw (callback, h) refl

  callback-none :
      (e : KeyEvent) (es : List KeyEvent) (s : Shared M A)
      → (on_event s.matched e).1 ≡ none
      → callback on_event (e ∷ es) s
        ≡ callback on_event es (record s { matched = (on_event s.matched e).0 })
  unfolding callback
  callback-none e es s h = rw (callback, h) refl

module _ (key expected : Text) where
  abbrev pub is_expected : Option Text → Bool
  is_expected none = false
  is_expected (some v) = v == expected

  -- The event says that the key has the value.
  abbrev pub hits : KeyEvent → Bool
  hits e = e.0 == key && is_expected e.1

  if_expected_lem :
      (v : Option Text) → if_expected expected v ≡ (if is_expected v then some expected else none)
  if_expected_lem none = refl
  if_expected_lem (some v) = ground (arith, list_beq_iff v expected)

  result-value_event :
      (e : KeyEvent) → (value_event key expected tt e).1 ≡ (if hits e then some expected else none)
  result-value_event (k, v) = ground (arith, if_expected_lem v)

  result-callback :
      (es : List KeyEvent) (s : Shared (Unit {0}) Text)
      → (callback (value_event key expected) es s).result
        ≡ (if any hits es then some expected else s.result)
  unfolding callback
  result-callback [] s = refl
  result-callback (e ∷ es) s =
      let value : (value_event key expected s.matched e).1
          ≡ (if hits e then some expected else none) =
        result-value_event e in
      elim (Bool-cases (hits e)) [
        | inl hit ↦ rw hit (
            callback-some (value_event key expected) e es s expected
              (value ∙ ap (λ (b : Bool). if b then some expected else none) hit))
        | inr miss ↦ rw miss (
            ap (λ (t : Shared (Unit {0}) Text). t.result)
              (callback-none (value_event key expected) e es s
                (value ∙ ap (λ (b : Bool). if b then some expected else none) miss))
            ∙ result-callback es s)
      ]

  result-callbacks :
      (rs : List (List KeyEvent)) (s : Shared (Unit {0}) Text)
      → (callbacks (value_event key expected) rs s).result
        ≡ (if any (any hits) rs then some expected else s.result)
  unfolding callbacks
  result-callbacks [] s = refl
  result-callbacks (r ∷ rs) s =
      ground
        (arith, result-callback r s, result-callbacks rs (callback (value_event key expected) r s))

  wait_with_watch-value_event :
      (now : Option Text) (before after : List (List KeyEvent))
      → wait_with_watch
          (λ m. (tt, if_expected expected now))
          (value_event key expected)
          tt
          before
          after
        ≡ (if is_expected now || (any (any hits) before || any (any hits) after)
            then found expected
            else timed_out)
  unfolding wait_with_watch
  wait_with_watch-value_event now before after =
      let start : Shared (Unit {0}) Text = record { matched = tt; result = none } in
      ground (
        arith,
        if_expected_lem now,
        result-callbacks before start,
        result-callbacks after (callbacks (value_event key expected) before start),
      )

-- `wait_for_value` returns the expected value if the key has it at the check, or if an event says so,
-- be it before or after the check; else it raises.
pub wait_for_value_lem {ℓ} :
    {S : Type ℓ} (b : EtcdBackend S) (s : EtcdStore S) (key expected : Text)
    (component : Option Text) (before after : List (List KeyEvent))
    → let p : Text = prefixed s.names key component in
      wait_for_value b s key expected component before after ≡ (
        if is_expected p expected (get b s key component)
          || (any (any (hits p expected)) before || any (any (hits p expected)) after)
        then found expected
        else timed_out)
unfolding wait_for_value
wait_for_value_lem b s key expected component before after =
    wait_with_watch-value_event (prefixed s.names key component) expected (get b s key component)
      before after
