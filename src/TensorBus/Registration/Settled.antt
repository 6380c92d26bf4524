-- ===== src/TensorBus/Registration/Settled.antt =====
-- A parked registration is released as soon as the batch has both roles, with its result or with an
-- error.
use etha.Prelude.{
  pair_eq, ℕ, ◌≡◌, ◌≢◌, Bool, true, false, ◌&&◌, ◌||◌, List, [], ◌∷◌, ◌==◌, nat_eq, list_eq, All,
}
use etha.Prelude.Sorting.{nat_order}
use etha.TensorBus.Rounds.{elem}
use etha.TensorBus.Registration.{
  Registration, Notice, wrote_result, recorded_error, released, Registered, waiting, generated,
  refused, aborted, has_key,
}

-- Semaphores that were released with the generation as their result, and with an error.
abbrev pub with_result : ℕ → ℕ → List Notice → Bool
with_result x g [] = false
with_result x g (wrote_result y h ∷ log) = (x == y && g == h) || with_result x g log
with_result x g (_ ∷ log) = with_result x g log

abbrev pub with_error : ℕ → List Notice → Bool
with_error x [] = false
with_error x (recorded_error y ∷ log) = x == y || with_error x log
with_error x (_ ∷ log) = with_error x log

abbrev pub is_released : ℕ → List Notice → Bool
is_released x [] = false
is_released x (released y ∷ log) = x == y || is_released x log
is_released x (_ ∷ log) = is_released x log

-- A pair has two different roles, by a test of the roles that it has.
abbrev pub HasBoth : (ℕ → ℕ → Bool) → ℕ → Type 0
HasBoth has pair = (a b : ℕ) × ((a ≢ b) × ((has pair a ≡ true) × (has pair b ≡ true)))

-- What has become of a registration that was parked, by the roles that the pairs have now.
abbrev pub Settles : ℕ → ℕ → List ℕ → (ℕ → ℕ → Bool) → Registered → Type 0
Settles x g pairs has (waiting r log) =
    (elem x r.parked ≡ true) × ((p : ℕ) × ((elem p pairs ≡ true) × ¬ HasBoth has p))
Settles x g pairs has (generated r log) =
    ((r.parked ≡ []) × ((with_result x g log ≡ true) × (is_released x log ≡ true)))
    × All (HasBoth has) pairs
Settles x g pairs has (aborted log) =
    ((with_error x log ≡ true) × (is_released x log ≡ true)) × All (HasBoth has) pairs
Settles x g pairs has (refused r log) = ⊥

-- The roles that were registered before, and the new one for each pair of the batch.
abbrev pub with_role : ℕ → Registration → ℕ → ℕ → Bool
with_role role r pair a = has_key (pair, a) r.registered || (elem pair r.pair_names && a == role)

abbrev keyed : List (ℕ × ℕ) → ℕ → ℕ → Bool
keyed keys pair a = has_key (pair, a) keys
