-- ===== src/CommandQueue/Ring.antt =====
-- The ring of command_queue.py: which slots a run of positions takes.
use etha.Prelude.{
  ℕ, zero, suc, ◌+◌, ◌%◌, ◌<◌, min, ◌≡◌, refl, subst, ◌≢◌, Option, some, List, [], ◌∷◌, ◌++◌, arith,
  nat_eq, list_eq, length, take, drop,
}
use etha.CommandQueue.{
  Codec, CommandQueue, update, decode_slot, get_message, collect, drain, release_times,
}

min-suc : (a b : ℕ) → min (suc a) (suc b) ≡ suc (min a b)
min-suc a b = omega arith

-- Two positions less than `n` apart have different keys.
pub mod-ne : (a b n : ℕ) → a < b → b < a + n → a % n ≢ b % n
mod-ne a b n p q e = grind arith

pub drain-eq-zero : (n : ℕ) → drain n ≡ 0
unfolding drain
drain-eq-zero zero = refl
drain-eq-zero (suc n) = drain-eq-zero n

pub release_times-eq-add : (k n : ℕ) → release_times k n ≡ n + k
unfolding release_times
release_times-eq-add zero n = omega arith
release_times-eq-add (suc k) n = omega (arith, release_times-eq-add k (suc n))

module _ {Message Bytes : Type 0} (c : Codec Message Bytes) where
  -- From position `pos` on, the slots hold the messages `ms` in order.
  abbrev pub Holds : (ℕ → Option Bytes) → ℕ → ℕ → List Message → Type 0
  Holds slots n pos [] = Unit {0}
  Holds slots n pos (m ∷ ms) = (slots (pos % n) ≡ some (c.encode m)) × Holds slots n (suc pos) ms

  -- A write to the position behind a run that does not fill the ring extends the run.
  pub Holds-update :
      (slots : ℕ → Option Bytes) (n pos tail : ℕ) (ms : List Message) (m : Message)
      → tail ≡ pos + length ms
      → length ms < n
      → Holds slots n pos ms
      → Holds (update slots (tail % n) (some (c.encode m))) n pos (ms ++ m ∷ [])
  Holds-update slots n pos tail [] m e lt h = (ground arith, tt)
  Holds-update slots n pos tail (x ∷ ms) m e lt h = (
    ground (arith, mod-ne pos tail n),
    Holds-update slots n (suc pos) tail ms m (omega arith) (omega arith) h.1,
  )

  pub Holds-drop :
      (slots : ℕ → Option Bytes) (n pos k : ℕ) (ms : List Message)
      → Holds slots n pos ms
      → Holds slots n (pos + min k (length ms)) (drop k ms)
  Holds-drop slots n pos zero [] h = tt
  Holds-drop slots n pos (suc k) [] h = tt
  Holds-drop slots n pos zero (m ∷ ms) h =
      subst (λ (p : ℕ). Holds slots n p (m ∷ ms)) (omega arith) h
  Holds-drop slots n pos (suc k) (m ∷ ms) h =
      subst (λ (p : ℕ). Holds slots n p (drop k ms)) (omega arith)
        (Holds-drop slots n (suc pos) k ms h.1)

  -- A held message is read back as it was put.
  pub get_message-Holds :
      (q : CommandQueue Bytes) (pos : ℕ) (m : Message)
      → q.slots (pos % q.capacity) ≡ some (c.encode m)
      → get_message c q pos ≡ some m
  unfolding get_message
  get_message-Holds q pos m h = rw (h, decode_slot) (c.decode-encode m)

  pub collect-take :
      (q : CommandQueue Bytes) (pos k : ℕ) (ms : List Message)
      → Holds q.slots q.capacity pos ms
      → collect c q pos (min k (length ms)) ≡ take k ms
  unfolding collect
  collect-take q pos zero ms h = ground arith
  collect-take q pos (suc k) [] h = ground arith
  collect-take q pos (suc k) (m ∷ ms) h = ground (
    arith,
    get_message-Holds q pos m h.0,
    collect-take q (suc pos) k ms h.1,
    min-suc k (length ms),
  )
