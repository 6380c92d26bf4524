-- ===== src/CommandQueue/Corruption.antt =====
-- command_queue.py when a stored record does not decode, and what `clear` leaves in the file.
use etha.Prelude.{
  pair_eq, ℕ, ◌+◌, ◌-◌, ◌%◌, ◌≤◌, ◌<◌, min, ◌≡◌, refl, inl, inr, true, Option, none, some, arith,
  ◌==◌, nat_eq, list_eq, if◌then◌else◌, Bool-cases,
}
use etha.CommandQueue.{
  Codec, CommandQueue, size, get_message, dequeue_txn, dequeue_batch, clear, release_space,
  is_reserved_key,
}
use etha.CommandQueue.Ring.{release_times-eq-add}

-- The places that are in use or may be acquired.
abbrev pub usable : {Bytes : Type 0} → CommandQueue Bytes → ℕ
usable q = (q.tail - q.head) + q.space_sem

-- How many places a `dequeue` loses: one for a record that does not decode.
abbrev pub lost : {Message : Type 0} → Option Message → ℕ
lost none = 1
lost (some m) = 0

module _ {Message Bytes : Type 0} (c : Codec Message Bytes) where
  -- A `dequeue` from a queue that is not empty moves the head past one record; if that record does
  -- not decode, its place is neither in use nor free again.
  pub dequeue_txn-usable :
      (q : CommandQueue Bytes)
      → q.head < q.tail
      → let (cmd, q') = dequeue_txn c q in
        (usable q' + lost cmd ≡ usable q) × (q'.head ≡ q.head + 1) × (q'.tail ≡ q.tail)
  unfolding dequeue_txn size release_space
  dequeue_txn-usable q h = by_record (get_message c q q.head) refl
    where
      by_record :
          (r : Option Message)
          → get_message c q q.head ≡ r
          → let (cmd, q') = dequeue_txn c q in
            (usable q' + lost cmd ≡ usable q) × (q'.head ≡ q.head + 1) × (q'.tail ≡ q.tail)
      by_record none e = ground (arith, e)
      by_record (some m) e = ground (arith, e)

  -- `dequeue_batch` gives back every place it empties, also those of records that do not decode.
  pub dequeue_batch-usable :
      (n : ℕ) (q : CommandQueue Bytes) → q.head ≤ q.tail → usable (dequeue_batch c n q).1 ≡ usable q
  unfolding dequeue_batch size
  dequeue_batch-usable n q h =
      omega (arith, release_times-eq-add (min n (q.tail - q.head)) q.space_sem)

reserved_iff : (k : ℕ) → is_reserved_key k ≡ (k % 65536 == 24415)
unfolding is_reserved_key
reserved_iff k = ground arith

-- `clear(delete_commands=True)` deletes every slot but those whose number leaves 24415 when divided
-- by 65536: the keys of these are packed to bytes that begin with "__".
pub slots-clear :
    {Bytes : Type 0} (q : CommandQueue Bytes) (k : ℕ)
    → (clear true q).slots k ≡ (if k % 65536 == 24415 then q.slots k else none)
unfolding clear
slots-clear q k = elim (Bool-cases (k % 65536 == 24415)) [
  | inl kept ↦ rw (clear, reserved_iff k, kept) refl
  | inr deleted ↦ rw (clear, reserved_iff k, deleted) refl
]
