-- ===== src/CommandQueue.antt =====
-- src/etha/tensor_bus/command_queue.py: the ring buffer in LMDB and its two semaphores.
pub mod Ring
pub mod Refinement
pub mod Fifo
pub mod Corruption
pub mod Interleaving
mod Examples
use etha.Prelude.{
  ℕ, zero, suc, ◌+◌, ◌-◌, ◌*◌, ◌/◌, ◌%◌, ◌^◌, ◌≤◌, ◌<◌, min, max, ◌≡◌, refl, sym, ap, ap₂, subst,
  fun_ext, ◌∙◌, ◌≢◌, ◌↔◌, ◌⊎◌, inl, inr, Bool, true, false, ◌&&◌, ◌||◌, not, Option, none, some,
  List, [], ◌∷◌, ◌++◌, map, arith, ltb, leb, ◌==◌, Eq, nat_eq, list_eq, if◌then◌else◌, Bool-cases,
  Option-cases, length, get_elem?, take, drop, length-append, length-drop, All, All-append, sum,
  sum-append,
}

-- msgspec's encoder and decoder of `Message`; a record that does not decode gives `none`.
pub record Codec (Message Bytes : Type 0) : Type 0 where
  pub encode : Message → Bytes
  pub decode : Bytes → Option Message
  pub decode-encode : (m : Message) → decode (encode m) ≡ some m

-- The database (`slots`, `head`, `tail`), the counts of the two semaphores and the capacity.
pub record CommandQueue (Bytes : Type 0) : Type 0 where
  pub slots : ℕ → Option Bytes
  pub head : ℕ
  pub tail : ℕ
  pub sem : ℕ
  pub space_sem : ℕ
  pub capacity : ℕ

-- `block` and `timeout` of a call: no wait, a wait that ends, a wait that does not.
pub data Wait : Type 0 where
  immediate timed unbounded : Wait

pub data Acquired : Type 0 where
  acquired : ℕ → Acquired
  busy waiting : Acquired

-- `Semaphore.acquire` on a semaphore that nobody else releases meanwhile.
unfoldable pub acquire : Wait → ℕ → Acquired
acquire w (suc n) = acquired n
acquire unbounded zero = waiting
acquire _ zero = busy

-- A database file before `_init_pointers`: no pointers yet, or those that an earlier run left.
pub record Database (Bytes : Type 0) : Type 0 where
  pub slots : ℕ → Option Bytes
  pub pointers : Option (ℕ × ℕ)

pub data Enqueued (Bytes : Type 0) : Type 0 where
  enqueued : ℕ → CommandQueue Bytes → Enqueued Bytes
  queue_full blocked : Enqueued Bytes

pub data Dequeued (Message Bytes : Type 0) : Type 0 where
  dequeued : Option Message → CommandQueue Bytes → Dequeued Message Bytes
  blocked : Dequeued Message Bytes

unfoldable pub init_pointers : Option (ℕ × ℕ) → ℕ × ℕ
init_pointers none = (0, 0)
init_pointers (some p) = p

abbrev pub update {ℓ} : {A : Type ℓ} → (ℕ → A) → ℕ → A → ℕ → A
update f k v j = if j == k then v else f j

-- `Semaphore.acquire(timeout=0)` until it raises `BusyError`.
unfoldable pub drain : ℕ → ℕ
drain zero = zero
drain (suc n) = drain n

-- One `release` for each round of a `for` loop.
unfoldable pub release_times : ℕ → ℕ → ℕ
release_times zero n = n
release_times (suc k) n = release_times k (suc n)

-- The bytes of a number, the lowest first: `struct.pack("Q", n)` has eight.
unfoldable pub pack : ℕ → ℕ → List ℕ
pack zero n = []
pack (suc count) n = n % 256 ∷ pack count (n / 256)

abbrev pub has_prefix : List ℕ → List ℕ → Bool
has_prefix [] key = true
has_prefix (b ∷ prefix) [] = false
has_prefix (b ∷ prefix) (k ∷ key) = b == k && has_prefix prefix key

-- `key.startswith(b"__")` at the packed key of a slot.
unfoldable pub is_reserved_key : ℕ → Bool
unfolding pack
is_reserved_key idx = has_prefix (0x5f ∷ 0x5f ∷ []) (pack 8 idx)

module _ {Bytes : Type 0} where
  -- The leader's path through `__init__`: the semaphores start from what the file holds. A capacity
  -- below the queue's length would be a negative initial value, which is refused.
  unfoldable pub open_queue : Database Bytes → ℕ → Option (CommandQueue Bytes)
  unfolding init_pointers
  open_queue d capacity =
      let (head, tail) = init_pointers d.pointers in
      if ltb capacity (tail - head)
      then none
      else some (record {
        slots = d.slots;
        head = head;
        tail = tail;
        sem = tail - head;
        space_sem = capacity - (tail - head);
        capacity = capacity;
      })

  unfoldable pub circular_key : CommandQueue Bytes → ℕ → ℕ
  circular_key q pos = pos % q.capacity

  unfoldable pub size : CommandQueue Bytes → ℕ
  size q = q.tail - q.head

  unfoldable pub is_empty : CommandQueue Bytes → Bool
  unfolding size
  is_empty q = size q == 0

  unfoldable pub clear : Bool → CommandQueue Bytes → CommandQueue Bytes
  unfolding drain release_times is_reserved_key
  clear delete_commands q = record q {
    slots = λ k. if delete_commands && not (is_reserved_key k) then none else q.slots k;
    head = 0;
    tail = 0;
    sem = drain q.sem;
    space_sem = release_times q.capacity (drain q.space_sem);
  }

module _ {Message Bytes : Type 0} (c : Codec Message Bytes) where
  unfoldable pub put_message : CommandQueue Bytes → ℕ → Message → CommandQueue Bytes
  unfolding circular_key
  put_message q pos m = record q { slots = update q.slots (circular_key q pos) (some (c.encode m)) }

  unfoldable pub decode_slot : Option Bytes → Option Message
  decode_slot none = none
  decode_slot (some b) = c.decode b

  unfoldable pub get_message : CommandQueue Bytes → ℕ → Option Message
  unfolding circular_key decode_slot
  get_message q pos = decode_slot (q.slots (circular_key q pos))

  -- The transaction of `enqueue`, with the space already acquired.
  unfoldable pub enqueue_txn : CommandQueue Bytes → ℕ → Message → CommandQueue Bytes
  unfolding put_message
  enqueue_txn q space m = record (put_message q q.tail m) {
    tail = q.tail + 1;
    sem = q.sem + 1;
    space_sem = space;
  }

  unfoldable pub enqueue : Wait → Message → CommandQueue Bytes → Enqueued Bytes
  unfolding acquire enqueue_txn
  enqueue w m q = elim (acquire w q.space_sem) [
    | acquired space ↦ enqueued q.tail (enqueue_txn q space m)
    | busy ↦ queue_full
    | waiting ↦ Enqueued.blocked
  ]

  release_space : Option Message → ℕ → ℕ
  release_space none n = n
  release_space (some m) n = n + 1

  -- The transaction of `dequeue`. A message that does not decode releases no space.
  unfoldable pub dequeue_txn : CommandQueue Bytes → Option Message × CommandQueue Bytes
  unfolding size get_message release_space
  dequeue_txn q = if leb (size q) 0 then (none, q) else (
    get_message q q.head,
    record q { head = q.head + 1; space_sem = release_space (get_message q q.head) q.space_sem },
  )

  finish : Option Message × CommandQueue Bytes → Dequeued Message Bytes
  finish (cmd, q) = dequeued cmd q

  -- `block=False`: the item semaphore is not touched.
  unfoldable pub dequeue_now : CommandQueue Bytes → Dequeued Message Bytes
  unfolding dequeue_txn finish
  dequeue_now q = finish (dequeue_txn q)

  -- `block=True`.
  unfoldable pub dequeue_wait : Wait → CommandQueue Bytes → Dequeued Message Bytes
  unfolding acquire dequeue_txn finish
  dequeue_wait w q = elim (acquire w q.sem) [
    | acquired items ↦ finish (dequeue_txn (record q { sem = items }))
    | busy ↦ dequeued none q
    | waiting ↦ Dequeued.blocked
  ]

  -- The messages at `n` positions from `pos` on, without those that do not decode.
  unfoldable pub collect : CommandQueue Bytes → ℕ → ℕ → List Message
  unfolding get_message
  collect q pos zero = []
  collect q pos (suc n) = elim (get_message q pos) [
    | none ↦ collect q (suc pos) n
    | some m ↦ m ∷ collect q (suc pos) n
  ]

  unfoldable pub dequeue_batch : ℕ → CommandQueue Bytes → List Message × CommandQueue Bytes
  unfolding collect size release_times
  dequeue_batch max_count q =
      let count = min max_count (size q) in
      (
        collect q q.head count,
        record q { head = q.head + count; space_sem = release_times count q.space_sem },
      )

  unfoldable pub peek : CommandQueue Bytes → Option Message
  unfolding size get_message
  peek q = if leb (size q) 0 then none else get_message q q.head
