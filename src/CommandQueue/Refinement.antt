-- ===== src/CommandQueue/Refinement.antt =====
-- command_queue.py as a bounded first-in first-out queue: the database and the semaphores stand for
-- a list of messages, and every operation is the list operation.
use etha.Prelude.{
  ℕ, zero, suc, ◌+◌, ◌-◌, ◌≤◌, ◌<◌, ◌≡◌, refl, subst, ◌≢◌, true, false, Option, none, some, List,
  [], ◌∷◌, ◌++◌, arith, leb, nat_eq, list_eq, length, length-append,
}
use etha.CommandQueue.{
  Codec, CommandQueue, Wait, immediate, timed, unbounded, Enqueued, enqueued, queue_full,
  open_queue, size, get_message, enqueue, enqueue_txn, dequeue_txn, release_space,
}
use etha.CommandQueue.Ring.{Holds, Holds-update, get_message-Holds}

leb_zero : (n : ℕ) → n ≡ 0 → leb n 0 ≡ true
leb_zero n e = ground arith

module _ {Message Bytes : Type 0} (c : Codec Message Bytes) where
  -- The queue holds exactly the messages `ms`: the free slots and the messages make up the capacity,
  -- and no message lacks an item token.
  pub record Represents (q : CommandQueue Bytes) (ms : List Message) : Type 0 where
    pub pointers : q.tail ≡ q.head + length ms
    pub room : length ms + q.space_sem ≡ q.capacity
    pub items : length ms ≤ q.sem
    pub held : Holds c q.slots q.capacity q.head ms

  -- A queue opened on a fresh file is empty.
  pub open_queue-Represents :
      (slots : ℕ → Option Bytes) (capacity : ℕ)
      → (q : CommandQueue Bytes) × (open_queue (record { slots = slots; pointers = none }) capacity
          ≡ some q)
        × Represents q []
        × (q.capacity ≡ capacity)
  unfolding open_queue
  open_queue-Represents slots capacity = (
    record {
      slots = slots;
      head = 0;
      tail = 0;
      sem = 0;
      space_sem = capacity;
      capacity = capacity;
    },
    ground arith,
    record { pointers = omega arith; room = omega arith; items = omega arith; held = tt },
    refl,
  )

  pub enqueue_txn-Represents :
      (q : CommandQueue Bytes) (ms : List Message) (m : Message) (space : ℕ)
      → Represents q ms
      → q.space_sem ≡ suc space
      → Represents (enqueue_txn c q space m) (ms ++ m ∷ [])
  unfolding enqueue_txn
  enqueue_txn-Represents q ms m space r e = record {
    pointers = omega (arith, r.pointers, length-append {0} ms (m ∷ []));
    room = omega (arith, r.room, e, length-append {0} ms (m ∷ []));
    items = omega (arith, r.items, length-append {0} ms (m ∷ []));
    held =
        Holds-update c q.slots q.capacity q.head q.tail ms m r.pointers (omega (arith, r.room, e))
          r.held;
  }

  -- What a call of `enqueue` on a queue that holds `ms` may give.
  abbrev pub Appends : Wait → Message → CommandQueue Bytes → List Message → Enqueued Bytes → Type 0
  Appends w m q ms (enqueued id q') =
      (id ≡ q.head + length ms)
      × Represents q' (ms ++ m ∷ [])
      × (length ms < q.capacity)
      × (q'.capacity ≡ q.capacity)
      × (q'.head ≡ q.head)
      × (q'.sem ≡ q.sem + 1)
  Appends w m q ms queue_full = (w ≢ unbounded) × (length ms ≡ q.capacity)
  Appends w m q ms Enqueued.blocked = (w ≡ unbounded) × (length ms ≡ q.capacity)

  -- `enqueue` appends the message and returns its position while there is room; on a full queue it
  -- raises, or waits if it was told to wait with no end.
  pub enqueue-Appends :
      (w : Wait) (m : Message) (q : CommandQueue Bytes) (ms : List Message)
      → Represents q ms
      → Appends w m q ms (enqueue c w m q)
  unfolding enqueue
  enqueue-Appends w m q ms r = by_space q.space_sem refl w
    where
      by_space : (n : ℕ) → q.space_sem ≡ n → (w : Wait) → Appends w m q ms (enqueue c w m q)
      by_space (suc n) e w =
          rw (e, enqueue)
            (
              r.pointers,
              enqueue_txn-Represents q ms m n r e,
              omega (arith, r.room, e),
              refl,
              refl,
              refl,
            )
      by_space zero e immediate = rw (e, enqueue) ((λ h. cc h), omega (arith, r.room, e))
      by_space zero e timed = rw (e, enqueue) ((λ h. cc h), omega (arith, r.room, e))
      by_space zero e unbounded = rw (e, enqueue) (refl, omega (arith, r.room, e))

  -- The transaction of `dequeue` on a queue that holds `ms`.
  abbrev pub Pops : CommandQueue Bytes → List Message → Option Message × CommandQueue Bytes → Type 0
  Pops q [] r = r ≡ (none, q)
  Pops q (m ∷ ms) (cmd, q') =
      (cmd ≡ some m)
      × Represents q' ms
      × (q'.head ≡ q.head + 1)
      × (q'.capacity ≡ q.capacity)
      × (q'.sem ≡ q.sem)

  -- Taking a token more than the messages need leaves what the queue holds; `dequeue` needs only
  -- as many tokens as remain after it.
  pub dequeue_txn-Pops :
      (q : CommandQueue Bytes) (ms : List Message)
      → q.tail ≡ q.head + length ms
      → length ms + q.space_sem ≡ q.capacity
      → length ms ≤ q.sem + 1
      → Holds c q.slots q.capacity q.head ms
      → Pops q ms (dequeue_txn c q)
  unfolding dequeue_txn size release_space
  dequeue_txn-Pops q [] p r i h = ground (arith, leb_zero (q.tail - q.head))
  dequeue_txn-Pops q (m ∷ ms) p r i h =
      let found : get_message c q q.head ≡ some m = get_message-Holds c q q.head m h.0 in
      let more : leb (q.tail - q.head) 0 ≡ false = ground arith in
      rw (more, found)
        (
          refl,
          record {
            pointers = omega arith;
            room = omega arith;
            items = omega arith;
            held = subst (λ (k : ℕ). Holds c q.slots q.capacity k ms) (omega arith) h.1;
          },
          refl,
          refl,
          refl,
        )
