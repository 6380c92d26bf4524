-- ===== src/CommandQueue/Interleaving.antt =====
-- command_queue.py with many producers and consumers: `enqueue` acquires a place before its
-- transaction, and `dequeue_batch` releases places after its own. LMDB runs one write transaction
-- at a time.
use etha.Prelude.{
  ℕ, zero, suc, ◌+◌, ◌-◌, ◌<◌, min, ◌≡◌, refl, ap, subst, false, some, List, [], ◌∷◌, ◌++◌, arith,
  leb, nat_eq, list_eq, length, take, drop, length-append, length-drop,
}
use mathlib.Core.List.{append_assoc}
use etha.CommandQueue.{
  Codec, CommandQueue, enqueue_txn, dequeue_txn, collect, get_message, size, release_space,
}
use etha.CommandQueue.Ring.{Holds, Holds-update, Holds-drop, get_message-Holds, collect-take}

-- `reserved`: places acquired by producers that have not written yet; `returning`: places emptied by
-- batches that have not released them yet.
pub record World (Bytes : Type 0) : Type 0 where
  pub queue : CommandQueue Bytes
  pub open queue use *
  pub reserved : ℕ
  pub returning : ℕ

module _ {Message Bytes : Type 0} (c : Codec Message Bytes) where
  -- The transaction of `dequeue_batch`, before its releases.
  abbrev pub batch_txn : ℕ → CommandQueue Bytes → List Message × CommandQueue Bytes
  batch_txn k q = (collect c q q.head k, record q { head = q.head + k })

  -- `Reach w written read`: from an empty queue the processes come to `w`, having written and
  -- received those messages, in the order of the transactions.
  pub data Reach (start : CommandQueue Bytes)
      : World Bytes → List Message → List Message → Type 0 where
    begin : Reach start (record { queue = start; reserved = 0; returning = 0 }) [] []
    reserve :
        {w : World Bytes} {written read : List Message} (n : ℕ)
        → Reach start w written read
        → w.space_sem ≡ suc n
        → Reach start
            (record w { queue = record w.queue { space_sem = n }; reserved = w.reserved + 1 })
            written
            read
    write :
        {w : World Bytes} {written read : List Message} (m : Message) (n : ℕ)
        → Reach start w written read
        → w.reserved ≡ suc n
        → Reach start
            (record w { queue = enqueue_txn c w.queue w.space_sem m; reserved = n })
            (written ++ m ∷ [])
            read
    -- a `dequeue` that finds a message
    receive :
        {w : World Bytes} {written read : List Message} (m : Message)
        → Reach start w written read
        → w.head < w.tail
        → (dequeue_txn c w.queue).0 ≡ some m
        → Reach start (record w { queue = (dequeue_txn c w.queue).1 }) written (read ++ m ∷ [])
    receive_batch :
        {w : World Bytes} {written read : List Message} (max_count k : ℕ)
        → Reach start w written read
        → k ≡ min max_count (w.tail - w.head)
        → Reach start
            (record w { queue = (batch_txn k w.queue).1; returning = w.returning + k })
            written
            (read ++ (batch_txn k w.queue).0)
    give_back :
        {w : World Bytes} {written read : List Message} (n : ℕ)
        → Reach start w written read
        → w.returning ≡ suc n
        → Reach start
            (record w { queue = record w.queue { space_sem = w.space_sem + 1 }; returning = n })
            written
            read

  -- The unread messages are `ms`: they lie in the ring in order, and with the places that are free,
  -- reserved or being returned they make up the capacity.
  pub record Keeps (w : World Bytes) (ms : List Message) : Type 0 where
    pub pointers : w.tail ≡ w.head + length ms
    pub room : length ms + w.reserved + w.returning + w.space_sem ≡ w.capacity
    pub held : Holds c w.queue.slots w.capacity w.head ms

  write-Keeps :
      (w : World Bytes) (ms : List Message) (m : Message) (n : ℕ)
      → Keeps w ms
      → w.reserved ≡ suc n
      → Keeps
          (record w { queue = enqueue_txn c w.queue w.space_sem m; reserved = n })
          (ms ++ m ∷ [])
  unfolding enqueue_txn
  write-Keeps w ms m n k e = record {
    pointers = omega (arith, k.pointers, length-append {0} ms (m ∷ []));
    room = omega (arith, k.room, e, length-append {0} ms (m ∷ []));
    held =
        Holds-update c w.queue.slots w.capacity w.head w.tail ms m k.pointers
          (omega (arith, k.room, e)) k.held;
  }

  receive-Keeps :
      (w : World Bytes) (ms : List Message) (m : Message)
      → Keeps w ms
      → w.head < w.tail
      → (dequeue_txn c w.queue).0 ≡ some m
      → (rest : List Message) × (ms ≡ m ∷ rest)
        × Keeps (record w { queue = (dequeue_txn c w.queue).1 }) rest
  unfolding dequeue_txn size release_space
  receive-Keeps w [] m k lt e = absurd (omega (arith, k.pointers))
  receive-Keeps w (x ∷ ms) m k lt e =
      let found : get_message c w.queue w.head ≡ some x =
        get_message-Holds c w.queue w.head x k.held.0 in
      let more : leb (w.tail - w.head) 0 ≡ false = ground arith in
      (
        ms,
        ground (arith, more, found, e),
        rw (more, found)
            (record {
              pointers = omega (arith, k.pointers);
              room = omega (arith, k.room);
              held =
                  subst (λ (p : ℕ). Holds c w.queue.slots w.capacity p ms) (omega arith) k.held.1;
            }),
      )

  take-append-drop : (n : ℕ) (xs : List Message) → take n xs ++ drop n xs ≡ xs
  take-append-drop zero xs = refl
  take-append-drop (suc n) [] = refl
  take-append-drop (suc n) (x ∷ xs) = ap (◌∷◌ x) (take-append-drop n xs)

  abbrev Delivered : World Bytes → List Message → List Message → Type 0
  Delivered w written read = (ms : List Message) × (written ≡ read ++ ms) × Keeps w ms

  -- From an empty queue with every place free, however producers and consumers interleave, the
  -- messages received are the first of those written, in the order written, and the rest are unread
  -- in the ring: none is lost, repeated or overwritten.
  pub Reach-Delivered :
      (start : CommandQueue Bytes) {w : World Bytes} {written read : List Message}
      → start.head ≡ start.tail
      → start.space_sem ≡ start.capacity
      → Reach start w written read
      → (ms : List Message) × (written ≡ read ++ ms) × Keeps w ms
  Reach-Delivered start e f begin =
      ([], refl, record { pointers = omega arith; room = omega arith; held = tt })
  Reach-Delivered start e f (reserve n r h) =
      let (ms, order, k) = Reach-Delivered start e f r in
      (ms, order, record { pointers = k.pointers; room = omega (arith, k.room); held = k.held })
  Reach-Delivered start e f (write {w = w} {read = read} m n r h) =
      let (ms, order, k) = Reach-Delivered start e f r in
      (ms ++ m ∷ [], rw (order, append_assoc) refl, write-Keeps w ms m n k h)
  Reach-Delivered start e f (receive {w = w} m r lt h) =
      let (ms, order, k) = Reach-Delivered start e f r in
      let (rest, split, k') = receive-Keeps w ms m k lt h in
      (rest, rw (order, split, append_assoc) refl, k')
  Reach-Delivered start e f (receive_batch {w = w} max_count k r h) =
      let (ms, order, kept) = Reach-Delivered start e f r in
      let counted : w.tail - w.head ≡ length ms = omega (arith, kept.pointers) in
      let front : collect c w.queue w.head k ≡ take max_count ms =
        rw (h, counted) (collect-take c w.queue w.head max_count ms kept.held) in
      (
        drop max_count ms,
        rw (front, append_assoc, take-append-drop) order,
        record {
          pointers = omega (arith, kept.pointers, h, length-drop {0} max_count ms);
          room = omega (arith, kept.pointers, kept.room, h, length-drop {0} max_count ms);
          held =
              rw (h, counted) (Holds-drop c w.queue.slots w.capacity w.head max_count ms kept.held);
        },
      )
  Reach-Delivered start e f (give_back n r h) =
      let (ms, order, k) = Reach-Delivered start e f r in
      (ms, order, record { pointers = k.pointers; room = omega (arith, k.room); held = k.held })
