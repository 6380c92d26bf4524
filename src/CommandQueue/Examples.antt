-- ===== src/CommandQueue/Examples.antt =====
-- Runs of command_queue.py at small inputs.
use etha.Prelude.{
  ℕ, zero, suc, ◌+◌, ◌≡◌, refl, true, Option, none, some, List, [], ◌∷◌, arith, ◌==◌, nat_eq,
  list_eq, if◌then◌else◌,
}
use etha.CommandQueue.{
  Codec, CommandQueue, immediate, timed, unbounded, enqueue_txn, dequeue_txn, clear,
}
use etha.CommandQueue.Refinement.{Represents}
use etha.CommandQueue.Fifo.{
  Call, put, get, get_now, look, count, get_batch, wipe, answers, replies, replies-eq-answers,
}
use etha.CommandQueue.Corruption.{usable, lost, dequeue_txn-usable, slots-clear}
use etha.CommandQueue.Interleaving.{
  World, Reach, begin, reserve, write, receive, Keeps, Reach-Delivered,
}

abbrev shifted : ℕ → Option ℕ
shifted zero = none
shifted (suc n) = some n

shifted-suc : (m : ℕ) → shifted (suc m) ≡ some m
shifted-suc m = refl

-- Bytes are numbers; 0 is no message.
abbrev codec : Codec ℕ ℕ
codec = record { encode = suc; decode = shifted; decode-encode = shifted-suc }

abbrev empty_queue : CommandQueue ℕ
empty_queue = record { slots = λ k. none; head = 3; tail = 3; sem = 0; space_sem = 2; capacity = 2 }

abbrev one_message : CommandQueue ℕ
one_message = record {
  slots = λ k. if k == 1 then some 8 else none;
  head = 3;
  tail = 4;
  sem = 1;
  space_sem = 1;
  capacity = 2;
}

abbrev calls : List (Call ℕ)
calls =
    put unbounded 7
    ∷ put timed 8
    ∷ put immediate 9
    ∷ put unbounded 9
    ∷ look
    ∷ get unbounded
    ∷ put timed 10
    ∷ count
    ∷ get_batch 5
    ∷ get_now
    ∷ get timed
    ∷ wipe true
    ∷ get unbounded
    ∷ put timed 1
    ∷ []

empty_queue-Represents : Represents codec empty_queue []
empty_queue-Represents = record {
  pointers = omega arith;
  room = omega arith;
  items = omega arith;
  held = tt;
}

one_message-Represents : Represents codec one_message (7 ∷ [])
one_message-Represents = record {
  pointers = omega arith;
  room = omega arith;
  items = omega arith;
  held = (refl, tt);
}

replies-eq-answers_example :
    replies codec calls empty_queue
    ≡ answers calls (record { first = 3; messages = []; capacity = 2; tokens = 0 })
replies-eq-answers_example =
    replies-eq-answers codec calls empty_queue
      (record { first = 3; messages = []; capacity = 2; tokens = 0 })
      (record { represents = empty_queue-Represents; first = refl; capacity = refl; tokens = refl })

-- The slot of the head holds 0, which does not decode.
abbrev corrupted : CommandQueue ℕ
corrupted = record one_message { slots = λ k. some 0 }

dequeue_txn-usable_example :
    let (cmd, q) = dequeue_txn codec corrupted in
    (usable q + lost cmd ≡ 2) × (q.head ≡ 4) × (q.tail ≡ 4)
unfolding dequeue_txn
dequeue_txn-usable_example = dequeue_txn-usable codec corrupted (omega arith)

corrupted_leaks : usable (dequeue_txn codec corrupted).1 ≡ 1
unfolding dequeue_txn
corrupted_leaks = refl

slots-clear_example : (clear true corrupted).slots 24415 ≡ some 0
slots-clear_example = slots-clear corrupted 24415

-- A producer reserves and writes; then the message is received.
abbrev written_once : World ℕ
written_once = record {
  queue = enqueue_txn codec (record empty_queue { space_sem = 1 }) 1 5;
  reserved = 0;
  returning = 0;
}

abbrev received_once : World ℕ
received_once = record written_once { queue = (dequeue_txn codec written_once.queue).1 }

written_once-Reach : Reach codec empty_queue written_once (5 ∷ []) []
written_once-Reach = write 5 0 (reserve 1 begin refl) refl

received_once-Reach : Reach codec empty_queue received_once (5 ∷ []) (5 ∷ [])
unfolding enqueue_txn dequeue_txn
received_once-Reach = receive 5 written_once-Reach (omega arith) refl

Reach-Delivered_example :
    (ms : List ℕ) × (◌≡◌ {A = List ℕ} (5 ∷ []) (5 ∷ ms)) × Keeps codec received_once ms
Reach-Delivered_example = Reach-Delivered codec empty_queue refl refl received_once-Reach
