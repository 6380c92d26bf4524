-- ===== src/CommandQueue/Fifo.antt =====
-- Runs of command_queue.py against runs of a bounded list: one caller's operations in sequence.
use etha.Prelude.{
  pair_eq, ℕ, zero, suc, ◌+◌, ◌-◌, ◌≤◌, min, ◌≡◌, refl, sym, ap, ap₂, subst, ◌∙◌, Bool, true, false,
  Option, none, some, List, [], ◌∷◌, ◌++◌, arith, ltb, nat_eq, list_eq, if◌then◌else◌, length, take,
  drop, length-drop,
}
use etha.CommandQueue.{
  Codec, CommandQueue, Wait, immediate, timed, unbounded, acquire, dequeue_wait, Enqueued, enqueued,
  queue_full, size, Dequeued, dequeued, get_message, enqueue, dequeue_txn, dequeue_now,
  dequeue_batch, peek, clear, drain, finish,
}
use etha.CommandQueue.Ring.{
  Holds, Holds-drop, get_message-Holds, collect-take, drain-eq-zero, release_times-eq-add,
}
use etha.CommandQueue.Refinement.{Represents, Appends, enqueue-Appends, Pops, dequeue_txn-Pops}

-- A bounded list, the position of its first message, and the item tokens: one comes with every
-- message, and one goes with every call of `get`, but none with the calls that do not wait.
pub record Fifo (Message : Type 0) : Type 0 where
  pub first : ℕ
  pub messages : List Message
  pub capacity : ℕ
  pub tokens : ℕ

pub data Call (Message : Type 0) : Type 0 where
  put : Wait → Message → Call Message
  get : Wait → Call Message
  get_now look count : Call Message
  get_batch : ℕ → Call Message
  wipe : Bool → Call Message

pub data Reply (Message : Type 0) : Type 0 where
  position : ℕ → Reply Message
  full no_reply waits : Reply Message
  message : Option Message → Reply Message
  batch : List Message → Reply Message
  number : ℕ → Reply Message

abbrev head_of {ℓ} : {A : Type ℓ} → List A → Option A
head_of [] = none
head_of (x ∷ xs) = some x

-- A call that cannot go on raises or returns, or waits if it is told to wait with no end.
abbrev pub refuse {ℓ} : {A : Type ℓ} → Wait → A → A → A
refuse unbounded now later = later
refuse _ now later = now

module _ {Message : Type 0} where
  -- The first message goes, if there is one.
  abbrev pub pop : Fifo Message → Reply Message × Fifo Message
  pop f = (
    message (head_of f.messages),
    record f { first = f.first + min 1 (length f.messages); messages = drop 1 f.messages },
  )

  abbrev pub get_answer : Wait → ℕ → Fifo Message → Reply Message × Fifo Message
  get_answer w zero f = (refuse w (message none) waits, f)
  get_answer w (suc n) f = pop (record f { tokens = n })

  -- What each call means for the list.
  abbrev pub answer : Call Message → Fifo Message → Reply Message × Fifo Message
  answer (put w m) f =
      if ltb (length f.messages) f.capacity
      then (
        position (f.first + length f.messages),
        record f { messages = f.messages ++ m ∷ []; tokens = f.tokens + 1 },
      )
      else (refuse w full waits, f)
  answer (get w) f = get_answer w f.tokens f
  answer get_now f = pop f
  answer look f = (message (head_of f.messages), f)
  answer count f = (number (length f.messages), f)
  answer (get_batch n) f = (
    batch (take n f.messages),
    record f { first = f.first + min n (length f.messages); messages = drop n f.messages },
  )
  answer (wipe b) f = (no_reply, record f { first = 0; messages = []; tokens = 0 })

  abbrev pub answers : List (Call Message) → Fifo Message → List (Reply Message)
  answers [] f = []
  answers (x ∷ xs) f = (answer x f).0 ∷ answers xs (answer x f).1

size_lem : {Bytes : Type 0} (q : CommandQueue Bytes) → size q ≡ q.tail - q.head
unfolding size
size_lem q = refl

clear_fields :
    {Bytes : Type 0} (b : Bool) (q : CommandQueue Bytes)
    → ((clear b q).head ≡ 0) × ((clear b q).capacity ≡ q.capacity) × ((clear b q).sem ≡ 0)
unfolding clear
clear_fields b q = (refl, refl, drain-eq-zero q.sem)

module _ {Message Bytes : Type 0} (c : Codec Message Bytes) where
  put_reply : CommandQueue Bytes → Enqueued Bytes → Reply Message × CommandQueue Bytes
  put_reply q (enqueued id q') = (position id, q')
  put_reply q queue_full = (full, q)
  put_reply q Enqueued.blocked = (waits, q)

  get_reply : CommandQueue Bytes → Dequeued Message Bytes → Reply Message × CommandQueue Bytes
  get_reply q (dequeued cmd q') = (message cmd, q')
  get_reply q Dequeued.blocked = (waits, q)

  -- A call on the queue itself.
  unfoldable pub perform : Call Message → CommandQueue Bytes → Reply Message × CommandQueue Bytes
  unfolding put_reply get_reply
  perform (put w m) q = put_reply q (enqueue c w m q)
  perform (get w) q = get_reply q (dequeue_wait c w q)
  perform get_now q = get_reply q (dequeue_now c q)
  perform look q = (message (peek c q), q)
  perform count q = (number (size q), q)
  perform (get_batch n) q = let (ms, q') = dequeue_batch c n q in (batch ms, q')
  perform (wipe b) q = (no_reply, clear b q)

  unfoldable pub replies : List (Call Message) → CommandQueue Bytes → List (Reply Message)
  unfolding perform
  replies [] q = []
  replies (x ∷ xs) q = (perform x q).0 ∷ replies xs (perform x q).1

  pub record Implements (q : CommandQueue Bytes) (f : Fifo Message) : Type 0 where
    pub represents : Represents c q f.messages
    pub first : q.head ≡ f.first
    pub capacity : q.capacity ≡ f.capacity
    pub tokens : q.sem ≡ f.tokens

  -- One call: the same reply, and the results correspond again.
  abbrev Matches : Reply Message × CommandQueue Bytes → Reply Message × Fifo Message → Type 0
  Matches (r, q) (s, f) = (r ≡ s) × Implements q f

  clear-Represents : (b : Bool) (q : CommandQueue Bytes) → Represents c (clear b q) []
  unfolding clear
  clear-Represents b q = record {
    pointers = omega arith;
    room =
        omega
          (arith, release_times-eq-add q.capacity (drain q.space_sem), drain-eq-zero q.space_sem);
    items = omega arith;
    held = tt;
  }

  pub dequeue_batch-Represents :
      (n : ℕ) (q : CommandQueue Bytes) (ms : List Message)
      → Represents c q ms
      → let (out, q') = dequeue_batch c n q in
        (out ≡ take n ms)
        × Represents c q' (drop n ms)
        × (q'.head ≡ q.head + min n (length ms))
        × (q'.capacity ≡ q.capacity)
        × (q'.sem ≡ q.sem)
  unfolding dequeue_batch size
  dequeue_batch-Represents n q ms r =
      let e : q.tail - q.head ≡ length ms = omega (arith, r.pointers) in
      rw e (
        collect-take c q q.head n ms r.held,
        record {
          pointers = omega (arith, r.pointers, length-drop {0} n ms);
          room = omega (
            arith,
            r.room,
            length-drop {0} n ms,
            release_times-eq-add (min n (length ms)) q.space_sem,
          );
          items = omega (arith, r.items, length-drop {0} n ms);
          held = Holds-drop c q.slots q.capacity q.head n ms r.held;
        },
        refl,
        refl,
        refl,
      )

  peek-head_of :
      (q : CommandQueue Bytes) (ms : List Message) → Represents c q ms → peek c q ≡ head_of ms
  unfolding peek size
  peek-head_of q [] r = ground (arith, r.pointers)
  peek-head_of q (m ∷ ms) r =
      let found : get_message c q q.head ≡ some m = get_message-Holds c q q.head m r.held.0 in
      ground (arith, found, r.pointers)

  put_reply-Matches :
      (w : Wait) (m : Message) (q : CommandQueue Bytes) (f : Fifo Message) (r : Enqueued Bytes)
      → Implements q f
      → Appends c w m q f.messages r
      → Matches (put_reply q r) (answer (put w m) f)
  unfolding put_reply
  put_reply-Matches w m q f (enqueued id q') i a =
      let fits : ltb (length f.messages) f.capacity ≡ true = ground (arith, a.2, i.capacity) in
      rw fits (
        ap position (omega (arith, a.0, i.first)),
        record {
          represents = a.1;
          first = a.4 ∙ i.first;
          capacity = a.3 ∙ i.capacity;
          tokens = omega (arith, a.5, i.tokens);
        },
      )
  put_reply-Matches immediate m q f queue_full i a =
      let stuck : ltb (length f.messages) f.capacity ≡ false = ground (arith, a.1, i.capacity) in
      rw stuck (refl, i)
  put_reply-Matches timed m q f queue_full i a =
      let stuck : ltb (length f.messages) f.capacity ≡ false = ground (arith, a.1, i.capacity) in
      rw stuck (refl, i)
  put_reply-Matches unbounded m q f queue_full i a = absurd (a.0 refl)
  put_reply-Matches immediate m q f Enqueued.blocked i a = absurd (cc a.0)
  put_reply-Matches timed m q f Enqueued.blocked i a = absurd (cc a.0)
  put_reply-Matches unbounded m q f Enqueued.blocked i a =
      let stuck : ltb (length f.messages) f.capacity ≡ false = ground (arith, a.1, i.capacity) in
      rw stuck (refl, i)

  -- The transaction of a `get`, on a queue with a token more than its messages need or as many.
  pop-Matches :
      (q : CommandQueue Bytes) (first capacity tokens : ℕ) (ms : List Message)
      → q.tail ≡ q.head + length ms
      → length ms + q.space_sem ≡ q.capacity
      → length ms ≤ q.sem + 1
      → Holds c q.slots q.capacity q.head ms
      → q.head ≡ first
      → q.capacity ≡ capacity
      → q.sem ≡ tokens
      → Pops c q ms (dequeue_txn c q)
      → Matches
          (get_reply q (finish c (dequeue_txn c q)))
          (pop (record { first = first; messages = ms; capacity = capacity; tokens = tokens }))
  unfolding get_reply finish
  pop-Matches q first capacity tokens [] pt ro it he fi ca to p = rw p (
    refl,
    record {
      represents = record { pointers = pt; room = ro; items = omega arith; held = he };
      first = omega (arith, fi);
      capacity = ca;
      tokens = to;
    },
  )
  pop-Matches q first capacity tokens (m ∷ ms) pt ro it he fi ca to (cmd, r, next, cap, sem) = (
    ap message cmd,
    record {
      represents = r;
      first = omega (arith, next, fi);
      capacity = cap ∙ ca;
      tokens = sem ∙ to;
    },
  )

  -- `get` waits for a token.
  get-Matches :
      (w : Wait) (q : CommandQueue Bytes) (f : Fifo Message) (n : ℕ)
      → q.sem ≡ n
      → Implements q f
      → Matches (get_reply q (dequeue_wait c w q)) (get_answer w n f)
  unfolding dequeue_wait acquire get_reply
  get-Matches immediate q f zero e i = rw (dequeue_wait, e) (refl, i)
  get-Matches timed q f zero e i = rw (dequeue_wait, e) (refl, i)
  get-Matches unbounded q f zero e i =
      let stuck : dequeue_wait c unbounded q ≡ Dequeued.blocked = rw (dequeue_wait, e) refl in
      subst (λ (r : Dequeued Message Bytes). Matches (get_reply q r) (get_answer unbounded zero f))
        (sym stuck) (refl, i)
  get-Matches w q f (suc n) e i =
      let r = i.represents in
      let taken : CommandQueue Bytes = record q { sem = n } in
      let short : length f.messages ≤ n + 1 = omega (arith, r.items, e) in
      rw (dequeue_wait, e)
        (pop-Matches taken f.first f.capacity n f.messages r.pointers r.room short r.held i.first
          i.capacity refl (dequeue_txn-Pops c taken f.messages r.pointers r.room short r.held))

  get_now-Matches :
      (q : CommandQueue Bytes) (f : Fifo Message)
      → Implements q f
      → Matches (get_reply q (dequeue_now c q)) (pop f)
  unfolding dequeue_now
  get_now-Matches q f i =
      let r = i.represents in
      let short : length f.messages ≤ q.sem + 1 = omega (arith, r.items) in
      pop-Matches q f.first f.capacity f.tokens f.messages r.pointers r.room short r.held i.first
        i.capacity i.tokens (dequeue_txn-Pops c q f.messages r.pointers r.room short r.held)

  perform-Matches :
      (x : Call Message) (q : CommandQueue Bytes) (f : Fifo Message)
      → Implements q f
      → Matches (perform x q) (answer x f)
  unfolding perform
  perform-Matches (put w m) q f i =
      put_reply-Matches w m q f (enqueue c w m q) i
        (enqueue-Appends c w m q f.messages i.represents)
  perform-Matches (get w) q f i = get-Matches w q f f.tokens i.tokens i
  perform-Matches get_now q f i = get_now-Matches q f i
  perform-Matches look q f i = (ap message (peek-head_of q f.messages i.represents), i)
  perform-Matches count q f i = (ap number (omega (arith, size_lem q, i.represents.pointers)), i)
  perform-Matches (get_batch n) q f i =
      let (out, rep, first, cap, sem) = dequeue_batch-Represents n q f.messages i.represents in
      (
        ap batch out,
        record {
          represents = rep;
          first = omega (arith, first, i.first);
          capacity = cap ∙ i.capacity;
          tokens = sem ∙ i.tokens;
        },
      )
  perform-Matches (wipe b) q f i =
      let (first, cap, sem) = clear_fields b q in
      (
        refl,
        record {
          represents = clear-Represents b q;
          first = first;
          capacity = cap ∙ i.capacity;
          tokens = sem;
        },
      )

  -- From a queue that implements a bounded list with item tokens, any sequence of calls by one
  -- caller, each `put` and `get` with any wait, is answered as the list answers it. A call that would
  -- wait with no end is answered as such, and leaves the queue as it is.
  pub replies-eq-answers :
      (xs : List (Call Message)) (q : CommandQueue Bytes) (f : Fifo Message)
      → Implements q f
      → replies xs q ≡ answers xs f
  unfolding replies
  replies-eq-answers [] q f i = refl
  replies-eq-answers (x ∷ xs) q f i =
      let (same, next) = perform-Matches x q f i in
      ap₂ (◌∷◌) same (replies-eq-answers xs (perform x q).1 (answer x f).1 next)
