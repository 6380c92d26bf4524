-- ===== src/Comm/Chunks/Lockstep.antt =====
-- get_chunks.py on two ranks: what one rank ships to another, and what the other expects from it.
use mathlib.Core.List.{map-append, append-nil, append_assoc}
use etha.Prelude.{
  select, select-append, nat_beq_iff, ℕ, zero, suc, ◌≤◌, ◌≡◌, refl, sym, ap, ap₂, ◌∙◌, inl, inr,
  Bool, Option, none, some, List, [], ◌∷◌, ◌++◌, map, arith, ltb, ◌==◌, nat_eq, list_eq,
  if◌then◌else◌, Bool-cases, All,
}
use etha.Prelude.Sorting.{contains, contains-sorted_set, nat_order}
use etha.Comm.Slices.{Slice}
use etha.Comm.Ir.{Endpoint, Route, Transport, M2MMap, Dtype, PartialGroup, Tensor, Chunk}
use etha.Comm.Chunks.{
  Args, Emitted, ◌>>=◌, dst_ranks_of, slices_of, source_chunk, recv_chunk, emit_dst, dst_loop,
  flatten_emitted, source_part, route_chunks, m2m_to_chunks,
}

-- What identifies a wire operation on both of its ends.
pub record Wire : Type 0 where
  pub src_rank : ℕ
  pub dst_ranks : List ℕ
  pub transport : Transport
  pub src_idx : List ℕ

abbrev pub wire_of : Chunk → Wire
wire_of c = record {
  src_rank = c.src_rank;
  dst_ranks = c.dst_ranks;
  transport = c.transport;
  src_idx = c.src_idx;
}

abbrev pub route_wire : Route → Wire
route_wire r = record {
  src_rank = r.src.rank;
  dst_ranks = dst_ranks_of r;
  transport = r.kind;
  src_idx = r.src.cell;
}

-- How many cells of a route go to a rank.
abbrev pub count_dst : ℕ → List Endpoint → ℕ
count_dst rank [] = 0
count_dst rank (d ∷ ds) = if d.rank == rank then suc (count_dst rank ds) else count_dst rank ds

abbrev pub replicate {ℓ} : {A : Type ℓ} → ℕ → A → List A
replicate zero a = []
replicate (suc n) a = a ∷ replicate n a

pub >>=-eq-some {ℓ κ} :
    {A : Type ℓ} {B : Type κ} (m : Option A) (f : A → Option B) {b : B}
    → (m >>= f) ≡ some b
    → (a : A) × (m ≡ some a) × (f a ≡ some b)
>>=-eq-some none f h = cc
>>=-eq-some (some a) f h = (a, refl, h)

pub some-injective {ℓ} : {A : Type ℓ} (a b : A) → some a ≡ some b → a ≡ b
some-injective a b h = cc

-- The two calls of a split agent: with the tensor to send, or with the tensor to fill.
abbrev pub sender : ℕ → Tensor → Option Dtype → List PartialGroup → M2MMap → Args
sender rank s dtype groups m = record {
  rank = rank;
  source_tensor = some s;
  target_tensor = none;
  transfer_dtype = dtype;
  source_partial_groups = groups;
  source_num_slicers = m.source_num_slicers;
  target_num_slicers = m.target_num_slicers;
}

abbrev pub receiver : ℕ → Tensor → Option Dtype → M2MMap → Args
receiver rank t dtype m = record {
  rank = rank;
  source_tensor = none;
  target_tensor = some t;
  transfer_dtype = dtype;
  source_partial_groups = [];
  source_num_slicers = m.source_num_slicers;
  target_num_slicers = m.target_num_slicers;
}

abbrev sent : ℕ → Route → List Wire
sent rank r = if r.src.rank == rank then route_wire r ∷ [] else []

abbrev expected : ℕ → Route → List Wire
expected rank r = replicate (count_dst rank r.dsts) (route_wire r)

-- The wires of the chunks of a list of routes, route by route.
abbrev per_route : (Route → List Wire) → List Route → List Wire
per_route f [] = []
per_route f (r ∷ rs) = f r ++ per_route f rs

wires_per_route :
    (a : Args) (f : Route → List Wire)
    → ((r : Route) (cs : List Chunk) → route_chunks a r ≡ some cs → map wire_of cs ≡ f r)
    → (rs : List Route) (cs : List Chunk) → m2m_to_chunks a rs ≡ some cs
    → map wire_of cs ≡ per_route f rs
unfolding m2m_to_chunks
wires_per_route a f one [] cs h = rw (← some-injective [] cs h) refl
wires_per_route a f one (r ∷ rs) cs h =
    let (xs, hx, h') = >>=-eq-some (route_chunks a r) _ h in
    let (ys, hy, e) = >>=-eq-some (m2m_to_chunks a rs) _ h' in
    rw (← some-injective (xs ++ ys) cs e)
      (map-append wire_of xs ys ∙ ap₂ (◌++◌) (one r xs hx) (wires_per_route a f one rs ys hy))

module _ (rank : ℕ) (s : Tensor) (dtype : Option Dtype) (groups : List PartialGroup)
    (m : M2MMap) where
  dst_loop-sender :
      (r : Route) (sl : List Slice) (ds : List Endpoint) (e : Emitted)
      → dst_loop (sender rank s dtype groups m) r sl ds e ≡ some e
  unfolding dst_loop emit_dst slices_of
  dst_loop-sender r sl [] e = refl
  dst_loop-sender r sl (d ∷ ds) e = ground (arith, dst_loop-sender r sl ds e)

  wires-sender_own :
      (r : Route) (sl : List Slice) (cs : List Chunk)
      → r.src.rank ≡ rank
      → some (flatten_emitted (source_part (sender rank s dtype groups m) r sl (some s), []))
        ≡ some cs
      → map wire_of cs ≡ route_wire r ∷ []
  unfolding source_part source_chunk
  wires-sender_own r sl cs e h = ground (arith, h, e)

  wires-sender_route :
      (r : Route) (cs : List Chunk)
      → route_chunks (sender rank s dtype groups m) r ≡ some cs
      → map wire_of cs ≡ sent rank r
  unfolding route_chunks
  wires-sender_route r cs h = elim (Bool-cases (r.src.rank == rank)) [
    | inl own ↦
        let (sl, hs, h') =
          >>=-eq-some (slices_of (some s) m.source_num_slicers r.src.cell) _ (rw own at h) in
        rw own (
          wires-sender_own r sl cs ((nat_beq_iff r.src.rank rank).0 own) (
            rw
              (dst_loop-sender r sl r.dsts
                (source_part (sender rank s dtype groups m) r sl (some s), []))
              at h'))
    | inr other ↦ rw other (
        ap (map wire_of)
          (sym (some-injective [] cs (rw (other, dst_loop-sender r [] r.dsts (none, [])) at h))))
  ]

module _ (rank : ℕ) (t : Tensor) (dtype : Option Dtype) (m : M2MMap) where
  wires-dst_loop :
      (r : Route) (sl : List Slice) (ds : List Endpoint) (out : List Chunk) (e : Emitted)
      → dst_loop (receiver rank t dtype m) r sl ds (none, out) ≡ some e
      → (xs : List Chunk) × (e ≡ (none, xs))
        × (map wire_of xs ≡ map wire_of out ++ replicate (count_dst rank ds) (route_wire r))
  unfolding dst_loop emit_dst recv_chunk
  wires-dst_loop r sl [] out e h =
      (out, sym (some-injective (none, out) e h), sym (append-nil (map wire_of out)))
  wires-dst_loop r sl (d ∷ ds) out e h = elim (Bool-cases (d.rank == rank)) [
    | inl here ↦
        let (sl', hs, h') =
          >>=-eq-some (slices_of (some t) m.target_num_slicers d.cell) _ (rw here at h) in
        let got : Chunk = recv_chunk (receiver rank t dtype m) r t d sl' in
        let (xs, p, q) = wires-dst_loop r sl ds (out ++ got ∷ []) e h' in
        rw here (
          xs,
          p,
          q
              ∙ ap (λ (l : List Wire). l ++ replicate (count_dst rank ds) (route_wire r))
                  (map-append wire_of out (got ∷ []))
              ∙ append_assoc (map wire_of out) (route_wire r ∷ [])
                  (replicate (count_dst rank ds) (route_wire r)),
        )
    | inr other ↦ rw other (wires-dst_loop r sl ds out e (rw other at h))
  ]

  wires-receiver_flat :
      (r : Route) (cs : List Chunk)
      → (dst_loop (receiver rank t dtype m) r [] r.dsts (none, []) >>= λ e.
          some (flatten_emitted e))
        ≡ some cs
      → map wire_of cs ≡ expected rank r
  wires-receiver_flat r cs h =
      let (e, p, q) = >>=-eq-some (dst_loop (receiver rank t dtype m) r [] r.dsts (none, [])) _ h in
      let (xs, same, wires) = wires-dst_loop r [] r.dsts [] e p in
      let out : xs ≡ cs = some-injective xs cs (rw same at q) in rw (← out) wires

  wires-receiver_route :
      (r : Route) (cs : List Chunk)
      → route_chunks (receiver rank t dtype m) r ≡ some cs
      → map wire_of cs ≡ expected rank r
  unfolding route_chunks slices_of source_part
  wires-receiver_route r cs h = elim (Bool-cases (r.src.rank == rank)) [
    | inl own ↦ wires-receiver_flat r cs (rw own at h)
    | inr other ↦ wires-receiver_flat r cs (rw other at h)
  ]

contains-count_dst :
    (rank : ℕ) (ds : List Endpoint)
    → contains (map (λ d. d.rank) ds) rank ≡ ltb 0 (count_dst rank ds)
contains-count_dst rank [] = refl
contains-count_dst rank (d ∷ ds) = ground (arith, contains-count_dst rank ds)

contains-dst_ranks :
    (rank : ℕ) (r : Route) → contains (dst_ranks_of r) rank ≡ ltb 0 (count_dst rank r.dsts)
unfolding dst_ranks_of
contains-dst_ranks rank r =
    contains-sorted_set (map (λ d. d.rank) r.dsts) rank ∙ contains-count_dst rank r.dsts

abbrev is_for : ℕ → Wire → Bool
is_for d w = contains w.dst_ranks d

abbrev is_from : ℕ → Wire → Bool
is_from s w = w.src_rank == s

select-route :
    (s d n : ℕ) (r : Route)
    → count_dst d r.dsts ≡ n
    → n ≤ 1
    → select (is_for d) (sent s r) ≡ select (is_from s) (expected d r)
select-route s d zero r e h = rw e (ground (arith, rw e at (contains-dst_ranks d r)))
select-route s d (suc zero) r e h = rw e (ground (arith, rw e at (contains-dst_ranks d r)))
select-route s d (suc (suc n)) r e h = absurd (omega arith)

select-per_route :
    (s d : ℕ) (rs : List Route)
    → All (λ r. count_dst d r.dsts ≤ 1) rs
    → select (is_for d) (per_route (sent s) rs) ≡ select (is_from s) (per_route (expected d) rs)
select-per_route s d [] h = refl
select-per_route s d (r ∷ rs) h =
    select-append (is_for d) (sent s r) (per_route (sent s) rs)
    ∙ ap₂ (◌++◌) (select-route s d (count_dst d r.dsts) r refl h.0) (select-per_route s d rs h.1)
    ∙ sym (select-append (is_from s) (expected d r) (per_route (expected d) rs))

-- If no route sends one rank two cells, the chunks that rank `s` ships to rank `d`, in order, are
-- those that `d` expects from `s`, in order: the same sources, destinations, transports and cells.
pub chunks_lockstep :
    (m : M2MMap) (s d : ℕ) (source target : Tensor) (dtype : Option Dtype)
    (groups : List PartialGroup) (xs ys : List Chunk)
    → m2m_to_chunks (sender s source dtype groups m) m.routes ≡ some xs
    → m2m_to_chunks (receiver d target dtype m) m.routes ≡ some ys
    → All (λ r. count_dst d r.dsts ≤ 1) m.routes
    → select (λ w. contains w.dst_ranks d) (map wire_of xs)
      ≡ select (λ w. w.src_rank == s) (map wire_of ys)
chunks_lockstep m s d source target dtype groups xs ys hx hy h =
    let from_s : map wire_of xs ≡ per_route (sent s) m.routes =
      wires_per_route (sender s source dtype groups m) (sent s)
        (wires-sender_route s source dtype groups m) m.routes xs hx in
    let to_d : map wire_of ys ≡ per_route (expected d) m.routes =
      wires_per_route (receiver d target dtype m) (expected d)
        (wires-receiver_route d target dtype m) m.routes ys hy in
    rw (from_s, to_d) (select-per_route s d m.routes h)
