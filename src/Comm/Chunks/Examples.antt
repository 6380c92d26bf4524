-- ===== src/Comm/Chunks/Examples.antt =====
-- The chunks of two ranks for a map of two routes.
use etha.Prelude.{
  select, ℕ, ◌≡◌, refl, Option, none, some, List, [], ◌∷◌, map, arith, ◌==◌, nat_eq, list_eq,
}
use etha.Prelude.Sorting.{contains, nat_order}
use etha.Comm.Slices.{range_from}
use etha.Comm.Ir.{Chunk, Tensor, M2MMap, Endpoint, p2p, broadcast}
use etha.Comm.Chunks.{m2m_to_chunks}
use etha.Comm.Chunks.Lockstep.{wire_of, sender, receiver, chunks_lockstep}

abbrev tensor : ℕ → Tensor
tensor n = record { id = n; shape = 4 ∷ []; dtype = record { name = 0; itemsize = 2 } }

abbrev endpoint : ℕ → ℕ → Endpoint
endpoint r i = record { rank = r; cell = i ∷ [] }

abbrev m2m : M2MMap
m2m = record {
  routes =
      record { src = endpoint 0 0; dsts = endpoint 2 0 ∷ endpoint 3 0 ∷ []; kind = broadcast }
      ∷ record { src = endpoint 0 1; dsts = endpoint 2 1 ∷ []; kind = p2p }
      ∷ [];
  source_num_slicers = 2 ∷ [];
  target_num_slicers = 2 ∷ [];
  source_partial_reductions = [];
}

abbrev chunks_of : Option (List Chunk) → List Chunk
chunks_of none = []
chunks_of (some cs) = cs

chunks_lockstep_example :
    let xs = chunks_of (m2m_to_chunks (sender 0 (tensor 0) none [] m2m) m2m.routes) in
    let ys = chunks_of (m2m_to_chunks (receiver 2 (tensor 1) none m2m) m2m.routes) in
    select (λ w. contains w.dst_ranks 2) (map wire_of xs)
    ≡ select (λ w. w.src_rank == 0) (map wire_of ys)
unfolding range_from
chunks_lockstep_example =
    chunks_lockstep m2m 0 2 (tensor 0) (tensor 1) none []
      (chunks_of (m2m_to_chunks (sender 0 (tensor 0) none [] m2m) m2m.routes))
      (chunks_of (m2m_to_chunks (receiver 2 (tensor 1) none m2m) m2m.routes))
      (unfold m2m_to_chunks in refl) (unfold m2m_to_chunks in refl) (omega arith, (omega arith, tt))
