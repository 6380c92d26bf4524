-- ===== src/Comm/Routes/Canonical.antt =====
-- The list of routes of get_m2m_map.py: in ascending order of the source cells, complete, and the
-- same for every order in which the map was built.
use etha.Prelude.{ℕ, ◌≡◌, refl, ap, ap₂, fun_ext, List, [], ◌∷◌, ◌++◌, map, nat_eq, list_eq}
use etha.Prelude.Sorting.{sorted_set, sorted_set_ext, contains, nat_order, lex_order}
use etha.Comm.Ir.{Endpoint, Route}
use etha.Comm.Routes.{
  RankMap, cells_of, destinations, keys, kind_of, route_at, rank_routes, all_routes, dict_to_routes,
}

-- Two maps that hold the same: the same keys and the same destinations, in whatever order the keys
-- were inserted.
pub record SameMap (m n : RankMap) : Type 0 where
  pub ranks : (r : ℕ) → contains (keys m) r ≡ contains (keys n) r
  pub cells :
      (r : ℕ) (c : List ℕ) → contains (keys (cells_of m r)) c ≡ contains (keys (cells_of n r)) c
  pub dests : (r : ℕ) (c : List ℕ) → destinations m r c ≡ destinations n r c

rank_routes-SameMap : (m n : RankMap) (r : ℕ) → SameMap m n → rank_routes m r ≡ rank_routes n r
unfolding rank_routes route_at
rank_routes-SameMap m n r s =
    rw (sorted_set_ext (keys (cells_of m r)) (keys (cells_of n r)) (s.cells r)) (
      ap (λ (f : List ℕ → Route). map f (sorted_set (keys (cells_of n r))))
        (fun_ext λ c.
          ap
            (λ (ds : List Endpoint). record {
              src = record { rank = r; cell = c };
              dsts = ds;
              kind = kind_of ds;
            })
            (s.dests r c)))

all_routes-SameMap : (m n : RankMap) (rs : List ℕ) → SameMap m n → all_routes m rs ≡ all_routes n rs
unfolding all_routes
all_routes-SameMap m n [] s = refl
all_routes-SameMap m n (r ∷ rs) s =
    ap₂ (◌++◌) (rank_routes-SameMap m n r s) (all_routes-SameMap m n rs s)

-- Every rank lists the same routes in the same order, even if its dict was filled in another order.
pub dict_to_routes-SameMap : (m n : RankMap) → SameMap m n → dict_to_routes m ≡ dict_to_routes n
unfolding dict_to_routes
dict_to_routes-SameMap m n s =
    rw (sorted_set_ext (keys m) (keys n) s.ranks) (all_routes-SameMap m n (sorted_set (keys n)) s)
