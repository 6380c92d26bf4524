-- ===== src/Comm/Routes/Complete.antt =====
-- The routes of get_m2m_map.py: one for each cell of the map, in strictly ascending order.
use mathlib.Core.List.{map-append}
use etha.Prelude.{
  nat_beq_iff, ℕ, ◌≡◌, refl, ap, ap₂, ◌∙◌, Bool, true, ◌&&◌, ◌||◌, List, [], ◌∷◌, ◌++◌, map, arith,
  ltb, ◌==◌, nat_eq, list_eq,
}
use etha.Prelude.Sorting.{
  sorted_set, sorted_set-Ascends, contains, contains-sorted_set, Ascends, Above, nat_order,
  lex_order,
}
use etha.Comm.Ir.{Route}
use etha.Comm.Routes.{RankMap, cells_of, keys, route_at, rank_routes, all_routes, dict_to_routes}

-- The key by which routes are sorted: `(src_rank, cell)`.
abbrev pub route_key : Route → List ℕ
route_key r = r.src.rank ∷ r.src.cell

abbrev sorted_cells : RankMap → ℕ → List (List ℕ)
sorted_cells m r = sorted_set (keys (cells_of m r))

abbrev keys_of : RankMap → List ℕ → List (List ℕ)
keys_of m [] = []
keys_of m (r ∷ rs) = map (◌∷◌ r) (sorted_cells m r) ++ keys_of m rs

map-route_key :
    (m : RankMap) (r : ℕ) (cs : List (List ℕ))
    → map route_key (map (route_at m r) cs) ≡ map (◌∷◌ r) cs
unfolding route_at
map-route_key m r [] = refl
map-route_key m r (c ∷ cs) = ap (◌∷◌ (r ∷ c)) (map-route_key m r cs)

keys_of-all_routes : (m : RankMap) (rs : List ℕ) → map route_key (all_routes m rs) ≡ keys_of m rs
unfolding all_routes rank_routes
keys_of-all_routes m [] = refl
keys_of-all_routes m (r ∷ rs) =
    map-append route_key (map (route_at m r) (sorted_cells m r)) (all_routes m rs)
    ∙ ap₂ (◌++◌) (map-route_key m r (sorted_cells m r)) (keys_of-all_routes m rs)

Above-append : (a : List ℕ) (xs ys : List (List ℕ)) → Above a xs → Above a ys → Above a (xs ++ ys)
Above-append a [] ys hx hy = hy
Above-append a (x ∷ xs) ys hx hy = (hx.0, Above-append a xs ys hx.1 hy)

Above-map_cons :
    (r : ℕ) (c : List ℕ) (cs : List (List ℕ)) → Above c cs → Above (r ∷ c) (map (◌∷◌ r) cs)
Above-map_cons r c [] h = tt
Above-map_cons r c (x ∷ cs) h = (ground (arith, h.0), Above-map_cons r c cs h.1)

Above-map_cons_lt :
    (r s : ℕ) (c : List ℕ) (cs : List (List ℕ)) → ltb r s ≡ true → Above (r ∷ c) (map (◌∷◌ s) cs)
Above-map_cons_lt r s c [] h = tt
Above-map_cons_lt r s c (x ∷ cs) h = (ground (arith, h), Above-map_cons_lt r s c cs h)

Above-keys_of :
    (m : RankMap) (r : ℕ) (c : List ℕ) (rs : List ℕ) → Above r rs → Above (r ∷ c) (keys_of m rs)
Above-keys_of m r c [] h = tt
Above-keys_of m r c (s ∷ rs) h =
    Above-append (r ∷ c) (map (◌∷◌ s) (sorted_cells m s)) (keys_of m rs)
      (Above-map_cons_lt r s c (sorted_cells m s) h.0) (Above-keys_of m r c rs h.1)

Ascends-block :
    (m : RankMap) (r : ℕ) (rs : List ℕ) (cs : List (List ℕ))
    → Ascends cs
    → Above r rs
    → Ascends (keys_of m rs)
    → Ascends (map (◌∷◌ r) cs ++ keys_of m rs)
Ascends-block m r rs [] p q h = h
Ascends-block m r rs (c ∷ cs) p q h = (
  Above-append (r ∷ c) (map (◌∷◌ r) cs) (keys_of m rs) (Above-map_cons r c cs p.0)
      (Above-keys_of m r c rs q),
  Ascends-block m r rs cs p.1 q h,
)

Ascends-keys_of : (m : RankMap) (rs : List ℕ) → Ascends rs → Ascends (keys_of m rs)
Ascends-keys_of m [] h = tt
Ascends-keys_of m (r ∷ rs) h =
    Ascends-block m r rs (sorted_cells m r) (sorted_set-Ascends (keys (cells_of m r))) h.0
      (Ascends-keys_of m rs h.1)

contains-append :
    (xs ys : List (List ℕ)) (a : List ℕ) → contains (xs ++ ys) a ≡ (contains xs a || contains ys a)
contains-append [] ys a = refl
contains-append (x ∷ xs) ys a = ground (arith, contains-append xs ys a)

contains-map_cons :
    (r s : ℕ) (c : List ℕ) (cs : List (List ℕ))
    → contains (map (◌∷◌ s) cs) (r ∷ c) ≡ (r == s && contains cs c)
contains-map_cons r s c [] = ground arith
contains-map_cons r s c (x ∷ cs) = ground (arith, contains-map_cons r s c cs)

contains-keys_of :
    (m : RankMap) (r : ℕ) (c : List ℕ) (rs : List ℕ)
    → contains (keys_of m rs) (r ∷ c) ≡ (contains rs r && contains (keys (cells_of m r)) c)
contains-keys_of m r c [] = refl
contains-keys_of m r c (s ∷ rs) = ground (
  arith,
  contains-append (map (◌∷◌ s) (sorted_cells m s)) (keys_of m rs) (r ∷ c),
  contains-map_cons r s c (sorted_cells m s),
  contains-keys_of m r c rs,
  contains-sorted_set (keys (cells_of m s)) c,
  nat_beq_iff r s,
)

-- The routes ascend strictly by source rank and cell, so no cell has two; a cell has one exactly if
-- the map has an entry for it.
pub dict_to_routes-keys :
    (m : RankMap)
    → Ascends (map route_key (dict_to_routes m))
      × ((r : ℕ) (c : List ℕ)
          → contains (map route_key (dict_to_routes m)) (r ∷ c)
            ≡ (contains (keys m) r && contains (keys (cells_of m r)) c))
unfolding dict_to_routes
dict_to_routes-keys m = rw (keys_of-all_routes m (sorted_set (keys m))) (
  Ascends-keys_of m (sorted_set (keys m)) (sorted_set-Ascends (keys m)),
  λ r c.
      contains-keys_of m r c (sorted_set (keys m))
      ∙ ap (λ (b : Bool). b && contains (keys (cells_of m r)) c) (contains-sorted_set (keys m) r),
)
