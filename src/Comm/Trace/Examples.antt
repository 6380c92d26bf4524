-- ===== src/Comm/Trace/Examples.antt =====
-- The trace of get_m2m_map.py at small cells.
use etha.Prelude.{
  ℕ, ◌*◌, ◌/◌, ◌^◌, ◌≤◌, ◌≡◌, refl, ◌↔◌, [], ◌∷◌, arith, leb, nat_eq, list_eq, if◌then◌else◌,
}
use etha.Comm.Trace.{Float32, traced, encode_cell, decode_cell}
use etha.Comm.Trace.Roundtrip.{traced_iff}

-- Above 2^24 only even numbers are held.
abbrev store : ℕ → ℕ
store n = if leb n (2 ^ 24) then n else n / 2 * 2

store-exact : (n : ℕ) → n ≤ 2 ^ 24 → store n ≡ n
store-exact n h = ground arith

abbrev float32 : Float32
float32 = record { store = store; exact = store-exact }

-- Rank 4200 with base 64 in two dimensions is above 2^24.
traced_iff_example :
    (traced float32 64 4200 (0 ∷ 1 ∷ []) ≡ (4200, 0 ∷ 1 ∷ []))
    ↔ (store (encode_cell 64 4200 (0 ∷ 1 ∷ [])) ≡ encode_cell 64 4200 (0 ∷ 1 ∷ []))
traced_iff_example = traced_iff float32 64 4200 (0 ∷ 1 ∷ []) (omega arith, (omega arith, tt))

rounded : traced float32 64 4200 (0 ∷ 1 ∷ []) ≡ (4200, 0 ∷ 0 ∷ [])
unfolding traced encode_cell decode_cell
rounded = refl
