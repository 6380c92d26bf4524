-- ===== src/Comm/Trace.antt =====
-- src/etha/comm/get_m2m_map.py, the trace: each cell of a source shard is filled with a number that
-- encodes its rank and coordinates; the target side decodes the numbers that arrive.
pub mod Roundtrip
mod Examples
use Prim.Native.Nat.{◌∣◌}
use mathlib.Core.List.{reverse}
use etha.Prelude.{
  ℕ, zero, suc, ◌+◌, ◌-◌, ◌*◌, ◌/◌, ◌%◌, ◌^◌, ◌≤◌, ◌<◌, min, max, ◌≡◌, refl, sym, ap, ap₂, subst,
  fun_ext, ◌∙◌, ◌≢◌, ◌↔◌, ◌⊎◌, inl, inr, Bool, true, false, ◌&&◌, ◌||◌, not, Option, none, some,
  List, [], ◌∷◌, ◌++◌, map, arith, ltb, leb, ◌==◌, Eq, nat_eq, list_eq, if◌then◌else◌, Bool-cases,
  Option-cases, length, get_elem?, take, drop, length-append, length-drop, All, All-append, sum,
  sum-append,
}

-- `encoded_value = encoded_value * base + coord` for each coordinate, from the rank on.
unfoldable pub encode_cell : ℕ → ℕ → List ℕ → ℕ
encode_cell base value [] = value
encode_cell base value (coord ∷ idx) = encode_cell base (value * base + coord) idx

-- The decoding loop: the remainders in the order found, and what is left.
unfoldable pub decode_loop : ℕ → ℕ → ℕ → List ℕ × ℕ
decode_loop base zero temp = ([], temp)
decode_loop base (suc n) temp =
    let (coords, rank) = decode_loop base n (temp / base) in ((temp % base) ∷ coords, rank)

-- `(source_rank, source_idx)` for `n` dimensions.
unfoldable pub decode_cell : ℕ → ℕ → ℕ → ℕ × List ℕ
unfolding decode_loop
decode_cell base n value = let (coords, rank) = decode_loop base n value in (rank, reverse coords)

-- A number written to an entry of the traced tensor and read back. The tensor has torch's default
-- type, a 32-bit float: integers up to 2^24 are exact.
pub record Float32 : Type 0 where
  pub store : ℕ → ℕ
  pub exact : (n : ℕ) → n ≤ 2 ^ 24 → store n ≡ n

unfoldable pub traced : Float32 → ℕ → ℕ → List ℕ → ℕ × List ℕ
unfolding encode_cell decode_cell
traced f base rank idx = decode_cell base (length idx) (f.store (encode_cell base rank idx))
