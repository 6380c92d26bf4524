-- ===== src/Comm/Layout/Agree.antt =====
-- The two sides of get_m2m_map.py cut a tensor into pieces of one size.
use Prim.Native.Nat.{◌∣◌}
use native.Mathlib.Nat.{
  dvd_refl, dvd-mod_iff, dvd-mul_left, dvd-mul_right, div-div-eq-div-mul, mul-div_cancel',
  div-mul_cancel, dvd-zero,
}
use etha.Prelude.{
  pair_eq, ℕ, zero, suc, ◌+◌, ◌*◌, ◌/◌, ◌%◌, ◌<◌, ◌≡◌, refl, sym, ap, ap₂, ◌∙◌, false, List, [],
  ◌∷◌, arith, ◌==◌, nat_eq, list_eq,
}
use etha.Comm.Layout.{gcd_rounds, gcd, lcm, middle_tensor_shape, num_slicers, zip_with}

gcd_rounds-dvd : (f a b : ℕ) → b < f → (gcd_rounds f a b ∣ a) × (gcd_rounds f a b ∣ b)
unfolding gcd_rounds
gcd_rounds-dvd zero a b h = elim h [ ]
gcd_rounds-dvd (suc f) a zero h = (dvd_refl a, dvd-zero a)
gcd_rounds-dvd (suc f) a (suc b) h =
    let (p, q) = gcd_rounds-dvd f (suc b) (a % suc b) (omega arith) in
    let more : (suc b == 0) ≡ false = ground arith in
    rw more ((dvd-mod_iff (gcd_rounds f (suc b) (a % suc b)) p).0 q, p)

pub gcd-dvd : (a b : ℕ) → (gcd a b ∣ a) × (gcd a b ∣ b)
unfolding gcd
gcd-dvd a b = gcd_rounds-dvd (b + 1) a b (omega arith)

lcm-eq_mul : (a b : ℕ) → lcm a b ≡ a * (b / gcd a b)
unfolding lcm
lcm-eq_mul a b =
    let (p, q) = gcd-dvd a b in
    let g : ℕ = gcd a b in
    let left : a / g * g ≡ a = div-mul_cancel g p in
    let right : g * (b / g) ≡ b = mul-div_cancel' g q in
    omega (arith, ap (λ (t : ℕ). t * (b / g)) left, ap (λ (t : ℕ). a / g * t) right)

-- `lcm a b` is a multiple of both numbers.
pub dvd-lcm : (a b : ℕ) → (a ∣ lcm a b) × (b ∣ lcm a b)
dvd-lcm a b = (
  rw (lcm-eq_mul a b) (dvd-mul_right a (b / gcd a b)),
  unfold lcm in dvd-mul_left b (a / gcd a b),
)

-- The local shape of an even sharding: every shard of a dimension has as many entries.
abbrev pub IsSharded : List ℕ → List ℕ → List ℕ → Type 0
IsSharded [] [] [] = Unit {0}
IsSharded (g ∷ whole) (o ∷ shards) (l ∷ shape) =
    ((0 < o) × (o * l ≡ g)) × IsSharded whole shards shape
IsSharded _ _ _ = ⊥

-- A shard of `g / o` entries in `m / o` pieces has pieces of `g / m` entries.
piece_size : (g o m : ℕ) → o ∣ m → g / o / (m / o) ≡ g / m
piece_size g o m h = div-div-eq-div-mul g o (m / o) ∙ ap (◌/◌ g) (mul-div_cancel' o h)

local_size : (g o l : ℕ) → 0 < o → o * l ≡ g → l ≡ g / o
local_size g o l h e = grind arith

-- Where source and target shard a tensor evenly, the pieces into which a source shard is cut have the
-- shape of the pieces into which a target shard is cut: both sides of a transfer agree on the bytes.
pub pieces_agree :
    (whole source target source_shape target_shape : List ℕ)
    → IsSharded whole source source_shape
    → IsSharded whole target target_shape
    → let middle = middle_tensor_shape source target in
      zip_with ◌/◌ source_shape (num_slicers middle source)
      ≡ zip_with ◌/◌ target_shape (num_slicers middle target)
unfolding middle_tensor_shape num_slicers
pieces_agree [] [] [] [] [] p q = refl
pieces_agree (g ∷ whole) (s ∷ source) (t ∷ target) (a ∷ rest) (b ∷ others) p q =
    let (ds, dt) = dvd-lcm s t in
    let m : ℕ = lcm s t in
    let left : a / (m / s) ≡ g / m =
      ap (λ (l : ℕ). l / (m / s)) (local_size g s a p.0.0 p.0.1) ∙ piece_size g s m ds in
    let right : b / (m / t) ≡ g / m =
      ap (λ (l : ℕ). l / (m / t)) (local_size g t b q.0.0 q.0.1) ∙ piece_size g t m dt in
    ap₂ (◌∷◌) (left ∙ sym right) (pieces_agree whole source target rest others p.1 q.1)
pieces_agree [] [] (t ∷ target) source_shape target_shape p q = elim q [ ]
pieces_agree [] [] [] [] (b ∷ others) p q = elim q [ ]
pieces_agree [] [] [] (a ∷ rest) target_shape p q = elim p [ ]
pieces_agree [] (s ∷ source) target source_shape target_shape p q = elim p [ ]
pieces_agree (g ∷ whole) [] target source_shape target_shape p q = elim p [ ]
pieces_agree (g ∷ whole) (s ∷ source) [] source_shape target_shape p q = elim q [ ]
pieces_agree (g ∷ whole) (s ∷ source) (t ∷ target) [] target_shape p q = elim p [ ]
pieces_agree (g ∷ whole) (s ∷ source) (t ∷ target) (a ∷ rest) [] p q = elim q [ ]
