-- ===== src/Comm/Trace/Roundtrip.antt =====
-- The trace of get_m2m_map.py recovers the rank and the cell.
use native.Mathlib.Nat.{pow-succ', pow-zero}
use mathlib.Core.List.{reverse, reverse-cons, reverse-reverse}
use etha.Prelude.{
  ℕ, zero, suc, ◌+◌, ◌*◌, ◌/◌, ◌%◌, ◌^◌, ◌<◌, ◌≡◌, refl, sym, ap, ◌∙◌, ◌↔◌, List, [], ◌∷◌, ◌++◌,
  arith, nat_eq, list_eq, length, length-append, All, All-append,
}
use etha.Comm.Trace.{encode_cell, decode_loop, decode_cell, Float32, traced}

encode_cell-append :
    (base value : ℕ) (xs : List ℕ) (x : ℕ)
    → encode_cell base value (xs ++ x ∷ []) ≡ encode_cell base value xs * base + x
unfolding encode_cell
encode_cell-append base value [] x = refl
encode_cell-append base value (y ∷ xs) x = encode_cell-append base (value * base + y) xs x

div_mod_step :
    (base value c : ℕ)
    → c < base
    → ((value * base + c) / base ≡ value) × ((value * base + c) % base ≡ c)
div_mod_step base value c h = (grind arith, grind arith)

-- The loop undoes the encoding from the last coordinate back.
decode_loop-encode_cell :
    (base rank : ℕ) (idx : List ℕ)
    → All (λ c. c < base) idx
    → decode_loop base (length idx) (encode_cell base rank (reverse idx)) ≡ (idx, rank)
unfolding decode_loop encode_cell
decode_loop-encode_cell base rank [] h = refl
decode_loop-encode_cell base rank (c ∷ idx) h =
    let value : ℕ = encode_cell base rank (reverse idx) in
    let (quotient, remainder) = div_mod_step base value c h.0 in
    rw
      (
        reverse-cons c idx,
        encode_cell-append base rank (reverse idx) c,
        quotient,
        remainder,
        decode_loop-encode_cell base rank idx h.1,
      )
      refl

-- Encoding what was decoded gives the number back, whatever the number was.
encode_cell-decode_loop :
    (base n value : ℕ)
    → let (coords, rank) = decode_loop base n value in
      encode_cell base rank (reverse coords) ≡ value
unfolding decode_loop encode_cell
encode_cell-decode_loop base zero value = refl
encode_cell-decode_loop base (suc n) value =
    let (coords, rank) = decode_loop base n (value / base) in
    rw
      (
        reverse-cons (value % base) coords,
        encode_cell-append base rank (reverse coords) (value % base),
        encode_cell-decode_loop base n (value / base),
      )
      (grind arith)

All-reverse {ℓ} : {A : Type ℓ} (P : A → Type 0) (xs : List A) → All P xs → All P (reverse xs)
All-reverse P [] h = tt
All-reverse P (x ∷ xs) h =
    rw (reverse-cons x xs) (All-append P (reverse xs) (x ∷ []) (All-reverse P xs h.1) (h.0, tt))

length-reverse {ℓ} : {A : Type ℓ} (xs : List A) → length (reverse xs) ≡ length xs
length-reverse [] = refl
length-reverse (x ∷ xs) =
    rw (reverse-cons x xs, length-append (reverse xs) (x ∷ []), length-reverse xs) (omega arith)

-- Decoding an encoded cell gives its rank and its coordinates, if each coordinate is below the base.
pub decode_cell-encode_cell :
    (base rank : ℕ) (idx : List ℕ)
    → All (λ c. c < base) idx
    → decode_cell base (length idx) (encode_cell base rank idx) ≡ (rank, idx)
unfolding decode_cell
decode_cell-encode_cell base rank idx h =
    let loop : decode_loop base (length idx) (encode_cell base rank idx) ≡ (reverse idx, rank) =
      rw (length-reverse, reverse-reverse) at
        (decode_loop-encode_cell base rank (reverse idx) (All-reverse (λ c. c < base) idx h)) in
    rw loop (ap (λ (l : List ℕ). (rank, l)) (reverse-reverse idx))

-- Two numbers that decode alike are equal.
decode_cell-injective : (base n a b : ℕ) → decode_cell base n a ≡ decode_cell base n b → a ≡ b
unfolding decode_cell
decode_cell-injective base n a b e =
    let whole : (ℕ × List ℕ) → ℕ = λ p. encode_cell base p.0 p.1 in
    sym (encode_cell-decode_loop base n a) ∙ ap whole e ∙ encode_cell-decode_loop base n b

-- For coordinates below the base, the trace through the float tensor recovers a cell exactly if the
-- float holds the cell's number unrounded.
pub traced_iff :
    (f : Float32) (base rank : ℕ) (idx : List ℕ)
    → All (λ c. c < base) idx
    → (traced f base rank idx ≡ (rank, idx))
      ↔ (f.store (encode_cell base rank idx) ≡ encode_cell base rank idx)
unfolding traced
traced_iff f base rank idx h = (
  λ e.
      decode_cell-injective base (length idx) _ _
        (e ∙ sym (decode_cell-encode_cell base rank idx h)),
  λ e. rw e (decode_cell-encode_cell base rank idx h),
)

encode_cell-lt :
    (base rank bound : ℕ) (idx : List ℕ)
    → rank < bound
    → All (λ c. c < base) idx
    → encode_cell base rank idx < bound * base ^ length idx
unfolding encode_cell
encode_cell-lt base rank bound [] lt h = rw pow-zero (omega arith)
encode_cell-lt base rank bound (c ∷ idx) lt h =
    let step : rank * base + c < bound * base = grind (arith, h.0) in
    grind (
      arith,
      encode_cell-lt base (rank * base + c) (bound * base) idx step h.1,
      pow-succ' base (length idx),
    )
