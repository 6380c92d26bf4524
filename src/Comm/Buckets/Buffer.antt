-- ===== src/Comm/Buckets/Buffer.antt =====
-- The buffer of a bucket in src/etha/comm/ir.py: assembled from the chunks on one side, and taken
-- apart again on the other. Data is a list of bytes.
use mathlib.Core.List.{append_assoc}
use etha.Prelude.{
  pair_eq, ℕ, suc, ◌+◌, ◌%◌, ◌≡◌, refl, sym, ap, ap₂, ◌∙◌, inl, inr, Bool, true, false, ◌&&◌,
  Option, none, some, List, [], ◌∷◌, ◌++◌, map, arith, ◌==◌, nat_eq, list_eq, if◌then◌else◌,
  Bool-cases, length, take, drop, length-append, length-drop, sum,
}
use etha.Comm.Ir.{Chunk, nbytes}
use etha.Comm.Buckets.{Bucket, offsets_from, make_bucket}

abbrev pub Bytes : Type 0
Bytes = List ℕ

-- `buffer.narrow(0, offset, nbytes).view(dtype)[:numel].view(chunk_shape)`: torch's view of bytes as
-- another type raises if the bytes do not start at a multiple of its item size. As many bytes as the
-- chunk has are a whole number of items. `none` is the error.
unfoldable pub typed_view : Bytes → ℕ → Chunk → Option Bytes
typed_view buffer offset c =
    if offset % c.transfer_dtype.itemsize == 0
    then some (take (nbytes c) (drop offset buffer))
    else none

-- `copy_` into a view that begins at the offset.
unfoldable pub copy_at : Bytes → ℕ → Bytes → Bytes
copy_at buffer offset bytes = take offset buffer ++ (bytes ++ drop (offset + length bytes) buffer)

-- The loop of `Bucket.prepare` on the sending side: each chunk's bytes go to its view.
unfoldable pub copy_chunks : List ℕ → List Chunk → List Bytes → Bytes → Option Bytes
unfolding typed_view copy_at
copy_chunks (offset ∷ offsets) (c ∷ cs) (bytes ∷ rest) buffer = elim (typed_view buffer offset c) [
  | none ↦ none
  | some view ↦ copy_chunks offsets cs rest (copy_at buffer offset bytes)
]
copy_chunks _ _ _ buffer = some buffer

-- `prepare` of a sending bucket: a single chunk's bytes are the buffer; otherwise they are copied
-- into a fresh buffer, whose old content is arbitrary.
unfoldable pub prepare_source : Bucket → List Bytes → Bytes → Option Bytes
unfolding copy_chunks
prepare_source b (bytes ∷ []) fresh = some bytes
prepare_source b chunk_bytes fresh = copy_chunks b.offsets b.chunks chunk_bytes fresh

abbrev pub prepend : Option Bytes → Option (List Bytes) → Option (List Bytes)
prepend none rest = none
prepend (some view) none = none
prepend (some view) (some views) = some (view ∷ views)

-- On the receiving side each chunk's buffer is its view of the bucket's.
unfoldable pub views_from : List ℕ → List Chunk → Bytes → Option (List Bytes)
unfolding typed_view
views_from (offset ∷ offsets) (c ∷ cs) buffer =
    prepend (typed_view buffer offset c) (views_from offsets cs buffer)
views_from _ _ buffer = some []

-- With a single chunk, the bucket's buffer is the chunk's.
unfoldable pub received_chunks : List ℕ → List Chunk → Bytes → Option (List Bytes)
unfolding views_from
received_chunks offsets (c ∷ []) buffer = some (buffer ∷ [])
received_chunks offsets cs buffer = views_from offsets cs buffer

unfoldable pub received : Bucket → Bytes → Option (List Bytes)
unfolding received_chunks
received b buffer = received_chunks b.offsets b.chunks buffer

-- `offsets[-1] + chunks[-1].nbytes`
unfoldable pub total_from : List ℕ → List Chunk → ℕ
total_from (offset ∷ []) (c ∷ []) = offset + nbytes c
total_from (offset ∷ offsets) (c ∷ cs) = total_from offsets cs
total_from _ _ = 0

unfoldable pub total_bytes : Bucket → ℕ
unfolding total_from
total_bytes b = total_from b.offsets b.chunks

-- Each chunk's prepared bytes have its size on the wire.
abbrev pub Fits : List Chunk → List Bytes → Type 0
Fits [] [] = Unit {0}
Fits (c ∷ cs) (d ∷ ds) = (length d ≡ nbytes c) × Fits cs ds
Fits _ _ = ⊥

abbrev pub concat : List Bytes → Bytes
concat [] = []
concat (d ∷ ds) = d ++ concat ds

Fits-length :
    (cs : List Chunk) (ds : List Bytes) → Fits cs ds → sum (map nbytes cs) ≡ length (concat ds)
Fits-length [] [] f = refl
Fits-length [] (d ∷ ds) f = elim f [ ]
Fits-length (c ∷ cs) [] f = elim f [ ]
Fits-length (c ∷ cs) (d ∷ ds) f =
    omega (arith, f.0, Fits-length cs ds f.1, length-append {0} d (concat ds))

take-append : (xs ys : Bytes) → take (length xs) (xs ++ ys) ≡ xs
take-append [] ys = refl
take-append (x ∷ xs) ys = ap (◌∷◌ x) (take-append xs ys)

drop-append : (xs ys : Bytes) (n : ℕ) → drop (length xs + n) (xs ++ ys) ≡ drop n ys
drop-append [] ys n = ap (λ (k : ℕ). drop k ys) (omega arith)
drop-append (x ∷ xs) ys n =
    let e : suc (length xs) + n ≡ suc (length xs + n) = omega arith in rw e (drop-append xs ys n)

drop-append_self : (xs ys : Bytes) → drop (length xs) (xs ++ ys) ≡ ys
drop-append_self [] ys = refl
drop-append_self (x ∷ xs) ys = drop-append_self xs ys

prepend-if :
    (d : Bytes) (ds : List Bytes) (t : Bool)
    → prepend (some d) (if t then some ds else none) ≡ (if t then some (d ∷ ds) else none)
prepend-if d ds true = refl
prepend-if d ds false = refl

-- Whether the chunks from an offset on start at multiples of their item sizes, where each stands
-- directly after the one before.
abbrev pub aligned_from : ℕ → List Chunk → Bool
aligned_from offset [] = true
aligned_from offset (c ∷ cs) =
    offset % c.transfer_dtype.itemsize == 0 && aligned_from (offset + nbytes c) cs

-- A bucket of one chunk takes no view.
abbrev pub is_aligned : List Chunk → Bool
is_aligned (c ∷ []) = true
is_aligned cs = aligned_from 0 cs

-- With the part before the offset written, the loop writes the rest, if all is aligned.
copy_chunks-concat :
    (cs : List Chunk) (ds : List Bytes) (front back : Bytes)
    → Fits cs ds
    → length back ≡ length (concat ds)
    → copy_chunks (offsets_from (length front) cs) cs ds (front ++ back)
      ≡ (if aligned_from (length front) cs then some (front ++ concat ds) else none)
unfolding copy_chunks offsets_from
copy_chunks-concat [] [] front [] f e = refl
copy_chunks-concat [] [] front (x ∷ back) f e = absurd (omega (arith, e))
copy_chunks-concat [] (d ∷ ds) front back f e = elim f [ ]
copy_chunks-concat (c ∷ cs) [] front back f e = elim f [ ]
copy_chunks-concat (c ∷ cs) (d ∷ ds) front back f e =
    let written : copy_at (front ++ back) (length front) d ≡ (front ++ d) ++ drop (length d) back =
      unfold copy_at in
      rw (take-append front back, drop-append front back (length d))
        (sym (append_assoc front d (drop (length d) back))) in
    let next : length front + nbytes c ≡ length (front ++ d) =
      omega (arith, f.0, length-append {0} front d) in
    elim (Bool-cases (length front % c.transfer_dtype.itemsize == 0)) [
      | inr off ↦ rw (copy_chunks, off) refl
      | inl on ↦
          rw (copy_chunks, on)
            (ap (λ (b : Bytes). copy_chunks (offsets_from (length front + nbytes c) cs) cs ds b)
                written
              ∙ rw next (
                  copy_chunks-concat cs ds (front ++ d) (drop (length d) back) f.1 (
                    omega
                      (arith, length-drop {0} (length d) back, length-append {0} d (concat ds), e))
                  ∙ ap
                      (λ (b : Bytes).
                        if aligned_from (length (front ++ d)) cs then some b else none)
                      (append_assoc front d (concat ds))))
    ]

views_from-concat :
    (cs : List Chunk) (ds : List Bytes) (front : Bytes)
    → Fits cs ds
    → views_from (offsets_from (length front) cs) cs (front ++ concat ds)
      ≡ (if aligned_from (length front) cs then some ds else none)
unfolding views_from offsets_from
views_from-concat [] [] front f = refl
views_from-concat [] (d ∷ ds) front f = elim f [ ]
views_from-concat (c ∷ cs) [] front f = elim f [ ]
views_from-concat (c ∷ cs) (d ∷ ds) front f =
    let next : length front + nbytes c ≡ length (front ++ d) =
      omega (arith, f.0, length-append {0} front d) in
    let own : take (nbytes c) (drop (length front) (front ++ (d ++ concat ds))) ≡ d =
      rw (drop-append_self front (d ++ concat ds), ← f.0) (take-append d (concat ds)) in
    let rest : views_from (offsets_from (length front + nbytes c) cs) cs (front ++ (d ++ concat ds))
        ≡ (if aligned_from (length front + nbytes c) cs then some ds else none) =
      rw (next, ← append_assoc front d (concat ds)) (views_from-concat cs ds (front ++ d) f.1) in
    elim (Bool-cases (length front % c.transfer_dtype.itemsize == 0)) [
      | inr off ↦ rw off refl
      | inl on ↦ rw on (
          ap₂ (λ (v : Bytes) (o : Option (List Bytes)). prepend (some v) o) own rest
          ∙ prepend-if d ds (aligned_from (length front + nbytes c) cs))
    ]

-- What a buffer of all the bytes gives, and how it comes about.
abbrev pub then_received : Bucket → Option Bytes → Option (List Bytes)
then_received b none = none
then_received b (some buffer) = received b buffer

many_chunks :
    (c c' : Chunk) (cs : List Chunk) (d d' : Bytes) (ds : List Bytes) (fresh : Bytes)
    → Fits (c ∷ c' ∷ cs) (d ∷ d' ∷ ds)
    → length fresh ≡ length (concat (d ∷ d' ∷ ds))
    → let b = make_bucket (c ∷ c' ∷ cs) in
      then_received b (prepare_source b (d ∷ d' ∷ ds) fresh)
      ≡ (if is_aligned (c ∷ c' ∷ cs) then some (d ∷ d' ∷ ds) else none)
unfolding prepare_source received received_chunks make_bucket
many_chunks c c' cs d d' ds fresh f e =
    let all : List Chunk = c ∷ c' ∷ cs in
    let bytes : List Bytes = d ∷ d' ∷ ds in
    let sent = copy_chunks-concat all bytes [] fresh f e in
    let views = views_from-concat all bytes [] f in
    ap (then_received (make_bucket all)) sent ∙ elim (Bool-cases (aligned_from 0 all)) [
      | inl on ↦
          ap
            (λ (t : Bool).
              then_received (make_bucket all) (if t then some (concat bytes) else none))
            on
          ∙ views
      | inr off ↦
          ap
            (λ (t : Bool).
              then_received (make_bucket all) (if t then some (concat bytes) else none))
            off
          ∙ ap (λ (t : Bool). if t then some bytes else none) (sym off)
    ]

-- For chunks and prepared bytes of the chunks' sizes, and a fresh buffer of the bytes' total length
-- with any content: the views that the receiving bucket takes of the buffer that the sending bucket
-- prepares are the bytes of the chunks, in order, if there is one chunk or every chunk starts at a
-- multiple of its item size; else a view raises.
pub received-prepare_source :
    (cs : List Chunk) (ds : List Bytes) (fresh : Bytes)
    → Fits cs ds
    → length fresh ≡ length (concat ds)
    → then_received (make_bucket cs) (prepare_source (make_bucket cs) ds fresh)
      ≡ (if is_aligned cs then some ds else none)
unfolding prepare_source received received_chunks make_bucket
received-prepare_source [] [] fresh f e = refl
received-prepare_source [] (d ∷ ds) fresh f e = elim f [ ]
received-prepare_source (c ∷ cs) [] fresh f e = elim f [ ]
received-prepare_source (c ∷ []) (d ∷ []) fresh f e = refl
received-prepare_source (c ∷ []) (d ∷ d' ∷ ds) fresh f e = elim f.1 [ ]
received-prepare_source (c ∷ c' ∷ cs) (d ∷ []) fresh f e = elim f.1 [ ]
received-prepare_source (c ∷ c' ∷ cs) (d ∷ d' ∷ ds) fresh f e =
    many_chunks c c' cs d d' ds fresh f e

total_from-sum :
    (c : Chunk) (cs : List Chunk) (start : ℕ)
    → total_from (offsets_from start (c ∷ cs)) (c ∷ cs) ≡ start + (nbytes c + sum (map nbytes cs))
unfolding total_from offsets_from
total_from-sum c [] start = omega arith
total_from-sum c (d ∷ cs) start = rw (total_from-sum d cs (start + nbytes c)) (omega arith)

-- The buffer that a bucket of at least one chunk allocates is as long as its chunks' bytes
-- together, so that bytes of the chunks' sizes fill it.
pub total_bytes-Fits :
    (c : Chunk) (cs : List Chunk) (ds : List Bytes)
    → Fits (c ∷ cs) ds
    → total_bytes (make_bucket (c ∷ cs)) ≡ length (concat ds)
unfolding total_bytes make_bucket
total_bytes-Fits c cs ds f = total_from-sum c cs 0 ∙ omega (arith, Fits-length (c ∷ cs) ds f)
