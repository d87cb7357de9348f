-- ===== src/Wire/Format.antt =====
-- The record format of portable.c: decoding what was encoded, and what is refused.
use programming_with_c.Base.{
  take_all, ℕ, zero, suc, ◌-◌, ◌^◌, ◌≤◌, ◌<◌, ◌≡◌, ◌≢◌, ◌⊎◌, refl, ap, ◌∙◌, true, false, List, [],
  ◌∷◌, ◌++◌, none, some, arith, length, take, drop, set, replicate, length-append, length-take,
  length-replicate,
}
use programming_with_c.Base.Text.{mem_eq}
use programming_with_c.Wire.{
  Record, magic, version, name_bytes, store_be16, store_be32, store_be64, store_loop, load_be16,
  load_be32, load_be64, strnlen, pad_name, record_encode, record_decode,
}
use programming_with_c.Wire.Endian.{load-store_be16, load-store_be32, load-store_be64}

-- Every field fits its C type.
pub record InRange (r : Record) : Type 0 where
  pub id_fits : r.id < 2 ^ 32
  pub score_fits : r.score < 2 ^ 16
  pub timestamp_fits : r.timestamp < 2 ^ 64

strnlen_bounds : (s : List ℕ) (n : ℕ) → (strnlen s n ≤ n) × (strnlen s n ≤ length s)
unfolding strnlen
strnlen_bounds [] n = omega arith
strnlen_bounds (c ∷ s) zero = omega arith
strnlen_bounds (c ∷ s) (suc n) = ground (arith, strnlen_bounds s n)

pub length-pad_name : (s : List ℕ) → length (pad_name s) ≡ name_bytes
unfolding pad_name
length-pad_name s =
    let n = strnlen s name_bytes in
    omega (
      arith,
      length-append (take n s) (replicate (name_bytes - n) 0),
      length-take n s,
      length-replicate {A = ℕ} (name_bytes - n) 0,
      strnlen_bounds s name_bytes,
    )

-- The encoding is 52 bytes long.
pub length-record_encode : (r : Record) → length (record_encode r) ≡ 52
unfolding record_encode store_loop
length-record_encode r = omega (arith, length-pad_name r.name)

-- Writing a 0 into the padding changes nothing.
set_padding :
    (xs : List ℕ) (k i : ℕ) → length xs ≤ i → set (xs ++ replicate k 0) i 0 ≡ xs ++ replicate k 0
set_padding [] zero i h = refl
set_padding [] (suc k) zero h = refl
set_padding [] (suc k) (suc i) h = ap (λ ys. 0 ∷ ys) (set_padding [] k i (omega arith))
set_padding (x ∷ xs) k zero h = absurd (omega arith)
set_padding (x ∷ xs) k (suc i) h = ap (λ ys. x ∷ ys) (set_padding xs k i (omega arith))

set-pad_name :
    (s : List ℕ)
    → strnlen s name_bytes < name_bytes
    → set (take name_bytes (pad_name s)) (name_bytes - 1) 0 ≡ pad_name s
set-pad_name s h =
    ap (λ xs. set xs 31 0) (take_all (pad_name s) 32 (omega (arith, length-pad_name s)))
    ∙ terminated
  where
    terminated : set (pad_name s) 31 0 ≡ pad_name s
    terminated =
        unfold pad_name in
        set_padding (take (strnlen s name_bytes) s) (name_bytes - strnlen s name_bytes) 31
          (omega (arith, length-take (strnlen s name_bytes) s))

decode_fields :
    (b : List ℕ) {i s t : ℕ} {n : List ℕ}
    → mem_eq (take 4 b) magic ≡ true
    → load_be16 (drop 4 b) ≡ version
    → load_be32 (drop 6 b) ≡ i
    → load_be16 (drop 10 b) ≡ s
    → load_be64 (drop 12 b) ≡ t
    → set (take name_bytes (drop 20 b)) (name_bytes - 1) 0 ≡ n
    → record_decode b ≡ some (record { id = i; score = s; timestamp = t; name = n })
unfolding record_decode
decode_fields b m v i s t n = ground arith

-- A record whose fields fit their types and whose name is terminated is decoded from its encoding,
-- its name padded with zeros behind the terminator.
pub decode-encode :
    (r : Record)
    → InRange r
    → strnlen r.name name_bytes < name_bytes
    → record_decode (record_encode r) ≡ some (record r { name = pad_name r.name })
unfolding record_encode store_loop
decode-encode r h t =
    let tail = pad_name r.name in
    let time = store_be64 r.timestamp ++ tail in
    let score = store_be16 r.score ++ time in
    decode_fields (record_encode r) (unfold mem_eq in refl)
      (load-store_be16 1 (store_be32 r.id ++ score) (omega arith))
      (load-store_be32 r.id score h.id_fits) (load-store_be16 r.score time h.score_fits)
      (load-store_be64 r.timestamp tail h.timestamp_fits) (set-pad_name r.name t)

-- What does not begin with the magic bytes, or carries another version, is refused.
pub decode_refuses :
    (b : List ℕ)
    → (mem_eq (take 4 b) magic ≡ false) ⊎ (load_be16 (drop 4 b) ≢ version)
    → record_decode b ≡ none
unfolding record_decode
decode_refuses b h = ground arith
