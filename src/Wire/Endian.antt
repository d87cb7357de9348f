-- ===== src/Wire/Endian.antt =====
-- The big-endian accessors of portable.c: loading what was stored gives the number back.
use Prim.Native.Nat.{bit_or}
use programming_with_c.Base.{ℕ, suc, ◌+◌, ◌*◌, ◌/◌, ◌%◌, ◌^◌, ◌<◌, ◌≡◌, ap, ◌∙◌, List, ◌++◌, arith}
use programming_with_c.Base.Bits.{bit_or-shifted}
use programming_with_c.Wire.{
  byte, at, store_be16, store_be32, store_be64, store_loop, load_be16, load_be32, load_be64,
  load_loop,
}

-- Shifting a byte in from the right.
shift_in : (v b : ℕ) → b < 256 → v < 2 ^ 56 → bit_or (v * 2 ^ 8 % 2 ^ 64) b ≡ v * 256 + b
shift_in v b h k = ap (λ x. bit_or x b) fits ∙ bit_or-shifted 8 v b h
  where
    fits : v * 2 ^ 8 % 2 ^ 64 ≡ v * 2 ^ 8
    fits = omega arith

-- `x | y` where `x` is `a` moved up by `k` digits and `y` fits below.
or_fields : (k a b x : ℕ) → x ≡ a * 2 ^ k → b < 2 ^ k → bit_or x b ≡ a * 2 ^ k + b
or_fields k a b x e h = ap (λ z. bit_or z b) e ∙ bit_or-shifted k a b h

-- `load_be16` reads back what `store_be16` wrote, whatever follows in the buffer.
pub load-store_be16 : (v : ℕ) (rest : List ℕ) → v < 2 ^ 16 → load_be16 (store_be16 v ++ rest) ≡ v
unfolding load_be16 store_be16
load-store_be16 v rest h = omega (arith, bit_or-shifted 8 (byte (v / 2 ^ 8)) (byte v) (omega arith))

or_bytes :
    (a b c d : ℕ)
    → a < 256
    → b < 256
    → c < 256
    → d < 256
    → bit_or (bit_or (bit_or (a * 2 ^ 24 % 2 ^ 32) (b * 2 ^ 16 % 2 ^ 32)) (c * 2 ^ 8 % 2 ^ 32)) d
      ≡ a * 2 ^ 24 + b * 2 ^ 16 + c * 2 ^ 8 + d
or_bytes a b c d ha hb hc hd =
    or_fields 8 (a * 2 ^ 16 + b * 2 ^ 8 + c) d _ (three ∙ omega arith) (omega arith) ∙ omega arith
  where
    fits_b : b * 2 ^ 16 % 2 ^ 32 ≡ b * 2 ^ 16
    fits_b = omega arith

    fits_c : c * 2 ^ 8 % 2 ^ 32 ≡ c * 2 ^ 8
    fits_c = omega arith

    two : bit_or (a * 2 ^ 24 % 2 ^ 32) (b * 2 ^ 16 % 2 ^ 32) ≡ a * 2 ^ 24 + b * 2 ^ 16
    two =
        ap (λ z. bit_or (a * 2 ^ 24 % 2 ^ 32) z) fits_b
        ∙ or_fields 24 a (b * 2 ^ 16) (a * 2 ^ 24 % 2 ^ 32) (omega arith) (omega arith)

    three :
        bit_or (bit_or (a * 2 ^ 24 % 2 ^ 32) (b * 2 ^ 16 % 2 ^ 32)) (c * 2 ^ 8 % 2 ^ 32)
        ≡ (a * 2 ^ 8 + b) * 2 ^ 16 + c * 2 ^ 8
    three =
        ap (λ z. bit_or (bit_or (a * 2 ^ 24 % 2 ^ 32) (b * 2 ^ 16 % 2 ^ 32)) z) fits_c
        ∙ or_fields 16 (a * 2 ^ 8 + b) (c * 2 ^ 8) _ (two ∙ omega arith) (omega arith)

-- `load_be32` reads back what `store_be32` wrote, whatever follows in the buffer.
pub load-store_be32 : (v : ℕ) (rest : List ℕ) → v < 2 ^ 32 → load_be32 (store_be32 v ++ rest) ≡ v
unfolding load_be32 store_be32
load-store_be32 v rest h =
    or_bytes (byte (v / 2 ^ 24)) (byte (v / 2 ^ 16)) (byte (v / 2 ^ 8)) (byte v) (omega arith)
      (omega arith) (omega arith) (omega arith)
    ∙ omega arith

-- One round of `load_be64`, where the buffer holds the bytes of `v` and the rounds before have
-- read `hi`, the part of `v` above.
load_round :
    (rounds i hi lo : ℕ) (b : List ℕ)
    → hi < 2 ^ 56
    → at b i < 256
    → hi * 256 + at b i ≡ lo
    → load_loop (suc rounds) i hi b ≡ load_loop rounds (i + 1) lo b
unfolding load_loop
load_round rounds i hi lo b k h e =
    ap (λ z. load_loop rounds (i + 1) z b) (shift_in hi (at b i) h k ∙ e)

-- `load_be64` reads back what `store_be64` wrote, whatever follows in the buffer.
pub load-store_be64 : (v : ℕ) (rest : List ℕ) → v < 2 ^ 64 → load_be64 (store_be64 v ++ rest) ≡ v
unfolding load_be64 store_be64
load-store_be64 v rest h =
    let b = store_loop 8 0 v ++ rest in
    load_round 7 0 0 (v / 2 ^ 56) b (omega arith) (omega arith) (omega arith)
    ∙ load_round 6 1 (v / 2 ^ 56) (v / 2 ^ 48) b (omega arith) (omega arith) (omega arith)
    ∙ load_round 5 2 (v / 2 ^ 48) (v / 2 ^ 40) b (omega arith) (omega arith) (omega arith)
    ∙ load_round 4 3 (v / 2 ^ 40) (v / 2 ^ 32) b (omega arith) (omega arith) (omega arith)
    ∙ load_round 3 4 (v / 2 ^ 32) (v / 2 ^ 24) b (omega arith) (omega arith) (omega arith)
    ∙ load_round 2 5 (v / 2 ^ 24) (v / 2 ^ 16) b (omega arith) (omega arith) (omega arith)
    ∙ load_round 1 6 (v / 2 ^ 16) (v / 2 ^ 8) b (omega arith) (omega arith) (omega arith)
    ∙ load_round 0 7 (v / 2 ^ 8) v b (omega arith) (omega arith) (omega arith)
