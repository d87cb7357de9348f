-- ===== src/BitOps/Rgb.antt =====
-- Packing of colours and the rotation of the checksum in bits.c.
use Prim.Native.Nat.{bit_or}
use programming_with_c.Base.{ℕ, ◌+◌, ◌*◌, ◌/◌, ◌%◌, ◌^◌, ◌<◌, ◌≡◌, ap, ◌∙◌, arith}
use programming_with_c.Base.Bits.{bit_or-shifted, bit_and_byte}
use programming_with_c.BitOps.{rgb_pack, rgb_unpack}

rgb_value : (r g b : ℕ) → r < 256 → g < 256 → b < 256 → rgb_pack r g b ≡ r * 2 ^ 16 + g * 2 ^ 8 + b
unfolding rgb_pack
rgb_value r g b hr hg hb =
    ap (λ z. bit_or z b) (two ∙ shifted) ∙ bit_or-shifted 8 (r * 256 + g) b hb ∙ omega arith
  where
    shift_r : r * 2 ^ 16 % 2 ^ 32 ≡ r * 2 ^ 16
    shift_r = omega arith

    shift_g : g * 2 ^ 8 % 2 ^ 32 ≡ g * 2 ^ 8
    shift_g = omega arith

    two : bit_or (r * 2 ^ 16 % 2 ^ 32) (g * 2 ^ 8 % 2 ^ 32) ≡ r * 2 ^ 16 + g * 2 ^ 8
    two =
        ap (λ z. bit_or z (g * 2 ^ 8 % 2 ^ 32)) shift_r
        ∙ ap (λ z. bit_or (r * 2 ^ 16) z) shift_g
        ∙ bit_or-shifted 16 r (g * 2 ^ 8) (omega arith)

    shifted : r * 2 ^ 16 + g * 2 ^ 8 ≡ (r * 256 + g) * 2 ^ 8
    shifted = omega arith

-- `rgb_unpack` gives back the three bytes that `rgb_pack` packed.
pub unpack-pack :
    (r g b : ℕ) → r < 256 → g < 256 → b < 256 → rgb_unpack (rgb_pack r g b) ≡ (r, g, b)
unfolding rgb_unpack
unpack-pack r g b hr hg hb = rw (rgb_value r g b hr hg hb) (
    ground (
      arith,
      bit_and_byte ((r * 2 ^ 16 + g * 2 ^ 8 + b) / 2 ^ 16),
      bit_and_byte ((r * 2 ^ 16 + g * 2 ^ 8 + b) / 2 ^ 8),
      bit_and_byte (r * 2 ^ 16 + g * 2 ^ 8 + b),
    ))
