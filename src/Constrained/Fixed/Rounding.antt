-- ===== src/Constrained/Fixed/Rounding.antt =====
-- The product of two Q16.16 numbers (constrained.c) is rounded down to the next multiple of 1/65536.
use programming_with_c.Base.{◌+◌, ◌*◌, ◌/◌, ◌<◌, ◌≤◌, ◌≡◌, sym, arith}
use mathlib.Core.Path.{subst}
use programming_with_c.Base.Int.{ℤ, pos, negsuc, pos_part, neg_part, ◌*ℤ◌, ◌≤ℤ◌, ◌<ℤ◌}
use programming_with_c.Constrained.Fixed.{shift_right, to_int32, q16_mul}

-- A value in range keeps its bits.
to_int32_fits : (v : ℤ) → negsuc 2_147_483_647 ≤ℤ v → v <ℤ pos 2_147_483_648 → to_int32 v ≡ v
to_int32_fits (pos n) l u = ground (arith, u)
to_int32_fits (negsuc n) l u = ground (arith, l)

shift_right-fits :
    (p : ℤ)
    → negsuc 140_737_488_355_327 ≤ℤ p
    → p <ℤ pos 140_737_488_355_328
    → to_int32 (shift_right p) ≡ shift_right p
shift_right-fits (pos n) l u = to_int32_fits (pos (n / 65_536)) (omega arith) (omega (arith, u))
shift_right-fits (negsuc n) l u =
    to_int32_fits (negsuc (n / 65_536)) (omega (arith, l)) (omega arith)

-- The multiple of 65536 at or below a value.
abbrev IsFloor : ℤ → ℤ → Type 0
IsFloor r p =
    (pos_part r * 65_536 + neg_part p ≤ pos_part p + neg_part r * 65_536)
    × (pos_part p + neg_part r * 65_536 < pos_part r * 65_536 + 65_536 + neg_part p)

shift_right-IsFloor : (p : ℤ) → IsFloor (shift_right p) p
shift_right-IsFloor (pos n) = (omega arith, omega arith)
shift_right-IsFloor (negsuc n) = (omega arith, omega arith)

-- If the exact product of the two words lies from -2 ^ 47 to 2 ^ 47 - 1, then `q16_mul` gives r with
-- r * 65536 <= a * b < (r + 1) * 65536; otherwise it does not fit and the high bits are lost.
pub q16_mul-IsFloor :
    (a b : ℤ)
    → negsuc 140_737_488_355_327 ≤ℤ a *ℤ b
    → a *ℤ b <ℤ pos 140_737_488_355_328
    → IsFloor (q16_mul a b) (a *ℤ b)
unfolding q16_mul
q16_mul-IsFloor a b l u =
    subst (λ r. IsFloor r (a *ℤ b)) (sym (shift_right-fits (a *ℤ b) l u))
      (shift_right-IsFloor (a *ℤ b))
