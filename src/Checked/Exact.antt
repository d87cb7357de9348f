-- ===== src/Checked/Exact.antt =====
-- add_checked of ub.c against the sum of integers.
use programming_with_c.Base.{
  ℕ, ◌*◌, ◌≡◌, Bool, not, ◌&&◌, leb, if◌then◌else◌, Option, none, some, arith,
}
use programming_with_c.Base.Int.{ℤ, ltb_ℤ, ◌≤ℤ◌, ◌+ℤ◌, +ℤ_parts, -ℤ_parts}
use programming_with_c.Checked.{
  int_max, int_min, add_checked, size_max, record_size, allocate_checked,
}

-- The values of the C type `int`.
abbrev pub IsInt : ℤ → Type 0
IsInt a = (int_min ≤ℤ a) × (a ≤ℤ int_max)

abbrev pub in_int : ℤ → Bool
in_int a = not (ltb_ℤ a int_min) && not (ltb_ℤ int_max a)

-- On two values of type `int` `add_checked` gives their exact sum if it is an `int`, and refuses
-- otherwise.
pub add_checked_lem :
    (a b : ℤ)
    → IsInt a
    → IsInt b
    → add_checked a b ≡ (if in_int (a +ℤ b) then some (a +ℤ b) else none)
unfolding add_checked
add_checked_lem a b h k = ground (arith, +ℤ_parts a b, -ℤ_parts int_max b, -ℤ_parts int_min b)

-- `allocate_checked` asks for the records exactly when their size in bytes does not wrap around,
-- and returns NULL otherwise.
pub allocate_checked_lem {ℓ} :
    {B : Type ℓ} (calloc : ℕ → ℕ → Option B) (count : ℕ)
    → allocate_checked calloc count
      ≡ (if leb (count * record_size) size_max then calloc count record_size else none)
unfolding allocate_checked
allocate_checked_lem calloc count = ground arith
