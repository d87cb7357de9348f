-- ===== src/Checked.antt =====
-- The checked operations of week36_undefined_behavior_and_secure_coding/ub.c, which test before
-- they compute.
pub mod Exact
mod Tests
use programming_with_c.Base.{
  ℕ, ◌+◌, ◌-◌, ◌*◌, ◌/◌, ◌%◌, ◌^◌, Bool, ◌&&◌, ltb, if◌then◌else◌, Option, none, some,
}
use programming_with_c.Base.Int.{ℤ, pos, negsuc, ltb_ℤ, ◌+ℤ◌, ◌-ℤ◌}

abbrev pub int_max : ℤ
int_max = pos 2_147_483_647

abbrev pub int_min : ℤ
int_min = negsuc 2_147_483_647

-- What goes through `out` when the result is true.
pub add_checked : ℤ → ℤ → Option ℤ
unfolding ◌+ℤ◌ ◌-ℤ◌
add_checked a b =
    if ltb_ℤ (pos 0) b && ltb_ℤ (int_max -ℤ b) a
    then none
    else if ltb_ℤ b (pos 0) && ltb_ℤ a (int_min -ℤ b)
    then none
    else some (a +ℤ b)

abbrev pub size_max : ℕ
size_max = 18_446_744_073_709_551_615

-- `sizeof (Record)`: an `int` and 44 characters.
abbrev pub record_size : ℕ
record_size = 48

-- `malloc` is a function of the number of bytes, a block a `B`.
pub allocate_broken {ℓ} : {B : Type ℓ} → (ℕ → Option B) → ℕ → Option B
allocate_broken malloc count = malloc (count * record_size % 2 ^ 64)

-- `calloc` is a function of the number of objects and their size.
pub allocate_checked {ℓ} : {B : Type ℓ} → (ℕ → ℕ → Option B) → ℕ → Option B
allocate_checked calloc count =
    if ltb (size_max / record_size) count then none else calloc count record_size
