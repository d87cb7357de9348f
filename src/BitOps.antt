-- ===== src/BitOps.antt =====
-- week25_bit_level_operations/bits.c: packing, counting set bits, the checksum.
pub mod Popcount
pub mod Rgb
mod Tests
use Prim.Native.Nat.{bit_and, bit_or, bit_xor}
use programming_with_c.Base.{
  ℕ, zero, suc, ◌+◌, ◌-◌, ◌*◌, ◌/◌, ◌%◌, ◌^◌, Option, none, some, List, [], ◌∷◌, ◌==◌,
  if◌then◌else◌,
}

-- The arguments are `uint8_t`; the shifts are made in `uint32_t`.
pub rgb_pack : ℕ → ℕ → ℕ → ℕ
rgb_pack r g b = bit_or (bit_or (r * 2 ^ 16 % 2 ^ 32) (g * 2 ^ 8 % 2 ^ 32)) b

pub rgb_unpack : ℕ → ℕ × ℕ × ℕ
rgb_unpack rgb = (
  bit_and (rgb / 2 ^ 16) 0xff % 2 ^ 8,
  bit_and (rgb / 2 ^ 8) 0xff % 2 ^ 8,
  bit_and rgb 0xff % 2 ^ 8,
)

-- The loop of `popcount_naive` from round `i`, with `rounds` rounds left.
pub naive_loop : ℕ → ℕ → ℕ → ℕ → ℕ
naive_loop zero i v count = count
naive_loop (suc rounds) i v count = naive_loop rounds (i + 1) v (count + bit_and (v / 2 ^ i) 1)

pub popcount_naive : ℕ → ℕ
unfolding naive_loop
popcount_naive v = naive_loop 32 0 v 0

-- The loop of `popcount_kernighan`, on fuel: `none` means that the fuel ran out.
pub kernighan_loop : ℕ → ℕ → ℕ → Option ℕ
kernighan_loop zero v count = none
kernighan_loop (suc fuel) v count =
    let rest = kernighan_loop fuel (bit_and v (v - 1)) (count + 1) in
    if v == 0 then some count else rest

-- 33 tests are enough: each round clears one of at most 32 set bits.
pub popcount_kernighan : ℕ → Option ℕ
unfolding kernighan_loop
popcount_kernighan v = kernighan_loop 33 v 0

-- `sum ^= byte`, then a rotation to the left by one.
pub checksum_step : ℕ → ℕ → ℕ
checksum_step sum d = let x = bit_xor sum d in bit_or (x * 2 % 2 ^ 32) (x / 2 ^ 31)

pub checksum_from : ℕ → List ℕ → ℕ
unfolding checksum_step
checksum_from sum [] = sum
checksum_from sum (d ∷ ds) = checksum_from (checksum_step sum d) ds

pub checksum : List ℕ → ℕ
unfolding checksum_from
checksum ds = checksum_from 0 ds
