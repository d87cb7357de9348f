-- ===== src/BitOps/Tests.antt =====
-- Values of bits.c's `main`, and the theorems at them.
use programming_with_c.Base.{◌≡◌, refl, arith, some, [], ◌∷◌}
use programming_with_c.BitOps.{rgb_pack, popcount_naive, popcount_kernighan, checksum}
use programming_with_c.BitOps.Popcount.{ones, popcounts_agree}

packed : rgb_pack 255 128 64 ≡ 0xff8040
unfolding rgb_pack
packed = refl

all_ones : popcount_kernighan 0xffff_ffff ≡ some 32
unfolding popcount_kernighan
all_ones = refl

popcounts_agree_example :
    (popcount_naive 0xffff ≡ ones 32 0xffff)
    × (popcount_kernighan 0xffff ≡ some (popcount_naive 0xffff))
popcounts_agree_example = popcounts_agree 0xffff (omega arith)

checksum_ab : checksum (b'a' ∷ b'b' ∷ []) ≡ 320
unfolding checksum
checksum_ab = refl
