-- ===== src/Generic/Orders.antt =====
-- The comparators of generic.c.
use programming_with_c.Base.{◌≡◌, ◌↔◌, arith}
use programming_with_c.Base.Int.{ℤ, pos, negsuc, ◌<ℤ◌, eq_of_parts}
use programming_with_c.Generic.{Student, cmp_int, cmp_student_score}

-- `cmp_int` is negative, zero or positive exactly when its first argument is less than, equal to or
-- greater than the second, for all integers.
pub cmp_int_lem :
    (x y : ℤ)
    → ((cmp_int x y ≡ negsuc 0) ↔ (x <ℤ y))
      × ((cmp_int x y ≡ pos 0) ↔ (x ≡ y))
      × ((cmp_int x y ≡ pos 1) ↔ (y <ℤ x))
unfolding cmp_int
cmp_int_lem x y = (ground arith, ground (arith, eq_of_parts x y), ground arith)

-- The order of the scores is descending.
pub cmp_student_score-cmp_int : (x y : Student) → cmp_student_score x y ≡ cmp_int y.score x.score
unfolding cmp_int cmp_student_score
cmp_student_score-cmp_int x y = ground arith
