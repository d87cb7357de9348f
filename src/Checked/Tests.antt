-- ===== src/Checked/Tests.antt =====
-- Runs of the checked operations of ub.c, and an instance of what is proved.
use programming_with_c.Base.{◌≡◌, refl, if◌then◌else◌, none, some, arith}
use programming_with_c.Base.Int.{pos, negsuc, ◌+ℤ◌}
use programming_with_c.Checked.{int_max, add_checked, allocate_broken, allocate_checked}
use programming_with_c.Checked.Exact.{in_int, add_checked_lem}

add_fits : add_checked (pos 2_000_000_000) (pos 100) ≡ some (pos 2_000_000_100)
unfolding add_checked
add_fits = refl

add_refused : add_checked (negsuc 2_147_483_647) (negsuc 0) ≡ none
unfolding add_checked
add_refused = refl

-- A request for 2 ^ 60 records becomes one for nothing.
broken_wraps : allocate_broken some (1_152_921_504_606_846_976) ≡ some 0
unfolding allocate_broken
broken_wraps = refl

checked_refuses : allocate_checked (λ n size. some n) 1_152_921_504_606_846_976 ≡ none
unfolding allocate_checked
checked_refuses = refl

add_checked_lem_example :
    add_checked int_max (pos 1)
    ≡ (if in_int (int_max +ℤ pos 1) then some (int_max +ℤ pos 1) else none)
add_checked_lem_example =
    add_checked_lem int_max (pos 1) (omega arith, omega arith) (omega arith, omega arith)
