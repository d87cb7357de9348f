-- ===== src/Console.antt =====
-- The output of the firmware programs: week51_interrupts_and_real_time_behavior/interrupts.c. A
-- function is given as the list of the characters that it passes to `putc_raw`, which waits until
-- the UART takes them.
pub mod Digits
mod Tests
use programming_with_c.Base.{ℕ, zero, suc, ◌+◌, ◌/◌, ◌%◌, List, [], ◌∷◌, ◌==◌, if◌then◌else◌}

-- A line feed is sent behind a carriage return.
pub puts_raw : List ℕ → List ℕ
puts_raw [] = []
puts_raw (c ∷ s) = if c == 10 then 13 ∷ (c ∷ puts_raw s) else c ∷ puts_raw s

-- `while (v) { t[i++] = '0' + v % 10; v /= 10; }`; `t` has the last digit in front, which is the
-- first that the second loop prints.
unfoldable pub digits : ℕ → ℕ → List ℕ → List ℕ
digits zero v t = t
digits (suc rounds) v t =
    let rest = digits rounds (v / 10) ((b'0' + v % 10) ∷ t) in if v == 0 then t else rest

-- 0 has a branch of its own; the rounds are bounded by the number of digits.
unfoldable pub put_digits : ℕ → ℕ → List ℕ
unfolding digits
put_digits rounds v = if v == 0 then b'0' ∷ [] else digits rounds v []

-- At most 10 rounds, since v < 2 ^ 32.
pub put_uint : ℕ → List ℕ
unfolding put_digits
put_uint v = put_digits 10 v

-- At most 20 rounds, since v < 2 ^ 64.
pub put_u64 : ℕ → List ℕ
unfolding put_digits
put_u64 v = put_digits 20 v
