-- ===== src/Console/Tests.antt =====
-- Output of small numbers, and instances of what is proved.
use programming_with_c.Base.{◌≡◌, refl, [], ◌∷◌, arith}
use programming_with_c.Base.Text.{decimal}
use programming_with_c.Console.{puts_raw, put_uint, put_u64}
use programming_with_c.Console.Digits.{put_uint-decimal, put_u64-decimal}

line_end : puts_raw (b'o' ∷ (b'k' ∷ (10 ∷ []))) ≡ b'o' ∷ (b'k' ∷ (13 ∷ (10 ∷ [])))
unfolding puts_raw
line_end = refl

largest : put_u64 18_446_744_073_709_551_615 ≡ decimal 19 18_446_744_073_709_551_615
unfolding put_u64 decimal
largest = refl

small_shown : put_uint 1024 ≡ decimal 9 1024
small_shown = (put_uint-decimal 1024 (omega arith)).0

zero_shown : put_u64 0 ≡ decimal 19 0
zero_shown = (put_u64-decimal 0 (omega arith)).0
