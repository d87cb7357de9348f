-- ===== src/Arrays/Tests.antt =====
-- Runs on small arrays, and instances of what is proved.
use programming_with_c.Base.{ℕ, zero, suc, ◌<◌, ◌≡◌, refl, List, [], ◌∷◌, none, some, arith}
use programming_with_c.Base.Int.{ℤ, pos, negsuc}
use programming_with_c.Base.Strtol.{strtol}
use programming_with_c.Arrays.{
  entry, transpose, at, sum, sum_pointer, reverse, point_at_largest, parse_int, min_max,
  count_matching,
}
use programming_with_c.Arrays.Matrix.{Inside, transpose_lem}
use programming_with_c.Arrays.Scans.{sum-pointer}

abbrev temperatures : List ℤ
temperatures = pos 4 ∷ negsuc 1 ∷ pos 9 ∷ pos 4 ∷ pos 1 ∷ []

summed : sum temperatures 5 ≡ pos 16
unfolding sum
summed = refl

reversed : reverse temperatures 5 ≡ pos 1 ∷ pos 4 ∷ pos 9 ∷ negsuc 1 ∷ pos 4 ∷ []
unfolding reverse
reversed = refl

read_past_end : at temperatures 5 5 ≡ none
unfolding at
read_past_end = refl

largest_is_third : point_at_largest temperatures 5 ≡ some 2
unfolding point_at_largest
largest_is_third = refl

found_twice : count_matching temperatures 5 (pos 4) ≡ 2
unfolding count_matching
found_twice = refl

coldest_and_hottest : min_max temperatures 5 ≡ some (record { lo = negsuc 1; hi = pos 9 })
unfolding min_max
coldest_and_hottest = refl

-- "12x"
not_a_number : parse_int (b'1' ∷ b'2' ∷ b'x' ∷ []) ≡ none
unfolding parse_int strtol
not_a_number = refl

abbrev wide : List (List ℤ)
wide = (pos 1 ∷ pos 2 ∷ pos 3 ∷ []) ∷ (pos 4 ∷ pos 5 ∷ pos 6 ∷ []) ∷ []

abbrev blank : List (List ℤ)
blank = (pos 0 ∷ pos 0 ∷ []) ∷ (pos 0 ∷ pos 0 ∷ []) ∷ (pos 0 ∷ pos 0 ∷ []) ∷ []

blank_shape : (x y : ℕ) → x < 3 → y < 2 → Inside blank x y
blank_shape zero y h k = (omega arith, k)
blank_shape (suc zero) y h k = (omega arith, k)
blank_shape (suc (suc zero)) y h k = (omega arith, k)
blank_shape (suc (suc (suc x))) y h k = absurd (omega (arith, h))

transpose_lem_example : entry (transpose 2 3 wide blank) 2 1 ≡ pos 6
transpose_lem_example = transpose_lem 2 3 wide blank blank_shape 2 1 (omega arith) (omega arith)

sum-pointer_example : sum temperatures 5 ≡ sum_pointer temperatures
sum-pointer_example = sum-pointer temperatures
