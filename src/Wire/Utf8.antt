-- ===== src/Wire/Utf8.antt =====
-- The UTF-8 helpers of portable.c.
use programming_with_c.Base.{
  ℕ, ◌+◌, ◌≤◌, ◌<◌, ◌≡◌, refl, ◌⊎◌, true, false, List, [], ◌∷◌, ◌++◌, arith, if◌then◌else◌, ◌∙◌,
}
use programming_with_c.Wire.{at, continues, utf8_from, utf8_length}

-- What backing off from `max` gives: every byte passed over continues a character, and the cut is
-- at 0 or at a byte that does not.
pub record Backed (s : List ℕ) (max cut : ℕ) : Type 0 where
  pub below : cut ≤ max
  pub passed : (i : ℕ) → cut < i → i ≤ max → continues (at s i) ≡ true
  pub stops : (cut ≡ 0) ⊎ (continues (at s cut) ≡ false)

utf8_from-append : (xs ys : List ℕ) (n : ℕ) → utf8_from n (xs ++ ys) ≡ utf8_from (utf8_from n xs) ys
unfolding utf8_from
utf8_from-append [] ys n = refl
utf8_from-append (c ∷ xs) ys n = utf8_from-append xs ys (if continues c then n else n + 1)

utf8_from-add : (xs : List ℕ) (n : ℕ) → utf8_from n xs ≡ n + utf8_from 0 xs
unfolding utf8_from
utf8_from-add [] n = omega arith
utf8_from-add (c ∷ xs) n =
    ground (arith, utf8_from-add xs n, utf8_from-add xs (n + 1), utf8_from-add xs 1)

-- The characters of a string are those before a cut and those behind it.
pub utf8_length-append : (xs ys : List ℕ) → utf8_length (xs ++ ys) ≡ utf8_length xs + utf8_length ys
unfolding utf8_length
utf8_length-append xs ys = utf8_from-append xs ys 0 ∙ utf8_from-add ys (utf8_from 0 xs)
