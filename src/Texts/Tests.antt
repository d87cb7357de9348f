-- ===== src/Texts/Tests.antt =====
-- Runs on the strings of `main`.
use programming_with_c.Base.{ℕ, ◌≡◌, refl, false, List, [], ◌∷◌, some}
use programming_with_c.Base.Int.{pos}
use programming_with_c.Texts.{
  my_strlen, my_strcpy, my_strcmp, copy_into, to_upper_in_place, count_words,
}

-- "fox" and "foe", with their terminators
abbrev fox : List ℕ
fox = b'f' ∷ b'o' ∷ b'x' ∷ 0 ∷ []

abbrev foe : List ℕ
foe = b'f' ∷ b'o' ∷ b'e' ∷ 0 ∷ []

three : my_strlen fox ≡ 3
unfolding my_strlen
three = refl

later : my_strcmp fox foe ≡ pos 19
unfolding my_strcmp
later = refl

overwritten :
    my_strcpy (b'a' ∷ b'a' ∷ b'a' ∷ b'a' ∷ b'a' ∷ []) fox ≡ b'f' ∷ b'o' ∷ b'x' ∷ 0 ∷ b'a' ∷ []
unfolding my_strcpy
overwritten = refl

cut_off : copy_into 2 (b'f' ∷ b'o' ∷ b'x' ∷ []) ≡ (false, some (b'f' ∷ []))
unfolding copy_into
cut_off = refl

loud : to_upper_in_place fox ≡ b'F' ∷ b'O' ∷ b'X' ∷ 0 ∷ []
unfolding to_upper_in_place
loud = refl

two_words : count_words (b' ' ∷ b'a' ∷ b' ' ∷ b' ' ∷ b'b' ∷ 0 ∷ b'c' ∷ []) ≡ 2
unfolding count_words
two_words = refl
