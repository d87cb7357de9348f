-- ===== src/Texts.antt =====
-- Strings by hand: week14_strings_and_character_handling/strings.c. Memory from a `char *` on is the
-- list of its bytes; a string ends at its first zero. Behind the end of the list nothing is read or
-- written, which valid calls never come to.
pub mod Copies
mod Tests
use programming_with_c.Base.{
  ℕ, zero, suc, ◌+◌, ◌-◌, Bool, true, false, not, ◌&&◌, List, [], ◌∷◌, Option, none, some, ltb, leb,
  ◌==◌, if◌then◌else◌, length, take,
}
use programming_with_c.Base.Int.{ℤ, pos, ◌-ℤ◌}
use programming_with_c.Base.Strtol.{is_space}

pub my_strlen : List ℕ → ℕ
my_strlen [] = 0
my_strlen (c ∷ s) = let rest = my_strlen s in if c == 0 then 0 else 1 + rest

-- `dst` behind the call; the terminator is copied before the loop stops.
pub my_strcpy : List ℕ → List ℕ → List ℕ
my_strcpy (d ∷ dst) (c ∷ src) = let rest = my_strcpy dst src in if c == 0 then c ∷ dst else c ∷ rest
my_strcpy dst src = dst

pub my_strcmp : List ℕ → List ℕ → ℤ
unfolding ◌-ℤ◌
my_strcmp (a ∷ s) (b ∷ t) =
    let rest = my_strcmp s t in if not (a == 0) && a == b then rest else pos a -ℤ pos b
my_strcmp _ _ = pos 0

-- The result, and the text that `dst` holds; `none` if nothing is written. `src` has no terminator.
pub copy_into : ℕ → List ℕ → Bool × Option (List ℕ)
copy_into zero src = (false, none)
copy_into (suc dst_size) src = (ltb (length src) (suc dst_size), some (take dst_size src))

-- `toupper` in the "C" locale.
abbrev pub to_upper : ℕ → ℕ
to_upper c = if leb 97 c && leb c 122 then c - 32 else c

pub to_upper_in_place : List ℕ → List ℕ
to_upper_in_place [] = []
to_upper_in_place (c ∷ s) =
    let rest = to_upper_in_place s in if c == 0 then c ∷ s else to_upper c ∷ rest

-- The loop of `count_words`, with its two variables.
pub words_loop : List ℕ → ℕ → Bool → ℕ
words_loop [] words in_word = words
words_loop (c ∷ s) words in_word =
    let after_space = words_loop s words false in
    let in_same = words_loop s words true in
    let in_next = words_loop s (words + 1) true in
    if c == 0
    then words
    else if is_space c
    then after_space
    else if in_word
    then in_same
    else in_next

pub count_words : List ℕ → ℕ
unfolding words_loop
count_words s = words_loop s 0 false
