-- ===== src/Texts/Copies.antt =====
-- What the functions of strings.c do to the strings that their memory holds.
use programming_with_c.Base.{
  ℕ, zero, suc, ◌<◌, ◌≡◌, refl, ap, true, List, [], ◌∷◌, some, ◌==◌, length, take_all, Bool-cases,
  inl, inr, arith,
}
use programming_with_c.Base.Text.{c_string}
use programming_with_c.Texts.{my_strlen, my_strcpy, copy_into}

pub my_strlen-c_string : (s : List ℕ) → my_strlen s ≡ length (c_string s)
unfolding my_strlen c_string
my_strlen-c_string [] = refl
my_strlen-c_string (c ∷ s) = ground (arith, my_strlen-c_string s)

-- A destination that has room for the string and its terminator holds the string behind `my_strcpy`,
-- and its length is what it was.
pub my_strcpy-c_string :
    (dst src : List ℕ)
    → my_strlen src < length dst
    → my_strlen src < length src
    → (c_string (my_strcpy dst src) ≡ c_string src) × (length (my_strcpy dst src) ≡ length dst)
unfolding my_strcpy my_strlen c_string
my_strcpy-c_string [] src h l = absurd (omega (arith, h))
my_strcpy-c_string (d ∷ dst) [] h l = absurd (omega (arith, l))
my_strcpy-c_string (d ∷ dst) (c ∷ src) h l = elim (Bool-cases (c == 0)) [
  | inl t ↦ (ground (arith, t), ground (arith, t))
  | inr f ↦
      let r = my_strcpy-c_string dst src (ground (arith, f, h)) (ground (arith, f, l)) in
      (ground (arith, f, r.0), ground (arith, f, r.1))
]

-- `copy_into` reports success exactly when the string is copied whole.
pub copy_into-whole :
    (n : ℕ) (src : List ℕ) → (copy_into n src).0 ≡ true → (copy_into n src).1 ≡ some src
unfolding copy_into
copy_into-whole zero src h = cc h
copy_into-whole (suc n) src h = ap some (take_all src n (ground (arith, h)))
