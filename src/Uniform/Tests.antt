-- ===== src/Uniform/Tests.antt =====
-- A small RAND_MAX, and an instance of what is proved.
use programming_with_c.Base.{◌≡◌, refl, [], ◌∷◌, none, some, arith}
use programming_with_c.Uniform.{uniform}
use programming_with_c.Uniform.Unbiased.{outcomes, uniform-outcomes}

-- With values up to 7, those from 6 on are rejected for three results.
rejects_tail : uniform 7 3 (7 ∷ 6 ∷ 5 ∷ 4 ∷ []) ≡ some (2, 4 ∷ [])
unfolding uniform
rejects_tail = refl

rejects_all : uniform 7 3 (7 ∷ 6 ∷ []) ≡ none
unfolding uniform
rejects_all = refl

uniform-outcomes_example : (outcomes 7 3 2 1 ≡ outcomes 7 3 2 2) × (outcomes 7 3 1 1 ≡ 2)
uniform-outcomes_example = uniform-outcomes 7 3 2 1 2 (omega arith) (omega arith)
