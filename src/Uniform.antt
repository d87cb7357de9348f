-- ===== src/Uniform.antt =====
-- `uniform` of week24_the_standard_library_toolbox/toolbox.c. What `rand` returns, call by call, is an
-- argument, and so is RAND_MAX.
pub mod Unbiased
mod Tests
use programming_with_c.Base.{ℕ, ◌-◌, ◌%◌, List, [], ◌∷◌, Option, none, some, ltb, if◌then◌else◌}

-- The first multiple of `n` that is rejected.
abbrev pub limit_of : ℕ → ℕ → ℕ
limit_of rand_max n = rand_max - rand_max % n

-- The loop, with the calls of `rand` that are to come; `none` if they end while it still rejects.
pub draw : ℕ → List ℕ → Option (ℕ × List ℕ)
draw limit [] = none
draw limit (value ∷ values) =
    let again = draw limit values in if ltb value limit then some (value, values) else again

pub uniform : ℕ → ℕ → List ℕ → Option (ℕ × List ℕ)
unfolding draw
uniform rand_max n values = elim (draw (limit_of rand_max n) values) [
  | none ↦ none
  | some (value, rest) ↦ some (value % n, rest)
]
