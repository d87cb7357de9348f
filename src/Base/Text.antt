-- ===== src/Base/Text.antt =====
-- Texts as lists of bytes, and what the C library does with them.
use Prim.Native.Nat.{ℕ, zero, suc, ◌+◌, ◌/◌, ◌%◌}
use mathlib.Core.Bool.{Bool, true, false, ◌&&◌}
use mathlib.Core.List.{List, [], ◌∷◌, ◌++◌}
use programming_with_c.Base.Tests.{ltb, ◌==◌, if◌then◌else◌}

abbrev pub newline : ℕ
newline = 10

-- `%s`: the bytes before the first terminator.
unfoldable pub c_string : List ℕ → List ℕ
c_string [] = []
c_string (c ∷ s) = if c == 0 then [] else c ∷ c_string s

-- `%u`, for at most `k + 1` digits.
unfoldable pub decimal : ℕ → ℕ → List ℕ
decimal zero n = (b'0' + n % 10) ∷ []
decimal (suc k) n =
    let upper = decimal k (n / 10) in
    if ltb n 10 then (b'0' + n) ∷ [] else upper ++ ((b'0' + n % 10) ∷ [])

-- `memcmp (a, b, n) == 0` for arrays of the same length.
unfoldable pub mem_eq : List ℕ → List ℕ → Bool
mem_eq [] [] = true
mem_eq (a ∷ s) (b ∷ t) = a == b && mem_eq s t
mem_eq _ _ = false
