-- ===== src/HashMap/Table.antt =====
-- The table of adt.c's hash map: every chain holds the keys of its bucket, once each.
use programming_with_c.Base.{
  ℕ, zero, suc, ◌+◌, ◌<◌, List, [], ◌∷◌, ◌≡◌, refl, arith, length, get_or, set, replicate,
}
use programming_with_c.HashMap.{Chain}
use programming_with_c.HashMap.Chain.{Placed, IsUnique}

-- The chains of the buckets `b`, `b + 1`, …
abbrev pub IsTable : ℕ → ℕ → List Chain → Type 0
IsTable n b [] = Unit
IsTable n b (c ∷ cs) = Placed n b c × IsUnique c × IsTable n (b + 1) cs

abbrev pub total : List Chain → ℕ
total [] = 0
total (c ∷ cs) = length c + total cs

pub total-set :
    (cs : List Chain) (i : ℕ) (c : Chain)
    → i < length cs
    → total (set cs i c) + length (get_or cs i []) ≡ total cs + length c
total-set [] i c h = absurd (omega arith)
total-set (d ∷ cs) zero c h = omega arith
total-set (d ∷ cs) (suc i) c h = omega (arith, total-set cs i c (omega arith))

pub total-replicate : (n : ℕ) → total (replicate n []) ≡ 0
total-replicate zero = refl
total-replicate (suc n) = omega (arith, total-replicate n)

pub IsTable-get_or :
    (n b k : ℕ) (cs : List Chain) (i : ℕ)
    → IsTable n b cs
    → i < length cs
    → b + i ≡ k
    → Placed n k (get_or cs i []) × IsUnique (get_or cs i [])
IsTable-get_or n b k [] i t h e = absurd (omega arith)
IsTable-get_or n b k (c ∷ cs) zero t h e = let e' : b ≡ k = omega arith in rw (← e') (t.0, t.1)
IsTable-get_or n b k (c ∷ cs) (suc i) t h e =
    IsTable-get_or n (b + 1) k cs i t.2 (omega arith) (omega arith)

pub IsTable-set :
    (n b k : ℕ) (cs : List Chain) (i : ℕ) (c : Chain)
    → IsTable n b cs
    → b + i ≡ k
    → Placed n k c
    → IsUnique c
    → IsTable n b (set cs i c)
IsTable-set n b k [] i c t e p u = tt
IsTable-set n b k (d ∷ cs) zero c t e p u = let e' : b ≡ k = omega arith in (rw e' p, u, t.2)
IsTable-set n b k (d ∷ cs) (suc i) c t e p u =
    (t.0, t.1, IsTable-set n (b + 1) k cs i c t.2 (omega arith) p u)

pub IsTable-replicate : (n b k : ℕ) → IsTable n b (replicate k [])
IsTable-replicate n b zero = tt
IsTable-replicate n b (suc k) = (tt, tt, IsTable-replicate n (b + 1) k)
