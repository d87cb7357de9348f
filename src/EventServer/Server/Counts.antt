-- ===== src/EventServer/Server/Counts.antt =====
-- The number of entries of a table.
use programming_with_c.Base.{ℕ, zero, suc, ◌+◌, ◌<◌, ◌≤◌, ◌≡◌, Option, none, some, refl, arith}
use programming_with_c.EventServer.Server.{store}

abbrev pub one_if_some {ℓ} : {A : Type ℓ} → Option A → ℕ
one_if_some none = 0
one_if_some (some a) = 1

-- The entries below `n`.
pub entries {ℓ} : {A : Type ℓ} → ℕ → (ℕ → Option A) → ℕ
entries zero t = 0
entries (suc n) t = one_if_some (t n) + entries n t

entries-store_above {ℓ} :
    {A : Type ℓ} (n k : ℕ) (v : Option A) (t : ℕ → Option A)
    → n ≤ k
    → entries n (store t k v) ≡ entries n t
unfolding entries
entries-store_above zero k v t h = omega arith
entries-store_above (suc n) k v t h = ground (arith, entries-store_above n k v t)

pub entries-store {ℓ} :
    {A : Type ℓ} (n k : ℕ) (v : Option A) (t : ℕ → Option A)
    → k < n
    → entries n (store t k v) + one_if_some (t k) ≡ entries n t + one_if_some v
unfolding entries
entries-store zero k v t h = absurd (omega arith)
entries-store (suc n) k v t h = ground (arith, entries-store n k v t, entries-store_above n k v t)

pub entries-none {ℓ} : (A : Type ℓ) (n : ℕ) → entries {A = A} n (λ i. none) ≡ 0
unfolding entries
entries-none A zero = refl
entries-none A (suc n) = omega (arith, entries-none A n)
