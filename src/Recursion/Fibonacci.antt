-- ===== src/Recursion/Fibonacci.antt =====
-- week18_recursion/recur.c: the three ways to the Fibonacci numbers give the same.
use programming_with_c.Base.{
  ℕ, zero, suc, ◌+◌, ◌*◌, ◌≡◌, ◌<◌, refl, sym, ap, ◌∙◌, List, get_or, set, length, ◌⊎◌, inl, inr,
  get_or-set_self, get_or-set_ne, length-set, arith, Bool-cases, false, ◌==◌,
}
use programming_with_c.Recursion.{fib_naive, fib_memo, Memo, iter_loop, fib_iter}

-- The Fibonacci numbers.
pub fib : ℕ → ℕ
fib zero = 0
fib (suc zero) = 1
fib (suc (suc n)) = fib (suc n) + fib n

fib_naive-fib : (n calls : ℕ) → (fib_naive n calls).0 ≡ fib n
unfolding fib_naive fib
fib_naive-fib zero calls = refl
fib_naive-fib (suc zero) calls = refl
fib_naive-fib (suc (suc n)) calls =
    omega
      (arith, fib_naive-fib (suc n) (calls + 1), fib_naive-fib n (fib_naive (suc n) (calls + 1)).1)

fib_naive-calls : (n calls : ℕ) → (fib_naive n calls).1 + 1 ≡ calls + 2 * fib (suc n)
unfolding fib_naive fib
fib_naive-calls zero calls = omega arith
fib_naive-calls (suc zero) calls = omega arith
fib_naive-calls (suc (suc n)) calls = omega (
  arith,
  fib_naive-calls (suc n) (calls + 1),
  fib_naive-calls n (fib_naive (suc n) (calls + 1)).1,
)

iter_loop-fib : (rounds n : ℕ) → iter_loop rounds (fib n) (fib (suc n)) ≡ fib (rounds + n)
unfolding iter_loop
iter_loop-fib zero n = ap fib (omega arith)
iter_loop-fib (suc rounds) n =
    ap (λ b. iter_loop rounds (fib (suc n)) b) next
    ∙ iter_loop-fib rounds (suc n)
    ∙ ap fib (omega arith)
  where
    next : fib n + fib (suc n) ≡ fib (suc (suc n))
    next = unfold fib in omega arith

fib_iter-fib : (n : ℕ) → fib_iter n ≡ fib n
unfolding fib_iter
fib_iter-fib n = unfold fib in iter_loop-fib n 0 ∙ ap fib (omega arith)

-- The loop and the recursion without a cache give the same number, the Fibonacci number of `n`, and
-- the recursion makes 2 F(n + 1) - 1 calls.
pub naive_agrees :
    (n calls : ℕ)
    → (fib_iter n ≡ fib n)
      × ((fib_naive n calls).0 ≡ fib_iter n)
      × ((fib_naive n calls).1 + 1 ≡ calls + 2 * fib (suc n))
naive_agrees n calls =
    (fib_iter-fib n, fib_naive-fib n calls ∙ sym (fib_iter-fib n), fib_naive-calls n calls)

-- Every entry of the cache is 0 or the number that belongs there.
abbrev pub IsCache : List ℕ → Type 0
IsCache cache = (i : ℕ) → (get_or cache i 0 ≡ 0) ⊎ (get_or cache i 0 ≡ fib i)

-- What `fib_memo` leaves behind for the argument `n`.
pub record Memoised (n : ℕ) (cache : List ℕ) (r : Memo) : Type 0 where
  pub value : r.value ≡ fib n
  pub is_cache : IsCache r.cache
  pub size : length r.cache ≡ length cache

set-IsCache :
    (cache : List ℕ) (n v : ℕ)
    → n < length cache
    → v ≡ fib n
    → IsCache cache
    → IsCache (set cache n v)
set-IsCache cache n v lt e c i = elim (Bool-cases (i == n)) [
  | inl t ↦
      let same : i ≡ n = ground arith in
      inr (
        ap (λ k. get_or (set cache n v) k 0) same
        ∙ get_or-set_self cache n v 0 lt
        ∙ e
        ∙ ap fib (sym same))
  | inr f ↦ rw (get_or-set_ne cache n i v 0 (ground arith)) (c i)
]

-- With a cache whose entries are 0 or right, and which has room for `n`, `fib_memo` gives the
-- Fibonacci number, and leaves such a cache of the same size.
pub fib_memo_lem :
    (n : ℕ) (cache : List ℕ) (calls : ℕ)
    → IsCache cache
    → n < length cache
    → Memoised n cache (fib_memo n cache calls)
unfolding fib_memo
fib_memo_lem zero cache calls c h = record { value = unfold fib in refl; is_cache = c; size = refl }
fib_memo_lem (suc zero) cache calls c h = record {
  value = unfold fib in refl;
  is_cache = c;
  size = refl;
}
fib_memo_lem (suc (suc n)) cache calls c h =
    let x = fib_memo_lem (suc n) cache (calls + 1) c (omega arith) in
    let y =
      fib_memo_lem n (fib_memo (suc n) cache (calls + 1)).cache
        (fib_memo (suc n) cache (calls + 1)).calls x.is_cache (omega (arith, x.size)) in
    elim (Bool-cases (get_or cache (suc (suc n)) 0 == 0)) [
      | inr f ↦ rw f (record { value = hit f; is_cache = c; size = refl })
      | inl t ↦ rw t (record {
        value = both x y;
        is_cache =
            set-IsCache _ (suc (suc n)) _ (omega (arith, x.size, y.size)) (both x y) y.is_cache;
        size = length-set _ (suc (suc n)) _ ∙ y.size ∙ x.size;
      })
    ]
  where
    both :
        {c c' : List ℕ} {r s : Memo}
        → Memoised (suc n) c r
        → Memoised n c' s
        → r.value + s.value ≡ fib (suc (suc n))
    both x y = unfold fib in omega (arith, x.value, y.value)

    hit :
        (get_or cache (suc (suc n)) 0 == 0) ≡ false
        → get_or cache (suc (suc n)) 0 ≡ fib (suc (suc n))
    hit f = elim (c (suc (suc n))) [ inl z ↦ absurd (ground arith) | inr e ↦ e ]
