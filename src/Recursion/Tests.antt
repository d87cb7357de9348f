-- ===== src/Recursion/Tests.antt =====
-- Runs of the functions of week18_recursion/recur.c, and instances of what is proved of them.
use programming_with_c.Base.{
  zero, suc, ◌+◌, ◌≡◌, refl, List, [], ◌∷◌, none, some, inl, arith, replicate, get_or-replicate,
}
use programming_with_c.Base.Int.{ℤ, pos}
use programming_with_c.Recursion.{Moves, hanoi, fib_iter, bsearch_iter, bsearch_rec}
use programming_with_c.Recursion.Search.{IsAscending, Answers, bsearch_lem}
use programming_with_c.Recursion.Fibonacci.{IsCache}

abbrev primes : List ℤ
primes = pos 3 ∷ (pos 5 ∷ (pos 7 ∷ []))

primes-IsAscending : IsAscending primes 3
primes-IsAscending i (suc (suc (suc j))) h l = absurd (omega arith)
primes-IsAscending (suc (suc (suc i))) j h l = absurd (omega arith)
primes-IsAscending zero zero h l = omega arith
primes-IsAscending zero (suc zero) h l = omega arith
primes-IsAscending zero (suc (suc zero)) h l = omega arith
primes-IsAscending (suc i) zero h l = absurd (omega arith)
primes-IsAscending (suc zero) (suc zero) h l = omega arith
primes-IsAscending (suc zero) (suc (suc zero)) h l = omega arith
primes-IsAscending (suc (suc i)) (suc zero) h l = absurd (omega arith)
primes-IsAscending (suc (suc zero)) (suc (suc zero)) h l = omega arith

search_seven : bsearch_iter primes 3 (pos 7) ≡ some (some 2)
unfolding bsearch_iter
search_seven = refl

search_six : bsearch_iter primes 3 (pos 6) ≡ some none
unfolding bsearch_iter
search_six = refl

bsearch_lem_example :
    Answers primes 3 (pos 7) (bsearch_iter primes 3 (pos 7))
    × (bsearch_iter primes 3 (pos 7) ≡ bsearch_rec (3 + 1) primes 0 3 (pos 7))
bsearch_lem_example = bsearch_lem primes 3 (pos 7) primes-IsAscending

abbrev no_moves : Moves
no_moves = record { moves = 0; printed = [] }

hanoi_two :
    hanoi 2 b'A' b'C' b'B' no_moves
    ≡ record { moves = 3; printed = (1, b'A', b'B') ∷ ((2, b'A', b'C') ∷ ((1, b'B', b'C') ∷ [])) }
unfolding hanoi
hanoi_two = refl

fib_iter_ten : fib_iter 10 ≡ 55
unfolding fib_iter
fib_iter_ten = refl

fresh-IsCache : IsCache (replicate 10 0)
fresh-IsCache i = inl (get_or-replicate 10 i 0)
