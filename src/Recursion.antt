-- ===== src/Recursion.antt =====
-- week18_recursion/recur.c: binary search, the towers of Hanoi and the Fibonacci numbers.
pub mod Search
pub mod Fibonacci
pub mod Hanoi
mod Tests
use programming_with_c.Base.{
  ℕ, zero, suc, ◌+◌, ◌-◌, ◌*◌, ◌/◌, ◌^◌, Bool, true, false, not, ltb, leb, ◌==◌, ◌&&◌,
  if◌then◌else◌, List, [], ◌∷◌, ◌++◌, Option, none, some, get_or, set,
}
use programming_with_c.Base.Int.{ℤ, pos, ltb_ℤ, eqb_ℤ}

-- In both searches `end` is `hi + 1`, so that a `hi` of -1 is an `end` of 0: `lo <= hi` is
-- `lo < end`, and `hi = mid - 1` is `end = mid`.
abbrev pub middle : ℕ → ℕ → ℕ
middle lo end = lo + (end - 1 - lo) / 2

-- The outer option is the fuel (`none` when it runs out), the inner one the result (`none` is -1).
pub bsearch_rec : ℕ → List ℤ → ℕ → ℕ → ℤ → Option (Option ℕ)
bsearch_rec zero a lo end target = none
bsearch_rec (suc fuel) a lo end target =
    let mid = middle lo end in
    let right = bsearch_rec fuel a (mid + 1) end target in
    let left = bsearch_rec fuel a lo mid target in
    if ltb lo end
    then if eqb_ℤ (get_or a mid (pos 0)) target
      then some (some mid)
      else if ltb_ℤ (get_or a mid (pos 0)) target
      then right
      else left
    else some none

pub record Range : Type 0 where
  pub lo : ℕ
  pub end : ℕ

-- The body of the loop of `bsearch_iter` where the element is not the target.
pub narrow : List ℤ → ℤ → Range → Range
narrow a target r =
    let mid = middle r.lo r.end in
    if ltb_ℤ (get_or a mid (pos 0)) target
    then record r { lo = mid + 1 }
    else record r { end = mid }

pub search_loop : ℕ → List ℤ → ℤ → Range → Option (Option ℕ)
unfolding narrow
search_loop zero a target r = none
search_loop (suc fuel) a target r =
    let mid = middle r.lo r.end in
    let rest = search_loop fuel a target (narrow a target r) in
    if ltb r.lo r.end
    then if eqb_ℤ (get_or a mid (pos 0)) target then some (some mid) else rest
    else some none

-- Each round makes the range smaller, so `n + 1` tests are enough.
pub bsearch_iter : List ℤ → ℕ → ℤ → Option (Option ℕ)
unfolding search_loop
bsearch_iter a n target = search_loop (n + 1) a target (record { lo = 0; end = n })

-- What `hanoi` leaves behind: `*moves`, and the moves that it prints (disk, from, to).
pub record Moves : Type 0 where
  pub moves : ℕ
  pub printed : List (ℕ × ℕ × ℕ)

pub count_move : ℕ → ℕ → ℕ → Moves → Moves
count_move disks from to m = record {
  moves = m.moves + 1;
  printed = if leb disks 3 then m.printed ++ ((disks, from, to) ∷ []) else m.printed;
}

-- The pegs are characters.
pub hanoi : ℕ → ℕ → ℕ → ℕ → Moves → Moves
unfolding count_move
hanoi zero from to via m = m
hanoi (suc n) from to via m =
    hanoi n via to from (count_move (suc n) from to (hanoi n from via to m))

-- The result, and `call_counter`.
pub fib_naive : ℕ → ℕ → ℕ × ℕ
fib_naive zero calls = (0, calls + 1)
fib_naive (suc zero) calls = (1, calls + 1)
fib_naive (suc (suc n)) calls =
    let (a, calls_a) = fib_naive (suc n) (calls + 1) in
    let (b, calls_b) = fib_naive n calls_a in (a + b, calls_b)

pub record Memo : Type 0 where
  pub value : ℕ
  pub cache : List ℕ
  pub calls : ℕ

pub fib_memo : ℕ → List ℕ → ℕ → Memo
fib_memo zero cache calls = record { value = 0; cache = cache; calls = calls + 1 }
fib_memo (suc zero) cache calls = record { value = 1; cache = cache; calls = calls + 1 }
fib_memo (suc (suc n)) cache calls =
    let x = fib_memo (suc n) cache (calls + 1) in
    let y = fib_memo n x.cache x.calls in
    if get_or cache (suc (suc n)) 0 == 0
    then record {
      value = x.value + y.value;
      cache = set y.cache (suc (suc n)) (x.value + y.value);
      calls = y.calls;
    }
    else record { value = get_or cache (suc (suc n)) 0; cache = cache; calls = calls + 1 }

-- The loop of `fib_iter` with `rounds` rounds left.
pub iter_loop : ℕ → ℕ → ℕ → ℕ
iter_loop zero a b = a
iter_loop (suc rounds) a b = iter_loop rounds b (a + b)

pub fib_iter : ℕ → ℕ
unfolding iter_loop
fib_iter n = iter_loop n 0 1
