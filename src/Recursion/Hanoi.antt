-- ===== src/Recursion/Hanoi.antt =====
-- week18_recursion/recur.c: the number of moves of `hanoi`.
use programming_with_c.Base.{ℕ, zero, suc, ◌+◌, ◌^◌, ◌≡◌, arith}
use programming_with_c.Recursion.{hanoi, Moves, count_move}
use native.Mathlib.Nat.{pow-suc}

-- `hanoi` adds 2 ^ n - 1 to the number of moves.
pub hanoi_moves :
    (n from to via : ℕ) (m : Moves) → (hanoi n from to via m).moves + 1 ≡ m.moves + 2 ^ n
unfolding hanoi count_move
hanoi_moves zero from to via m = omega arith
hanoi_moves (suc n) from to via m =
    let first = hanoi n from via to m in
    omega (
      arith,
      pow-suc 2 n,
      hanoi_moves n from via to m,
      hanoi_moves n via to from (count_move (suc n) from to first),
    )
