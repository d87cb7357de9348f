-- ===== src/Tree/Tests.antt =====
-- The tree of adt.c's `main`, and the theorems at it.
use programming_with_c.Base.{true, false, not, ◌&&◌, List, [], ◌∷◌, ◌≡◌, refl, arith}
use programming_with_c.Base.Int.{ℤ, pos}
use programming_with_c.Tree.{Tree, leaf, node, insert, insert_each, contains, height, destroy}
use programming_with_c.Tree.Order.{IsSearch}
use programming_with_c.Tree.Keys.{keys, insert_sorted, keys-insert, IsSorted}
use programming_with_c.Tree.Search.{insert-flag}

abbrev seven : List ℤ
seven = pos 50 ∷ pos 30 ∷ pos 70 ∷ pos 20 ∷ pos 40 ∷ pos 60 ∷ pos 80 ∷ []

abbrev root : Tree
root =
    node (pos 50) (node (pos 30) (node (pos 20) leaf leaf) (node (pos 40) leaf leaf))
      (node (pos 70) (node (pos 60) leaf leaf) (node (pos 80) leaf leaf))

built : insert_each seven leaf ≡ root
unfolding insert_each insert
built = refl

root-height : height root ≡ 3
unfolding height
root-height = refl

finds_40 : contains root (pos 40) 0 ≡ (true, 3)
unfolding contains
finds_40 = refl

misses_45 : contains root (pos 45) 0 ≡ (false, 3)
unfolding contains
misses_45 = refl

root_destroyed : destroy root ≡ pos 20 ∷ pos 40 ∷ pos 30 ∷ pos 60 ∷ pos 80 ∷ pos 70 ∷ pos 50 ∷ []
unfolding destroy
root_destroyed = refl

root-IsSearch : IsSearch root
root-IsSearch = omega arith

keys-insert_example : keys (insert true (pos 45) root).1 ≡ insert_sorted (pos 45) (keys root)
keys-insert_example = keys-insert (pos 45) root root-IsSearch

insert-flag_example : (insert true (pos 40) root).0 ≡ (true && not (contains root (pos 40) 0).0)
insert-flag_example = insert-flag true (pos 40) root 0

abbrev ascending : List ℤ
ascending = pos 1 ∷ pos 2 ∷ pos 3 ∷ pos 4 ∷ []

ascending-IsSorted : IsSorted ascending
ascending-IsSorted = omega arith
