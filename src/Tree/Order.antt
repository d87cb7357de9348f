-- ===== src/Tree/Order.antt =====
-- The search-tree order, and that `tree_insert` keeps it.
use programming_with_c.Base.{Bool, true, false, List, [], ◌∷◌, arith}
use programming_with_c.Base.Int.{ℤ, ◌<ℤ◌}
use programming_with_c.Tree.{Tree, leaf, node, insert, insert_each}

abbrev pub Below : ℤ → Tree → Type 0
Below b leaf = Unit
Below b (node k l r) = (k <ℤ b) × Below b l × Below b r

abbrev pub Above : ℤ → Tree → Type 0
Above b leaf = Unit
Above b (node k l r) = (b <ℤ k) × Above b l × Above b r

-- Every key on the left is smaller and every key on the right is larger, at each node.
abbrev pub IsSearch : Tree → Type 0
IsSearch leaf = Unit
IsSearch (node k l r) = Below k l × Above k r × IsSearch l × IsSearch r

pub Below-insert :
    (m : Bool) (b key : ℤ) (t : Tree) → key <ℤ b → Below b t → Below b (insert m key t).1
unfolding insert
Below-insert true b key leaf h o = (h, tt, tt)
Below-insert false b key leaf h o = tt
Below-insert m b key (node k l r) h o =
    ground (arith, Below-insert m b key l h o.1, Below-insert m b key r h o.2)

Above-insert : (m : Bool) (b key : ℤ) (t : Tree) → b <ℤ key → Above b t → Above b (insert m key t).1
unfolding insert
Above-insert true b key leaf h o = (h, tt, tt)
Above-insert false b key leaf h o = tt
Above-insert m b key (node k l r) h o =
    ground (arith, Above-insert m b key l h o.1, Above-insert m b key r h o.2)

-- `tree_insert` keeps the search order, also when `malloc` fails or the key is there already.
pub insert-IsSearch : (m : Bool) (key : ℤ) (t : Tree) → IsSearch t → IsSearch (insert m key t).1
unfolding insert
insert-IsSearch true key leaf o = (tt, tt, tt, tt)
insert-IsSearch false key leaf o = tt
insert-IsSearch m key (node k l r) o = ground (
  arith,
  Below-insert m k key l,
  Above-insert m k key r,
  insert-IsSearch m key l o.2,
  insert-IsSearch m key r o.3,
)

pub insert_each-IsSearch : (ks : List ℤ) (t : Tree) → IsSearch t → IsSearch (insert_each ks t)
unfolding insert_each
insert_each-IsSearch [] t o = o
insert_each-IsSearch (k ∷ ks) t o =
    insert_each-IsSearch ks (insert true k t).1 (insert-IsSearch true k t o)
