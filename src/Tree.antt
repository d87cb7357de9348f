-- ===== src/Tree.antt =====
-- The binary search tree of week33_trees_hash_tables_and_abstract_data_types/adt.c.
-- A `TreeNode *` is the tree that hangs below it; NULL is `leaf`. A function that changes a tree
-- returns the new one. Whether `malloc` gives memory is an argument.
pub mod Order
pub mod Keys
pub mod Search
pub mod Degenerate
mod Tests
use programming_with_c.Base.{ℕ, ◌+◌, Bool, true, false, List, [], ◌∷◌, ◌++◌, ltb, if◌then◌else◌}
use programming_with_c.Base.Int.{ℤ, ltb_ℤ}

pub data Tree : Type 0 where
  leaf : Tree
  node : ℤ → Tree → Tree → Tree

-- The walk down the links, and the node hung where it ends.
pub insert : Bool → ℤ → Tree → Bool × Tree
insert memory key leaf = if memory then (true, node key leaf leaf) else (false, leaf)
insert memory key (node k l r) =
    let in_left = insert memory key l in
    let in_right = insert memory key r in
    if ltb_ℤ key k
    then (in_left.0, node k in_left.1 r)
    else if ltb_ℤ k key
    then (in_right.0, node k l in_right.1)
    else (false, node k l r)

-- The flag, and what `*steps` holds at the end.
pub contains : Tree → ℤ → ℕ → Bool × ℕ
contains leaf key steps = (false, steps)
contains (node k l r) key steps =
    let in_left = contains l key (steps + 1) in
    let in_right = contains r key (steps + 1) in
    if ltb_ℤ key k then in_left else if ltb_ℤ k key then in_right else (true, steps + 1)

-- `ctx` is the state that the visitor is handed and changes.
pub inorder {ℓ} : {S : Type ℓ} → Tree → (ℤ → S → S) → S → S
inorder leaf visit ctx = ctx
inorder (node k l r) visit ctx = inorder r visit (visit k (inorder l visit ctx))

-- The visitor `count_key`: the key is not read.
pub count_key : ℤ → ℕ → ℕ
count_key key n = n + 1

-- The keys of the nodes in the order in which `free` is called on them.
pub destroy : Tree → List ℤ
destroy leaf = []
destroy (node k l r) = destroy l ++ (destroy r ++ (k ∷ []))

pub height : Tree → ℕ
height leaf = 0
height (node k l r) = 1 + (if ltb (height r) (height l) then height l else height r)

-- Successive insertions with memory at hand, as `main` makes them.
pub insert_each : List ℤ → Tree → Tree
insert_each [] t = t
insert_each (k ∷ ks) t = insert_each ks (insert true k t).1
