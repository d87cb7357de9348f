-- ===== src/Tree/Degenerate.antt =====
-- The degenerate case of adt.c: keys inserted in ascending order make a list of the tree.
use programming_with_c.Base.{All, ◌+◌, true, false, List, [], ◌∷◌, ◌≡◌, refl, arith, length}
use programming_with_c.Base.Int.{ℤ, ltb_ℤ, ◌<ℤ◌}
use programming_with_c.Tree.{Tree, leaf, node, insert, height, insert_each}
use programming_with_c.Tree.Order.{Below, Below-insert}
use programming_with_c.Tree.Keys.{IsSorted}

-- A chain of right links, which has the height of a list.
abbrev pub IsSpine : Tree → Type 0
IsSpine leaf = Unit
IsSpine (node k l r) = (l ≡ leaf) × IsSpine r

abbrev Grown : ℤ → Tree → Type 0
Grown key t =
    Below key t
    → IsSpine t
    → IsSpine (insert true key t).1 × (height (insert true key t).1 ≡ height t + 1)

insert-IsSpine : (key : ℤ) (t : Tree) → Grown key t
unfolding insert height
insert-IsSpine key leaf o h = ((refl, tt), refl)
insert-IsSpine key (node k l r) o h = ground (arith, insert-IsSpine key r o.2 h.1, lt_asymm)
  where
    lt_asymm : (ltb_ℤ k key ≡ true) × (ltb_ℤ key k ≡ false)
    lt_asymm = (ground arith, ground arith)

Below-insert_each :
    (key : ℤ) (t : Tree) (ks : List ℤ)
    → All (λ k. key <ℤ k) ks
    → All (λ k. Below k t) ks
    → All (λ k. Below k (insert true key t).1) ks
Below-insert_each key t [] h o = tt
Below-insert_each key t (k ∷ ks) h o =
    (Below-insert true k key t h.0 o.0, Below-insert_each key t ks h.1 o.1)

height-insert_each :
    (ks : List ℤ) (t : Tree)
    → IsSorted ks
    → All (λ k. Below k t) ks
    → IsSpine t
    → height (insert_each ks t) ≡ height t + length ks
unfolding insert_each
height-insert_each [] t s o h = omega arith
height-insert_each (k ∷ ks) t s o h =
    let grown = insert-IsSpine k t o.0 h in
    omega (
      arith,
      height-insert_each ks (insert true k t).1 s.1 (Below-insert_each k t ks s.0 o.1) grown.0,
      grown.1,
    )

All-leaf : (ks : List ℤ) → All (λ k. Below k leaf) ks
All-leaf [] = tt
All-leaf (k ∷ ks) = (tt, All-leaf ks)

-- A tree built by inserting keys in strictly ascending order is as high as it has keys.
pub height_of_sorted : (ks : List ℤ) → IsSorted ks → height (insert_each ks leaf) ≡ length ks
height_of_sorted ks s = omega (arith, height-insert_each ks leaf s (All-leaf ks) tt, height-leaf)
  where
    height-leaf : height leaf ≡ 0
    height-leaf = unfold height in refl
