-- ===== src/Tree/Search.antt =====
-- What `tree_contains` answers, and in how many steps.
use programming_with_c.Base.{
  ℕ, ◌+◌, Bool-cases, ◌≤◌, Bool, true, false, not, ◌&&◌, ◌||◌, ◌≡◌, refl, ◌↔◌, ◌⊎◌, inl, inr, arith,
}
use programming_with_c.Base.Int.{ℤ, ◌<ℤ◌, ltb_ℤ, eqb_ℤ, eq_of_not_lt}
use programming_with_c.Tree.{Tree, leaf, node, insert, contains, height}
use programming_with_c.Tree.Order.{Below, Above, IsSearch}

-- The answer does not depend on the count of steps.
contains_flag : (t : Tree) (x : ℤ) (s u : ℕ) → (contains t x s).0 ≡ (contains t x u).0
unfolding contains
contains_flag leaf x s u = refl
contains_flag (node k l r) x s u =
    ground (arith, contains_flag l x (s + 1) (u + 1), contains_flag r x (s + 1) (u + 1))

-- The flag of `tree_insert`: memory was there, and the key was not.
pub insert-flag :
    (m : Bool) (key : ℤ) (t : Tree) (s : ℕ) → (insert m key t).0 ≡ (m && not (contains t key s).0)
unfolding insert contains
insert-flag true key leaf s = refl
insert-flag false key leaf s = refl
insert-flag m key (node k l r) s =
    ground (arith, insert-flag m key l (s + 1), insert-flag m key r (s + 1))

insert_leaf : (key : ℤ) → (insert true key leaf).1 ≡ node key leaf leaf
unfolding insert
insert_leaf key = refl

-- The tree that `tree_insert` leaves, by the two tests at the root.
module _ (key k : ℤ) (l r : Tree) where
  insert_left :
      ltb_ℤ key k ≡ true → (insert true key (node k l r)).1 ≡ node k (insert true key l).1 r
  unfolding insert
  insert_left h = rw h

  insert_right :
      ltb_ℤ key k ≡ false
      → ltb_ℤ k key ≡ true
      → (insert true key (node k l r)).1 ≡ node k l (insert true key r).1
  unfolding insert
  insert_right h g = rw (h, g)

  insert_same :
      ltb_ℤ key k ≡ false → ltb_ℤ k key ≡ false → (insert true key (node k l r)).1 ≡ node k l r
  unfolding insert
  insert_same h g = rw (h, g)

-- After `tree_insert` a search finds the new key and what it found before, and nothing else.
pub contains-insert :
    (x key : ℤ) (t : Tree) (s u : ℕ)
    → (contains (insert true key t).1 x s).0 ≡ (eqb_ℤ x key || (contains t x u).0)
unfolding contains
contains-insert x key leaf s u = rw (insert_leaf key) (ground arith)
contains-insert x key (node k l r) s u = elim (Bool-cases (ltb_ℤ key k)) [
  | inl h ↦
      rw (insert_left key k l r h)
        (ground (arith, contains-insert x key l (s + 1) (u + 1), contains_flag r x (s + 1) (u + 1)))
  | inr h ↦ elim (Bool-cases (ltb_ℤ k key)) [
    | inl g ↦
        rw (insert_right key k l r h g) (
          ground
            (arith, contains-insert x key r (s + 1) (u + 1), contains_flag l x (s + 1) (u + 1)))
    | inr g ↦
        rw (insert_same key k l r h g)
          (ground (arith, contains_flag l x (s + 1) (u + 1), contains_flag r x (s + 1) (u + 1)))
  ]
]

-- A search makes at most as many comparisons as the tree is high.
pub contains-le-height : (t : Tree) (x : ℤ) (s : ℕ) → (contains t x s).1 ≤ s + height t
unfolding contains height
contains-le-height leaf x s = omega arith
contains-le-height (node k l r) x s =
    ground (arith, contains-le-height l x (s + 1), contains-le-height r x (s + 1))

abbrev pub Occurs : ℤ → Tree → Type 0
Occurs x leaf = ⊥
Occurs x (node k l r) = (x ≡ k) ⊎ Occurs x l ⊎ Occurs x r

Occurs-Below : (b x : ℤ) (t : Tree) → Below b t → Occurs x t → x <ℤ b
Occurs-Below b x leaf o p = absurd p
Occurs-Below b x (node k l r) o p = ground (arith, Occurs-Below b x l o.1, Occurs-Below b x r o.2)

Occurs-Above : (b x : ℤ) (t : Tree) → Above b t → Occurs x t → b <ℤ x
Occurs-Above b x leaf o p = absurd p
Occurs-Above b x (node k l r) o p = ground (arith, Occurs-Above b x l o.1, Occurs-Above b x r o.2)

-- In a search tree `tree_contains` says "found" exactly when a node holds the key.
pub contains_iff :
    (t : Tree) (x : ℤ) (s : ℕ) → IsSearch t → ((contains t x s).0 ≡ true) ↔ Occurs x t
unfolding contains
contains_iff leaf x s o = ground arith
contains_iff (node k l r) x s o = ground (
  arith,
  contains_iff l x (s + 1) o.2,
  contains_iff r x (s + 1) o.3,
  Occurs-Below k x l o.0,
  Occurs-Above k x r o.1,
  eq_of_not_lt x k,
)
