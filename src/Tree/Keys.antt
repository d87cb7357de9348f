-- ===== src/Tree/Keys.antt =====
-- The keys of a tree in order: what `tree_inorder` visits, and how `tree_insert` and
-- `tree_destroy` of adt.c act on them.
use mathlib.Core.List.{Perm, append-nil, perm_middle}
use mathlib.Core.List.Perm
use mathlib.Core.Path.{subst}
use programming_with_c.Base.{
  All, ℕ, ◌+◌, true, false, List, [], ◌∷◌, ◌++◌, ◌≡◌, refl, sym, ◌∙◌, arith, if◌then◌else◌, length,
}
use programming_with_c.Base.Int.{ℤ, ◌<ℤ◌, ltb_ℤ}
use programming_with_c.Tree.{Tree, leaf, node, insert, inorder, count_key, destroy}
use programming_with_c.Tree.Order.{Below, Above, IsSearch}

pub keys : Tree → List ℤ
keys leaf = []
keys (node k l r) = keys l ++ (k ∷ keys r)

-- `visit` applied to each key of a list, from the front.
abbrev pub visit_all {ℓ} : {S : Type ℓ} → (ℤ → S → S) → List ℤ → S → S
visit_all visit [] ctx = ctx
visit_all visit (k ∷ ks) ctx = visit_all visit ks (visit k ctx)

visit_all-append {ℓ} :
    {S : Type ℓ} (visit : ℤ → S → S) (xs ys : List ℤ) (ctx : S)
    → visit_all visit (xs ++ ys) ctx ≡ visit_all visit ys (visit_all visit xs ctx)
visit_all-append visit [] ys ctx = refl
visit_all-append visit (x ∷ xs) ys ctx = visit_all-append visit xs ys (visit x ctx)

-- `tree_inorder` hands the visitor the keys of the tree from left to right, each once.
pub inorder-keys {ℓ} :
    {S : Type ℓ} (t : Tree) (visit : ℤ → S → S) (ctx : S)
    → inorder t visit ctx ≡ visit_all visit (keys t) ctx
unfolding inorder keys
inorder-keys leaf visit ctx = refl
inorder-keys (node k l r) visit ctx =
    rw (inorder-keys l visit ctx, inorder-keys r visit (visit k (visit_all visit (keys l) ctx)))
      (sym (visit_all-append visit (keys l) (k ∷ keys r) ctx))

visit_all-count : (ks : List ℤ) (n : ℕ) → visit_all count_key ks n ≡ n + length ks
unfolding count_key
visit_all-count [] n = omega arith
visit_all-count (k ∷ ks) n = omega (arith, visit_all-count ks (n + 1))

-- The visitor `count_key` counts the nodes.
pub inorder-count : (t : Tree) → inorder t count_key 0 ≡ length (keys t)
inorder-count t = inorder-keys t count_key 0 ∙ (omega (arith, visit_all-count (keys t) 0))

-- Strictly increasing.
abbrev pub IsSorted : List ℤ → Type 0
IsSorted [] = Unit
IsSorted (x ∷ xs) = All (λ y. x <ℤ y) xs × IsSorted xs

All-append : (P : ℤ → Type 0) (xs ys : List ℤ) → All P xs → All P ys → All P (xs ++ ys)
All-append P [] ys p q = q
All-append P (x ∷ xs) ys p q = (p.0, All-append P xs ys p.1 q)

All-lt_trans : (a b : ℤ) (xs : List ℤ) → a <ℤ b → All (λ y. b <ℤ y) xs → All (λ y. a <ℤ y) xs
All-lt_trans a b [] h p = tt
All-lt_trans a b (x ∷ xs) h p = (omega arith, All-lt_trans a b xs h p.1)

Below-keys : (b : ℤ) (t : Tree) → Below b t → All (λ y. y <ℤ b) (keys t)
unfolding keys
Below-keys b leaf o = tt
Below-keys b (node k l r) o =
    All-append _ (keys l) (k ∷ keys r) (Below-keys b l o.1) (o.0, Below-keys b r o.2)

Above-keys : (b : ℤ) (t : Tree) → Above b t → All (λ y. b <ℤ y) (keys t)
unfolding keys
Above-keys b leaf o = tt
Above-keys b (node k l r) o =
    All-append _ (keys l) (k ∷ keys r) (Above-keys b l o.1) (o.0, Above-keys b r o.2)

IsSorted-append :
    (k : ℤ) (xs ys : List ℤ)
    → IsSorted xs
    → All (λ y. y <ℤ k) xs
    → All (λ y. k <ℤ y) ys
    → IsSorted ys
    → IsSorted (xs ++ (k ∷ ys))
IsSorted-append k [] ys s lo hi t = (hi, t)
IsSorted-append k (x ∷ xs) ys s lo hi t = (
  All-append _ xs (k ∷ ys) s.0 (lo.0, All-lt_trans x k ys lo.0 hi),
  IsSorted-append k xs ys s.1 lo.1 hi t,
)

-- In a search tree the keys come out strictly increasing.
pub keys-IsSorted : (t : Tree) → IsSearch t → IsSorted (keys t)
unfolding keys
keys-IsSorted leaf o = tt
keys-IsSorted (node k l r) o =
    IsSorted-append k (keys l) (keys r) (keys-IsSorted l o.2) (Below-keys k l o.0)
      (Above-keys k r o.1) (keys-IsSorted r o.3)

-- The specification: insertion into a sorted list without duplicates.
pub insert_sorted : ℤ → List ℤ → List ℤ
insert_sorted key [] = key ∷ []
insert_sorted key (k ∷ ks) =
    if ltb_ℤ key k then key ∷ (k ∷ ks) else if ltb_ℤ k key then k ∷ insert_sorted key ks else k ∷ ks

insert_sorted-left :
    (key k : ℤ) (xs ys : List ℤ)
    → ltb_ℤ key k ≡ true
    → insert_sorted key (xs ++ (k ∷ ys)) ≡ insert_sorted key xs ++ (k ∷ ys)
unfolding insert_sorted
insert_sorted-left key k [] ys h = rw h
insert_sorted-left key k (x ∷ xs) ys h = ground (arith, insert_sorted-left key k xs ys h)

insert_sorted-right :
    (key k : ℤ) (xs ys : List ℤ)
    → ltb_ℤ key k ≡ false
    → All (λ y. y <ℤ k) xs
    → insert_sorted key (xs ++ (k ∷ ys)) ≡ xs ++ insert_sorted key (k ∷ ys)
unfolding insert_sorted
insert_sorted-right key k [] ys h lo = refl
insert_sorted-right key k (x ∷ xs) ys h lo = ground (arith, insert_sorted-right key k xs ys h lo.1)

-- `tree_insert` on a search tree, with memory at hand, is insertion into the sorted key list.
pub keys-insert :
    (key : ℤ) (t : Tree) → IsSearch t → keys (insert true key t).1 ≡ insert_sorted key (keys t)
unfolding keys insert
keys-insert key leaf o = unfold insert_sorted in refl
keys-insert key (node k l r) o = ground (
  arith,
  insert_sorted-left key k (keys l) (keys r),
  insert_sorted-right key k (keys l) (keys r),
  Below-keys k l o.0,
  keys-insert key l o.2,
  keys-insert key r o.3,
  unfolded,
)
  where
    unfolded : insert_sorted key (k ∷ keys r) ≡ (
        if ltb_ℤ key k
        then key ∷ (k ∷ keys r)
        else if ltb_ℤ k key
        then k ∷ insert_sorted key (keys r)
        else k ∷ keys r)
    unfolded = unfold insert_sorted in refl

-- `tree_destroy` calls `free` on every node exactly once.
pub destroy-perm-keys : (t : Tree) → Perm (destroy t) (keys t)
unfolding destroy keys
destroy-perm-keys leaf = Perm.refl []
destroy-perm-keys (node k l r) =
    Perm.append (destroy-perm-keys l)
      (Perm.trans (Perm.append (destroy-perm-keys r) (Perm.refl (k ∷ []))) (last-perm (keys r)))
  where
    last-perm : (xs : List ℤ) → Perm (xs ++ (k ∷ [])) (k ∷ xs)
    last-perm xs = subst (λ ys. Perm (xs ++ (k ∷ [])) (k ∷ ys)) (append-nil xs) (perm_middle xs [])
