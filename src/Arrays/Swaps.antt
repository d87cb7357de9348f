-- ===== src/Arrays/Swaps.antt =====
-- The loop of `reverse` (arrays.c), cell by cell.
use programming_with_c.Base.{
  ℕ, zero, suc, ◌+◌, ◌-◌, ◌*◌, ◌/◌, ◌≤◌, ◌<◌, ◌≡◌, ◌≢◌, refl, sym, ap, ◌∙◌, true, ◌||◌, List, ltb,
  leb, ◌==◌, length, length-set, get_or-set_self, get_or-set_ne, arith, set, Bool-cases, inl, inr,
}
use programming_with_c.Base.Int.{ℤ, pos}
use programming_with_c.Arrays.{cell, swap, reverse_loop, reverse}

length-swap : (n i : ℕ) (values : List ℤ) → length (swap n i values) ≡ length values
unfolding swap
length-swap n i values =
    length-set (set values i (cell values (n - 1 - i))) (n - 1 - i) (cell values i)
    ∙ length-set values i (cell values (n - 1 - i))

-- The two cells of a round, and every other one.
cell-swap_mirror :
    (n i : ℕ) (values : List ℤ)
    → n ≡ length values
    → i < n
    → cell (swap n i values) (n - 1 - i) ≡ cell values i
unfolding swap
cell-swap_mirror n i values e h =
    get_or-set_self (set values i (cell values (n - 1 - i))) (n - 1 - i) (cell values i) (pos 0)
      (omega (arith, e, h, length-set values i (cell values (n - 1 - i))))

cell-swap_left :
    (n i : ℕ) (values : List ℤ)
    → n ≡ length values
    → i < n - 1 - i
    → cell (swap n i values) i ≡ cell values (n - 1 - i)
unfolding swap
cell-swap_left n i values e h =
    get_or-set_ne (set values i (cell values (n - 1 - i))) (n - 1 - i) i (cell values i) (pos 0)
      (λ p. omega (arith, p, h))
    ∙ get_or-set_self values i (cell values (n - 1 - i)) (pos 0) (omega (arith, e, h))

cell-swap_ne :
    (n i j : ℕ) (values : List ℤ) → j ≢ i → j ≢ n - 1 - i → cell (swap n i values) j ≡ cell values j
unfolding swap
cell-swap_ne n i j values p q =
    get_or-set_ne (set values i (cell values (n - 1 - i))) (n - 1 - i) j (cell values i) (pos 0)
      (λ e. q (sym e))
    ∙ get_or-set_ne values i j (cell values (n - 1 - i)) (pos 0) (λ e. p (sym e))

length-reverse_loop :
    (rounds i n : ℕ) (values : List ℤ) → length (reverse_loop rounds i n values) ≡ length values
unfolding reverse_loop
length-reverse_loop zero i n values = refl
length-reverse_loop (suc rounds) i n values =
    length-reverse_loop rounds (i + 1) n (swap n i values) ∙ length-swap n i values

-- A cell outside the rounds `i` to `n - 1 - i` is not written.
reverse_loop-outside :
    (rounds i n j : ℕ) (values : List ℤ)
    → 2 * (i + rounds) ≤ n
    → (ltb j i || leb (n - i) j) ≡ true
    → cell (reverse_loop rounds i n values) j ≡ cell values j
unfolding reverse_loop
reverse_loop-outside zero i n j values l h = refl
reverse_loop-outside (suc rounds) i n j values l h =
    reverse_loop-outside rounds (i + 1) n j (swap n i values) (omega arith) (ground arith)
    ∙ cell-swap_ne n i j values (λ e. absurd (ground (arith, e))) (λ e. absurd (ground (arith, e)))

-- The rounds from `i` on exchange the cells from `i` to `n - 1 - i` with their mirror images.
reverse_loop-inside :
    (rounds i n j : ℕ) (values : List ℤ)
    → n ≡ length values
    → i + rounds ≡ n / 2
    → i ≤ j
    → j < n - i
    → cell (reverse_loop rounds i n values) j ≡ cell values (n - 1 - j)
unfolding reverse_loop
reverse_loop-inside zero i n j values e r l h = ap (cell values) (omega arith)
reverse_loop-inside (suc rounds) i n j values e r l h = elim (Bool-cases (j == i)) [
  | inl t ↦
      reverse_loop-outside rounds (i + 1) n j (swap n i values) (omega arith) (ground arith)
      ∙ ap (cell (swap n i values)) (ground arith)
      ∙ cell-swap_left n i values e (omega arith)
      ∙ ap (cell values) (ground arith)
  | inr f ↦ elim (Bool-cases (j == n - 1 - i)) [
    | inl t ↦
        reverse_loop-outside rounds (i + 1) n j (swap n i values) (omega arith) (ground arith)
        ∙ ap (cell (swap n i values)) (ground arith)
        ∙ cell-swap_mirror n i values e (omega arith)
        ∙ ap (cell values) (ground arith)
    | inr g ↦
        reverse_loop-inside rounds (i + 1) n j (swap n i values) (e ∙ sym (length-swap n i values))
          (omega arith) (ground arith) (ground arith)
        ∙ cell-swap_ne n i (n - 1 - j) values (λ p. absurd (ground (arith, p)))
            (λ p. absurd (ground (arith, p)))
  ]
]

-- `reverse` keeps the length of the array, and puts into each cell what was in its mirror image.
pub reverse_cells :
    (values : List ℤ)
    → (length (reverse values (length values)) ≡ length values)
      × ((j : ℕ)
          → j < length values
          → cell (reverse values (length values)) j ≡ cell values (length values - 1 - j))
unfolding reverse
reverse_cells values = (
  length-reverse_loop (length values / 2) 0 (length values) values,
  λ j h.
      reverse_loop-inside (length values / 2) 0 (length values) j values refl (omega arith)
        (omega arith) (omega arith),
)
