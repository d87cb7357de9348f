-- ===== src/Arrays/Scans.antt =====
-- Loops that look at each element once: `find` (arrays.c), `point_at_largest` and the two sums
-- (ptrmath.c), `min_max` and `parse_int` (params.c).
use mathlib.Core.Path.{subst}
use programming_with_c.Base.{
  ℕ, zero, suc, ◌+◌, ◌≤◌, ◌<◌, ◌≡◌, ◌≢◌, refl, sym, ap, ◌∙◌, true, false, List, [], ◌∷◌, some, ◌==◌,
  if◌then◌else◌, length, arith, Bool-cases, inl, inr,
}
use programming_with_c.Base.Int.{ℤ, pos, ◌+ℤ◌, ◌≤ℤ◌, ltb_ℤ, eqb_ℤ, eq_of_parts, lt_irrefl_ℤ}
use programming_with_c.Base.Text.{decimal}
use programming_with_c.Base.Strtol.{drop_space, strtol, starts_digit}
use programming_with_c.Base.Decimals.{strtol-decimal, starts}
use programming_with_c.Arrays.{
  cell, find_from, find, sum_loop, sum, sum_pointer_loop, sum_pointer, largest_from,
  point_at_largest, parse_int,
}

-- The result of a search from `i` to the end of the rounds.
abbrev IsFirst : ℕ → ℕ → List ℤ → ℤ → ℕ → Type 0
IsFirst i end values target r =
    (i ≤ r)
    × (r ≤ end)
    × (r < end → cell values r ≡ target)
    × ((j : ℕ) → i ≤ j → j < r → cell values j ≢ target)

eq_of_test : (i j : ℕ) → j == i ≡ true → i ≡ j
eq_of_test i j h = ground (arith, h)

find_from-IsFirst :
    (rounds i end : ℕ) (values : List ℤ) (target : ℤ)
    → i + rounds ≡ end
    → IsFirst i end values target (find_from rounds i values target)
unfolding find_from
find_from-IsFirst zero i end values target e = (
  omega arith,
  omega (arith, e),
  λ h. absurd (omega (arith, e, h)),
  λ j l h. absurd (omega (arith, l, h)),
)
find_from-IsFirst (suc rounds) i end values target e =
    let rest = find_from-IsFirst rounds (i + 1) end values target (omega (arith, e)) in
    elim (Bool-cases (eqb_ℤ (cell values i) target)) [
      | inl t ↦ rw t (
        omega arith,
        omega (arith, e),
        (λ h. eq_of_parts (cell values i) target (ground (arith, t))),
        λ j l h. absurd (omega (arith, l, h)),
      )
      | inr f ↦ rw f (
        omega (arith, rest.0),
        rest.1,
        rest.2,
        λ j l h p. elim (Bool-cases (j == i)) [
          | inl q ↦
              absurd
                (ground (arith, f, lt_irrefl_ℤ target, ap (cell values) (eq_of_test i j q) ∙ p))
          | inr n ↦ rest.3 j (ground (arith, n, l)) h p
        ],
      )
    ]

-- `find` returns the index of the first element equal to the target, and `n` if there is none
-- among the first `n`.
pub find_lem :
    (values : List ℤ) (n : ℕ) (target : ℤ) → IsFirst 0 n values target (find values n target)
unfolding find
find_lem values n target = find_from-IsFirst n 0 n values target (omega arith)

abbrev larger : List ℤ → ℕ → ℕ → ℕ
larger values best q = if ltb_ℤ (cell values best) (cell values q) then q else best

larger_seen :
    (values : List ℤ) (best q : ℕ)
    → ((j : ℕ) → j < q → cell values j ≤ℤ cell values best)
    → (j : ℕ) → j < q + 1
    → cell values j ≤ℤ cell values (larger values best q)
larger_seen values best q h j k = elim (Bool-cases (j == q)) [
  | inl e ↦
      subst (λ x. cell values x ≤ℤ cell values (larger values best q)) (eq_of_test q j e)
        (ground arith)
  | inr f ↦ ground (arith, h j (ground (arith, f, k)))
]

-- The element that is found is not smaller than those that were seen.
largest_from-Largest :
    (rounds q : ℕ) (values : List ℤ) (best : ℕ)
    → best < q
    → ((j : ℕ) → j < q → cell values j ≤ℤ cell values best)
    → (largest_from rounds q values best < q + rounds)
      × ((j : ℕ)
          → j < q + rounds
          → cell values j ≤ℤ cell values (largest_from rounds q values best))
unfolding largest_from
largest_from-Largest zero q values best l h = (omega arith, λ j k. h j (omega (arith, k)))
largest_from-Largest (suc rounds) q values best l h =
    let rest =
      largest_from-Largest rounds (q + 1) values (larger values best q) (ground arith)
        (larger_seen values best q h) in
    (omega (arith, rest.0), λ j k. rest.1 j (omega (arith, k)))

-- `point_at_largest` points at one of the first `n` elements, and none of them is larger; it
-- gives NULL only if `n` is 0.
pub point_at_largest-Largest :
    (values : List ℤ) (n : ℕ)
    → 0 < n
    → (r : ℕ) × (point_at_largest values n ≡ some r)
      × (r < n)
      × ((j : ℕ) → j < n → cell values j ≤ℤ cell values r)
unfolding point_at_largest
point_at_largest-Largest values zero h = absurd (omega arith)
point_at_largest-Largest values (suc n) h =
    (largest_from n 1 values 0, refl, omega (arith, all.0), λ j k. all.1 j (omega (arith, k)))
  where
    all :
        (largest_from n 1 values 0 < 1 + n)
        × ((j : ℕ) → j < 1 + n → cell values j ≤ℤ cell values (largest_from n 1 values 0))
    all = largest_from-Largest n 1 values 0 (omega arith) (λ j k. ground (arith, k))

cell-offset : (values : List ℤ) (i : ℕ) → cell values (i + 0) ≡ cell values i
cell-offset values i = ap (cell values) (omega arith)

plus_one : (j : ℕ) → j + 1 ≡ suc j
plus_one j = omega arith

cell_shift : (values : List ℤ) (i j : ℕ) → cell values (i + 1 + j) ≡ cell values (i + (j + 1))
cell_shift values i j = ap (cell values) (omega arith)

cell_next : (v : ℤ) (s : List ℤ) (j : ℕ) → cell (v ∷ s) (j + 1) ≡ cell s j
cell_next v s j = ap (cell (v ∷ s)) (plus_one j)

sum_loop-pointer :
    (s : List ℤ) (i : ℕ) (values : List ℤ) (total : ℤ)
    → ((j : ℕ) → cell values (i + j) ≡ cell s j)
    → sum_loop (length s) i values total ≡ sum_pointer_loop s total
unfolding sum_loop sum_pointer_loop
sum_loop-pointer [] i values total h = refl
sum_loop-pointer (v ∷ s) i values total h =
    sum_loop-pointer s (i + 1) values (total +ℤ cell values i)
      (λ j. cell_shift values i j ∙ h (j + 1) ∙ cell_next v s j)
    ∙ ap (λ x. sum_pointer_loop s (total +ℤ x)) (sym (cell-offset values i) ∙ h 0)

-- The sum over an index and the sum over a pointer are equal.
pub sum-pointer : (values : List ℤ) → sum values (length values) ≡ sum_pointer values
unfolding sum sum_pointer
sum-pointer values = sum_loop-pointer values 0 values (pos 0) (λ j. ap (cell values) (omega arith))

parse_int-digits :
    (s : List ℕ) (n : ℕ)
    → starts_digit s ≡ true
    → strtol s ≡ record { value = pos n; end = []; found = true; erange = false }
    → n ≤ 2_147_483_647
    → parse_int s ≡ some (pos n)
unfolding parse_int drop_space
parse_int-digits [] n h e l = absurd (cc h)
parse_int-digits (c ∷ s) n h e l = ground (arith, h, e, l)

-- The decimal text of a number up to INT_MAX is read as this number.
pub parse_int-decimal : (n : ℕ) → n ≤ 2_147_483_647 → parse_int (decimal 9 n) ≡ some (pos n)
parse_int-decimal n h =
    parse_int-digits (decimal 9 n) n (starts 9 n) (strtol-decimal 9 n (omega arith) (omega arith)) h
