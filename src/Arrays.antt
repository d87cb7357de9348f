-- ===== src/Arrays.antt =====
-- Loops over arrays: week12_one_and_multi_dimensional_arrays/arrays.c,
-- week15_pointer_arithmetic_and_arrays/ptrmath.c and week16_pointers_as_function_parameters/params.c.
-- An array is the list of its elements, and a loop `for (i = ...; i < n; i++)` recurses on the number
-- of rounds that are left. Sums of type `int` and `long` are exact, as in a program without overflow.
pub mod Matrix
pub mod Swaps
pub mod Scans
mod Tests
use programming_with_c.Base.{
  ℕ, zero, suc, ◌+◌, ◌-◌, ◌/◌, Bool, true, false, not, ◌||◌, List, [], ◌∷◌, Option, none, some, ltb,
  leb, ◌==◌, if◌then◌else◌, get_or, set,
}
use programming_with_c.Base.Int.{ℤ, pos, ◌+ℤ◌, ltb_ℤ, eqb_ℤ}
use programming_with_c.Base.Strtol.{Number, is_space, drop_space, strtol, fits_int}

-- `values[i]`
abbrev pub cell : List ℤ → ℕ → ℤ
cell values i = get_or values i (pos 0)

-- A matrix is the list of its rows.
abbrev pub entry : List (List ℤ) → ℕ → ℕ → ℤ
entry m r c = cell (get_or m r []) c

-- `m[r][c] = v`
abbrev pub set_entry : List (List ℤ) → ℕ → ℕ → ℤ → List (List ℤ)
set_entry m r c v = set m r (set (get_or m r []) c v)

-- The inner loop of `transpose`, from column `c` on.
pub transpose_row : ℕ → ℕ → ℕ → List (List ℤ) → List (List ℤ) → List (List ℤ)
transpose_row zero r c src dst = dst
transpose_row (suc rounds) r c src dst =
    transpose_row rounds r (c + 1) src (set_entry dst c r (entry src r c))

pub transpose_rows : ℕ → ℕ → ℕ → List (List ℤ) → List (List ℤ) → List (List ℤ)
unfolding transpose_row
transpose_rows zero r cols src dst = dst
transpose_rows (suc rounds) r cols src dst =
    transpose_rows rounds (r + 1) cols src (transpose_row cols r 0 src dst)

pub transpose : ℕ → ℕ → List (List ℤ) → List (List ℤ) → List (List ℤ)
unfolding transpose_rows
transpose rows cols src dst = transpose_rows rows 0 cols src dst

-- `at`: what goes through `out` when the result is true.
pub at : List ℤ → ℕ → ℕ → Option ℤ
at values n index = if leb n index then none else some (cell values index)

pub sum_loop : ℕ → ℕ → List ℤ → ℤ → ℤ
unfolding ◌+ℤ◌
sum_loop zero i values total = total
sum_loop (suc rounds) i values total = sum_loop rounds (i + 1) values (total +ℤ cell values i)

-- `sum` of arrays.c and `sum_indexed` of ptrmath.c.
pub sum : List ℤ → ℕ → ℤ
unfolding sum_loop
sum values n = sum_loop n 0 values (pos 0)

-- The body of the loop of `reverse`.
pub swap : ℕ → ℕ → List ℤ → List ℤ
swap n i values =
    let temp = cell values i in set (set values i (cell values (n - 1 - i))) (n - 1 - i) temp

pub reverse_loop : ℕ → ℕ → ℕ → List ℤ → List ℤ
unfolding swap
reverse_loop zero i n values = values
reverse_loop (suc rounds) i n values = reverse_loop rounds (i + 1) n (swap n i values)

pub reverse : List ℤ → ℕ → List ℤ
unfolding reverse_loop
reverse values n = reverse_loop (n / 2) 0 n values

-- `find`, from the index `i` on.
pub find_from : ℕ → ℕ → List ℤ → ℤ → ℕ
find_from zero i values target = i
find_from (suc rounds) i values target =
    let rest = find_from rounds (i + 1) values target in
    if eqb_ℤ (cell values i) target then i else rest

-- The `n` that is returned behind the loop is the index at its end.
pub find : List ℤ → ℕ → ℤ → ℕ
unfolding find_from
find values n target = find_from n 0 values target

-- The loop of `sum_pointer` over the elements between the pointer and the end.
pub sum_pointer_loop : List ℤ → ℤ → ℤ
unfolding ◌+ℤ◌
sum_pointer_loop [] total = total
sum_pointer_loop (v ∷ values) total = sum_pointer_loop values (total +ℤ v)

pub sum_pointer : List ℤ → ℤ
unfolding sum_pointer_loop
sum_pointer values = sum_pointer_loop values (pos 0)

-- The loop of `point_at_largest`, from the element `q` on, with the index of the best one.
pub largest_from : ℕ → ℕ → List ℤ → ℕ → ℕ
largest_from zero q values best = best
largest_from (suc rounds) q values best =
    largest_from rounds (q + 1) values
      (if ltb_ℤ (cell values best) (cell values q) then q else best)

-- What `*out` points at, as an index; `none` for NULL.
pub point_at_largest : List ℤ → ℕ → Option ℕ
unfolding largest_from
point_at_largest values zero = none
point_at_largest values (suc n) = some (largest_from n 1 values 0)

-- `parse_int` of params.c, for a text that is not NULL. `*text == '\0'` behind the spaces is the
-- empty list.
pub parse_int : List ℕ → Option ℤ
parse_int text = elim (drop_space text) [
  | [] ↦ none
  | c ∷ s ↦
      let n = strtol (c ∷ s) in
      elim n.end [
        | [] ↦
            if not n.found || n.erange
            then none
            else if fits_int n.value
            then some n.value
            else none
        | _ ∷ _ ↦ none
      ]
]

pub record Bounds : Type 0 where
  pub lo : ℤ
  pub hi : ℤ

pub min_max_loop : ℕ → ℕ → List ℤ → Bounds → Bounds
min_max_loop zero i values b = b
min_max_loop (suc rounds) i values b = min_max_loop rounds (i + 1) values (record {
  lo = if ltb_ℤ (cell values i) b.lo then cell values i else b.lo;
  hi = if ltb_ℤ b.hi (cell values i) then cell values i else b.hi;
})

-- `min_max` for `values` that is not NULL.
pub min_max : List ℤ → ℕ → Option Bounds
unfolding min_max_loop
min_max values zero = none
min_max values (suc n) =
    some (min_max_loop n 1 values (record { lo = cell values 0; hi = cell values 0 }))

pub count_from : ℕ → ℕ → List ℤ → ℤ → ℕ → ℕ
count_from zero i values target found = found
count_from (suc rounds) i values target found =
    count_from rounds (i + 1) values target
      (if eqb_ℤ (cell values i) target then found + 1 else found)

pub count_matching : List ℤ → ℕ → ℤ → ℕ
unfolding count_from
count_matching values n target = count_from n 0 values target 0
