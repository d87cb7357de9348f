-- ===== src/Sieve.antt =====
-- The sieve and the tables of week10_loops_and_flow_control/loops.c. LIMIT is 50 in the code and a
-- parameter here; `size_t` is exact, as in a program whose limit is far from its range. What is printed
-- is a list of bytes.
pub mod Marks
pub mod Invariant
mod Tests
use programming_with_c.Base.{
  ℕ, zero, suc, ◌+◌, ◌-◌, ◌*◌, ◌%◌, Bool, true, false, List, [], ◌∷◌, ◌++◌, leb, ◌==◌,
  if◌then◌else◌, get_or, set, replicate, length,
}
use programming_with_c.Base.Text.{newline, decimal}

abbrev pub limit_value : ℕ
limit_value = 50

abbrev pub table_size : ℕ
table_size = 9

-- `is_prime[i]`
abbrev pub cell : List Bool → ℕ → Bool
cell is_prime i = get_or is_prime i false

-- The inner loop, from `multiple` on, on fuel.
pub cross_out : ℕ → ℕ → ℕ → ℕ → List Bool → List Bool
cross_out zero limit p multiple is_prime = is_prime
cross_out (suc fuel) limit p multiple is_prime =
    let rest = cross_out fuel limit p (multiple + p) (set is_prime multiple false) in
    if leb multiple limit then rest else is_prime

-- The body of the outer loop.
pub pass : ℕ → ℕ → List Bool → List Bool
unfolding cross_out
pass limit p is_prime =
    if cell is_prime p then cross_out (suc limit) limit p (p * p) is_prime else is_prime

pub sieve_loop : ℕ → ℕ → ℕ → List Bool → List Bool
unfolding pass
sieve_loop zero limit p is_prime = is_prime
sieve_loop (suc fuel) limit p is_prime =
    let rest = sieve_loop fuel limit (p + 1) (pass limit p is_prime) in
    if leb (p * p) limit then rest else is_prime

-- The table as it is when the printing begins.
pub sieve : ℕ → List Bool
unfolding sieve_loop
sieve limit =
    sieve_loop (suc limit) limit 2 (set (set (replicate (suc limit) true) 0 false) 1 false)

-- `%4zu` and `%2zu`, for numbers of up to four digits.
abbrev pub padded : ℕ → ℕ → List ℕ
padded width n = let digits = decimal 3 n in replicate (width - length digits) b' ' ++ digits

-- The loop that prints the primes, ten to a line.
pub print_loop : ℕ → ℕ → ℕ → List Bool → List ℕ
print_loop zero i printed is_prime = []
print_loop (suc rounds) i printed is_prime =
    let line_end = if (printed + 1) % 10 == 0 then newline ∷ (b' ' ∷ []) else [] in
    let skipped = print_loop rounds (i + 1) printed is_prime in
    let rest = print_loop rounds (i + 1) (printed + 1) is_prime in
    if cell is_prime i then padded 4 i ++ (line_end ++ rest) else skipped

-- `print_primes`, behind its title.
pub print_primes : ℕ → List ℕ
unfolding sieve print_loop
print_primes limit = print_loop (limit - 1) 2 0 (sieve limit) ++ (newline ∷ [])

-- The loop over the columns of one row.
pub print_cells : ℕ → ℕ → ℕ → List ℕ
print_cells zero row col = []
print_cells (suc rounds) row col = padded 4 (row * col) ++ print_cells rounds row (col + 1)

pub print_rows : ℕ → ℕ → List ℕ
unfolding print_cells
print_rows zero row = []
print_rows (suc rounds) row =
    padded 2 row
    ++ (b' ' ∷ (b'|' ∷ (print_cells table_size row 1 ++ (newline ∷ print_rows rounds (row + 1)))))

pub print_rule : ℕ → List ℕ
print_rule zero = []
print_rule (suc rounds) = replicate 4 b'-' ++ print_rule rounds

-- `print_table`, behind its title.
pub print_table : List ℕ
unfolding print_rows print_rule
print_table =
    replicate 4 b' '
    ++ (print_cells table_size 1 1
        ++ (newline
            ∷ (replicate 4 b' ' ++ (print_rule table_size ++ (newline ∷ print_rows table_size 1)))))
