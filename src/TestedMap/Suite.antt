-- ===== src/TestedMap/Suite.antt =====
-- The suite of tests.c. A test is the list of the results of its checks, in order; the allocations
-- succeed. A result of `map_put` that the code does not look at is left out.
use programming_with_c.Base.{
  ℕ, zero, suc, ◌+◌, ◌≡◌, refl, Bool, true, false, not, List, [], ◌∷◌, ◌++◌, none, some, ◌==◌,
  if◌then◌else◌, replicate, length,
}
use programming_with_c.Base.Int.{ℤ, pos, negsuc, eqb_ℤ}
use programming_with_c.Base.Text.{decimal}
use programming_with_c.HashMap.{Key, hash_string, str_eq, chain_replace, chain_remove}
use programming_with_c.TestedMap.{Map, create, put, get, remove}

-- The tests work on the map that `map_create` returns.
abbrev on_map : ℕ → (Map → List Bool) → List Bool
on_map n checks = elim (create true true n) [ none ↦ false ∷ [] | some m ↦ checks m ]

-- The result of `map_get`, and what `v` holds behind it.
abbrev hit : Map → Key → Bool
hit m key = elim (get m key) [ none ↦ false | some _ ↦ true ]

abbrev value_of : Map → Key → ℤ → ℤ
value_of m key v = elim (get m key) [ none ↦ v | some x ↦ x ]

-- "absent"
abbrev absent : Key
absent = b'a' ∷ b'b' ∷ b's' ∷ b'e' ∷ b'n' ∷ b't' ∷ []

test_empty : List Bool
unfolding create get remove
test_empty = on_map 8 (λ m.
    true
    ∷ (m.count == 0)
    ∷ not (hit m absent)
    ∷ eqb_ℤ (value_of m absent (negsuc 0)) (negsuc 0)
    ∷ not (remove m absent).0
    ∷ [])

-- "key" and "Key"
abbrev lower : Key
lower = b'k' ∷ b'e' ∷ b'y' ∷ []

abbrev upper : Key
upper = b'K' ∷ b'e' ∷ b'y' ∷ []

test_single : List Bool
unfolding create put get
test_single = on_map 8 (λ m.
    let (done, m') = put true true m lower (pos 42) in
    done
    ∷ (m'.count == 1)
    ∷ hit m' lower
    ∷ eqb_ℤ (value_of m' lower (pos 0)) (pos 42)
    ∷ not (hit m' upper)
    ∷ [])

test_replace : List Bool
unfolding create put get
test_replace = on_map 8 (λ m.
    let (_, once) = put true true m (b'k' ∷ []) (pos 1) in
    let (done, twice) = put true true once (b'k' ∷ []) (pos 2) in
    done ∷ (twice.count == 1) ∷ eqb_ℤ (value_of twice (b'k' ∷ []) (pos 0)) (pos 2) ∷ [])

-- `snprintf (key, sizeof key, "k%d", i)`
abbrev numbered : ℕ → Key
numbered i = b'k' ∷ decimal 1 i

-- The loop of `test_collisions`, with the rounds that are left.
put_numbered : ℕ → ℕ → Map → Map
unfolding put
put_numbered zero i m = m
put_numbered (suc rounds) i m = put_numbered rounds (i + 1) (put true true m (numbered i) (pos i)).1

test_collisions : List Bool
unfolding create get remove put_numbered
test_collisions = on_map 1 (λ m.
    let full = put_numbered 20 0 m in
    let (removed, rest) = remove full (numbered 10) in
    (full.count == 20)
    ∷ hit full (numbered 0)
    ∷ eqb_ℤ (value_of full (numbered 0) (pos 0)) (pos 0)
    ∷ hit full (numbered 19)
    ∷ eqb_ℤ (value_of full (numbered 19) (pos 0)) (pos 19)
    ∷ removed
    ∷ not (hit rest (numbered 10))
    ∷ (rest.count == 19)
    ∷ [])

abbrev long_key : Key
long_key = replicate 511 b'x'

-- A word of six letters in UTF-8, of which two take two bytes each.
abbrev turkish : Key
turkish = b't' ∷ 195 ∷ 188 ∷ b'r' ∷ b'k' ∷ 195 ∷ 167 ∷ b'e' ∷ []

test_edge_keys : List Bool
unfolding create put get
test_edge_keys = on_map 8 (λ m.
    let (one, m1) = put true true m [] (pos 1) in
    let (two, m2) = put true true m1 long_key (pos 2) in
    let (three, m3) = put true true m2 turkish (pos 3) in
    one
    ∷ hit m1 []
    ∷ eqb_ℤ (value_of m1 [] (pos 0)) (pos 1)
    ∷ two
    ∷ hit m2 long_key
    ∷ eqb_ℤ (value_of m2 long_key (pos 0)) (pos 2)
    ∷ three
    ∷ hit m3 turkish
    ∷ eqb_ℤ (value_of m3 turkish (pos 0)) (pos 3)
    ∷ [])

-- `keys[i]`
abbrev letter : ℕ → Key
letter i = (b'a' + i) ∷ []

put_letters : ℕ → ℕ → Map → Map
unfolding put
put_letters zero i m = m
put_letters (suc rounds) i m = put_letters rounds (i + 1) (put true true m (letter i) (pos i)).1

-- The inner loop with the checks, and the loop over the victims.
check_letters : ℕ → ℕ → ℕ → Map → List Bool
unfolding get
check_letters zero i victim m = []
check_letters (suc rounds) i victim m =
    (if i == victim then not (hit m (letter i)) else hit m (letter i))
    ∷ check_letters rounds (i + 1) victim m

remove_victims : ℕ → ℕ → List Bool
unfolding create remove put_letters check_letters
remove_victims zero victim = []
remove_victims (suc rounds) victim =
    on_map 1 (λ m.
      let (removed, rest) = remove (put_letters 3 0 m) (letter victim) in
      removed ∷ (rest.count == 2) ∷ check_letters 3 0 victim rest)
    ++ remove_victims rounds (victim + 1)

test_remove_order : List Bool
unfolding remove_victims
test_remove_order = remove_victims 3 0

-- `tests_run` and `tests_failed`.
abbrev count_failed : List Bool → ℕ
count_failed [] = 0
count_failed (ok ∷ rest) = if ok then count_failed rest else suc (count_failed rest)

suite : List Bool
unfolding test_empty test_single test_replace test_collisions test_edge_keys test_remove_order
suite =
    test_empty ++ test_single ++ test_replace ++ test_collisions ++ test_edge_keys
    ++ test_remove_order

summary : ℕ × ℕ
unfolding suite
summary = (length suite, count_failed suite)

all_passed : summary ≡ (45, 0)
unfolding summary hash_string str_eq chain_replace chain_remove decimal
all_passed = refl
