-- ===== src/Arrays/Matrix.antt =====
-- `transpose` (arrays.c), entry by entry.
use programming_with_c.Base.{
  ℕ, zero, suc, ◌+◌, ◌≤◌, ◌<◌, ◌≡◌, refl, ap, ◌∙◌, true, false, ◌&&◌, List, [], ◌∷◌, leb, ◌==◌,
  length, length-set, get_or, set, get_or-set_self, get_or-set_ne, arith, Bool-cases, inl, inr,
}
use programming_with_c.Base.Int.{ℤ, pos}
use programming_with_c.Arrays.{cell, entry, set_entry, transpose_row, transpose_rows, transpose}

-- Whether `m[r][c]` is in the array.
abbrev pub Inside : List (List ℤ) → ℕ → ℕ → Type 0
Inside m r c = (r < length m) × (c < length (get_or m r []))

-- One write keeps the shape, and is read at its entry only.
row-set_entry :
    (m : List (List ℤ)) (r c x : ℕ) (v : ℤ)
    → length (get_or (set_entry m r c v) x []) ≡ length (get_or m x [])
row-set_entry [] r c x v = refl
row-set_entry (row ∷ m) zero c zero v = length-set row c v
row-set_entry (row ∷ m) zero c (suc x) v = refl
row-set_entry (row ∷ m) (suc r) c zero v = refl
row-set_entry (row ∷ m) (suc r) c (suc x) v = row-set_entry m r c x v

Inside-set_entry :
    (m : List (List ℤ)) (r c x y : ℕ) (v : ℤ) → Inside m x y → Inside (set_entry m r c v) x y
Inside-set_entry m r c x y v h = (
  omega (arith, h.0, length-set m r (set (get_or m r []) c v)),
  omega (arith, h.1, row-set_entry m r c x v),
)

entry-set_entry :
    (m : List (List ℤ)) (r c : ℕ) (v : ℤ) → Inside m r c → entry (set_entry m r c v) r c ≡ v
entry-set_entry m r c v h =
    ap (λ row. cell row c) (get_or-set_self m r (set (get_or m r []) c v) [] h.0)
    ∙ get_or-set_self (get_or m r []) c v (pos 0) h.1

entry-set_entry_ne :
    (m : List (List ℤ)) (r c x y : ℕ) (v : ℤ)
    → (x == r && y == c) ≡ false
    → entry (set_entry m r c v) x y ≡ entry m x y
entry-set_entry_ne [] r c x y v h = refl
entry-set_entry_ne (row ∷ m) zero c zero y v h =
    get_or-set_ne row c y v (pos 0) (λ e. absurd (ground (arith, e)))
entry-set_entry_ne (row ∷ m) zero c (suc x) y v h = refl
entry-set_entry_ne (row ∷ m) (suc r) c zero y v h = refl
entry-set_entry_ne (row ∷ m) (suc r) c (suc x) y v h = entry-set_entry_ne m r c x y v (ground arith)

-- The columns before `c` and the other rows of the source are not touched again.
transpose_row-outside :
    (rounds r c x y : ℕ) (src dst : List (List ℤ))
    → (leb c x && y == r) ≡ false
    → entry (transpose_row rounds r c src dst) x y ≡ entry dst x y
unfolding transpose_row
transpose_row-outside zero r c x y src dst h = refl
transpose_row-outside (suc rounds) r c x y src dst h =
    transpose_row-outside rounds r (c + 1) x y src (set_entry dst c r (entry src r c))
      (ground arith)
    ∙ entry-set_entry_ne dst c r x y (entry src r c) (ground arith)

transpose_row-Inside :
    (rounds r c x y : ℕ) (src dst : List (List ℤ))
    → Inside dst x y
    → Inside (transpose_row rounds r c src dst) x y
unfolding transpose_row
transpose_row-Inside zero r c x y src dst h = h
transpose_row-Inside (suc rounds) r c x y src dst h =
    transpose_row-Inside rounds r (c + 1) x y src (set_entry dst c r (entry src r c))
      (Inside-set_entry dst c r x y (entry src r c) h)

transpose_row-written :
    (rounds r c x : ℕ) (src dst : List (List ℤ))
    → c ≤ x
    → x < c + rounds
    → Inside dst x r
    → entry (transpose_row rounds r c src dst) x r ≡ entry src r x
unfolding transpose_row
transpose_row-written zero r c x src dst l h i = absurd (omega (arith, l, h))
transpose_row-written (suc rounds) r c x src dst l h i = elim (Bool-cases (c == x)) [
  | inl t ↦
      transpose_row-outside rounds r (c + 1) x r src (set_entry dst c r (entry src r c))
        (ground arith)
      ∙ at_column c x (eq_of_test c x t) src dst i
  | inr f ↦
      transpose_row-written rounds r (c + 1) x src (set_entry dst c r (entry src r c))
        (ground arith) (omega arith) (Inside-set_entry dst c r x r (entry src r c) i)
]
  where
    eq_of_test : (a b : ℕ) → a == b ≡ true → a ≡ b
    eq_of_test a b e = ground (arith, e)

    at_column :
        (a b : ℕ)
        → a ≡ b
        → (src dst : List (List ℤ)) → Inside dst b r
        → entry (set_entry dst a r (entry src r a)) b r ≡ entry src r b
    at_column a b e src dst i = rw e (entry-set_entry dst b r (entry src r b) i)

transpose_rows-outside :
    (rounds r cols x y : ℕ) (src dst : List (List ℤ))
    → y < r
    → entry (transpose_rows rounds r cols src dst) x y ≡ entry dst x y
unfolding transpose_rows
transpose_rows-outside zero r cols x y src dst h = refl
transpose_rows-outside (suc rounds) r cols x y src dst h =
    transpose_rows-outside rounds (r + 1) cols x y src (transpose_row cols r 0 src dst)
      (omega arith)
    ∙ transpose_row-outside cols r 0 x y src dst (ground arith)

transpose_rows-written :
    (rounds r cols x y : ℕ) (src dst : List (List ℤ))
    → r ≤ y
    → y < r + rounds
    → x < cols
    → Inside dst x y
    → entry (transpose_rows rounds r cols src dst) x y ≡ entry src y x
unfolding transpose_rows
transpose_rows-written zero r cols x y src dst l h k i = absurd (omega (arith, l, h))
transpose_rows-written (suc rounds) r cols x y src dst l h k i = elim (Bool-cases (r == y)) [
  | inl t ↦
      transpose_rows-outside rounds (r + 1) cols x y src (transpose_row cols r 0 src dst)
        (ground arith)
      ∙ at_row r y (ground arith) src dst i
  | inr f ↦
      transpose_rows-written rounds (r + 1) cols x y src (transpose_row cols r 0 src dst)
        (ground arith) (omega arith) k (transpose_row-Inside cols r 0 x y src dst i)
]
  where
    at_row :
        (a b : ℕ)
        → a ≡ b
        → (src dst : List (List ℤ)) → Inside dst x b
        → entry (transpose_row cols a 0 src dst) x b ≡ entry src b x
    at_row a b e src dst i =
        rw e (transpose_row-written cols b 0 x src dst (omega arith) (omega arith) i)

-- If the destination has `cols` rows of `rows` entries, then each of its entries is the mirrored
-- entry of the source afterwards.
pub transpose_lem :
    (rows cols : ℕ) (src dst : List (List ℤ))
    → ((x y : ℕ) → x < cols → y < rows → Inside dst x y)
    → (x y : ℕ) → x < cols
    → y < rows
    → entry (transpose rows cols src dst) x y ≡ entry src y x
unfolding transpose
transpose_lem rows cols src dst shape x y h k =
    transpose_rows-written rows 0 cols x y src dst (omega arith) (omega arith) h (shape x y h k)
