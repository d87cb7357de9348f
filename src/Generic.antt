-- ===== src/Generic.antt =====
-- The generic vector and the functions around it, of
-- week30_function_pointers_callbacks_and_generic_programming/generic.c. Memory is a list of bytes; the
-- allocator and `qsort` of the C library are arguments, and so is how an `int` is stored.
pub mod Slices
pub mod Vectors
pub mod Orders
mod Tests
use programming_with_c.Base.{
  ℕ, zero, suc, ◌+◌, ◌-◌, ◌*◌, ◌%◌, ◌^◌, ◌<◌, ◌≡◌, Bool, true, false, List, [], ◌∷◌, ◌++◌, Option,
  none, some, ◌==◌, if◌then◌else◌, length, take, drop,
}
use programming_with_c.Base.Int.{ℤ, pos, negsuc, ◌+ℤ◌, ◌-ℤ◌, ◌*ℤ◌, ltb_ℤ}

abbrev pub size_mod : ℕ
size_mod = 2 ^ 64

-- What the code relies on of `malloc` and `realloc`: the block has the size that was asked for, which
-- is less than half the address space, and `realloc` to a larger size keeps the bytes.
pub record Allocator : Type 0 where
  pub malloc : ℕ → Option (List ℕ)
  pub realloc : List ℕ → ℕ → Option (List ℕ)
  pub malloc_size : (n : ℕ) {b : List ℕ} → malloc n ≡ some b → (length b ≡ n) × (n < 2 ^ 63)
  pub realloc_size :
      (old : List ℕ) (n : ℕ) {b : List ℕ} → realloc old n ≡ some b → (length b ≡ n) × (n < 2 ^ 63)
  pub realloc_keeps :
      (old : List ℕ) (n : ℕ) {b : List ℕ}
      → realloc old n ≡ some b
      → length old < n
      → take (length old) b ≡ old

-- `none` is a NULL `data`.
pub record Vector : Type 0 where
  pub block : Option (List ℕ)
  pub count : ℕ
  pub capacity : ℕ
  pub element_size : ℕ

-- Where `vector_at` points to, as an offset.
abbrev pub vector_at : Vector → ℕ → ℕ
vector_at v i = i * v.element_size % size_mod

-- `memcpy (block + offset, bytes, length bytes)`
abbrev pub copy_to : List ℕ → ℕ → List ℕ → List ℕ
copy_to block offset bytes = take offset block ++ (bytes ++ drop (offset + length bytes) block)

module _ (mem : Allocator) where
  pub vector_init : ℕ → ℕ → Bool × Option Vector
  vector_init element_size capacity =
      let cap = if capacity == 0 then 4 else capacity in
      elim (mem.malloc (cap * element_size % size_mod)) [
        | none ↦ (false, none)
        | some b ↦ (
          true,
          some (record { block = some b; count = 0; capacity = cap; element_size = element_size }),
        )
      ]

  -- `realloc (NULL, n)` is `malloc (n)`.
  pub realloc_block : Option (List ℕ) → ℕ → Option (List ℕ)
  realloc_block none n = mem.malloc n
  realloc_block (some b) n = mem.realloc b n

  -- The first part of `vector_push`: room for one more.
  pub make_room : Vector → Bool × Vector
  unfolding realloc_block
  make_room v =
      if v.count == v.capacity
      then (let bigger = v.capacity * 2 % size_mod in
          elim (realloc_block v.block (bigger * v.element_size % size_mod)) [
            | none ↦ (false, v)
            | some b ↦ (true, record v { block = some b; capacity = bigger })
          ])
      else (true, v)

  -- `element` is the list of the bytes that the pointer leads to.
  pub vector_push : Vector → List ℕ → Bool × Vector
  unfolding make_room
  vector_push v element =
      let (room, v') = make_room v in
      if room
      then elim v'.block [
        | none ↦ (false, v')
        | some b ↦ (
          true,
          record v' {
            block = some (copy_to b (vector_at v' v'.count) element);
            count = (v'.count + 1) % size_mod;
          },
        )
      ]
      else (false, v)

-- What `free` gets, and the vector behind the call.
pub vector_destroy : Vector → Option (List ℕ) × Vector
vector_destroy v = (v.block, record v { block = none; count = 0; capacity = 0 })

-- The bytes that a visitor gets a pointer to.
abbrev pub element_at : Vector → ℕ → List ℕ
element_at v i = elim v.block [ none ↦ [] | some b ↦ take v.element_size (drop (vector_at v i) b) ]

-- A visitor takes an element and the context, which it may change.
module _ {C : Type 0} (visit : List ℕ → C → C) where
  pub each_loop : ℕ → ℕ → Vector → C → C
  each_loop zero i v context = context
  each_loop (suc rounds) i v context = each_loop rounds (i + 1) v (visit (element_at v i) context)

  pub vector_each : Vector → C → C
  unfolding each_loop
  vector_each v context = each_loop v.count 0 v context

-- `qsort` gets the block, the number and size of the elements, and the comparator.
pub vector_sort :
    (List ℕ → ℕ → ℕ → (List ℕ → List ℕ → ℤ) → List ℕ) → Vector → (List ℕ → List ℕ → ℤ) → Vector
vector_sort qsort v cmp = elim v.block [
  | none ↦ v
  | some b ↦ record v { block = some (qsort b v.count v.element_size cmp) }
]

-- `(p) - (q)` for two truth values.
abbrev pub difference : Bool → Bool → ℤ
difference true true = pos 0
difference true false = pos 1
difference false true = negsuc 0
difference false false = pos 0

pub record Student : Type 0 where
  pub name : List ℕ
  pub score : ℤ

-- The comparators, on the values that their arguments point to.
pub cmp_int : ℤ → ℤ → ℤ
cmp_int x y = difference (ltb_ℤ y x) (ltb_ℤ x y)

pub cmp_student_score : Student → Student → ℤ
cmp_student_score x y = difference (ltb_ℤ x.score y.score) (ltb_ℤ y.score x.score)

-- The visitor, with what the bytes of an `int` stand for; the sum is exact.
pub sum_int : (List ℕ → ℤ) → List ℕ → ℤ → ℤ
unfolding ◌+ℤ◌
sum_int int_of e total = total +ℤ int_of e

pub op_add : ℤ → ℤ → ℤ
unfolding ◌+ℤ◌
op_add a b = a +ℤ b

pub op_sub : ℤ → ℤ → ℤ
unfolding ◌-ℤ◌
op_sub a b = a -ℤ b

pub op_mul : ℤ → ℤ → ℤ
unfolding ◌*ℤ◌
op_mul a b = a *ℤ b

pub record Command : Type 0 where
  pub name : List ℕ
  pub fn : ℤ → ℤ → ℤ

pub commands : List Command
unfolding op_add op_sub op_mul
commands =
    record { name = b'a' ∷ b'd' ∷ b'd' ∷ []; fn = op_add }
    ∷ (record { name = b's' ∷ b'u' ∷ b'b' ∷ []; fn = op_sub }
        ∷ (record { name = b'm' ∷ b'u' ∷ b'l' ∷ []; fn = op_mul } ∷ []))

-- The loop over the variable arguments; `none` if there are fewer than the count says.
pub sum_loop : ℕ → List ℤ → ℤ → Option ℤ
unfolding ◌+ℤ◌
sum_loop zero args total = some total
sum_loop (suc rounds) [] total = none
sum_loop (suc rounds) (a ∷ args) total = sum_loop rounds args (total +ℤ a)

pub sum_all : ℕ → List ℤ → Option ℤ
unfolding sum_loop
sum_all count args = sum_loop count args (pos 0)
