-- ===== src/DynArray.antt =====
-- The growable array of week19_dynamic_memory_allocation/dynarray.c. A block of memory is the list
-- of the `int`s that it holds; the allocator of the C library is a parameter.
pub mod Elements
mod Tests
use programming_with_c.Base.{
  ℕ, ◌+◌, ◌*◌, ◌/◌, ◌%◌, ◌^◌, ◌<◌, ◌≡◌, Bool, true, false, List, [], ◌∷◌, Option, none, some, ltb,
  leb, ◌==◌, if◌then◌else◌, length, get_or, get_elem?, set,
}
use programming_with_c.Base.Int.{ℤ, pos}

abbrev pub size_mod : ℕ
size_mod = 2 ^ 64

-- What the code relies on of `malloc` and `realloc`, whose arguments count bytes. A block is
-- smaller than half the address space, and `realloc` keeps what fits.
pub record Allocator : Type 0 where
  pub malloc : ℕ → Option (List ℤ)
  pub realloc : List ℤ → ℕ → Option (List ℤ)
  pub malloc_size :
      (bytes : ℕ) {b : List ℤ} → malloc bytes ≡ some b → (length b ≡ bytes / 4) × (bytes < 2 ^ 63)
  pub realloc_size :
      (old : List ℤ) (bytes : ℕ) {b : List ℤ}
      → realloc old bytes ≡ some b
      → (length b ≡ bytes / 4) × (bytes < 2 ^ 63)
  pub realloc_keeps :
      (old : List ℤ) (bytes : ℕ) {b : List ℤ} (i : ℕ)
      → realloc old bytes ≡ some b
      → i < length old
      → i < length b
      → get_or b i (pos 0) ≡ get_or old i (pos 0)

-- `none` is a NULL `data`.
pub record IntArray : Type 0 where
  pub cells : Option (List ℤ)
  pub count : ℕ
  pub capacity : ℕ

module _ (mem : Allocator) where
  unfoldable pub init : ℕ → Bool × IntArray
  init initial =
      let cap = if initial == 0 then 4 else initial in
      elim (mem.malloc (cap * 4 % size_mod)) [
        | none ↦ (false, record { cells = none; count = 0; capacity = 0 })
        | some b ↦ (true, record { cells = some b; count = 0; capacity = cap })
      ]

  -- `realloc (NULL, n)` is `malloc (n)`.
  unfoldable pub realloc_data : Option (List ℤ) → ℕ → Option (List ℤ)
  realloc_data none bytes = mem.malloc bytes
  realloc_data (some b) bytes = mem.realloc b bytes

  unfoldable pub grow : IntArray → Bool × IntArray
  unfolding realloc_data
  grow a =
      let bigger = a.capacity * 2 % size_mod in
      elim (realloc_data a.cells (bigger * 4 % size_mod)) [
        | none ↦ (false, a)
        | some b ↦ (true, record a { cells = some b; capacity = bigger })
      ]

  -- `data[count++] = value`; a write through NULL does not happen on a valid array.
  unfoldable pub write_next : IntArray → ℤ → IntArray
  write_next a value = elim a.cells [
    | none ↦ a
    | some b ↦ record a { cells = some (set b a.count value); count = (a.count + 1) % size_mod }
  ]

  unfoldable pub push : IntArray → ℤ → Bool × IntArray
  unfolding grow write_next
  push a value =
      if a.count == a.capacity
      then (let (grown, a') = grow a in if grown then (true, write_next a' value) else (false, a))
      else (true, write_next a value)

pub destroy : IntArray → IntArray
destroy a = record { cells = none; count = 0; capacity = 0 }

-- What goes through `out` when the result is true.
unfoldable pub get : IntArray → ℕ → Option ℤ
get a index =
    if leb a.count index then none else elim a.cells [ none ↦ none | some b ↦ get_elem? b index ]
