-- ===== src/OpaqueArray.antt =====
-- The opaque array of week28_the_preprocessor_and_modular_programming/intarray.c, which weeks 29 and 45
-- copy. The fields are those of the growable array of DynArray, and so is the allocator; a handle is
-- `none` for NULL, and the assertions are that it is not.
pub mod Same
mod Tests
use programming_with_c.Base.{
  ℕ, ◌+◌, ◌*◌, ◌%◌, Bool, true, false, not, ◌&&◌, List, [], ◌∷◌, Option, none, some, leb, ◌==◌,
  if◌then◌else◌, get_elem?, set,
}
use programming_with_c.Base.Int.{ℤ}
use programming_with_c.DynArray.{Allocator, IntArray, size_mod}

abbrev pub default_capacity : ℕ
default_capacity = 4

module _ (mem : Allocator) where
  -- `data` is never NULL here.
  pub grow : IntArray → Bool × IntArray
  grow a =
      let bigger = a.capacity * 2 % size_mod in
      elim a.cells [
        | none ↦ (false, a)
        | some b ↦ elim (mem.realloc b (bigger * 4 % size_mod)) [
          | none ↦ (false, a)
          | some moved ↦ (true, record a { cells = some moved; capacity = bigger })
        ]
      ]

  -- `handle` says whether there is memory for the handle itself.
  pub intarray_create : Bool → ℕ → Option IntArray
  intarray_create handle initial_capacity =
      let capacity = if initial_capacity == 0 then default_capacity else initial_capacity in
      if handle
      then elim (mem.malloc (capacity * 4 % size_mod)) [
        | none ↦ none
        | some b ↦ some (record { cells = some b; count = 0; capacity = capacity })
      ]
      else none

  -- `a->data[a->count++] = value`
  pub store : IntArray → ℤ → IntArray
  store a value = elim a.cells [
    | none ↦ a
    | some b ↦ record a { cells = some (set b a.count value); count = (a.count + 1) % size_mod }
  ]

  pub intarray_push : IntArray → ℤ → Bool × IntArray
  unfolding grow store
  intarray_push a value =
      let (grown, a') = grow a in
      if a.count == a.capacity
      then (if grown then (true, store a' value) else (false, a))
      else (true, store a value)

-- The blocks that are freed, the elements and then the handle.
pub data Block : Type 0 where
  elements : Option (List ℤ) → Block
  handle : Block

pub intarray_destroy : Option IntArray → List Block
intarray_destroy none = []
intarray_destroy (some a) = elements a.cells ∷ (handle ∷ [])

-- What goes through `out` when the result is true.
pub intarray_get : IntArray → ℕ → Option ℤ
intarray_get a index =
    if leb a.count index then none else elim a.cells [ none ↦ none | some b ↦ get_elem? b index ]

pub intarray_count : IntArray → ℕ
intarray_count a = a.count

pub intarray_capacity : IntArray → ℕ
intarray_capacity a = a.capacity

pub intarray_clear : IntArray → IntArray
intarray_clear a = record a { count = 0 }
