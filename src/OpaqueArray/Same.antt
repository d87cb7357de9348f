-- ===== src/OpaqueArray/Same.antt =====
-- The array behind the handle (intarray.c) does what the growable array of dynarray.c does.
use programming_with_c.Base.{ℕ, ◌≡◌, refl, sym, true, false, none, some, arith, if◌then◌else◌}
use mathlib.Core.Path.{subst}
use programming_with_c.Base.Int.{ℤ}
use programming_with_c.DynArray
use programming_with_c.DynArray.{Allocator, IntArray}
use programming_with_c.DynArray.Elements.{IsValid, Pushed, push-Pushed}
use programming_with_c.OpaqueArray.{intarray_create, intarray_push, intarray_get, grow, store}

grow-same : (mem : Allocator) (a : IntArray) → IsValid a → grow mem a ≡ DynArray.grow mem a
unfolding grow DynArray.grow DynArray.realloc_data
grow-same mem a (b, h) = ground (arith, h.block)

store-same : (mem : Allocator) (a : IntArray) (v : ℤ) → store mem a v ≡ DynArray.write_next mem a v
unfolding store DynArray.write_next
store-same mem a v = ground arith

intarray_push-push :
    (mem : Allocator) (a : IntArray) (v : ℤ)
    → IsValid a
    → intarray_push mem a v ≡ DynArray.push mem a v
unfolding intarray_push DynArray.push
intarray_push-push mem a v w =
    ground (arith, grow-same mem a w, store-same mem a v, store-same mem (grow mem a).1 v)

-- The contract of intarray.h for `intarray_push`: on success the value stands behind the others, on
-- failure the array is left unchanged, and it stays usable in both cases.
pub intarray_push-Pushed :
    (mem : Allocator) (a : IntArray) (v : ℤ)
    → IsValid a
    → Pushed a v (intarray_push mem a v)
      × ((intarray_push mem a v).0 ≡ false → (intarray_push mem a v).1 ≡ a)
intarray_push-Pushed mem a v w =
    (subst (Pushed a v) (sym (intarray_push-push mem a v w)) (push-Pushed mem v w), unchanged)
  where
    unchanged : (intarray_push mem a v).0 ≡ false → (intarray_push mem a v).1 ≡ a
    unchanged e = unfold intarray_push in ground (arith, e)

-- `intarray_create` gives what `array_init` initialises, or NULL.
pub intarray_create-init :
    (mem : Allocator) (n : ℕ)
    → intarray_create mem true n
      ≡ (if (DynArray.init mem n).0 then some (DynArray.init mem n).1 else none)
unfolding intarray_create DynArray.init
intarray_create-init mem n = ground arith

pub intarray_get-get : (a : IntArray) (i : ℕ) → intarray_get a i ≡ DynArray.get a i
unfolding intarray_get DynArray.get
intarray_get-get a i = refl
