-- ===== src/OpaqueArray/Tests.antt =====
-- An array of two cells with an allocator that has nothing left, and an instance of what is proved.
use programming_with_c.Base.{◌≡◌, refl, true, false, List, [], ◌∷◌, none, some, arith}
use programming_with_c.Base.Int.{ℤ, pos}
use programming_with_c.DynArray.{Allocator, IntArray}
use programming_with_c.DynArray.Elements.{Holds, elements}
use programming_with_c.OpaqueArray.{
  intarray_create, intarray_push, intarray_get, intarray_destroy, intarray_count, intarray_capacity,
  intarray_clear, handle,
}
use programming_with_c.OpaqueArray.Same.{intarray_push-Pushed}
use programming_with_c.OpaqueArray

apart : {b : List ℤ} → none ≡ some b → ⊥
apart h = cc h

abbrev exhausted : Allocator
exhausted = record {
  malloc = λ _. none;
  realloc = λ _ _. none;
  malloc_size = λ n h. absurd (apart h);
  realloc_size = λ old n h. absurd (apart h);
  realloc_keeps = λ old n i h. absurd (apart h);
}

abbrev one_free : IntArray
one_free = record { cells = some (pos 5 ∷ (pos 0 ∷ [])); count = 1; capacity = 2 }

abbrev no_free : IntArray
no_free = record { cells = some (pos 5 ∷ (pos 6 ∷ [])); count = 2; capacity = 2 }

fills_up : intarray_push exhausted one_free (pos 6) ≡ (true, no_free)
unfolding intarray_push
fills_up = refl

refuses : intarray_push exhausted no_free (pos 7) ≡ (false, no_free)
unfolding intarray_push
refuses = refl

no_handle : intarray_create exhausted true 0 ≡ none
unfolding intarray_create
no_handle = refl

last_read : intarray_get no_free 1 ≡ some (pos 6)
unfolding intarray_get
last_read = refl

cleared : intarray_get (intarray_clear no_free) 0 ≡ none
unfolding intarray_get intarray_clear
cleared = refl

freed : intarray_destroy (some no_free) ≡ OpaqueArray.elements no_free.cells ∷ (handle ∷ [])
unfolding intarray_destroy
freed = refl

no_free-Holds : Holds no_free (pos 5 ∷ (pos 6 ∷ []))
no_free-Holds = record {
  block = refl;
  size = refl;
  room = omega arith;
  small = omega arith;
  fits = omega arith;
}

stays : elements (intarray_push exhausted no_free (pos 7)).1 ≡ elements no_free
unfolding intarray_push
stays =
    (intarray_push-Pushed exhausted no_free (pos 7) (pos 5 ∷ (pos 6 ∷ []), no_free-Holds)).0.holds
