-- ===== src/Generic/Tests.antt =====
-- A vector of two-byte elements, the dispatch table, and instances of what is proved.
use programming_with_c.Base.{
  ℕ, zero, suc, ◌^◌, ◌<◌, ◌≡◌, refl, sym, ap, ◌∙◌, true, List, [], ◌∷◌, Option, none, some, ltb,
  if◌then◌else◌, length, take, arith, map,
}
use programming_with_c.Base.Int.{pos}
use programming_with_c.Generic.{
  Allocator, Vector, vector_init, vector_push, vector_each, sum_int, commands, Command, sum_all,
}
use programming_with_c.Generic.Vectors.{Pushed, Holds, vector_push-Pushed}

abbrev resize : ℕ → List ℕ → List ℕ
resize zero xs = []
resize (suc k) [] = 0 ∷ resize k []
resize (suc k) (x ∷ xs) = x ∷ resize k xs

length-resize : (k : ℕ) (xs : List ℕ) → length (resize k xs) ≡ k
length-resize zero xs = refl
length-resize (suc k) [] = ap suc (length-resize k [])
length-resize (suc k) (x ∷ xs) = ap suc (length-resize k xs)

take-resize : (k : ℕ) (xs : List ℕ) → length xs < k → take (length xs) (resize k xs) ≡ xs
take-resize zero xs h = absurd (omega (arith, h))
take-resize (suc k) [] h = refl
take-resize (suc k) (x ∷ xs) h = ap (λ ys. x ∷ ys) (take-resize k xs (omega (arith, h)))

abbrev give : List ℕ → ℕ → Option (List ℕ)
give old n = if ltb n 4096 then some (resize n old) else none

given : (old : List ℕ) (n : ℕ) (b : List ℕ) → give old n ≡ some b → (n < 4096) × (resize n old ≡ b)
given old n b h = ground arith

give_size :
    (old : List ℕ) (n : ℕ) (b : List ℕ) → give old n ≡ some b → (length b ≡ n) × (n < 2 ^ 63)
give_size old n b h =
    let (l, e) = given old n b h in (ap length (sym e) ∙ length-resize n old, omega (arith, l))

give_keeps :
    (old : List ℕ) (n : ℕ) (b : List ℕ)
    → give old n ≡ some b
    → length old < n
    → take (length old) b ≡ old
give_keeps old n b h l =
    let (_, e) = given old n b h in ap (take (length old)) (sym e) ∙ take-resize n old l

abbrev small_heap : Allocator
small_heap = record {
  malloc = give [];
  realloc = give;
  malloc_size = λ n {b} h. give_size [] n b h;
  realloc_size = λ old n {b} h. give_size old n b h;
  realloc_keeps = λ old n {b} h l. give_keeps old n b h l;
}

-- One element of two bytes, in a vector that is full with it.
abbrev full : Vector
full = record { block = some (1 ∷ 2 ∷ []); count = 1; capacity = 1; element_size = 2 }

full-Holds : Holds full (1 ∷ 2 ∷ [])
full-Holds = record {
  block = refl;
  size = refl;
  small = omega arith;
  element = omega arith;
  room = omega arith;
  fits = omega arith;
}

pushed : (vector_push small_heap full (3 ∷ 4 ∷ [])).1.block ≡ some (1 ∷ 2 ∷ 3 ∷ 4 ∷ [])
unfolding vector_push
pushed = refl

begun : (vector_init small_heap 4 0).0 ≡ true
unfolding vector_init
begun = refl

-- A visitor that takes the first byte of each element for its value.
summed : vector_each (sum_int (λ e. elim e [ [] ↦ pos 0 | b ∷ _ ↦ pos b ])) full (pos 41) ≡ pos 42
unfolding vector_each sum_int
summed = refl

dispatched : map (λ c. Command.fn c (pos 10) (pos 3)) commands ≡ pos 13 ∷ (pos 7 ∷ (pos 30 ∷ []))
unfolding commands
dispatched = refl

three_numbers : sum_all 3 (pos 1 ∷ (pos 2 ∷ (pos 3 ∷ []))) ≡ some (pos 6)
unfolding sum_all
three_numbers = refl

vector_push-Pushed_example : Pushed full (3 ∷ 4 ∷ []) (vector_push small_heap full (3 ∷ 4 ∷ []))
vector_push-Pushed_example =
    vector_push-Pushed small_heap full (3 ∷ 4 ∷ []) (1 ∷ 2 ∷ [], full-Holds) refl
