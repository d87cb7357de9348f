-- ===== src/DynArray/Tests.antt =====
-- An allocator of 4096 bytes that meets what dynarray.c relies on, and the theorems with it.
use programming_with_c.Base.{
  ℕ, zero, suc, ◌/◌, ◌<◌, ◌^◌, ◌≡◌, refl, ap, sym, true, List, [], ◌∷◌, Option, none, some, arith,
  ltb, if◌then◌else◌, length, get_or, ◌∙◌,
}
use programming_with_c.Base.Int.{ℤ, pos}
use programming_with_c.DynArray.{Allocator, IntArray, init, push}
use programming_with_c.DynArray.Elements.{IsValid, Pushed, init-IsValid, push-Pushed}

abbrev resize : ℕ → List ℤ → List ℤ
resize zero xs = []
resize (suc k) [] = pos 0 ∷ resize k []
resize (suc k) (x ∷ xs) = x ∷ resize k xs

length-resize : (k : ℕ) (xs : List ℤ) → length (resize k xs) ≡ k
length-resize zero xs = refl
length-resize (suc k) [] = ap suc (length-resize k [])
length-resize (suc k) (x ∷ xs) = ap suc (length-resize k xs)

get_or-resize :
    (k : ℕ) (xs : List ℤ) (i : ℕ)
    → i < length xs
    → i < k
    → get_or (resize k xs) i (pos 0) ≡ get_or xs i (pos 0)
get_or-resize zero xs i h l = absurd (omega arith)
get_or-resize (suc k) [] i h l = absurd (omega arith)
get_or-resize (suc k) (x ∷ xs) zero h l = refl
get_or-resize (suc k) (x ∷ xs) (suc i) h l = get_or-resize k xs i (omega arith) (omega arith)

abbrev give : List ℤ → ℕ → Option (List ℤ)
give old bytes = if ltb bytes 4096 then some (resize (bytes / 4) old) else none

give_inv :
    (old : List ℤ) (bytes : ℕ) (b : List ℤ)
    → give old bytes ≡ some b
    → (bytes < 4096) × (resize (bytes / 4) old ≡ b)
give_inv old bytes b h = ground arith

give_size :
    (old : List ℤ) (bytes : ℕ) (b : List ℤ)
    → give old bytes ≡ some b
    → (length b ≡ bytes / 4) × (bytes < 2 ^ 63)
give_size old bytes b h =
    let (l, e) = give_inv old bytes b h in
    (ap length (sym e) ∙ length-resize (bytes / 4) old, omega arith)

give_keeps :
    (old : List ℤ) (bytes : ℕ) (b : List ℤ) (i : ℕ)
    → give old bytes ≡ some b
    → i < length old
    → i < length b
    → get_or b i (pos 0) ≡ get_or old i (pos 0)
give_keeps old bytes b i h l k =
    let (_, e) = give_inv old bytes b h in
    let (size, _) = give_size old bytes b h in
    ap (λ xs. get_or xs i (pos 0)) (sym e) ∙ get_or-resize (bytes / 4) old i l (omega (arith, size))

abbrev small_heap : Allocator
small_heap = record {
  malloc = give [];
  realloc = give;
  malloc_size = λ bytes {b} h. give_size [] bytes b h;
  realloc_size = λ old bytes {b} h. give_size old bytes b h;
  realloc_keeps = λ old bytes {b} i h. give_keeps old bytes b i h;
}

abbrev start : IntArray
start = (init small_heap 2).1

started : (init small_heap 2).0 ≡ true
unfolding init
started = refl

start-IsValid : IsValid start
start-IsValid = (init-IsValid small_heap 2 (omega arith) started).0

three_pushes :
    (push small_heap (push small_heap (push small_heap start (pos 1)).1 (pos 4)).1 (pos 9)).1
    ≡ record { cells = some (pos 1 ∷ pos 4 ∷ pos 9 ∷ pos 0 ∷ []); count = 3; capacity = 4 }
unfolding push init
three_pushes = refl

push-Pushed_example : Pushed start (pos 7) (push small_heap start (pos 7))
push-Pushed_example = push-Pushed small_heap (pos 7) start-IsValid
