-- ===== src/DynArray/Elements.antt =====
-- The array of dynarray.c holds the values pushed, in order.
use programming_with_c.Base.{
  ℕ, zero, suc, ◌+◌, ◌*◌, ◌%◌, ◌^◌, ◌≤◌, ◌<◌, ◌≡◌, refl, ap, ◌∙◌, Bool, true, false, List, [], ◌∷◌,
  ◌++◌, none, some, arith, leb, ◌==◌, if◌then◌else◌, length, get_or, get_elem?, set, take,
  length-set, inl, inr, Bool-cases, Option-cases,
}
use mathlib.Core.Path.{ap₂}
use programming_with_c.Base.Int.{ℤ, pos}
use programming_with_c.DynArray.{
  Allocator, IntArray, size_mod, init, grow, realloc_data, write_next, push, get,
}

-- The elements in use.
abbrev pub elements : IntArray → List ℤ
elements a = elim a.cells [ none ↦ [] | some b ↦ take a.count b ]

-- `b` is the block that `data` points to.
pub record Holds (a : IntArray) (b : List ℤ) : Type 0 where
  pub block : a.cells ≡ some b
  pub size : length b ≡ a.capacity
  pub room : 0 < a.capacity
  pub small : a.capacity < 2 ^ 61
  pub fits : a.count ≤ a.capacity

abbrev pub IsValid : IntArray → Type 0
IsValid a = (b : List ℤ) × Holds a b

take-set :
    (xs : List ℤ) (n : ℕ) (v : ℤ)
    → n < length xs
    → take (suc n) (set xs n v) ≡ take n xs ++ (v ∷ [])
take-set [] n v h = absurd (omega arith)
take-set (x ∷ xs) zero v h = refl
take-set (x ∷ xs) (suc n) v h = ap (λ ys. x ∷ ys) (take-set xs n v (omega arith))

-- Blocks that agree below `n` have the same first `n` elements.
take_agree :
    (n : ℕ) (xs ys : List ℤ)
    → n ≤ length xs
    → n ≤ length ys
    → ((i : ℕ) → i < n → get_or xs i (pos 0) ≡ get_or ys i (pos 0))
    → take n xs ≡ take n ys
take_agree zero xs ys h k f = refl
take_agree (suc n) [] ys h k f = absurd (omega arith)
take_agree (suc n) (x ∷ xs) [] h k f = absurd (omega arith)
take_agree (suc n) (x ∷ xs) (y ∷ ys) h k f =
    ap₂ ◌∷◌ (f 0 (omega arith))
      (take_agree n xs ys (omega arith) (omega arith) (λ i l. f (suc i) (omega arith)))

-- The outcome of `array_push`.
pub record Pushed (a : IntArray) (v : ℤ) (r : Bool × IntArray) : Type 0 where
  pub valid : IsValid r.1
  pub holds : elements r.1 ≡ (if r.0 then elements a ++ (v ∷ []) else elements a)

module _ (mem : Allocator) where
  -- `array_init` with a capacity whose size in bytes does not wrap gives a valid empty array.
  pub init-IsValid :
      (initial : ℕ)
      → initial < 2 ^ 62
      → (init mem initial).0 ≡ true
      → IsValid (init mem initial).1 × (elements (init mem initial).1 ≡ [])
  unfolding init
  init-IsValid initial h t = elim (Option-cases (mem.malloc (cap * 4 % size_mod))) [
    | inl n ↦ absurd (refused n)
    | inr (b, p) ↦ rw (p, init) ((b, made b p), refl)
  ]
    where
      cap : ℕ
      cap = if initial == 0 then 4 else initial

      refused : mem.malloc (cap * 4 % size_mod) ≡ none → ⊥
      refused n = ground arith

      cap_range : (0 < cap) × (cap < 2 ^ 62)
      cap_range = ground arith

      made :
          (b : List ℤ)
          → mem.malloc (cap * 4 % size_mod) ≡ some b
          → Holds (record { cells = some b; count = 0; capacity = cap }) b
      made b p =
          let (l, k) = mem.malloc_size (cap * 4 % size_mod) p in
          record {
            block = refl;
            size = omega (arith, l, cap_range);
            room = cap_range.0;
            small = omega (arith, k, cap_range);
            fits = omega arith;
          }

  module _ {a : IntArray} {b : List ℤ} (v : ℤ) (h : Holds a b) where
    written :
        a.count < a.capacity
        → Holds (write_next mem a v) (set b a.count v)
          × (elements (write_next mem a v) ≡ elements a ++ (v ∷ []))
    unfolding write_next
    written lt =
        rw (h.block, write_next)
          (
            record {
              block = refl;
              size = length-set b a.count v ∙ h.size;
              room = h.room;
              small = h.small;
              fits = omega (arith, h.small);
            },
            ap (λ n. take n (set b a.count v)) next ∙ take-set b a.count v (omega (arith, h.size)),
          )
      where
        next : (a.count + 1) % size_mod ≡ suc a.count
        next = omega (arith, h.small)

    -- The larger array that `array_grow` makes.
    abbrev larger : List ℤ → IntArray
    larger b' = record a { cells = some b'; capacity = a.capacity * 2 % size_mod }

    grown :
        {b' : List ℤ}
        → mem.realloc b (a.capacity * 2 % size_mod * 4 % size_mod) ≡ some b'
        → Holds (larger b') b' × (elements (larger b') ≡ elements a)
    grown {b'} p =
        let bytes = a.capacity * 2 % size_mod * 4 % size_mod in
        let (l, k) = mem.realloc_size b bytes p in
        (
          record {
            block = refl;
            size = omega (arith, l, h.small);
            room = omega (arith, h.room, h.small);
            small = omega (arith, k, h.small);
            fits = omega (arith, h.fits, h.small);
          },
          rw h.block (
              take_agree a.count b' b (omega (arith, l, h.small, h.fits))
                (omega (arith, h.size, h.fits))
                (λ i lt.
                  mem.realloc_keeps b bytes i p (omega (arith, h.size, h.fits))
                    (omega (arith, l, h.small, h.fits)))),
        )

  -- `array_push` appends its value if it reports success and changes no element if it does not;
  -- the array stays valid either way.
  pub push-Pushed : {a : IntArray} (v : ℤ) → IsValid a → Pushed a v (push mem a v)
  unfolding push
  push-Pushed {a} v (b, h) = elim (Bool-cases (a.count == a.capacity)) [
    | inr f ↦
        let w = written v h (ground (arith, h.fits)) in
        rw (f, push) (record { valid = (set b a.count v, w.0); holds = w.1 })
    | inl t ↦ elim (Option-cases (mem.realloc b (a.capacity * 2 % size_mod * 4 % size_mod))) [
      | inl n ↦ rw (t, push, grow_fails n) (record { valid = (b, h); holds = refl })
      | inr (b', p) ↦
          let g = grown v h p in
          let w = written v g.0 (ground (arith, h.room, h.small)) in
          rw (t, push, grow_works b' p)
            (record {
              valid = (set b' a.count v, w.0);
              holds = w.1 ∙ ap (λ xs. xs ++ (v ∷ [])) g.1;
            })
    ]
  ]
    where
      grow_fails :
          mem.realloc b (a.capacity * 2 % size_mod * 4 % size_mod) ≡ none → grow mem a ≡ (false, a)
      grow_fails n = unfold grow realloc_data in ground (arith, h.block, n)

      grow_works :
          (b' : List ℤ)
          → mem.realloc b (a.capacity * 2 % size_mod * 4 % size_mod) ≡ some b'
          → grow mem a ≡ (true, record a { cells = some b'; capacity = a.capacity * 2 % size_mod })
      grow_works b' p = unfold grow realloc_data in ground (arith, h.block, p)

get_elem?-take :
    (xs : List ℤ) (n i : ℕ) → get_elem? (take n xs) i ≡ (if leb n i then none else get_elem? xs i)
get_elem?-take xs zero i = ground arith
get_elem?-take [] (suc n) i = ground arith
get_elem?-take (x ∷ xs) (suc n) zero = ground arith
get_elem?-take (x ∷ xs) (suc n) (suc i) = get_elem?-take xs n i ∙ ground arith

-- `array_get` gives the element at an index, and refuses an index that has none.
pub get-elements : (a : IntArray) (i : ℕ) → IsValid a → get a i ≡ get_elem? (elements a) i
unfolding get
get-elements a i (b, h) = rw (h.block, get, get_elem?-take b a.count i) (ground arith)
