-- ===== src/Generic/Vectors.antt =====
-- The vector of generic.c holds what was pushed, byte for byte.
use programming_with_c.Base.{
  ℕ, ◌+◌, ◌*◌, ◌%◌, ◌^◌, ◌<◌, ◌≤◌, ◌≡◌, ◌≢◌, ◌⊎◌, refl, sym, ap, ◌∙◌, Bool, true, false, List, [],
  ◌++◌, some, ◌==◌, length, take, drop, arith, Bool-cases, Option-cases, inl, inr,
}
use mathlib.Core.List.{append-nil}
use mathlib.Core.Path.{subst}
use programming_with_c.Generic.{
  Allocator, size_mod, Vector, vector_at, copy_to, make_room, vector_push, element_at,
}
use programming_with_c.Generic.Slices.{
  slot_before, mul_mono, factor-le, double_room, slice_before, slice_written, length-copy_to,
}

-- `b` is the block that `data` points to; it has room for `capacity` elements.
pub record Holds (v : Vector) (b : List ℕ) : Type 0 where
  pub block : v.block ≡ some b
  pub size : length b ≡ v.capacity * v.element_size
  pub small : v.capacity * v.element_size < 2 ^ 63
  pub element : 0 < v.element_size
  pub room : 0 < v.capacity
  pub fits : v.count ≤ v.capacity

abbrev pub IsVector : Vector → Type 0
IsVector v = (b : List ℕ) × Holds v b

-- An offset does not wrap.
offset :
    {v : Vector} {b : List ℕ} (h : Holds v b) (i : ℕ)
    → i ≤ v.capacity
    → vector_at v i ≡ i * v.element_size
offset {v} h i l = omega (arith, h.small, mul_mono i v.capacity v.element_size l)

element_at-slice :
    {v : Vector} {b : List ℕ} (h : Holds v b) (i : ℕ)
    → i ≤ v.capacity
    → element_at v i ≡ take v.element_size (drop (i * v.element_size) b)
element_at-slice {v} {b} h i l = rw (h.block, offset h i l) refl

-- The elements that `w` shares with `v`.
abbrev SameBelow : ℕ → Vector → Vector → Type 0
SameBelow n v w = (i : ℕ) → i < n → element_at w i ≡ element_at v i

-- Behind the first part of `vector_push`.
record Roomy (v w : Vector) : Type 0 where
  valid : IsVector w
  same_count : w.count ≡ v.count
  same_size : w.element_size ≡ v.element_size
  space : w.count < w.capacity
  keeps : SameBelow v.count v w

-- What `vector_push` promises: on success the element stands behind the others, and a failure
-- changes nothing.
pub record Pushed (v : Vector) (x : List ℕ) (r : Bool × Vector) : Type 0 where
  pub valid : IsVector r.1
  pub grown : r.0 ≡ true → (r.1.count ≡ v.count + 1) × (element_at r.1 v.count ≡ x)
  pub keeps : SameBelow v.count v r.1
  pub failed : r.0 ≡ false → r.1 ≡ v

module _ (mem : Allocator) (v : Vector) {b : List ℕ} (h : Holds v b) where
  abbrev bytes : ℕ
  bytes = v.capacity * 2 % size_mod * v.element_size % size_mod

  abbrev moved : List ℕ → Vector
  moved c = record v { block = some c; capacity = v.capacity * 2 % size_mod }

  no_wrap : v.capacity * 2 % size_mod ≡ v.capacity * 2
  no_wrap = omega (arith, h.small, factor-le v.capacity v.element_size h.element)

  bytes_needed : bytes ≡ v.capacity * v.element_size * 2
  bytes_needed = rw no_wrap (omega (arith, h.small, double_room v.capacity v.element_size))

  moved-Roomy :
      (c : List ℕ) → v.count ≡ v.capacity → mem.realloc b bytes ≡ some c → Roomy v (moved c)
  moved-Roomy c full p =
      let (l, k) = mem.realloc_size b bytes p in
      record {
        valid = (c, holds l k);
        same_count = refl;
        same_size = refl;
        space = omega (arith, no_wrap, full, h.room);
        keeps = λ i n. same_element (holds l k) i n;
      }
    where
      holds : length c ≡ bytes → bytes < 2 ^ 63 → Holds (moved c) c
      holds l k = record {
        block = refl;
        size = omega (
          arith,
          l,
          bytes_needed,
          no_wrap,
          double_room v.capacity v.element_size,
          ap (λ n. n * v.element_size) no_wrap,
        );
        small = omega (
          arith,
          k,
          bytes_needed,
          double_room v.capacity v.element_size,
          ap (λ n. n * v.element_size) no_wrap,
        );
        element = h.element;
        room = omega (arith, no_wrap, h.room);
        fits = omega (arith, no_wrap, h.fits);
      }

      positive : 0 < v.capacity * v.element_size
      positive = omega (arith, h.room, factor-le v.capacity v.element_size h.element)

      longer : length b < bytes
      longer = omega (arith, h.size, bytes_needed, positive)

      same_element :
          Holds (moved c) c → (i : ℕ) → i < v.count → element_at (moved c) i ≡ element_at v i
      same_element g i n =
          element_at-slice g i (omega (arith, n, h.fits, no_wrap))
          ∙ sym
              (slice_before c [] (length b) (i * v.element_size) v.element_size inside long_enough)
          ∙ ap (λ d. take v.element_size (drop (i * v.element_size) d))
              (append-nil (take (length b) c) ∙ mem.realloc_keeps b bytes p longer)
          ∙ sym (element_at-slice h i (omega (arith, n, h.fits)))
        where
          inside : i * v.element_size + v.element_size ≤ length b
          inside =
              omega
                (arith, h.size, slot_before i v.capacity v.element_size (omega (arith, n, h.fits)))

          long_enough : length b ≤ length c
          long_enough = omega (arith, g.size, longer, (mem.realloc_size b bytes p).0)

  same_room : v.count ≢ v.capacity → Roomy v v
  same_room ne = record {
    valid = (b, h);
    same_count = refl;
    same_size = refl;
    space = omega (arith, ne, h.fits);
    keeps = λ i n. refl;
  }

  make_room-cases :
      ((make_room mem v).0 ≡ true × Roomy v (make_room mem v).1) ⊎ ((make_room mem v).0 ≡ false)
  unfolding make_room
  make_room-cases = elim (Bool-cases (v.count == v.capacity)) [
    | inr f ↦ rw f (inl (refl, same_room (λ e. absurd (ground (arith, e, f)))))
    | inl t ↦ elim (Option-cases (mem.realloc b bytes)) [
      | inl n ↦ inr (ground (arith, t, n, h.block))
      | inr (c, p) ↦
          let e : make_room mem v ≡ (true, moved c) = ground (arith, t, p, h.block) in
          inl (
            ap (λ q. q.0) e,
            subst (Roomy v) (sym (ap (λ q. q.1) e)) (moved-Roomy c (ground (arith, t)) p),
          )
    ]
  ]

-- Behind the second part.
module _ {v : Vector} {b : List ℕ} (h : Holds v b) (space : v.count < v.capacity) (x : List ℕ)
    (l : length x ≡ v.element_size) where
  abbrev stored : Vector
  stored = record v {
    block = some (copy_to b (vector_at v v.count) x);
    count = (v.count + 1) % size_mod;
  }

  slot : v.count * v.element_size + v.element_size ≤ length b
  slot = omega (arith, h.size, slot_before v.count v.capacity v.element_size space)

  at_slot : vector_at v v.count ≡ v.count * v.element_size
  at_slot = offset h v.count h.fits

  no_wrap_count : (v.count + 1) % size_mod ≡ v.count + 1
  no_wrap_count = omega (arith, space, h.small, factor-le v.capacity v.element_size h.element)

  stored-Holds : Holds stored (copy_to b (vector_at v v.count) x)
  stored-Holds = record {
    block = refl;
    size = length-copy_to b x (vector_at v v.count) (omega (arith, at_slot, l, slot)) ∙ h.size;
    small = h.small;
    element = h.element;
    room = h.room;
    fits = omega (arith, no_wrap_count, space);
  }

  stored_last : element_at stored v.count ≡ x
  stored_last =
      element_at-slice stored-Holds v.count h.fits
      ∙ ap (λ o. take v.element_size (drop (v.count * v.element_size) (copy_to b o x))) at_slot
      ∙ ap (λ k. take k (drop (v.count * v.element_size) (copy_to b (v.count * v.element_size) x)))
          (sym l)
      ∙ slice_written b x (v.count * v.element_size) (omega (arith, slot))

  stored_before : SameBelow v.count v stored
  stored_before i n =
      element_at-slice stored-Holds i (omega (arith, n, h.fits))
      ∙ slice_before b (x ++ drop (vector_at v v.count + length x) b) (vector_at v v.count)
          (i * v.element_size) v.element_size
          (omega (arith, at_slot, slot_before i v.count v.element_size n))
          (omega (arith, at_slot, slot))
      ∙ sym (element_at-slice h i (omega (arith, n, h.fits)))

stored-Pushed :
    {v w : Vector} {b : List ℕ} (r : Roomy v w) (h : Holds w b) (x : List ℕ)
    (l : length x ≡ w.element_size)
    → Pushed v x (true, stored h r.space x l)
stored-Pushed {v} {w} {b} r h x l = record {
  valid = (copy_to b (vector_at w w.count) x, stored-Holds h r.space x l);
  grown = λ _. (
    no_wrap_count h r.space x l ∙ ap (λ n. n + 1) r.same_count,
    ap (element_at (stored h r.space x l)) (sym r.same_count) ∙ stored_last h r.space x l,
  );
  keeps = λ i n. stored_before h r.space x l i (omega (arith, n, r.same_count)) ∙ r.keeps i n;
  failed = λ e. cc e;
}

-- `vector_push` on a vector whose capacity in bytes is less than half the address space, with an element
-- of its element size, does what Pushed says, whatever the allocator answers.
pub vector_push-Pushed :
    (mem : Allocator) (v : Vector) (x : List ℕ)
    → IsVector v
    → length x ≡ v.element_size
    → Pushed v x (vector_push mem v x)
unfolding vector_push
vector_push-Pushed mem v x (b, h) l = elim (make_room-cases mem v h) [
  | inr f ↦
      let e : vector_push mem v x ≡ (false, v) = rw (f, vector_push) refl in
      subst (Pushed v x) (sym e)
        (record { valid = (b, h); grown = λ p. cc p; keeps = λ i n. refl; failed = λ p. refl })
  | inl (t, r) ↦
      let (c, g) = r.valid in
      let k : length x ≡ (make_room mem v).1.element_size = l ∙ sym r.same_size in
      let e : vector_push mem v x ≡ (true, stored g r.space x k) =
        rw (t, g.block, vector_push) refl in
      subst (Pushed v x) (sym e) (stored-Pushed r g x k)
]
