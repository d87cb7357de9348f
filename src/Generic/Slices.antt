-- ===== src/Generic/Slices.antt =====
-- Parts of a block of bytes, and the sizes of arrays of elements.
use programming_with_c.Base.{
  ℕ, zero, suc, ◌+◌, ◌*◌, ◌<◌, ◌≤◌, ◌≡◌, refl, ap, ◌∙◌, List, [], ◌∷◌, ◌++◌, length, take, drop,
  length-append, length-take, length-drop, arith,
}
use programming_with_c.Generic.{copy_to}

pub slot_before : (i n s : ℕ) → i < n → i * s + s ≤ n * s
slot_before i n s h = grind arith

pub mul_mono : (i n s : ℕ) → i ≤ n → i * s ≤ n * s
mul_mono i n s h = grind arith

pub factor-le : (n s : ℕ) → 0 < s → n ≤ n * s
factor-le n s h = grind arith

pub double_room : (n s : ℕ) → n * 2 * s ≡ n * s * 2
double_room n s = grind arith

-- A part of a block that stands before an offset.
pub slice_before :
    (b r : List ℕ) (off p s : ℕ)
    → p + s ≤ off
    → off ≤ length b
    → take s (drop p (take off b ++ r)) ≡ take s (drop p b)
slice_before b r zero zero zero h l = refl
slice_before b r zero (suc p) s h l = absurd (omega (arith, h))
slice_before b r zero zero (suc s) h l = absurd (omega (arith, h))
slice_before [] r (suc off) p s h l = absurd (omega (arith, l))
slice_before (x ∷ b) r (suc off) zero zero h l = refl
slice_before (x ∷ b) r (suc off) zero (suc s) h l =
    ap (λ xs. x ∷ xs) (slice_before b r off zero s (omega (arith, h)) (omega (arith, l)))
slice_before (x ∷ b) r (suc off) (suc p) s h l =
    slice_before b r off p s (omega (arith, h)) (omega (arith, l))

pub drop-take_append : (b r : List ℕ) (off : ℕ) → off ≤ length b → drop off (take off b ++ r) ≡ r
drop-take_append b r zero l = refl
drop-take_append [] r (suc off) l = absurd (omega (arith, l))
drop-take_append (x ∷ b) r (suc off) l = drop-take_append b r off (omega (arith, l))

pub take-append_all : (x r : List ℕ) → take (length x) (x ++ r) ≡ x
take-append_all [] r = refl
take-append_all (c ∷ x) r = ap (λ xs. c ∷ xs) (take-append_all x r)

pub slice_written :
    (b x : List ℕ) (off : ℕ) → off ≤ length b → take (length x) (drop off (copy_to b off x)) ≡ x
slice_written b x off l =
    ap (take (length x)) (drop-take_append b (x ++ drop (off + length x) b) off l)
    ∙ take-append_all x (drop (off + length x) b)

pub length-copy_to :
    (b x : List ℕ) (off : ℕ) → off + length x ≤ length b → length (copy_to b off x) ≡ length b
length-copy_to b x off l = omega (
  arith,
  l,
  length-append (take off b) (x ++ drop (off + length x) b),
  length-append x (drop (off + length x) b),
  length-take off b,
  length-drop (off + length x) b,
)
