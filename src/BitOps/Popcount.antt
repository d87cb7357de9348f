-- ===== src/BitOps/Popcount.antt =====
-- The two ways of bits.c to count set bits agree.
use Prim.Native.Nat.{bit_and}
use programming_with_c.Base.{
  ℕ, zero, suc, ◌+◌, ◌-◌, ◌*◌, ◌/◌, ◌%◌, ◌^◌, ◌≤◌, ◌<◌, ◌≡◌, ◌≢◌, refl, ap, ◌∙◌, some, arith, ◌==◌,
  inl, inr, Bool-cases, sym,
}
use native.Mathlib.Nat.{pow-suc, div-div-eq-div-mul}
use native.Mathlib.Numerals.{add-one}
use programming_with_c.Base.Bits.{bit_and_digit, bit_and-zero_below}
use programming_with_c.BitOps.{naive_loop, popcount_naive, kernighan_loop, popcount_kernighan}

-- The number of ones among the `k` lowest binary digits.
pub ones : ℕ → ℕ → ℕ
ones zero v = 0
ones (suc k) v = v % 2 + ones k (v / 2)

ones-zero : (k : ℕ) → ones k 0 ≡ 0
unfolding ones
ones-zero zero = refl
ones-zero (suc k) = omega (arith, ones-zero k)

bit_and_one : (a : ℕ) → bit_and a 1 ≡ a % 2
bit_and_one a = omega (arith, bit_and_digit a 1, bit_and-zero_below (a / 2) (a / 2) (omega arith))

and_self : (bound a : ℕ) → a ≤ bound → bit_and a a ≡ a
and_self bound zero h = refl
and_self zero (suc a) h = absurd (omega arith)
and_self (suc bound) (suc a) h =
    omega (arith, bit_and_digit (suc a) (suc a), and_self bound (suc a / 2) (omega arith))

-- What `v & (v - 1)` is, by the last digit of `v`.
and_pred_odd : (v : ℕ) → v % 2 ≡ 1 → bit_and v (v - 1) ≡ 2 * (v / 2)
and_pred_odd v o = omega (
  arith,
  bit_and_digit v (v - 1),
  ap (bit_and (v / 2)) same,
  and_self (v / 2) (v / 2) (omega arith),
)
  where
    same : (v - 1) / 2 ≡ v / 2
    same = omega arith

and_pred_even : (v : ℕ) → v ≢ 0 → v % 2 ≡ 0 → bit_and v (v - 1) ≡ 2 * bit_and (v / 2) (v / 2 - 1)
and_pred_even v ne e = omega (arith, bit_and_digit v (v - 1), ap (bit_and (v / 2)) half_pred)
  where
    half_pred : (v - 1) / 2 ≡ v / 2 - 1
    half_pred = omega arith

abbrev Cleared : ℕ → ℕ → ℕ → Type 0
Cleared k v w = (ones k v ≡ suc (ones k w)) × (w < 2 ^ k)

clear_half : (k v w : ℕ) → w % 2 ≡ 0 → v % 2 ≡ 0 → Cleared k (v / 2) (w / 2) → Cleared (suc k) v w
unfolding ones
clear_half k v w a b c = omega (arith, c, pow-suc 2 k)

-- `v & (v - 1)` has one set bit less, and no higher one.
clear_lowest : (k v : ℕ) → v ≢ 0 → v < 2 ^ k → Cleared k v (bit_and v (v - 1))
unfolding ones
clear_lowest zero v ne h = absurd (omega arith)
clear_lowest (suc k) v ne h = elim (Bool-cases (v % 2 == 0)) [
  | inr odd ↦ at_odd (ground arith)
  | inl even ↦ at_even (ground arith) (clear_lowest k (v / 2))
]
  where
    at_odd : v % 2 ≡ 1 → Cleared (suc k) v (bit_and v (v - 1))
    at_odd o = rw (and_pred_odd v o) (omega (arith, ap (ones k) halved), omega (arith, h))
      where
        halved : 2 * (v / 2) / 2 ≡ v / 2
        halved = omega arith

    at_even :
        v % 2 ≡ 0
        → (v / 2 ≢ 0 → v / 2 < 2 ^ k → Cleared k (v / 2) (bit_and (v / 2) (v / 2 - 1)))
        → Cleared (suc k) v (bit_and v (v - 1))
    at_even e ih = rw (and_pred_even v ne e) (
        clear_half k v (2 * bit_and (v / 2) (v / 2 - 1)) (omega arith) e (
          rw (halved (bit_and (v / 2) (v / 2 - 1)))
            (ih (omega arith) (omega (arith, pow-suc 2 k)))))
      where
        halved : (x : ℕ) → 2 * x / 2 ≡ x
        halved x = omega arith

kernighan-ones :
    (k fuel v count : ℕ)
    → v < 2 ^ k
    → ones k v < fuel
    → kernighan_loop fuel v count ≡ some (count + ones k v)
unfolding kernighan_loop
kernighan-ones k zero v count h f = absurd (omega arith)
kernighan-ones k (suc fuel) v count h f = elim (Bool-cases (v == 0)) [
  | inl z ↦ done (ground arith)
  | inr nz ↦ rw nz (more (ground arith) (kernighan-ones k fuel (bit_and v (v - 1)) (count + 1)))
]
  where
    done : v ≡ 0 → kernighan_loop (suc fuel) v count ≡ some (count + ones k v)
    done e = rw (e, ones-zero k) (ap some (omega arith))

    more :
        v ≢ 0
        → (bit_and v (v - 1) < 2 ^ k
            → ones k (bit_and v (v - 1)) < fuel
            → kernighan_loop fuel (bit_and v (v - 1)) (count + 1)
              ≡ some (count + 1 + ones k (bit_and v (v - 1))))
        → kernighan_loop fuel (bit_and v (v - 1)) (count + 1) ≡ some (count + ones k v)
    more ne ih =
        let c : Cleared k v (bit_and v (v - 1)) = clear_lowest k v ne h in
        ih (c.1) (omega (arith, c.0, f)) ∙ ap some (omega (arith, c.0))

ones-le : (k v : ℕ) → ones k v ≤ k
unfolding ones
ones-le zero v = omega arith
ones-le (suc k) v = omega (arith, ones-le k (v / 2))

-- The loop of `popcount_naive` reads the digits of `v` from the `i`-th on.
naive-ones : (k i v w count : ℕ) → v / 2 ^ i ≡ w → naive_loop k i v count ≡ count + ones k w
unfolding naive_loop ones
naive-ones zero i v w count e = omega arith
naive-ones (suc k) i v w count e =
    naive-ones k (i + 1) v (w / 2) (count + bit_and (v / 2 ^ i) 1)
      (shift_again v i ∙ ap (λ x. x / 2) e)
    ∙ omega (arith, bit_and_one (v / 2 ^ i))
  where
    shift_again : (v i : ℕ) → v / 2 ^ (i + 1) ≡ v / 2 ^ i / 2
    shift_again v i = ap (λ n. v / n) twice ∙ sym (div-div-eq-div-mul v (2 ^ i) 2)
      where
        twice : 2 ^ (i + 1) ≡ 2 ^ i * 2
        twice = rw add-one (pow-suc 2 i)

-- For every 32-bit value Kernighan's loop ends within 33 tests, and both functions give the number
-- of binary digits of the value that are ones.
pub popcounts_agree :
    (v : ℕ)
    → v < 2 ^ 32
    → (popcount_naive v ≡ ones 32 v) × (popcount_kernighan v ≡ some (popcount_naive v))
unfolding popcount_naive popcount_kernighan
popcounts_agree v h =
    let naive : naive_loop 32 0 v 0 ≡ ones 32 v =
      naive-ones 32 0 v v 0 (omega arith) ∙ omega arith in
    (
      naive,
      kernighan-ones 32 33 v 0 h (omega (arith, ones-le 32 v)) ∙ ap some (omega (arith, naive)),
    )
