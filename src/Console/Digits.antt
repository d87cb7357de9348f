-- ===== src/Console/Digits.antt =====
-- `put_uint` and `put_u64` (interrupts.c) print what `printf` prints.
use programming_with_c.Base.{
  ℕ, zero, suc, ◌+◌, ◌/◌, ◌%◌, ◌^◌, ◌<◌, ◌≤◌, ◌≡◌, refl, sym, ap, ◌∙◌, true, false, List, [], ◌∷◌,
  ◌++◌, ltb, ◌==◌, length, arith, Bool-cases, inl, inr,
}
use mathlib.Core.List.{append_assoc, append-nil}
use native.Mathlib.Nat.{pow-suc}
use programming_with_c.Base.Text.{decimal}
use programming_with_c.Base.Decimals.{length-decimal}
use programming_with_c.Console.{digits, put_digits, put_uint, put_u64}

digits-zero : (rounds : ℕ) (t : List ℕ) → digits rounds 0 t ≡ t
unfolding digits
digits-zero zero t = refl
digits-zero (suc rounds) t = refl

-- `k + 1` rounds are enough for `k + 1` digits.
pub digits-decimal :
    (k rounds v : ℕ) (t : List ℕ)
    → 0 < v
    → v < 10 ^ suc k
    → k < rounds
    → digits rounds v t ≡ decimal k v ++ t
unfolding digits decimal
digits-decimal k zero v t p h l = absurd (omega (arith, l))
digits-decimal zero (suc rounds) v t p h l =
    ground (arith, p, h, digits-zero rounds ((b'0' + v % 10) ∷ t), none_left)
  where
    none_left : v / 10 ≡ 0
    none_left = omega (arith, h)
digits-decimal (suc k) (suc rounds) v t p h l = elim (Bool-cases (ltb v 10)) [
  | inl s ↦
      rw (s, nonzero)
        (ap (λ w. digits rounds w ((b'0' + v % 10) ∷ t)) (none_left s)
          ∙ digits-zero rounds ((b'0' + v % 10) ∷ t)
          ∙ ap (λ d. (b'0' + d) ∷ t) (last_digit s))
  | inr f ↦
      rw (f, nonzero)
        (digits-decimal k rounds (v / 10) ((b'0' + v % 10) ∷ t) (ground (arith, f))
            (omega (arith, h, pow-suc 10 (suc k))) (omega (arith, l))
          ∙ sym (append_assoc (decimal k (v / 10)) ((b'0' + v % 10) ∷ []) t))
]
  where
    nonzero : (v == 0) ≡ false
    nonzero = ground (arith, p)

    none_left : ltb v 10 ≡ true → v / 10 ≡ 0
    none_left s = ground (arith, s)

    last_digit : ltb v 10 ≡ true → v % 10 ≡ v
    last_digit s = ground (arith, s)

pub decimal-zero : (k : ℕ) → decimal k 0 ≡ b'0' ∷ []
unfolding decimal
decimal-zero zero = refl
decimal-zero (suc k) = refl

zero_of : (v : ℕ) → (v == 0) ≡ true → 0 ≡ v
zero_of v h = ground (arith, h)

positive : (v : ℕ) → (v == 0) ≡ false → 0 < v
positive v h = ground (arith, h)

-- 0 has a branch of its own.
pub put_digits-decimal :
    (k rounds v : ℕ)
    → v < 10 ^ suc k
    → k < rounds
    → (put_digits rounds v ≡ decimal k v) × (length (put_digits rounds v) ≤ suc k)
unfolding put_digits
put_digits-decimal k rounds v h l = (printed, omega (arith, ap length printed, length-decimal k v))
  where
    printed : put_digits rounds v ≡ decimal k v
    printed = elim (Bool-cases (v == 0)) [
      | inl z ↦ rw z (sym (decimal-zero k) ∙ ap (decimal k) (zero_of v z))
      | inr n ↦ rw n (digits-decimal k rounds v [] (positive v n) h l ∙ append-nil (decimal k v))
    ]

-- `put_uint` prints every `uint32_t` as `%u` does, and its array `t` of 11 characters is large
-- enough.
pub put_uint-decimal :
    (v : ℕ) → v < 2 ^ 32 → (put_uint v ≡ decimal 9 v) × (length (put_uint v) ≤ 11)
unfolding put_uint
put_uint-decimal v h =
    let p = put_digits-decimal 9 10 v (omega (arith, h)) (omega arith) in (p.0, omega (arith, p.1))

-- `put_u64` prints every `uint64_t` as `%llu` does, and its array `t` of 21 characters is large
-- enough.
pub put_u64-decimal : (v : ℕ) → v < 2 ^ 64 → (put_u64 v ≡ decimal 19 v) × (length (put_u64 v) ≤ 21)
unfolding put_u64
put_u64-decimal v h =
    let p = put_digits-decimal 19 20 v (omega (arith, h)) (omega arith) in (p.0, omega (arith, p.1))
