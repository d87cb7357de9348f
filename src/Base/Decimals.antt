-- ===== src/Base/Decimals.antt =====
-- What `printf` writes with `%u`, `strtol` reads.
use Prim.Native.Nat.{ℕ, zero, suc, ◌+◌, ◌-◌, ◌*◌, ◌/◌, ◌%◌, ◌^◌, ◌≤◌, ◌<◌}
use mathlib.Core.Path.{◌≡◌, refl, ap, ◌∙◌}
use mathlib.Core.Bool.{true, false}
use mathlib.Core.Logic.{inl, inr}
use mathlib.Core.List.{List, [], ◌∷◌, ◌++◌}
use native.Mathlib.Nat.{pow-suc}
use native.Mathlib.Omega.{arith}
use programming_with_c.Base.Tests.{ltb, Bool-cases}
use programming_with_c.Base.Lists.{All, length, length-append}
use programming_with_c.Base.Int.{pos}
use programming_with_c.Base.Text.{decimal}
use programming_with_c.Base.Strtol.{
  is_digit, drop_space, read_digits, long_max, read_sign, strtol, starts_digit,
}

-- The value of digits, read behind a value.
abbrev pub digits_value : ℕ → List ℕ → ℕ
digits_value value [] = value
digits_value value (c ∷ s) = digits_value (value * 10 + (c - 48)) s

abbrev AllDigits : List ℕ → Type 0
AllDigits s = All (λ c. is_digit c ≡ true) s

read_digits-all :
    (value : ℕ) (s : List ℕ) → AllDigits s → read_digits value s ≡ (digits_value value s, [])
unfolding read_digits
read_digits-all value [] a = refl
read_digits-all value (c ∷ s) a = rw (a.0) (read_digits-all (value * 10 + (c - 48)) s a.1)

digits_value-snoc :
    (value : ℕ) (s : List ℕ) (d : ℕ)
    → digits_value value (s ++ (d ∷ [])) ≡ digits_value value s * 10 + (d - 48)
digits_value-snoc value [] d = refl
digits_value-snoc value (c ∷ s) d = digits_value-snoc (value * 10 + (c - 48)) s d

AllDigits-snoc : (s : List ℕ) (d : ℕ) → AllDigits s → is_digit d ≡ true → AllDigits (s ++ (d ∷ []))
AllDigits-snoc [] d a h = (h, tt)
AllDigits-snoc (c ∷ s) d a h = (a.0, AllDigits-snoc s d a.1 h)

pub decimal-AllDigits : (k n : ℕ) → AllDigits (decimal k n)
unfolding decimal
decimal-AllDigits zero n = (ground arith, tt)
decimal-AllDigits (suc k) n = elim (Bool-cases (ltb n 10)) [
  | inl t ↦ rw t (ground arith, tt)
  | inr f ↦ rw f (
      AllDigits-snoc (decimal k (n / 10)) (48 + n % 10) (decimal-AllDigits k (n / 10))
        (ground arith))
]

decimal_value : (k n : ℕ) → n < 10 ^ suc k → digits_value 0 (decimal k n) ≡ n
unfolding decimal
decimal_value zero n h = omega arith
decimal_value (suc k) n h = elim (Bool-cases (ltb n 10)) [
  | inl t ↦ rw t (ground arith)
  | inr f ↦ rw f (
      digits_value-snoc 0 (decimal k (n / 10)) (48 + n % 10)
      ∙ omega (arith, decimal_value k (n / 10) (omega (arith, pow-suc 10 (suc k)))))
]

-- The text has a first character, which is a digit.
pub starts : (k n : ℕ) → starts_digit (decimal k n) ≡ true
unfolding decimal
starts zero n = ground arith
starts (suc k) n = elim (Bool-cases (ltb n 10)) [
  | inl t ↦ rw t (ground arith)
  | inr f ↦ rw f (starts-append (decimal k (n / 10)) (starts k (n / 10)))
]
  where
    starts-append :
        (s : List ℕ) → starts_digit s ≡ true → starts_digit (s ++ ((48 + n % 10) ∷ [])) ≡ true
    starts-append [] h = ground arith
    starts-append (c ∷ s) h = h

-- A digit at the front is neither a space nor a sign.
strtol-digits :
    (s : List ℕ)
    → starts_digit s ≡ true
    → AllDigits s
    → digits_value 0 s ≤ long_max
    → strtol s ≡ record { value = pos (digits_value 0 s); end = []; found = true; erange = false }
unfolding strtol
strtol-digits [] h a k = absurd (cc h)
strtol-digits (c ∷ s) h a k =
    rw (no_space, no_sign, read_digits-all 0 (c ∷ s) a, h, strtol) (ground (arith, k))
  where
    no_space : drop_space (c ∷ s) ≡ c ∷ s
    no_space = unfold drop_space in ground (arith, h)

    no_sign : read_sign (c ∷ s) ≡ (false, c ∷ s)
    no_sign = ground (arith, h)

pub strtol-decimal :
    (k n : ℕ)
    → n < 10 ^ suc k
    → n ≤ long_max
    → strtol (decimal k n) ≡ record { value = pos n; end = []; found = true; erange = false }
strtol-decimal k n h l =
    strtol-digits (decimal k n) (starts k n) (decimal-AllDigits k n)
      (omega (arith, decimal_value k n h))
    ∙ ap (λ v. record { value = pos v; end = []; found = true; erange = false })
        (decimal_value k n h)

pub length-decimal : (k n : ℕ) → length (decimal k n) ≤ suc k
unfolding decimal
length-decimal zero n = omega arith
length-decimal (suc k) n =
    ground
      (arith, length-append (decimal k (n / 10)) ((b'0' + n % 10) ∷ []), length-decimal k (n / 10))
