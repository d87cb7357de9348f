-- ===== src/Constrained/Fixed/Printed.antt =====
-- `put_int` and `put_q16` (constrained.c) print the number.
use programming_with_c.Base.{
  ℕ, suc, ◌+◌, ◌*◌, ◌/◌, ◌%◌, ◌^◌, ◌<◌, ◌≤◌, ◌≡◌, refl, ap, ◌∙◌, true, false, List, [], ◌∷◌, ◌++◌,
  none, some, ltb, if◌then◌else◌, arith, Bool-cases, inl, inr,
}
use programming_with_c.Base.Int.{ℤ, pos, negsuc, ◌-ℤ◌, ◌≤ℤ◌, ltb_ℤ, eqb_ℤ, pos_part, neg_part}
use programming_with_c.Base.Strtol.{int_min, int_max}
use programming_with_c.Base.Text.{decimal}
use programming_with_c.Console.{put_digits}
use programming_with_c.Console.Digits.{put_digits-decimal}
use programming_with_c.Constrained.Fixed.{put_int, put_q16, put_parts, thousandths}

-- The text of an integer: a sign and the decimal digits.
abbrev pub text_of : ℤ → List ℕ
text_of (pos n) = decimal 9 n
text_of (negsuc n) = b'-' ∷ decimal 9 (suc n)

put_digits-ten : (n : ℕ) → n < 10 ^ 10 → put_digits 10 n ≡ decimal 9 n
put_digits-ten n h = (put_digits-decimal 9 10 n h (omega arith)).0

opposite : (n : ℕ) → pos 0 -ℤ negsuc n ≡ pos (suc n)
unfolding ◌-ℤ◌
opposite n = ground arith

not_negative : (n : ℕ) → ltb_ℤ (pos n) (pos 0) ≡ false
not_negative n = ground arith

is_negative : (n : ℕ) → ltb_ℤ (negsuc n) (pos 0) ≡ true
is_negative n = ground arith

not_smallest : (n : ℕ) → eqb_ℤ (pos n) int_min ≡ false
not_smallest n = ground arith

-- `put_int` prints every `int32_t` as `%d` does, but for INT32_MIN, for which `-v` overflows.
pub put_int-text_of :
    (v : ℤ)
    → int_min ≤ℤ v
    → v ≤ℤ int_max
    → put_int v ≡ (if eqb_ℤ v int_min then none else some (text_of v))
unfolding put_int
put_int-text_of (pos n) l u =
    rw (not_negative n, not_smallest n) (ap some (put_digits-ten n (omega (arith, u))))
put_int-text_of (negsuc n) l u = elim (Bool-cases (eqb_ℤ (negsuc n) int_min)) [
  | inl t ↦ rw (is_negative n, t) refl
  | inr f ↦
      rw (is_negative n, f, opposite n)
        (ap (λ t. some (b'-' ∷ t)) (put_digits-ten (suc n) (omega (arith, l))))
]

-- Three digits.
abbrev three_digits : ℕ → List ℕ
three_digits n = (b'0' + n / 100) ∷ (b'0' + n / 10 % 10) ∷ (b'0' + n % 10) ∷ []

decimal_one : (k f : ℕ) → ltb f 10 ≡ true → decimal (suc k) f ≡ (b'0' + f) ∷ []
unfolding decimal
decimal_one k f t = rw t refl

decimal_more :
    (k f : ℕ) → ltb f 10 ≡ false → decimal (suc k) f ≡ decimal k (f / 10) ++ ((b'0' + f % 10) ∷ [])
unfolding decimal
decimal_more k f t = rw t refl

padded :
    (f : ℕ)
    → f < 1000
    → (let tens = if ltb f 10 then b'0' ∷ put_digits 10 f else put_digits 10 f in
        if ltb f 100 then b'0' ∷ tens else tens)
      ≡ three_digits f
padded f h = rw (put_digits-ten f (omega (arith, h))) (elim (Bool-cases (ltb f 10)) [
  | inl t ↦ rw (t, decimal_one 8 f t) (ground (arith, t))
  | inr g ↦ elim (Bool-cases (ltb f 100)) [
    | inl t ↦
        rw (t, g, decimal_more 8 f g, decimal_one 7 (f / 10) (ground (arith, t)))
          (ground (arith, t))
    | inr e ↦
        rw
          (
            e,
            g,
            decimal_more 8 f g,
            decimal_more 7 (f / 10) (ground (arith, e)),
            decimal_one 6 (f / 10 / 10) (ground (arith, h)),
          )
          (ground (arith, h))
  ]
])

-- The integer part, a point, and three digits of the fraction.
abbrev fixed_text : ℕ → List ℕ
fixed_text n = decimal 9 (n / 65_536) ++ (b'.' ∷ three_digits (n % 65_536 * 1000 / 65_536))

put_parts-fixed_text : (n : ℕ) → n ≤ 2 ^ 31 → put_parts (pos n) ≡ fixed_text n
unfolding put_parts
put_parts-fixed_text n h = rw (put_digits-ten (n / 65_536) (omega (arith, h))) (
    ap (λ t. decimal 9 (n / 65_536) ++ (b'.' ∷ t))
      (cut ∙ padded (n % 65_536 * 1000 / 65_536) (omega arith)))
  where
    cut : thousandths n ≡ (
        let tens =
          if ltb (n % 65_536 * 1000 / 65_536) 10
          then b'0' ∷ put_digits 10 (n % 65_536 * 1000 / 65_536)
          else put_digits 10 (n % 65_536 * 1000 / 65_536) in
        if ltb (n % 65_536 * 1000 / 65_536) 100 then b'0' ∷ tens else tens)
    cut = rw no_wrap refl
      where
        no_wrap : n % 65_536 * 1000 % 2 ^ 32 ≡ n % 65_536 * 1000
        no_wrap = omega arith

-- `put_q16` prints every `int32_t` as its integer part in 65536ths, a point, and the thousandths of
-- the rest rounded toward 0, with a sign in front of a negative number. For INT32_MIN alone it
-- overflows.
pub put_q16-fixed_text :
    (q : ℤ)
    → int_min ≤ℤ q
    → q ≤ℤ int_max
    → put_q16 q ≡ (
        if eqb_ℤ q int_min
        then none
        else if ltb_ℤ q (pos 0)
        then some (b'-' ∷ fixed_text (neg_part q))
        else some (fixed_text (pos_part q)))
unfolding put_q16
put_q16-fixed_text (pos n) l u =
    rw (not_negative n, not_smallest n) (ap some (put_parts-fixed_text n (omega (arith, u))))
put_q16-fixed_text (negsuc n) l u = elim (Bool-cases (eqb_ℤ (negsuc n) int_min)) [
  | inl t ↦ rw (is_negative n, t) refl
  | inr f ↦
      rw (is_negative n, f, opposite n)
        (ap (λ t. some (b'-' ∷ t)) (put_parts-fixed_text (suc n) (omega (arith, l))))
]
