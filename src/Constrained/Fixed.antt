-- ===== src/Constrained/Fixed.antt =====
-- Numbers in constrained.c: `put_int`, arithmetic in Q16.16, the sine table and the controller. An
-- `int32_t` is an integer; where the code leaves the range of a signed type, the behaviour is
-- undefined, and the result is `none`. A conversion to `int32_t` keeps the low 32 bits.
pub mod Printed
pub mod Rounding
mod Tests
use programming_with_c.Base.{
  ℕ, zero, suc, ◌+◌, ◌-◌, ◌*◌, ◌/◌, ◌%◌, ◌^◌, Bool, true, false, not, ◌&&◌, List, [], ◌∷◌, ◌++◌,
  Option, none, some, ltb, leb, ◌==◌, if◌then◌else◌, get_or, map,
}
use programming_with_c.Base.Int.{ℤ, pos, negsuc, ◌+ℤ◌, ◌-ℤ◌, ◌*ℤ◌, ltb_ℤ, eqb_ℤ, pos_part, neg_part}
use programming_with_c.Base.Strtol.{fits_int, int_min}
use programming_with_c.Console.{put_digits}

-- `-v`, which has no value for INT32_MIN.
abbrev pub negate : ℤ → Option ℤ
negate v = if eqb_ℤ v int_min then none else some (pos 0 -ℤ v)

-- What `put_int` prints of a value that is not negative.
abbrev pub magnitude : ℤ → List ℕ
magnitude v = put_digits 10 (pos_part v)

pub put_int : ℤ → Option (List ℕ)
unfolding put_digits ◌-ℤ◌
put_int v =
    if ltb_ℤ v (pos 0)
    then elim (negate v) [ none ↦ none | some m ↦ some (b'-' ∷ magnitude m) ]
    else some (magnitude v)

-- `v >> Q16_SHIFT`, rounding down, as compilers do for negative values too.
abbrev pub shift_right : ℤ → ℤ
shift_right (pos n) = pos (n / 65_536)
shift_right (negsuc n) = negsuc (n / 65_536)

-- The `int32_t` with the low 32 bits of these.
abbrev pub from_bits : ℕ → ℤ
from_bits u = if ltb u (2 ^ 31) then pos u else negsuc (2 ^ 32 - 1 - u)

abbrev pub low_bits : ℤ → ℕ
low_bits (pos n) = n % 2 ^ 32
low_bits (negsuc n) = 2 ^ 32 - 1 - n % 2 ^ 32

abbrev pub to_int32 : ℤ → ℤ
to_int32 v = from_bits (low_bits v)

pub q16_mul : ℤ → ℤ → ℤ
unfolding ◌*ℤ◌
q16_mul a b = to_int32 (shift_right (a *ℤ b))

-- Division rounds toward 0.
abbrev pub quotient : ℤ → ℤ → Option ℤ
quotient a (pos zero) = none
quotient (pos a) (pos (suc b)) = some (pos (a / suc b))
quotient (pos a) (negsuc b) = some (pos 0 -ℤ pos (a / suc b))
quotient (negsuc a) (pos (suc b)) = some (pos 0 -ℤ pos (suc a / suc b))
quotient (negsuc a) (negsuc b) = some (pos (suc a / suc b))

-- `a << Q16_SHIFT` multiplies by 65536, as compilers do for negative values too.
pub q16_div : ℤ → ℤ → Option ℤ
unfolding ◌*ℤ◌ ◌-ℤ◌
q16_div a b = elim (quotient (a *ℤ pos 65_536) b) [ none ↦ none | some v ↦ some (to_int32 v) ]

-- The thousandths of `q & 0xFFFF`, with the zeros in front.
abbrev pub thousandths : ℕ → List ℕ
thousandths n =
    let frac = n % 65_536 * 1000 % 2 ^ 32 / 65_536 in
    let shown = put_digits 10 frac in
    let tens = if ltb frac 10 then b'0' ∷ shown else shown in
    if ltb frac 100 then b'0' ∷ tens else tens

-- What `put_q16` prints of a value that is not negative.
pub put_parts : ℤ → List ℕ
unfolding put_digits
put_parts q = magnitude (shift_right q) ++ (b'.' ∷ thousandths (pos_part q))

pub put_q16 : ℤ → Option (List ℕ)
unfolding put_parts ◌-ℤ◌
put_q16 q =
    if ltb_ℤ q (pos 0)
    then elim (negate q) [ none ↦ none | some m ↦ some (b'-' ∷ put_parts m) ]
    else some (put_parts q)

abbrev pub sine_table : List ℤ
sine_table = map pos (
    0 ∷ 6423 ∷ 12_785 ∷ 19_024 ∷ 25_079 ∷ 30_893 ∷ 36_409 ∷ 41_575 ∷ 46_340 ∷ 50_660 ∷ 54_491
    ∷ 57_797 ∷ 60_547 ∷ 62_714 ∷ 64_276 ∷ 65_220 ∷ 65_536 ∷ [])

pub q16_sin_quarter : ℕ → ℤ
q16_sin_quarter index = get_or sine_table (if ltb 16 index then 16 else index) (pos 0)

pub record Pid : Type 0 where
  pub kp : ℤ
  pub ki : ℤ
  pub kd : ℤ
  pub integral : ℤ
  pub previous : ℤ

-- A sum or a difference that leaves `int32_t` is undefined.
abbrev pub checked : ℤ → Option ℤ
checked v = if fits_int v then some v else none

infixl 5 ◌>>=◌
abbrev pub ◌>>=◌ : {A B : Type 0} → Option A → (A → Option B) → Option B
none >>= f = none
some a >>= f = f a

pub pid_step : Pid → ℤ → ℤ → Option (ℤ × Pid)
unfolding q16_mul ◌+ℤ◌ ◌-ℤ◌
pid_step p setpoint measured = do
  error ← checked (setpoint -ℤ measured)
  integral ← checked (p.integral +ℤ error)
  derivative ← checked (error -ℤ p.previous)
  two ← checked (q16_mul p.kp error +ℤ q16_mul p.ki integral)
  sum ← checked (two +ℤ q16_mul p.kd derivative)
  some (sum, record p { integral = integral; previous = error })
