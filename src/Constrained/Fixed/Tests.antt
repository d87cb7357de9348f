-- ===== src/Constrained/Fixed/Tests.antt =====
-- The numbers that `main` of constrained.c prints, and instances of what is proved.
use programming_with_c.Base.{◌++◌, ◌≡◌, refl, [], ◌∷◌, none, some, arith}
use programming_with_c.Base.Int.{ℤ, pos, negsuc, ◌*ℤ◌, ◌-ℤ◌, ◌≤ℤ◌, ◌<ℤ◌}
use programming_with_c.Base.Text.{decimal}
use programming_with_c.Constrained.Fixed.{
  put_int, put_q16, q16_mul, q16_div, q16_sin_quarter, Pid, pid_step,
}
use programming_with_c.Constrained.Fixed.Printed.{put_int-text_of, put_q16-fixed_text}

abbrev three : ℤ
three = pos 196_608

abbrev quarter : ℤ
quarter = pos 16_384

one_by_four : q16_div (pos 65_536) (pos 262_144) ≡ some quarter
unfolding q16_div ◌*ℤ◌
one_by_four = refl

by_zero : q16_div three (pos 0) ≡ none
unfolding q16_div ◌*ℤ◌
by_zero = refl

three_by_quarter : q16_mul three quarter ≡ pos 49_152
unfolding q16_mul ◌*ℤ◌
three_by_quarter = refl

-- "-0.250"
shown : put_q16 (negsuc 16_383) ≡ some (b'-' ∷ b'0' ∷ b'.' ∷ b'2' ∷ b'5' ∷ b'0' ∷ [])
unfolding put_q16 ◌-ℤ◌
shown = refl

right_angle : q16_sin_quarter 200 ≡ pos 65_536
unfolding q16_sin_quarter
right_angle = refl

abbrev controller : Pid
controller = record {
  kp = pos 65_536;
  ki = pos 6553;
  kd = pos 3276;
  integral = pos 0;
  previous = pos 0;
}

-- One step from 0 toward 1.
first_output :
    pid_step controller (pos 65_536) (pos 0)
    ≡ some (pos 75_365, record controller { integral = pos 65_536; previous = pos 65_536 })
unfolding pid_step
first_output = refl

negative_shown : put_int (negsuc 41) ≡ some (b'-' ∷ decimal 9 42)
negative_shown = put_int-text_of (negsuc 41) (omega arith) (omega arith)

put_q16-fixed_text_example :
    put_q16 (negsuc 16_383) ≡ some (b'-' ∷ decimal 9 0 ++ (b'.' ∷ b'2' ∷ b'5' ∷ b'0' ∷ []))
put_q16-fixed_text_example = put_q16-fixed_text (negsuc 16_383) (omega arith) (omega arith)

lower : negsuc 140_737_488_355_327 ≤ℤ three *ℤ quarter
unfolding ◌*ℤ◌
lower = omega arith

upper : three *ℤ quarter <ℤ pos 140_737_488_355_328
unfolding ◌*ℤ◌
upper = omega arith
