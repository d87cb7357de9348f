-- ===== src/Doubling/Tests.antt =====
-- The cases of `main`, and instances of what is proved.
use programming_with_c.Base.{
  ℕ, ◌<◌, ◌≡◌, ◌≢◌, ◌⊎◌, refl, true, false, List, [], ◌∷◌, none, some, arith, length,
}
use programming_with_c.Base.Int.{◌*ℤ◌}
use programming_with_c.Base.Text.{c_string, decimal}
use programming_with_c.Base.Strtol.{strtol}
use programming_with_c.Base.Streams.{Stream, fgets}
use programming_with_c.Base.Lines.{lines, NoZero}
use programming_with_c.Doubling.{FcStatus, System, Event, Outcome, parse_line, double_numbers}
use programming_with_c.Doubling.Reading.{HasLarge}
use programming_with_c.Doubling.Resources.{Clean, double_numbers-Clean}
use programming_with_c.Doubling.Doubled.{twice_all, double_numbers-twice_all}

abbrev on_file : List ℕ → System
on_file s = record {
  input = some (record { bytes = s; broken = false });
  output = true;
  memory = true;
  writes = [];
  closes = true;
}

abbrev all_events : List Event
all_events =
    Event.closes_input
    ∷ (Event.closes_output
        ∷ (Event.frees ∷ (Event.allocates ∷ (Event.opens_output ∷ (Event.opens_input ∷ [])))))

-- "1", an empty line, "2"
abbrev blank_lines : List ℕ
blank_lines = b'1' ∷ 10 ∷ 10 ∷ b'2' ∷ 10 ∷ []

-- "2" and "4"
abbrev two_four : List ℕ
two_four = b'2' ∷ 10 ∷ b'4' ∷ 10 ∷ []

abbrev fine : Outcome
fine = record { status = FcStatus.ok; lines_out = some 3; out = two_four; events = all_events }

with_blank_line : double_numbers (on_file blank_lines) ≡ some fine
unfolding double_numbers fgets strtol c_string decimal
with_blank_line = refl

-- "1", "12x"
trailing_rubbish :
    double_numbers (on_file (b'1' ∷ 10 ∷ b'1' ∷ b'2' ∷ b'x' ∷ 10 ∷ []))
    ≡ some (record {
      status = FcStatus.bad_format;
      lines_out = none;
      out = b'2' ∷ 10 ∷ [];
      events = all_events;
    })
unfolding double_numbers fgets strtol c_string decimal
trailing_rubbish = refl

-- The output cannot be closed: the counter of the caller has been written all the same.
written_on_failure :
    double_numbers (record (on_file blank_lines) { closes = false })
    ≡ some (record fine { status = FcStatus.errno })
unfolding double_numbers fgets strtol c_string decimal
written_on_failure = refl

-- 5 * 10 ^ 18 is read, but its double does not fit.
too_large : double_numbers (on_file (decimal 18 5_000_000_000_000_000_000)) ≡ none
unfolding double_numbers fgets strtol c_string decimal
too_large = refl

double_numbers-Clean_example :
    ((o : Outcome) × (double_numbers (on_file blank_lines) ≡ some o)
      × Clean (on_file blank_lines) o)
    ⊎ ((s : Stream) × ((on_file blank_lines).input ≡ some s) × HasLarge (lines s.bytes))
double_numbers-Clean_example = double_numbers-Clean (on_file blank_lines)

nonzero : (c : ℕ) → 0 < c → c ≢ 0
nonzero c h e = absurd (omega (arith, h, e))

blank_lines-NoZero : NoZero blank_lines
blank_lines-NoZero = (
  nonzero b'1' (omega arith),
  (
    nonzero 10 (omega arith),
    (nonzero 10 (omega arith), (nonzero b'2' (omega arith), (nonzero 10 (omega arith), tt))),
  ),
)

doubled_text : twice_all (lines blank_lines) ≡ some two_four
unfolding parse_line strtol decimal ◌*ℤ◌
doubled_text = refl

double_numbers-twice_all_example :
    (o : Outcome) × (double_numbers (on_file blank_lines) ≡ some o)
    × (o.status ≡ FcStatus.ok)
    × (o.lines_out ≡ some (length (lines blank_lines)))
    × (o.out ≡ two_four)
double_numbers-twice_all_example =
    double_numbers-twice_all (on_file blank_lines) blank_lines two_four refl refl refl refl refl
      blank_lines-NoZero (omega arith) doubled_text
