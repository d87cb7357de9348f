-- ===== src/Records/Tests.antt =====
-- The lines of test_parser.c and test_legacy.c, and instances of what is proved.
use programming_with_c.Base.{ℕ, ◌≡◌, refl, true, false, List, [], ◌∷◌, ◌++◌, none, some, arith}
use programming_with_c.Base.Int.{pos}
use programming_with_c.Base.Text.{decimal}
use programming_with_c.Base.Strtol.{strtol, atoi}
use programming_with_c.Records.{Outcome, legacy, parse_record, skip_space, trim_trailing}
use programming_with_c.Records.Replacement.{parse_record-legacy}
use programming_with_c.Records.Roundtrip.{parse_record-printed}

-- " a =  7"
abbrev line : List ℕ
line = b' ' ∷ b'a' ∷ b' ' ∷ b'=' ∷ b' ' ∷ b' ' ∷ b'7' ∷ []

abbrev a_is_seven : Outcome
a_is_seven = record { success = true; name = some (b'a' ∷ []); value = some (pos 7) }

old_reads : legacy 8 line 4 ≡ some (a_is_seven, 5)
unfolding legacy strtol atoi
old_reads = refl

new_reads : parse_record (some line) true 8 ≡ a_is_seven
unfolding parse_record strtol
new_reads = refl

-- A call that reports failure has written to `out_name`.
cut_short :
    parse_record (some line) true 1 ≡ record { success = false; name = some []; value = none }
unfolding parse_record
cut_short = refl

malformed :
    parse_record (some (b'a' ∷ b'=' ∷ b'x' ∷ [])) true 8
    ≡ record { success = true; name = some (b'a' ∷ []); value = some (pos 0) }
unfolding parse_record strtol
malformed = refl

parse_record-legacy_example : parse_record (some line) true 8 ≡ a_is_seven
parse_record-legacy_example = parse_record-legacy 8 line 4 a_is_seven 5 old_reads

skipped : skip_space (b'a' ∷ []) ≡ b'a' ∷ []
unfolding skip_space
skipped = refl

trimmed : trim_trailing (b'a' ∷ []) ≡ b'a' ∷ []
unfolding trim_trailing
trimmed = refl

parse_record-printed_example :
    parse_record (some ((b'a' ∷ []) ++ (b'=' ∷ decimal 9 7))) true 8 ≡ a_is_seven
unfolding decimal
parse_record-printed_example =
    parse_record-printed (b'a' ∷ []) 7 8 (omega arith, tt) skipped trimmed (omega arith)
      (omega arith) (omega arith)
