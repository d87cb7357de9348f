-- ===== src/Records/Roundtrip.antt =====
-- A record that is printed as name, '=', number is read back by parser.c.
use programming_with_c.Base.{
  ℕ, ◌≤◌, ◌<◌, ◌≡◌, ◌≢◌, refl, ap, ◌∙◌, true, false, List, [], ◌∷◌, ◌++◌, some, length, All, leb,
  arith,
}
use programming_with_c.Base.Int.{pos}
use programming_with_c.Base.Text.{decimal}
use programming_with_c.Base.Strtol.{strtol, starts_digit}
use programming_with_c.Base.Decimals.{strtol-decimal, starts}
use programming_with_c.Records.{
  skip_space, trim_trailing, split_equals, line_max_len, parse_long, pinned_value, parse_record,
}
use programming_with_c.Records.Replacement.{written_whole}

split-equals_first :
    (name behind : List ℕ)
    → All (λ c. c ≢ b'=') name
    → split_equals (name ++ (b'=' ∷ behind)) ≡ some (name, behind)
unfolding split_equals
split-equals_first [] behind a = refl
split-equals_first (c ∷ name) behind a = ground (arith, a.0, split-equals_first name behind a.1)

no_blank : (s : List ℕ) → starts_digit s ≡ true → skip_space s ≡ s
unfolding skip_space
no_blank [] h = refl
no_blank (c ∷ s) h = ground (arith, h)

pinned-digits :
    (s : List ℕ) (n : ℕ)
    → starts_digit s ≡ true
    → strtol s ≡ record { value = pos n; end = []; found = true; erange = false }
    → n ≤ 2_147_483_647
    → pinned_value s ≡ pos n
unfolding pinned_value parse_long
pinned-digits [] n h e l = absurd (cc h)
pinned-digits (c ∷ s) n h e l = rw (e, pinned_value, parse_long) (ground (arith, l))

-- A line of a name, '=' and a number from 0 to INT_MAX is read as this name and this number, if
-- the name has neither '=' in it nor blanks at its ends, fits the caller's buffer, and the line is
-- shorter than 256 bytes.
pub parse_record-printed :
    (name : List ℕ) (value name_size : ℕ)
    → All (λ c. c ≢ b'=') name
    → skip_space name ≡ name
    → trim_trailing name ≡ name
    → value ≤ 2_147_483_647
    → length name < name_size
    → length (name ++ (b'=' ∷ decimal 9 value)) < line_max_len
    → parse_record (some (name ++ (b'=' ∷ decimal 9 value))) true name_size
      ≡ record { success = true; name = some name; value = some (pos value) }
unfolding parse_record
parse_record-printed name value name_size a left right v fits h =
    rw
      (
        short,
        split-equals_first name text a,
        left,
        right,
        wide,
        written_whole name_size name wide,
        read,
        parse_record,
      )
      refl
  where
    text : List ℕ
    text = decimal 9 value

    short : leb line_max_len (length (name ++ (b'=' ∷ text))) ≡ false
    short = ground (arith, h)

    wide : leb name_size (length name) ≡ false
    wide = ground arith

    read : pinned_value (skip_space text) ≡ pos value
    read =
        ap pinned_value (no_blank text (starts 9 value))
        ∙ pinned-digits text value (starts 9 value)
            (strtol-decimal 9 value (omega arith) (omega arith)) v
