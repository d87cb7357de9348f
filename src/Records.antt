-- ===== src/Records.antt =====
-- The record parser of week56_maintaining_long_lived_c_codebases: legacy.c as it was found, and
-- parser.c that replaces it.
pub mod Replacement
pub mod Roundtrip
mod Tests
use programming_with_c.Base.{
  ℕ, zero, suc, ◌+◌, Bool, true, false, not, ◌&&◌, ◌||◌, List, [], ◌∷◌, Option, none, some, ltb,
  leb, ◌==◌, if◌then◌else◌, length, take, get_or,
}
use programming_with_c.Base.Int.{ℤ, pos, ltb_ℤ}
use programming_with_c.Base.Strtol.{Number, strtol, atoi, fits_int}

abbrev pub is_blank : ℕ → Bool
is_blank c = c == 32 || c == 9

-- `skip_space`, and the loops of legacy.c that do the same.
pub skip_space : List ℕ → List ℕ
skip_space [] = []
skip_space (c ∷ s) = let rest = skip_space s in if is_blank c then rest else c ∷ s

-- The loop of `trim_trailing`, and of legacy.c, from the length `n` down: what is left of the
-- string.
pub trim_loop : ℕ → List ℕ → List ℕ
trim_loop zero s = []
trim_loop (suc n) s =
    let rest = trim_loop n s in if is_blank (get_or s n 0) then rest else take (suc n) s

pub trim_trailing : List ℕ → List ℕ
unfolding trim_loop
trim_trailing s = trim_loop (length s) s

-- What stands before the first '=' and behind it.
pub split_equals : List ℕ → Option (List ℕ × List ℕ)
split_equals [] = none
split_equals (c ∷ s) =
    let rest = split_equals s in
    if c == b'='
    then some ([], s)
    else elim rest [ none ↦ none | some (before, behind) ↦ some (c ∷ before, behind) ]

abbrev pub line_max_len : ℕ
line_max_len = 256

-- What a call leaves behind: its result, and what was written to the outputs.
pub record Outcome : Type 0 where
  pub success : Bool
  pub name : Option (List ℕ)
  pub value : Option ℤ

abbrev pub refused : Outcome
refused = record { success = false; name = none; value = none }

-- `parse_record` of legacy.c, into an `out_name` of `size` bytes, with the global `count`. `none`: a
-- `strcpy` writes behind the end of an array, or `atoi` is given a number that does not fit.
pub legacy : ℕ → List ℕ → ℕ → Option (Outcome × ℕ)
unfolding skip_space trim_trailing split_equals
legacy size line count =
    if leb line_max_len (length line) then none else elim (split_equals (skip_space line)) [
      | none ↦ some (refused, count)
      | some (before, behind) ↦
          let name = trim_trailing before in
          if leb size (length name) then none else elim (atoi (skip_space behind)) [
            | none ↦ none
            | some v ↦ some (record { success = true; name = some name; value = some v }, count + 1)
          ]
    ]

pub parse_long : List ℕ → Option ℤ
parse_long [] = none
parse_long (c ∷ s) =
    let n = strtol (c ∷ s) in if not n.found || n.erange then none else some n.value

-- The value that is written: 0 for what is no number, or none that fits.
pub pinned_value : List ℕ → ℤ
unfolding parse_long
pinned_value text = elim (parse_long text) [
  | none ↦ pos 0
  | some v ↦ if fits_int v then v else pos 0
]

-- What `snprintf (out, size, "%s", text)` writes.
abbrev pub written : ℕ → List ℕ → Option (List ℕ)
written zero text = none
written (suc size) text = some (take size text)

-- `parse_record` of parser.c; `line` is `none` for NULL, and `outputs` says that neither output is.
pub parse_record : Option (List ℕ) → Bool → ℕ → Outcome
unfolding skip_space trim_trailing split_equals pinned_value
parse_record none outputs name_size = refused
parse_record (some line) outputs name_size =
    if not outputs || leb line_max_len (length line) then refused else elim (split_equals line) [
      | none ↦ refused
      | some (before, behind) ↦
          let name = trim_trailing (skip_space before) in
          if leb name_size (length name)
          then record { success = false; name = written name_size name; value = none }
          else record {
            success = true;
            name = written name_size name;
            value = some (pinned_value (skip_space behind));
          }
    ]
