-- ===== src/Records/Replacement.antt =====
-- parser.c does what legacy.c does, wherever that is defined.
use programming_with_c.Base.{
  ℕ, zero, suc, ◌+◌, ◌≡◌, refl, ap, true, false, List, [], ◌∷◌, Option, none, some, leb,
  if◌then◌else◌, length, take_all, arith, Option-cases, inl, inr,
}
use programming_with_c.Base.Int.{ℤ, pos}
use programming_with_c.Base.Strtol.{strtol, atoi}
use programming_with_c.Records.{
  skip_space, trim_trailing, split_equals, Outcome, legacy, parse_long, pinned_value, written,
  parse_record,
}

-- Without a number the value is 0.
strtol_missing : (text : List ℕ) → (strtol text).found ≡ false → (strtol text).value ≡ pos 0
unfolding strtol
strtol_missing text h = ground arith

strtol_nil : strtol [] ≡ record { value = pos 0; end = []; found = false; erange = false }
unfolding strtol
strtol_nil = refl

pinned-atoi : (text : List ℕ) (v : ℤ) → atoi text ≡ some v → pinned_value text ≡ v
unfolding atoi pinned_value parse_long
pinned-atoi [] v h = ground (arith, h, strtol_nil)
pinned-atoi (c ∷ s) v h = ground (arith, h, strtol_missing (c ∷ s))

-- A blank is no '=': it does not matter whether blanks are skipped before the search or behind it.
split-skip_space :
    (line : List ℕ)
    → split_equals (skip_space line) ≡ (elim (split_equals line) [
      | none ↦ none
      | some (before, behind) ↦ some (skip_space before, behind)
    ])
unfolding split_equals skip_space
split-skip_space [] = refl
split-skip_space (c ∷ s) = ground (arith, split-skip_space s)

pub written_whole :
    (size : ℕ) (name : List ℕ) → leb size (length name) ≡ false → written size name ≡ some name
written_whole zero name h = absurd (ground (arith, h))
written_whole (suc size) name h = ap some (take_all name size (ground arith))

-- What the two do behind the search for '='.
abbrev legacy_end : ℕ → List ℕ → List ℕ → ℕ → Option (Outcome × ℕ)
legacy_end size name text count = if leb size (length name) then none else elim (atoi text) [
  | none ↦ none
  | some v ↦ some (record { success = true; name = some name; value = some v }, count + 1)
]

abbrev parser_end : ℕ → List ℕ → List ℕ → Outcome
parser_end size name text =
    if leb size (length name)
    then record { success = false; name = written size name; value = none }
    else record { success = true; name = written size name; value = some (pinned_value text) }

rest_agrees :
    (size : ℕ) (name text : List ℕ) (count : ℕ) (r : Outcome) (c : ℕ)
    → legacy_end size name text count ≡ some (r, c)
    → parser_end size name text ≡ r
rest_agrees size name text count r c h = elim (Option-cases (atoi text)) [
  | inl n ↦ ground (arith, h, n)
  | inr (v, p) ↦ ground (arith, h, p, pinned-atoi text v p, written_whole size name)
]

-- If the call of legacy.c neither writes out of bounds nor reads a number that does not fit, then
-- `parse_record` of parser.c has the same result, and writes the same to the outputs.
pub parse_record-legacy :
    (size : ℕ) (line : List ℕ) (count : ℕ) (r : Outcome) (c : ℕ)
    → legacy size line count ≡ some (r, c)
    → parse_record (some line) true size ≡ r
unfolding legacy parse_record
parse_record-legacy size line count r c h = elim (Option-cases (split_equals line)) [
  | inl n ↦ ground (arith, h, n, split-skip_space line)
  | inr ((before, behind), p) ↦ ground (
    arith,
    h,
    p,
    split-skip_space line,
    rest_agrees size (trim_trailing (skip_space before)) (skip_space behind) count r c,
  )
]
