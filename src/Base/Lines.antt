-- ===== src/Base/Lines.antt =====
-- Reading line by line, against the lines of a text.
use Prim.Native.Nat.{ℕ, zero, suc, ◌<◌, ◌≤◌}
use mathlib.Core.Path.{◌≡◌, refl, ap}
use mathlib.Core.Logic.{◌≢◌, inl, inr}
use mathlib.Core.Bool.{false, ◌&&◌, not}
use mathlib.Core.List.{List, [], ◌∷◌}
use native.Mathlib.Omega.{arith}
use programming_with_c.Base.Tests.{◌==◌, if◌then◌else◌, Bool-cases}
use programming_with_c.Base.Lists.{length, take, All}
use programming_with_c.Base.Text.{newline, c_string}
use programming_with_c.Base.Streams.{take_line, reaches_end, skip_line, has_newline, before_newline}

-- The lines of a text without their newlines; the last may lack one.
abbrev pub first_to : ℕ → List (List ℕ) → List (List ℕ)
first_to c [] = (c ∷ []) ∷ []
first_to c (l ∷ ls) = (c ∷ l) ∷ ls

abbrev pub lines : List ℕ → List (List ℕ)
lines [] = []
lines (c ∷ s) = if c == newline then [] ∷ lines s else first_to c (lines s)

abbrev pub NoZero : List ℕ → Type 0
NoZero s = All (λ c. c ≢ 0) s

pub lines-first :
    (c : ℕ) (s : List ℕ) → lines (c ∷ s) ≡ before_newline (c ∷ s) ∷ lines (skip_line (c ∷ s))
unfolding skip_line
lines-first c [] = ground arith
lines-first c (d ∷ s) = ground (arith, lines-first d s)

pub c_string-NoZero : (s : List ℕ) → NoZero s → c_string s ≡ s
unfolding c_string
c_string-NoZero [] h = refl
c_string-NoZero (c ∷ s) h = ground (arith, h.0, c_string-NoZero s h.1)

pub take_line-NoZero : (room : ℕ) (s : List ℕ) → NoZero s → NoZero (take_line room s).0
unfolding take_line
take_line-NoZero zero s h = tt
take_line-NoZero (suc room) [] h = tt
take_line-NoZero (suc room) (c ∷ s) h = elim (Bool-cases (c == newline)) [
  | inl t ↦ rw t (h.0, tt)
  | inr f ↦ rw f (h.0, take_line-NoZero room s h.1)
]

pub skip_line-NoZero : (s : List ℕ) → NoZero s → NoZero (skip_line s)
unfolding skip_line
skip_line-NoZero [] h = tt
skip_line-NoZero (c ∷ s) h = elim (Bool-cases (c == newline)) [
  | inl t ↦ rw t h.1
  | inr f ↦ rw f (skip_line-NoZero s h.1)
]

-- The text that is read is the line, cut to the room.
pub before_newline-take_line :
    (room : ℕ) (s : List ℕ) → before_newline (take_line room s).0 ≡ take room (before_newline s)
unfolding take_line
before_newline-take_line zero s = refl
before_newline-take_line (suc room) [] = refl
before_newline-take_line (suc room) (c ∷ s) = elim (Bool-cases (c == newline)) [
  | inl t ↦ rw (t, t) refl
  | inr f ↦ rw (f, f) (ap (λ l. c ∷ l) (before_newline-take_line room s))
]

-- After the rest of a line that was cut off is skipped, the next line comes.
pub rest_after_line :
    (room : ℕ) (s : List ℕ)
    → (if not (has_newline (take_line room s).0) && not (reaches_end room s)
        then skip_line (take_line room s).1
        else (take_line room s).1)
      ≡ skip_line s
unfolding take_line reaches_end skip_line
rest_after_line zero s = refl
rest_after_line (suc room) [] = refl
rest_after_line (suc room) (c ∷ s) = elim (Bool-cases (c == newline)) [
  | inl t ↦ rw (t, t) refl
  | inr f ↦ rw (f, f) (rest_after_line room s)
]

pub length-skip_line : (c : ℕ) (s : List ℕ) → length (skip_line (c ∷ s)) ≤ length s
unfolding skip_line
length-skip_line c [] = ground arith
length-skip_line c (d ∷ s) = ground (arith, length-skip_line d s)

pub length-take_line :
    (room c : ℕ) (s : List ℕ) → length (take_line (suc room) (c ∷ s)).1 ≤ length s
unfolding take_line
length-take_line room c s = elim (Bool-cases (c == newline)) [
  | inl t ↦ rw t (omega arith)
  | inr f ↦ rw f (left room s)
]
  where
    left : (n : ℕ) (s : List ℕ) → length (take_line n s).1 ≤ length s
    left zero s = omega arith
    left (suc n) [] = omega arith
    left (suc n) (c ∷ s) = elim (Bool-cases (c == newline)) [
      | inl t ↦ rw t (omega arith)
      | inr f ↦ rw f (omega (arith, left n s))
    ]

-- A line that is shorter than the room is read whole.
pub short_line :
    (room : ℕ) (s : List ℕ)
    → length (before_newline s) < room
    → not (has_newline (take_line room s).0) && not (reaches_end room s) ≡ false
unfolding take_line reaches_end
short_line zero s h = absurd (omega (arith, h))
short_line (suc room) [] h = refl
short_line (suc room) (c ∷ s) h = elim (Bool-cases (c == newline)) [
  | inl t ↦ ground (arith, t)
  | inr f ↦ rw f (rw f (short_line room s (shorter f)))
]
  where
    shorter : (c == newline) ≡ false → length (before_newline s) < room
    shorter f = ground (arith, h, f)
