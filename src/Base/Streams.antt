-- ===== src/Base/Streams.antt =====
-- Reading a `FILE *` of the C library line by line.
use Prim.Native.Nat.{ℕ, zero, suc}
use mathlib.Core.Bool.{Bool, true, false, ◌&&◌, ◌||◌}
use mathlib.Core.List.{List, [], ◌∷◌}
use mathlib.Core.Option.{Option, none, some}
use programming_with_c.Base.Tests.{◌==◌, if◌then◌else◌}
use programming_with_c.Base.Text.{newline}

-- The bytes that are still to come, and whether a read error stands behind them instead of the end.
pub record Stream : Type 0 where
  pub bytes : List ℕ
  pub broken : Bool

-- At most `room` bytes, up to a newline and with it; what is left.
unfoldable pub take_line : ℕ → List ℕ → List ℕ × List ℕ
take_line zero s = ([], s)
take_line (suc room) [] = ([], [])
take_line (suc room) (c ∷ s) =
    let (line, rest) = take_line room s in if c == newline then (c ∷ [], s) else (c ∷ line, rest)

-- Whether this comes upon the end of the bytes.
unfoldable pub reaches_end : ℕ → List ℕ → Bool
reaches_end zero s = false
reaches_end (suc room) [] = true
reaches_end (suc room) (c ∷ s) =
    let below = reaches_end room s in if c == newline then false else below

-- What `fgets` stores, what is left, and `feof` behind the call.
pub record Line : Type 0 where
  pub text : List ℕ
  pub rest : Stream
  pub at_end : Bool

-- `fgets (buffer, room + 1, s)`; `none` is NULL: nothing was read, or a read error occurred.
unfoldable pub fgets : ℕ → Stream → Option Line
unfolding take_line reaches_end
fgets room s = elim s.bytes [
  | [] ↦ none
  | c ∷ cs ↦
      let (line, rest) = take_line room (c ∷ cs) in
      let end = reaches_end room (c ∷ cs) in
      if s.broken && end
      then none
      else some (record { text = line; rest = record s { bytes = rest }; at_end = end })
]

-- `while ((ch = fgetc (s)) != '\n' && ch != EOF) { }`
unfoldable pub skip_line : List ℕ → List ℕ
skip_line [] = []
skip_line (c ∷ s) = let rest = skip_line s in if c == newline then s else rest

-- `strchr (s, '\n') != NULL`, for the bytes before the terminator.
abbrev pub has_newline : List ℕ → Bool
has_newline [] = false
has_newline (c ∷ s) = c == newline || has_newline s

-- What is left when `s[strcspn (s, "\n")] = '\0'` cuts the text.
abbrev pub before_newline : List ℕ → List ℕ
before_newline [] = []
before_newline (c ∷ s) = if c == newline then [] else c ∷ before_newline s
