-- ===== src/Base/Strtol.antt =====
-- `strtol` and `atoi` of the C library, in base 10 and the "C" locale. A string is the list of the
-- bytes before its terminator.
use Prim.Native.Nat.{ℕ, zero, suc, ◌+◌, ◌-◌, ◌*◌}
use mathlib.Core.Bool.{Bool, true, false, ◌&&◌, ◌||◌, not}
use mathlib.Core.List.{List, [], ◌∷◌}
use mathlib.Core.Option.{Option, none, some}
use programming_with_c.Base.Tests.{leb, ◌==◌, if◌then◌else◌}
use programming_with_c.Base.Int.{ℤ, pos, negsuc, ltb_ℤ}

abbrev pub is_space : ℕ → Bool
is_space c = c == 32 || (leb 9 c && leb c 13)

abbrev pub is_digit : ℕ → Bool
is_digit c = leb 48 c && leb c 57

unfoldable pub drop_space : List ℕ → List ℕ
drop_space [] = []
drop_space (c ∷ s) = let rest = drop_space s in if is_space c then rest else c ∷ s

-- The value of the digits at the front, behind a value that was read already, and what follows.
unfoldable pub read_digits : ℕ → List ℕ → ℕ × List ℕ
read_digits value [] = (value, [])
read_digits value (c ∷ s) =
    let more = read_digits (value * 10 + (c - 48)) s in if is_digit c then more else (value, c ∷ s)

abbrev pub starts_digit : List ℕ → Bool
starts_digit [] = false
starts_digit (c ∷ s) = is_digit c

-- What follows an optional sign, and whether it was a minus.
abbrev pub read_sign : List ℕ → Bool × List ℕ
read_sign [] = (false, [])
read_sign (c ∷ s) =
    if c == b'-' then (true, s) else if c == b'+' then (false, s) else (false, c ∷ s)

abbrev pub signed : Bool → ℕ → ℤ
signed false n = pos n
signed true zero = pos 0
signed true (suc n) = negsuc n

abbrev pub long_max : ℕ
long_max = 9_223_372_036_854_775_807

-- The value, what `end` points to, whether there was a number at all (`end != text`), and whether
-- the number does not fit a `long` (`errno == ERANGE`).
pub record Number : Type 0 where
  pub value : ℤ
  pub end : List ℕ
  pub found : Bool
  pub erange : Bool

-- Whether a value of this sign fits.
abbrev pub fits_long : Bool → ℕ → Bool
fits_long minus n = if minus then leb n (long_max + 1) else leb n long_max

unfoldable pub strtol : List ℕ → Number
unfolding drop_space read_digits
strtol text =
    let (minus, s) = read_sign (drop_space text) in
    let (n, end) = read_digits 0 s in
    if starts_digit s
    then record {
      value =
          if fits_long minus n
          then signed minus n
          else signed minus (if minus then long_max + 1 else long_max);
      end = end;
      found = true;
      erange = not (fits_long minus n);
    }
    else record { value = pos 0; end = text; found = false; erange = false }

abbrev pub int_max : ℤ
int_max = pos 2_147_483_647

abbrev pub int_min : ℤ
int_min = negsuc 2_147_483_647

-- `value >= INT_MIN && value <= INT_MAX`
abbrev pub fits_int : ℤ → Bool
fits_int v = not (ltb_ℤ v int_min) && not (ltb_ℤ int_max v)

-- `atoi` has no defined result for a number that does not fit an `int`: `none`.
unfoldable pub atoi : List ℕ → Option ℤ
unfolding strtol
atoi text =
    let n = strtol text in
    if n.erange then none else if fits_int n.value then some n.value else none
