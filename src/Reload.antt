-- ===== src/Reload.antt =====
-- The reload of a configuration in week44_collaborative_development_and_code_review/config.c. What the
-- system answers is an argument, and so is `parse_long`, which the header declares and the repository
-- does not define for this program.
pub mod Transaction
mod Tests
use programming_with_c.Base.{
  ℕ, zero, suc, ◌+◌, ◌-◌, ◌%◌, ◌^◌, Bool, true, false, not, ◌&&◌, ◌||◌, List, [], ◌∷◌, ◌++◌, Option,
  none, some, ltb, ◌==◌, if◌then◌else◌, length, take,
}
use programming_with_c.Base.Int.{ℤ, pos, negsuc, ltb_ℤ}
use programming_with_c.Base.Text.{newline, c_string}
use programming_with_c.Base.Strtol.{is_space}
use programming_with_c.Base.Streams.{Stream}
use programming_with_c.HashMap.{str_eq}

pub record Config : Type 0 where
  pub timeout : ℤ
  pub name : List ℕ

abbrev pub config_max : ℕ
config_max = 8191

abbrev pub is_empty : List ℕ → Bool
is_empty [] = true
is_empty (_ ∷ _) = false

-- `%ns`: white space is skipped, then at most `n` other characters are read.
pub skip_spaces : List ℕ → List ℕ
skip_spaces [] = []
skip_spaces (c ∷ s) = let rest = skip_spaces s in if is_space c then rest else c ∷ s

pub read_word : ℕ → List ℕ → List ℕ × List ℕ
read_word zero s = ([], s)
read_word (suc n) [] = ([], [])
read_word (suc n) (c ∷ s) =
    let (word, rest) = read_word n s in if is_space c then ([], c ∷ s) else (c ∷ word, rest)

-- `sscanf (line, "%31s = %63s", key, value)`; `none` if the result is not 2.
pub scan_pair : List ℕ → Option (List ℕ × List ℕ)
unfolding skip_spaces read_word
scan_pair line =
    let (key, behind) = read_word 31 (skip_spaces line) in
    elim (skip_spaces behind) [
      | [] ↦ none
      | c ∷ rest ↦
          let value : List ℕ = (read_word 63 (skip_spaces rest)).0 in
          if not (is_empty key) && (c == b'=' && not (is_empty value))
          then some (key, value)
          else none
    ]

-- The tokens of `strtok_r` between newlines: no empty ones. `word` is what was read of the current one.
pub tokens : List ℕ → List ℕ → List (List ℕ)
tokens word [] = if is_empty word then [] else word ∷ []
tokens word (c ∷ s) =
    let next = tokens [] s in
    let longer = tokens (word ++ (c ∷ [])) s in
    if not (c == newline) then longer else if is_empty word then next else word ∷ next

-- `(int)v` keeps the low 32 bits.
abbrev pub to_int : ℤ → ℤ
to_int v =
    let u : ℕ = elim v [ pos n ↦ n % 2 ^ 32 | negsuc n ↦ 2 ^ 32 - 1 - n % 2 ^ 32 ] in
    if ltb u (2 ^ 31) then pos u else negsuc (2 ^ 32 - 1 - u)

-- "timeout" and "name"
abbrev pub timeout_key : List ℕ
timeout_key = b't' ∷ b'i' ∷ b'm' ∷ b'e' ∷ b'o' ∷ b'u' ∷ b't' ∷ []

abbrev pub name_key : List ℕ
name_key = b'n' ∷ b'a' ∷ b'm' ∷ b'e' ∷ []

-- What the system answers: the file if it can be opened, and the two allocations.
pub record System : Type 0 where
  pub file : Option Stream
  pub buffer : Bool
  pub fresh : Bool

-- The blocks and the file that a call acquires and gives back, the last event in front; `old` is the
-- configuration that was installed.
pub data Event : Type 0 where
  opens closes takes_buffer frees_buffer takes_fresh frees_fresh frees_old : Event

-- Whether the result is 0 and not -1, the configuration that is installed (`none` for NULL), and the events.
pub record Outcome : Type 0 where
  pub success : Bool
  pub installed : Option Config
  pub events : List Event

-- `fread` stops at `config_max` bytes, before an error that comes later.
abbrev pub read_failed : Stream → Bool
read_failed s = s.broken && ltb (length s.bytes) config_max

-- `free (old)` in front of the events so far; of NULL it does nothing.
abbrev pub free_old : Option Config → List Event → List Event
free_old none events = events
free_old (some _) events = Event.frees_old ∷ events

module _ (parse_long : List ℕ → Option ℤ) where
  -- One line; `none` is the jump to `cleanup`. `name` has room for every value.
  pub apply_line : List ℕ → Config → Option Config
  unfolding scan_pair
  apply_line line fresh = elim (scan_pair line) [
    | none ↦ some fresh
    | some (key, value) ↦
        if str_eq key timeout_key
        then elim (parse_long value) [
          | none ↦ none
          | some v ↦ if ltb_ℤ v (pos 0) then none else some (record fresh { timeout = to_int v })
        ]
        else if str_eq key name_key
        then some (record fresh { name = value })
        else some fresh
  ]

  pub apply_lines : List (List ℕ) → Config → Option Config
  unfolding apply_line
  apply_lines [] fresh = some fresh
  apply_lines (line ∷ lines) fresh = elim (apply_line line fresh) [
    | none ↦ none
    | some fresh' ↦ apply_lines lines fresh'
  ]

  -- The fields that `calloc` leaves.
  abbrev pub blank : Config
  blank = record { timeout = pos 0; name = [] }

  unfoldable pub parse_file : Stream → Option Config
  unfolding tokens apply_lines
  parse_file s = apply_lines (tokens [] (c_string (take config_max s.bytes))) blank

  pub config_reload : System → Option Config → Outcome
  config_reload w old = elim w.file [
    | none ↦ record { success = false; installed = old; events = [] }
    | some s ↦
        if not w.buffer
        then record { success = false; installed = old; events = Event.closes ∷ (Event.opens ∷ []) }
        else (let acquired = Event.takes_buffer ∷ (Event.opens ∷ []) in
            if read_failed s || not w.fresh
            then record {
              success = false;
              installed = old;
              events = Event.closes ∷ (Event.frees_buffer ∷ acquired);
            }
            else elim (parse_file s) [
              | none ↦ record {
                success = false;
                installed = old;
                events =
                    Event.closes
                    ∷ (Event.frees_buffer ∷ (Event.frees_fresh ∷ (Event.takes_fresh ∷ acquired)));
              }
              | some fresh ↦ record {
                success = true;
                installed = some fresh;
                events =
                    Event.closes
                    ∷ (Event.frees_buffer ∷ free_old old (Event.takes_fresh ∷ acquired));
              }
            ])
  ]
