-- ===== src/Doubling.antt =====
-- The function with four resources of week27_error_handling_strategies/errors.c. What the system
-- answers is an argument; what is opened, allocated, closed and freed is a list of events, the last one
-- in front.
pub mod Reading
pub mod Resources
pub mod Doubled
mod Tests
use Prim.Native.String.{String}
use programming_with_c.Base.{
  ℕ, zero, suc, ◌+◌, Bool, true, false, not, ◌&&◌, ◌||◌, List, [], ◌∷◌, ◌++◌, Option, none, some,
  ◌==◌, if◌then◌else◌, length,
}
use programming_with_c.Base.Int.{ℤ, pos, negsuc, ◌*ℤ◌, ltb_ℤ}
use programming_with_c.Base.Text.{newline, c_string, decimal}
use programming_with_c.Base.Strtol.{Number, strtol, long_max}
use programming_with_c.Base.Streams.{Stream, Line, fgets, has_newline, before_newline}

-- FC_OK and so on.
pub data FcStatus : Type 0 where
  ok errno bad_format too_long no_memory : FcStatus

pub fc_status_name : FcStatus → String
fc_status_name FcStatus.ok = "ok"
fc_status_name FcStatus.errno = "system error"
fc_status_name FcStatus.bad_format = "malformed input"
fc_status_name FcStatus.too_long = "line too long"
fc_status_name FcStatus.no_memory = "out of memory"

-- `%ld`
abbrev pub print_long : ℤ → List ℕ
print_long (pos n) = decimal 18 n
print_long (negsuc n) = b'-' ∷ decimal 18 (suc n)

-- `value * 2`, which has no value if it does not fit a `long`.
abbrev pub fits_long : ℤ → Bool
fits_long v = not (ltb_ℤ v (negsuc long_max)) && not (ltb_ℤ (pos long_max) v)

abbrev pub doubled : ℤ → Option ℤ
doubled v = if fits_long (v *ℤ pos 2) then some (v *ℤ pos 2) else none

-- The loop: the text that was written, the lines that were read, and the results of the writes to
-- come; behind the end of the list they succeed.
pub record State : Type 0 where
  pub out : List ℕ
  pub lines : ℕ
  pub writes : List Bool

-- How it ends. `undefined`: a product does not fit.
pub data Ending : Type 0 where
  no_line : Bool → Ending
  stopped : FcStatus → Ending
  undefined out_of_fuel : Ending

pub write : List ℕ → State → Bool × State
write text s = elim s.writes [
  | [] ↦ (true, record s { out = s.out ++ text })
  | good ∷ more ↦
      if good
      then (true, record s { out = s.out ++ text; writes = more })
      else (false, record s { writes = more })
]

-- What a line is: no number, an empty line, or a number.
pub data Content : Type 0 where
  rubbish blank : Content
  number : ℤ → Content

pub parse_line : List ℕ → Content
parse_line [] = Content.blank
parse_line (c ∷ s) =
    let n = strtol (c ∷ s) in
    elim n.end [
      | [] ↦ if not n.found || n.erange then Content.rubbish else Content.number n.value
      | _ ∷ _ ↦ Content.rubbish
    ]

-- The end of a round, with the rounds that follow as a function of the state.
pub after_line : (State → Ending × State) → State → Content → Ending × State
unfolding write ◌*ℤ◌
after_line again s Content.rubbish = (Ending.stopped FcStatus.bad_format, s)
after_line again s Content.blank = again s
after_line again s (Content.number value) = elim (doubled value) [
  | none ↦ (Ending.undefined, s)
  | some twice ↦
      let (good, s') = write (print_long twice ++ (newline ∷ [])) s in
      if good then again s' else (Ending.stopped FcStatus.errno, s')
]

-- The loop of `double_numbers`, on fuel of one round more than there are bytes.
pub double_lines : ℕ → Stream → State → Ending × State
unfolding parse_line after_line
double_lines zero input s = (Ending.out_of_fuel, s)
double_lines (suc fuel) input s = elim (fgets 255 input) [
  | none ↦ (Ending.no_line input.broken, s)
  | some line ↦
      let s' : State = record s { lines = s.lines + 1 } in
      let go_on =
        after_line (double_lines fuel line.rest) s'
          (parse_line (before_newline (c_string line.text))) in
      if not (has_newline (c_string line.text)) && not line.at_end
      then (Ending.stopped FcStatus.too_long, s')
      else go_on
]

-- What the system answers in one call: the input if it can be opened, whether the output can, the
-- memory, the writes, and closing the output.
pub record System : Type 0 where
  pub input : Option Stream
  pub output : Bool
  pub memory : Bool
  pub writes : List Bool
  pub closes : Bool

pub data Event : Type 0 where
  opens_input opens_output allocates frees closes_output closes_input : Event

-- The result, `*lines_out` if it was written, the output, and the events.
pub record Outcome : Type 0 where
  pub status : FcStatus
  pub lines_out : Option ℕ
  pub out : List ℕ
  pub events : List Event

-- Everything from the label `cleanup` on; `free (NULL)` and what was not opened leave no event.
pub cleanup : Bool → Bool → Bool → Bool → Outcome → Outcome
cleanup closes has_input has_output has_buffer o =
    let freed = if has_buffer then Event.frees ∷ o.events else o.events in
    let closed = if has_output then Event.closes_output ∷ freed else freed in
    record o {
      status = elim o.status [
        | FcStatus.ok ↦ if has_output && not closes then FcStatus.errno else FcStatus.ok
        | other ↦ other
      ];
      events = if has_input then Event.closes_input ∷ closed else closed;
    }

-- What the loop leaves: the status and, on success, the number of lines.
abbrev pub settle : Ending × State → List Event → Option Outcome
settle (Ending.no_line true, s) events =
    some (record { status = FcStatus.errno; lines_out = none; out = s.out; events = events })
settle (Ending.no_line false, s) events =
    some (record { status = FcStatus.ok; lines_out = some s.lines; out = s.out; events = events })
settle (Ending.stopped status, s) events =
    some (record { status = status; lines_out = none; out = s.out; events = events })
settle (Ending.undefined, s) events = none
settle (Ending.out_of_fuel, s) events = none

-- Nothing was read yet.
abbrev pub failed : FcStatus → List Event → Outcome
failed status events = record { status = status; lines_out = none; out = []; events = events }

-- `none`: a product that does not fit a `long` was computed.
pub double_numbers : System → Option Outcome
unfolding double_lines cleanup
double_numbers w = elim w.input [
  | none ↦ some (cleanup w.closes false false false (failed FcStatus.errno []))
  | some s ↦
      if not w.output
      then some (cleanup w.closes true false false (failed FcStatus.errno (Event.opens_input ∷ [])))
      else if not w.memory
      then some (
          cleanup w.closes true true false
            (failed FcStatus.no_memory (Event.opens_output ∷ (Event.opens_input ∷ []))))
      else elim (settle
          (double_lines (suc (length s.bytes)) s
            (record { out = []; lines = 0; writes = w.writes }))
          (Event.allocates ∷ (Event.opens_output ∷ (Event.opens_input ∷ [])))) [
            | none ↦ none
            | some o ↦ some (cleanup w.closes true true true o)
          ]
]
