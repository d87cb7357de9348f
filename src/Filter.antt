-- ===== src/Filter.antt =====
-- The filter of week31_command_line_interfaces_and_the_environment/filter.c. What the system
-- supplies is an argument: the environment, what `getopt` makes of the command line, the files, and
-- whether the writes succeed.
pub mod Stage
pub mod Layers
use programming_with_c.Base.{
  ℕ, zero, suc, ◌+◌, Bool, true, false, not, ◌&&◌, ◌||◌, List, [], ◌∷◌, ◌++◌, Option, none, some,
  ◌==◌, if◌then◌else◌, length,
}
use programming_with_c.Base.Int.{ℤ, pos, ltb_ℤ}
use programming_with_c.Base.Text.{newline}
use programming_with_c.Base.Strtol.{Number, strtol}
use programming_with_c.Base.Streams.{Stream}

pub record Config : Type 0 where
  pub verbose : Bool
  pub maximum : ℤ
  pub output_path : Option (List ℕ)
  pub prefix : List ℕ

-- What is printed by the way: to `stderr`, but for the help that is asked for and the version.
pub data Message : Type 0 where
  bad_environment : List ℕ → Message
  bad_count : List ℕ → Message
  help_shown version_shown usage_shown : Message
  no_argument unknown_option : ℕ → Message
  config_shown : Config → Message
  cannot_open too_long read_error : List ℕ → Message
  write_error close_error : Message
  lines_read : List ℕ → ℕ → Message

pub parse_long : List ℕ → Option ℤ
parse_long [] = none
parse_long (c ∷ s) =
    let n = strtol (c ∷ s) in
    elim n.end [ [] ↦ if not n.found || n.erange then none else some n.value | _ ∷ _ ↦ none ]

pub config_defaults : Config
config_defaults = record { verbose = false; maximum = pos 0; output_path = none; prefix = [] }

-- A count: a number that is not negative.
abbrev pub parse_count : List ℕ → Option ℤ
parse_count text = elim (parse_long text) [
  | none ↦ none
  | some value ↦ if ltb_ℤ value (pos 0) then none else some value
]

-- The values of FILTER_PREFIX and FILTER_MAX; the text of a count that is not valid is returned.
pub config_from_env : Option (List ℕ) → Option (List ℕ) → Config → Option (List ℕ) × Config
unfolding parse_long
config_from_env prefix max_text c =
    let c' : Config = elim prefix [ none ↦ c | some p ↦ record c { prefix = p } ] in
    elim max_text [
      | none ↦ (none, c')
      | some text ↦ elim (parse_count text) [
        | none ↦ (some text, c')
        | some value ↦ (none, record c' { maximum = value })
      ]
    ]

-- One result of `getopt`, with `optarg` and `optopt`.
pub record Parsed : Type 0 where
  pub opt : ℕ
  pub optarg : List ℕ
  pub optopt : ℕ

abbrev pub exit_success : ℕ
exit_success = 0

abbrev pub exit_failure : ℕ
exit_failure = 1

abbrev pub exit_usage : ℕ
exit_usage = 2

-- How the options end: with a configuration, or with an exit status and what is printed.
pub data Choice : Type 0 where
  go_on : Config → Choice
  stop : ℕ → List Message → Choice

-- One round of the switch.
pub apply_option : Parsed → Config → Choice
unfolding parse_long
apply_option p c =
    if p.opt == b'v'
    then go_on (record c { verbose = true })
    else if p.opt == b'n'
    then elim (parse_count p.optarg) [
      | none ↦ stop exit_usage (bad_count p.optarg ∷ [])
      | some value ↦ go_on (record c { maximum = value })
    ]
    else if p.opt == b'o'
    then go_on (record c { output_path = some p.optarg })
    else if p.opt == b'p'
    then go_on (record c { prefix = p.optarg })
    else if p.opt == b'h'
    then stop exit_success (help_shown ∷ [])
    else if p.opt == b'V'
    then stop exit_success (version_shown ∷ [])
    else if p.opt == b':'
    then stop exit_usage (no_argument p.optopt ∷ (usage_shown ∷ []))
    else stop exit_usage (unknown_option p.optopt ∷ (usage_shown ∷ []))

pub apply_options : List Parsed → Config → Choice
unfolding apply_option
apply_options [] c = go_on c
apply_options (p ∷ ps) c = elim (apply_option p c) [
  | go_on c' ↦ apply_options ps c'
  | stop status messages ↦ stop status messages
]
