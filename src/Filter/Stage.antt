-- ===== src/Filter/Stage.antt =====
-- The copying of the inputs: `process_stream` of filter.c, and the end of `main`.
pub mod Copied
pub mod Limit
mod Tests
use programming_with_c.Base.{
  ℕ, zero, suc, ◌+◌, Bool, true, false, not, ◌&&◌, ◌||◌, List, [], ◌∷◌, ◌++◌, Option, none, some,
  ◌==◌, if◌then◌else◌, length,
}
use programming_with_c.Base.Int.{ℤ, pos, ltb_ℤ}
use programming_with_c.Base.Text.{newline, c_string}
use programming_with_c.Base.Streams.{Stream, Line, fgets, skip_line, has_newline, before_newline}
use programming_with_c.HashMap.{str_eq}
use programming_with_c.Filter.{
  Config, Message, config_defaults, config_from_env, Parsed, exit_success, exit_failure, exit_usage,
  Choice, go_on, stop, apply_options,
}

-- The output so far, the number of lines in it, what was printed by the way, and the results of the
-- writes to come; behind the end of the list they succeed.
pub record Copy : Type 0 where
  pub out : List ℕ
  pub emitted : ℕ
  pub messages : List Message
  pub writes : List Bool

abbrev pub say : Message → Copy → Copy
say m r = record r { messages = r.messages ++ (m ∷ []) }

-- `fprintf (out, "%s%s\n", prefix, line)`, and the counter behind it.
pub emit : List ℕ → Copy → Bool × Copy
emit text r = elim r.writes [
  | [] ↦ (true, record r { out = r.out ++ text; emitted = r.emitted + 1 })
  | ok ∷ more ↦
      if ok
      then (true, record r { out = r.out ++ text; emitted = r.emitted + 1; writes = more })
      else (false, say Message.write_error (record r { writes = more }))
]

-- `c->maximum > 0 && *emitted >= c->maximum`
abbrev pub limit_reached : Config → ℕ → Bool
limit_reached c emitted = ltb_ℤ (pos 0) c.maximum && not (ltb_ℤ (pos emitted) c.maximum)

-- How the loop ends.
pub data Ending : Type 0 where
  no_line at_limit write_failed out_of_fuel : Ending

pub record Loop : Type 0 where
  pub ending : Ending
  pub input : Stream
  pub count : ℕ
  pub copy : Copy

-- A line that does not fit the buffer: the rest of it is skipped.
pub shorten : List ℕ → Line → Copy → Stream × Copy
shorten label line r =
    if not (has_newline (c_string line.text)) && not line.at_end
    then (record line.rest { bytes = skip_line line.rest.bytes }, say (Message.too_long label) r)
    else (line.rest, r)

-- The loop, on fuel of one round more than there are bytes.
pub copy_lines : ℕ → Config → List ℕ → Stream → ℕ → Copy → Loop
unfolding emit shorten
copy_lines zero c label s count r = record {
  ending = Ending.out_of_fuel;
  input = s;
  count = count;
  copy = r;
}
copy_lines (suc fuel) c label s count r = elim (fgets 511 s) [
  | none ↦ record {
    ending = Ending.no_line;
    input = record s { bytes = [] };
    count = count;
    copy = r;
  }
  | some line ↦
      let (s', r') = shorten label line r in
      let (ok, r'') =
        emit (c.prefix ++ (before_newline (c_string line.text) ++ (newline ∷ []))) r' in
      let again = copy_lines fuel c label s' (count + 1) r'' in
      if limit_reached c r.emitted
      then record { ending = Ending.at_limit; input = line.rest; count = count; copy = r }
      else if ok
      then again
      else record { ending = Ending.write_failed; input = s'; count = count; copy = r'' }
]

-- Behind the loop: `ferror` is set if a read error ended it.
abbrev pub finish_stream : Config → List ℕ → Loop → Bool × Stream × Copy
finish_stream c label l = elim l.ending [
  | Ending.write_failed ↦ (false, l.input, l.copy)
  | Ending.out_of_fuel ↦ (false, l.input, l.copy)
  | Ending.at_limit ↦
      (true, l.input, if c.verbose then say (Message.lines_read label l.count) l.copy else l.copy)
  | Ending.no_line ↦
      if l.input.broken then (false, l.input, say (Message.read_error label) l.copy) else (
        true,
        l.input,
        if c.verbose then say (Message.lines_read label l.count) l.copy else l.copy,
      )
]

pub process_stream : Config → List ℕ → Stream → Copy → Bool × Stream × Copy
unfolding copy_lines
process_stream c label s r = finish_stream c label (copy_lines (suc (length s.bytes)) c label s 0 r)

-- The files that can be opened, standard input, and whether closing the output succeeds.
pub record World : Type 0 where
  pub readable : List ℕ → Option Stream
  pub writable : List ℕ → Bool
  pub stdin : Stream
  pub closes : Bool

-- "-"
abbrev pub dash : List ℕ
dash = b'-' ∷ []

pub record Progress : Type 0 where
  pub status : ℕ
  pub stdin : Stream
  pub copy : Copy

abbrev pub failed_unless : Bool → ℕ → ℕ
failed_unless ok status = if ok then status else exit_failure

abbrev pub from_stdin : Config → Progress → Progress
from_stdin c p =
    let (ok, s, r) = process_stream c dash p.stdin p.copy in
    record { status = failed_unless ok p.status; stdin = s; copy = r }

-- One round of the loop over the operands.
pub process_operand : World → Config → List ℕ → Progress → Progress
unfolding process_stream
process_operand w c path p = if str_eq path dash then from_stdin c p else elim (w.readable path) [
  | none ↦ record p { status = exit_failure; copy = say (Message.cannot_open path) p.copy }
  | some s ↦
      let (ok, _, r) = process_stream c path s p.copy in
      record p { status = failed_unless ok p.status; copy = r }
]

pub process_operands : World → Config → List (List ℕ) → Progress → Progress
unfolding process_operand
process_operands w c [] p = p
process_operands w c (path ∷ paths) p = process_operands w c paths (process_operand w c path p)

-- No operands: standard input is read.
pub process_inputs : World → Config → List (List ℕ) → Progress → Progress
unfolding process_operands process_stream
process_inputs w c [] p = from_stdin c p
process_inputs w c (path ∷ paths) p = process_operands w c (path ∷ paths) p

-- The exit status, and what was written and printed.
pub record Done : Type 0 where
  pub status : ℕ
  pub copy : Copy

pub close_output : World → Config → Progress → Done
close_output w c p = elim c.output_path [
  | none ↦ record { status = p.status; copy = p.copy }
  | some path ↦
      if w.closes
      then record { status = p.status; copy = p.copy }
      else record { status = exit_failure; copy = say Message.close_error p.copy }
]

-- `main` with its configuration.
pub run : World → Config → List (List ℕ) → Copy → Done
unfolding process_inputs close_output
run w c operands r =
    let r' = if c.verbose then say (Message.config_shown c) r else r in
    let p : Progress = record { status = exit_success; stdin = w.stdin; copy = r' } in
    let p' = process_inputs w c operands p in
    elim c.output_path [
      | none ↦ close_output w c p'
      | some path ↦
          if w.writable path
          then close_output w c p'
          else record { status = exit_failure; copy = say (Message.cannot_open path) r' }
    ]

abbrev pub nothing_yet : List Bool → Copy
nothing_yet writes = record { out = []; emitted = 0; messages = []; writes = writes }

-- `main`, with the environment, the options that `getopt` finds, the operands behind them, and the
-- results of the writes.
pub filter_main :
    World → Option (List ℕ) → Option (List ℕ) → List Parsed → List (List ℕ) → List Bool → Done
unfolding config_from_env apply_options run config_defaults
filter_main w prefix max_text options operands writes =
    let (bad, c) = config_from_env prefix max_text config_defaults in
    elim bad [
      | some text ↦ record {
        status = exit_usage;
        copy = say (Message.bad_environment text) (nothing_yet writes);
      }
      | none ↦ elim (apply_options options c) [
        | stop status messages ↦ record {
          status = status;
          copy = record (nothing_yet writes) { messages = messages };
        }
        | go_on c' ↦ run w c' operands (nothing_yet writes)
      ]
    ]
