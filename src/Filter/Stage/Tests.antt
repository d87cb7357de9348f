-- ===== src/Filter/Stage/Tests.antt =====
-- The filter on small inputs, and instances of what is proved.
use programming_with_c.Base.{ℕ, ◌<◌, ◌≡◌, refl, true, false, ◌≢◌, List, [], ◌∷◌, none, some, arith}
use programming_with_c.Base.Int.{pos}
use programming_with_c.Base.Strtol.{strtol}
use programming_with_c.Base.Text.{c_string}
use programming_with_c.Base.Lines.{NoZero}
use programming_with_c.Base.Streams.{fgets, skip_line}
use programming_with_c.Filter.{Config, Parsed, config_defaults, go_on, apply_options}
use programming_with_c.Filter.Layers.{Layered, apply_options-Layered}
use programming_with_c.Filter.Stage.Copied.{process_stream_lem}
use programming_with_c.Filter.Stage.{World, nothing_yet, filter_main, process_stream}

-- "a", "b" and a third line without an end
abbrev input : List ℕ
input = b'a' ∷ 10 ∷ b'b' ∷ 10 ∷ b'c' ∷ []

abbrev world : World
world = record {
  readable = λ _. none;
  writable = λ _. true;
  stdin = record { bytes = input; broken = false };
  closes = true;
}

-- FILTER_PREFIX is ">", and the options are "-n 2".
two_lines :
    (filter_main world
      (some (b'>' ∷ []))
      none
      (record { opt = b'n'; optarg = b'2' ∷ []; optopt = 0 } ∷ [])
      []
      []).copy.out
    ≡ b'>' ∷ b'a' ∷ 10 ∷ b'>' ∷ b'b' ∷ 10 ∷ []
unfolding filter_main strtol fgets skip_line c_string
two_lines = refl

-- A zero byte in a line: the line behind it is lost, and the message is about a line too long.
zero_byte :
    (process_stream config_defaults []
      (record { bytes = 0 ∷ 10 ∷ b'b' ∷ 10 ∷ b'c' ∷ 10 ∷ []; broken = false })
      (nothing_yet [])).2.out
    ≡ 10 ∷ b'c' ∷ 10 ∷ []
unfolding process_stream config_defaults fgets skip_line c_string
zero_byte = refl

abbrev two_of_all : Config
two_of_all = record { verbose = false; maximum = pos 2; output_path = none; prefix = b'>' ∷ [] }

nonzero : (c : ℕ) → 0 < c → c ≢ 0
nonzero c h e = absurd (omega (arith, h, e))

input-NoZero : NoZero input
input-NoZero = (
  nonzero b'a' (omega arith),
  (
    nonzero 10 (omega arith),
    (nonzero b'b' (omega arith), (nonzero 10 (omega arith), (nonzero b'c' (omega arith), tt))),
  ),
)

process_stream_lem_example :
    (process_stream two_of_all [] (record { bytes = input; broken = false }) (nothing_yet [])).2.out
    ≡ b'>' ∷ b'a' ∷ 10 ∷ b'>' ∷ b'b' ∷ 10 ∷ []
process_stream_lem_example =
    (process_stream_lem two_of_all [] input (nothing_yet []) 2 refl input-NoZero refl).1

-- "-n 1 -p > -n 7"
abbrev three_options : List Parsed
three_options =
    record { opt = b'n'; optarg = b'1' ∷ []; optopt = 0 }
    ∷ (record { opt = b'p'; optarg = b'>' ∷ []; optopt = 0 }
        ∷ (record { opt = b'n'; optarg = b'7' ∷ []; optopt = 0 } ∷ []))

abbrev chosen : Config
chosen = record { verbose = false; maximum = pos 7; output_path = none; prefix = b'>' ∷ [] }

applied : apply_options three_options config_defaults ≡ go_on chosen
unfolding apply_options config_defaults strtol
applied = refl

apply_options-Layered_example : Layered three_options config_defaults chosen
apply_options-Layered_example = apply_options-Layered three_options config_defaults chosen applied
