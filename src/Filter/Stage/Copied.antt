-- ===== src/Filter/Stage/Copied.antt =====
-- What `process_stream` (filter.c) copies.
use programming_with_c.Base.{
  ℕ, zero, suc, ◌+◌, ◌-◌, ◌<◌, ◌≡◌, ◌≢◌, refl, sym, ap, ◌∙◌, true, false, not, ◌&&◌, List, [], ◌∷◌,
  ◌++◌, some, if◌then◌else◌, length, take, arith, Bool-cases, inl, inr,
}
use mathlib.Core.List.{append_assoc, append-nil}
use mathlib.Core.Path.{subst}
use programming_with_c.Base.Int.{pos}
use programming_with_c.Base.Text.{newline, c_string}
use programming_with_c.Base.Streams.{
  Stream, Line, fgets, take_line, reaches_end, skip_line, has_newline, before_newline,
}
use programming_with_c.Base.Lines.{
  lines, NoZero, lines-first, c_string-NoZero, take_line-NoZero, skip_line-NoZero,
  before_newline-take_line, rest_after_line, length-skip_line,
}
use programming_with_c.Filter.{Config}
use programming_with_c.Filter.Stage.{
  Copy, finish_stream, emit, limit_reached, Ending, Loop, shorten, copy_lines, process_stream,
}

-- The lines that the limit lets through, of which `emitted` are out already.
abbrev pub let_through : ℕ → ℕ → List (List ℕ) → List (List ℕ)
let_through zero emitted ls = ls
let_through (suc limit) emitted ls = take (suc limit - emitted) ls

-- Every line with the prefix, cut to 511 bytes.
abbrev pub printed : List ℕ → List (List ℕ) → List ℕ
printed prefix [] = []
printed prefix (l ∷ ls) = (prefix ++ (take 511 l ++ (newline ∷ []))) ++ printed prefix ls

-- A stream without a read error, of which all bytes but the last few are read.
module _ (c : ℕ) (s : List ℕ) (nz : NoZero (c ∷ s)) where
  abbrev stored : List ℕ
  stored = (take_line 511 (c ∷ s)).0

  stored-NoZero : c_string stored ≡ stored
  stored-NoZero = c_string-NoZero stored (take_line-NoZero 511 (c ∷ s) nz)

  stored_text : before_newline (c_string stored) ≡ take 511 (before_newline (c ∷ s))
  stored_text = ap before_newline stored-NoZero ∙ before_newline-take_line 511 (c ∷ s)

  abbrev read : Line
  read = record {
    text = stored;
    rest = record { bytes = (take_line 511 (c ∷ s)).1; broken = false };
    at_end = reaches_end 511 (c ∷ s);
  }

  fgets-read : fgets 511 (record { bytes = c ∷ s; broken = false }) ≡ some read
  unfolding fgets
  fgets-read = refl

  shorten_rest :
      (label : List ℕ) (r : Copy)
      → (shorten label read r).0 ≡ record { bytes = skip_line (c ∷ s); broken = false }
  unfolding shorten
  shorten_rest label r =
      elim (Bool-cases (not (has_newline (c_string stored)) && not (reaches_end 511 (c ∷ s)))) [
        | inl t ↦ rw t (ap (λ b. record { bytes = b; broken = false }) (cut_line t))
        | inr f ↦ rw f (ap (λ b. record { bytes = b; broken = false }) (whole_line f))
      ]
    where
      after :
          (if not (has_newline (c_string stored)) && not (reaches_end 511 (c ∷ s))
            then skip_line (take_line 511 (c ∷ s)).1
            else (take_line 511 (c ∷ s)).1)
          ≡ skip_line (c ∷ s)
      after = rw stored-NoZero (rest_after_line 511 (c ∷ s))

      cut_line :
          not (has_newline (c_string stored)) && not (reaches_end 511 (c ∷ s)) ≡ true
          → skip_line (take_line 511 (c ∷ s)).1 ≡ skip_line (c ∷ s)
      cut_line t = rw t at after

      whole_line :
          not (has_newline (c_string stored)) && not (reaches_end 511 (c ∷ s)) ≡ false
          → (take_line 511 (c ∷ s)).1 ≡ skip_line (c ∷ s)
      whole_line f = rw f at after

  shorten_copy :
      (label : List ℕ) (r : Copy)
      → ((shorten label read r).1.out ≡ r.out)
        × ((shorten label read r).1.emitted ≡ r.emitted)
        × ((shorten label read r).1.writes ≡ r.writes)
  unfolding shorten
  shorten_copy label r = ground arith

-- The limit, on a line that is let through and on one that is not.
let_through_none :
    (c : Config) (limit emitted : ℕ) (ls : List (List ℕ))
    → c.maximum ≡ pos limit
    → limit_reached c emitted ≡ true
    → let_through limit emitted ls ≡ []
let_through_none c zero emitted ls e h = absurd (ground (arith, e, h))
let_through_none c (suc limit) emitted ls e h =
    let none_left : suc limit - emitted ≡ 0 = ground (arith, e, h) in rw none_left refl

let_through_next :
    (c : Config) (limit emitted : ℕ) (l : List ℕ) (ls : List (List ℕ))
    → c.maximum ≡ pos limit
    → limit_reached c emitted ≡ false
    → let_through limit emitted (l ∷ ls) ≡ l ∷ let_through limit (emitted + 1) ls
let_through_next c zero emitted l ls e h = refl
let_through_next c (suc limit) emitted l ls e h =
    let some_left : suc limit - emitted ≡ suc (suc limit - (emitted + 1)) = ground (arith, e, h) in
    rw some_left refl

-- What a loop that begins with `r` has copied.
pub record Copied (prefix : List ℕ) (ls : List (List ℕ)) (r : Copy) (l : Loop) : Type 0 where
  pub out : l.copy.out ≡ r.out ++ printed prefix ls
  pub emitted : l.copy.emitted ≡ r.emitted + length ls
  pub no_failure : l.ending ≢ Ending.write_failed
  pub enough_fuel : l.ending ≢ Ending.out_of_fuel
  pub no_error : l.input.broken ≡ false
  pub writes : l.copy.writes ≡ []

emit_ok :
    (text : List ℕ) (r : Copy)
    → r.writes ≡ []
    → emit text r ≡ (true, record r { out = r.out ++ text; emitted = r.emitted + 1 })
unfolding emit
emit_ok text r e = ground (arith, e)

let_through_empty : (limit emitted : ℕ) → let_through limit emitted [] ≡ []
let_through_empty zero emitted = refl
let_through_empty (suc limit) emitted =
    elim (suc limit - emitted) as (λ n. take {A = List ℕ} n [] ≡ []) [ zero ↦ refl | suc n ↦ refl ]

-- A loop that ends at once.
stopped-Copied :
    (prefix : List ℕ) (r : Copy) (ending : Ending) (input : Stream) (count : ℕ)
    → ending ≢ Ending.write_failed
    → ending ≢ Ending.out_of_fuel
    → input.broken ≡ false
    → r.writes ≡ []
    → Copied prefix [] r (record { ending = ending; input = input; count = count; copy = r })
stopped-Copied prefix r ending input count h k b w = record {
  out = sym (append-nil r.out);
  emitted = omega arith;
  no_failure = h;
  enough_fuel = k;
  no_error = b;
  writes = w;
}

-- The copy behind a line that is let through.
abbrev copied : Config → List ℕ → Copy → Copy
copied c text r = record r {
  out = r.out ++ (c.prefix ++ (text ++ (newline ∷ [])));
  emitted = r.emitted + 1;
}

module _ (fuel : ℕ) (c : Config) (label : List ℕ) (b : ℕ) (s : List ℕ) (nz : NoZero (b ∷ s))
    (count : ℕ) (r : Copy) where
  abbrev after_warning : Copy
  after_warning = (shorten label (read b s nz) r).1

  copy_lines_stops :
      limit_reached c r.emitted ≡ true
      → copy_lines (suc fuel) c label (record { bytes = b ∷ s; broken = false }) count r
        ≡ record { ending = Ending.at_limit; input = (read b s nz).rest; count = count; copy = r }
  unfolding copy_lines fgets
  copy_lines_stops t = rw t refl

  copy_lines_goes_on :
      limit_reached c r.emitted ≡ false
      → r.writes ≡ []
      → copy_lines (suc fuel) c label (record { bytes = b ∷ s; broken = false }) count r
        ≡ copy_lines fuel c label
            (record { bytes = skip_line (b ∷ s); broken = false })
            (count + 1)
            (copied c (take 511 (before_newline (b ∷ s))) after_warning)
  unfolding copy_lines fgets
  copy_lines_goes_on f w =
      rw
        (
          f,
          stored_text b s nz,
          emit_ok (c.prefix ++ (take 511 (before_newline (b ∷ s)) ++ (newline ∷ []))) after_warning
              ((shorten_copy b s nz label r).2 ∙ w),
          shorten_rest b s nz label r,
        )
        refl

first_line-Copied :
    (c : Config) (text : List ℕ) (ls : List (List ℕ)) (r r' : Copy) (l : Loop)
    → r'.out ≡ r.out
    → r'.emitted ≡ r.emitted
    → Copied c.prefix ls (copied c (take 511 text) r') l
    → Copied c.prefix (text ∷ ls) r l
first_line-Copied c text ls r r' l o e h = record {
  out =
      h.out
      ∙ ap (λ x. (x ++ (c.prefix ++ (take 511 text ++ (newline ∷ [])))) ++ printed c.prefix ls) o
      ∙ append_assoc r.out (c.prefix ++ (take 511 text ++ (newline ∷ []))) (printed c.prefix ls);
  emitted = omega (arith, h.emitted, e);
  no_failure = h.no_failure;
  enough_fuel = h.enough_fuel;
  no_error = h.no_error;
  writes = h.writes;
}

copy_lines-Copied :
    (fuel : ℕ) (c : Config) (label s : List ℕ) (count : ℕ) (r : Copy) (limit : ℕ)
    → c.maximum ≡ pos limit
    → NoZero s
    → r.writes ≡ []
    → length s < fuel
    → Copied c.prefix
        (let_through limit r.emitted (lines s))
        r
        (copy_lines fuel c label (record { bytes = s; broken = false }) count r)
copy_lines-Copied zero c label s count r limit e nz w h = absurd (omega (arith, h))
copy_lines-Copied (suc fuel) c label [] count r limit e nz w h =
    rw (let_through_empty limit r.emitted) (
      unfold copy_lines fgets in
      stopped-Copied c.prefix r Ending.no_line (record { bytes = []; broken = false }) count (cc)
        (cc) refl w)
copy_lines-Copied (suc fuel) c label (b ∷ s) count r limit e nz w h =
    elim (Bool-cases (limit_reached c r.emitted)) [
      | inl t ↦
          rw
            (
              let_through_none c limit r.emitted (lines (b ∷ s)) e t,
              copy_lines_stops fuel c label b s nz count r t,
            )
            (stopped-Copied c.prefix r Ending.at_limit (read b s nz).rest count (cc) (cc) refl w)
      | inr f ↦
          rw
            (
              lines-first b s,
              let_through_next c limit r.emitted (before_newline (b ∷ s))
                  (lines (skip_line (b ∷ s))) e f,
              copy_lines_goes_on fuel c label b s nz count r f w,
            )
            (first_line-Copied c (before_newline (b ∷ s))
              (let_through limit (r.emitted + 1) (lines (skip_line (b ∷ s)))) r warned
              (copy_lines fuel c label (record { bytes = skip_line (b ∷ s); broken = false })
                (count + 1) next)
              warned_lem.0 warned_lem.1
              (subst
                (λ k. Copied c.prefix (let_through limit (k + 1) (lines (skip_line (b ∷ s)))) next (
                  copy_lines fuel c label (record { bytes = skip_line (b ∷ s); broken = false })
                    (count + 1) next))
                warned_lem.1
                (copy_lines-Copied fuel c label (skip_line (b ∷ s)) (count + 1) next limit e
                  (skip_line-NoZero (b ∷ s) nz) (warned_lem.2 ∙ w)
                  (omega (arith, h, length-skip_line b s)))))
    ]
  where
    warned : Copy
    warned = (shorten label (read b s nz) r).1

    next : Copy
    next = copied c (take 511 (before_newline (b ∷ s))) warned

    warned_lem : (warned.out ≡ r.out) × (warned.emitted ≡ r.emitted) × (warned.writes ≡ r.writes)
    warned_lem = shorten_copy b s nz label r

finish-Copied :
    (c : Config) (label prefix : List ℕ) (ls : List (List ℕ)) (r : Copy) (l : Loop)
    → Copied prefix ls r l
    → ((finish_stream c label l).0 ≡ true)
      × ((finish_stream c label l).2.out ≡ l.copy.out)
      × ((finish_stream c label l).2.emitted ≡ l.copy.emitted)
finish-Copied c label prefix ls r l h = ground (arith, h.no_failure, h.enough_fuel, h.no_error)

-- On an input without zero bytes and read errors, if no write fails, `process_stream` succeeds, and
-- appends the lines that the limit lets through (all of them if it is 0) to the output, in order,
-- each with the prefix and cut to 511 bytes; they are counted.
pub process_stream_lem :
    (c : Config) (label s : List ℕ) (r : Copy) (limit : ℕ)
    → c.maximum ≡ pos limit
    → NoZero s
    → r.writes ≡ []
    → let (ok, rest, r') = process_stream c label (record { bytes = s; broken = false }) r in
      (ok ≡ true)
      × (r'.out ≡ r.out ++ printed c.prefix (let_through limit r.emitted (lines s)))
      × (r'.emitted ≡ r.emitted + length (let_through limit r.emitted (lines s)))
unfolding process_stream
process_stream_lem c label s r limit e nz w =
    let l = copy_lines (suc (length s)) c label (record { bytes = s; broken = false }) 0 r in
    let h = copy_lines-Copied (suc (length s)) c label s 0 r limit e nz w (omega arith) in
    let f = finish-Copied c label c.prefix (let_through limit r.emitted (lines s)) r l h in
    (f.0, f.1 ∙ h.out, f.2 ∙ h.emitted)
