-- ===== src/Doubling/Doubled.antt =====
-- What `double_numbers` (errors.c) writes.
use programming_with_c.Base.{
  ℕ, zero, suc, ◌+◌, ◌<◌, ◌≡◌, refl, sym, ap, ◌∙◌, true, false, not, ◌&&◌, List, [], ◌∷◌, ◌++◌,
  Option, none, some, length, take_all, All, arith, Option-cases, inl, inr,
}
use mathlib.Core.List.{append_assoc, append-nil}
use programming_with_c.Base.Text.{newline, c_string}
use programming_with_c.Base.Streams.{
  fgets, take_line, reaches_end, skip_line, has_newline, before_newline,
}
use programming_with_c.Base.Lines.{
  lines, NoZero, lines-first, c_string-NoZero, take_line-NoZero, skip_line-NoZero,
  before_newline-take_line, rest_after_line, short_line, length-skip_line,
}
use programming_with_c.Doubling.{
  FcStatus, State, Ending, Content, doubled, print_long, write, parse_line, after_line,
  double_lines, System, Event, Outcome, cleanup, double_numbers,
}

-- What is written for the lines: nothing for an empty one, twice the number otherwise. `none`: a
-- line is no number, or twice the number does not fit.
abbrev pub text_of : Content → Option (List ℕ)
text_of Content.rubbish = none
text_of Content.blank = some []
text_of (Content.number v) = elim (doubled v) [
  | none ↦ none
  | some twice ↦ some (print_long twice ++ (newline ∷ []))
]

abbrev pub twice_all : List (List ℕ) → Option (List ℕ)
twice_all [] = some []
twice_all (l ∷ ls) = elim (text_of (parse_line l)) [
  | none ↦ none
  | some text ↦ elim (twice_all ls) [ none ↦ none | some more ↦ some (text ++ more) ]
]

-- The end of a round on a line that is fine.
after_fine_line :
    (again : State → Ending × State) (s : State) (x : Content) (text : List ℕ)
    → text_of x ≡ some text
    → s.writes ≡ []
    → after_line again s x ≡ again (record s { out = s.out ++ text })
unfolding after_line write
after_fine_line again s Content.rubbish text h w = cc h
after_fine_line again s Content.blank text h w = ground (arith, h, append-nil s.out)
after_fine_line again s (Content.number v) text h w = elim (Option-cases (doubled v)) [
  | inl n ↦ absurd (ground (arith, h, n))
  | inr (twice, p) ↦ ground (arith, h, p, w)
]

abbrev pub AreShort : List (List ℕ) → Type 0
AreShort ls = All (λ l. length l < 255) ls

module _ (c : ℕ) (s : List ℕ) (nz : NoZero (c ∷ s))
    (short : length (before_newline (c ∷ s)) < 255) where
  abbrev stored : List ℕ
  stored = (take_line 255 (c ∷ s)).0

  stored-NoZero : c_string stored ≡ stored
  stored-NoZero = c_string-NoZero stored (take_line-NoZero 255 (c ∷ s) nz)

  whole_line : before_newline (c_string stored) ≡ before_newline (c ∷ s)
  whole_line =
      ap before_newline stored-NoZero
      ∙ before_newline-take_line 255 (c ∷ s)
      ∙ take_all (before_newline (c ∷ s)) 255 (omega (arith, short))

  not_long : not (has_newline (c_string stored)) && not (reaches_end 255 (c ∷ s)) ≡ false
  not_long = rw stored-NoZero (short_line 255 (c ∷ s) short)

  rest : (take_line 255 (c ∷ s)).1 ≡ skip_line (c ∷ s)
  rest = rw (short_line 255 (c ∷ s) short) at (rest_after_line 255 (c ∷ s))

  double_lines-fine :
      (fuel : ℕ) (st : State)
      → double_lines (suc fuel) (record { bytes = c ∷ s; broken = false }) st
        ≡ after_line
            (double_lines fuel (record { bytes = skip_line (c ∷ s); broken = false }))
            (record st { lines = st.lines + 1 })
            (parse_line (before_newline (c ∷ s)))
  unfolding double_lines fgets
  double_lines-fine fuel st = rw (not_long, whole_line, rest) refl

-- What a loop on fine lines leaves.
finished : State → ℕ → List ℕ → Ending × State
finished st n text =
    (Ending.no_line false, record st { out = st.out ++ text; lines = st.lines + n })

finished-append :
    (st : State) (first more : List ℕ) (n : ℕ)
    → finished (record st { out = st.out ++ first; lines = st.lines + 1 }) n more
      ≡ finished st (suc n) (first ++ more)
unfolding finished
finished-append st first more n = rw (append_assoc st.out first more) (ground arith)

double_lines-finished :
    (fuel : ℕ) (s : List ℕ) (st : State) (text : List ℕ)
    → NoZero s
    → AreShort (lines s)
    → twice_all (lines s) ≡ some text
    → st.writes ≡ []
    → length s < fuel
    → double_lines fuel (record { bytes = s; broken = false }) st
      ≡ finished st (length (lines s)) text
unfolding finished
double_lines-finished zero s st text nz short h w l = absurd (omega (arith, l))
double_lines-finished (suc fuel) [] st text nz short h w l =
    unfold double_lines fgets in ground (arith, h, append-nil st.out)
double_lines-finished (suc fuel) (c ∷ s) st text nz short h w l =
    elim (Option-cases (text_of (parse_line (before_newline (c ∷ s))))) [
      | inl n ↦ absurd (ground (arith, parsed, n))
      | inr (first, p) ↦ elim (Option-cases (twice_all (lines (skip_line (c ∷ s))))) [
        | inl n ↦ absurd (ground (arith, parsed, p, n))
        | inr (more, q) ↦
            double_lines-fine c s nz fits.0 fuel st
            ∙ after_fine_line
                (double_lines fuel (record { bytes = skip_line (c ∷ s); broken = false }))
                (record st { lines = st.lines + 1 }) (parse_line (before_newline (c ∷ s))) first p w
            ∙ double_lines-finished fuel (skip_line (c ∷ s))
                (record st { out = st.out ++ first; lines = st.lines + 1 }) more
                (skip_line-NoZero (c ∷ s) nz) fits.1 q w (omega (arith, l, length-skip_line c s))
            ∙ finished-append st first more (length (lines (skip_line (c ∷ s))))
            ∙ ap (λ k. finished st k (first ++ more)) (sym (ap length (lines-first c s)))
            ∙ ap (finished st (length (lines (c ∷ s)))) (same_text first more p q)
      ]
    ]
  where
    fits : AreShort (before_newline (c ∷ s) ∷ lines (skip_line (c ∷ s)))
    fits = rw (lines-first c s) at short

    parsed : twice_all (before_newline (c ∷ s) ∷ lines (skip_line (c ∷ s))) ≡ some text
    parsed = rw (lines-first c s) at h

    same_text :
        (first more : List ℕ)
        → text_of (parse_line (before_newline (c ∷ s))) ≡ some first
        → twice_all (lines (skip_line (c ∷ s))) ≡ some more
        → first ++ more ≡ text
    same_text first more p q = ground (arith, parsed, p, q)

-- On an input without zero bytes and read errors, whose lines are shorter than 255 bytes and are
-- empty or numbers of which the double fits a `long`, if nothing fails: the doubled numbers are written
-- in order, one to a line, all lines are counted, the empty ones too, and the result is success.
pub double_numbers-twice_all :
    (w : System) (s text : List ℕ)
    → w.input ≡ some (record { bytes = s; broken = false })
    → w.output ≡ true
    → w.memory ≡ true
    → w.writes ≡ []
    → w.closes ≡ true
    → NoZero s
    → AreShort (lines s)
    → twice_all (lines s) ≡ some text
    → (o : Outcome) × (double_numbers w ≡ some o)
      × (o.status ≡ FcStatus.ok)
      × (o.lines_out ≡ some (length (lines s)))
      × (o.out ≡ text)
unfolding double_numbers
double_numbers-twice_all w s text i o m ws cl nz short h = (
  cleanup w.closes true true true reached,
  ground (arith, i, o, m, ran),
  ground (arith, cl),
  refl,
  refl,
)
  where
    reached : Outcome
    reached = record {
      status = FcStatus.ok;
      lines_out = some (length (lines s));
      out = text;
      events = Event.allocates ∷ (Event.opens_output ∷ (Event.opens_input ∷ []));
    }

    begun : State
    begun = record { out = []; lines = 0; writes = w.writes }

    ran :
        double_lines (suc (length s)) (record { bytes = s; broken = false }) begun
        ≡ (Ending.no_line false, record begun { out = text; lines = length (lines s) })
    ran =
        double_lines-finished (suc (length s)) s begun text nz short h ws (omega arith)
        ∙ unfold finished in ground arith
