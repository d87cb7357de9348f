-- ===== src/Doubling/Reading.antt =====
-- How the loop of `double_numbers` (errors.c) ends, whatever it reads.
use programming_with_c.Base.{
  ℕ, zero, suc, ◌+◌, ◌<◌, ◌≡◌, ◌⊎◌, refl, sym, ap, ◌∙◌, Bool, true, false, not, ◌&&◌, List, [], ◌∷◌,
  ◌++◌, none, ◌==◌, length, arith, Bool-cases, Option-cases, inl, inr,
}
use mathlib.Core.Path.{subst}
use programming_with_c.Base.Int.{ℤ}
use programming_with_c.Base.Text.{newline, c_string}
use programming_with_c.Base.Streams.{
  Stream, fgets, take_line, reaches_end, skip_line, has_newline, before_newline,
}
use programming_with_c.Base.Lines.{lines, lines-first, rest_after_line, length-skip_line}
use programming_with_c.Doubling.{
  FcStatus, State, Ending, Content, doubled, print_long, write, parse_line, after_line,
  double_lines,
}

-- A line whose number is read, but has no double in a `long`.
abbrev pub IsLarge : List ℕ → Type 0
IsLarge l = (v : ℤ) × (parse_line (c_string l) ≡ Content.number v) × (doubled v ≡ none)

abbrev pub HasLarge : List (List ℕ) → Type 0
HasLarge [] = ⊥
HasLarge (l ∷ ls) = IsLarge l ⊎ HasLarge ls

-- How the loop may end on these lines, with `n` lines counted before: at the end of the file with all
-- of them counted, with a status that is no success, or at a number that is too large.
abbrev pub Right : ℕ → List (List ℕ) → Ending × State → Type 0
Right n ls (Ending.no_line false, s) = s.lines ≡ n + length ls
Right n ls (Ending.no_line true, s) = Unit {0}
Right n ls (Ending.stopped FcStatus.ok, s) = ⊥
Right n ls (Ending.stopped _, s) = Unit {0}
Right n ls (Ending.undefined, s) = HasLarge ls
Right n ls (Ending.out_of_fuel, s) = ⊥

Right-line :
    (n : ℕ) (l : List ℕ) (ls : List (List ℕ)) (r : Ending × State)
    → Right (n + 1) ls r
    → Right n (l ∷ ls) r
Right-line n l ls (Ending.no_line false, s) h = omega (arith, h)
Right-line n l ls (Ending.no_line true, s) h = tt
Right-line n l ls (Ending.stopped FcStatus.ok, s) h = h
Right-line n l ls (Ending.stopped FcStatus.errno, s) h = tt
Right-line n l ls (Ending.stopped FcStatus.bad_format, s) h = tt
Right-line n l ls (Ending.stopped FcStatus.too_long, s) h = tt
Right-line n l ls (Ending.stopped FcStatus.no_memory, s) h = tt
Right-line n l ls (Ending.undefined, s) h = inr h
Right-line n l ls (Ending.out_of_fuel, s) h = h

write-lines : (text : List ℕ) (s : State) → (write text s).1.lines ≡ s.lines
unfolding write
write-lines text s = ground arith

after_line-Right :
    (again : State → Ending × State) (n : ℕ) (s : State) (l : List ℕ) (ls : List (List ℕ))
    (x : Content)
    → s.lines ≡ n + 1
    → parse_line (c_string l) ≡ x
    → ((t : State) → t.lines ≡ n + 1 → Right n (l ∷ ls) (again t))
    → Right n (l ∷ ls) (after_line again s x)
unfolding after_line
after_line-Right again n s l ls Content.rubbish e p h = tt
after_line-Right again n s l ls Content.blank e p h = h s e
after_line-Right again n s l ls (Content.number v) e p h = elim (Option-cases (doubled v)) [
  | inl d ↦ rw (d, after_line) (inl (v, p, d))
  | inr (twice, d) ↦
      let text = print_long twice ++ (newline ∷ []) in
      elim (Bool-cases (write text s).0) [
        | inl t ↦ rw (d, after_line) (rw t (h (write text s).1 (write-lines text s ∙ e)))
        | inr f ↦ rw (d, after_line) (rw f tt)
      ]
]

newline_before_zero : (s : List ℕ) → has_newline (c_string s) ≡ true → has_newline s ≡ true
unfolding c_string
newline_before_zero [] h = h
newline_before_zero (c ∷ s) h = ground (arith, h, newline_before_zero s)

-- Cutting at the first newline and at the first zero byte commute.
cuts_commute : (s : List ℕ) → before_newline (c_string s) ≡ c_string (before_newline s)
unfolding c_string
cuts_commute [] = refl
cuts_commute (c ∷ s) = ground (arith, cuts_commute s)

-- A line that is read to its newline or to the end of the bytes is read whole.
read_whole :
    (room : ℕ) (s : List ℕ)
    → not (has_newline (take_line room s).0) && not (reaches_end room s) ≡ false
    → before_newline (take_line room s).0 ≡ before_newline s
unfolding take_line reaches_end
read_whole zero s h = cc h
read_whole (suc room) [] h = refl
read_whole (suc room) (c ∷ s) h = elim (Bool-cases (c == newline)) [
  | inl t ↦ rw (t, t) refl
  | inr f ↦ rw (f, f) (ap (λ l. c ∷ l) (read_whole room s (rw (f, f) at h)))
]

-- What the loop does with the bytes `c ∷ s`, behind which there is a read error if `b` is true.
module _ (c : ℕ) (s : List ℕ) (b : Bool) (fuel : ℕ) (st : State) where
  abbrev stored : List ℕ
  stored = (take_line 255 (c ∷ s)).0

  abbrev cut_off : Bool
  cut_off = not (has_newline (c_string stored)) && not (reaches_end 255 (c ∷ s))

  abbrev from : List ℕ → Stream
  from bytes = record { bytes = bytes; broken = b }

  double_lines-none :
      b && reaches_end 255 (c ∷ s) ≡ true
      → double_lines (suc fuel) (from (c ∷ s)) st ≡ (Ending.no_line true, st)
  unfolding double_lines fgets
  double_lines-none t =
      let yes : b ≡ true = ground (arith, t) in rw t (ap (λ x. (Ending.no_line x, st)) yes)

  double_lines-long :
      b && reaches_end 255 (c ∷ s) ≡ false
      → cut_off ≡ true
      → double_lines (suc fuel) (from (c ∷ s)) st
        ≡ (Ending.stopped FcStatus.too_long, record st { lines = st.lines + 1 })
  unfolding double_lines fgets
  double_lines-long f t = rw (f, t) refl

  whole_of_line :
      cut_off ≡ false → not (has_newline stored) && not (reaches_end 255 (c ∷ s)) ≡ false
  whole_of_line f = elim (Bool-cases (has_newline (c_string stored))) [
    | inl t ↦ rw (newline_before_zero stored t) refl
    | inr g ↦ ground (arith, f, g)
  ]

  double_lines-line :
      b && reaches_end 255 (c ∷ s) ≡ false
      → cut_off ≡ false
      → double_lines (suc fuel) (from (c ∷ s)) st
        ≡ after_line
            (double_lines fuel (from (skip_line (c ∷ s))))
            (record st { lines = st.lines + 1 })
            (parse_line (c_string (before_newline (c ∷ s))))
  unfolding double_lines fgets
  double_lines-line f g = rw (f, g, text, rest) refl
    where
      text : before_newline (c_string stored) ≡ c_string (before_newline (c ∷ s))
      text = cuts_commute stored ∙ ap c_string (read_whole 255 (c ∷ s) (whole_of_line g))

      rest : (take_line 255 (c ∷ s)).1 ≡ skip_line (c ∷ s)
      rest = rw (whole_of_line g) at (rest_after_line 255 (c ∷ s))

-- With fuel of one round more than there are bytes, the loop ends, and in one of these ways.
pub double_lines-Right :
    (fuel : ℕ) (s : List ℕ) (b : Bool) (st : State)
    → length s < fuel
    → Right st.lines (lines s) (double_lines fuel (record { bytes = s; broken = b }) st)
unfolding double_lines fgets
double_lines-Right zero s b st h = absurd (omega (arith, h))
double_lines-Right (suc fuel) [] true st h = tt
double_lines-Right (suc fuel) [] false st h = omega arith
double_lines-Right (suc fuel) (c ∷ s) b st h =
    subst
      (λ ls. Right st.lines ls (double_lines (suc fuel) (record { bytes = c ∷ s; broken = b }) st))
      (sym (lines-first c s))
      (elim (Bool-cases (b && reaches_end 255 (c ∷ s))) [
        | inl t ↦ subst (Right st.lines these) (sym (double_lines-none c s b fuel st t)) tt
        | inr f ↦ elim (Bool-cases (cut_off c s b fuel st)) [
          | inl t ↦ subst (Right st.lines these) (sym (double_lines-long c s b fuel st f t)) tt
          | inr g ↦ subst (Right st.lines these) (sym (double_lines-line c s b fuel st f g)) (
              after_line-Right (double_lines fuel rest) st.lines
                (record st { lines = st.lines + 1 }) line (lines (skip_line (c ∷ s)))
                (parse_line (c_string line)) refl refl
                (λ t e.
                  Right-line st.lines line (lines (skip_line (c ∷ s))) (double_lines fuel rest t) (
                    subst (λ n. Right n (lines (skip_line (c ∷ s))) (double_lines fuel rest t)) e
                      (double_lines-Right fuel (skip_line (c ∷ s)) b t
                        (omega (arith, h, length-skip_line c s))))))
        ]
      ])
  where
    line : List ℕ
    line = before_newline (c ∷ s)

    these : List (List ℕ)
    these = line ∷ lines (skip_line (c ∷ s))

    rest : Stream
    rest = record { bytes = skip_line (c ∷ s); broken = b }
