-- ===== src/EventServer/Connection/Framing.antt =====
-- How evserver.c cuts the stream into lines.
use programming_with_c.Base.{
  ℕ, ◌+◌, ◌≤◌, ◌≡◌, ◌≢◌, inl, inr, refl, sym, ap, ◌∙◌, true, false, List, [], ◌∷◌, ◌++◌, ◌==◌,
  length, arith, length-append, Bool-cases, All,
}
use mathlib.Core.List.{append-nil, append_assoc}
use mathlib.Core.Path.{subst}
use programming_with_c.Base.Text.{newline, mem_eq}
use programming_with_c.EventServer.Connection.{
  Connection, buf_size, conn_queue, answer_line, process_lines, keep_leftover, process_input, quit,
  bye,
}

abbrev pub counted : Connection → Connection
counted c = record c { lines = c.lines + 1 }

abbrev pub told_bye : Connection → Connection
told_bye c = record (conn_queue (counted c) bye 4) { closing = true }

process_plain :
    (c : Connection) (line : List ℕ) (b : ℕ) (rest : List ℕ)
    → b ≢ newline
    → process_lines c line (b ∷ rest) ≡ process_lines c (line ++ (b ∷ [])) rest
unfolding process_lines
process_plain c line b rest h = ground arith

process_quit :
    (c : Connection) (line : List ℕ) (b : ℕ) (rest : List ℕ)
    → b ≡ newline
    → mem_eq line quit ≡ true
    → process_lines c line (b ∷ rest) ≡ (told_bye c, line ++ (b ∷ rest))
unfolding process_lines
process_quit c line b rest h q = ground (arith, q)

process_line :
    (c : Connection) (line : List ℕ) (b : ℕ) (rest : List ℕ)
    → b ≡ newline
    → mem_eq line quit ≡ false
    → process_lines c line (b ∷ rest) ≡ process_lines (answer_line (counted c) line) [] rest
unfolding process_lines
process_line c line b rest h q = ground (arith, q)

-- What every answer keeps, the loop keeps.
pub process_lines-keeps {ℓ} :
    (P : Connection → Type ℓ)
    → ((c : Connection) (line : List ℕ) → P c → P (answer_line (counted c) line))
    → ((c : Connection) → P c → P (told_bye c))
    → (c : Connection) (line rest : List ℕ) → P c
    → P (process_lines c line rest).0
process_lines-keeps P answers quits c line [] h = unfold process_lines in h
process_lines-keeps P answers quits c line (b ∷ rest) h = elim (Bool-cases (b == newline)) [
  | inr f ↦
      rw (process_plain c line b rest (ground arith))
        (process_lines-keeps P answers quits c (line ++ (b ∷ [])) rest h)
  | inl t ↦ elim (Bool-cases (mem_eq line quit)) [
    | inl q ↦ rw (process_quit c line b rest (ground arith) q) (quits c h)
    | inr q ↦ rw (process_line c line b rest (ground arith) q) (
        process_lines-keeps P answers quits (answer_line (counted c) line) [] rest
          (answers c line h))
  ]
]

-- The bytes that are left are some of those that were there.
pub length-process_lines :
    (c : Connection) (line rest : List ℕ)
    → length (process_lines c line rest).1 ≤ length line + length rest
length-process_lines c line [] = unfold process_lines in omega arith
length-process_lines c line (b ∷ rest) = elim (Bool-cases (b == newline)) [
  | inr f ↦
      rw (process_plain c line b rest (ground arith))
        (omega (arith, length-process_lines c (line ++ (b ∷ [])) rest, length-append line (b ∷ [])))
  | inl t ↦ elim (Bool-cases (mem_eq line quit)) [
    | inl q ↦
        rw (process_quit c line b rest (ground arith) q)
          (omega (arith, length-append line (b ∷ rest)))
    | inr q ↦
        rw (process_line c line b rest (ground arith) q)
          (omega (arith, length-process_lines (answer_line (counted c) line) [] rest))
  ]
]

-- Bytes without a line end only make the line longer.
process_word :
    (c : Connection) (line word rest : List ℕ)
    → All (λ b. b ≢ newline) word
    → process_lines c line (word ++ rest) ≡ process_lines c (line ++ word) rest
process_word c line [] rest a = ap (λ l. process_lines c l rest) (sym (append-nil line))
process_word c line (b ∷ word) rest a =
    process_plain c line b (word ++ rest) a.0
    ∙ process_word c (line ++ (b ∷ [])) word rest a.1
    ∙ ap (λ l. process_lines c l rest) (append_assoc line (b ∷ []) word)

-- The bytes that are left have no line end in them, unless the loop met "quit".
All-snoc :
    (line : List ℕ) (b : ℕ)
    → All (λ x. x ≢ newline) line
    → b ≢ newline
    → All (λ x. x ≢ newline) (line ++ (b ∷ []))
All-snoc [] b a h = (h, tt)
All-snoc (x ∷ line) b a h = (a.0, All-snoc line b a.1 h)

not-All :
    (line : List ℕ) (b : ℕ) (rest : List ℕ)
    → b ≡ newline
    → ¬ All (λ x. x ≢ newline) (line ++ (b ∷ rest))
not-All [] b rest e a = a.0 e
not-All (x ∷ line) b rest e a = not-All line b rest e a.1

-- More input goes on where the loop ended, if it did not end at "quit".
process_more :
    (c : Connection) (line xs ys : List ℕ)
    → All (λ b. b ≢ newline) (process_lines c line xs).1
    → process_lines c line (xs ++ ys)
      ≡ process_lines (process_lines c line xs).0 (process_lines c line xs).1 ys
process_more c line [] ys a = unfold process_lines in refl
process_more c line (b ∷ xs) ys a = elim (Bool-cases (b == newline)) [
  | inr f ↦
      let step = process_plain c line b xs (ground arith) in
      process_plain c line b (xs ++ ys) (ground arith)
      ∙ process_more c (line ++ (b ∷ [])) xs ys (subst (λ r. All (λ d. d ≢ newline) r.1) step a)
      ∙ ap (λ r. process_lines r.0 r.1 ys) (sym step)
  | inl t ↦ elim (Bool-cases (mem_eq line quit)) [
    | inl q ↦ absurd (
        not-All line b xs (ground arith)
          (subst (λ r. All (λ d. d ≢ newline) r.1) (process_quit c line b xs (ground arith) q) a))
    | inr q ↦
        let step = process_line c line b xs (ground arith) q in
        process_line c line b (xs ++ ys) (ground arith) q
        ∙ process_more (answer_line (counted c) line) [] xs ys
            (subst (λ r. All (λ d. d ≢ newline) r.1) step a)
        ∙ ap (λ r. process_lines r.0 r.1 ys) (sym step)
  ]
]

abbrev pub holding : List ℕ → Connection → Connection
holding xs c = record c { input = xs }

-- Answers do not read the input.
answer_holding :
    (c : Connection) (line xs : List ℕ)
    → answer_line (counted (holding xs c)) line ≡ holding xs (answer_line (counted c) line)
unfolding answer_line conn_queue
answer_holding c line xs = ground arith

bye_holding : (c : Connection) (xs : List ℕ) → told_bye (holding xs c) ≡ holding xs (told_bye c)
unfolding conn_queue
bye_holding c xs = ground arith

process_holding :
    (c : Connection) (line rest xs : List ℕ)
    → process_lines (holding xs c) line rest
      ≡ (holding xs (process_lines c line rest).0, (process_lines c line rest).1)
process_holding c line [] xs = unfold process_lines in refl
process_holding c line (b ∷ rest) xs = elim (Bool-cases (b == newline)) [
  | inr f ↦
      process_plain (holding xs c) line b rest (ground arith)
      ∙ process_holding c (line ++ (b ∷ [])) rest xs
      ∙ held (sym (process_plain c line b rest (ground arith)))
  | inl t ↦ elim (Bool-cases (mem_eq line quit)) [
    | inl q ↦
        process_quit (holding xs c) line b rest (ground arith) q
        ∙ ap (λ d. (d, line ++ (b ∷ rest))) (bye_holding c xs)
        ∙ held (sym (process_quit c line b rest (ground arith) q))
    | inr q ↦
        process_line (holding xs c) line b rest (ground arith) q
        ∙ ap (λ d. process_lines d [] rest) (answer_holding c line xs)
        ∙ process_holding (answer_line (counted c) line) [] rest xs
        ∙ held (sym (process_line c line b rest (ground arith) q))
  ]
]
  where
    moved : Connection × List ℕ → Connection × List ℕ
    moved r = (holding xs r.0, r.1)

    held : {r s : Connection × List ℕ} → r ≡ s → moved r ≡ moved s
    held e = ap moved e

input_lem :
    (c : Connection)
    → length (process_lines c [] c.input).1 ≢ buf_size
    → process_input c ≡ holding (process_lines c [] c.input).1 (process_lines c [] c.input).0
unfolding process_input keep_leftover
input_lem c h = ground arith

-- It does not matter how the stream is cut into pieces: the connection that results from the bytes
-- at hand and then more bytes is the one that results from all of them together, as long as the
-- first bytes neither contain the line "quit" nor leave a full buffer behind.
pub process_input-append :
    (c : Connection) (ys : List ℕ)
    → All (λ b. b ≢ newline) (process_lines c [] c.input).1
    → length (process_lines c [] c.input).1 ≢ buf_size
    → process_input (holding ((process_input c).input ++ ys) (process_input c))
      ≡ process_input (holding (c.input ++ ys) c)
process_input-append c ys a h =
    ap (λ d. process_input (holding (d.input ++ ys) d)) (input_lem c h)
    ∙ at_once (left ++ ys) first
    ∙ ap keep_leftover (process_word first [] left ys a ∙ sym (process_more c [] c.input ys a))
    ∙ sym (at_once (c.input ++ ys) c)
  where
    first : Connection
    first = (process_lines c [] c.input).0

    left : List ℕ
    left = (process_lines c [] c.input).1

    at_once :
        (xs : List ℕ) (d : Connection)
        → process_input (holding xs d) ≡ keep_leftover (process_lines d [] xs)
    at_once xs d =
        unfold process_input keep_leftover in ap keep_leftover (process_holding d [] xs xs)
