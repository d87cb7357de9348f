-- ===== src/Uart/Polite.antt =====
-- What `uart_puts` sends, and that it never writes to a full FIFO.
use Prim.Native.Nat.{bit_and}
use programming_with_c.Base.{
  ℕ, suc, ◌+◌, ◌≤◌, ◌<◌, ◌≡◌, refl, sym, ap, ◌∙◌, Bool, true, false, ◌&&◌, List, [], ◌∷◌, ◌++◌,
  some, arith, ◌==◌, if◌then◌else◌, length, length-append, Bool-cases, inl, inr,
}
use mathlib.Core.List.{append_assoc, append-nil}
use programming_with_c.Base.Text.{newline}
use programming_with_c.Uart.{
  Access, Run, fr_txff, carriage_return, reads_fr, writes_dr, wait_while, uart_putc, and_then,
  uart_puts,
}

-- The bytes that are written to the data register.
abbrev pub written : List Access → List ℕ
written [] = []
written (writes_dr c ∷ accesses) = c ∷ written accesses
written (_ ∷ accesses) = written accesses

-- Whether each write to the data register directly follows a read of FR that shows room; `ready` says
-- whether such a read has just been made.
abbrev pub is_polite : Bool → List Access → Bool
is_polite ready [] = true
is_polite ready (reads_fr v ∷ accesses) = is_polite (bit_and v fr_txff == 0) accesses
is_polite ready (writes_dr c ∷ accesses) = ready && is_polite false accesses
is_polite ready (_ ∷ accesses) = is_polite false accesses

-- How many of the values of FR show room.
abbrev pub room : List ℕ → ℕ
room [] = 0
room (v ∷ flags) = if bit_and v fr_txff == 0 then suc (room flags) else room flags

-- The text with a carriage return in front of each newline.
abbrev pub crlf : List ℕ → List ℕ
crlf [] = []
crlf (c ∷ s) = if c == newline then carriage_return ∷ (c ∷ crlf s) else c ∷ crlf s

written-append : (xs ys : List Access) → written (xs ++ ys) ≡ written xs ++ written ys
written-append [] ys = refl
written-append (writes_dr c ∷ xs) ys = ap (λ w. c ∷ w) (written-append xs ys)
written-append (Access.writes_ctl _ ∷ xs) ys = written-append xs ys
written-append (Access.writes_ibrd _ ∷ xs) ys = written-append xs ys
written-append (Access.writes_fbrd _ ∷ xs) ys = written-append xs ys
written-append (Access.reads_lcrh _ ∷ xs) ys = written-append xs ys
written-append (Access.writes_lcrh _ ∷ xs) ys = written-append xs ys
written-append (reads_fr _ ∷ xs) ys = written-append xs ys
written-append (Access.reads_dr _ ∷ xs) ys = written-append xs ys

-- A poll that ends: it writes nothing, and room has just been seen.
record Waited (flags : List ℕ) : Type 0 where
  accesses : List Access
  rest : List ℕ
  ends : wait_while fr_txff flags ≡ some (accesses, rest)
  silent : (more : List Access) → written (accesses ++ more) ≡ written more
  polite :
      (ready : Bool) (more : List Access) → is_polite ready (accesses ++ more) ≡ is_polite true more
  used : suc (room rest) ≡ room flags

wait_while-Waited : (flags : List ℕ) → 0 < room flags → Waited flags
unfolding wait_while
wait_while-Waited [] h = absurd (omega (arith, h))
wait_while-Waited (v ∷ flags) h = elim (Bool-cases (bit_and v fr_txff == 0)) [
  | inl t ↦ record {
    accesses = reads_fr v ∷ [];
    rest = flags;
    ends = rw t refl;
    silent = λ more. refl;
    polite = λ ready more. rw (t, is_polite) refl;
    used = rw t refl;
  }
  | inr f ↦ longer f (wait_while-Waited flags (ground (arith, f, h)))
]
  where
    longer : (bit_and v fr_txff == 0) ≡ false → Waited flags → Waited (v ∷ flags)
    longer f w = record {
      accesses = reads_fr v ∷ w.accesses;
      rest = w.rest;
      ends = rw (f, w.ends) refl;
      silent = w.silent;
      polite = λ ready more. w.polite (bit_and v fr_txff == 0) more;
      used = rw f w.used;
    }

-- A run that sends `bytes`, one for each value that shows room, and writes only when there is some.
pub record Sent (bytes flags : List ℕ) (r : Run) : Type 0 where
  pub accesses : List Access
  pub rest : List ℕ
  pub ends : r ≡ some (accesses, rest)
  pub sent : written accesses ≡ bytes
  pub polite : (more : List Access) → is_polite false (accesses ++ more) ≡ is_polite false more
  pub used : length bytes + room rest ≡ room flags

uart_putc-Sent : (c : ℕ) (flags : List ℕ) → 0 < room flags → Sent (c ∷ []) flags (uart_putc c flags)
unfolding uart_putc
uart_putc-Sent c flags h =
    let w = wait_while-Waited flags h in
    record {
      accesses = w.accesses ++ (writes_dr c ∷ []);
      rest = w.rest;
      ends = rw (w.ends, uart_putc) refl;
      sent = w.silent (writes_dr c ∷ []);
      polite = λ more.
          ap (is_polite false) (append_assoc w.accesses (writes_dr c ∷ []) more)
          ∙ w.polite false (writes_dr c ∷ more);
      used = omega (arith, w.used);
    }

and_then-Sent :
    (xs ys flags : List ℕ) (r : Run) (next : List ℕ → Run)
    → Sent xs flags r
    → ((left : List ℕ) → length xs + room left ≡ room flags → Sent ys left (next left))
    → Sent (xs ++ ys) flags (and_then r next)
and_then-Sent xs ys flags r next a f =
    let b = f a.rest a.used in
    record {
      accesses = a.accesses ++ b.accesses;
      rest = b.rest;
      ends = rw (a.ends, and_then) (rw b.ends refl);
      sent = written-append a.accesses b.accesses ∙ rw (a.sent, b.sent) refl;
      polite = λ more.
          ap (is_polite false) (append_assoc a.accesses b.accesses more)
          ∙ (a.polite (b.accesses ++ more) ∙ b.polite more);
      used = omega (arith, length-append xs ys, a.used, b.used);
    }

idle : (flags : List ℕ) → Sent [] flags (some ([], flags))
idle flags = record {
  accesses = [];
  rest = flags;
  ends = refl;
  sent = refl;
  polite = λ more. refl;
  used = omega arith;
}

pub uart_puts-Sent :
    (s flags : List ℕ) → length (crlf s) ≤ room flags → Sent (crlf s) flags (uart_puts s flags)
unfolding uart_puts
uart_puts-Sent [] flags h = idle flags
uart_puts-Sent (c ∷ s) flags h = elim (Bool-cases (c == newline)) [
  | inl t ↦ rw t (
      and_then-Sent (carriage_return ∷ []) (c ∷ crlf s) flags (uart_putc carriage_return flags)
        after (uart_putc-Sent carriage_return flags (ground (arith, t, h)))
        (λ left u. last (uart_puts-Sent s) left (ground (arith, t, h, u))))
  | inr f ↦ rw f (
      and_then-Sent [] (c ∷ crlf s) flags (some ([], flags)) after (idle flags)
        (λ left u. last (uart_puts-Sent s) left (ground (arith, f, h, u))))
]
  where
    after : List ℕ → Run
    after left = and_then (uart_putc c left) (uart_puts s)

    last :
        ((left : List ℕ) → length (crlf s) ≤ room left → Sent (crlf s) left (uart_puts s left))
        → (left : List ℕ) → suc (length (crlf s)) ≤ room left
        → Sent (c ∷ crlf s) left (after left)
    last ih left u =
        and_then-Sent (c ∷ []) (crlf s) left (uart_putc c left) (uart_puts s)
          (uart_putc-Sent c left (omega (arith, u))) (λ left' v. ih left' (omega (arith, u, v)))

-- If FR shows room often enough for the text with its carriage returns, `uart_puts` ends, has written
-- exactly this text, and has made each write directly behind a read of FR that showed room.
pub uart_puts-crlf :
    (s flags : List ℕ)
    → length (crlf s) ≤ room flags
    → (accesses : List Access) × (rest : List ℕ) × (uart_puts s flags ≡ some (accesses, rest))
      × (written accesses ≡ crlf s)
      × (is_polite false accesses ≡ true)
uart_puts-crlf s flags h =
    let r = uart_puts-Sent s flags h in
    (
      r.accesses,
      r.rest,
      r.ends,
      r.sent,
      ap (is_polite false) (sym (append-nil r.accesses)) ∙ r.polite [],
    )
