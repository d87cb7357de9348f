-- ===== src/Interrupts/Runs.antt =====
-- `main` in `rx_get` and the handlers of interrupts.c, interleaved in every way that the processor
-- allows: a handler comes between any two of the steps of `rx_get`.
use programming_with_c.Base.{
  ℕ, zero, suc, ◌+◌, ◌%◌, ◌^◌, ◌<◌, ◌≤◌, ◌≡◌, refl, sym, ap, ◌∙◌, false, List, [], ◌∷◌, ◌++◌, arith,
  ◌==◌, length, get_or, inl, inr, Bool-cases,
}
use mathlib.Core.List.{append_assoc}
use mathlib.Core.Path.{subst}
use programming_with_c.Interrupts.{
  Shared, rx_size, after, reset, systick_handler, uart0_handler, drain, Reader, outside, not_empty,
  loaded, rx_test, rx_load, rx_store,
}
use programming_with_c.Interrupts.Bytes.{
  IsRing, bytes_from, waiting, used, accepted, drain-IsRing, waiting-drain, waiting_pos,
  length-waiting,
}

-- `Run s r ins outs`: `ins` are the bytes for which the handler found room, `outs` those that
-- `rx_get` has handed to `main`, in the order of the steps.
pub data Run : Shared → Reader → List ℕ → List ℕ → Type 0 where
  start : (buf : List ℕ) → length buf ≡ rx_size → Run (reset buf) outside [] []
  ticks :
      {s : Shared} {r : Reader} {ins outs : List ℕ}
      → Run s r ins outs
      → Run (systick_handler s) r ins outs
  interrupts :
      {s : Shared} {r : Reader} {ins outs : List ℕ} (fifo : List ℕ)
      → Run s r ins outs
      → Run (uart0_handler s fifo) r (ins ++ accepted s fifo) outs
  tests : {s : Shared} {ins outs : List ℕ} → Run s outside ins outs → Run s (rx_test s) ins outs
  loads : {s : Shared} {ins outs : List ℕ} → Run s not_empty ins outs → Run s (rx_load s) ins outs
  stores :
      {s : Shared} {ins outs : List ℕ} {byte : ℕ}
      → Run s (loaded byte) ins outs
      → Run (rx_store s) outside ins (outs ++ (byte ∷ []))

-- What `main` knows at each point of `rx_get`.
abbrev pub Knows : Reader → List ℕ → Type 0
Knows outside bytes = Unit
Knows not_empty bytes = 0 < length bytes
Knows (loaded byte) bytes = (rest : List ℕ) × (bytes ≡ byte ∷ rest)

pub record InOrder (s : Shared) (r : Reader) (ins outs : List ℕ) : Type 0 where
  pub is_ring : IsRing s
  pub knows : Knows r (waiting s)
  pub history : ins ≡ outs ++ waiting s

Knows-append : (r : Reader) (xs ys : List ℕ) → Knows r xs → Knows r (xs ++ ys)
Knows-append outside xs ys k = k
Knows-append not_empty [] ys k = absurd (omega (arith, k))
Knows-append not_empty (x ∷ xs) ys k = omega arith
Knows-append (loaded byte) xs ys (rest, e) = (rest ++ ys, ap (λ zs. zs ++ ys) e)

reset-InOrder : (buf : List ℕ) → length buf ≡ rx_size → InOrder (reset buf) outside [] []
unfolding reset
reset-InOrder buf h = record {
  is_ring = record { storage = h; head_in = omega arith; tail_in = omega arith };
  knows = tt;
  history = refl;
}

ticks-InOrder :
    {s : Shared} {r : Reader} {ins outs : List ℕ}
    → InOrder s r ins outs
    → InOrder (systick_handler s) r ins outs
unfolding systick_handler
ticks-InOrder c = record {
  is_ring = record {
    storage = c.is_ring.storage;
    head_in = c.is_ring.head_in;
    tail_in = c.is_ring.tail_in;
  };
  knows = c.knows;
  history = c.history;
}

interrupts-InOrder :
    {s : Shared} {r : Reader} {ins outs : List ℕ} (fifo : List ℕ)
    → InOrder s r ins outs
    → InOrder (uart0_handler s fifo) r (ins ++ accepted s fifo) outs
unfolding uart0_handler
interrupts-InOrder {s} {r} {ins} {outs} fifo c = record {
  is_ring = record { storage = ring.storage; head_in = ring.head_in; tail_in = ring.tail_in };
  knows = subst (Knows r) (sym grows) (Knows-append r (waiting s) (accepted s fifo) c.knows);
  history =
      ap (λ zs. zs ++ accepted s fifo) c.history
      ∙ append_assoc outs (waiting s) (accepted s fifo)
      ∙ ap (λ zs. outs ++ zs) (sym grows);
}
  where
    entered : Shared
    entered = record s { isr_entries = (s.isr_entries + 1) % 2 ^ 32 }

    entered-IsRing : IsRing entered
    entered-IsRing = record {
      storage = c.is_ring.storage;
      head_in = c.is_ring.head_in;
      tail_in = c.is_ring.tail_in;
    }

    ring : IsRing (drain entered fifo)
    ring = drain-IsRing entered fifo entered-IsRing

    grows : waiting (drain entered fifo) ≡ waiting s ++ accepted s fifo
    grows = waiting-drain entered fifo entered-IsRing

tests-InOrder :
    {s : Shared} {ins outs : List ℕ} → InOrder s outside ins outs → InOrder s (rx_test s) ins outs
unfolding rx_test
tests-InOrder {s} c = record {
  is_ring = c.is_ring;
  knows = elim (Bool-cases (s.rx_tail == s.rx_head)) [ inl t ↦ rw t tt | inr f ↦ rw f (ahead f) ];
  history = c.history;
}
  where
    ahead : (s.rx_tail == s.rx_head) ≡ false → 0 < length (waiting s)
    ahead f =
        rw
          (waiting_pos s.rx_buf s.rx_tail (used s)
            (λ e. absurd (ground (arith, e, f, c.is_ring.head_in, c.is_ring.tail_in))))
          (omega arith)

abbrev front : Shared → ℕ
front s = get_or s.rx_buf s.rx_tail 0

loads-InOrder :
    {s : Shared} {ins outs : List ℕ} → InOrder s not_empty ins outs → InOrder s (rx_load s) ins outs
unfolding rx_load
loads-InOrder {s} c = record {
  is_ring = c.is_ring;
  knows = first (used s) c.knows;
  history = c.history;
}
  where
    first :
        (n : ℕ)
        → 0 < length (bytes_from s.rx_buf s.rx_tail n)
        → Knows (loaded (front s)) (bytes_from s.rx_buf s.rx_tail n)
    first zero h = absurd (omega (arith, h))
    first (suc n) h = (bytes_from s.rx_buf (after s.rx_tail) n, refl)

stores-InOrder :
    {s : Shared} {ins outs : List ℕ} {byte : ℕ}
    → InOrder s (loaded byte) ins outs
    → InOrder (rx_store s) outside ins (outs ++ (byte ∷ []))
unfolding rx_store
stores-InOrder {s} {ins} {outs} {byte} c = record {
  is_ring = record {
    storage = c.is_ring.storage;
    head_in = c.is_ring.head_in;
    tail_in = omega arith;
  };
  knows = tt;
  history =
      c.history
      ∙ ap (λ zs. outs ++ zs) (popped (used s) refl c.knows)
      ∙ sym (append_assoc outs (byte ∷ []) (waiting (rx_store s)));
}
  where
    popped :
        (n : ℕ)
        → n ≡ used s
        → Knows (loaded byte) (bytes_from s.rx_buf s.rx_tail n)
        → bytes_from s.rx_buf s.rx_tail n ≡ byte ∷ waiting (rx_store s)
    popped zero e (rest, p) = cc p
    popped (suc n) e (rest, p) =
        let same : front s ≡ byte = cc p in
        let fewer : n ≡ used (rx_store s) =
          omega (arith, e, c.is_ring.head_in, c.is_ring.tail_in) in
        rw (same, fewer) refl

-- In every run, the bytes that the handler found room for are those that `rx_get` has handed out,
-- followed by those in the ring; at most 63 are waiting.
pub run-InOrder :
    {s : Shared} {r : Reader} {ins outs : List ℕ}
    → Run s r ins outs
    → (ins ≡ outs ++ waiting s) × (length (waiting s) ≤ 63)
run-InOrder h = let c = keeps h in (c.history, omega (arith, length-waiting c.is_ring))
  where
    keeps : {s : Shared} {r : Reader} {ins outs : List ℕ} → Run s r ins outs → InOrder s r ins outs
    keeps (Run.start buf h) = reset-InOrder buf h
    keeps (Run.ticks h) = ticks-InOrder (keeps h)
    keeps (Run.interrupts fifo h) = interrupts-InOrder fifo (keeps h)
    keeps (Run.tests h) = tests-InOrder (keeps h)
    keeps (Run.loads h) = loads-InOrder (keeps h)
    keeps (Run.stores h) = stores-InOrder (keeps h)
