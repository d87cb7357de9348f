-- ===== src/Interrupts/Bytes.antt =====
-- What the receive ring of interrupts.c holds, and what the handlers and `rx_get` do to it.
use programming_with_c.Base.{
  ℕ, zero, suc, ◌+◌, ◌-◌, ◌%◌, ◌^◌, ◌<◌, ◌≡◌, ◌≢◌, refl, sym, ap, ◌∙◌, true, false, List, [], ◌∷◌,
  ◌++◌, arith, ltb, ◌==◌, if◌then◌else◌, length, length-append, take, map, get_or, set, length-set,
  get_or-set_self, get_or-set_ne, inl, inr, Bool-cases,
}
use mathlib.Core.List.{append_assoc, append-nil}
use programming_with_c.Interrupts.{Shared, rx_size, after, receive, drain, uart0_handler}

-- The `n` bytes from index `i` on, going round.
abbrev pub bytes_from : List ℕ → ℕ → ℕ → List ℕ
bytes_from buf i zero = []
bytes_from buf i (suc n) = get_or buf i 0 ∷ bytes_from buf (after i) n

abbrev pub used : Shared → ℕ
used s = (s.rx_head + rx_size - s.rx_tail) % rx_size

-- The bytes that `main` has not got yet, in the order in which they arrived.
abbrev pub waiting : Shared → List ℕ
waiting s = bytes_from s.rx_buf s.rx_tail (used s)

pub record IsRing (s : Shared) : Type 0 where
  pub storage : length s.rx_buf ≡ rx_size
  pub head_in : s.rx_head < rx_size
  pub tail_in : s.rx_tail < rx_size

length-bytes_from : (buf : List ℕ) (i n : ℕ) → length (bytes_from buf i n) ≡ n
length-bytes_from buf i zero = refl
length-bytes_from buf i (suc n) = ap suc (length-bytes_from buf (after i) n)

bytes_from-set :
    (buf : List ℕ) (v n i h : ℕ)
    → length buf ≡ rx_size
    → i < rx_size
    → n < rx_size
    → h ≡ (i + n) % rx_size
    → bytes_from (set buf h v) i (suc n) ≡ bytes_from buf i n ++ (v ∷ [])
bytes_from-set buf v zero i h s hi hn e =
    let e' : h ≡ i = omega arith in rw (e', get_or-set_self buf i v 0 (omega arith))
bytes_from-set buf v (suc n) i h s hi hn e = rw (get_or-set_ne buf h i v 0 (omega arith)) (
    ap (λ xs. get_or buf i 0 ∷ xs)
      (bytes_from-set buf v n (after i) h s (omega arith) (omega arith) (omega arith)))

pub waiting_pos :
    (buf : List ℕ) (i n : ℕ)
    → n ≢ 0
    → bytes_from buf i n ≡ get_or buf i 0 ∷ bytes_from buf (after i) (n - 1)
waiting_pos buf i zero h = absurd (h refl)
waiting_pos buf i (suc n) h = ap (λ k. bytes_from buf i (suc k)) (omega arith)

pub length-waiting : {s : Shared} → IsRing s → length (waiting s) < rx_size
length-waiting {s} w =
    omega (arith, length-bytes_from s.rx_buf s.rx_tail (used s), w.head_in, w.tail_in)

abbrev pub low_byte : ℕ → ℕ
low_byte dr = dr % 2 ^ 8

-- One byte that arrives.
pub record Received (s t : Shared) (dr : ℕ) : Type 0 where
  pub is_ring : IsRing t
  pub bytes :
      waiting t
      ≡ (if ltb (length (waiting s)) 63 then waiting s ++ (low_byte dr ∷ []) else waiting s)
  pub losses :
      t.rx_dropped
      ≡ (if ltb (length (waiting s)) 63 then s.rx_dropped else (s.rx_dropped + 1) % 2 ^ 32)

pub receive-Received : (s : Shared) (dr : ℕ) → IsRing s → Received s (receive s dr) dr
unfolding receive
receive-Received s dr w = elim (Bool-cases (after s.rx_head == s.rx_tail)) [
  | inl t ↦ rw t (record {
    is_ring = record { storage = w.storage; head_in = w.head_in; tail_in = w.tail_in };
    bytes = ground (arith, t, size, w.head_in, w.tail_in);
    losses = ground (arith, t, size, w.head_in, w.tail_in);
  })
  | inr f ↦ rw f (record {
    is_ring = record {
      storage = omega (arith, w.storage, length-set s.rx_buf s.rx_head (low_byte dr));
      head_in = omega arith;
      tail_in = w.tail_in;
    };
    bytes =
        ap (bytes_from (set s.rx_buf s.rx_head (low_byte dr)) s.rx_tail) (one_more f)
        ∙ bytes_from-set s.rx_buf (low_byte dr) (used s) s.rx_tail s.rx_head w.storage w.tail_in
            (omega arith) (omega (arith, w.head_in, w.tail_in))
        ∙ fits f;
    losses = ground (arith, f, size, w.head_in, w.tail_in);
  })
]
  where
    size : length (waiting s) ≡ used s
    size = length-bytes_from s.rx_buf s.rx_tail (used s)

    one_more :
        (after s.rx_head == s.rx_tail) ≡ false
        → (after s.rx_head + rx_size - s.rx_tail) % rx_size ≡ suc (used s)
    one_more f = ground (arith, f, w.head_in, w.tail_in)

    fits :
        (after s.rx_head == s.rx_tail) ≡ false
        → waiting s ++ (low_byte dr ∷ [])
          ≡ (if ltb (length (waiting s)) 63 then waiting s ++ (low_byte dr ∷ []) else waiting s)
    fits f = ground (arith, f, size, w.head_in, w.tail_in)

-- What the loop of the handler does with all that the FIFO delivers: it keeps what fits in front.
abbrev pub accepted : Shared → List ℕ → List ℕ
accepted s fifo = take (63 - length (waiting s)) (map low_byte fifo)

pub drain-IsRing : (s : Shared) (fifo : List ℕ) → IsRing s → IsRing (drain s fifo)
unfolding drain
drain-IsRing s [] w = w
drain-IsRing s (dr ∷ fifo) w = drain-IsRing (receive s dr) fifo (receive-Received s dr w).is_ring

take_nil : (n : ℕ) → take {A = ℕ} n [] ≡ []
take_nil zero = refl
take_nil (suc n) = refl

take_none : (n : ℕ) (xs : List ℕ) → n ≡ 0 → take n xs ≡ []
take_none zero xs h = refl
take_none (suc n) xs h = absurd (omega (arith, h))

take_next : (n m b : ℕ) (xs : List ℕ) → n ≡ suc m → take n (b ∷ xs) ≡ b ∷ take m xs
take_next zero m b xs h = absurd (omega (arith, h))
take_next (suc n) m b xs h = ap (λ k. b ∷ take k xs) (omega (arith, h))

-- If one byte was kept or lost, the others are kept as far as they fit behind it.
take_one :
    (xs ys rest : List ℕ) (b : ℕ)
    → ys ≡ (if ltb (length xs) 63 then xs ++ (b ∷ []) else xs)
    → ys ++ take (63 - length ys) rest ≡ xs ++ take (63 - length xs) (b ∷ rest)
take_one xs ys rest b e = elim (Bool-cases (ltb (length xs) 63)) [
  | inl t ↦ rw (kept t) (
      append_assoc xs (b ∷ []) (take (63 - length (xs ++ (b ∷ []))) rest)
      ∙ ap (λ zs. xs ++ zs)
          (sym (
            take_next (63 - length xs) (63 - length (xs ++ (b ∷ []))) b rest
              (ground (arith, t, length-append xs (b ∷ []))))))
  | inr f ↦ rw (lost f) (
      ap (λ zs. xs ++ zs)
        (take_none (63 - length xs) rest (ground (arith, f))
          ∙ sym (take_none (63 - length xs) (b ∷ rest) (ground (arith, f)))))
]
  where
    kept : ltb (length xs) 63 ≡ true → ys ≡ xs ++ (b ∷ [])
    kept t = e ∙ rw t refl

    lost : ltb (length xs) 63 ≡ false → ys ≡ xs
    lost f = e ∙ rw f refl

pub waiting-drain :
    (s : Shared) (fifo : List ℕ) → IsRing s → waiting (drain s fifo) ≡ waiting s ++ accepted s fifo
unfolding drain
waiting-drain s [] w =
    sym (append-nil (waiting s))
    ∙ ap (λ zs. waiting s ++ zs) (sym (take_nil (63 - length (waiting s))))
waiting-drain s (dr ∷ fifo) w =
    let r = receive-Received s dr w in
    waiting-drain (receive s dr) fifo r.is_ring
    ∙ take_one (waiting s) (waiting (receive s dr)) (map low_byte fifo) (low_byte dr) r.bytes

-- The losses are counted: those bytes of the FIFO that do not fit, modulo 2 ^ 32.
pub dropped-drain :
    (s : Shared) (fifo : List ℕ)
    → IsRing s
    → s.rx_dropped < 2 ^ 32
    → (drain s fifo).rx_dropped
      ≡ (s.rx_dropped + (length fifo - (63 - length (waiting s)))) % 2 ^ 32
unfolding drain
dropped-drain s [] w l = omega (arith, l)
dropped-drain s (dr ∷ fifo) w l =
    let r = receive-Received s dr w in
    dropped-drain (receive s dr) fifo r.is_ring (ground (arith, r.losses, l))
    ∙ ground (
      arith,
      r.losses,
      l,
      ap length r.bytes,
      length-append (waiting s) (low_byte dr ∷ []),
      length-waiting w,
    )

-- The handler appends to the ring those bytes of the FIFO that fit, in order and cut to eight bits,
-- counts each other byte as dropped (modulo 2 ^ 32), and withdraws the request, if the indices of
-- the ring are in bounds.
pub uart0_handler_lem :
    (s : Shared) (fifo : List ℕ)
    → IsRing s
    → s.rx_dropped < 2 ^ 32
    → (waiting (uart0_handler s fifo) ≡ waiting s ++ accepted s fifo)
      × ((uart0_handler s fifo).rx_dropped
          ≡ (s.rx_dropped + (length fifo - (63 - length (waiting s)))) % 2 ^ 32)
      × ((uart0_handler s fifo).pending ≡ false)
unfolding uart0_handler
uart0_handler_lem s fifo w l =
    (waiting-drain entered fifo entered-IsRing, dropped-drain entered fifo entered-IsRing l, refl)
  where
    entered : Shared
    entered = record s { isr_entries = (s.isr_entries + 1) % 2 ^ 32 }

    entered-IsRing : IsRing entered
    entered-IsRing = record { storage = w.storage; head_in = w.head_in; tail_in = w.tail_in }
