-- ===== src/Uart/Tests.antt =====
-- A line on a device that is busy at times, and an instance of what is proved.
use programming_with_c.Base.{ℕ, ◌≡◌, refl, true, false, List, [], ◌∷◌, none, some, arith}
use programming_with_c.Uart.{
  Access, uart_init, uart_puts, uart_getc, uart_flush, writes_ctl, writes_ibrd, writes_fbrd,
  writes_lcrh, reads_lcrh, reads_fr, reads_dr, writes_dr, fr_txff, fr_rxfe,
}
use programming_with_c.Uart.Polite.{written, is_polite, crlf, uart_puts-crlf}

-- "a", newline
abbrev line : List ℕ
line = b'a' ∷ 10 ∷ []

abbrev flags : List ℕ
flags = fr_txff ∷ 0 ∷ 0 ∷ fr_txff ∷ 8 ∷ []

polls :
    uart_puts line flags
    ≡ some (
      reads_fr 32
          ∷ (reads_fr 0
              ∷ (writes_dr b'a'
                  ∷ (reads_fr 0
                      ∷ (writes_dr 13 ∷ (reads_fr 32 ∷ (reads_fr 8 ∷ (writes_dr 10 ∷ []))))))),
      [],
    )
unfolding uart_puts
polls = refl

-- The other bits of LCRH are kept, the word length and the FIFO bit are set.
sets_up :
    uart_init 0x8f
    ≡ writes_ctl 0
      ∷ (writes_ibrd 10
          ∷ (writes_fbrd 54 ∷ (reads_lcrh 0x8f ∷ (writes_lcrh 0xff ∷ (writes_ctl 769 ∷ [])))))
unfolding uart_init
sets_up = refl

receives : uart_getc 0 0x141 ≡ (some b'A', reads_fr 0 ∷ (reads_dr 0x141 ∷ []))
unfolding uart_getc
receives = refl

-- DR is not read when nothing is waiting.
nothing_waiting : uart_getc fr_rxfe 0x141 ≡ (none, reads_fr 16 ∷ [])
unfolding uart_getc
nothing_waiting = refl

flushes : uart_flush (8 ∷ 40 ∷ 0 ∷ []) ≡ some (reads_fr 8 ∷ (reads_fr 40 ∷ (reads_fr 0 ∷ [])), [])
unfolding uart_flush
flushes = refl

uart_puts-crlf_example :
    (accesses : List Access) × (rest : List ℕ) × (uart_puts line flags ≡ some (accesses, rest))
    × (written accesses ≡ crlf line)
    × (is_polite false accesses ≡ true)
uart_puts-crlf_example = uart_puts-crlf line flags (omega arith)
