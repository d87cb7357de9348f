-- ===== src/Uart.antt =====
-- The driver of week50_memory_mapped_i_o_and_hardware_registers/uart.c. What a function does is the list
-- of its accesses to registers. The device is an argument: the values that reading the flag register FR
-- gives, one after the other. A `char` is a byte, so that the casts change nothing.
pub mod Polite
mod Tests
use Prim.Native.Nat.{bit_and, bit_or}
use programming_with_c.Base.{
  ℕ, ◌-◌, ◌^◌, Bool, List, [], ◌∷◌, ◌++◌, Option, none, some, ◌==◌, if◌then◌else◌,
}
use programming_with_c.Base.Text.{newline}

abbrev pub fr_busy : ℕ
fr_busy = 8

abbrev pub fr_rxfe : ℕ
fr_rxfe = 16

abbrev pub fr_txff : ℕ
fr_txff = 32

abbrev pub lcrh_fen : ℕ
lcrh_fen = 16

-- The mask of the word length, and its value for eight bits.
abbrev pub lcrh_wlen_8 : ℕ
lcrh_wlen_8 = 96

-- CTL_UARTEN | CTL_TXE | CTL_RXE
abbrev pub ctl_enable : ℕ
ctl_enable = bit_or (bit_or 1 256) 512

abbrev pub carriage_return : ℕ
carriage_return = 13

pub data Access : Type 0 where
  writes_ctl writes_ibrd writes_fbrd reads_lcrh writes_lcrh : ℕ → Access
  reads_fr reads_dr writes_dr : ℕ → Access

-- `lcrh` is what reading LCRH gives.
pub uart_init : ℕ → List Access
uart_init lcrh =
    let cleared = bit_and lcrh (2 ^ 32 - 1 - lcrh_wlen_8) in
    writes_ctl 0
    ∷ (writes_ibrd 10
        ∷ (writes_fbrd 54
            ∷ (reads_lcrh lcrh
                ∷ (writes_lcrh (bit_or cleared (bit_or lcrh_wlen_8 lcrh_fen))
                    ∷ (writes_ctl ctl_enable ∷ [])))))

-- The accesses, and the values of FR that are left; `none` if the values end while the code still polls.
abbrev pub Run : Type 0
Run = Option (List Access × List ℕ)

-- `while (UART0->FR & mask) { }`
pub wait_while : ℕ → List ℕ → Run
wait_while mask [] = none
wait_while mask (v ∷ flags) =
    let again : Run = elim (wait_while mask flags) [
      | none ↦ none
      | some (accesses, rest) ↦ some (reads_fr v ∷ accesses, rest)
    ] in
    if bit_and v mask == 0 then some (reads_fr v ∷ [], flags) else again

pub uart_putc : ℕ → List ℕ → Run
unfolding wait_while
uart_putc c flags = elim (wait_while fr_txff flags) [
  | none ↦ none
  | some (accesses, rest) ↦ some (accesses ++ (writes_dr c ∷ []), rest)
]

-- One thing after another.
abbrev pub and_then : Run → (List ℕ → Run) → Run
and_then none next = none
and_then (some (accesses, rest)) next = elim (next rest) [
  | none ↦ none
  | some (more, rest') ↦ some (accesses ++ more, rest')
]

pub uart_puts : List ℕ → List ℕ → Run
unfolding uart_putc
uart_puts [] flags = some ([], flags)
uart_puts (c ∷ s) flags =
    and_then (if c == newline then uart_putc carriage_return flags else some ([], flags))
      (λ left. and_then (uart_putc c left) (uart_puts s))

-- `fr` and `dr` are what reading the registers gives; DR is read only if something is waiting.
pub uart_getc : ℕ → ℕ → Option ℕ × List Access
uart_getc fr dr =
    if bit_and fr fr_rxfe == 0
    then (some (bit_and dr 0xff), reads_fr fr ∷ (reads_dr dr ∷ []))
    else (none, reads_fr fr ∷ [])

pub uart_flush : List ℕ → Run
unfolding wait_while
uart_flush flags = wait_while fr_busy flags
