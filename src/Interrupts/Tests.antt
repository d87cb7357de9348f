-- ===== src/Interrupts/Tests.antt =====
-- A handler that comes in the middle of `rx_get`, and instances of what is proved.
use programming_with_c.Base.{ℕ, ◌≡◌, refl, List, [], ◌∷◌, ◌++◌, none, some, arith, replicate}
use programming_with_c.Interrupts.{
  Shared, reset, systick_handler, uart0_handler, outside, rx_test, rx_load, rx_store, rx_get,
}
use programming_with_c.Interrupts.Bytes.{IsRing, waiting}
use programming_with_c.Interrupts.Runs.{Run, run-InOrder}

abbrev zeros : List ℕ
zeros = replicate 64 0

abbrev at_reset : Shared
at_reset = reset zeros

abbrev one_byte : Shared
one_byte = uart0_handler at_reset (b'a' ∷ [])

-- A second byte arrives between the test and the read.
abbrev two_bytes : Shared
two_bytes = uart0_handler one_byte (b'b' ∷ [])

read_first : (rx_get two_bytes).0 ≡ some b'a'
unfolding reset uart0_handler rx_get
read_first = refl

no_byte : (rx_get at_reset).0 ≡ none
unfolding reset rx_get
no_byte = refl

-- Of 70 bytes in one interrupt, 63 fit.
seven_lost : (uart0_handler at_reset (replicate 70 1)).rx_dropped ≡ 7
unfolding reset uart0_handler
seven_lost = refl

a_tick : (systick_handler at_reset).micros ≡ 1000
unfolding reset systick_handler
a_tick = refl

at_reset-IsRing : IsRing at_reset
unfolding reset
at_reset-IsRing = record { storage = refl; head_in = omega arith; tail_in = omega arith }

at_reset_lost : at_reset.rx_dropped ≡ 0
unfolding reset
at_reset_lost = refl

interrupted :
    Run (rx_store two_bytes) outside ((([] ++ (b'a' ∷ [])) ++ (b'b' ∷ []))) ([] ++ (b'a' ∷ []))
unfolding reset uart0_handler rx_test rx_load rx_store
interrupted = Run.stores (
    Run.loads
      (Run.interrupts (b'b' ∷ []) (Run.tests (Run.interrupts (b'a' ∷ []) (Run.start zeros refl)))))

run-InOrder_example : b'a' ∷ (b'b' ∷ []) ≡ b'a' ∷ waiting (rx_store two_bytes)
run-InOrder_example = (run-InOrder interrupted).0
