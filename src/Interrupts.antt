-- ===== src/Interrupts.antt =====
-- The handlers and the receive ring of week51_interrupts_and_real_time_behavior/interrupts.c. The
-- processor runs a handler to its end before `main` goes on, but between any two accesses of
-- `main`; `rx_get` is therefore cut into the accesses that a handler can come between.
pub mod Bytes
pub mod Runs
mod Tests
use programming_with_c.Base.{
  ℕ, ◌+◌, ◌%◌, ◌^◌, Bool, true, false, List, [], ◌∷◌, Option, none, some, ◌==◌, if◌then◌else◌,
  get_or, set,
}

abbrev pub rx_size : ℕ
rx_size = 64

-- The variables that the handlers share with `main`, and whether the UART requests an interrupt.
pub record Shared : Type 0 where
  pub tick_count : ℕ
  pub micros : ℕ
  pub rx_buf : List ℕ
  pub rx_head : ℕ
  pub rx_tail : ℕ
  pub isr_entries : ℕ
  pub rx_dropped : ℕ
  pub pending : Bool

-- At reset, with whatever `rx_buf` holds.
pub reset : List ℕ → Shared
reset buf = record {
  tick_count = 0;
  micros = 0;
  rx_buf = buf;
  rx_head = 0;
  rx_tail = 0;
  isr_entries = 0;
  rx_dropped = 0;
  pending = false;
}

-- `(uint8_t)((i + 1u) % RX_SIZE)`
abbrev pub after : ℕ → ℕ
after i = (i + 1) % 2 ^ 32 % rx_size % 2 ^ 8

pub systick_handler : Shared → Shared
systick_handler s = record s {
  tick_count = (s.tick_count + 1) % 2 ^ 32;
  micros = (s.micros + 1000) % 2 ^ 64;
}

-- The body of the loop of `uart0_handler`, for what is read from `DR`.
pub receive : Shared → ℕ → Shared
receive s dr =
    let byte = dr % 2 ^ 8 in
    let next = after s.rx_head in
    if next == s.rx_tail
    then record s { rx_dropped = (s.rx_dropped + 1) % 2 ^ 32 }
    else record s { rx_buf = set s.rx_buf s.rx_head byte; rx_head = next }

-- The loop: `fifo` is what `DR` delivers until `FR` says that there is no more.
pub drain : Shared → List ℕ → Shared
unfolding receive
drain s [] = s
drain s (dr ∷ fifo) = drain (receive s dr) fifo

-- The write to `ICR` withdraws the request.
pub uart0_handler : Shared → List ℕ → Shared
unfolding drain
uart0_handler s fifo =
    record (drain (record s { isr_entries = (s.isr_entries + 1) % 2 ^ 32 }) fifo) {
      pending = false;
    }

-- How far `main` is in a call of `rx_get`.
pub data Reader : Type 0 where
  outside : Reader
  not_empty : Reader
  loaded : ℕ → Reader

-- The three parts of `rx_get`: the test, the read of the buffer, the write of the tail. Only the
-- handler writes the head and only `main` the tail.
pub rx_test : Shared → Reader
rx_test s = if s.rx_tail == s.rx_head then outside else not_empty

pub rx_load : Shared → Reader
rx_load s = loaded (get_or s.rx_buf s.rx_tail 0)

pub rx_store : Shared → Shared
rx_store s = record s { rx_tail = after s.rx_tail }

-- `rx_get` without an interrupt in it.
pub rx_get : Shared → Option ℕ × Shared
unfolding rx_store
rx_get s =
    if s.rx_tail == s.rx_head then (none, s) else (some (get_or s.rx_buf s.rx_tail 0), rx_store s)
