-- ===== src/Constrained/Ring.antt =====
-- The ring buffer of constrained.c. One slot stays empty, so that equal indices mean "empty".
pub mod Fifo
use programming_with_c.Base.{
  ℕ, ◌+◌, ◌%◌, ◌^◌, Bool, true, false, List, Option, none, some, ◌==◌, if◌then◌else◌, get_elem?,
  set,
}

pub record Ring : Type 0 where
  pub slots : List ℕ
  pub head : ℕ
  pub tail : ℕ

abbrev pub ring_size : ℕ
ring_size = 16

-- `(uint8_t)((i + 1u) % RING_SIZE)`
abbrev pub after : ℕ → ℕ
after i = (i + 1) % 2 ^ 32 % ring_size % 2 ^ 8

pub push : Ring → ℕ → Bool × Ring
push r v =
    if after r.head == r.tail
    then (false, r)
    else (true, record r { slots = set r.slots r.head v; head = after r.head })

-- What goes through `out` is the option under the flag (`none` for a read out of the array).
pub pop : Ring → Bool × Option ℕ × Ring
pop r =
    if r.tail == r.head
    then (false, none, r)
    else (true, get_elem? r.slots r.tail, record r { tail = after r.tail })
