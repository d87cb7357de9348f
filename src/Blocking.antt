-- ===== src/Blocking.antt =====
-- The bounded blocking queue of week41_concurrency_and_the_c_memory_model/concurrent.c. The lock
-- makes the code between `pthread_mutex_lock` and the next wait or unlock one step, so an operation
-- is a function on the queue; a thread that waits leaves the queue as it is and starts over.
pub mod Fifo
pub mod Runs
mod Tests
use programming_with_c.Base.{
  ℕ, ◌+◌, ◌-◌, ◌%◌, ◌^◌, Bool, true, false, not, ◌==◌, ◌&&◌, if◌then◌else◌, List, Option, none,
  some, get_or, set, map,
}
use programming_with_c.Base.Int.{ℤ, pos}

abbrev pub queue_capacity : ℕ
queue_capacity = 8

pub record Queue : Type 0 where
  pub items : List ℤ
  pub head : ℕ
  pub tail : ℕ
  pub count : ℕ
  pub closed : Bool

pub init : List ℤ → Queue
init items = record { items = items; head = 0; tail = 0; count = 0; closed = false }

-- `(i + 1) % QUEUE_CAPACITY`
abbrev pub after : ℕ → ℕ
after i = (i + 1) % 2 ^ 64 % queue_capacity

-- A step of `queue_push`: `none` if it goes to wait for `not_full`.
pub push : Queue → ℤ → Option Queue
push q value =
    if q.count == queue_capacity && not q.closed
    then none
    else if not q.closed
    then some (record q {
      items = set q.items q.tail value;
      tail = after q.tail;
      count = (q.count + 1) % 2 ^ 64;
    })
    else some q

-- A step of `queue_pop`: `none` if it goes to wait for `not_empty`. Otherwise what goes through
-- `out`, which is `none` if the result is false, and the queue.
pub pop : Queue → Option (Option ℤ × Queue)
pop q =
    if q.count == 0 && not q.closed
    then none
    else if q.count == 0
    then some (none, q)
    else some (
      some (get_or q.items q.head (pos 0)),
      record q { head = after q.head; count = q.count - 1 },
    )

pub close : Queue → Queue
close q = record q { closed = true }
