-- ===== src/EventServer/Server.antt =====
-- The table of connections of evserver.c, and the operations of its event loop. `conns` is the
-- array of pointers by descriptor, and `interest` what epoll is asked to report: `none` for a
-- descriptor that is not registered, else whether writability is wanted.
pub mod Counts
pub mod Slots
pub mod Keeps
use programming_with_c.Base.{
  ℕ, zero, suc, ◌+◌, ◌-◌, Bool, true, false, not, ◌&&◌, List, [], ◌∷◌, ◌++◌, Option, none, some,
  ltb, ◌==◌, if◌then◌else◌,
}
use programming_with_c.Base.Text.{newline}
use programming_with_c.EventServer.Connection.{
  Connection, wants_write, conn_queue, Recv, conn_readable, Send, conn_writable,
}

pub record Server : Type 0 where
  pub conns : ℕ → Option Connection
  pub interest : ℕ → Option Bool
  pub live : ℕ
  pub peak : ℕ
  pub total : ℕ

-- The length of `conns`.
unfoldable pub table_size : ℕ
table_size = 65_536

abbrev pub idle_limit : ℕ
idle_limit = 30

-- A write to a table.
abbrev pub store {ℓ} : {A : Type ℓ} → (ℕ → Option A) → ℕ → Option A → ℕ → Option A
store t k v i = if i == k then v else t i

-- The counter is not 0 while a connection is open, so that the subtraction is exact.
pub conn_close : Connection → Server → Server
conn_close c s = record s {
  conns = store s.conns c.fd none;
  interest = store s.interest c.fd none;
  live = s.live - 1;
}

pub update_interest : Connection → Server → Server
update_interest c s = record s { interest = store s.interest c.fd (some (wants_write c)) }

-- A descriptor that `accept` returned, and what the calls for it return: whether `set_nonblocking`,
-- `calloc` and `epoll_ctl` succeed, and `time`.
pub record Peer : Type 0 where
  pub fd : ℕ
  pub now : ℕ
  pub nonblocking : Bool
  pub memory : Bool
  pub registered : Bool

abbrev pub ready : List ℕ
ready = b'r' ∷ b'e' ∷ b'a' ∷ b'd' ∷ b'y' ∷ newline ∷ []

pub greeted : Peer → Connection
unfolding conn_queue
greeted p =
    conn_queue
      (record {
        fd = p.fd;
        input = [];
        output = [];
        out_sent = 0;
        lines = 0;
        last_active = p.now;
        closing = false;
      })
      ready 6

-- The body of the loop of `accept_new` for a descriptor.
pub admit : Peer → Server → Server
unfolding greeted update_interest
admit p s =
    let c = greeted p in
    let entered = record s {
      conns = store s.conns p.fd (some c);
      live = s.live + 1;
      total = s.total + 1;
    } in
    if p.nonblocking && p.memory
    then if p.registered
      then update_interest c
          (record entered { peak = if ltb s.peak (s.live + 1) then s.live + 1 else s.peak })
      else record s { conns = store s.conns p.fd none }
    else s

-- What `accept` returns: a descriptor, or an error that is `EAGAIN` (`again`), `EINTR`
-- (`interrupted`) or another one.
pub data Accepted : Type 0 where
  accepted : Peer → Accepted
  again interrupted failed : Accepted

unfoldable pub accept_new : List Accepted → Server → Server
unfolding admit
accept_new [] s = s
accept_new (accepted p ∷ calls) s = accept_new calls (admit p s)
accept_new (again ∷ calls) s = s
accept_new (interrupted ∷ calls) s = accept_new calls s
accept_new (failed ∷ calls) s = s

pub sweep_one : ℕ → ℕ → Server → Server
unfolding conn_close
sweep_one now fd s = elim (s.conns fd) [
  | none ↦ s
  | some c ↦ if ltb (c.last_active + idle_limit) now then conn_close c s else s
]

-- The loop of `sweep_idle` from `fd` on, with `rounds` rounds left.
pub sweep_loop : ℕ → ℕ → ℕ → Server → Server
unfolding sweep_one
sweep_loop zero fd now s = s
sweep_loop (suc rounds) fd now s = sweep_loop rounds (fd + 1) now (sweep_one now fd s)

pub sweep_idle : ℕ → Server → Server
unfolding sweep_loop
sweep_idle now s = sweep_loop table_size 0 now s

-- What `epoll_wait` reports for a descriptor that is neither the listener nor the pipe, and what
-- the calls of `recv` and `send` for it return.
pub record Event : Type 0 where
  pub fd : ℕ
  pub hangup : Bool
  pub readable : Bool
  pub writable : Bool
  pub recvs : List Recv
  pub sends : List Send

-- What the reading and the writing make of a connection, and what is sent.
pub serve : Event → Connection → Connection × List ℕ
unfolding conn_readable conn_writable
serve e c =
    let c' = if e.readable then conn_readable e.recvs c else c in
    if e.writable then conn_writable e.sends c' else (c', [])

-- The end of the handling of an event: the connection is flushed before it is closed.
pub settle : Connection → Server → Server
unfolding conn_close update_interest
settle c s =
    let s' = record s { conns = store s.conns c.fd (some c) } in
    if c.closing && not (wants_write c) then conn_close c s' else update_interest c s'

unfoldable pub handle_event : Event → Server → Server
unfolding conn_close serve settle
handle_event e s = elim (s.conns e.fd) [
  | none ↦ s
  | some c ↦ if e.hangup then conn_close c s else settle (serve e c).0 s
]
