-- ===== src/Protocol.antt =====
-- The line protocol of week55_embedded_debugging_and_testing/protocol.c. The hardware layer (hal.h)
-- enters by its results: the bytes that `uart_read` hands out in one poll, and the number that
-- `ticks` returns. What is passed to `uart_write` is appended to an output.
pub mod Bounds
pub mod Lines
pub mod Polls
mod Tests
use programming_with_c.Base.{
  ℕ, zero, suc, ◌+◌, ◌-◌, ◌/◌, ◌%◌, ◌^◌, Bool, true, false, ◌&&◌, List, [], ◌∷◌, ◌++◌, ltb, leb,
  ◌==◌, if◌then◌else◌, set, replicate, length, take,
}
use programming_with_c.Base.Text.{c_string, decimal, newline}

pub data Status : Type 0 where
  proto_ok proto_overflow proto_timeout : Status

pub record Protocol : Type 0 where
  pub line : List ℕ
  pub used : ℕ
  pub last_byte_tick : ℕ
  pub lines_handled : ℕ
  pub last_status : Status

abbrev pub max_line : ℕ
max_line = 64

abbrev pub timeout_ticks : ℕ
timeout_ticks = 1000

pub init : Protocol
init = record {
  line = replicate max_line 0;
  used = 0;
  last_byte_tick = 0;
  lines_handled = 0;
  last_status = proto_ok;
}

-- What `snprintf (out, size, "%u:%s\n", count, line)` leaves in `out`: at most `size - 1` bytes.
pub reply_text : ℕ → List ℕ → List ℕ
unfolding c_string decimal
reply_text count line =
    take (max_line + 16 - 1) (decimal 9 count ++ (b':' ∷ (c_string line ++ (newline ∷ []))))

abbrev pub overflow_text : List ℕ
overflow_text = b'o' ∷ (b'v' ∷ (b'e' ∷ (b'r' ∷ (b'f' ∷ (b'l' ∷ (b'o' ∷ (b'w' ∷ (newline ∷ []))))))))

abbrev pub timeout_text : List ℕ
timeout_text = b't' ∷ (b'i' ∷ (b'm' ∷ (b'e' ∷ (b'o' ∷ (b'u' ∷ (b't' ∷ (newline ∷ [])))))))

-- One byte without a line end, where the line has room.
pub store_byte : ℕ → ℕ → Protocol → Protocol
store_byte now c p = record p {
  line = set p.line p.used c;
  used = (p.used + 1) % 2 ^ 8;
  last_byte_tick = now;
}

-- A line end: the reply, and the state for the next line.
pub end_line : ℕ → Protocol → Protocol
end_line now p = record p {
  line = set p.line p.used 0;
  used = 0;
  last_byte_tick = now;
  lines_handled = (p.lines_handled + 1) % 2 ^ 32;
}

pub end_reply : Protocol → List ℕ
unfolding reply_text
end_reply p = reply_text ((p.lines_handled + 1) % 2 ^ 32) (set p.line p.used 0)

pub record Outcome : Type 0 where
  pub status : Status
  pub state : Protocol
  pub unread : List ℕ
  pub output : List ℕ

-- The loop of `protocol_poll`; `out` is what has been written so far.
pub read_loop : ℕ → List ℕ → Protocol → List ℕ → Outcome
unfolding store_byte end_line end_reply
read_loop now [] p out = record { status = proto_ok; state = p; unread = []; output = out }
read_loop now (c ∷ cs) p out =
    let ended = read_loop now cs (end_line now p) (out ++ end_reply p) in
    let stored = read_loop now cs (store_byte now c p) out in
    if c == newline
    then ended
    else if leb (max_line - 1) p.used
    then record {
      status = proto_overflow;
      state = record p { used = 0; last_byte_tick = now; last_status = proto_overflow };
      unread = cs;
      output = out ++ overflow_text;
    }
    else stored

-- The test behind the loop. `now - last_byte_tick` is unsigned.
pub check_timeout : ℕ → Outcome → Outcome
check_timeout now r = elim r.status [
  | proto_ok ↦
      if ltb 0 r.state.used && ltb timeout_ticks ((now + 2 ^ 32 - r.state.last_byte_tick) % 2 ^ 32)
      then record r {
        status = proto_timeout;
        state = record (r.state) { used = 0; last_status = proto_timeout };
        output = r.output ++ timeout_text;
      }
      else r
  | _ ↦ r
]

pub poll : ℕ → List ℕ → Protocol → Outcome
unfolding read_loop check_timeout
poll now bytes p = check_timeout now (read_loop now bytes p [])
