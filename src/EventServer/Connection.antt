-- ===== src/EventServer/Connection.antt =====
-- One connection of evserver.c. `in` and `out` are the lists of their used bytes, so that `in_used`
-- and `out_used` are lengths. A counter of type `long` does not reach its bound.
pub mod Framing
pub mod Bounds
pub mod Delivery
pub mod Named
use programming_with_c.Base.{
  ℕ, zero, suc, ◌+◌, ◌-◌, ◌≤◌, ◌<◌, Bool, true, false, not, ◌||◌, List, [], ◌∷◌, ◌++◌, ltb, ◌==◌,
  if◌then◌else◌, length, take, drop,
}
use programming_with_c.Base.Text.{newline, c_string, decimal, mem_eq}

pub record Connection : Type 0 where
  pub fd : ℕ
  pub input : List ℕ
  pub output : List ℕ
  pub out_sent : ℕ
  pub lines : ℕ
  pub last_active : ℕ
  pub closing : Bool

abbrev pub buf_size : ℕ
buf_size = 4096

-- What `conn_update_interest` asks for beside `EPOLLIN`.
abbrev pub wants_write : Connection → Bool
wants_write c = ltb c.out_sent (length c.output)

unfoldable pub conn_queue : Connection → List ℕ → ℕ → Connection
conn_queue c bytes n =
    if ltb buf_size (length c.output + n)
    then record c { closing = true }
    else record c { output = c.output ++ take n bytes }

abbrev pub quit : List ℕ
quit = b'q' ∷ b'u' ∷ b'i' ∷ b't' ∷ []

abbrev pub bye : List ℕ
bye = b'b' ∷ b'y' ∷ b'e' ∷ newline ∷ []

-- "line too long\n"
abbrev pub too_long : List ℕ
too_long =
    b'l' ∷ b'i' ∷ b'n' ∷ b'e' ∷ b' ' ∷ b't' ∷ b'o' ∷ b'o' ∷ b' ' ∷ b'l' ∷ b'o' ∷ b'n' ∷ b'g'
    ∷ newline ∷ []

-- What the format "%ld: %.*s\n" stands for.
pub reply_text : ℕ → List ℕ → List ℕ
unfolding c_string decimal
reply_text count line = decimal 18 count ++ (b':' ∷ b' ' ∷ (c_string line ++ (newline ∷ [])))

-- `snprintf` cuts the text to the size of `reply` and terminates it; the length that it returns is
-- that of the whole text.
pub answer_line : Connection → List ℕ → Connection
unfolding conn_queue reply_text
answer_line c line =
    let text = reply_text c.lines line in
    conn_queue c (take (buf_size - 1) text ++ (0 ∷ [])) (length text)

-- The loop of `conn_process_input`, with the search for the end of the line: `line` are the bytes
-- from `start` on that were looked at, behind which the rest of the input follows. The result is
-- the connection and the bytes from `start` on when the loop ends.
unfoldable pub process_lines : Connection → List ℕ → List ℕ → Connection × List ℕ
unfolding answer_line mem_eq
process_lines c line [] = (c, line)
process_lines c line (b ∷ rest) =
    let counted = record c { lines = c.lines + 1 } in
    let next = process_lines (answer_line counted line) [] rest in
    let longer = process_lines c (line ++ (b ∷ [])) rest in
    if b == newline
    then (if mem_eq line quit
        then (record (conn_queue counted bye 4) { closing = true }, line ++ (b ∷ rest))
        else next)
    else longer

-- What `conn_process_input` does with the bytes that are left.
pub keep_leftover : Connection × List ℕ → Connection
unfolding conn_queue
keep_leftover (c, leftover) =
    let kept = record c { input = leftover } in
    if length leftover == buf_size
    then record (conn_queue kept too_long 14) { closing = true }
    else kept

unfoldable pub process_input : Connection → Connection
unfolding process_lines keep_leftover
process_input c = keep_leftover (process_lines c [] c.input)

-- What `recv` may return: bytes, 0 for the end of the stream, or an error. A call is its result
-- for any size, which is never exceeded, and the time behind it.
pub data Received : Type 0 where
  received : List ℕ → Received
  ended again interrupted failed : Received

abbrev pub Within : ℕ → Received → Type 0
Within room (received bytes) = (0 < length bytes) × (length bytes ≤ room)
Within room ended = Unit
Within room again = Unit
Within room interrupted = Unit
Within room failed = Unit

pub record Recv : Type 0 where
  pub now : ℕ
  pub call : ℕ → Received
  pub within : (room : ℕ) → 0 < room → Within room (call room)

-- What a call of `recv` leads to; `continue` is the next round of the loop.
pub after_recv : ℕ → (Connection → Connection) → Connection → Received → Connection
unfolding process_input
after_recv now continue c (received bytes) =
    let c' = process_input (record c { input = c.input ++ bytes; last_active = now }) in
    if c'.closing then c' else continue c'
after_recv now continue c ended = record c { closing = true; output = take c.out_sent c.output }
after_recv now continue c again = c
after_recv now continue c interrupted = continue c
after_recv now continue c failed = record c { closing = true }

-- The calls of `recv` are given as a list, and behind its end every call returns `EAGAIN`.
unfoldable pub conn_readable : List Recv → Connection → Connection
unfolding after_recv
conn_readable [] c = c
conn_readable (r ∷ rs) c =
    let continue = conn_readable rs in
    if length c.input == buf_size
    then c
    else after_recv r.now continue c (r.call (buf_size - length c.input))

-- What `send` may return: a positive number of bytes taken, or 0 or an error (`failed`).
pub data Sent : Type 0 where
  sent : ℕ → Sent
  blocked stopped broken : Sent

abbrev pub Taken : ℕ → Sent → Type 0
Taken size (sent n) = (0 < n) × (n ≤ size)
Taken size blocked = Unit
Taken size stopped = Unit
Taken size broken = Unit

pub record Send : Type 0 where
  pub now : ℕ
  pub call : ℕ → Sent
  pub within : (size : ℕ) → 0 < size → Taken size (call size)

-- What a call of `send` leads to. The result is the connection and the bytes that were taken.
pub after_send : ℕ → (Connection → Connection × List ℕ) → Connection → Sent → Connection × List ℕ
after_send now continue c (sent n) =
    let (c', bytes) = continue (record c { out_sent = c.out_sent + n; last_active = now }) in
    (c', take n (drop c.out_sent c.output) ++ bytes)
after_send now continue c blocked = (c, [])
after_send now continue c stopped = continue c
after_send now continue c broken = (record c { closing = true }, [])

-- The calls of `send` are a list as well.
unfoldable pub conn_writable : List Send → Connection → Connection × List ℕ
unfolding after_send
conn_writable [] c = if wants_write c then (c, []) else (record c { output = []; out_sent = 0 }, [])
conn_writable (s ∷ ss) c =
    let continue = conn_writable ss in
    if wants_write c
    then after_send s.now continue c (s.call (length c.output - c.out_sent))
    else (record c { output = []; out_sent = 0 }, [])
