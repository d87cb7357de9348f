-- ===== src/EventServer/Tests.antt =====
-- A conversation with the server of evserver.c, and instances of what is proved.
use programming_with_c.Base.{
  ℕ, ◌<◌, ◌≡◌, refl, true, false, inr, List, [], ◌∷◌, ◌++◌, none, arith, length, ltb, if◌then◌else◌,
}
use programming_with_c.Base.Text.{newline}
use programming_with_c.EventServer.Connection.{
  Connection, Received, received, again, Within, Recv, sent, Send, process_lines, process_input,
  conn_readable, conn_writable, quit, bye,
}
use programming_with_c.EventServer.Connection.Framing.{holding, process_input-append}
use programming_with_c.EventServer.Connection.Bounds.{IsConnection}
use programming_with_c.EventServer.Connection.Delivery.{Delivered, conn_writable-Delivered}
use programming_with_c.EventServer.Server.{
  Server, table_size, Peer, accepted, Event, accept_new, handle_event,
}
use programming_with_c.EventServer.Server.Counts.{entries-none}
use programming_with_c.EventServer.Server.Slots.{IsServer}
use programming_with_c.EventServer.Server.Keeps.{accept_new-IsServer, handle_event-IsServer}

abbrev fresh : Connection
fresh = record {
  fd = 7;
  input = [];
  output = [];
  out_sent = 0;
  lines = 0;
  last_active = 100;
  closing = false;
}

abbrev hel : List ℕ
hel = b'h' ∷ b'e' ∷ b'l' ∷ []

abbrev lo : List ℕ
lo = b'l' ∷ b'o' ∷ newline ∷ []

abbrev answered : List ℕ
answered = b'1' ∷ b':' ∷ b' ' ∷ b'h' ∷ b'e' ∷ b'l' ∷ b'l' ∷ b'o' ∷ newline ∷ []

echo : (process_input (holding (hel ++ lo) fresh)).output ≡ answered
unfolding process_input
echo = refl

leave : (process_input (holding (quit ++ (newline ∷ [])) fresh)).output ≡ bye
unfolding process_input
leave = refl

-- A `recv` that hands out what fits.
abbrev some_bytes : List ℕ → ℕ → Received
some_bytes [] room = again
some_bytes (b ∷ bytes) room = if ltb room (length (b ∷ bytes)) then again else received (b ∷ bytes)

some_bytes-Within : (bytes : List ℕ) (room : ℕ) → 0 < room → Within room (some_bytes bytes room)
some_bytes-Within [] room h = tt
some_bytes-Within (b ∷ bytes) room h = ground arith

abbrev arrives : List ℕ → Recv
arrives bytes = record { now = 101; call = some_bytes bytes; within = some_bytes-Within bytes }

in_two_pieces : (conn_readable (arrives hel ∷ arrives lo ∷ []) fresh).output ≡ answered
unfolding conn_readable
in_two_pieces = refl

-- A `send` that takes one byte.
abbrev one_byte : Send
one_byte = record {
  now = 102;
  call = λ size. sent 1;
  within = λ size h. (omega arith, omega arith);
}

abbrev talking : Connection
talking = record fresh { output = answered }

abbrev hurried : Connection × List ℕ
hurried = (record talking { out_sent = 2; last_active = 102 }, b'1' ∷ b':' ∷ [])

two_bytes : conn_writable (one_byte ∷ one_byte ∷ []) talking ≡ hurried
unfolding conn_writable
two_bytes = refl

fresh-IsConnection : IsConnection fresh
fresh-IsConnection = record {
  in_fits = omega arith;
  out_fits = omega arith;
  sent_fits = omega arith;
  readable = inr (omega arith);
}

talking-IsConnection : IsConnection talking
talking-IsConnection = record {
  in_fits = omega arith;
  out_fits = omega arith;
  sent_fits = omega arith;
  readable = inr (omega arith);
}

begun : (process_lines (holding hel fresh) [] hel).1 ≡ hel
unfolding process_lines
begun = refl

process_input-append_example :
    process_input (
      holding ((process_input (holding hel fresh)).input ++ lo) (process_input (holding hel fresh)))
    ≡ process_input (holding (hel ++ lo) (holding hel fresh))
process_input-append_example =
    process_input-append (holding hel fresh) lo
      (rw begun (omega arith, (omega arith, (omega arith, tt)))) (rw begun (omega arith))

conn_writable-Delivered_example :
    Delivered talking (conn_writable (one_byte ∷ one_byte ∷ []) talking)
conn_writable-Delivered_example =
    conn_writable-Delivered (one_byte ∷ one_byte ∷ []) talking-IsConnection

abbrev idle : Server
idle = record { conns = λ fd. none; interest = λ fd. none; live = 0; peak = 0; total = 0 }

abbrev peer : Peer
peer = record { fd = 7; now = 100; nonblocking = true; memory = true; registered = true }

abbrev busy : Server
busy = accept_new (accepted peer ∷ []) idle

idle-IsServer : IsServer idle
idle-IsServer = record {
  slots = λ fd c e. cc e;
  counted_live = entries-none Connection table_size;
  peak_above = omega arith;
  total_above = omega arith;
}

peer_fits : 7 < table_size
unfolding table_size
peer_fits = omega arith

busy-IsServer : IsServer busy
busy-IsServer = accept_new-IsServer (accepted peer ∷ []) (peer_fits, refl, tt) idle-IsServer

abbrev hello_event : Event
hello_event = record {
  fd = 7;
  hangup = false;
  readable = true;
  writable = true;
  recvs = arrives hel ∷ arrives lo ∷ [];
  sends = one_byte ∷ [];
}

one_more_open : (accept_new (accepted peer ∷ []) idle).live ≡ 1
unfolding accept_new
one_more_open = refl

handle_event-IsServer_example : IsServer (handle_event hello_event busy)
handle_event-IsServer_example = handle_event-IsServer hello_event busy-IsServer
