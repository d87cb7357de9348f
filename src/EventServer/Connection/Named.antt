-- ===== src/EventServer/Connection/Named.antt =====
-- Reading and writing leave the descriptor of a connection as it is.
use programming_with_c.Base.{
  ℕ, ◌+◌, ◌-◌, ◌≡◌, ◌++◌, refl, ◌∙◌, List, [], ◌∷◌, length, ◌==◌, Bool-cases, inl, inr, arith,
}
use programming_with_c.EventServer.Connection.{
  Connection, buf_size, conn_queue, answer_line, keep_leftover, process_input, Received, received,
  ended, again, interrupted, failed, Recv, after_recv, conn_readable, Sent, sent, blocked, stopped,
  broken, Send, after_send, conn_writable, bye, wants_write,
}
use programming_with_c.EventServer.Connection.Framing.{counted, process_lines-keeps}

queue-fd : (c : Connection) (bytes : List ℕ) (n : ℕ) → (conn_queue c bytes n).fd ≡ c.fd
unfolding conn_queue
queue-fd c bytes n = ground arith

answer-fd :
    (k : ℕ) (c : Connection) (line : List ℕ) → c.fd ≡ k → (answer_line (counted c) line).fd ≡ k
unfolding answer_line
answer-fd k c line h = queue-fd (counted c) _ _ ∙ h

input-fd : (c : Connection) → (process_input c).fd ≡ c.fd
unfolding process_input keep_leftover conn_queue
input-fd c = ground (
  arith,
  process_lines-keeps (λ d. d.fd ≡ c.fd) (answer-fd c.fd) (λ d h. queue-fd (counted d) bye 4 ∙ h) c
      [] c.input refl,
)

after_recv-fd :
    (now k : ℕ) (continue : Connection → Connection) (c : Connection) (x : Received)
    → ((d : Connection) → d.fd ≡ k → (continue d).fd ≡ k)
    → c.fd ≡ k
    → (after_recv now continue c x).fd ≡ k
unfolding after_recv
after_recv-fd now k continue c (received bytes) next h =
    let c' = process_input (record c { input = c.input ++ bytes; last_active = now }) in
    let e = input-fd (record c { input = c.input ++ bytes; last_active = now }) ∙ h in
    elim (Bool-cases c'.closing) [ inl t ↦ rw t e | inr f ↦ rw f (next c' e) ]
after_recv-fd now k continue c ended next h = h
after_recv-fd now k continue c again next h = h
after_recv-fd now k continue c interrupted next h = next c h
after_recv-fd now k continue c failed next h = h

pub conn_readable-fd :
    (rs : List Recv) (k : ℕ) (c : Connection) → c.fd ≡ k → (conn_readable rs c).fd ≡ k
unfolding conn_readable
conn_readable-fd [] k c h = h
conn_readable-fd (r ∷ rs) k c h = elim (Bool-cases (length c.input == buf_size)) [
  | inl t ↦ rw t h
  | inr f ↦ rw f (
      after_recv-fd r.now k (conn_readable rs) c (r.call (buf_size - length c.input))
        (λ d e. conn_readable-fd rs k d e) h)
]

after_send-fd :
    (now k : ℕ) (continue : Connection → Connection × List ℕ) (c : Connection) (x : Sent)
    → ((d : Connection) → d.fd ≡ k → (continue d).0.fd ≡ k)
    → c.fd ≡ k
    → (after_send now continue c x).0.fd ≡ k
unfolding after_send
after_send-fd now k continue c (sent n) next h =
    next (record c { out_sent = c.out_sent + n; last_active = now }) h
after_send-fd now k continue c blocked next h = h
after_send-fd now k continue c stopped next h = next c h
after_send-fd now k continue c broken next h = h

pub conn_writable-fd :
    (ss : List Send) (k : ℕ) (c : Connection) → c.fd ≡ k → (conn_writable ss c).0.fd ≡ k
unfolding conn_writable
conn_writable-fd [] k c h = elim (Bool-cases (wants_write c)) [ inl t ↦ rw t h | inr f ↦ rw f h ]
conn_writable-fd (s ∷ ss) k c h = elim (Bool-cases (wants_write c)) [
  | inl t ↦ rw t (
      after_send-fd s.now k (conn_writable ss) c (s.call (length c.output - c.out_sent))
        (λ d e. conn_writable-fd ss k d e) h)
  | inr f ↦ rw f h
]
