-- ===== src/EventServer/Connection/Bounds.antt =====
-- evserver.c stays inside the two buffers of a connection, whatever a client sends.
use programming_with_c.Base.{
  ℕ, ◌-◌, ◌≤◌, ◌<◌, ◌≡◌, ◌⊎◌, inl, inr, refl, sym, true, List, [], ◌∷◌, ◌++◌, ◌==◌, length, take,
  arith, length-append, length-take, Bool-cases,
}
use mathlib.Core.Path.{subst}
use programming_with_c.EventServer.Connection.Framing.{
  counted, told_bye, holding, process_lines-keeps, length-process_lines,
}
use programming_with_c.EventServer.Connection.{
  Connection, buf_size, conn_queue, answer_line, process_lines, keep_leftover, process_input, bye,
  too_long, Received, received, ended, again, interrupted, failed, Recv, after_recv, conn_readable,
  Within,
}

-- The used bytes fit the buffers, what was sent was there, and unless the connection is about to
-- be closed there is room for more input.
pub record IsConnection (c : Connection) : Type 0 where
  pub in_fits : length c.input ≤ buf_size
  pub out_fits : length c.output ≤ buf_size
  pub sent_fits : c.out_sent ≤ length c.output
  pub readable : (c.closing ≡ true) ⊎ (length c.input < buf_size)

-- The same, but for the input, which `conn_process_input` sets last.
record IsOutput (c : Connection) : Type 0 where
  out_fits : length c.output ≤ buf_size
  sent_fits : c.out_sent ≤ length c.output

conn_queue-IsOutput :
    {c : Connection} (bytes : List ℕ) (n : ℕ) → IsOutput c → IsOutput (conn_queue c bytes n)
unfolding conn_queue
conn_queue-IsOutput {c} bytes n v =
    ground
      (arith, v.out_fits, v.sent_fits, length-append c.output (take n bytes), length-take n bytes)

answer_line-IsOutput :
    (c : Connection) (line : List ℕ) → IsOutput c → IsOutput (answer_line (counted c) line)
unfolding answer_line
answer_line-IsOutput c line v =
    conn_queue-IsOutput {c = counted c} _ _
      (record { out_fits = v.out_fits; sent_fits = v.sent_fits })

told_bye-IsOutput : (c : Connection) → IsOutput c → IsOutput (told_bye c)
told_bye-IsOutput c v =
    let q =
      conn_queue-IsOutput {c = counted c} bye 4
        (record { out_fits = v.out_fits; sent_fits = v.sent_fits }) in
    record { out_fits = q.out_fits; sent_fits = q.sent_fits }

keep_leftover-IsConnection :
    (c : Connection) (leftover : List ℕ)
    → IsOutput c
    → length leftover ≤ buf_size
    → IsConnection (keep_leftover (c, leftover))
unfolding keep_leftover
keep_leftover-IsConnection c leftover v h = elim (Bool-cases (length leftover == buf_size)) [
  | inl t ↦
      let q =
        conn_queue-IsOutput {c = holding leftover c} too_long 14
          (record { out_fits = v.out_fits; sent_fits = v.sent_fits }) in
      rw t (record {
        in_fits = subst (λ xs. length xs ≤ buf_size) (sym (queue_input (holding leftover c))) h;
        out_fits = q.out_fits;
        sent_fits = q.sent_fits;
        readable = inl refl;
      })
  | inr f ↦ rw f (record {
    in_fits = h;
    out_fits = v.out_fits;
    sent_fits = v.sent_fits;
    readable = inr (ground arith);
  })
]
  where
    queue_input : (d : Connection) → (conn_queue d too_long 14).input ≡ d.input
    queue_input d = unfold conn_queue in ground arith

pub process_input-IsConnection :
    (c : Connection)
    → length c.input ≤ buf_size
    → length c.output ≤ buf_size
    → c.out_sent ≤ length c.output
    → IsConnection (process_input c)
unfolding process_input
process_input-IsConnection c i o s =
    keep_leftover-IsConnection (process_lines c [] c.input).0 (process_lines c [] c.input).1
      (process_lines-keeps IsOutput answer_line-IsOutput told_bye-IsOutput c [] c.input
        (record { out_fits = o; sent_fits = s }))
      (omega (arith, length-process_lines c [] c.input, i))

-- One call of `recv`, if the rounds behind it keep the bounds.
after_recv-IsConnection :
    (now : ℕ) (continue : Connection → Connection) {c : Connection} (x : Received)
    → ((d : Connection) → IsConnection d → IsConnection (continue d))
    → Within (buf_size - length c.input) x
    → IsConnection c
    → IsConnection (after_recv now continue c x)
unfolding after_recv
after_recv-IsConnection now continue {c} (received bytes) next w v =
    elim (Bool-cases (process_input c').closing) [
      | inl t ↦ rw t valid
      | inr f ↦ rw f (next (process_input c') valid)
    ]
  where
    c' : Connection
    c' = record c { input = c.input ++ bytes; last_active = now }

    valid : IsConnection (process_input c')
    valid =
        process_input-IsConnection c' (omega (arith, length-append c.input bytes, w, v.in_fits))
          v.out_fits v.sent_fits
after_recv-IsConnection now continue {c} ended next w v = record {
  in_fits = v.in_fits;
  out_fits = omega (arith, length-take c.out_sent c.output, v.out_fits);
  sent_fits = omega (arith, length-take c.out_sent c.output, v.sent_fits);
  readable = inl refl;
}
after_recv-IsConnection now continue again next w v = v
after_recv-IsConnection now continue {c} interrupted next w v = next c v
after_recv-IsConnection now continue failed next w v = record {
  in_fits = v.in_fits;
  out_fits = v.out_fits;
  sent_fits = v.sent_fits;
  readable = inl refl;
}

-- `conn_readable` stays inside both buffers, and leaves room for more input or a connection that
-- is to be closed.
pub conn_readable-IsConnection :
    (rs : List Recv) {c : Connection} → IsConnection c → IsConnection (conn_readable rs c)
unfolding conn_readable
conn_readable-IsConnection [] v = v
conn_readable-IsConnection (r ∷ rs) {c} v = elim (Bool-cases (length c.input == buf_size)) [
  | inl t ↦ rw t v
  | inr f ↦ rw f (
      after_recv-IsConnection r.now (conn_readable rs) _ (λ d w. conn_readable-IsConnection rs w)
        (r.within (buf_size - length c.input) (ground (arith, v.in_fits))) v)
]
