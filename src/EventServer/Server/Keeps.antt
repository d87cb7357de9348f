-- ===== src/EventServer/Server/Keeps.antt =====
-- The event loop of evserver.c keeps its table, its counters and epoll in step.
use programming_with_c.Base.{
  ℕ, zero, suc, ◌+◌, ◌<◌, ◌≤◌, ◌≡◌, ◌≢◌, ◌⊎◌, inl, inr, refl, sym, ap, ◌∙◌, ◌&&◌, List, [], ◌∷◌,
  Option, none, some, arith, ltb, ◌==◌, if◌then◌else◌, Bool-cases, Option-cases,
}
use mathlib.Core.Path.{subst, fun_ext}
use programming_with_c.EventServer.Connection.{Connection, conn_readable, conn_writable}
use programming_with_c.EventServer.Connection.Named.{conn_readable-fd, conn_writable-fd}
use programming_with_c.EventServer.Connection.Bounds.{IsConnection, conn_readable-IsConnection}
use programming_with_c.EventServer.Connection.Delivery.{conn_writable-Delivered}
use programming_with_c.EventServer.Server.{
  Server, table_size, idle_limit, store, conn_close, Peer, greeted, admit, Accepted, accept_new,
  sweep_one, sweep_loop, sweep_idle, Event, serve, handle_event, accepted, again, interrupted,
  failed,
}
use programming_with_c.EventServer.Server.Slots.{
  store_here, store_there, none≢some, IsServer, conn_close-IsServer, enter-IsServer,
  settle-IsServer,
}

-- `accept` returns descriptors that are not in use, and below the size of the table.
abbrev pub Fresh : List Accepted → Server → Type 0
Fresh [] s = Unit
Fresh (accepted p ∷ calls) s = (p.fd < table_size) × (s.conns p.fd ≡ none) × Fresh calls (admit p s)
Fresh (again ∷ calls) s = Unit
Fresh (interrupted ∷ calls) s = Fresh calls s
Fresh (failed ∷ calls) s = Unit

greeted-IsConnection : (p : Peer) → IsConnection (greeted p)
unfolding greeted
greeted-IsConnection p = record {
  in_fits = omega arith;
  out_fits = omega arith;
  sent_fits = omega arith;
  readable = inr (omega arith);
}

store-none {ℓ} : {A : Type ℓ} (t : ℕ → Option A) (k : ℕ) → t k ≡ none → store t k none ≡ t
store-none t k h = fun_ext λ i. ground (arith, h, ap t)

admit-IsServer :
    {s : Server} (p : Peer)
    → IsServer s
    → p.fd < table_size
    → s.conns p.fd ≡ none
    → IsServer (admit p s)
unfolding admit greeted
admit-IsServer {s} p v room e = elim (Bool-cases (p.nonblocking && p.memory)) [
  | inr f ↦ rw f v
  | inl t ↦ elim (Bool-cases p.registered) [
    | inr f ↦
        rw (t, f)
          (subst (λ c. IsServer (record s { conns = c })) (sym (store-none s.conns p.fd e)) v)
    | inl r ↦
        rw (t, r)
          (enter-IsServer {c = greeted p} (if ltb s.peak (s.live + 1) then s.live + 1 else s.peak) v
            room e (greeted-IsConnection p) (ground arith)
            (ground (arith, v.peak_above, v.total_above)))
  ]
]

-- `accept_new` keeps the table, the counters and epoll in step.
pub accept_new-IsServer :
    (calls : List Accepted) {s : Server}
    → Fresh calls s
    → IsServer s
    → IsServer (accept_new calls s)
unfolding accept_new
accept_new-IsServer [] f v = v
accept_new-IsServer (accepted p ∷ calls) (room, free, f) v =
    accept_new-IsServer calls f (admit-IsServer p v room free)
accept_new-IsServer (again ∷ calls) f v = v
accept_new-IsServer (interrupted ∷ calls) f v = accept_new-IsServer calls f v
accept_new-IsServer (failed ∷ calls) f v = v

serve-fd : (e : Event) (k : ℕ) (c : Connection) → c.fd ≡ k → (serve e c).0.fd ≡ k
unfolding serve
serve-fd e k c h = ground (
  arith,
  conn_readable-fd e.recvs k c,
  conn_writable-fd e.sends k c,
  conn_writable-fd e.sends k (conn_readable e.recvs c),
)

serve-IsConnection : (e : Event) {c : Connection} → IsConnection c → IsConnection (serve e c).0
unfolding serve
serve-IsConnection e {c} v = elim (Bool-cases e.readable) [
  | inl r ↦ rw r (write (conn_readable-IsConnection e.recvs v))
  | inr r ↦ rw r (write v)
]
  where
    write :
        {d : Connection}
        → IsConnection d
        → IsConnection (if e.writable then conn_writable e.sends d else (d, [])).0
    write {d} w = elim (Bool-cases e.writable) [
      | inl t ↦ rw t (conn_writable-Delivered e.sends w).valid
      | inr t ↦ rw t w
    ]

-- Whatever epoll reports for a descriptor, the handling of the event keeps the table, the counters
-- and epoll in step, and every connection inside its buffers.
pub handle_event-IsServer : (e : Event) {s : Server} → IsServer s → IsServer (handle_event e s)
unfolding handle_event
handle_event-IsServer e {s} v = elim (Option-cases (s.conns e.fd)) [
  | inl n ↦ rw (n, handle_event) v
  | inr (c, p) ↦
      let w = v.slots e.fd c p in
      let same = serve-fd e c.fd c refl in
      elim (Bool-cases e.hangup) [
        | inl h ↦ rw (p, h, handle_event) (conn_close-IsServer c c v (ap s.conns w.named ∙ p))
        | inr h ↦
            rw (p, h, handle_event)
              (settle-IsServer c v (ap s.conns (same ∙ w.named) ∙ p) (serve-IsConnection e w.valid))
      ]
]

sweep_one-IsServer : (now fd : ℕ) {s : Server} → IsServer s → IsServer (sweep_one now fd s)
unfolding sweep_one
sweep_one-IsServer now fd {s} v = elim (Option-cases (s.conns fd)) [
  | inl n ↦ rw (n, sweep_one) v
  | inr (c, p) ↦ elim (Bool-cases (ltb (c.last_active + 30) now)) [
    | inl t ↦
        rw (p, t, sweep_one) (conn_close-IsServer c c v (ap s.conns (v.slots fd c p).named ∙ p))
    | inr t ↦ rw (p, t, sweep_one) v
  ]
]

sweep_loop-IsServer :
    (rounds fd now : ℕ) {s : Server} → IsServer s → IsServer (sweep_loop rounds fd now s)
unfolding sweep_loop
sweep_loop-IsServer zero fd now v = v
sweep_loop-IsServer (suc rounds) fd now v =
    sweep_loop-IsServer rounds (fd + 1) now (sweep_one-IsServer now fd v)

-- The connections below `n` were active in the last 30 seconds.
abbrev Swept : ℕ → Server → ℕ → Type 0
Swept now s n =
    (i : ℕ) (c : Connection) → i < n → s.conns i ≡ some c → now ≤ c.last_active + idle_limit

conn_close-conns :
    (c : Connection) (s : Server) (i : ℕ) → (conn_close c s).conns i ≡ store s.conns c.fd none i
unfolding conn_close
conn_close-conns c s i = refl

-- What is at `i` behind a step of the loop was there before, and if the step was about `i` it was
-- not idle.
sweep_one_lem :
    (now fd i : ℕ) {s : Server} {c : Connection}
    → IsServer s
    → (sweep_one now fd s).conns i ≡ some c
    → (s.conns i ≡ some c) × ((i ≢ fd) ⊎ (now ≤ c.last_active + idle_limit))
sweep_one_lem now fd i {s} {c} v e = elim (Option-cases (s.conns fd)) [
  | inl n ↦
      let same : sweep_one now fd s ≡ s = unfold sweep_one in rw (n, sweep_one) refl in
      let old = ap (λ t. t.conns i) (sym same) ∙ e in
      (old, inl (λ q. none≢some (sym n ∙ ap s.conns (sym q) ∙ old)))
  | inr (d, p) ↦ elim (Bool-cases (ltb (d.last_active + idle_limit) now)) [
    | inl t ↦
        let gone : sweep_one now fd s ≡ conn_close d s =
          unfold sweep_one in rw (p, t, sweep_one) refl in
        closed d (v.slots fd d p).named (ap (λ r. r.conns i) (sym gone) ∙ e)
    | inr t ↦
        let kept : sweep_one now fd s ≡ s = unfold sweep_one in rw (p, t, sweep_one) refl in
        active d p (ground arith) (ap (λ r. r.conns i) (sym kept) ∙ e)
  ]
]
  where
    closed :
        (d : Connection)
        → d.fd ≡ fd
        → (conn_close d s).conns i ≡ some c
        → (s.conns i ≡ some c) × ((i ≢ fd) ⊎ (now ≤ c.last_active + idle_limit))
    closed d h q = elim (Bool-cases (i == d.fd)) [
      | inl t ↦ absurd (
          none≢some (
            sym (store_here s.conns d.fd i none (ground arith)) ∙ sym (conn_close-conns d s i) ∙ q))
      | inr f ↦ (
        sym (store_there s.conns d.fd i none f) ∙ sym (conn_close-conns d s i) ∙ q,
        inl (ground arith),
      )
    ]

    active :
        (d : Connection)
        → s.conns fd ≡ some d
        → now ≤ d.last_active + idle_limit
        → s.conns i ≡ some c
        → (s.conns i ≡ some c) × ((i ≢ fd) ⊎ (now ≤ c.last_active + idle_limit))
    active d p h q = elim (Bool-cases (i == fd)) [
      | inr f ↦ (q, inl (ground arith))
      | inl t ↦
          let same : i ≡ fd = ground arith in
          (
            q,
            inr (
                subst (λ o. elim o [ none ↦ Unit | some x ↦ now ≤ x.last_active + idle_limit ])
                  (sym p ∙ ap s.conns (sym same) ∙ q) h),
          )
    ]

sweep_loop-Swept :
    (rounds fd now : ℕ) {s : Server}
    → IsServer s
    → Swept now s fd
    → Swept now (sweep_loop rounds fd now s) (rounds + fd)
unfolding sweep_loop
sweep_loop-Swept zero fd now v h i c l e = h i c (omega arith) e
sweep_loop-Swept (suc rounds) fd now {s} v h i c l e =
    sweep_loop-Swept rounds (fd + 1) now (sweep_one-IsServer now fd v) next i c (omega arith) e
  where
    next : Swept now (sweep_one now fd s) (fd + 1)
    next j d m q =
        let (old, new) = sweep_one_lem now fd j v q in
        elim new [ inl ne ↦ h j d (ground arith) old | inr k ↦ k ]

-- `sweep_idle` closes every connection that was idle for more than 30 seconds, and keeps the table,
-- the counters and epoll in step.
pub sweep_idle_lem :
    (now : ℕ) {s : Server}
    → IsServer s
    → IsServer (sweep_idle now s)
      × ((fd : ℕ) (c : Connection)
          → (sweep_idle now s).conns fd ≡ some c
          → now ≤ c.last_active + idle_limit)
unfolding sweep_idle
sweep_idle_lem now {s} v =
    let kept = sweep_loop-IsServer table_size 0 now v in
    (
      kept,
      λ fd c e.
          sweep_loop-Swept table_size 0 now v (λ i d l q. absurd (omega arith)) fd c
            (omega (arith, (kept.slots fd c e).in_table)) e,
    )
