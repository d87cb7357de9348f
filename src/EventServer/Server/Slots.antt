-- ===== src/EventServer/Server/Slots.antt =====
-- What the table of evserver.c, its counters and epoll have to do with each other, and what changes
-- of one entry preserve.
use programming_with_c.Base.{
  ℕ, ◌+◌, ◌-◌, ◌<◌, ◌≤◌, ◌≡◌, ◌≢◌, inl, inr, refl, sym, ap, ◌∙◌, Bool, false, not, ◌&&◌, Option,
  none, some, arith, ◌==◌, Bool-cases,
}
use mathlib.Core.Path.{subst, fun_ext}
use programming_with_c.EventServer.Connection.{Connection, wants_write}
use programming_with_c.EventServer.Connection.Bounds.{IsConnection}
use programming_with_c.EventServer.Server.{
  Server, table_size, store, conn_close, update_interest, settle,
}
use programming_with_c.EventServer.Server.Counts.{one_if_some, entries, entries-store}

-- What is kept for one open connection: its number, its buffers, and that epoll reports
-- writability exactly if something waits to be sent.
pub record Slot (interest : ℕ → Option Bool) (fd : ℕ) (c : Connection) : Type 0 where
  pub in_table : fd < table_size
  pub named : c.fd ≡ fd
  pub valid : IsConnection c
  pub watched : interest fd ≡ some (wants_write c)

abbrev pub Slots : (ℕ → Option Connection) → (ℕ → Option Bool) → Type 0
Slots conns interest = (fd : ℕ) (c : Connection) → conns fd ≡ some c → Slot interest fd c

pub record IsServer (s : Server) : Type 0 where
  pub slots : Slots s.conns s.interest
  pub counted_live : entries table_size s.conns ≡ s.live
  pub peak_above : s.live ≤ s.peak
  pub total_above : s.peak ≤ s.total

pub store_here {ℓ} :
    {A : Type ℓ} (t : ℕ → Option A) (k i : ℕ) (v : Option A) → i ≡ k → store t k v i ≡ v
store_here t k i v e = ground arith

pub store_there {ℓ} :
    {A : Type ℓ} (t : ℕ → Option A) (k i : ℕ) (v : Option A)
    → (i == k) ≡ false
    → store t k v i ≡ t i
store_there t k i v e = ground arith

Slots-store :
    {conns : ℕ → Option Connection} {interest : ℕ → Option Bool} (k : ℕ) (v : Option Connection)
    (w : Option Bool)
    → Slots conns interest
    → ((c : Connection) → v ≡ some c → Slot (store interest k w) k c)
    → Slots (store conns k v) (store interest k w)
Slots-store {conns} {interest} k v w slots new fd c e = elim (Bool-cases (fd == k)) [
  | inl t ↦
      let same : fd ≡ k = ground arith in
      subst (λ i. Slot (store interest k w) i c) (sym same)
        (new c (sym (store_here conns k fd v same) ∙ e))
  | inr f ↦
      let old = slots fd c (sym (store_there conns k fd v f) ∙ e) in
      record {
        in_table = old.in_table;
        named = old.named;
        valid = old.valid;
        watched = store_there interest k fd w f ∙ old.watched;
      }
]

pub none≢some {ℓ} : {A : Type ℓ} {a : A} → none ≢ some a
none≢some e = cc e

-- A descriptor whose connection is open is closed.
pub conn_close-IsServer :
    {s : Server} (c old : Connection)
    → IsServer s
    → s.conns c.fd ≡ some old
    → IsServer (conn_close c s)
unfolding conn_close
conn_close-IsServer {s} c old v e =
    let n = entries-store table_size c.fd none s.conns (v.slots c.fd old e).in_table in
    let one : one_if_some (s.conns c.fd) ≡ 1 = ap one_if_some e in
    record {
      slots = Slots-store c.fd none none v.slots (λ d q. absurd (none≢some q));
      counted_live = omega (arith, n, one, v.counted_live);
      peak_above = omega (arith, v.peak_above);
      total_above = v.total_above;
    }

-- The slot of a connection that was just entered.
new-Slot :
    (interest : ℕ → Option Bool) {c d : Connection} {i : Option Bool}
    → c.fd < table_size
    → IsConnection c
    → i ≡ some (wants_write c)
    → some c ≡ some d
    → Slot (store interest c.fd i) c.fd d
new-Slot interest {c} {d} {i} room w e q =
    subst (λ x. Slot (store interest c.fd i) c.fd x) same
      (record {
        in_table = room;
        named = refl;
        valid = w;
        watched = store_here interest c.fd c.fd i refl ∙ e;
      })
  where
    same : c ≡ d
    same = ap (λ o. elim o [ none ↦ c | some x ↦ x ]) q

-- A connection takes the place of the one that was open there.
pub replace-IsServer :
    {s : Server} {c : Connection} (old : Connection)
    → IsServer s
    → s.conns c.fd ≡ some old
    → IsConnection c
    → IsServer (update_interest c (record s { conns = store s.conns c.fd (some c) }))
unfolding update_interest
replace-IsServer {s} {c} old v e w =
    let room = (v.slots c.fd old e).in_table in
    let n = entries-store table_size c.fd (some c) s.conns room in
    let one : one_if_some (s.conns c.fd) ≡ 1 = ap one_if_some e in
    record {
      slots =
          Slots-store c.fd (some c) (some (wants_write c)) v.slots
            (λ d q. new-Slot s.interest room w refl q);
      counted_live = omega (arith, n, one, v.counted_live);
      peak_above = v.peak_above;
      total_above = v.total_above;
    }

store-store {ℓ} :
    {A : Type ℓ} (t : ℕ → Option A) (k : ℕ) (v w : Option A) → store (store t k v) k w ≡ store t k w
store-store t k v w = fun_ext λ i. ground arith

pub settle-IsServer :
    {s : Server} {c : Connection} (old : Connection)
    → IsServer s
    → s.conns c.fd ≡ some old
    → IsConnection c
    → IsServer (settle c s)
unfolding settle
settle-IsServer {s} {c} old v e w = elim (Bool-cases (c.closing && not (wants_write c))) [
  | inl t ↦ rw t (subst IsServer closed (conn_close-IsServer c old v e))
  | inr f ↦ rw f (replace-IsServer old v e w)
]
  where
    closed : conn_close c s ≡ conn_close c (record s { conns = store s.conns c.fd (some c) })
    closed =
        unfold conn_close in
        ap (λ t. record s { conns = t; interest = store s.interest c.fd none; live = s.live - 1 })
          (sym (store-store s.conns c.fd (some c) none))

-- A new connection: the table gets one entry more, which is counted.
pub enter-IsServer :
    {s : Server} {c : Connection} (peak : ℕ)
    → IsServer s
    → c.fd < table_size
    → s.conns c.fd ≡ none
    → IsConnection c
    → s.live + 1 ≤ peak
    → peak ≤ s.total + 1
    → IsServer (
        update_interest c (record {
          conns = store s.conns c.fd (some c);
          interest = s.interest;
          live = s.live + 1;
          peak = peak;
          total = s.total + 1;
        }))
unfolding update_interest
enter-IsServer {s} {c} peak v room e w h k =
    let n = entries-store table_size c.fd (some c) s.conns room in
    let free : one_if_some (s.conns c.fd) ≡ 0 = ap one_if_some e in
    record {
      slots =
          Slots-store c.fd (some c) (some (wants_write c)) v.slots
            (λ d q. new-Slot s.interest room w refl q);
      counted_live = omega (arith, n, free, v.counted_live);
      peak_above = h;
      total_above = k;
    }
