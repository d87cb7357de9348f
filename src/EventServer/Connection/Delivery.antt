-- ===== src/EventServer/Connection/Delivery.antt =====
-- What evserver.c sends: the bytes that were queued, in their order.
use programming_with_c.Base.{
  ℕ, zero, suc, ◌+◌, ◌-◌, ◌≤◌, ◌≡◌, refl, sym, ap, ◌∙◌, false, List, [], ◌∷◌, ◌++◌, length, take,
  drop, arith, take-append-drop, Bool-cases, inl, inr,
}
use mathlib.Core.List.{append_assoc}
use programming_with_c.EventServer.Connection.{
  Connection, Sent, sent, blocked, stopped, broken, Send, Taken, wants_write, after_send,
  conn_writable,
}
use programming_with_c.EventServer.Connection.Bounds.{IsConnection}

-- The bytes that wait to be sent.
abbrev pub pending : Connection → List ℕ
pending c = drop c.out_sent c.output

pub record Delivered (c : Connection) (r : Connection × List ℕ) : Type 0 where
  pub valid : IsConnection r.0
  pub conserved : r.1 ++ pending r.0 ≡ pending c

drop_all {ℓ} : {A : Type ℓ} (xs : List A) (n : ℕ) → length xs ≤ n → drop n xs ≡ []
drop_all [] zero h = refl
drop_all [] (suc n) h = refl
drop_all (x ∷ xs) zero h = absurd (omega arith)
drop_all (x ∷ xs) (suc n) h = drop_all xs n (omega arith)

drop-drop {ℓ} : {A : Type ℓ} (xs : List A) (m n : ℕ) → drop n (drop m xs) ≡ drop (m + n) xs
drop-drop xs zero n = ap (λ k. drop k xs) (omega arith)
drop-drop [] (suc m) n = drop_all [] n (omega arith) ∙ sym (drop_all [] (suc m + n) (omega arith))
drop-drop (x ∷ xs) (suc m) n =
    drop-drop xs m n ∙ ap (λ k. drop k (x ∷ xs)) {x = suc (m + n)} (omega arith)

-- A drained buffer is emptied.
drained :
    {c : Connection}
    → wants_write c ≡ false
    → IsConnection c
    → Delivered c (record c { output = []; out_sent = 0 }, [])
drained {c} f v = record {
  valid = record {
    in_fits = v.in_fits;
    out_fits = omega arith;
    sent_fits = omega arith;
    readable = v.readable;
  };
  conserved = sym (drop_all c.output c.out_sent (ground arith));
}

after_send-Delivered :
    (now : ℕ) (continue : Connection → Connection × List ℕ) {c : Connection} (x : Sent)
    → ((d : Connection) → IsConnection d → Delivered d (continue d))
    → Taken (length c.output - c.out_sent) x
    → IsConnection c
    → Delivered c (after_send now continue c x)
unfolding after_send
after_send-Delivered now continue {c} (sent n) next w v =
    let d =
      next (record c { out_sent = c.out_sent + n; last_active = now })
        (record {
          in_fits = v.in_fits;
          out_fits = v.out_fits;
          sent_fits = omega (arith, w, v.sent_fits);
          readable = v.readable;
        }) in
    record {
      valid = d.valid;
      conserved =
          append_assoc (take n (pending c)) _ _
          ∙ ap (λ xs. take n (pending c) ++ xs)
              (d.conserved ∙ sym (drop-drop c.output c.out_sent n))
          ∙ take-append-drop n (pending c);
    }
after_send-Delivered now continue blocked next w v = record { valid = v; conserved = refl }
after_send-Delivered now continue {c} stopped next w v = next c v
after_send-Delivered now continue broken next w v = record {
  valid = record {
    in_fits = v.in_fits;
    out_fits = v.out_fits;
    sent_fits = v.sent_fits;
    readable = inl refl;
  };
  conserved = refl;
}

-- `conn_writable` hands to `send` the bytes that wait, from the first on and in their order, and
-- those that `send` does not take go on waiting; the connection stays inside its buffers.
pub conn_writable-Delivered :
    (ss : List Send) {c : Connection} → IsConnection c → Delivered c (conn_writable ss c)
unfolding conn_writable
conn_writable-Delivered [] {c} v = elim (Bool-cases (wants_write c)) [
  | inl t ↦ rw t (record { valid = v; conserved = refl })
  | inr f ↦ rw f (drained f v)
]
conn_writable-Delivered (s ∷ ss) {c} v = elim (Bool-cases (wants_write c)) [
  | inl t ↦ rw t (
      after_send-Delivered s.now (conn_writable ss) _ (λ d w. conn_writable-Delivered ss w)
        (s.within (length c.output - c.out_sent) (ground arith)) v)
  | inr f ↦ rw f (drained f v)
]
