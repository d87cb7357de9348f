-- ===== src/Protocol/Polls.antt =====
-- What one call of `protocol_poll` of protocol.c does with the bytes that have arrived.
use programming_with_c.Base.{
  ℕ, suc, ◌+◌, ◌-◌, drop, ◌%◌, ◌^◌, ◌≤◌, ◌<◌, ◌≡◌, ◌≢◌, refl, ap, ◌∙◌, false, List, [], ◌∷◌, ◌++◌,
  All, arith, leb, ◌==◌, length, length-set, length-append, inl, inr, Bool-cases,
}
use mathlib.Core.Path.{subst, sym}
use mathlib.Core.List.{append-nil}
use programming_with_c.Base.Text.{newline}
use programming_with_c.Protocol.{
  Protocol, Outcome, max_line, store_byte, end_line, end_reply, read_loop, check_timeout, poll,
  proto_ok, proto_overflow, overflow_text,
}
use programming_with_c.Protocol.Lines.{
  Partial, store_all, store_byte-Partial, read_loop-stores, line_reply, end_reply-Partial,
}

store_all-lines :
    (now : ℕ) (cs : List ℕ) (p : Protocol) → (store_all now cs p).lines_handled ≡ p.lines_handled
unfolding store_all store_byte
store_all-lines now [] p = refl
store_all-lines now (c ∷ cs) p = store_all-lines now cs (store_byte now c p)

store_all-tick :
    (now : ℕ) (cs : List ℕ) (p : Protocol)
    → p.last_byte_tick ≡ now
    → (store_all now cs p).last_byte_tick ≡ now
unfolding store_all store_byte
store_all-tick now [] p h = h
store_all-tick now (c ∷ cs) p h = store_all-tick now cs (store_byte now c p) refl

end_line-Partial :
    (now : ℕ) {p : Protocol} {xs : List ℕ} → Partial p xs → Partial (end_line now p) []
unfolding end_line
end_line-Partial now {p} q = record {
  storage = length-set p.line p.used 0 ∙ q.storage;
  size = refl;
  room = omega arith;
  held = refl;
}

-- A reading loop that ended at `now` with nothing pending, or with a byte read just now, is no
-- timeout.
no_timeout :
    (now : ℕ) (r : Outcome)
    → r.status ≡ proto_ok
    → r.state.last_byte_tick ≡ now
    → check_timeout now r ≡ r
unfolding check_timeout
no_timeout now r s t = ground arith

abbrev ended : ℕ → Protocol → Outcome
ended now s = record {
  status = proto_ok;
  state = end_line now s;
  unread = [];
  output = end_reply s;
}

read_end : (now : ℕ) (s : Protocol) → read_loop now (newline ∷ []) s [] ≡ ended now s
unfolding read_loop
read_end now s = refl

tick : (now : ℕ) (s : Protocol) → (end_line now s).last_byte_tick ≡ now
unfolding end_line
tick now s = refl

counts : (now : ℕ) (s : Protocol) → (end_line now s).lines_handled ≡ (s.lines_handled + 1) % 2 ^ 32
unfolding end_line
counts now s = refl

-- The outcome of a poll that completes the line `xs`.
pub record Answered (now : ℕ) (p : Protocol) (xs : List ℕ) (r : Outcome) : Type 0 where
  pub reply : r.output ≡ line_reply ((p.lines_handled + 1) % 2 ^ 32) xs
  pub status : r.status ≡ proto_ok
  pub all_read : r.unread ≡ []
  pub counted : r.state.lines_handled ≡ (p.lines_handled + 1) % 2 ^ 32
  pub fresh : Partial r.state []

-- A poll whose only newline is the last byte that has arrived, and that completes a line of at most 63
-- bytes without a zero byte, begun in earlier polls or not, answers with the number of the line and its
-- text, reads everything, counts the line and starts afresh.
pub poll_line :
    (now : ℕ) (cs : List ℕ) {p : Protocol} (xs : List ℕ)
    → Partial p xs
    → All (λ c. c ≢ newline) cs
    → All (λ c. c ≢ 0) (xs ++ cs)
    → length xs + length cs < max_line
    → Answered now p (xs ++ cs) (poll now (cs ++ (newline ∷ [])) p)
unfolding poll
poll_line now cs {p} xs q plain texts fits =
    let (stored, part) = read_loop-stores now cs (newline ∷ []) xs [] q plain fits in
    let s = store_all now cs p in
    subst (Answered now p (xs ++ cs))
      (sym (
        ap (check_timeout now) (stored ∙ read_end now s)
        ∙ no_timeout now (ended now s) refl (tick now s)))
      (record {
        reply =
            end_reply-Partial (xs ++ cs) part texts
            ∙ ap (λ n. line_reply ((n + 1) % 2 ^ 32) (xs ++ cs)) (store_all-lines now cs p);
        status = refl;
        all_read = refl;
        counted = counts now s ∙ ap (λ n. (n + 1) % 2 ^ 32) (store_all-lines now cs p);
        fresh = end_line-Partial now part;
      })

-- A poll that brings the beginning of a line, or more of it, keeps it and writes nothing.
pub poll_partial :
    (now c : ℕ) (cs : List ℕ) {p : Protocol} (xs : List ℕ)
    → Partial p xs
    → All (λ d. d ≢ newline) (c ∷ cs)
    → length xs + length (c ∷ cs) < max_line
    → ((poll now (c ∷ cs) p).output ≡ [])
      × ((poll now (c ∷ cs) p).status ≡ proto_ok)
      × ((poll now (c ∷ cs) p).state.lines_handled ≡ p.lines_handled)
      × Partial (poll now (c ∷ cs) p).state (xs ++ (c ∷ cs))
unfolding poll read_loop
poll_partial now c cs {p} xs q plain fits =
    let (stored, part) = read_loop-stores now (c ∷ cs) [] xs [] q plain fits in
    let s = store_all now (c ∷ cs) p in
    let quiet : Outcome = record { status = proto_ok; state = s; unread = []; output = [] } in
    let tick : s.last_byte_tick ≡ now =
      (unfold store_all store_byte in store_all-tick now cs (store_byte now c p) refl) in
    let e : poll now (c ∷ cs) p ≡ quiet =
      ap (λ b. poll now b p) (sym (append-nil (c ∷ cs)))
      ∙ ap (check_timeout now) stored
      ∙ no_timeout now quiet refl tick in
    subst
      (λ r.
        (r.output ≡ [])
        × (r.status ≡ proto_ok)
        × (r.state.lines_handled ≡ p.lines_handled)
        × Partial r.state (xs ++ (c ∷ cs)))
      (sym e) (refl, refl, store_all-lines now (c ∷ cs) p, part)

-- The outcome of a reading loop that meets a line without room.
pub record Overflowed (handled : ℕ) (behind : List ℕ) (r : Outcome) : Type 0 where
  pub status : r.status ≡ proto_overflow
  pub dropped : r.state.used ≡ 0
  pub remembered : r.state.last_status ≡ proto_overflow
  pub output : r.output ≡ overflow_text
  pub stopped : r.unread ≡ behind
  pub uncounted : r.state.lines_handled ≡ handled

read_loop-overflows :
    (now : ℕ) (cs rest : List ℕ) {p : Protocol} (xs : List ℕ)
    → Partial p xs
    → All (λ c. c ≢ newline) cs
    → max_line ≤ length xs + length cs
    → Overflowed p.lines_handled
        (drop (max_line - length xs) (cs ++ rest))
        (read_loop now (cs ++ rest) p [])
unfolding read_loop store_byte
read_loop-overflows now [] rest xs q a h = absurd (omega (arith, q.size, q.room))
read_loop-overflows now (c ∷ cs) rest {p} xs q a h =
    let plain : (c == 10) ≡ false = ground (arith, a.0) in
    elim (Bool-cases (leb 63 p.used)) [
      | inl t ↦
          let one : max_line - length xs ≡ 1 = ground (arith, t, q.size, q.room) in
          rw (plain, t)
            (record {
              status = refl;
              dropped = refl;
              remembered = refl;
              output = refl;
              stopped = rw one refl;
              uncounted = refl;
            })
      | inr f ↦
          let less : max_line - length xs ≡ suc (max_line - length (xs ++ (c ∷ []))) =
            ground (arith, f, q.size, length-append xs (c ∷ [])) in
          rw (plain, f, less)
            (read_loop-overflows now cs rest (xs ++ (c ∷ []))
              (store_byte-Partial now c xs q (ground arith)) a.1
              (omega (arith, length-append xs (c ∷ []))))
    ]

overflow_no_timeout :
    (now handled : ℕ) (behind : List ℕ) (r : Outcome)
    → Overflowed handled behind r
    → Overflowed handled behind (check_timeout now r)
unfolding check_timeout
overflow_no_timeout now handled behind r o = subst (Overflowed handled behind) same o
  where
    same : r ≡ check_timeout now r
    same = ground (arith, o.status)

-- A poll that brings a line to 64 bytes or more without a newline, whether or not it began in earlier
-- polls, stops behind the 64th byte of the line with the overflow status, which it remembers: it sends
-- one message, gives up these bytes without counting a line, and leaves those behind them unread.
pub poll_overflow :
    (now : ℕ) (cs rest : List ℕ) {p : Protocol} (xs : List ℕ)
    → Partial p xs
    → All (λ c. c ≢ newline) cs
    → max_line ≤ length xs + length cs
    → Overflowed p.lines_handled
        (drop (max_line - length xs) (cs ++ rest))
        (poll now (cs ++ rest) p)
unfolding poll
poll_overflow now cs rest {p} xs q a h =
    overflow_no_timeout now p.lines_handled (drop (max_line - length xs) (cs ++ rest))
      (read_loop now (cs ++ rest) p []) (read_loop-overflows now cs rest xs q a h)
