-- ===== src/Protocol/Bounds.antt =====
-- The buffer bounds of protocol.c.
use programming_with_c.Base.{
  ℕ, ◌-◌, ◌<◌, ◌≡◌, refl, List, [], ◌∷◌, arith, leb, ◌==◌, length, length-set, inl, inr, Bool-cases,
}
use programming_with_c.Protocol.{
  Protocol, Outcome, max_line, init, store_byte, end_line, read_loop, check_timeout, poll,
}

-- The index of the next write stays inside the line buffer.
pub record IsBounded (p : Protocol) : Type 0 where
  pub storage : length p.line ≡ max_line
  pub room : p.used < max_line

pub init-IsBounded : IsBounded init
unfolding init
init-IsBounded = record { storage = refl; room = omega arith }

store_byte-IsBounded :
    (now c : ℕ) {p : Protocol}
    → IsBounded p
    → p.used < max_line - 1
    → IsBounded (store_byte now c p)
unfolding store_byte
store_byte-IsBounded now c {p} b h = record {
  storage = omega (arith, length-set p.line p.used c, b.storage);
  room = omega arith;
}

end_line-IsBounded : (now : ℕ) {p : Protocol} → IsBounded p → IsBounded (end_line now p)
unfolding end_line
end_line-IsBounded now {p} b = record {
  storage = omega (arith, length-set p.line p.used 0, b.storage);
  room = omega arith;
}

read_loop-IsBounded :
    (now : ℕ) (cs : List ℕ) {p : Protocol} (out : List ℕ)
    → IsBounded p
    → IsBounded (read_loop now cs p out).state
unfolding read_loop
read_loop-IsBounded now [] out b = b
read_loop-IsBounded now (c ∷ cs) {p} out b = elim (Bool-cases (c == 10)) [
  | inl t ↦ rw t (read_loop-IsBounded now cs _ (end_line-IsBounded now b))
  | inr f ↦ elim (Bool-cases (leb 63 p.used)) [
    | inl t ↦ rw (f, t) (record { storage = b.storage; room = omega arith })
    | inr g ↦
        rw (f, g) (read_loop-IsBounded now cs out (store_byte-IsBounded now c b (ground arith)))
  ]
]

check_timeout-IsBounded :
    (now : ℕ) (r : Outcome) → IsBounded r.state → IsBounded (check_timeout now r).state
unfolding check_timeout
check_timeout-IsBounded now r b = ground (arith, b.storage, b.room)

-- Whatever arrives, `protocol_poll` leaves the write index inside the line buffer.
pub poll-IsBounded :
    (now : ℕ) (cs : List ℕ) {p : Protocol} → IsBounded p → IsBounded (poll now cs p).state
unfolding poll
poll-IsBounded now cs {p} b =
    check_timeout-IsBounded now (read_loop now cs p []) (read_loop-IsBounded now cs [] b)
