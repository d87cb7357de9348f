-- ===== src/Constrained/Pool.antt =====
-- The fixed-block pool of constrained.c. A block is its index in `pool_storage`; the first word of
-- block `b`, where a free block keeps its `next` pointer, is `next b`. NULL is `none`.
pub mod Laws
use programming_with_c.Base.{
  ℕ, zero, suc, ◌+◌, ◌-◌, ◌%◌, ◌^◌, Bool, Option, none, some, ltb, ◌==◌, if◌then◌else◌,
}

pub record Pool : Type 0 where
  pub next : ℕ → Option ℕ
  pub free_list : Option ℕ
  pub in_use : ℕ
  pub peak : ℕ

abbrev pub pool_blocks : ℕ
pool_blocks = 8

abbrev pub store : (ℕ → Option ℕ) → ℕ → Option ℕ → ℕ → Option ℕ
store next b v a = if a == b then v else next a

-- The loop of `pool_init`, with `rounds` blocks left, the next of them `i`.
pub init_loop : ℕ → ℕ → Pool → Pool
init_loop zero i p = p
init_loop (suc rounds) i p =
    init_loop rounds (i + 1) (record p { next = store p.next i p.free_list; free_list = some i })

pub init : Pool → Pool
unfolding init_loop
init p =
    let q = init_loop pool_blocks 0 (record p { free_list = none }) in
    record q { in_use = 0; peak = 0 }

pub alloc : Pool → Option ℕ × Pool
alloc p = elim p.free_list [
  | none ↦ (none, p)
  | some b ↦
      let used = (p.in_use + 1) % 2 ^ 32 in
      (
        some b,
        record p {
          free_list = p.next b;
          in_use = used;
          peak = if ltb p.peak used then used else p.peak;
        },
      )
]

-- `pool_in_use--` on a `uint32_t`.
pub free : Option ℕ → Pool → Pool
free none p = p
free (some b) p = record p {
  next = store p.next b p.free_list;
  free_list = some b;
  in_use = (p.in_use + 2 ^ 32 - 1) % 2 ^ 32;
}

-- What a client does with a block that it holds: it overwrites the first word.
pub client_write : ℕ → Option ℕ → Pool → Pool
client_write b v p = record p { next = store p.next b v }
