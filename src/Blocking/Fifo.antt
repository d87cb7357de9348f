-- ===== src/Blocking/Fifo.antt =====
-- The queue of concurrent.c is a first-in-first-out queue of at most eight values.
use programming_with_c.Base.{
  ℕ, zero, suc, ◌+◌, ◌-◌, ◌%◌, ◌^◌, ◌<◌, ◌≤◌, ◌≡◌, ◌≢◌, refl, sym, ap, ◌∙◌, true, false, List, [],
  ◌∷◌, ◌++◌, Option, none, some, arith, ◌==◌, length, get_or, set, length-set, get_or-set_self,
  get_or-set_ne, inl, inr, Bool-cases,
}
use mathlib.Core.Path.{subst}
use programming_with_c.Base.Int.{ℤ, pos}
use programming_with_c.Blocking.{Queue, queue_capacity, after, push, pop, init}

-- The `n` values from slot `i` on, going round.
abbrev pub items_from : List ℤ → ℕ → ℕ → List ℤ
items_from items i zero = []
items_from items i (suc n) = get_or items i (pos 0) ∷ items_from items (after i) n

abbrev pub contents : Queue → List ℤ
contents q = items_from q.items q.head q.count

pub record IsQueue (q : Queue) : Type 0 where
  pub storage : length q.items ≡ queue_capacity
  pub head_in : q.head < queue_capacity
  pub room : q.count ≤ queue_capacity
  pub tail_at : q.tail ≡ (q.head + q.count) % queue_capacity

items_from-set :
    (items : List ℤ) (v : ℤ) (n i t : ℕ)
    → length items ≡ queue_capacity
    → i < queue_capacity
    → n < queue_capacity
    → t ≡ (i + n) % queue_capacity
    → items_from (set items t v) i (suc n) ≡ items_from items i n ++ (v ∷ [])
items_from-set items v zero i t s hi hn e =
    let e' : t ≡ i = omega arith in rw (e', get_or-set_self items i v (pos 0) (omega arith))
items_from-set items v (suc n) i t s hi hn e =
    rw (get_or-set_ne items t i v (pos 0) (omega arith)) (
      ap (λ xs. get_or items i (pos 0) ∷ xs)
        (items_from-set items v n (after i) t s (omega arith) (omega arith) (omega arith)))

items_from_pos :
    (items : List ℤ) (i n : ℕ)
    → n ≢ 0
    → items_from items i n ≡ get_or items i (pos 0) ∷ items_from items (after i) (n - 1)
items_from_pos items i zero h = absurd (h refl)
items_from_pos items i (suc n) h = ap (λ k. items_from items i (suc k)) (omega arith)

pub init-IsQueue : (items : List ℤ) → length items ≡ queue_capacity → IsQueue (init items)
unfolding init
init-IsQueue items h = record {
  storage = h;
  head_in = omega arith;
  room = omega arith;
  tail_at = omega arith;
}

-- What a step of `queue_push` does: it waits on an open full queue, drops the value on a closed
-- queue, and appends it otherwise.
pub data Pushes (q : Queue) (v : ℤ) : Option Queue → Type 0 where
  waits : q.count ≡ queue_capacity → q.closed ≡ false → Pushes q v none
  drops : q.closed ≡ true → Pushes q v (some q)
  appends :
      {q' : Queue}
      → q.closed ≡ false
      → q'.closed ≡ false
      → IsQueue q'
      → contents q' ≡ contents q ++ (v ∷ [])
      → Pushes q v (some q')

pub push-Pushes : {q : Queue} (v : ℤ) → IsQueue q → Pushes q v (push q v)
push-Pushes {q} v w = elim (Bool-cases q.closed) [
  | inl c ↦ subst (λ r. Pushes q v r) (sym (closed c)) (drops c)
  | inr o ↦ elim (Bool-cases (q.count == queue_capacity)) [
    | inl f ↦ subst (λ r. Pushes q v r) (sym (full o f)) (waits (ground arith) o)
    | inr f ↦
        subst (λ r. Pushes q v r) (sym (fits o f))
          (appends o o
            (record {
              storage = length-set q.items q.tail v ∙ w.storage;
              head_in = w.head_in;
              room = ground (arith, w.room);
              tail_at = ground (arith, w.room, w.tail_at, w.head_in);
            })
            (one_more (ground (arith, w.room))))
  ]
]
  where
    stored : Queue
    stored = record q {
      items = set q.items q.tail v;
      tail = after q.tail;
      count = (q.count + 1) % 2 ^ 64;
    }

    closed : q.closed ≡ true → push q v ≡ some q
    closed c = unfold push in ground (arith, c)

    full : q.closed ≡ false → (q.count == queue_capacity) ≡ true → push q v ≡ none
    full o f = unfold push in ground (arith, o, f)

    fits : q.closed ≡ false → (q.count == queue_capacity) ≡ false → push q v ≡ some stored
    fits o f = unfold push in ground (arith, o, f)

    one_more :
        q.count < queue_capacity
        → items_from (set q.items q.tail v) q.head ((q.count + 1) % 2 ^ 64) ≡ contents q ++ (v ∷ [])
    one_more h =
        ap (items_from (set q.items q.tail v) q.head) {y = suc q.count} (omega arith)
        ∙ items_from-set q.items v q.count q.head q.tail w.storage w.head_in h w.tail_at

-- What a step of `queue_pop` does: it waits on an open empty queue, reports the end on a closed
-- empty one, and takes the oldest value otherwise.
pub data Pops (q : Queue) : Option (Option ℤ × Queue) → Type 0 where
  waits : contents q ≡ [] → q.closed ≡ false → Pops q none
  ends : contents q ≡ [] → q.closed ≡ true → Pops q (some (none, q))
  takes :
      {q' : Queue} {v : ℤ}
      → q'.closed ≡ q.closed
      → IsQueue q'
      → contents q ≡ v ∷ contents q'
      → Pops q (some (some v, q'))

pub pop-Pops : {q : Queue} → IsQueue q → Pops q (pop q)
pop-Pops {q} w = elim (Bool-cases (q.count == 0)) [
  | inl z ↦ elim (Bool-cases q.closed) [
    | inl c ↦ subst (λ r. Pops q r) (sym (over z c)) (ends (nothing z) c)
    | inr o ↦ subst (λ r. Pops q r) (sym (empty z o)) (waits (nothing z) o)
  ]
  | inr p ↦
      subst (λ r. Pops q r) (sym (oldest p))
        (takes refl
          (record {
            storage = w.storage;
            head_in = omega arith;
            room = omega (arith, w.room);
            tail_at = ground (arith, w.tail_at, w.head_in, w.room);
          })
          (items_from_pos q.items q.head q.count (ground arith)))
]
  where
    nothing : (q.count == 0) ≡ true → contents q ≡ []
    nothing z = ap (items_from q.items q.head) {y = 0} (ground arith)

    over : (q.count == 0) ≡ true → q.closed ≡ true → pop q ≡ some (none, q)
    over z c = unfold pop in ground (arith, z, c)

    empty : (q.count == 0) ≡ true → q.closed ≡ false → pop q ≡ none
    empty z o = unfold pop in ground (arith, z, o)

    oldest :
        (q.count == 0) ≡ false
        → pop q
          ≡ some (
            some (get_or q.items q.head (pos 0)),
            record q { head = after q.head; count = q.count - 1 },
          )
    oldest p = unfold pop in ground (arith, p)
