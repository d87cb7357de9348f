-- ===== src/Constrained/Ring/Fifo.antt =====
-- The ring of constrained.c is a first-in-first-out queue of at most fifteen bytes.
use programming_with_c.Base.{
  ℕ, zero, suc, ◌+◌, ◌-◌, ◌%◌, ◌<◌, ◌≡◌, ◌≢◌, refl, ap, ◌∙◌, lt→ltb, Bool, true, false, List, [],
  ◌∷◌, ◌++◌, Option, none, some, arith, ltb, ◌==◌, if◌then◌else◌, length, get_elem?, get_or, set,
  length-set, get_or-set_self, get_or-set_ne, inl, inr, Bool-cases,
}
use programming_with_c.Constrained.Ring.{Ring, ring_size, after, push, pop}

-- The `n` bytes from slot `i` on, going round.
abbrev pub bytes_from : List ℕ → ℕ → ℕ → List ℕ
bytes_from slots i zero = []
bytes_from slots i (suc n) = get_or slots i 0 ∷ bytes_from slots (after i) n

abbrev pub used : Ring → ℕ
used r = (r.head + ring_size - r.tail) % ring_size

abbrev pub contents : Ring → List ℕ
contents r = bytes_from r.slots r.tail (used r)

pub record IsRing (r : Ring) : Type 0 where
  pub storage : length r.slots ≡ ring_size
  pub head_in : r.head < ring_size
  pub tail_in : r.tail < ring_size

length-bytes_from : (slots : List ℕ) (i n : ℕ) → length (bytes_from slots i n) ≡ n
length-bytes_from slots i zero = refl
length-bytes_from slots i (suc n) = ap suc (length-bytes_from slots (after i) n)

get_elem?_in : (xs : List ℕ) (i : ℕ) → i < length xs → get_elem? xs i ≡ some (get_or xs i 0)
get_elem?_in [] i h = absurd (omega arith)
get_elem?_in (x ∷ xs) zero h = refl
get_elem?_in (x ∷ xs) (suc i) h = get_elem?_in xs i (omega arith)

-- A byte written behind the last of `n` bytes becomes one more.
bytes_from-set :
    (slots : List ℕ) (v n i h : ℕ)
    → length slots ≡ ring_size
    → i < ring_size
    → n < ring_size
    → h ≡ (i + n) % ring_size
    → bytes_from (set slots h v) i (suc n) ≡ bytes_from slots i n ++ (v ∷ [])
bytes_from-set slots v zero i h s hi hn e =
    let e' : h ≡ i = omega arith in rw (e', get_or-set_self slots i v 0 (omega arith))
bytes_from-set slots v (suc n) i h s hi hn e = rw (get_or-set_ne slots h i v 0 (omega arith)) (
    ap (λ xs. get_or slots i 0 ∷ xs)
      (bytes_from-set slots v n (after i) h s (omega arith) (omega arith) (omega arith)))

bytes_from_pos :
    (slots : List ℕ) (i n : ℕ)
    → n ≢ 0
    → bytes_from slots i n ≡ get_or slots i 0 ∷ bytes_from slots (after i) (n - 1)
bytes_from_pos slots i zero h = absurd (h refl)
bytes_from_pos slots i (suc n) h = ap (λ k. bytes_from slots i (suc k)) (omega arith)

-- The queue that the ring stands for.
pub enqueue : List ℕ → ℕ → Bool × List ℕ
enqueue q v = if ltb (length q) 15 then (true, q ++ (v ∷ [])) else (false, q)

pub dequeue : List ℕ → Bool × Option ℕ × List ℕ
dequeue [] = (false, none, [])
dequeue (x ∷ q) = (true, some x, q)

pub push-IsRing : {r : Ring} (v : ℕ) → IsRing r → IsRing (push r v).1
unfolding push
push-IsRing {r} v w = ground (arith, w.storage, w.head_in, w.tail_in, length-set r.slots r.head v)

pub pop-IsRing : {r : Ring} → IsRing r → IsRing (pop r).2
unfolding pop
pop-IsRing w = ground (arith, w.storage, w.head_in, w.tail_in)

module _ {r : Ring} (v : ℕ) (w : IsRing r) where
  abbrev pushed : Ring
  pushed = record r { slots = set r.slots r.head v; head = after r.head }

  contents-pushed : after r.head ≢ r.tail → contents pushed ≡ contents r ++ (v ∷ [])
  contents-pushed ne =
      ap (bytes_from (set r.slots r.head v) r.tail) (used_next ne)
      ∙ bytes_from-set r.slots v (used r) r.tail r.head w.storage w.tail_in (omega arith)
          (omega (arith, w.head_in, w.tail_in))
    where
      used_next : after r.head ≢ r.tail → used pushed ≡ suc (used r)
      used_next n = omega (arith, w.head_in, w.tail_in)

  enqueue_fits : after r.head ≢ r.tail → enqueue (contents r) v ≡ (true, contents r ++ (v ∷ []))
  unfolding enqueue
  enqueue_fits ne = rw (lt→ltb (length (contents r)) 15 (omega (arith, room, w.head_in, w.tail_in)))
    where
      room : length (contents r) ≡ used r
      room = length-bytes_from r.slots r.tail (used r)

-- `ring_push` refuses exactly when fifteen bytes are held, and otherwise adds its byte at the end.
pub push_refines :
    {r : Ring} (v : ℕ) → IsRing r → ((push r v).0, contents (push r v).1) ≡ enqueue (contents r) v
push_refines {r} v w = elim (Bool-cases (after r.head == r.tail)) [
  | inl t ↦ full t
  | inr f ↦
      rw (push_fits f, enqueue_fits v w (ground arith))
        (ap (λ q. (true, q)) (contents-pushed v w (ground arith)))
]
  where
    full :
        (after r.head == r.tail) ≡ true
        → ((push r v).0, contents (push r v).1) ≡ enqueue (contents r) v
    full t =
        unfold push enqueue in
        ground (arith, w.head_in, w.tail_in, length-bytes_from r.slots r.tail (used r))

    push_fits :
        (after r.head == r.tail) ≡ false
        → push r v ≡ (true, record r { slots = set r.slots r.head v; head = after r.head })
    push_fits f = unfold push in rw f

-- `ring_pop` refuses exactly when the ring is empty, and otherwise hands out the oldest byte.
pub pop_refines :
    {r : Ring} → IsRing r → ((pop r).0, (pop r).1, contents (pop r).2) ≡ dequeue (contents r)
unfolding pop dequeue
pop_refines {r} w = ground (
  arith,
  w.storage,
  w.head_in,
  w.tail_in,
  bytes_from_pos r.slots r.tail (used r),
  get_elem?_in r.slots r.tail,
)
