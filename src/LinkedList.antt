-- ===== src/LinkedList.antt =====
-- The singly linked list of week32_linked_data_structures/lists.c, with the stack and the queue on
-- it. Nodes live in a store with a function for each field of `Node`, and `live` are the addresses
-- that `malloc` handed out and `free` has not got back. A pointer is an address or `none` for NULL.
pub mod Chains
pub mod Ends
pub mod Reverse
pub mod Remove
mod Tests
use programming_with_c.Base.{
  ℕ, zero, suc, ◌+◌, ◌-◌, ◌%◌, ◌^◌, Bool, true, false, Option, none, some, ◌==◌, if◌then◌else◌,
}
use mathlib.Core.Option
use programming_with_c.Base.Int.{ℤ, eqb_ℤ}

pub record Store : Type 0 where
  pub value : ℕ → ℤ
  pub next : ℕ → Option ℕ
  pub live : ℕ → Bool

pub record LinkedList : Type 0 where
  pub head : Option ℕ
  pub tail : Option ℕ
  pub count : ℕ

-- A write to a field.
abbrev pub upd {ℓ} : {A : Type ℓ} → (ℕ → A) → ℕ → A → ℕ → A
upd f k v i = if i == k then v else f i

-- `p == q` for pointers.
abbrev pub ptr_eq : Option ℕ → Option ℕ → Bool
ptr_eq none none = true
ptr_eq (some a) (some b) = a == b
ptr_eq _ _ = false

abbrev pub is_null : Option ℕ → Bool
is_null none = true
is_null (some a) = false

pub init : LinkedList
init = record { head = none; tail = none; count = 0 }

-- `free (n)`.
abbrev pub free : ℕ → Store → Store
free a s = record s { live = upd s.live a false }

-- A node from `malloc` with its two fields set.
abbrev pub new_node : ℕ → ℤ → Option ℕ → Store → Store
new_node a v p s = record {
  value = upd s.value a v;
  next = upd s.next a p;
  live = upd s.live a true;
}

-- The loop of `list_destroy`. Loops run on fuel: `none` means that it ran out.
pub destroy_loop : ℕ → Store → Option ℕ → Option Store
destroy_loop zero s n = none
destroy_loop (suc fuel) s none = some s
destroy_loop (suc fuel) s (some a) = destroy_loop fuel (free a s) (s.next a)

pub destroy : ℕ → Store → LinkedList → Option (Store × LinkedList)
unfolding destroy_loop init
destroy fuel s l = Option.map (λ s'. (s', init)) (destroy_loop fuel s l.head)

-- `node` is what `malloc` returns.
pub push_front : Option ℕ → ℤ → Store → LinkedList → Bool × Store × LinkedList
push_front none v s l = (false, s, l)
push_front (some a) v s l = (
  true,
  new_node a v l.head s,
  record {
    head = some a;
    tail = if is_null l.tail then some a else l.tail;
    count = (l.count + 1) % 2 ^ 64;
  },
)

pub push_back : Option ℕ → ℤ → Store → LinkedList → Bool × Store × LinkedList
push_back none v s l = (false, s, l)
push_back (some a) v s l =
    let s' = new_node a v none s in
    elim l.tail [
      | some t ↦ (
        true,
        record s' { next = upd s'.next t (some a) },
        record { head = l.head; tail = some a; count = (l.count + 1) % 2 ^ 64 },
      )
      | none ↦ (true, s', record { head = some a; tail = some a; count = (l.count + 1) % 2 ^ 64 })
    ]

-- The pointer that `link` points to: `head`, or the field `next` of a node.
pub data Link : Type 0 where
  head_link : Link
  next_link : ℕ → Link

-- `*link`
abbrev pub target : Link → Store → LinkedList → Option ℕ
target head_link s l = l.head
target (next_link b) s l = s.next b

-- The node that holds the pointer, by `offsetof`; NULL for `head`.
abbrev pub owner : Link → Option ℕ
owner head_link = none
owner (next_link b) = some b

-- `*link = p`
abbrev pub redirect : Link → Option ℕ → Store → LinkedList → Store × LinkedList
redirect head_link p s l = (s, record l { head = p })
redirect (next_link b) p s l = (record s { next = upd s.next b p }, l)

-- The body of the `if` in `list_remove`.
pub unlink : Link → ℕ → Store → LinkedList → Store × LinkedList
unlink link dead s l =
    let (s', l') = redirect link (s.next dead) s l in
    (
      free dead s',
      record l' {
        tail = if ptr_eq (some dead) l.tail then owner link else l.tail;
        count = (l.count + 2 ^ 64 - 1) % 2 ^ 64;
      },
    )

pub remove_loop : ℕ → ℤ → Link → Store → LinkedList → Option (Bool × Store × LinkedList)
unfolding unlink
remove_loop zero v link s l = none
remove_loop (suc fuel) v link s l = elim (target link s l) [
  | none ↦ some (false, s, l)
  | some a ↦
      let (s', l') = unlink link a s l in
      let rest = remove_loop fuel v (next_link a) s l in
      if eqb_ℤ (s.value a) v then some (true, s', l') else rest
]

pub remove : ℕ → ℤ → Store → LinkedList → Option (Bool × Store × LinkedList)
unfolding remove_loop
remove fuel v s l = remove_loop fuel v head_link s l

-- The loop of `list_reverse`: the store and `prev` at its end.
pub reverse_loop : ℕ → Store → Option ℕ → Option ℕ → Option (Store × Option ℕ)
reverse_loop zero s prev curr = none
reverse_loop (suc fuel) s prev none = some (s, prev)
reverse_loop (suc fuel) s prev (some a) =
    reverse_loop fuel (record s { next = upd s.next a prev }) (some a) (s.next a)

pub reverse : ℕ → Store → LinkedList → Option (Store × LinkedList)
unfolding reverse_loop
reverse fuel s l =
    Option.map (λ r. (r.0, record l { head = r.1; tail = l.head }))
      (reverse_loop fuel s none l.head)

-- `stack_pop`, and `queue_dequeue`, which is the same. What goes through `out` is the option.
pub pop : Store → LinkedList → Option ℤ × Store × LinkedList
pop s l = elim l.head [
  | none ↦ (none, s, l)
  | some top ↦ (
    some (s.value top),
    free top s,
    record {
      head = s.next top;
      tail = if is_null (s.next top) then none else l.tail;
      count = (l.count + 2 ^ 64 - 1) % 2 ^ 64;
    },
  )
]
