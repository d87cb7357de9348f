-- ===== src/LinkedList/Ends.antt =====
-- lists.c at its two ends: what the stack and the queue rest on.
use programming_with_c.Base.{
  ℕ, ◌+◌, ◌-◌, ◌%◌, ◌^◌, ◌≡◌, refl, sym, ap, ◌∙◌, Bool, true, false, ◌==◌, List, [], ◌∷◌, ◌++◌,
  Option, none, some, length-append, has, arith, if◌then◌else◌,
}
use mathlib.Core.List.{map-append}
use mathlib.Core.Path.{subst}
use programming_with_c.Base.Int.{ℤ}
use programming_with_c.LinkedList.{
  Store, LinkedList, upd, is_null, free, new_node, init, push_front, push_back, pop,
}
use programming_with_c.LinkedList.Chains.{
  Chain, last_of, last, IsList, values, Same, Chain-frame, values-frame, Same-new_node, Same-free,
  not-has_dead, Chain-new_node, has-append, upd_here, upd_there, last_apart,
}

pub init-IsList : (s : Store) → IsList s init []
unfolding init
init-IsList s = record { chain = refl; ends = refl; counted = refl }

-- The outcome of an insertion: the nodes are `nodes`, and what they hold is `held`.
pub record Holds (r : Bool × Store × LinkedList) (nodes : List ℕ) (held : List ℤ) : Type 0 where
  pub success : r.0 ≡ true
  pub is_list : IsList r.1 r.2 nodes
  pub holds : values r.1 nodes ≡ held

new_tail :
    (a : ℕ) (t : Option ℕ) (nodes : List ℕ)
    → t ≡ last nodes
    → (if is_null t then some a else t) ≡ some (last_of a nodes)
new_tail a t [] h = rw h
new_tail a t (b ∷ nodes) h = rw h

values-new_node :
    (s : Store) (a : ℕ) (v : ℤ) (p : Option ℕ) (nodes : List ℕ)
    → has a nodes ≡ false
    → values (new_node a v p s) (a ∷ nodes) ≡ v ∷ values s nodes
values-new_node s a v p nodes out =
    rw (upd_here s.value a v) (
      ap (λ xs. v ∷ xs) (values-frame s (new_node a v p s) nodes (Same-new_node s a v p nodes out)))

-- `list_push_front`, and so `stack_push`, puts its value in front of the others, in a node that
-- was not in use.
pub push_front_lem :
    (a : ℕ) (v : ℤ) {s : Store} {l : LinkedList} {nodes : List ℕ}
    → IsList s l nodes
    → s.live a ≡ false
    → Holds (push_front (some a) v s l) (a ∷ nodes) (v ∷ values s nodes)
unfolding push_front
push_front_lem a v {s} {l} {nodes} w d = record {
  success = refl;
  is_list = record {
    chain = Chain-new_node s a v l.head nodes out w.chain;
    ends = new_tail a l.tail nodes w.ends;
    counted = omega (arith, w.counted);
  };
  holds = values-new_node s a v l.head nodes out;
}
  where
    out : has a nodes ≡ false
    out = not-has_dead s l.head a nodes d w.chain

-- The last node of a chain is made to point to a node that stands alone.
Chain-link :
    (s : Store) (p : Option ℕ) (a b : ℕ) (nodes : List ℕ)
    → Chain s p (b ∷ nodes)
    → Chain s (some a) (a ∷ [])
    → has a (b ∷ nodes) ≡ false
    → Chain (record s { next = upd s.next (last_of b nodes) (some a) }) p ((b ∷ nodes) ++ (a ∷ []))
Chain-link s p a b [] (h, w, out, c) (q, l, z, e) n = (
  h,
  w,
  ground arith,
  (upd_here s.next b (some a), l, refl, upd_there s.next b a (some a) (ground arith) ∙ e),
)
Chain-link s p a b (x ∷ nodes) (h, w, out, c) alone n = (
  h,
  w,
  ground (arith, has-append b (x ∷ nodes) (a ∷ [])),
  subst
      (λ r.
        Chain (record s { next = upd s.next (last_of x nodes) (some a) }) r
          ((x ∷ nodes) ++ (a ∷ [])))
      (sym (upd_there s.next (last_of x nodes) b (some a) apart))
      (Chain-link s (s.next b) a x nodes c alone (ground arith)),
)
  where
    apart : (b == last_of x nodes) ≡ false
    apart = last_apart b x nodes out

new_alone : (s : Store) (a : ℕ) (v : ℤ) → Chain (new_node a v none s) (some a) (a ∷ [])
new_alone s a v = Chain-new_node s a v none [] refl refl

last-snoc : (x : ℕ) (nodes : List ℕ) (a : ℕ) → last_of x (nodes ++ (a ∷ [])) ≡ a
last-snoc x [] a = refl
last-snoc x (b ∷ nodes) a = last-snoc b nodes a

-- `list_push_back`, and so `queue_enqueue`, puts its value behind the others, in a node that was
-- not in use.
pub push_back_lem :
    (a : ℕ) (v : ℤ) {s : Store} {l : LinkedList} (nodes : List ℕ)
    → IsList s l nodes
    → s.live a ≡ false
    → Holds (push_back (some a) v s l) (nodes ++ (a ∷ [])) (values s nodes ++ (v ∷ []))
push_back_lem a v {s} {l} [] w d =
    subst (λ r. Holds r (a ∷ []) (v ∷ [])) (sym empty)
      (record {
        success = refl;
        is_list = record {
          chain = new_alone s a v;
          ends = refl;
          counted = omega (arith, w.counted);
        };
        holds = values-new_node s a v none [] refl;
      })
  where
    empty : push_back (some a) v s l ≡ (
      true,
      new_node a v none s,
      record { head = some a; tail = some a; count = (l.count + 1) % 2 ^ 64 },
    )
    empty = unfold push_back in rw (w.ends, push_back) refl
push_back_lem a v {s} {l} (b ∷ nodes) w d =
    subst (λ r. Holds r ((b ∷ nodes) ++ (a ∷ [])) (values s (b ∷ nodes) ++ (v ∷ []))) (sym linked)
      (record {
        success = refl;
        is_list = record {
          chain = Chain-link s' l.head a b nodes kept (new_alone s a v) out;
          ends = ap some (sym (last-snoc b nodes a));
          counted = omega (arith, w.counted, length-append (b ∷ nodes) (a ∷ []));
        };
        holds =
            map-append s'.value (b ∷ nodes) (a ∷ [])
            ∙ ap (λ xs. xs ++ (s'.value a ∷ []))
                (values-frame s s' (b ∷ nodes) (Same-new_node s a v none (b ∷ nodes) out))
            ∙ ap (λ x. values s (b ∷ nodes) ++ (x ∷ [])) (upd_here s.value a v);
      })
  where
    s' : Store
    s' = new_node a v none s

    out : has a (b ∷ nodes) ≡ false
    out = not-has_dead s l.head a (b ∷ nodes) d w.chain

    kept : Chain s' l.head (b ∷ nodes)
    kept = Chain-frame s s' l.head (b ∷ nodes) (Same-new_node s a v none (b ∷ nodes) out) w.chain

    linked : push_back (some a) v s l ≡ (
      true,
      record s' { next = upd s'.next (last_of b nodes) (some a) },
      record { head = l.head; tail = some a; count = (l.count + 1) % 2 ^ 64 },
    )
    linked = unfold push_back in rw (w.ends, push_back) refl

-- What `stack_pop` and `queue_dequeue` do: the first value is handed out and its node freed, or
-- there is none.
pub data Popped (s : Store) : List ℕ → Option ℤ × Store × LinkedList → Type 0 where
  nothing : {l : LinkedList} → IsList s l [] → Popped s [] (none, s, l)
  front :
      {a : ℕ} {nodes : List ℕ} {s' : Store} {l' : LinkedList}
      → IsList s' l' nodes
      → values s' nodes ≡ values s nodes
      → s'.live a ≡ false
      → Popped s (a ∷ nodes) (some (s.value a), s', l')

pop_tail :
    (s : Store) (a : ℕ) (q t : Option ℕ) (nodes : List ℕ)
    → Chain s q nodes
    → t ≡ some (last_of a nodes)
    → (if is_null q then none else t) ≡ last nodes
pop_tail s a q t [] c h = rw c refl
pop_tail s a q t (b ∷ nodes) c h = rw (c.0) h

-- Both hand out the value at the head and keep the others in their order.
pub pop_lem :
    {s : Store} {l : LinkedList} (nodes : List ℕ) → IsList s l nodes → Popped s nodes (pop s l)
pop_lem {s} {l} [] w = subst (Popped s []) (sym empty) (nothing w)
  where
    empty : pop s l ≡ (none, s, l)
    empty = unfold pop in ground (arith, w.chain)
pop_lem {s} {l} (a ∷ nodes) w = subst (Popped s (a ∷ nodes)) (sym taken) (
    front
      (record {
        chain = Chain-frame s (free a s) (s.next a) nodes same w.chain.3;
        ends = pop_tail s a (s.next a) l.tail nodes w.chain.3 w.ends;
        counted = omega (arith, w.counted);
      })
      refl (upd_here s.live a false))
  where
    same : Same s (free a s) nodes
    same = Same-free s a nodes w.chain.2

    taken : pop s l ≡ (
      some (s.value a),
      free a s,
      record {
        head = s.next a;
        tail = if is_null (s.next a) then none else l.tail;
        count = (l.count + 2 ^ 64 - 1) % 2 ^ 64;
      },
    )
    taken = unfold pop in rw (w.chain.0, pop) refl
