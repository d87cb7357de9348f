-- ===== src/LinkedList/Remove.antt =====
-- The removal of lists.c through a pointer to a pointer.
use programming_with_c.Base.{
  ℕ, zero, suc, ◌+◌, ◌-◌, ◌%◌, ◌^◌, ◌<◌, ◌≡◌, refl, sym, ◌∙◌, Bool, true, false, ◌||◌, List, [],
  ◌∷◌, Option, none, some, length, has, arith, if◌then◌else◌, inl, inr, Bool-cases,
}
use mathlib.Core.Path.{subst}
use programming_with_c.Base.Int.{ℤ, eqb_ℤ}
use programming_with_c.LinkedList.{
  Store, LinkedList, head_link, next_link, ptr_eq, upd, free, unlink, remove_loop, remove,
}
use programming_with_c.LinkedList.Chains.{
  Chain, last_of, last, IsList, Chain-frame, Same-next, Same-free, upd_here, upd_there, last_apart,
}

-- The nodes without the first one that holds `v`.
abbrev pub without : Store → ℤ → List ℕ → List ℕ
without s v [] = []
without s v (a ∷ nodes) = if eqb_ℤ (s.value a) v then nodes else a ∷ without s v nodes

abbrev pub holds : Store → ℤ → List ℕ → Bool
holds s v [] = false
holds s v (a ∷ nodes) = eqb_ℤ (s.value a) v || holds s v nodes

-- What the loop leaves behind when `link` is the field `next` of `b`, and `nodes` are the nodes
-- that follow: `b` itself and the nodes before it do not change.
data Cut (s : Store) (l : LinkedList) (b : ℕ) (nodes left : List ℕ) (flag : Bool)
    : Option (Bool × Store × LinkedList) → Type 0 where
  cut :
      {s' : Store} {l' : LinkedList}
      → Chain s' (s'.next b) left
      → s'.value ≡ s.value
      → ((i : ℕ) → has i (b ∷ nodes) ≡ false → (s'.next i ≡ s.next i) × (s'.live i ≡ s.live i))
      → s'.live b ≡ s.live b
      → ((i : ℕ) → has i nodes ≡ true → has i left ≡ false → s'.live i ≡ false)
      → l'.head ≡ l.head
      → l'.tail ≡ some (last_of b left)
      → l'.count ≡ (if flag then (l.count + 2 ^ 64 - 1) % 2 ^ 64 else l.count)
      → Cut s l b nodes left flag (some (flag, s', l'))

-- The node at the link holds the value.
unlink_next :
    (s : Store) (l : LinkedList) (b a : ℕ) (nodes : List ℕ)
    → Chain s (s.next b) (a ∷ nodes)
    → has b (a ∷ nodes) ≡ false
    → l.tail ≡ some (last_of b (a ∷ nodes))
    → Cut s l b
        (a ∷ nodes)
        nodes
        true
        (some (true, (unlink (next_link b) a s l).0, (unlink (next_link b) a s l).1))
unfolding unlink
unlink_next s l b a nodes (e, w, out, c) apart t =
    cut
      (subst (λ q. Chain (free a s') q nodes) (sym (upd_here s.next b (s.next a)))
        (Chain-frame s' (free a s') (s.next a) nodes (Same-free s' a nodes out)
          (Chain-frame s s' (s.next a) nodes (Same-next s b (s.next a) nodes (ground arith)) c)))
      refl
      (λ i h.
        (upd_there s.next b i (s.next a) (ground arith), upd_there s.live a i false (ground arith)))
      (upd_there s.live a b false (ground arith)) (λ i h k. dead i h k) refl (new_tail nodes out t)
      refl
  where
    s' : Store
    s' = record s { next = upd s.next b (s.next a) }

    dead : (i : ℕ) → has i (a ∷ nodes) ≡ true → has i nodes ≡ false → upd s.live a false i ≡ false
    dead i h k = ground arith

    new_tail :
        (xs : List ℕ)
        → has a xs ≡ false
        → l.tail ≡ some (last_of a xs)
        → (if ptr_eq (some a) l.tail then some b else l.tail) ≡ some (last_of b xs)
    new_tail [] h q = ground (arith, q)
    new_tail (x ∷ xs) h q = ground (arith, q, last_apart a x xs h)

has-without :
    (s : Store) (v : ℤ) (a : ℕ) (nodes : List ℕ)
    → has a nodes ≡ false
    → has a (without s v nodes) ≡ false
has-without s v a [] h = refl
has-without s v a (b ∷ nodes) h = ground (arith, has-without s v a nodes)

-- The node before takes part in the chain again.
widen :
    {s : Store} {l : LinkedList} {b a : ℕ} {nodes left : List ℕ} {flag : Bool}
    {r : Option (Bool × Store × LinkedList)}
    → Chain s (s.next b) (a ∷ nodes)
    → has b (a ∷ nodes) ≡ false
    → has a left ≡ false
    → Cut s l a nodes left flag r
    → Cut s l b (a ∷ nodes) (a ∷ left) flag r
widen {s} {l} {b} {a} {nodes} {left} (e, w, out, c) apart fresh
      (cut {s'} {l'} d v same live dead h t n) =
    cut ((same b apart).0 ∙ e, live ∙ w, fresh, d) v (λ i g. same i (ground arith)) (same b apart).1
      (λ i g k. dead i (ground arith) (ground arith)) h t n

remove_loop-Cut :
    (fuel : ℕ) (v : ℤ) (s : Store) (l : LinkedList) (b : ℕ) (nodes : List ℕ)
    → Chain s (s.next b) nodes
    → has b nodes ≡ false
    → l.tail ≡ some (last_of b nodes)
    → length nodes < fuel
    → Cut s l b nodes (without s v nodes) (holds s v nodes) (remove_loop fuel v (next_link b) s l)
remove_loop-Cut zero v s l b nodes c out t h = absurd (omega arith)
remove_loop-Cut (suc fuel) v s l b [] c out t h =
    subst (Cut s l b [] [] false) (sym over)
      (cut c refl (λ i g. (refl, refl)) refl (λ i g k. absurd (cc g)) refl t refl)
  where
    over : remove_loop (suc fuel) v (next_link b) s l ≡ some (false, s, l)
    over = unfold remove_loop in ground (arith, c)
remove_loop-Cut (suc fuel) v s l b (a ∷ nodes) c out t h = elim (Bool-cases (eqb_ℤ (s.value a) v)) [
  | inl q ↦
      rw q (
        subst (Cut s l b (a ∷ nodes) nodes true) (sym (here q)) (unlink_next s l b a nodes c out t))
  | inr q ↦ rw q (
      subst (Cut s l b (a ∷ nodes) (a ∷ without s v nodes) (holds s v nodes)) (sym (there q)) (
        widen c out (has-without s v a nodes c.2)
          (remove_loop-Cut fuel v s l a nodes c.3 c.2 t (omega arith))))
]
  where
    here :
        eqb_ℤ (s.value a) v ≡ true
        → remove_loop (suc fuel) v (next_link b) s l
          ≡ some (true, (unlink (next_link b) a s l).0, (unlink (next_link b) a s l).1)
    here q = unfold remove_loop in ground (arith, c.0, q)

    there :
        eqb_ℤ (s.value a) v ≡ false
        → remove_loop (suc fuel) v (next_link b) s l ≡ remove_loop fuel v (next_link a) s l
    there q = unfold remove_loop in ground (arith, c.0, q)

length-without :
    (s : Store) (v : ℤ) (nodes : List ℕ)
    → length (without s v nodes) + (if holds s v nodes then 1 else 0) ≡ length nodes
length-without s v [] = omega arith
length-without s v (a ∷ nodes) = ground (arith, length-without s v nodes)

-- The outcome of `list_remove`.
pub data Removed (s : Store) (v : ℤ) (nodes : List ℕ)
    : Option (Bool × Store × LinkedList) → Type 0 where
  removed :
      {s' : Store} {l' : LinkedList}
      → IsList s' l' (without s v nodes)
      → s'.value ≡ s.value
      → ((i : ℕ) → has i nodes ≡ true → has i (without s v nodes) ≡ false → s'.live i ≡ false)
      → Removed s v nodes (some (holds s v nodes, s', l'))

-- The first node does not hold the value: the rest of the list changed behind it.
keep_head :
    {s : Store} {l : LinkedList} (v : ℤ) {a : ℕ} {nodes : List ℕ}
    {r : Option (Bool × Store × LinkedList)}
    → eqb_ℤ (s.value a) v ≡ false
    → IsList s l (a ∷ nodes)
    → Cut s l a nodes (without s v nodes) (holds s v nodes) r
    → Removed s v (a ∷ nodes) r
keep_head {s} {l} v {a} {nodes} q w (cut {s'} {l'} d e same live dead h t n) =
    subst (λ b. Removed s v (a ∷ nodes) (some (b, s', l'))) whole
      (removed
        (subst (IsList s' l') kept (record {
          chain = (h ∙ w.chain.0, live ∙ w.chain.1, has-without s v a nodes w.chain.2, d);
          ends = t;
          counted = ground (arith, n, w.counted, length-without s v nodes);
        }))
        e (λ i g k. dead i (ground (arith, q)) (ground (arith, q))))
  where
    whole : holds s v (a ∷ nodes) ≡ holds s v nodes
    whole = rw q

    kept : a ∷ without s v nodes ≡ without s v (a ∷ nodes)
    kept = rw q

unlink_head :
    {s : Store} {l : LinkedList} (v : ℤ) (a : ℕ) (nodes : List ℕ)
    → eqb_ℤ (s.value a) v ≡ true
    → IsList s l (a ∷ nodes)
    → Removed s v (a ∷ nodes) (some (true, (unlink head_link a s l).0, (unlink head_link a s l).1))
unfolding unlink
unlink_head {s} {l} v a nodes q w =
    subst (λ b. Removed s v (a ∷ nodes) (some (b, free a s, l'))) whole
      (removed
        (subst (IsList (free a s) l') kept (record {
          chain =
              Chain-frame s (free a s) (s.next a) nodes (Same-free s a nodes w.chain.2) w.chain.3;
          ends = head_tail nodes w.chain.2 w.ends;
          counted = omega (arith, w.counted);
        }))
        refl (λ i g k. dead i g (subst (λ xs. has i xs ≡ false) (sym kept) k)))
  where
    l' : LinkedList
    l' = record {
      head = s.next a;
      tail = if ptr_eq (some a) l.tail then none else l.tail;
      count = (l.count + 2 ^ 64 - 1) % 2 ^ 64;
    }

    whole : holds s v (a ∷ nodes) ≡ true
    whole = rw q

    kept : nodes ≡ without s v (a ∷ nodes)
    kept = rw q

    dead : (i : ℕ) → has i (a ∷ nodes) ≡ true → has i nodes ≡ false → upd s.live a false i ≡ false
    dead i h k = ground arith

    head_tail :
        (xs : List ℕ)
        → has a xs ≡ false
        → l.tail ≡ some (last_of a xs)
        → (if ptr_eq (some a) l.tail then none else l.tail) ≡ last xs
    head_tail [] h r = ground (arith, r)
    head_tail (x ∷ xs) h r = ground (arith, r, last_apart a x xs h)

-- `list_remove` ends within one round more than the list is long. It takes the first node that
-- holds the value out of the list and frees it, keeps the other nodes in their order, and says
-- whether there was one.
pub remove_lem :
    (fuel : ℕ) (v : ℤ) {s : Store} {l : LinkedList} (nodes : List ℕ)
    → IsList s l nodes
    → length nodes < fuel
    → Removed s v nodes (remove fuel v s l)
remove_lem zero v nodes w h = absurd (omega arith)
remove_lem (suc fuel) v {s} {l} [] w h =
    subst (Removed s v []) (sym over) (removed w refl (λ i g k. absurd (cc g)))
  where
    over : remove (suc fuel) v s l ≡ some (false, s, l)
    over = unfold remove remove_loop in ground (arith, w.chain)
remove_lem (suc fuel) v {s} {l} (a ∷ nodes) w h = elim (Bool-cases (eqb_ℤ (s.value a) v)) [
  | inl q ↦ subst (Removed s v (a ∷ nodes)) (sym (here q)) (unlink_head v a nodes q w)
  | inr q ↦ subst (Removed s v (a ∷ nodes)) (sym (there q)) (
      keep_head v q w (remove_loop-Cut fuel v s l a nodes w.chain.3 w.chain.2 w.ends (omega arith)))
]
  where
    here :
        eqb_ℤ (s.value a) v ≡ true
        → remove (suc fuel) v s l
          ≡ some (true, (unlink head_link a s l).0, (unlink head_link a s l).1)
    here q = unfold remove remove_loop in ground (arith, w.chain.0, q)

    there :
        eqb_ℤ (s.value a) v ≡ false → remove (suc fuel) v s l ≡ remove_loop fuel v (next_link a) s l
    there q = unfold remove remove_loop in ground (arith, w.chain.0, q)
