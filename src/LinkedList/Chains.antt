-- ===== src/LinkedList/Chains.antt =====
-- What a list of lists.c stands for: the addresses of its nodes in their order.
use programming_with_c.Base.{
  ℕ, ◌%◌, ◌^◌, ◌≡◌, refl, sym, ap, ◌∙◌, true, false, ◌||◌, ◌==◌, List, [], ◌∷◌, ◌++◌, Option, none,
  some, map, length, has, arith, inl, inr, Bool-cases,
}
use mathlib.Core.Path.{subst}
use programming_with_c.Base.Int.{ℤ}
use programming_with_c.LinkedList.{Store, LinkedList, upd, free, new_node}

-- From `p` the field `next` leads through the distinct live nodes `as` to NULL.
abbrev pub Chain : Store → Option ℕ → List ℕ → Type 0
Chain s p [] = p ≡ none
Chain s p (a ∷ nodes) =
    (p ≡ some a) × (s.live a ≡ true) × (has a nodes ≡ false) × Chain s (s.next a) nodes

-- The last of `b` and the addresses behind it.
abbrev pub last_of : ℕ → List ℕ → ℕ
last_of b [] = b
last_of b (a ∷ nodes) = last_of a nodes

abbrev pub last : List ℕ → Option ℕ
last [] = none
last (a ∷ nodes) = some (last_of a nodes)

-- The list that consists of the nodes `nodes`. The counter is a `size_t`.
pub record IsList (s : Store) (l : LinkedList) (nodes : List ℕ) : Type 0 where
  pub chain : Chain s l.head nodes
  pub ends : l.tail ≡ last nodes
  pub counted : l.count ≡ length nodes % 2 ^ 64

-- What it holds.
abbrev pub values : Store → List ℕ → List ℤ
values s nodes = map s.value nodes

pub head-chain : (s : Store) (p : Option ℕ) → Chain s p [] → p ≡ none
head-chain s p c = c

-- Two stores with the same nodes `nodes`.
abbrev pub Same : Store → Store → List ℕ → Type 0
Same s t [] = Unit
Same s t (a ∷ nodes) =
    (t.next a ≡ s.next a) × (t.live a ≡ s.live a) × (t.value a ≡ s.value a) × Same s t nodes

pub Chain-frame :
    (s t : Store) (p : Option ℕ) (nodes : List ℕ)
    → Same s t nodes
    → Chain s p nodes
    → Chain t p nodes
Chain-frame s t p [] e c = c
Chain-frame s t p (a ∷ nodes) (n, l, v, e) (h, w, out, c) =
    (h, l ∙ w, out, subst (λ q. Chain t q nodes) (sym n) (Chain-frame s t (s.next a) nodes e c))

pub values-frame : (s t : Store) (nodes : List ℕ) → Same s t nodes → values t nodes ≡ values s nodes
values-frame s t [] e = refl
values-frame s t (a ∷ nodes) (n, l, v, e) = ground (arith, v, values-frame s t nodes e)

-- Writes to other nodes leave nodes as they are.
pub Same-new_node :
    (s : Store) (a : ℕ) (v : ℤ) (p : Option ℕ) (nodes : List ℕ)
    → has a nodes ≡ false
    → Same s (new_node a v p s) nodes
Same-new_node s a v p [] h = tt
Same-new_node s a v p (b ∷ nodes) h = ground (arith, Same-new_node s a v p nodes)

pub Same-next :
    (s : Store) (a : ℕ) (p : Option ℕ) (nodes : List ℕ)
    → has a nodes ≡ false
    → Same s (record s { next = upd s.next a p }) nodes
Same-next s a p [] h = tt
Same-next s a p (b ∷ nodes) h = ground (arith, Same-next s a p nodes)

pub Same-free : (s : Store) (a : ℕ) (nodes : List ℕ) → has a nodes ≡ false → Same s (free a s) nodes
Same-free s a [] h = tt
Same-free s a (b ∷ nodes) h = ground (arith, Same-free s a nodes)

-- A dead address is none of the nodes.
pub not-has_dead :
    (s : Store) (p : Option ℕ) (a : ℕ) (nodes : List ℕ)
    → s.live a ≡ false
    → Chain s p nodes
    → has a nodes ≡ false
not-has_dead s p a [] d c = refl
not-has_dead s p a (b ∷ nodes) d (h, w, out, c) = elim (Bool-cases (a == b)) [
  | inl t ↦ let same : a ≡ b = ground arith in absurd (cc (w, d, ap s.live same))
  | inr f ↦ rw f (not-has_dead s (s.next b) a nodes d c)
]

pub has-last_of : (a b : ℕ) (nodes : List ℕ) → has (last_of a (b ∷ nodes)) (b ∷ nodes) ≡ true
has-last_of a b [] = ground arith
has-last_of a b (c ∷ nodes) = ground (arith, has-last_of b c nodes)

pub has-append : (a : ℕ) (xs ys : List ℕ) → has a (xs ++ ys) ≡ (has a xs || has a ys)
has-append a [] ys = refl
has-append a (x ∷ xs) ys = ground (arith, has-append a xs ys)

pub upd_here {ℓ} : {A : Type ℓ} (f : ℕ → A) (k : ℕ) (v : A) → upd f k v k ≡ v
upd_here f k v = ground arith

pub upd_there {ℓ} :
    {A : Type ℓ} (f : ℕ → A) (k i : ℕ) (v : A) → (i == k) ≡ false → upd f k v i ≡ f i
upd_there f k i v h = ground arith

-- A node in front of a chain.
pub Chain-new_node :
    (s : Store) (a : ℕ) (v : ℤ) (p : Option ℕ) (nodes : List ℕ)
    → has a nodes ≡ false
    → Chain s p nodes
    → Chain (new_node a v p s) (some a) (a ∷ nodes)
Chain-new_node s a v p nodes out c = (
  refl,
  upd_here s.live a true,
  out,
  subst (λ q. Chain (new_node a v p s) q nodes) (sym (upd_here s.next a p))
      (Chain-frame s (new_node a v p s) p nodes (Same-new_node s a v p nodes out) c),
)

pub last_apart :
    (b x : ℕ) (nodes : List ℕ) → has b (x ∷ nodes) ≡ false → (b == last_of x nodes) ≡ false
last_apart b x nodes h = elim (Bool-cases (b == last_of x nodes)) [
  | inr f ↦ f
  | inl t ↦
      let same : b ≡ last_of x nodes = ground arith in absurd (cc (h, has-last_of b x nodes, same))
]
