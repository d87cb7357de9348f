-- ===== src/LinkedList/Reverse.antt =====
-- The reversal in place of lists.c, and the loop that frees a list.
use programming_with_c.Base.{
  ℕ, zero, suc, ◌+◌, ◌<◌, ◌≡◌, refl, sym, ap, ◌∙◌, Bool, false, List, [], ◌∷◌, Option, none, some,
  length, has, arith,
}
use mathlib.Core.List.{reverse_aux, reverse as reversed}
use mathlib.Core.Option
use mathlib.Core.Path.{subst}
use programming_with_c.LinkedList.{
  Store, LinkedList, upd, free, init, reverse_loop, reverse, destroy_loop, destroy,
}
use programming_with_c.LinkedList.Chains.{
  Chain, last_of, last, IsList, Chain-frame, Same-next, Same-free, upd_here,
}

abbrev Apart : List ℕ → List ℕ → Type 0
Apart [] ps = Unit
Apart (a ∷ cs) ps = (has a ps ≡ false) × Apart cs ps

Apart-cons : (a : ℕ) (cs ps : List ℕ) → has a cs ≡ false → Apart cs ps → Apart cs (a ∷ ps)
Apart-cons a [] ps h d = tt
Apart-cons a (c ∷ cs) ps h d = ground (arith, Apart-cons a cs ps)

Apart-nil : (cs : List ℕ) → Apart cs []
Apart-nil [] = tt
Apart-nil (c ∷ cs) = (refl, Apart-nil cs)

-- The loop ended, with a chain of the given nodes, whose values were not touched.
data Reversed (s : Store) (nodes : List ℕ) : Option (Store × Option ℕ) → Type 0 where
  done :
      {s' : Store} {p : Option ℕ}
      → Chain s' p nodes
      → s'.value ≡ s.value
      → Reversed s nodes (some (s', p))

Reversed-from :
    {s s' : Store} {nodes : List ℕ} {r : Option (Store × Option ℕ)}
    → s'.value ≡ s.value
    → Reversed s' nodes r
    → Reversed s nodes r
Reversed-from e (done c v) = done c (v ∙ e)

reverse_loop-Reversed :
    (fuel : ℕ) (s : Store) (prev curr : Option ℕ) (ps cs : List ℕ)
    → Chain s prev ps
    → Chain s curr cs
    → Apart cs ps
    → length cs < fuel
    → Reversed s (reverse_aux cs ps) (reverse_loop fuel s prev curr)
reverse_loop-Reversed zero s prev curr ps cs p c d h = absurd (omega arith)
reverse_loop-Reversed (suc fuel) s prev curr ps [] p c d h =
    subst (λ q. Reversed s ps (reverse_loop (suc fuel) s prev q)) (sym c)
      (unfold reverse_loop in done p refl)
reverse_loop-Reversed (suc fuel) s prev curr ps (a ∷ cs) p (e, w, out, c) d h =
    subst (λ q. Reversed s (reverse_aux (a ∷ cs) ps) (reverse_loop (suc fuel) s prev q)) (sym e)
      (step (
        reverse_loop-Reversed fuel s' (some a) (s.next a) (a ∷ ps) cs flipped
          (Chain-frame s s' (s.next a) cs (Same-next s a prev cs out) c)
          (Apart-cons a cs ps out d.1) (omega arith)))
  where
    s' : Store
    s' = record s { next = upd s.next a prev }

    flipped : Chain s' (some a) (a ∷ ps)
    flipped = (
      refl,
      w,
      d.0,
      subst (λ q. Chain s' q ps) (sym (upd_here s.next a prev))
          (Chain-frame s s' prev ps (Same-next s a prev ps d.0) p),
    )

    step :
        Reversed s' (reverse_aux cs (a ∷ ps)) (reverse_loop fuel s' (some a) (s.next a))
        → Reversed s (reverse_aux cs (a ∷ ps)) (reverse_loop (suc fuel) s prev (some a))
    step r = unfold reverse_loop in Reversed-from refl r

-- The list that `list_reverse` leaves behind.
pub data Turned (s : Store) (nodes : List ℕ) : Option (Store × LinkedList) → Type 0 where
  turned :
      {s' : Store} {l' : LinkedList}
      → IsList s' l' (reversed nodes)
      → s'.value ≡ s.value
      → Turned s nodes (some (s', l'))

length-reverse_aux : (xs ys : List ℕ) → length (reverse_aux xs ys) ≡ length xs + length ys
length-reverse_aux [] ys = omega arith
length-reverse_aux (x ∷ xs) ys = omega (arith, length-reverse_aux xs (x ∷ ys))

last-reverse_aux :
    (xs : List ℕ) (y : ℕ) (ys : List ℕ) → last (reverse_aux xs (y ∷ ys)) ≡ some (last_of y ys)
last-reverse_aux [] y ys = refl
last-reverse_aux (x ∷ xs) y ys = last-reverse_aux xs x (y ∷ ys)

tail_of : (s : Store) (p : Option ℕ) (nodes : List ℕ) → Chain s p nodes → p ≡ last (reversed nodes)
tail_of s p [] c = c
tail_of s p (a ∷ nodes) c = c.0 ∙ sym (last-reverse_aux nodes a [])

finish :
    {s : Store} {l : LinkedList} {nodes : List ℕ} {r : Option (Store × Option ℕ)}
    → IsList s l nodes
    → Reversed s (reversed nodes) r
    → Turned s nodes (Option.map (λ q. (q.0, record l { head = q.1; tail = l.head })) r)
finish {s} {l} {nodes} w (done c v) =
    turned
      (record {
        chain = c;
        ends = tail_of s l.head nodes w.chain;
        counted = omega (arith, w.counted, length-reverse_aux nodes []);
      })
      v

-- `list_reverse` ends within one round more than the list is long, and turns the order of its nodes
-- around; it moves no value from one node to another.
pub reverse_lem :
    (fuel : ℕ) {s : Store} {l : LinkedList} (nodes : List ℕ)
    → IsList s l nodes
    → length nodes < fuel
    → Turned s nodes (reverse fuel s l)
unfolding reverse
reverse_lem fuel {s} {l} nodes w h =
    finish w (reverse_loop-Reversed fuel s none l.head [] nodes refl w.chain (Apart-nil nodes) h)

-- Every node of the list is free at the end, and no other changed.
abbrev pub freed : List ℕ → (ℕ → Bool) → ℕ → Bool
freed [] live = live
freed (a ∷ nodes) live = freed nodes (upd live a false)

destroy_loop_lem :
    (fuel : ℕ) (s : Store) (p : Option ℕ) (nodes : List ℕ)
    → Chain s p nodes
    → length nodes < fuel
    → destroy_loop fuel s p ≡ some (record s { live = freed nodes s.live })
unfolding destroy_loop
destroy_loop_lem zero s p nodes c h = absurd (omega arith)
destroy_loop_lem (suc fuel) s p [] c h = ap (λ q. destroy_loop (suc fuel) s q) c
destroy_loop_lem (suc fuel) s p (a ∷ nodes) (e, w, out, c) h =
    ap (λ q. destroy_loop (suc fuel) s q) e
    ∙ destroy_loop_lem fuel (free a s) (s.next a) nodes
        (Chain-frame s (free a s) (s.next a) nodes (Same-free s a nodes out) c) (omega arith)

-- `list_destroy` ends within one round more than the list is long, frees its nodes and no other,
-- and leaves the empty list.
pub destroy_lem :
    (fuel : ℕ) {s : Store} {l : LinkedList} (nodes : List ℕ)
    → IsList s l nodes
    → length nodes < fuel
    → destroy fuel s l ≡ some (record s { live = freed nodes s.live }, init)
unfolding destroy
destroy_lem fuel {s} {l} nodes w h =
    ap (Option.map (λ s'. (s', init))) (destroy_loop_lem fuel s l.head nodes w.chain h)
