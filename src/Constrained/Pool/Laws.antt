-- ===== src/Constrained/Pool/Laws.antt =====
-- The pool of constrained.c hands out each block at most once at a time.
use programming_with_c.Base.{
  ℕ, ◌+◌, ◌≤◌, ◌<◌, ◌≡◌, refl, false, List, [], ◌∷◌, Option, none, some, arith, length, has,
}
use programming_with_c.Constrained.Pool.{Pool, pool_blocks, store, init, alloc, free, client_write}

-- From `start` the `next` words lead through the distinct blocks of the list to NULL.
abbrev pub Links : (ℕ → Option ℕ) → Option ℕ → List ℕ → Type 0
Links next start [] = start ≡ none
Links next start (b ∷ bs) =
    (start ≡ some b) × (b < pool_blocks) × (has b bs ≡ false) × Links next (next b) bs

-- `blocks` are the free blocks, the next to be handed out first.
pub record IsPool (p : Pool) (blocks : List ℕ) : Type 0 where
  pub links : Links p.next p.free_list blocks
  pub counted : p.in_use + length blocks ≡ pool_blocks
  pub peak_above : p.in_use ≤ p.peak
  pub peak_below : p.peak ≤ pool_blocks

-- A write to a block that is not in the list leaves the list alone.
Links-store :
    (next : ℕ → Option ℕ) (start v : Option ℕ) (b : ℕ) (bs : List ℕ)
    → has b bs ≡ false
    → Links next start bs
    → Links (store next b v) start bs
Links-store next start v b [] out l = l
Links-store next start v b (x ∷ bs) out l =
    (l.0, l.1, l.2, ground (arith, Links-store next (next x) v b bs (ground arith) l.3))

store_self : (next : ℕ → Option ℕ) (b : ℕ) (v : Option ℕ) → store next b v b ≡ v
store_self next b v = ground arith

-- `pool_init` makes all eight blocks free, the last first.
pub init-IsPool : (p : Pool) → IsPool (init p) (7 ∷ 6 ∷ 5 ∷ 4 ∷ 3 ∷ 2 ∷ 1 ∷ 0 ∷ [])
unfolding init
init-IsPool p = record {
  links = ground arith;
  counted = refl;
  peak_above = omega arith;
  peak_below = omega arith;
}

-- `pool_alloc` on a pool with a free block returns one, which is free no longer, and counts it.
pub alloc_lem :
    {p : Pool} {b : ℕ} {bs : List ℕ}
    → IsPool p (b ∷ bs)
    → ((alloc p).0 ≡ some b) × (has b bs ≡ false) × IsPool (alloc p).1 bs
unfolding alloc
alloc_lem {p} v = ground (arith, v.links)

-- `pool_alloc` on an exhausted pool returns NULL and changes nothing.
pub alloc_exhausted : {p : Pool} → IsPool p [] → alloc p ≡ (none, p)
unfolding alloc
alloc_exhausted v = rw v.links

-- `pool_free` of a block that is not free makes it the next to be handed out.
pub free-IsPool :
    {p : Pool} {bs : List ℕ} (b : ℕ)
    → IsPool p bs
    → b < pool_blocks
    → has b bs ≡ false
    → 0 < p.in_use
    → IsPool (free (some b) p) (b ∷ bs)
unfolding free
free-IsPool {p} {bs} b v lt out used =
    let l = Links-store p.next p.free_list p.free_list b bs out v.links in
    record {
      links = (refl, lt, out, rw (store_self p.next b p.free_list) l);
      counted = omega (arith, v.counted);
      peak_above = omega (arith, v.counted, v.peak_above);
      peak_below = v.peak_below;
    }

-- A client that writes to a block that is not free does not disturb the pool.
pub client_write-IsPool :
    {p : Pool} {bs : List ℕ} (b : ℕ) (v : Option ℕ)
    → IsPool p bs
    → has b bs ≡ false
    → IsPool (client_write b v p) bs
unfolding client_write
client_write-IsPool {p} {bs} b v w out = record {
  links = Links-store p.next p.free_list v b bs out w.links;
  counted = w.counted;
  peak_above = w.peak_above;
  peak_below = w.peak_below;
}

-- A block that is handed out, overwritten by its client and returned is handed out again next,
-- and the pool is as it was: same free blocks, same number in use.
pub alloc-free :
    {p : Pool} {b : ℕ} {bs : List ℕ} (v : Option ℕ)
    → IsPool p (b ∷ bs)
    → IsPool (free (alloc p).0 (client_write b v (alloc p).1)) (b ∷ bs)
alloc-free {p} {b} {bs} v w =
    let (got, out, w') = alloc_lem w in
    rw got (
      free-IsPool b (client_write-IsPool b v w' out) w.links.1 out
        (unfold client_write in omega (arith, w.counted, w'.counted)))
