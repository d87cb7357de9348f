-- ===== src/Constrained/Tests.antt =====
-- Runs of constrained.c's pool and ring, and the theorems at them.
use programming_with_c.Base.{[], ◌∷◌, none, some, ◌≡◌, refl, arith}
use programming_with_c.Constrained.Pool
use programming_with_c.Constrained.Pool.{Pool}
use programming_with_c.Constrained.Pool.Laws.{IsPool, init-IsPool, alloc_lem, alloc-free}
use programming_with_c.Constrained.Ring
use programming_with_c.Constrained.Ring.{Ring}
use programming_with_c.Constrained.Ring.Fifo.{
  IsRing, contents, enqueue, dequeue, push_refines, pop_refines,
}

abbrev blank : Pool
blank = record { next = λ _. none; free_list = none; in_use = 0; peak = 0 }

abbrev fresh : Pool
fresh = Pool.init blank

fresh-IsPool : IsPool fresh (7 ∷ 6 ∷ 5 ∷ 4 ∷ 3 ∷ 2 ∷ 1 ∷ 0 ∷ [])
fresh-IsPool = init-IsPool blank

abbrev taken : Pool
taken = (Pool.alloc fresh).1

taken-IsPool : IsPool taken (6 ∷ 5 ∷ 4 ∷ 3 ∷ 2 ∷ 1 ∷ 0 ∷ [])
taken-IsPool = (alloc_lem fresh-IsPool).2

alloc-free_example :
    IsPool
      (Pool.free (Pool.alloc fresh).0 (Pool.client_write 7 (some 3) (Pool.alloc fresh).1))
      (7 ∷ 6 ∷ 5 ∷ 4 ∷ 3 ∷ 2 ∷ 1 ∷ 0 ∷ [])
alloc-free_example = alloc-free (some 3) fresh-IsPool

-- 8 and 9 round the end of the array
abbrev wrapped : Ring
wrapped = record {
  slots = 9 ∷ 0 ∷ 0 ∷ 0 ∷ 0 ∷ 0 ∷ 0 ∷ 0 ∷ 0 ∷ 0 ∷ 0 ∷ 0 ∷ 0 ∷ 0 ∷ 0 ∷ 8 ∷ [];
  head = 1;
  tail = 15;
}

wrapped-IsRing : IsRing wrapped
wrapped-IsRing = omega arith

wrapped-contents : contents wrapped ≡ 8 ∷ 9 ∷ []
wrapped-contents = refl

push_refines_example :
    ((Ring.push wrapped 7).0, contents (Ring.push wrapped 7).1) ≡ enqueue (8 ∷ 9 ∷ []) 7
push_refines_example = push_refines 7 wrapped-IsRing

pop_refines_example :
    ((Ring.pop wrapped).0, (Ring.pop wrapped).1, contents (Ring.pop wrapped).2)
    ≡ dequeue (8 ∷ 9 ∷ [])
pop_refines_example = pop_refines wrapped-IsRing
