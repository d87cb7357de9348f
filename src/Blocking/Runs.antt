-- ===== src/Blocking/Runs.antt =====
-- The queue of concurrent.c under every interleaving of its producers and consumers: a run is a
-- sequence of the steps that the lock makes atomic.
use programming_with_c.Base.{
  ◌≡◌, ◌≢◌, refl, sym, ap, ◌∙◌, true, false, List, [], ◌∷◌, ◌++◌, none, some, length, arith,
}
use programming_with_c.Base.Int.{ℤ}
use programming_with_c.Blocking.{Queue, queue_capacity, push, pop, close, init}
use programming_with_c.Blocking.Fifo.{
  IsQueue, contents, Pushes, Pops, push-Pushes, pop-Pops, init-IsQueue,
}
use mathlib.Core.List.{append_assoc, append-nil}
use mathlib.Core.Path.{subst}

-- `Run q pushed popped`: `q` is reached by steps in which `pushed` are the values that some
-- producer handed in while the queue was open, and `popped` those that some consumer got, both in
-- the order of the steps. A step that waits changes nothing, and is none.
pub data Run : Queue → List ℤ → List ℤ → Type 0 where
  start : (items : List ℤ) → length items ≡ queue_capacity → Run (init items) [] []
  pushes :
      {q q' : Queue} {ins outs : List ℤ} (v : ℤ)
      → Run q ins outs
      → q.closed ≡ false
      → push q v ≡ some q'
      → Run q' (ins ++ (v ∷ [])) outs
  late :
      {q q' : Queue} {ins outs : List ℤ} (v : ℤ)
      → Run q ins outs
      → q.closed ≡ true
      → push q v ≡ some q'
      → Run q' ins outs
  pops :
      {q q' : Queue} {ins outs : List ℤ} {v : ℤ}
      → Run q ins outs
      → pop q ≡ some (some v, q')
      → Run q' ins (outs ++ (v ∷ []))
  fails :
      {q q' : Queue} {ins outs : List ℤ}
      → Run q ins outs
      → pop q ≡ some (none, q')
      → Run q' ins outs
  closes : {q : Queue} {ins outs : List ℤ} → Run q ins outs → Run (close q) ins outs

pub record Conserved (q : Queue) (ins outs : List ℤ) : Type 0 where
  pub is_queue : IsQueue q
  pub history : ins ≡ outs ++ contents q

after_push :
    {q q' : Queue} {v : ℤ}
    → q.closed ≡ false
    → Pushes q v (some q')
    → IsQueue q' × (contents q' ≡ contents q ++ (v ∷ []))
after_push o (Pushes.drops c) = absurd (ground (arith, o, c))
after_push o (Pushes.appends _ _ w e) = (w, e)

after_late : {q q' : Queue} {v : ℤ} → q.closed ≡ true → Pushes q v (some q') → q' ≡ q
after_late c (Pushes.drops _) = refl
after_late c (Pushes.appends o _ _ _) = absurd (ground (arith, o, c))

after_pop :
    {q q' : Queue} {v : ℤ}
    → Pops q (some (some v, q'))
    → IsQueue q' × (contents q ≡ v ∷ contents q')
after_pop (Pops.takes _ w e) = (w, e)

after_fail : {q q' : Queue} → Pops q (some (none, q')) → q' ≡ q
after_fail (Pops.ends _ _) = refl

close-Conserved :
    {q : Queue} {ins outs : List ℤ} → Conserved q ins outs → Conserved (close q) ins outs
unfolding close
close-Conserved c = record {
  is_queue = record {
    storage = c.is_queue.storage;
    head_in = c.is_queue.head_in;
    room = c.is_queue.room;
    tail_at = c.is_queue.tail_at;
  };
  history = c.history;
}

-- After every run the values handed in are, in their order, those handed out and then those that
-- the queue holds, which are at most eight: none is lost, doubled or overtaken.
pub run-Conserved : {q : Queue} {ins outs : List ℤ} → Run q ins outs → Conserved q ins outs
run-Conserved (Run.start items h) = record {
  is_queue = init-IsQueue items h;
  history = unfold init in refl;
}
run-Conserved (Run.pushes {q} {q'} {ins} {outs} v r o e) =
    let c = run-Conserved r in
    let (w, grown) = after_push o (subst (λ s. Pushes q v s) e (push-Pushes v c.is_queue)) in
    record {
      is_queue = w;
      history =
          ap (λ xs. xs ++ (v ∷ [])) c.history
          ∙ append_assoc outs (contents q) (v ∷ [])
          ∙ ap (λ xs. outs ++ xs) (sym grown);
    }
run-Conserved (Run.late {q} {q'} {ins} {outs} v r o e) =
    let c = run-Conserved r in
    subst (λ s. Conserved s ins outs)
      (sym (after_late o (subst (λ s. Pushes q v s) e (push-Pushes v c.is_queue)))) c
run-Conserved (Run.pops {q} {q'} {ins} {outs} {v} r e) =
    let c = run-Conserved r in
    let (w, shrunk) = after_pop (subst (λ s. Pops q s) e (pop-Pops c.is_queue)) in
    record {
      is_queue = w;
      history =
          c.history ∙ ap (λ xs. outs ++ xs) shrunk ∙ sym (append_assoc outs (v ∷ []) (contents q'));
    }
run-Conserved (Run.fails {q} {q'} {ins} {outs} r e) =
    let c = run-Conserved r in
    subst (λ s. Conserved s ins outs)
      (sym (after_fail (subst (λ s. Pops q s) e (pop-Pops c.is_queue)))) c
run-Conserved (Run.closes r) = close-Conserved (run-Conserved r)

at_end : {q q' : Queue} → Pops q (some (none, q')) → (contents q ≡ []) × (q.closed ≡ true)
at_end (Pops.ends e c) = (e, c)

-- When a consumer is told that there is nothing more, the queue is closed and every value that was
-- handed in has been handed out.
pub run_drained :
    {q q' : Queue} {ins outs : List ℤ}
    → Run q ins outs
    → pop q ≡ some (none, q')
    → (q.closed ≡ true) × (ins ≡ outs)
run_drained {q} {q'} {ins} {outs} r e =
    let c = run-Conserved r in
    let (nothing, closed) = at_end (subst (λ s. Pops q s) e (pop-Pops c.is_queue)) in
    (closed, c.history ∙ ap (λ xs. outs ++ xs) nothing ∙ append-nil outs)

-- On a closed queue nobody waits.
pub closed_progress : (q : Queue) (v : ℤ) → q.closed ≡ true → (push q v ≢ none) × (pop q ≢ none)
unfolding push pop
closed_progress q v c = ground arith
