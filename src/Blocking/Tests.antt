-- ===== src/Blocking/Tests.antt =====
-- A producer and a consumer of concurrent.c by hand, and instances of what is proved.
use programming_with_c.Base.{◌≡◌, refl, true, false, List, [], ◌∷◌, none, some, replicate}
use programming_with_c.Base.Int.{ℤ, pos}
use programming_with_c.Blocking.{Queue, push, pop, close, init}
use programming_with_c.Blocking.Runs.{Run, Conserved, run-Conserved, run_drained}

abbrev slots : List ℤ
slots = replicate 8 (pos 0)

abbrev holding_five : Queue
holding_five = record {
  items = pos 5 ∷ replicate 7 (pos 0);
  head = 0;
  tail = 1;
  count = 1;
  closed = false;
}

abbrev emptied : Queue
emptied = record {
  items = pos 5 ∷ replicate 7 (pos 0);
  head = 1;
  tail = 1;
  count = 0;
  closed = false;
}

abbrev full : Queue
full = record { items = slots; head = 3; tail = 3; count = 8; closed = false }

push_five : push (init slots) (pos 5) ≡ some holding_five
unfolding push init
push_five = refl

pop_five : pop holding_five ≡ some (some (pos 5), emptied)
unfolding pop
pop_five = refl

push_waits : push full (pos 1) ≡ none
unfolding push
push_waits = refl

pop_waits : pop emptied ≡ none
unfolding pop
pop_waits = refl

pop_ends : pop (close emptied) ≡ some (none, close emptied)
unfolding pop close
pop_ends = refl

start-open : (init slots).closed ≡ false
unfolding init
start-open = refl

run_one : Run holding_five (pos 5 ∷ []) []
run_one = Run.pushes (pos 5) (Run.start slots refl) start-open push_five

run_two : Run emptied (pos 5 ∷ []) (pos 5 ∷ [])
run_two = Run.pops run_one pop_five

run-Conserved_example : Conserved emptied (pos 5 ∷ []) (pos 5 ∷ [])
run-Conserved_example = run-Conserved run_two

run_drained_example : ((close emptied).closed ≡ true) × (pos 5 ∷ [] ≡ pos 5 ∷ [])
run_drained_example = run_drained (Run.closes run_two) pop_ends
