-- ===== src/LinkedList/Tests.antt =====
-- A list of two nodes by hand, and instances of what is proved of lists.c.
use programming_with_c.Base.{◌≡◌, refl, Bool, true, false, [], ◌∷◌, none, some, arith}
use mathlib.Core.Option
use programming_with_c.Base.Int.{pos}
use programming_with_c.LinkedList.{Store, LinkedList, init, pop, remove, reverse, destroy, upd}
use programming_with_c.LinkedList.Chains.{IsList}
use programming_with_c.LinkedList.Reverse.{Turned, reverse_lem, freed, destroy_lem}
use programming_with_c.LinkedList.Remove.{Removed, remove_lem}

abbrev no_nodes : Store
no_nodes = record { value = λ i. pos 0; next = λ i. none; live = λ i. false }

-- The nodes 4 and 2 with the values 10 and 20.
abbrev two_nodes : Store
two_nodes = record {
  value = upd (upd (λ i. pos 0) 4 (pos 10)) 2 (pos 20);
  next = upd (upd (λ i. none) 2 none) 4 (some 2);
  live = upd (upd (λ i. false) 4 true) 2 true;
}

abbrev two : LinkedList
two = record { head = some 4; tail = some 2; count = 2 }

two-IsList : IsList two_nodes two (4 ∷ 2 ∷ [])
two-IsList = record {
  chain = (refl, refl, refl, (refl, refl, refl, refl));
  ends = refl;
  counted = omega arith;
}

pop_first : (pop two_nodes two).0 ≡ some (pos 10)
unfolding pop
pop_first = refl

abbrev only_first : LinkedList
only_first = record { head = some 4; tail = some 4; count = 1 }

-- The tail moves back to the node before.
remove_last :
    Option.map {B = Bool × LinkedList} (λ r. (r.0, r.2)) (remove 3 (pos 20) two_nodes two)
    ≡ some (true, only_first)
unfolding remove
remove_last = refl

remove_missing : remove 3 (pos 30) two_nodes two ≡ some (false, two_nodes, two)
unfolding remove
remove_missing = refl

abbrev turned_two : LinkedList
turned_two = record { head = some 2; tail = some 4; count = 2 }

turn_around : Option.map (λ r. r.1) (reverse 3 two_nodes two) ≡ some turned_two
unfolding reverse
turn_around = refl

reverse_lem_example : Turned two_nodes (4 ∷ 2 ∷ []) (reverse 3 two_nodes two)
reverse_lem_example = reverse_lem 3 (4 ∷ 2 ∷ []) two-IsList (omega arith)

remove_lem_example : Removed two_nodes (pos 20) (4 ∷ 2 ∷ []) (remove 3 (pos 20) two_nodes two)
remove_lem_example = remove_lem 3 (pos 20) (4 ∷ 2 ∷ []) two-IsList (omega arith)

destroy_lem_example :
    destroy 3 two_nodes two
    ≡ some (record two_nodes { live = freed (4 ∷ 2 ∷ []) two_nodes.live }, init)
destroy_lem_example = destroy_lem 3 (4 ∷ 2 ∷ []) two-IsList (omega arith)
