-- ===== src/TestedMap/Tests.antt =====
-- Instances of what is proved, on a map that is fresh from `map_create`.
use programming_with_c.Base.{◌≡◌, true, [], ◌∷◌, some, none, replicate, arith}
use programming_with_c.Base.Int.{pos}
use programming_with_c.HashMap.{Key, hash_string, str_eq, chain_replace}
use programming_with_c.TestedMap.{Map, put, get, remove}
use programming_with_c.TestedMap.Lookup.{fresh-IsMap, put-Put, remove-Gone}

abbrev fresh : Map
fresh = record { buckets = replicate 8 []; bucket_count = 8; count = 0 }

abbrev word : Key
word = b'k' ∷ b'e' ∷ b'y' ∷ []

put-Put_example : get (put true true fresh word (pos 42)).1 word ≡ some (pos 42)
unfolding put str_eq chain_replace hash_string
put-Put_example = (put-Put true true fresh word (pos 42) (fresh-IsMap 8 (omega arith))).finds word

not_there : get (remove fresh word).1 word ≡ none
unfolding str_eq
not_there = (remove-Gone fresh word (fresh-IsMap 8 (omega arith))).finds word
