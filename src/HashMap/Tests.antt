-- ===== src/HashMap/Tests.antt =====
-- A map of adt.c with the words of its `main`, and the theorems at it.
use programming_with_c.Base.{
  ◌+◌, ◌*◌, ◌^◌, true, ◌&&◌, [], ◌∷◌, none, some, ◌≡◌, refl, arith, length, if◌then◌else◌, leb,
}
use programming_with_c.Base.Int.{pos}
use programming_with_c.HashMap.{
  Key, Map, Memory, create, put, get, remove, destroy, hash_string, str_eq,
}
use programming_with_c.HashMap.Valid.{IsValid, Bounded, create-IsValid}
use programming_with_c.HashMap.Lookup.{put-IsValid, get-put, get-remove}
use programming_with_c.HashMap.Stats.{length-destroy}

abbrev alpha : Key
alpha = b'a' ∷ b'l' ∷ b'p' ∷ b'h' ∷ b'a' ∷ []

abbrev beta : Key
beta = b'b' ∷ b'e' ∷ b't' ∷ b'a' ∷ []

-- A heap of a gigabyte.
abbrev plenty : Memory
plenty = record { table = λ n. leb n (2 ^ 27); entry = true; key = true }

plenty-Bounded : Bounded plenty.table
plenty-Bounded n h = ground arith

abbrev empty : Map
empty = record { buckets = [] ∷ [] ∷ [] ∷ [] ∷ [] ∷ [] ∷ [] ∷ [] ∷ []; bucket_count = 8; count = 0 }

created : create true true ≡ some empty
unfolding create
created = refl

empty-IsValid : IsValid empty
empty-IsValid = create-IsValid true true created

abbrev one : Map
one = (put plenty empty alpha (pos 0)).1

one-IsValid : IsValid one
one-IsValid = put-IsValid plenty alpha (pos 0) plenty-Bounded empty-IsValid

finds_alpha : get one alpha 0 ≡ (some (pos 0), 1)
unfolding put get hash_string str_eq
finds_alpha = refl

hash_alpha : hash_string (b'a' ∷ []) ≡ 4_953_267_810_257_967_366
unfolding hash_string
hash_alpha = refl

put-IsValid_example : IsValid (put plenty one beta (pos 10)).1
put-IsValid_example = put-IsValid plenty beta (pos 10) plenty-Bounded one-IsValid

get-put_example : (get (put plenty one beta (pos 10)).1 beta 0).0 ≡ (
    if (put plenty one beta (pos 10)).0 && str_eq beta beta
    then some (pos 10)
    else (get one beta 0).0)
get-put_example = get-put plenty beta beta (pos 10) 0 plenty-Bounded one-IsValid

get-remove_example :
    (get (remove one alpha).1 alpha 0).0
    ≡ (if str_eq alpha alpha then none else (get one alpha 0).0)
get-remove_example = get-remove alpha alpha 0 one-IsValid

length-destroy_example : length (destroy (some one)) ≡ 2 * one.count + 2
length-destroy_example = length-destroy one-IsValid
