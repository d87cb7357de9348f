-- ===== src/TestedMap.antt =====
-- The string map of week35_debugging_testing_and_analysis/tests.c, with the suite that tests it. The
-- loops over a chain and the hash are those of HashMap; this map does not grow. What `malloc` and
-- `calloc` return is an argument.
pub mod Lookup
pub mod Suite
mod Tests
use programming_with_c.Base.{
  ℕ, ◌+◌, ◌%◌, ◌-◌, ◌^◌, Bool, true, false, List, [], ◌∷◌, Option, none, some, ◌==◌, if◌then◌else◌,
  get_or, set, replicate,
}
use programming_with_c.Base.Int.{ℤ}
use programming_with_c.HashMap.{
  Key, Entry, Chain, size_mod, str_eq, hash_string, chain_replace, chain_remove, Block,
  destroy_buckets,
}

pub record Map : Type 0 where
  pub buckets : List Chain
  pub bucket_count : ℕ
  pub count : ℕ

-- `memory` answers for the handle and for the table.
pub create : Bool → Bool → ℕ → Option Map
create handle table n =
    let buckets = if n == 0 then 8 else n in
    if handle
    then if table
      then some (record { buckets = replicate buckets []; bucket_count = buckets; count = 0 })
      else none
    else none

-- The blocks that are freed, in order; NULL is `none`.
pub destroy : Option Map → List Block
destroy none = []
destroy (some m) = destroy_buckets m.buckets (Block.table ∷ (Block.handle ∷ []))

abbrev pub bucket : Map → Key → ℕ
bucket m key = hash_string key % m.bucket_count

-- The end of `map_put`: two allocations, then the new entry in front.
pub add_entry : Bool → Bool → Map → Key → ℤ → Bool × Map
add_entry entry key_bytes m key value =
    if entry
    then if key_bytes
      then (
        true,
        record m {
          buckets =
              set m.buckets (bucket m key)
                (record { key = key; value = value } ∷ get_or m.buckets (bucket m key) []);
          count = (m.count + 1) % size_mod;
        },
      )
      else (false, m)
    else (false, m)

pub put : Bool → Bool → Map → Key → ℤ → Bool × Map
unfolding add_entry
put entry key_bytes m key value =
    elim (chain_replace key value (get_or m.buckets (bucket m key) [])) [
      | some c ↦ (true, record m { buckets = set m.buckets (bucket m key) c })
      | none ↦ add_entry entry key_bytes m key value
    ]

-- The loop of `map_get`: what goes through `out`.
pub search : Key → Chain → Option ℤ
search key [] = none
search key (e ∷ es) = if str_eq e.key key then some e.value else search key es

pub get : Map → Key → Option ℤ
unfolding search
get m key = search key (get_or m.buckets (bucket m key) [])

-- `count--` wraps at 0.
pub remove : Map → Key → Bool × Map
remove m key = elim (chain_remove key (get_or m.buckets (bucket m key) [])) [
  | some c ↦ (
    true,
    record m {
      buckets = set m.buckets (bucket m key) c;
      count = (m.count + size_mod - 1) % size_mod;
    },
  )
  | none ↦ (false, m)
]
