-- ===== src/HashMap.antt =====
-- The chained hash map of week33_trees_hash_tables_and_abstract_data_types/adt.c.
-- A key is the list of its bytes, without the terminator. A bucket is the list of the entries of
-- its chain. `size_t` arithmetic is modulo 2 ^ 64. What `malloc` and `calloc` return is an argument.
pub mod Chain
mod Table
pub mod Valid
pub mod Grow
pub mod Lookup
pub mod Stats
mod Tests
use Prim.Native.Nat.{bit_xor}
use mathlib.Core.Option
use programming_with_c.Base.{
  ℕ, ◌+◌, ◌*◌, ◌%◌, ◌^◌, ◌-◌, Bool, true, false, List, [], ◌∷◌, ◌&&◌, Option, none, some, ltb, ◌==◌,
  if◌then◌else◌, length, get_or, set, replicate,
}
use programming_with_c.Base.Int.{ℤ}

abbrev pub Key : Type 0
Key = List ℕ

pub record Entry : Type 0 where
  pub key : Key
  pub value : ℤ

abbrev pub Chain : Type 0
Chain = List Entry

pub record Map : Type 0 where
  pub buckets : List Chain
  pub bucket_count : ℕ
  pub count : ℕ

abbrev pub size_mod : ℕ
size_mod = 2 ^ 64

-- The loop of `hash_string`: FNV-1a.
hash_from : ℕ → Key → ℕ
hash_from h [] = h
hash_from h (c ∷ s) = hash_from (bit_xor h c * 1_099_511_628_211 % size_mod) s

unfoldable pub hash_string : Key → ℕ
unfolding hash_from
hash_string s = hash_from 1_469_598_103_934_665_603 s

-- `strcmp (a, b) == 0`
unfoldable pub str_eq : Key → Key → Bool
str_eq [] [] = true
str_eq (a ∷ s) (b ∷ t) = a == b && str_eq s t
str_eq _ _ = false

-- What the allocator answers in one call of `map_put`.
pub record Memory : Type 0 where
  pub table : ℕ → Bool
  pub entry : Bool
  pub key : Bool

abbrev pub bucket : Map → ℕ → Chain
bucket m i = get_or m.buckets i []

-- `memory` answers for the handle and for the table.
pub create : Bool → Bool → Option Map
create handle table =
    if handle
    then if table
      then some (record { buckets = replicate 8 []; bucket_count = 8; count = 0 })
      else none
    else none

pub rehash_chain : ℕ → List Chain → Chain → List Chain
rehash_chain n fresh [] = fresh
rehash_chain n fresh (e ∷ es) =
    let i = hash_string e.key % n in rehash_chain n (set fresh i (e ∷ get_or fresh i [])) es

pub rehash_all : ℕ → List Chain → List Chain → List Chain
unfolding rehash_chain
rehash_all n fresh [] = fresh
rehash_all n fresh (c ∷ cs) = rehash_all n (rehash_chain n fresh c) cs

pub grow : (ℕ → Bool) → Map → Bool × Map
unfolding rehash_all
grow table m =
    let n = m.bucket_count * 2 % size_mod in
    if table n
    then (true, record m { buckets = rehash_all n (replicate n []) m.buckets; bucket_count = n })
    else (false, m)

-- The search of `map_put` for an entry to overwrite.
unfoldable pub chain_replace : Key → ℤ → Chain → Option Chain
chain_replace key value [] = none
chain_replace key value (e ∷ es) =
    let rest = Option.map (λ es'. e ∷ es') (chain_replace key value es) in
    if str_eq e.key key then some (record e { value = value } ∷ es) else rest

-- The end of `map_put`: two allocations, then the new entry in front.
pub add_entry : Memory → Map → Key → ℤ → Bool × Map
add_entry memory m key value =
    let i = hash_string key % m.bucket_count in
    if memory.entry
    then if memory.key
      then (
        true,
        record m {
          buckets = set m.buckets i (record { key = key; value = value } ∷ bucket m i);
          count = (m.count + 1) % size_mod;
        },
      )
      else (false, m)
    else (false, m)

pub put_new : Memory → Map → Key → ℤ → Bool × Map
unfolding grow add_entry
put_new memory m key value =
    let (grown, m') = grow memory.table m in
    if ltb (m.bucket_count * 3 % size_mod) ((m.count + 1) * 4 % size_mod)
    then (if grown then add_entry memory m' key value else (false, m))
    else add_entry memory m key value

pub put : Memory → Map → Key → ℤ → Bool × Map
unfolding chain_replace put_new
put memory m key value =
    let i = hash_string key % m.bucket_count in
    elim (chain_replace key value (bucket m i)) [
      | some c ↦ (true, record m { buckets = set m.buckets i c })
      | none ↦ put_new memory m key value
    ]

-- The value that goes through `out`, and what `*steps` holds at the end.
pub chain_get : Key → Chain → ℕ → Option ℤ × ℕ
chain_get key [] steps = (none, steps)
chain_get key (e ∷ es) steps =
    let rest = chain_get key es (steps + 1) in
    if str_eq e.key key then (some e.value, steps + 1) else rest

pub get : Map → Key → ℕ → Option ℤ × ℕ
unfolding chain_get
get m key steps = chain_get key (bucket m (hash_string key % m.bucket_count)) steps

unfoldable pub chain_remove : Key → Chain → Option Chain
chain_remove key [] = none
chain_remove key (e ∷ es) =
    let rest = Option.map (λ es'. e ∷ es') (chain_remove key es) in
    if str_eq e.key key then some es else rest

-- `count--` wraps at 0.
pub remove : Map → Key → Bool × Map
unfolding chain_remove
remove m key =
    let i = hash_string key % m.bucket_count in
    elim (chain_remove key (bucket m i)) [
      | some c ↦ (
        true,
        record m { buckets = set m.buckets i c; count = (m.count + size_mod - 1) % size_mod },
      )
      | none ↦ (false, m)
    ]

pub count : Map → ℕ
count m = m.count

-- The blocks that `map_destroy` frees, in order.
pub data Block : Type 0 where
  key_bytes : Entry → Block
  entry : Entry → Block
  table : Block
  handle : Block

pub destroy_chain : Chain → List Block → List Block
destroy_chain [] rest = rest
destroy_chain (e ∷ es) rest = key_bytes e ∷ (entry e ∷ destroy_chain es rest)

pub destroy_buckets : List Chain → List Block → List Block
unfolding destroy_chain
destroy_buckets [] rest = rest
destroy_buckets (c ∷ cs) rest = destroy_chain c (destroy_buckets cs rest)

-- NULL is `none`.
pub destroy : Option Map → List Block
unfolding destroy_buckets
destroy none = []
destroy (some m) = destroy_buckets m.buckets (table ∷ (handle ∷ []))

-- `used` and `longest` of `map_stats`.
pub stats_from : List Chain → ℕ → ℕ → ℕ × ℕ
stats_from [] used longest = (used, longest)
stats_from (c ∷ cs) used longest =
    stats_from cs (if ltb 0 (length c) then used + 1 else used)
      (if ltb longest (length c) then length c else longest)

pub stats : Map → ℕ × ℕ
unfolding stats_from
stats m = stats_from m.buckets 0 0
