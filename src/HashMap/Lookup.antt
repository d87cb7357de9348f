-- ===== src/HashMap/Lookup.antt =====
-- `map_put`, `map_remove` and `map_grow` of adt.c: the invariant is kept, and a search finds what
-- an association from keys to values would hold.
use programming_with_c.Base.{
  ℕ, ◌+◌, ◌*◌, ◌%◌, ◌^◌, ◌≤◌, ◌<◌, Bool, true, false, List, [], ◌≡◌, refl, ◌∙◌, Option, none, some,
  ◌&&◌, arith, ltb, if◌then◌else◌, replicate, get_or-replicate, length-replicate, inl, inr,
  Bool-cases, Option-cases, ap,
}
use programming_with_c.Base.Int.{ℤ}
use programming_with_c.HashMap.{
  Key, Chain, Map, Memory, bucket, size_mod, str_eq, hash_string, grow, rehash_all, add_entry,
  put_new, put, get, remove, chain_replace, chain_remove,
}
use programming_with_c.HashMap.Chain.{
  find, chain_get-find, str_eq_iff, replace-none, remove-none, remove-some,
}
use programming_with_c.HashMap.Table.{total-replicate, IsTable-replicate}
use programming_with_c.HashMap.Grow.{AllMoved, AllMoved_lem}
use programming_with_c.HashMap.Valid.{
  IsValid, Bounded, found, replaced-IsValid, found-replaced, removed-IsValid, found-removed,
  added-IsValid, found-added, count_pos,
}

pub get-found : (m : Map) (j : Key) (s : ℕ) → (get m j s).0 ≡ found m j
unfolding get
get-found m j s = chain_get-find j (bucket m (hash_string j % m.bucket_count)) s

-- What is known of the map after `map_grow` succeeds.
record Grown (m g : Map) : Type 0 where
  valid : IsValid g
  doubled : g.bucket_count ≡ m.bucket_count * 2
  same_count : g.count ≡ m.count
  finds : (j : Key) → found g j ≡ found m j

module _ {m : Map} (v : IsValid m) where
  abbrev empty : List Chain
  empty = replicate (m.bucket_count * 2) []

  abbrev wider : Map
  wider = record m {
    buckets = rehash_all (m.bucket_count * 2) empty m.buckets;
    bucket_count = m.bucket_count * 2;
  }

  no_wrap : m.bucket_count * 2 % size_mod ≡ m.bucket_count * 2
  no_wrap = omega (arith, v.small)

  all_moved : AllMoved (m.bucket_count * 2) m.bucket_count 0 empty m.buckets wider.buckets
  all_moved =
      AllMoved_lem (m.bucket_count * 2) (omega (arith, v.room)) m.bucket_count 0 empty m.buckets
        (length-replicate (m.bucket_count * 2) [])
        (IsTable-replicate (m.bucket_count * 2) 0 (m.bucket_count * 2))
        (λ j h.
          ap (find j)
            (get_or-replicate (m.bucket_count * 2) (hash_string j % (m.bucket_count * 2)) []))
        v.placed

  wider-Grown : m.bucket_count * 2 * 8 < 2 ^ 64 → Grown m wider
  wider-Grown b = record {
    valid = record {
      width = all_moved.width;
      room = omega (arith, v.room);
      small = omega arith;
      load = omega (arith, v.load);
      counted = omega (arith, v.counted, all_moved.holds, total-replicate (m.bucket_count * 2));
      placed = all_moved.table;
    };
    doubled = refl;
    same_count = refl;
    finds = λ j. all_moved.finds j ∙ ground arith;
  }

  grow-Grown :
      (table : ℕ → Bool) → Bounded table → (grow table m).0 ≡ true → Grown m (grow table m).1
  unfolding grow
  grow-Grown table b h = elim (Bool-cases (table (m.bucket_count * 2))) [
    | inl t ↦ rw (no_wrap, t) (wider-Grown (b _ t))
    | inr f ↦ absurd (refused f)
  ]
    where
      refused : table (m.bucket_count * 2) ≡ false → ⊥
      refused f = ground (arith, no_wrap)

-- The outcome of storing `x` under `k`: whatever happens the map stays valid, and a search finds
-- the new value if the call reports success, and what it found before if it does not.
pub record Stored (m : Map) (k : Key) (x : ℤ) (r : Bool × Map) : Type 0 where
  pub valid : IsValid r.1
  pub finds : (j : Key) → found r.1 j ≡ (if r.0 && str_eq k j then some x else found m j)

module _ {m : Map} (k : Key) (x : ℤ) where
  unchanged : IsValid m → Stored m k x (false, m)
  unchanged v = record { valid = v; finds = λ j. refl }

  add_entry-Stored :
      (memory : Memory)
      → IsValid m
      → found m k ≡ none
      → (m.count + 1) * 4 ≤ m.bucket_count * 3
      → Stored m k x (add_entry memory m k x)
  unfolding add_entry
  add_entry-Stored memory v absent fits = elim (Bool-cases memory.entry) [
    | inr f ↦ rw f (unchanged v)
    | inl t ↦ elim (Bool-cases memory.key) [
      | inr f ↦ rw (t, f) (unchanged v)
      | inl t' ↦
          rw (t, t')
            (record { valid = added-IsValid v k x absent fits; finds = λ j. found-added v k x j })
    ]
  ]

-- Storing into the grown map is storing into the map.
Stored-Grown :
    {m g : Map} (k : Key) (x : ℤ) {r : Bool × Map} → Grown m g → Stored g k x r → Stored m k x r
Stored-Grown k x {r} gr s = record {
  valid = s.valid;
  finds = λ j. s.finds j ∙ ap (λ o. if r.0 && str_eq k j then some x else o) (gr.finds j);
}

put_new-Stored :
    (memory : Memory) {m : Map} (k : Key) (x : ℤ)
    → Bounded memory.table
    → IsValid m
    → found m k ≡ none
    → Stored m k x (put_new memory m k x)
unfolding put_new
put_new-Stored memory {m} k x b v absent =
    elim (Bool-cases (ltb (m.bucket_count * 3 % size_mod) ((m.count + 1) * 4 % size_mod))) [
      | inr f ↦ rw f (add_entry-Stored k x memory v absent (fits f))
      | inl t ↦ elim (Bool-cases (grow memory.table m).0) [
        | inr f ↦ rw (t, f) (unchanged k x v)
        | inl g ↦
            let gr = grow-Grown v memory.table b g in
            rw (t, g)
              (Stored-Grown k x gr
                (add_entry-Stored k x memory gr.valid (gr.finds k ∙ absent) (room gr)))
      ]
    ]
  where
    fits :
        ltb (m.bucket_count * 3 % size_mod) ((m.count + 1) * 4 % size_mod) ≡ false
        → (m.count + 1) * 4 ≤ m.bucket_count * 3
    fits f = ground (arith, v.load, v.small)

    room : {g : Map} → Grown m g → (g.count + 1) * 4 ≤ g.bucket_count * 3
    room gr = omega (arith, v.load, v.room, gr.doubled, gr.same_count)

pub put-Stored :
    (memory : Memory) {m : Map} (k : Key) (x : ℤ)
    → Bounded memory.table
    → IsValid m
    → Stored m k x (put memory m k x)
unfolding put
put-Stored memory {m} k x b v =
    elim (Option-cases (chain_replace k x (bucket m (hash_string k % m.bucket_count)))) [
      | inl n ↦ rw (n, put) (put_new-Stored memory k x b v (replace-none k x _ n))
      | inr (c, p) ↦
          rw (p, put)
            (record { valid = replaced-IsValid v k x p; finds = λ j. found-replaced v k x j p })
    ]

-- `map_put` keeps the invariant of the map, on success and on failure.
pub put-IsValid :
    (memory : Memory) {m : Map} (k : Key) (x : ℤ)
    → Bounded memory.table
    → IsValid m
    → IsValid (put memory m k x).1
put-IsValid memory k x b v = (put-Stored memory k x b v).valid

-- After `map_put` a search for the key finds the new value if the call succeeded; every other
-- search, and every search after a failed call, finds what it found before.
pub get-put :
    (memory : Memory) {m : Map} (k j : Key) (x : ℤ) (s : ℕ)
    → Bounded memory.table
    → IsValid m
    → (get (put memory m k x).1 j s).0
      ≡ (if (put memory m k x).0 && str_eq k j then some x else (get m j s).0)
get-put memory {m} k j x s b v =
    rw (get-found (put memory m k x).1 j s, get-found m j s) ((put-Stored memory k x b v).finds j)

-- `map_remove` keeps the invariant.
pub remove-IsValid : {m : Map} (k : Key) → IsValid m → IsValid (remove m k).1
unfolding remove
remove-IsValid {m} k v =
    elim (Option-cases (chain_remove k (bucket m (hash_string k % m.bucket_count)))) [
      | inl n ↦ rw (n, remove) v
      | inr (c, p) ↦ rw (p, remove) (removed-IsValid v k p)
    ]

found-remove :
    {m : Map} (k j : Key)
    → IsValid m
    → found (remove m k).1 j ≡ (if str_eq k j then none else found m j)
unfolding remove
found-remove {m} k j v =
    elim (Option-cases (chain_remove k (bucket m (hash_string k % m.bucket_count)))) [
      | inl n ↦ rw (n, remove) (absent n)
      | inr (c, p) ↦ rw (p, remove) (found-removed v k j p)
    ]
  where
    absent :
        chain_remove k (bucket m (hash_string k % m.bucket_count)) ≡ none
        → found m j ≡ (if str_eq k j then none else found m j)
    absent n = elim (Bool-cases (str_eq k j)) [
      | inr f ↦ rw f
      | inl t ↦ rw t (rw (← (str_eq_iff k j).0 t) (remove-none k _ n))
    ]

-- After `map_remove` a search for the key finds nothing, and every other what it found before.
pub get-remove :
    {m : Map} (k j : Key) (s : ℕ)
    → IsValid m
    → (get (remove m k).1 j s).0 ≡ (if str_eq k j then none else (get m j s).0)
get-remove {m} k j s v = rw (get-found (remove m k).1 j s, get-found m j s) (found-remove k j v)

abbrev pub is_some {ℓ} : {A : Type ℓ} → Option A → Bool
is_some none = false
is_some (some x) = true

-- `map_remove` reports success exactly when the key was there, and then the count falls by one.
pub remove-count :
    {m : Map} (k : Key) (s : ℕ)
    → IsValid m
    → ((remove m k).0 ≡ is_some (get m k s).0)
      × (m.count ≡ (remove m k).1.count + (if (remove m k).0 then 1 else 0))
unfolding remove
remove-count {m} k s v =
    let home = bucket m (hash_string k % m.bucket_count) in
    elim (Option-cases (chain_remove k home)) [
      | inl n ↦ rw (n, remove, get-found m k s, remove-none k home n) (refl, omega arith)
      | inr (c, p) ↦
          let (x, q) = remove-some k home p in
          rw (p, remove, get-found m k s, q) (refl, omega (arith, count_pos v k p, v.load, v.small))
    ]
