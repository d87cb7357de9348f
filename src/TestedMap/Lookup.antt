-- ===== src/TestedMap/Lookup.antt =====
-- What `map_get` of tests.c finds after `map_put` and `map_remove`.
use programming_with_c.Base.{
  ℕ, ◌+◌, ◌-◌, ◌%◌, ◌<◌, ◌≡◌, ◌⊎◌, refl, sym, ap, ◌∙◌, Bool, true, false, ◌&&◌, [], ◌∷◌, Option,
  none, some, ◌==◌, if◌then◌else◌, length, length-set, get_or, set, get_or-set_self, get_or-set_ne,
  get_or-replicate, length-replicate, replicate, arith, Bool-cases, Option-cases, inl, inr,
}
use mathlib.Core.Path.{subst}
use programming_with_c.Base.Int.{ℤ}
use programming_with_c.HashMap.{Key, Chain, size_mod, str_eq, chain_replace, chain_remove}
use programming_with_c.HashMap.Chain.{
  find, str_eq_iff, IsUnique, Replaced_lem, Removed_lem, replace-none, remove-none,
}
use programming_with_c.TestedMap.{Map, create, bucket, add_entry, put, search, get, remove}

search-find : (key : Key) (c : Chain) → search key c ≡ find key c
unfolding search
search-find key [] = refl
search-find key (e ∷ es) = rw (search-find key es)

get-find : (m : Map) (j : Key) → get m j ≡ find j (get_or m.buckets (bucket m j) [])
unfolding get
get-find m j = search-find j (get_or m.buckets (bucket m j) [])

-- The array has all buckets, and no bucket holds a key twice.
pub record IsMap (m : Map) : Type 0 where
  pub width : length m.buckets ≡ m.bucket_count
  pub some_buckets : 0 < m.bucket_count
  pub unique : (i : ℕ) → IsUnique (get_or m.buckets i [])

bucket_in : {m : Map} (w : IsMap m) (key : Key) → bucket m key < length m.buckets
bucket_in w key = omega (arith, w.width, w.some_buckets)

IsUnique-replicate : (n i : ℕ) → IsUnique (get_or {A = Chain} (replicate n []) i [])
IsUnique-replicate n i = rw (get_or-replicate {A = Chain} n i []) tt

pub fresh-IsMap :
    (n : ℕ) → 0 < n → IsMap (record { buckets = replicate n []; bucket_count = n; count = 0 })
fresh-IsMap n h = record {
  width = length-replicate n [];
  some_buckets = h;
  unique = IsUnique-replicate n;
}

positive : (n : ℕ) → 0 < (if n == 0 then 8 else n)
positive n = ground arith

-- The allocations succeed.
pub create-IsMap : (n : ℕ) → (m : Map) × (create true true n ≡ some m) × IsMap m
unfolding create
create-IsMap n =
    let buckets = if n == 0 then 8 else n in
    (
      record { buckets = replicate buckets []; bucket_count = buckets; count = 0 },
      refl,
      fresh-IsMap buckets (positive n),
    )

-- A map with another chain in the bucket of a key.
abbrev with_chain : Map → Key → Chain → ℕ → Map
with_chain m key c n = record m { buckets = set m.buckets (bucket m key) c; count = n }

module _ {m : Map} (w : IsMap m) (key : Key) (c : Chain) (n : ℕ) where
  same_bucket :
      (i : ℕ) → (i == bucket m key) ≡ true → get_or (set m.buckets (bucket m key) c) i [] ≡ c
  same_bucket i t =
      ap (λ k. get_or (set m.buckets (bucket m key) c) k []) (ground (arith, t))
      ∙ get_or-set_self m.buckets (bucket m key) c [] (bucket_in w key)

  other_bucket :
      (i : ℕ)
      → (i == bucket m key) ≡ false
      → get_or (set m.buckets (bucket m key) c) i [] ≡ get_or m.buckets i []
  other_bucket i f =
      get_or-set_ne m.buckets (bucket m key) i c [] (λ e. absurd (ground (arith, e, f)))

  with_chain-IsMap : IsUnique c → IsMap (with_chain m key c n)
  with_chain-IsMap u = record {
    width = length-set m.buckets (bucket m key) c ∙ w.width;
    some_buckets = w.some_buckets;
    unique = λ i. elim (Bool-cases (i == bucket m key)) [
      | inl t ↦ subst IsUnique (sym (same_bucket i t)) u
      | inr f ↦ subst IsUnique (sym (other_bucket i f)) (w.unique i)
    ];
  }

  -- Only a key that hashes to the bucket is searched in the new chain.
  get-with_chain :
      (new : Option ℤ)
      → ((j : Key)
          → find j c ≡ (if str_eq key j then new else find j (get_or m.buckets (bucket m key) [])))
      → (j : Key) → get (with_chain m key c n) j ≡ (if str_eq key j then new else get m j)
  get-with_chain new h j = elim (Bool-cases (bucket m j == bucket m key)) [
    | inl t ↦
        get-find (with_chain m key c n) j
        ∙ ap (find j) (same_bucket (bucket m j) t)
        ∙ h j
        ∙ ap (λ v. if str_eq key j then new else v)
            (ap (λ i. find j (get_or m.buckets i [])) (eq_of_test (bucket m key) (bucket m j) t)
              ∙ sym (get-find m j))
    | inr f ↦
        get-find (with_chain m key c n) j
        ∙ ap (find j) (other_bucket (bucket m j) f)
        ∙ sym (get-find m j)
        ∙ rw (other_key f) refl
  ]
    where
      eq_of_test : (a b : ℕ) → (b == a) ≡ true → a ≡ b
      eq_of_test a b t = ground (arith, t)

      other_key : (bucket m j == bucket m key) ≡ false → str_eq key j ≡ false
      other_key f = elim (Bool-cases (str_eq key j)) [
        | inl t ↦ absurd (ground (arith, f, ap (bucket m) ((str_eq_iff key j).0 t)))
        | inr g ↦ g
      ]

-- The number of entries after a `map_put`, by its result and what the key had before.
abbrev pub count_after : Bool → Option ℤ → ℕ → ℕ
count_after false before n = n
count_after true none n = (n + 1) % size_mod
count_after true (some _) n = n

-- After a `map_put` that reports success, the key is found with its new value, and every other key
-- as before, and the count has grown by one if the key was not there; after one that fails, the map is
-- as it was. The map stays one without duplicates.
pub record Put (m : Map) (key : Key) (value : ℤ) (result : Bool × Map) : Type 0 where
  pub is_map : IsMap result.1
  pub finds :
      (j : Key) → get result.1 j ≡ (if result.0 && str_eq key j then some value else get m j)
  pub counts : result.1.count ≡ count_after result.0 (get m key) m.count
  pub unchanged : (result.0 ≡ true) ⊎ (result.1 ≡ m)

-- A key that is overwritten was there.
replaced_before :
    (key : Key) (v : ℤ) (c : Chain) {c' : Chain}
    → chain_replace key v c ≡ some c'
    → (x : ℤ) × (find key c ≡ some x)
unfolding chain_replace
replaced_before key v [] h = cc h
replaced_before key v (e ∷ es) h = elim (Bool-cases (str_eq e.key key)) [
  | inl t ↦ (e.value, rw t refl)
  | inr f ↦ elim (Option-cases (chain_replace key v es)) [
    | inl n ↦ absurd (ground arith)
    | inr (c, p) ↦ let (x, q) = replaced_before key v es p in (x, rw f q)
  ]
]

added-Put :
    (entry key_bytes : Bool) (m : Map) (key : Key) (value : ℤ)
    → IsMap m
    → find key (get_or m.buckets (bucket m key) []) ≡ none
    → Put m key value (add_entry entry key_bytes m key value)
unfolding add_entry
added-Put true true m key value w n =
    let c = record { key = key; value = value } ∷ get_or m.buckets (bucket m key) [] in
    record {
      is_map = with_chain-IsMap w key c ((m.count + 1) % size_mod) (n, w.unique (bucket m key));
      finds = get-with_chain w key c ((m.count + 1) % size_mod) (some value) (λ j. refl);
      counts = rw (get-find m key ∙ n) refl;
      unchanged = inl refl;
    }
added-Put true false m key value w n = record {
  is_map = w;
  finds = λ j. refl;
  counts = refl;
  unchanged = inr refl;
}
added-Put false key_bytes m key value w n = record {
  is_map = w;
  finds = λ j. refl;
  counts = refl;
  unchanged = inr refl;
}

-- For every answer of the allocator, on a map whose buckets hold no key twice: if `map_put` reports
-- success, `map_get` finds the new value under the key and under every other key what it found before,
-- and the count has grown by one exactly if the key was not there; if it fails, the map is unchanged. No
-- bucket holds a key twice afterwards.
pub put-Put :
    (entry key_bytes : Bool) (m : Map) (key : Key) (value : ℤ)
    → IsMap m
    → Put m key value (put entry key_bytes m key value)
unfolding put
put-Put entry key_bytes m key value w =
    let old = get_or m.buckets (bucket m key) [] in
    elim (Option-cases (chain_replace key value old)) [
      | inl n ↦ rw (n, put) (added-Put entry key_bytes m key value w (replace-none key value old n))
      | inr (c, p) ↦
          let r = Replaced_lem key value old p in
          rw (p, put)
            (record {
              is_map = with_chain-IsMap w key c m.count (r.unique (w.unique (bucket m key)));
              finds = get-with_chain w key c m.count (some value) r.finds;
              counts = let (x, q) = replaced_before key value old p in rw (get-find m key ∙ q) refl;
              unchanged = inl refl;
            })
    ]

-- After `map_remove` the key is not found, and every other key as before.
pub record Gone (m : Map) (key : Key) (m' : Map) : Type 0 where
  pub is_map : IsMap m'
  pub finds : (j : Key) → get m' j ≡ (if str_eq key j then none else get m j)

kept-Gone :
    (m : Map) (key : Key)
    → IsMap m
    → find key (get_or m.buckets (bucket m key) []) ≡ none
    → Gone m key m
kept-Gone m key w n = record {
  is_map = w;
  finds = λ j. elim (Bool-cases (str_eq key j)) [
    | inl t ↦ rw t (ap (get m) (sym ((str_eq_iff key j).0 t)) ∙ get-find m key ∙ n)
    | inr f ↦ rw f refl
  ];
}

-- `map_remove` on a map without duplicates does what Gone says, whether or not the key is in the map.
pub remove-Gone : (m : Map) (key : Key) → IsMap m → Gone m key (remove m key).1
unfolding remove
remove-Gone m key w =
    let old = get_or m.buckets (bucket m key) [] in
    elim (Option-cases (chain_remove key old)) [
      | inl n ↦ rw (n, remove) (kept-Gone m key w (remove-none key old n))
      | inr (c, p) ↦
          let r = Removed_lem key old p in
          rw (p, remove)
            (record {
              is_map =
                  with_chain-IsMap w key c ((m.count + size_mod - 1) % size_mod)
                    (r.unique (w.unique (bucket m key)));
              finds =
                  get-with_chain w key c ((m.count + size_mod - 1) % size_mod) none
                    (r.finds (w.unique (bucket m key)));
            })
    ]
