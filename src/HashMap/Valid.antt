-- ===== src/HashMap/Valid.antt =====
-- The invariant of adt.c's hash map, and that every operation keeps it.
use programming_with_c.Base.{
  ℕ, ◌+◌, ◌-◌, ◌*◌, ◌%◌, ◌^◌, ◌≤◌, ◌<◌, Bool, true, false, [], ◌∷◌, ◌≡◌, ◌≢◌, refl, ◌∙◌, Option,
  none, some, arith, if◌then◌else◌, length, set, replicate, length-set, get_or-set_self,
  get_or-set_ne, inl, inr, Bool-cases, ◌==◌,
}
use mathlib.Core.Path.{subst, ap}
use programming_with_c.Base.Int.{ℤ}
use programming_with_c.HashMap.{
  Key, Chain, Map, bucket, size_mod, str_eq, hash_string, create, chain_replace, chain_remove,
}
use programming_with_c.HashMap.Chain.{str_eq_iff, find, Placed, IsUnique, Replaced_lem, Removed_lem}
use programming_with_c.HashMap.Table.{
  IsTable, total, total-set, IsTable-get_or, IsTable-set, IsTable-replicate,
}
use programming_with_c.HashMap.Grow.{find_in}

pub record IsValid (m : Map) : Type 0 where
  pub width : length m.buckets ≡ m.bucket_count
  pub room : 8 ≤ m.bucket_count
  pub small : m.bucket_count < 2 ^ 61
  pub load : m.count * 4 ≤ m.bucket_count * 3
  pub counted : m.count ≡ total m.buckets
  pub placed : IsTable m.bucket_count 0 m.buckets

-- `calloc` gives no table whose size in bytes does not fit a `size_t`.
abbrev pub Bounded : (ℕ → Bool) → Type 0
Bounded table = (n : ℕ) → table n ≡ true → n * 8 < 2 ^ 64

-- A new map is valid.
pub create-IsValid : (handle table : Bool) {m : Map} → create handle table ≡ some m → IsValid m
unfolding create
create-IsValid true true {m} h =
    let e : record { buckets = replicate 8 []; bucket_count = 8; count = 0 } ≡ m = ground arith in
    subst IsValid e (record {
      width = refl;
      room = omega arith;
      small = omega arith;
      load = omega arith;
      counted = refl;
      placed = IsTable-replicate 8 0 8;
    })
create-IsValid true false h = cc
create-IsValid false t h = cc

abbrev pub found : Map → Key → Option ℤ
found m j = find_in m.bucket_count m.buckets j

-- A chain put back into its bucket.
module _ {m : Map} (v : IsValid m) (k : Key) where
  open v use {width, room, small, load, counted, placed}

  abbrev home : ℕ
  home = hash_string k % m.bucket_count

  home-lt : home < length m.buckets
  home-lt = omega (arith, width, room)

  pub chain_at : Placed m.bucket_count home (bucket m home) × IsUnique (bucket m home)
  chain_at = IsTable-get_or m.bucket_count 0 home m.buckets home placed home-lt (omega arith)

  found-set :
      (c : Chain) (j : Key)
      → find_in m.bucket_count (set m.buckets home c) j
        ≡ (if home == hash_string j % m.bucket_count then find j c else found m j)
  found-set c j = elim (Bool-cases (home == hash_string j % m.bucket_count)) [
    | inl t ↦ rw t (same (ground arith))
    | inr f ↦ rw f (ap (find j) (get_or-set_ne m.buckets home _ c [] (ground arith)))
  ]
    where
      same :
          home ≡ hash_string j % m.bucket_count
          → find_in m.bucket_count (set m.buckets home c) j ≡ find j c
      same q = rw (← q) (ap (find j) (get_or-set_self m.buckets home c [] home-lt))

  total-home :
      (c : Chain)
      → total (set m.buckets home c) + length (bucket m home) ≡ total m.buckets + length c
  total-home c = total-set m.buckets home c home-lt

  IsTable-home :
      (c : Chain)
      → Placed m.bucket_count home c
      → IsUnique c
      → IsTable m.bucket_count 0 (set m.buckets home c)
  IsTable-home c p u = IsTable-set m.bucket_count 0 home m.buckets home c placed (omega arith) p u

  other_home : (j : Key) → (home == hash_string j % m.bucket_count) ≡ false → str_eq k j ≡ false
  other_home j h = elim (Bool-cases (str_eq k j)) [
    | inl t ↦
        let e : k ≡ j = (str_eq_iff k j).0 t in
        absurd (differ (ap (λ x. hash_string x % m.bucket_count) e))
    | inr f ↦ f
  ]
    where
      differ : hash_string k % m.bucket_count ≢ hash_string j % m.bucket_count
      differ = ground arith

  -- What a search finds after the chain of `k` is changed at `k` only.
  found_after :
      (c : Chain) (j : Key) (d : Option ℤ)
      → find j c ≡ (if str_eq k j then d else find j (bucket m home))
      → find_in m.bucket_count (set m.buckets home c) j ≡ (if str_eq k j then d else found m j)
  found_after c j d q = elim (Bool-cases (home == hash_string j % m.bucket_count)) [
    | inl t ↦ found-set c j ∙ rw t (q ∙ ap (λ x. if str_eq k j then d else x) (same (ground arith)))
    | inr f ↦ found-set c j ∙ rw (f, other_home j f)
  ]
    where
      same : home ≡ hash_string j % m.bucket_count → find j (bucket m home) ≡ found m j
      same e = rw e

  -- `map_put` on a key that is there.
  pub replaced-IsValid :
      (x : ℤ) {c : Chain}
      → chain_replace k x (bucket m home) ≡ some c
      → IsValid (record m { buckets = set m.buckets home c })
  replaced-IsValid x {c} h =
      let r = Replaced_lem k x (bucket m home) h in
      record {
        width = length-set m.buckets home c ∙ width;
        room = room;
        small = small;
        load = load;
        counted = omega (arith, counted, total-home c, r.size);
        placed = IsTable-home c (r.placed _ _ chain_at.0) (r.unique chain_at.1);
      }

  pub found-replaced :
      (x : ℤ) {c : Chain} (j : Key)
      → chain_replace k x (bucket m home) ≡ some c
      → find_in m.bucket_count (set m.buckets home c) j ≡ (if str_eq k j then some x else found m j)
  found-replaced x {c} j h = found_after c j (some x) ((Replaced_lem k x (bucket m home) h).finds j)

  -- `map_remove` on a key that is there. The count is positive, so it does not wrap.
  pub removed-IsValid :
      {c : Chain}
      → chain_remove k (bucket m home) ≡ some c
      → IsValid
          (record m { buckets = set m.buckets home c; count = (m.count + size_mod - 1) % size_mod })
  removed-IsValid {c} h =
      let r = Removed_lem k (bucket m home) h in
      let counted' : (m.count + size_mod - 1) % size_mod ≡ total (set m.buckets home c) =
        omega (arith, counted, total-home c, r.size, load, small) in
      record {
        width = length-set m.buckets home c ∙ width;
        room = room;
        small = small;
        load = omega (arith, counted', total-home c, r.size, counted, load);
        counted = counted';
        placed = IsTable-home c (r.placed _ _ chain_at.0) (r.unique chain_at.1);
      }

  pub count_pos : {c : Chain} → chain_remove k (bucket m home) ≡ some c → 0 < m.count
  count_pos {c} h = omega (arith, counted, total-home c, (Removed_lem k (bucket m home) h).size)

  pub found-removed :
      {c : Chain} (j : Key)
      → chain_remove k (bucket m home) ≡ some c
      → find_in m.bucket_count (set m.buckets home c) j ≡ (if str_eq k j then none else found m j)
  found-removed {c} j h =
      found_after c j none ((Removed_lem k (bucket m home) h).finds chain_at.1 j)

  -- The new entry at the front of its chain, for a key that is not there.
  pub added-IsValid :
      (x : ℤ)
      → found m k ≡ none
      → (m.count + 1) * 4 ≤ m.bucket_count * 3
      → IsValid (record m {
        buckets = set m.buckets home (record { key = k; value = x } ∷ bucket m home);
        count = (m.count + 1) % size_mod;
      })
  added-IsValid x absent fits =
      let c : Chain = record { key = k; value = x } ∷ bucket m home in
      record {
        width = length-set m.buckets home c ∙ width;
        room = room;
        small = small;
        load = omega (arith, fits, small);
        counted = omega (arith, counted, total-home c, fits, small);
        placed = IsTable-home c (refl, chain_at.0) (absent, chain_at.1);
      }

  pub found-added :
      (x : ℤ) (j : Key)
      → find_in m.bucket_count
          (set m.buckets home (record { key = k; value = x } ∷ bucket m home))
          j
        ≡ (if str_eq k j then some x else found m j)
  found-added x j = found_after (record { key = k; value = x } ∷ bucket m home) j (some x) refl
