-- ===== src/HashMap/Chain.antt =====
-- Chains of adt.c's hash map: what the searches of `map_get`, `map_put` and `map_remove` find.
use programming_with_c.Base.{
  ℕ, suc, ◌+◌, ◌%◌, true, false, [], ◌∷◌, ◌≡◌, refl, ◌↔◌, Option, none, some, arith, if◌then◌else◌,
  length, inl, inr, Bool-cases, Option-cases,
}
use mathlib.Core.Path.{subst}
use programming_with_c.Base.Int.{ℤ}
use programming_with_c.HashMap.{
  Key, Entry, Chain, str_eq, hash_string, chain_get, chain_replace, chain_remove,
}

pub str_eq_iff : (a b : Key) → (str_eq a b ≡ true) ↔ (a ≡ b)
unfolding str_eq
str_eq_iff [] [] = ground arith
str_eq_iff [] (b ∷ t) = ground arith
str_eq_iff (a ∷ s) [] = ground arith
str_eq_iff (a ∷ s) (b ∷ t) = ground (arith, str_eq_iff s t)

-- What a search of a chain finds.
abbrev pub find : Key → Chain → Option ℤ
find key [] = none
find key (e ∷ es) = if str_eq e.key key then some e.value else find key es

pub chain_get-find : (key : Key) (c : Chain) (steps : ℕ) → (chain_get key c steps).0 ≡ find key c
unfolding chain_get
chain_get-find key [] steps = refl
chain_get-find key (e ∷ es) steps = ground (arith, chain_get-find key es (steps + 1))

-- Every key of the chain hashes to its bucket.
abbrev pub Placed : ℕ → ℕ → Chain → Type 0
Placed n i [] = Unit
Placed n i (e ∷ es) = (hash_string e.key % n ≡ i) × Placed n i es

-- No key occurs twice.
abbrev pub IsUnique : Chain → Type 0
IsUnique [] = Unit
IsUnique (e ∷ es) = (find e.key es ≡ none) × IsUnique es

pub replace-none : (k : Key) (v : ℤ) (c : Chain) → chain_replace k v c ≡ none → find k c ≡ none
unfolding chain_replace
replace-none k v [] h = refl
replace-none k v (e ∷ es) h = ground (arith, replace-none k v es)

-- What is known of the chain after an entry of it is overwritten.
pub record Replaced (k : Key) (v : ℤ) (c c' : Chain) : Type 0 where
  pub finds : (j : Key) → find j c' ≡ (if str_eq k j then some v else find j c)
  pub placed : (n i : ℕ) → Placed n i c → Placed n i c'
  pub unique : IsUnique c → IsUnique c'
  pub size : length c' ≡ length c

pub record Removed (k : Key) (c c' : Chain) : Type 0 where
  pub finds : IsUnique c → (j : Key) → find j c' ≡ (if str_eq k j then none else find j c)
  pub placed : (n i : ℕ) → Placed n i c → Placed n i c'
  pub unique : IsUnique c → IsUnique c'
  pub size : length c ≡ suc (length c')

module _ (k : Key) (v : ℤ) (e : Entry) (es : Chain) where
  Replaced-here : str_eq e.key k ≡ true → Replaced k v (e ∷ es) (record e { value = v } ∷ es)
  Replaced-here h = record {
    finds = λ j. ground (arith, str_eq_iff e.key k);
    placed = λ n i p. p;
    unique = λ u. u;
    size = refl;
  }

  Replaced-below :
      {c : Chain} → str_eq e.key k ≡ false → Replaced k v es c → Replaced k v (e ∷ es) (e ∷ c)
  Replaced-below h r = record {
    finds = λ j. ground (arith, str_eq_iff k j, str_eq_iff e.key k, str_eq_iff e.key j, r.finds j);
    placed = λ n i p. (p.0, r.placed n i p.1);
    unique =
        λ u. (ground (arith, r.finds e.key, str_eq_iff k e.key, str_eq_iff e.key k), r.unique u.1);
    size = omega (arith, r.size);
  }

module _ (k : Key) (e : Entry) (es : Chain) where
  Removed-here : str_eq e.key k ≡ true → Removed k (e ∷ es) es
  Removed-here h = record {
    finds = λ u j. ground (arith, str_eq_iff e.key k, str_eq_iff k j, str_eq_iff e.key j);
    placed = λ n i p. p.1;
    unique = λ u. u.1;
    size = refl;
  }

  Removed-below : {c : Chain} → str_eq e.key k ≡ false → Removed k es c → Removed k (e ∷ es) (e ∷ c)
  Removed-below h r = record {
    finds = λ u j.
        ground (arith, str_eq_iff k j, str_eq_iff e.key k, str_eq_iff e.key j, r.finds u.1 j);
    placed = λ n i p. (p.0, r.placed n i p.1);
    unique = λ u.
        (ground (arith, r.finds u.1 e.key, str_eq_iff k e.key, str_eq_iff e.key k), r.unique u.1);
    size = omega (arith, r.size);
  }

pub Replaced_lem :
    (k : Key) (v : ℤ) (c : Chain) {c' : Chain} → chain_replace k v c ≡ some c' → Replaced k v c c'
unfolding chain_replace
Replaced_lem k v [] h = cc
Replaced_lem k v (e ∷ es) h = elim (Bool-cases (str_eq e.key k)) [
  | inl t ↦ subst (Replaced k v (e ∷ es)) (ground arith) (Replaced-here k v e es t)
  | inr f ↦ elim (Option-cases (chain_replace k v es)) [
    | inl n ↦ absurd (ground arith)
    | inr (c, p) ↦
        subst (Replaced k v (e ∷ es)) (ground arith)
          (Replaced-below k v e es f (Replaced_lem k v es p))
  ]
]

pub Removed_lem : (k : Key) (c : Chain) {c' : Chain} → chain_remove k c ≡ some c' → Removed k c c'
unfolding chain_remove
Removed_lem k [] h = cc
Removed_lem k (e ∷ es) h = elim (Bool-cases (str_eq e.key k)) [
  | inl t ↦ subst (Removed k (e ∷ es)) (ground arith) (Removed-here k e es t)
  | inr f ↦ elim (Option-cases (chain_remove k es)) [
    | inl n ↦ absurd (ground arith)
    | inr (c, p) ↦
        subst (Removed k (e ∷ es)) (ground arith) (Removed-below k e es f (Removed_lem k es p))
  ]
]

pub remove-none : (k : Key) (c : Chain) → chain_remove k c ≡ none → find k c ≡ none
unfolding chain_remove
remove-none k [] h = refl
remove-none k (e ∷ es) h = ground (arith, remove-none k es)

-- Both searches end in an entry exactly when the key is there.
pub remove-some :
    (k : Key) (c : Chain) {c' : Chain} → chain_remove k c ≡ some c' → (v : ℤ) × (find k c ≡ some v)
unfolding chain_remove
remove-some k [] h = cc
remove-some k (e ∷ es) h = elim (Bool-cases (str_eq e.key k)) [
  | inl t ↦ (e.value, rw t)
  | inr f ↦ elim (Option-cases (chain_remove k es)) [
    | inl n ↦ absurd (ground arith)
    | inr (c, p) ↦ let (v, q) = remove-some k es p in (v, rw f q)
  ]
]
