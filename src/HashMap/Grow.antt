-- ===== src/HashMap/Grow.antt =====
-- `map_grow` of adt.c: moving every entry to a table of another size keeps what a search finds.
use programming_with_c.Base.{
  ℕ, zero, suc, ◌+◌, ◌-◌, ◌%◌, ◌≤◌, ◌<◌, List, [], ◌∷◌, ◌≡◌, ◌≢◌, refl, ◌∙◌, Option, none, some,
  arith, leb, if◌then◌else◌, length, get_or, set, length-set, get_or-set_self, get_or-set_ne, inl,
  inr, Bool-cases, ◌==◌,
}
use programming_with_c.Base.Int.{ℤ}
use programming_with_c.HashMap.{Key, Entry, Chain, str_eq, hash_string, rehash_chain, rehash_all}
use programming_with_c.HashMap.Chain.{str_eq_iff, find, Placed, IsUnique}
use programming_with_c.HashMap.Table.{IsTable, total, total-set, IsTable-get_or, IsTable-set}

abbrev or_else : Option ℤ → Option ℤ → Option ℤ
or_else none d = d
or_else (some v) d = some v

-- What a search for `j` finds in a table of `n` chains.
abbrev pub find_in : ℕ → List Chain → Key → Option ℤ
find_in n cs j = find j (get_or cs (hash_string j % n) [])

pub find-Placed :
    (n b : ℕ) (j : Key) (c : Chain) → Placed n b c → hash_string j % n ≢ b → find j c ≡ none
find-Placed n b j [] p ne = refl
find-Placed n b j (e ∷ es) p ne = elim (Bool-cases (str_eq e.key j)) [
  | inl t ↦ absurd (ne (rw (← (str_eq_iff e.key j).0 t) p.0))
  | inr f ↦ rw f (find-Placed n b j es p.1 ne)
]

get_or-cons :
    (c : Chain) (cs : List Chain) (i : ℕ)
    → get_or (c ∷ cs) i [] ≡ (if i == 0 then c else get_or cs (i - 1) [])
get_or-cons c cs zero = refl
get_or-cons c cs (suc i) = ground arith

-- The keys of a chain are not in the table yet.
abbrev IsNew : ℕ → List Chain → Chain → Type 0
IsNew n fresh [] = Unit
IsNew n fresh (e ∷ es) = (find_in n fresh e.key ≡ none) × IsNew n fresh es

module _ (n : ℕ) where
  -- The table after one entry is moved.
  abbrev moved : List Chain → Entry → List Chain
  moved fresh e = let i = hash_string e.key % n in set fresh i (e ∷ get_or fresh i [])

  -- What one chain's move keeps.
  record Moved (fresh : List Chain) (c : Chain) (g : List Chain) : Type 0 where
    width : length g ≡ n
    finds : (j : Key) → find_in n g j ≡ or_else (find j c) (find_in n fresh j)
    holds : total g ≡ total fresh + length c
    table : IsTable n 0 g

  -- No key of the buckets from `b` on of a table of `m` buckets is in the new table.
  abbrev pub IsFree : ℕ → ℕ → List Chain → Type 0
  IsFree m b fresh = (j : Key) → b ≤ hash_string j % m → find_in n fresh j ≡ none

  -- What moving the buckets from `b` on of a table of `m` buckets gives.
  pub record AllMoved (m b : ℕ) (fresh cs g : List Chain) : Type 0 where
    pub width : length g ≡ n
    pub finds :
        (j : Key)
        → find_in n g j ≡ (
            if leb b (hash_string j % m)
            then find j (get_or cs (hash_string j % m - b) [])
            else find_in n fresh j)
    pub holds : total g ≡ total fresh + total cs
    pub table : IsTable n 0 g

module _ (n : ℕ) (pos : 0 < n) where
  find-moved :
      (fresh : List Chain) (e : Entry) (j : Key)
      → length fresh ≡ n
      → find_in n (moved n fresh e) j ≡ (if str_eq e.key j then some e.value else find_in n fresh j)
  find-moved fresh e j l = elim (Bool-cases (hash_string e.key % n == hash_string j % n)) [
    | inl t ↦ same (ground arith)
    | inr f ↦
        let i = hash_string e.key % n in
        let k = hash_string j % n in
        rw (get_or-set_ne fresh i k (e ∷ get_or fresh i []) [] (ground arith))
          (other (ground arith))
  ]
    where
      same :
          hash_string e.key % n ≡ hash_string j % n
          → find_in n (moved n fresh e) j
            ≡ (if str_eq e.key j then some e.value else find_in n fresh j)
      same q = rw (
        q,
        get_or-set_self fresh (hash_string j % n) (e ∷ get_or fresh (hash_string j % n) []) []
            (omega arith),
      )

      other :
          hash_string e.key % n ≢ hash_string j % n
          → find_in n fresh j ≡ (if str_eq e.key j then some e.value else find_in n fresh j)
      other ne = elim (Bool-cases (str_eq e.key j)) [
        | inl t ↦ absurd (ne (rw ((str_eq_iff e.key j).0 t)))
        | inr f ↦ rw f
      ]

  IsNew-moved :
      (fresh : List Chain) (e : Entry) (es : Chain)
      → length fresh ≡ n
      → find e.key es ≡ none
      → IsNew n fresh es
      → IsNew n (moved n fresh e) es
  IsNew-moved fresh e [] l u w = tt
  IsNew-moved fresh e (d ∷ es) l u w = elim (Bool-cases (str_eq d.key e.key)) [
    | inl t ↦ absurd (ground arith)
    | inr f ↦ (
      rw (find-moved fresh e d.key l)
          (ground (arith, str_eq_iff d.key e.key, str_eq_iff e.key d.key)),
      IsNew-moved fresh e es l (ground arith) w.1,
    )
  ]

  IsTable-moved :
      (fresh : List Chain) (e : Entry)
      → length fresh ≡ n
      → IsTable n 0 fresh
      → find_in n fresh e.key ≡ none
      → IsTable n 0 (moved n fresh e)
  IsTable-moved fresh e l t w =
      let i = hash_string e.key % n in
      let at = IsTable-get_or n 0 i fresh i t (omega arith) (omega arith) in
      IsTable-set n 0 i fresh i (e ∷ get_or fresh i []) t (omega arith) (refl, at.0) (w, at.1)

  Moved_lem :
      (c fresh : _)
      → length fresh ≡ n
      → IsTable n 0 fresh
      → IsUnique c
      → IsNew n fresh c
      → Moved n fresh c (rehash_chain n fresh c)
  unfolding rehash_chain
  Moved_lem [] fresh l t u w = record {
    width = l;
    finds = λ j. refl;
    holds = omega arith;
    table = t;
  }
  Moved_lem (e ∷ es) fresh l t u w =
      let i = hash_string e.key % n in
      let l' : length (moved n fresh e) ≡ n = length-set fresh i (e ∷ get_or fresh i []) ∙ l in
      let ih =
        Moved_lem es (moved n fresh e) l' (IsTable-moved fresh e l t w.0) u.1
          (IsNew-moved fresh e es l u.0 w.1) in
      record {
        width = ih.width;
        finds = λ j. ih.finds j ∙ step j;
        holds = omega (arith, ih.holds, total-set fresh i (e ∷ get_or fresh i []) (omega arith));
        table = ih.table;
      }
    where
      step :
          (j : Key)
          → or_else (find j es) (find_in n (moved n fresh e) j)
            ≡ or_else (find j (e ∷ es)) (find_in n fresh j)
      step j = rw (find-moved fresh e j l) (elim (Bool-cases (str_eq e.key j)) [
        | inl t' ↦
            let absent : find j es ≡ none = rw (← (str_eq_iff e.key j).0 t') u.0 in rw (t', absent)
        | inr f ↦ rw f
      ])

  IsFree-IsNew :
      (m b : ℕ) (fresh : List Chain) (c : Chain)
      → IsFree n m b fresh
      → Placed m b c
      → IsNew n fresh c
  IsFree-IsNew m b fresh [] f p = tt
  IsFree-IsNew m b fresh (e ∷ es) f p =
      (f e.key (omega (arith, p.0)), IsFree-IsNew m b fresh es f p.1)

  pub AllMoved_lem :
      (m b : ℕ) (fresh cs : List Chain)
      → length fresh ≡ n
      → IsTable n 0 fresh
      → IsFree n m b fresh
      → IsTable m b cs
      → AllMoved n m b fresh cs (rehash_all n fresh cs)
  unfolding rehash_all
  AllMoved_lem m b fresh [] l t f o = record {
    width = l;
    finds = λ j. ground (arith, f j);
    holds = omega arith;
    table = t;
  }
  AllMoved_lem m b fresh (c ∷ cs) l t f o =
      let one = Moved_lem c fresh l t o.1 (IsFree-IsNew m b fresh c f o.0) in
      let ih =
        AllMoved_lem m (b + 1) (rehash_chain n fresh c) cs one.width one.table
          (λ j h. one.finds j ∙ ground (arith, find-Placed m b j c o.0, f j)) o.2 in
      record {
        width = ih.width;
        finds = λ j. ih.finds j ∙ step j (one.finds j);
        holds = omega (arith, ih.holds, one.holds);
        table = ih.table;
      }
    where
      step :
          (j : Key)
          → find_in n (rehash_chain n fresh c) j ≡ or_else (find j c) (find_in n fresh j)
          → (if leb (b + 1) (hash_string j % m)
              then find j (get_or cs (hash_string j % m - (b + 1)) [])
              else find_in n (rehash_chain n fresh c) j)
            ≡ (if leb b (hash_string j % m)
                then find j (get_or (c ∷ cs) (hash_string j % m - b) [])
                else find_in n fresh j)
      step j q =
          ground (arith, q, find-Placed m b j c o.0, f j, get_or-cons c cs (hash_string j % m - b))
