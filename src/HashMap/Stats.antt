-- ===== src/HashMap/Stats.antt =====
-- `map_stats` and `map_destroy` of adt.c.
use programming_with_c.Base.{
  ℕ, ◌+◌, ◌*◌, ◌≤◌, List, [], ◌∷◌, ◌≡◌, some, arith, length, ltb, if◌then◌else◌, inl, inr,
  Bool-cases,
}
use programming_with_c.HashMap.{
  Chain, Map, Block, stats_from, stats, destroy_chain, destroy_buckets, destroy,
}
use programming_with_c.HashMap.Table.{total}
use programming_with_c.HashMap.Valid.{IsValid}

-- The two running results bound what is left: `u` buckets used, the longest of length `l`.
record Counts (cs : List Chain) (used longest : ℕ) (r : ℕ × ℕ) : Type 0 where
  grows : used ≤ r.0
  width : r.0 ≤ used + length cs
  longer : longest ≤ r.1
  covers : used * r.1 + total cs ≤ r.0 * r.1

abbrev chain_used : Chain → ℕ → ℕ
chain_used c used = if ltb 0 (length c) then used + 1 else used

abbrev chain_longest : Chain → ℕ → ℕ
chain_longest c longest = if ltb longest (length c) then length c else longest

le_longest : (l n b : ℕ) → (if ltb l n then n else l) ≤ b → n ≤ b
le_longest l n b p = elim (Bool-cases (ltb l n)) [
  | inl t ↦ rw t at p
  | inr f ↦ let p' : l ≤ b = (rw f at p) in ground arith
]

covers_cons :
    (u l n t a b : ℕ)
    → n ≤ b
    → (if ltb 0 n then u + 1 else u) * b + t ≤ a * b
    → u * b + (n + t) ≤ a * b
covers_cons u l n t a b p q = elim (Bool-cases (ltb 0 n)) [
  | inl h ↦ let q' : (u + 1) * b + t ≤ a * b = (rw h at q) in omega arith
  | inr f ↦ let q' : u * b + t ≤ a * b = (rw f at q) in ground arith
]

stats_from-Counts :
    (cs : List Chain) (used longest : ℕ) → Counts cs used longest (stats_from cs used longest)
unfolding stats_from
stats_from-Counts [] used longest = omega arith
stats_from-Counts (c ∷ cs) used longest =
    let ih = stats_from-Counts cs (chain_used c used) (chain_longest c longest) in
    let r = stats_from cs (chain_used c used) (chain_longest c longest) in
    record {
      grows = ground (arith, ih.grows);
      width = ground (arith, ih.width);
      longer = ground (arith, ih.longer);
      covers =
          covers_cons used longest (length c) (total cs) r.0 r.1
            (le_longest longest (length c) r.1 ih.longer) ih.covers;
    }

-- `map_stats` counts at most one used bucket for each bucket, and the buckets that it counts as
-- used, at the longest length that it reports, can hold every entry.
pub stats_cover :
    {m : Map} → IsValid m → ((stats m).0 ≤ m.bucket_count) × (m.count ≤ (stats m).0 * (stats m).1)
unfolding stats
stats_cover {m} v =
    let c = stats_from-Counts m.buckets 0 0 in
    (omega (arith, c.width, v.width), omega (arith, c.covers, v.counted))

length-destroy_chain :
    (c : Chain) (rest : List Block) → length (destroy_chain c rest) ≡ 2 * length c + length rest
unfolding destroy_chain
length-destroy_chain [] rest = omega arith
length-destroy_chain (e ∷ es) rest = omega (arith, length-destroy_chain es rest)

length-destroy_buckets :
    (cs : List Chain) (rest : List Block)
    → length (destroy_buckets cs rest) ≡ 2 * total cs + length rest
unfolding destroy_buckets
length-destroy_buckets [] rest = omega arith
length-destroy_buckets (c ∷ cs) rest =
    omega (arith, length-destroy_chain c (destroy_buckets cs rest), length-destroy_buckets cs rest)

-- `map_destroy` makes two calls of `free` for each entry that the map counts, and two more.
pub length-destroy : {m : Map} → IsValid m → length (destroy (some m)) ≡ 2 * m.count + 2
unfolding destroy
length-destroy {m} v =
    omega (arith, length-destroy_buckets m.buckets (Block.table ∷ (Block.handle ∷ [])), v.counted)
