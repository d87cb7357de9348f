-- ===== src/Sieve/Marks.antt =====
-- What the inner loop of the sieve changes.
use programming_with_c.Base.{
  ℕ, zero, suc, ◌+◌, ◌*◌, ◌≤◌, ◌<◌, ◌≡◌, ◌≢◌, ◌⊎◌, refl, sym, ap, ◌∙◌, Bool, false, List, leb, ◌==◌,
  arith, set, length, length-set, get_or-set_self, get_or-set_ne, Bool-cases, inl, inr,
}
use programming_with_c.Sieve.{cell, cross_out}

-- `i` is one of the cells `m`, `m + p`, `m + 2 * p` and so on.
abbrev pub Hit : ℕ → ℕ → ℕ → Type 0
Hit p m i = (k : ℕ) × (m + k * p ≡ i)

pub length-cross_out :
    (fuel limit p m : ℕ) (t : List Bool) → length (cross_out fuel limit p m t) ≡ length t
unfolding cross_out
length-cross_out zero limit p m t = refl
length-cross_out (suc fuel) limit p m t = elim (Bool-cases (leb m limit)) [
  | inl l ↦ rw l (length-cross_out fuel limit p (m + p) (set t m false) ∙ length-set t m false)
  | inr g ↦ rw g refl
]

-- No cell up to the limit is hit from behind it.
beyond : (limit p m i : ℕ) → limit < m → i ≤ limit → ¬ (Hit p m i)
beyond limit p m i l h (k, e) = omega (arith, l, h, e)

-- What a loop from `m` on has done to a cell, with `t` before and `after` behind it.
abbrev Result : ℕ → ℕ → List Bool → List Bool → ℕ → Type 0
Result p m t after i =
    ((cell after i ≡ false) × Hit p m i) ⊎ ((cell after i ≡ cell t i) × (¬ (Hit p m i)))

-- One round, and then the loop from `m + p` on.
one_round :
    (p m : ℕ) (t after : List Bool) (i : ℕ)
    → i < length t
    → Result p (m + p) (set t m false) after i
    → Result p m t after i
one_round p m t after i h r = elim (Bool-cases (m == i)) [
  | inl e ↦ inl (here (ground (arith, e)) r, (0, ground (arith, e)))
  | inr e ↦ elsewhere (ground (arith, e)) r
]
  where
    here : m ≡ i → Result p (m + p) (set t m false) after i → cell after i ≡ false
    here e (inl (a, _)) = a
    here e (inr (a, _)) =
        a
        ∙ (ap (λ j. cell (set t m false) j) (sym e)
            ∙ get_or-set_self t m false false (omega (arith, e, h)))

    elsewhere : m ≢ i → Result p (m + p) (set t m false) after i → Result p m t after i
    elsewhere d (inl (a, (k, e))) = inl (a, (suc k, omega (arith, e)))
    elsewhere d (inr (a, free)) = inr (a ∙ get_or-set_ne t m i false false d, missed)
      where
        missed : ¬ (Hit p m i)
        missed (zero, e) = d (omega (arith, e))
        missed (suc k, e) = free (k, omega (arith, e))

pub cross_out-Hit :
    (fuel limit p m : ℕ) (t : List Bool) (i : ℕ)
    → 0 < p
    → limit < m + fuel
    → length t ≡ suc limit
    → i ≤ limit
    → Result p m t (cross_out fuel limit p m t) i
unfolding cross_out
cross_out-Hit zero limit p m t i pos_p f n h = inr (refl, beyond limit p m i (omega (arith, f)) h)
cross_out-Hit (suc fuel) limit p m t i pos_p f n h = elim (Bool-cases (leb m limit)) [
  | inr g ↦ rw g (inr (refl, beyond limit p m i (ground (arith, g)) h))
  | inl l ↦ rw l (
      one_round p m t (cross_out fuel limit p (m + p) (set t m false)) i (omega (arith, n, h)) (
        cross_out-Hit fuel limit p (m + p) (set t m false) i pos_p (omega (arith, f, pos_p))
          (length-set t m false ∙ n) h))
]
