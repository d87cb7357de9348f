-- ===== src/Sieve/Invariant.antt =====
-- The sieve tells primes from composites.
use programming_with_c.Base.{
  ℕ, zero, suc, ◌+◌, ◌-◌, ◌*◌, ◌≤◌, ◌<◌, ◌≡◌, ◌⊎◌, refl, sym, ap, ◌∙◌, Bool, true, false, List, leb,
  ltb, arith, if◌then◌else◌, set, replicate, length, length-set, length-replicate, get_or-set_ne,
  Bool-cases, inl, inr,
}
use mathlib.Core.Path.{subst}
use native.Mathlib.Nat.{mul_comm, mul_assoc, mul-le-mul_left, mul-le-mul_right, le-mul_of_pos_right}
use programming_with_c.Sieve.{cell, cross_out, pass, sieve_loop, sieve}
use programming_with_c.Sieve.Marks.{Hit, length-cross_out, cross_out-Hit}

-- `i` is a product with a factor that is below `p`, and not above the other one.
abbrev pub Crossed : ℕ → ℕ → Type 0
Crossed p i = (d : ℕ) × (e : ℕ) × (2 ≤ d) × (d < p) × (d ≤ e) × (d * e ≡ i)

abbrev pub IsComposite : ℕ → Type 0
IsComposite i = (d : ℕ) × (e : ℕ) × (2 ≤ d) × (2 ≤ e) × (d * e ≡ i)

-- What one cell says before the pass of `p`.
abbrev pub Says : ℕ → List Bool → ℕ → Type 0
Says p t i =
    ((cell t i ≡ true) × (2 ≤ i) × (¬ (Crossed p i)))
    ⊎ ((cell t i ≡ false) × ((i < 2) ⊎ Crossed p i))

-- The invariant of the outer loop.
pub record IsSieved (limit p : ℕ) (t : List Bool) : Type 0 where
  pub size : length t ≡ suc limit
  pub says : (i : ℕ) → i ≤ limit → Says p t i

wider : (p i : ℕ) → Crossed p i → Crossed (p + 1) i
wider p i (d, e, a, b, c, h) = (d, e, a, omega (arith, b), c, h)

wider_or : (p i : ℕ) → (i < 2) ⊎ Crossed p i → (i < 2) ⊎ Crossed (p + 1) i
wider_or p i (inl h) = inl h
wider_or p i (inr h) = inr (wider p i h)

-- A product with the factor `p` in front is one of the cells from `p * p` on.
multiple : (p i e : ℕ) → p ≤ e → p * e ≡ i → Hit p (p * p) i
multiple p i e h q = (e - p, split (e - p) (omega (arith, h)) ∙ q)
  where
    split : (k : ℕ) → e ≡ p + k → p * p + k * p ≡ p * e
    split k s = sym (ap (λ x. p * x) s ∙ omega (arith, mul_comm p k))

product_of : (p i : ℕ) → 2 ≤ p → Hit p (p * p) i → Crossed (p + 1) i
product_of p i h (k, e) = (p, p + k, h, omega arith, omega arith, omega (arith, e, mul_comm p k))

-- The pass of a number that was not crossed out.
crossing :
    (limit p : ℕ) (t : List Bool)
    → 2 ≤ p
    → IsSieved limit p t
    → IsSieved limit (p + 1) (cross_out (suc limit) limit p (p * p) t)
crossing limit p t h v = record {
  size = length-cross_out (suc limit) limit p (p * p) t ∙ v.size;
  says = λ i le.
      told i
        (cross_out-Hit (suc limit) limit p (p * p) t i (omega (arith, h)) (omega arith) v.size le)
        (v.says i le);
}
  where
    after : List Bool
    after = cross_out (suc limit) limit p (p * p) t

    told :
        (i : ℕ)
        → ((cell after i ≡ false) × Hit p (p * p) i)
          ⊎ ((cell after i ≡ cell t i) × (¬ (Hit p (p * p) i)))
        → Says p t i
        → Says (p + 1) after i
    told i (inl (f, hit)) _ = inr (f, inr (product_of p i h hit))
    told i (inr (same, free)) (inr (f, why)) = inr (same ∙ f, wider_or p i why)
    told i (inr (same, free)) (inl (f, two, not_crossed)) = inl (same ∙ f, two, missed)
      where
        missed : ¬ (Crossed (p + 1) i)
        missed (d, e, a, b, c, q) = elim (Bool-cases (ltb d p)) [
          | inl l ↦ not_crossed (d, e, a, ground (arith, l), c, q)
          | inr g ↦
              let same_d : d ≡ p = ground (arith, g, b) in
              free (multiple p i e (omega (arith, same_d, c)) (ap (λ x. x * e) (sym same_d) ∙ q))
        ]

-- The pass of a number that was: its multiples were crossed out with those of its factor.
skipping :
    (limit p : ℕ) (t : List Bool)
    → 2 ≤ p
    → Crossed p p
    → IsSieved limit p t
    → IsSieved limit (p + 1) t
skipping limit p t h (d, e, a, b, c, q) v = record {
  size = v.size;
  says = λ i le. told i (v.says i le);
}
  where
    factored : (i e' : ℕ) → p ≤ e' → p * e' ≡ i → Crossed p i
    factored i e' l r = (
      d,
      e * e',
      a,
      b,
      omega (arith, c, le-mul_of_pos_right {m = e'} e (omega (arith, l, h))),
      (sym (mul_assoc d e e') ∙ ap (λ x. x * e') q) ∙ r,
    )

    told : (i : ℕ) → Says p t i → Says (p + 1) t i
    told i (inr (f, why)) = inr (f, wider_or p i why)
    told i (inl (f, two, not_crossed)) = inl (f, two, missed)
      where
        missed : ¬ (Crossed (p + 1) i)
        missed (d', e', a', b', c', q') = elim (Bool-cases (ltb d' p)) [
          | inl l ↦ not_crossed (d', e', a', ground (arith, l), c', q')
          | inr g ↦
              let same_d : d' ≡ p = ground (arith, g, b') in
              not_crossed
                (factored i e' (omega (arith, same_d, c')) (ap (λ x. x * e') (sym same_d) ∙ q'))
        ]

pub pass-IsSieved :
    (limit p : ℕ) (t : List Bool)
    → 2 ≤ p
    → p ≤ limit
    → IsSieved limit p t
    → IsSieved limit (p + 1) (pass limit p t)
unfolding pass
pass-IsSieved limit p t h le v = go (v.says p le)
  where
    go : Says p t p → IsSieved limit (p + 1) (pass limit p t)
    go (inl (f, _, _)) = rw f (crossing limit p t h v)
    go (inr (f, inl small)) = absurd (omega (arith, small, h))
    go (inr (f, inr c)) = rw f (skipping limit p t h c v)

-- Enough fuel: the loop ends at a number whose square is beyond the limit.
pub sieve_loop-IsSieved :
    (fuel limit p : ℕ) (t : List Bool)
    → 2 ≤ p
    → limit < p + fuel
    → IsSieved limit p t
    → (q : ℕ) × (limit < q * q) × IsSieved limit q (sieve_loop fuel limit p t)
unfolding sieve_loop
sieve_loop-IsSieved zero limit p t h f v =
    (p, omega (arith, f, le-mul_of_pos_right {m = p} p (omega (arith, h))), v)
sieve_loop-IsSieved (suc fuel) limit p t h f v = elim (Bool-cases (leb (p * p) limit)) [
  | inr g ↦ rw g (p, ground (arith, g), v)
  | inl l ↦
      subst (λ b. Ended (if b then sieve_loop fuel limit (p + 1) (pass limit p t) else t)) (sym l)
        (sieve_loop-IsSieved fuel limit (p + 1) (pass limit p t) (omega (arith, h))
          (omega (arith, f))
          (pass-IsSieved limit p t h
            (ground (arith, l, le-mul_of_pos_right {m = p} p (omega (arith, h)))) v))
]
  where
    Ended : List Bool → Type 0
    Ended t' = (q : ℕ) × (limit < q * q) × IsSieved limit q t'

-- The table before the first pass.
begin : ℕ → List Bool
begin limit = set (set (replicate (suc limit) true) 0 false) 1 false

cell-replicate : (n i : ℕ) → i < n → cell (replicate n true) i ≡ true
cell-replicate zero i h = absurd (omega (arith, h))
cell-replicate (suc n) zero h = refl
cell-replicate (suc n) (suc i) h = cell-replicate n i (omega (arith, h))

begin-Says : (limit i : ℕ) → i ≤ limit → Says 2 (begin limit) i
unfolding begin
begin-Says limit zero h = inr (
  get_or-set_ne (set (replicate (suc limit) true) 0 false) 1 0 false false
      (λ e. absurd (omega (arith, e))),
  inl (omega arith),
)
begin-Says zero (suc zero) h = absurd (omega (arith, h))
begin-Says (suc limit) (suc zero) h = inr (refl, inl (omega arith))
begin-Says zero (suc (suc i)) h = absurd (omega (arith, h))
begin-Says (suc limit) (suc (suc i)) h = inl (
  cell-replicate limit i (omega (arith, h)),
  omega arith,
  λ (d, e, a, b, _, _). omega (arith, a, b),
)

begin-IsSieved : (limit : ℕ) → IsSieved limit 2 (begin limit)
unfolding begin
begin-IsSieved limit = record {
  size =
      length-set (set (replicate (suc limit) true) 0 false) 1 false
      ∙ (length-set (replicate (suc limit) true) 0 false ∙ length-replicate (suc limit) true);
  says = begin-Says limit;
}

-- A product up to the limit has a factor whose square is not beyond it.
small_factor : (limit q i : ℕ) → limit < q * q → i ≤ limit → IsComposite i → Crossed q i
small_factor limit q i l h (d, e, a, b, c) = elim (Bool-cases (leb d e)) [
  | inl t ↦ ordered d e a (ground (arith, t)) c
  | inr f ↦ ordered e d b (ground (arith, f)) (mul_comm e d ∙ c)
]
  where
    ordered : (d e : ℕ) → 2 ≤ d → d ≤ e → d * e ≡ i → Crossed q i
    ordered d e a le c = elim (Bool-cases (ltb d q)) [
      | inl t ↦ (d, e, a, ground (arith, t), le, c)
      | inr f ↦
          let big : q ≤ d = ground (arith, f) in
          absurd (
            omega (
              arith,
              l,
              h,
              c,
              mul-le-mul_left {m = q} {n = e} q (omega (arith, big, le)),
              mul-le-mul_right {m = q} {n = d} e big,
            ))
    ]

-- For every limit and every number from 2 up to it, the sieve leaves the cell set if the number is no
-- product of two numbers from 2 on, and clears it if it is one.
pub sieve-IsComposite :
    (limit i : ℕ)
    → 2 ≤ i
    → i ≤ limit
    → ((cell (sieve limit) i ≡ true) × (¬ (IsComposite i)))
      ⊎ ((cell (sieve limit) i ≡ false) × IsComposite i)
unfolding sieve begin
sieve-IsComposite limit i two h =
    let (q, beyond, v) =
      sieve_loop-IsSieved (suc limit) limit 2 (begin limit) (omega arith) (omega arith)
        (begin-IsSieved limit) in
    told q beyond (v.says i h)
  where
    after : List Bool
    after = sieve_loop (suc limit) limit 2 (begin limit)

    told :
        (q : ℕ)
        → limit < q * q
        → Says q after i
        → ((cell after i ≡ true) × (¬ (IsComposite i))) ⊎ ((cell after i ≡ false) × IsComposite i)
    told q beyond (inl (t, _, not_crossed)) =
        inl (t, λ c. not_crossed (small_factor limit q i beyond h c))
    told q beyond (inr (f, inl small)) = absurd (omega (arith, two, small))
    told q beyond (inr (f, inr (d, e, a, _, le, c))) = inr (f, (d, e, a, omega (arith, a, le), c))
