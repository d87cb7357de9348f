-- ===== src/Uniform/Unbiased.antt =====
-- `uniform` is unbiased: of all sequences that `rand` can return, as many give one result as another.
use native.Mathlib.Nat.{mul_comm, div-add-mod, mod-le, mod-eq_of_lt, mul-add-mod_self_right}
use programming_with_c.Base.{
  ℕ, zero, suc, ◌+◌, ◌*◌, ◌/◌, ◌%◌, ◌≤◌, ◌<◌, ◌≡◌, refl, sym, ap, ◌∙◌, true, false, List, [], ◌∷◌,
  none, some, ltb, ◌==◌, arith, if◌then◌else◌, Bool-cases, inl, inr,
}
use programming_with_c.Uniform.{limit_of, uniform}

-- `f 0 + ... + f (m - 1)`
abbrev pub sum_below : ℕ → (ℕ → ℕ) → ℕ
sum_below zero f = 0
sum_below (suc m) f = sum_below m f + f m

-- The sum of `f` over all sequences of `k` values from 0 to `rand_max`.
abbrev pub tally : ℕ → ℕ → (List ℕ → ℕ) → ℕ
tally rand_max zero f = f []
tally rand_max (suc k) f = sum_below (suc rand_max) (λ v. tally rand_max k (λ vs. f (v ∷ vs)))

-- 1 if `uniform` gives `r` when `rand` returns these values, and 0 if not.
pub gives : ℕ → ℕ → ℕ → List ℕ → ℕ
unfolding uniform
gives rand_max n r values = elim (uniform rand_max n values) [
  | none ↦ 0
  | some (x, _) ↦ if x == r then 1 else 0
]

-- How many of the sequences of `k` values give `r`.
abbrev pub outcomes : ℕ → ℕ → ℕ → ℕ → ℕ
outcomes rand_max n k r = tally rand_max k (gives rand_max n r)

sum-below_ext :
    (m : ℕ) (f g : ℕ → ℕ) → ((v : ℕ) → v < m → f v ≡ g v) → sum_below m f ≡ sum_below m g
sum-below_ext zero f g h = refl
sum-below_ext (suc m) f g h =
    omega (arith, sum-below_ext m f g (λ v l. h v (omega (arith, l))), h m (omega arith))

sum-below_plus :
    (m j : ℕ) (f : ℕ → ℕ) → sum_below (m + j) f ≡ sum_below m f + sum_below j (λ v. f (m + v))
sum-below_plus m zero f = let e : m + 0 ≡ m = omega arith in ap (λ x. sum_below x f) e ∙ omega arith
sum-below_plus m (suc j) f =
    let e : m + suc j ≡ suc (m + j) = omega arith in
    ap (λ x. sum_below x f) e ∙ omega (arith, sum-below_plus m j f)

tally_ext :
    (rand_max k : ℕ) (f g : List ℕ → ℕ)
    → ((vs : List ℕ) → f vs ≡ g vs)
    → tally rand_max k f ≡ tally rand_max k g
tally_ext rand_max zero f g h = h []
tally_ext rand_max (suc k) f g h =
    sum-below_ext (suc rand_max) (λ v. tally rand_max k (λ vs. f (v ∷ vs)))
      (λ v. tally rand_max k (λ vs. g (v ∷ vs)))
      (λ v l. tally_ext rand_max k (λ vs. f (v ∷ vs)) (λ vs. g (v ∷ vs)) (λ vs. h (v ∷ vs)))

gives-accepted :
    (rand_max n r v : ℕ) (vs : List ℕ)
    → v < limit_of rand_max n
    → gives rand_max n r (v ∷ vs) ≡ (if v % n == r then 1 else 0)
unfolding gives
gives-accepted rand_max n r v vs h =
    let b : ltb v (limit_of rand_max n) ≡ true = ground (arith, h) in rw (b, gives) refl

gives-rejected :
    (rand_max n r v : ℕ) (vs : List ℕ)
    → limit_of rand_max n ≤ v
    → gives rand_max n r (v ∷ vs) ≡ gives rand_max n r vs
unfolding gives
gives-rejected rand_max n r v vs h =
    let b : ltb v (limit_of rand_max n) ≡ false = ground (arith, h) in rw (b, gives) refl

-- A weight on the values with one remainder, in blocks of `n`.
abbrev weighed : ℕ → ℕ → ℕ → ℕ → ℕ
weighed n r weight v = if v % n == r then weight else 0

block :
    (n r weight a b : ℕ)
    → b ≤ n
    → sum_below (a * n + b) (weighed n r weight)
      ≡ sum_below (a * n) (weighed n r weight) + (if ltb r b then weight else 0)
block n r weight a zero l =
    let e : a * n + 0 ≡ a * n = omega arith in
    ap (λ x. sum_below x (weighed n r weight)) e ∙ ground arith
block n r weight a (suc b) l =
    let e : a * n + suc b ≡ suc (a * n + b) = omega arith in
    ap (λ x. sum_below x (weighed n r weight)) e ∙ step (block n r weight a b (omega (arith, l)))
  where
    residue : (a * n + b) % n ≡ b
    residue = mul-add-mod_self_right a n b ∙ mod-eq_of_lt {n = b} {m = n} (omega (arith, l))

    last : weighed n r weight (a * n + b) ≡ (if b == r then weight else 0)
    last = ap (λ x. if x == r then weight else 0) residue

    step :
        sum_below (a * n + b) (weighed n r weight)
          ≡ sum_below (a * n) (weighed n r weight) + (if ltb r b then weight else 0)
        → sum_below (suc (a * n + b)) (weighed n r weight)
          ≡ sum_below (a * n) (weighed n r weight) + (if ltb r (suc b) then weight else 0)
    step before = ground (arith, before, last)

blocks : (n r weight a : ℕ) → r < n → sum_below (a * n) (weighed n r weight) ≡ a * weight
blocks n r weight zero h =
    let e : 0 * n ≡ 0 = omega arith in ap (λ x. sum_below x (weighed n r weight)) e ∙ omega arith
blocks n r weight (suc a) h =
    let e : suc a * n ≡ a * n + n = omega arith in
    let b : ltb r n ≡ true = ground (arith, h) in
    let last = block n r weight a n (omega arith) in
    ap (λ x. sum_below x (weighed n r weight)) e
    ∙ (last ∙ rw b (omega (arith, blocks n r weight a h)))

sum-below_zero : (m : ℕ) → sum_below m (λ _. 0) ≡ 0
sum-below_zero zero = refl
sum-below_zero (suc m) = omega (arith, sum-below_zero m)

tally_zero : (rand_max k : ℕ) → tally rand_max k (λ _. 0) ≡ 0
tally_zero rand_max zero = refl
tally_zero rand_max (suc k) =
    sum-below_ext (suc rand_max) (λ _. tally rand_max k (λ _. 0)) (λ _. 0)
      (λ v l. tally_zero rand_max k)
    ∙ sum-below_zero (suc rand_max)

-- All sequences that begin with a value that is accepted.
first_accepted :
    (rand_max n k r v : ℕ)
    → v < limit_of rand_max n
    → tally rand_max k (λ vs. gives rand_max n r (v ∷ vs))
      ≡ weighed n r (tally rand_max k (λ _. 1)) v
first_accepted rand_max n k r v h =
    tally_ext rand_max k (λ vs. gives rand_max n r (v ∷ vs)) (λ _. if v % n == r then 1 else 0)
      (λ vs. gives-accepted rand_max n r v vs h)
    ∙ chosen
  where
    chosen :
        tally rand_max k (λ _. if v % n == r then 1 else 0)
        ≡ (if v % n == r then tally rand_max k (λ _. 1) else 0)
    chosen = elim (Bool-cases (v % n == r)) [
      | inl t ↦ rw t refl
      | inr f ↦ rw f (tally_zero rand_max k)
    ]

-- With one more value: the first is accepted, or it is one of the last, and the others decide.
outcomes-suc :
    (rand_max n k r : ℕ)
    → r < n
    → outcomes rand_max n (suc k) r
      ≡ rand_max / n * tally rand_max k (λ _. 1)
        + sum_below (suc (rand_max % n)) (λ _. outcomes rand_max n k r)
outcomes-suc rand_max n k r h =
    let multiple : limit_of rand_max n ≡ rand_max / n * n =
      omega (arith, div-add-mod rand_max n, mul_comm n (rand_max / n)) in
    let all_values : suc rand_max ≡ limit_of rand_max n + suc (rand_max % n) =
      omega (arith, mod-le rand_max n) in
    ap (λ m. sum_below m following) all_values
    ∙ (sum-below_plus (limit_of rand_max n) (suc (rand_max % n)) following
        ∙ (rw (accepted, rejected)
            (ap (λ x. x + others)
              (ap (λ m. sum_below m (weighed n r weight)) multiple
                ∙ blocks n r weight (rand_max / n) h))))
  where
    following : ℕ → ℕ
    following v = tally rand_max k (λ vs. gives rand_max n r (v ∷ vs))

    weight : ℕ
    weight = tally rand_max k (λ _. 1)

    others : ℕ
    others = sum_below (suc (rand_max % n)) (λ _. outcomes rand_max n k r)

    accepted :
        sum_below (limit_of rand_max n) following
        ≡ sum_below (limit_of rand_max n) (weighed n r weight)
    accepted =
        sum-below_ext (limit_of rand_max n) following (weighed n r weight)
          (λ v l. first_accepted rand_max n k r v l)

    rejected : sum_below (suc (rand_max % n)) (λ j. following (limit_of rand_max n + j)) ≡ others
    rejected =
        sum-below_ext (suc (rand_max % n)) (λ j. following (limit_of rand_max n + j))
          (λ _. outcomes rand_max n k r)
          (λ j l.
            tally_ext rand_max k (λ vs. gives rand_max n r ((limit_of rand_max n + j) ∷ vs))
              (gives rand_max n r)
              (λ vs. gives-rejected rand_max n r (limit_of rand_max n + j) vs (omega arith)))

same_outcomes :
    (rand_max n k r q : ℕ) → r < n → q < n → outcomes rand_max n k r ≡ outcomes rand_max n k q
unfolding gives
same_outcomes rand_max n zero r q h l = refl
same_outcomes rand_max n (suc k) r q h l =
    outcomes-suc rand_max n k r h
    ∙ (ap (λ x. rand_max / n * tally rand_max k (λ _. 1) + sum_below (suc (rand_max % n)) (λ _. x))
          (same_outcomes rand_max n k r q h l)
        ∙ sym (outcomes-suc rand_max n k q l))

-- `uniform (n)` is unbiased: for every number of values of `rand`, any two results below `n` come from
-- the same number of the sequences of so many values from 0 to RAND_MAX; and of the sequences of one
-- value, RAND_MAX / n give each of them.
pub uniform-outcomes :
    (rand_max n k r q : ℕ)
    → r < n
    → q < n
    → (outcomes rand_max n k r ≡ outcomes rand_max n k q) × (outcomes rand_max n 1 r ≡ rand_max / n)
unfolding gives
uniform-outcomes rand_max n k r q h l = (
  same_outcomes rand_max n k r q h l,
  omega (arith, outcomes-suc rand_max n 0 r h, sum-below_zero (suc (rand_max % n))),
)
