-- ===== src/Recursion/Search.antt =====
-- week18_recursion/recur.c: both binary searches decide membership in a sorted array.
use programming_with_c.Base.{
  ℕ, zero, suc, ◌+◌, ◌≡◌, ◌<◌, ◌≤◌, ◌≢◌, refl, sym, ap, List, get_or, ltb, Option, none, some, inl,
  inr, arith, Bool-cases,
}
use mathlib.Core.Path.{subst}
use programming_with_c.Base.Int.{ℤ, pos, ltb_ℤ, eqb_ℤ, pos_part, neg_part, ◌<ℤ◌, ◌≤ℤ◌, eq_of_not_lt}
use programming_with_c.Recursion.{middle, narrow, search_loop, bsearch_iter, bsearch_rec}

abbrev pub cell : List ℤ → ℕ → ℤ
cell a i = get_or a i (pos 0)

-- The loop and the recursion take the same way, on any array and any range.
loop_agrees :
    (fuel : ℕ) (a : List ℤ) (target : ℤ) (lo end : ℕ)
    → search_loop fuel a target (record { lo = lo; end = end }) ≡ bsearch_rec fuel a lo end target
unfolding search_loop bsearch_rec narrow
loop_agrees zero a target lo end = refl
loop_agrees (suc fuel) a target lo end = ground (
  arith,
  loop_agrees fuel a target (middle lo end + 1) end,
  loop_agrees fuel a target lo (middle lo end),
)

-- The first `n` elements ascend.
abbrev pub IsAscending : List ℤ → ℕ → Type 0
IsAscending a n = (i j : ℕ) → i ≤ j → j < n → cell a i ≤ℤ cell a j

-- What a search of the first `n` elements may answer.
pub data Answers (a : List ℤ) (n : ℕ) (target : ℤ) : Option (Option ℕ) → Type 0 where
  found : (i : ℕ) → i < n → cell a i ≡ target → Answers a n target (some (some i))
  missing : ((i : ℕ) → i < n → cell a i ≢ target) → Answers a n target (some none)

-- What is known of the range `lo`, `end` while the search runs: the target is not outside.
record Inside (a : List ℤ) (n : ℕ) (target : ℤ) (lo end : ℕ) : Type 0 where
  ordered : lo ≤ end
  bounded : end ≤ n
  above : (i : ℕ) → i < lo → cell a i <ℤ target
  below : (i : ℕ) → end ≤ i → i < n → target <ℤ cell a i

lt-ne : (x y : ℤ) → x <ℤ y → x ≢ y
lt-ne x y h e = omega (arith, ap pos_part e, ap neg_part e)

empty_range :
    (a : List ℤ) (n lo end : ℕ) (target : ℤ)
    → Inside a n target lo end
    → end ≤ lo
    → (i : ℕ) → i < n
    → cell a i ≢ target
empty_range a n lo end target w h i l = elim (Bool-cases (ltb i lo)) [
  | inl t ↦ lt-ne (cell a i) target (w.above i (ground arith))
  | inr f ↦ λ e. lt-ne target (cell a i) (w.below i (ground arith) l) (sym e)
]

middle_in : (lo end : ℕ) → lo < end → (lo ≤ middle lo end) × (middle lo end < end)
middle_in lo end h = omega arith

go_right :
    {a : List ℤ} {n lo end : ℕ} {target : ℤ} (mid : ℕ)
    → IsAscending a n
    → Inside a n target lo end
    → mid < end
    → cell a mid <ℤ target
    → Inside a n target (mid + 1) end
go_right {a} mid s w h l = record {
  ordered = omega arith;
  bounded = w.bounded;
  above = λ i k. omega (arith, s i mid (omega arith) (omega (arith, w.bounded)));
  below = w.below;
}

go_left :
    {a : List ℤ} {n lo end : ℕ} {target : ℤ} (mid : ℕ)
    → IsAscending a n
    → Inside a n target lo end
    → lo ≤ mid
    → mid < end
    → target <ℤ cell a mid
    → Inside a n target lo mid
go_left {a} mid s w k h l = record {
  ordered = k;
  bounded = omega (arith, w.bounded);
  above = w.above;
  below = λ i m j. omega (arith, s mid i m j);
}

bsearch_rec-Answers :
    (fuel : ℕ) (a : List ℤ) (n lo end : ℕ) (target : ℤ)
    → IsAscending a n
    → Inside a n target lo end
    → end < fuel + lo
    → Answers a n target (bsearch_rec fuel a lo end target)
unfolding bsearch_rec
bsearch_rec-Answers zero a n lo end target s w h = absurd (omega (arith, w.ordered))
bsearch_rec-Answers (suc fuel) a n lo end target s w h = elim (Bool-cases (ltb lo end)) [
  | inr f ↦ rw f (missing (empty_range a n lo end target w (ground arith)))
  | inl t ↦
      let mid = middle lo end in
      let (from_lo, to_end) = middle_in lo end (ground arith) in
      elim (Bool-cases (eqb_ℤ (cell a mid) target)) [
        | inl e ↦
            rw (t, e)
              (found mid (omega (arith, w.bounded, to_end))
                (eq_of_not_lt (cell a mid) target (ground arith) (ground arith)))
        | inr e ↦ elim (Bool-cases (ltb_ℤ (cell a mid) target)) [
          | inl l ↦
              rw (t, e, l)
                (bsearch_rec-Answers fuel a n (mid + 1) end target s
                  (go_right mid s w to_end (ground arith)) (omega (arith, from_lo)))
          | inr l ↦
              rw (t, e, l)
                (bsearch_rec-Answers fuel a n lo mid target s
                  (go_left mid s w from_lo to_end (ground arith)) (omega (arith, to_end)))
        ]
      ]
]

-- On an array whose first `n` elements ascend both searches end within `n + 1` tests, and with the
-- same answer: an index below `n` where the target stands, or -1 if it stands at none.
pub bsearch_lem :
    (a : List ℤ) (n : ℕ) (target : ℤ)
    → IsAscending a n
    → Answers a n target (bsearch_iter a n target)
      × (bsearch_iter a n target ≡ bsearch_rec (n + 1) a 0 n target)
unfolding bsearch_iter
bsearch_lem a n target s =
    let same = loop_agrees (n + 1) a target 0 n in
    (
      subst (λ r. Answers a n target r) (sym same)
          (bsearch_rec-Answers (n + 1) a n 0 n target s start (omega arith)),
      same,
    )
  where
    start : Inside a n target 0 n
    start = record {
      ordered = omega arith;
      bounded = omega arith;
      above = λ i k. absurd (omega arith);
      below = λ i k l. absurd (omega arith);
    }
