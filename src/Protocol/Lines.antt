-- ===== src/Protocol/Lines.antt =====
-- How protocol.c frames lines: a line may arrive in any number of polls.
use programming_with_c.Base.{
  ℕ, zero, suc, ◌+◌, ◌-◌, ◌%◌, ◌^◌, ◌≤◌, ◌<◌, ◌≡◌, ◌≢◌, refl, ap, ◌∙◌, sym, false, List, [], ◌∷◌,
  ◌++◌, All, arith, leb, ◌==◌, set, length, length-set, length-append, take,
}
use mathlib.Core.List.{append-nil, append_assoc}
use mathlib.Core.Path.{subst}
use programming_with_c.Base.Text.{newline, c_string, decimal}
use programming_with_c.Base.Decimals.{length-decimal}
use programming_with_c.Protocol.{Protocol, max_line, store_byte, end_reply, read_loop}

-- The bytes of an unfinished line that the state holds.
pub record Partial (p : Protocol) (xs : List ℕ) : Type 0 where
  pub storage : length p.line ≡ max_line
  pub size : length xs ≡ p.used
  pub room : p.used < max_line
  pub held : take p.used p.line ≡ xs

take-set_next :
    (xs : List ℕ) (n c : ℕ) → n < length xs → take (suc n) (set xs n c) ≡ take n xs ++ (c ∷ [])
take-set_next [] n c h = absurd (omega arith)
take-set_next (x ∷ xs) zero c h = refl
take-set_next (x ∷ xs) (suc n) c h = ap (λ ys. x ∷ ys) (take-set_next xs n c (omega arith))

pub store_byte-Partial :
    (now c : ℕ) {p : Protocol} (xs : List ℕ)
    → Partial p xs
    → p.used < max_line - 1
    → Partial (store_byte now c p) (xs ++ (c ∷ []))
unfolding store_byte
store_byte-Partial now c {p} xs q h = record {
  storage = length-set p.line p.used c ∙ q.storage;
  size = omega (arith, length-append xs (c ∷ []), q.size);
  room = omega arith;
  held =
      ap (λ n. take n (set p.line p.used c)) next
      ∙ take-set_next p.line p.used c (omega (arith, q.storage))
      ∙ ap (λ ys. ys ++ (c ∷ [])) q.held;
}
  where
    next : (p.used + 1) % 2 ^ 8 ≡ suc p.used
    next = omega arith

unfoldable pub store_all : ℕ → List ℕ → Protocol → Protocol
store_all now [] p = p
store_all now (c ∷ cs) p = store_all now cs (store_byte now c p)

-- Bytes without a line end that fit are stored, and nothing is written.
pub read_loop-stores :
    (now : ℕ) (cs rest : List ℕ) {p : Protocol} (xs out : List ℕ)
    → Partial p xs
    → All (λ c. c ≢ newline) cs
    → length xs + length cs < max_line
    → (read_loop now (cs ++ rest) p out ≡ read_loop now rest (store_all now cs p) out)
      × Partial (store_all now cs p) (xs ++ cs)
unfolding read_loop store_all
read_loop-stores now [] rest {p} xs out q a h = (refl, subst (Partial p) (sym (append-nil xs)) q)
read_loop-stores now (c ∷ cs) rest {p} xs out q a h =
    let q' = store_byte-Partial now c xs q (omega (arith, q.size)) in
    let (step, part) =
      read_loop-stores now cs rest (xs ++ (c ∷ [])) out q' a.1
        (omega (arith, length-append xs (c ∷ []))) in
    let plain : (c == 10) ≡ false = ground (arith, a.0) in
    let fits : leb 63 p.used ≡ false = ground (arith, q.size) in
    (rw (plain, fits) step, subst (Partial _) (append_assoc xs (c ∷ []) cs) part)

c_string-line :
    (line xs : List ℕ) (n : ℕ)
    → take n line ≡ xs
    → All (λ c. c ≢ 0) xs
    → n < length line
    → c_string (set line n 0) ≡ xs
unfolding c_string
c_string-line [] xs n e a h = absurd (omega arith)
c_string-line (l ∷ ls) xs zero e a h = e
c_string-line (l ∷ ls) [] (suc n) e a h = absurd (cons≢nil e)
  where
    cons≢nil : {x : ℕ} {ys : List ℕ} → ◌≡◌ {A = List ℕ} (x ∷ ys) [] → ⊥
    cons≢nil q = cc
c_string-line (l ∷ ls) (x ∷ xs) (suc n) e a h = ground (arith, c_string-line ls xs n)

take_short {ℓ} : {A : Type ℓ} (n : ℕ) (xs : List A) → length xs ≤ n → take n xs ≡ xs
take_short zero [] h = refl
take_short zero (x ∷ xs) h = absurd (omega arith)
take_short (suc n) [] h = refl
take_short (suc n) (x ∷ xs) h = ap (λ ys. x ∷ ys) (take_short n xs (omega arith))

-- The reply to the line `xs` as the `count`-th line.
abbrev pub line_reply : ℕ → List ℕ → List ℕ
line_reply count xs = decimal 9 count ++ (b':' ∷ (xs ++ (newline ∷ [])))

-- The reply fits its buffer: nothing is cut off.
pub end_reply-Partial :
    {p : Protocol} (xs : List ℕ)
    → Partial p xs
    → All (λ c. c ≢ 0) xs
    → end_reply p ≡ line_reply ((p.lines_handled + 1) % 2 ^ 32) xs
unfolding end_reply
end_reply-Partial {p} xs q a =
    ap (λ s. take 79 (decimal 9 n ++ (b':' ∷ (s ++ (newline ∷ []))))) text
    ∙ take_short 79 (line_reply n xs) (
        omega (
          arith,
          length-append (decimal 9 n) (b':' ∷ (xs ++ (newline ∷ []))),
          length-append xs (newline ∷ []),
          length-decimal 9 n,
          q.size,
          q.room,
        ))
  where
    n : ℕ
    n = (p.lines_handled + 1) % 2 ^ 32

    text : c_string (set p.line p.used 0) ≡ xs
    text = c_string-line p.line xs p.used q.held a (omega (arith, q.storage, q.room))
