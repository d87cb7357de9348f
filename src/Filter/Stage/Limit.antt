-- ===== src/Filter/Stage/Limit.antt =====
-- The limit of filter.c counts over all its inputs.
use programming_with_c.Base.{
  ℕ, suc, ◌+◌, ◌≤◌, ◌≡◌, ◌≢◌, All, List, [], ◌∷◌, ◌++◌, if◌then◌else◌, length,
}
use programming_with_c.Base.Int.{pos}
use programming_with_c.Base.Text.{newline}
use programming_with_c.Filter.{Config, Message, exit_success}
use programming_with_c.Filter.Stage.{Copy, say, World, Progress}

-- The bytes of some lines, each with the prefix and a newline.
abbrev pub with_prefix : List ℕ → List (List ℕ) → List ℕ
with_prefix prefix [] = []
with_prefix prefix (l ∷ ls) = (prefix ++ (l ++ (newline ∷ []))) ++ with_prefix prefix ls

-- Texts without a newline in them.
abbrev pub AreLines : List (List ℕ) → Type 0
AreLines ls = All (λ l. All (λ c. c ≢ newline) l) ls

module _ (c : Config) (limit : ℕ) (e : c.maximum ≡ pos (suc limit)) where
  -- From one state to a later one: the lines that were written, all of them counted, within the limit.
  record Wrote (r r' : Copy) : Type 0 where
    texts : List (List ℕ)
    plain : AreLines texts
    out : r'.out ≡ r.out ++ with_prefix c.prefix texts
    counted : r'.emitted ≡ r.emitted + length texts
    within : r.emitted ≤ suc limit → r'.emitted ≤ suc limit

  shown : Copy → Copy
  shown r = if c.verbose then say (Message.config_shown c) r else r

  started : World → Copy → Progress
  started w r = record { status = exit_success; stdin = w.stdin; copy = shown r }
