-- ===== src/Protocol/Tests.antt =====
-- The cases of test_protocol.c, and the theorems at them.
use programming_with_c.Base.{ℕ, ◌≡◌, ◌≢◌, refl, List, [], ◌∷◌, ◌++◌, All, arith, replicate}
use programming_with_c.Base.Text.{newline}
use programming_with_c.Protocol.{proto_timeout, init, poll, timeout_text}
use programming_with_c.Protocol.Lines.{Partial}
use programming_with_c.Protocol.Polls.{Answered, Overflowed, poll_line, poll_partial, poll_overflow}

abbrev hel : List ℕ
hel = b'h' ∷ b'e' ∷ b'l' ∷ []

abbrev lo : List ℕ
lo = b'l' ∷ b'o' ∷ []

hello_output :
    (poll 0 (hel ++ (lo ++ (newline ∷ []))) init).output
    ≡ b'1' ∷ b':' ∷ b'h' ∷ b'e' ∷ b'l' ∷ b'l' ∷ b'o' ∷ newline ∷ []
unfolding poll init
hello_output = refl

quiet_line :
    ((poll 2100 [] (poll 100 hel init).state).status ≡ proto_timeout)
    × ((poll 2100 [] (poll 100 hel init).state).output ≡ timeout_text)
unfolding poll init
quiet_line = (refl, refl)

init-Partial : Partial init []
unfolding init
init-Partial = record { storage = refl; size = refl; room = omega arith; held = refl }

hel-plain : All (λ c. c ≢ newline) hel
hel-plain = omega arith

hel-Partial : Partial (poll 0 hel init).state hel
hel-Partial = (poll_partial 0 b'h' (b'e' ∷ b'l' ∷ []) [] init-Partial hel-plain (omega arith)).3

-- "hel" and "lo\n" in two polls.
poll_line_example :
    Answered 5
      (poll 0 hel init).state
      (hel ++ lo)
      (poll 5 (lo ++ (newline ∷ [])) (poll 0 hel init).state)
poll_line_example = poll_line 5 lo hel hel-Partial (omega arith) (omega arith) (omega arith)

-- 64 bytes without a newline, and two more
abbrev big : List ℕ
big = replicate 64 b'x'

poll_overflow_example :
    Overflowed init.lines_handled
      (b'y' ∷ (newline ∷ []))
      (poll 0 (big ++ (b'y' ∷ (newline ∷ []))) init)
poll_overflow_example =
    poll_overflow 0 big (b'y' ∷ (newline ∷ [])) [] init-Partial (omega arith) (omega arith)
