-- ===== src/Reload/Tests.antt =====
-- Files of a few lines, and an instance of what is proved.
use programming_with_c.Base.{
  ℕ, ◌-◌, ◌≡◌, ◌⊎◌, ◌++◌, ◌==◌, if◌then◌else◌, refl, true, false, List, [], ◌∷◌, Option, none, some,
}
use programming_with_c.Base.Int.{ℤ, pos, negsuc}
use programming_with_c.Base.Text.{c_string}
use programming_with_c.HashMap.{str_eq}
use programming_with_c.Reload.{Config, System, config_reload, parse_file, name_key, timeout_key}
use programming_with_c.Reload.Transaction.{IsUnchanged, IsReplaced, config_reload-IsReplaced}

-- Reads one digit, and "B" as 2 ^ 31.
abbrev digit : List ℕ → Option ℤ
digit [] = none
digit (c ∷ _) =
    if c == b'B' then some (pos 2_147_483_648) else if c == b'x' then none else some (pos (c - 48))

abbrev reading : List ℕ → System
reading s = record {
  file = some (record { bytes = s; broken = false });
  buffer = true;
  fresh = true;
}

-- "name = a", an empty line, "timeout = 5"
abbrev two_lines : List ℕ
two_lines =
    name_key
    ++ (32
        ∷ (b'='
            ∷ (32
                ∷ (b'a'
                    ∷ (10 ∷ (10 ∷ (timeout_key ++ (32 ∷ (b'=' ∷ (32 ∷ (b'5' ∷ (10 ∷ []))))))))))))

abbrev five : Config
five = record { timeout = pos 5; name = b'a' ∷ [] }

installs : (config_reload digit (reading two_lines) none).installed ≡ some five
unfolding config_reload parse_file c_string str_eq
installs = refl

-- "timeout=5", without blanks: the word before `=` takes the whole line, which is then skipped.
skips_without_blanks :
    (config_reload digit (reading (timeout_key ++ (b'=' ∷ (b'5' ∷ [])))) (some five)).installed
    ≡ some (record { timeout = pos 0; name = [] })
unfolding config_reload parse_file c_string str_eq
skips_without_blanks = refl

-- "timeout =x" is refused.
refuses :
    (config_reload digit
      (reading (timeout_key ++ (32 ∷ (b'=' ∷ (b'x' ∷ [])))))
      (some five)).installed
    ≡ some five
unfolding config_reload parse_file c_string str_eq
refuses = refl

-- A timeout of 2 ^ 31 is accepted, and installed as a negative number.
wraps :
    (config_reload digit
      (reading (timeout_key ++ (32 ∷ (b'=' ∷ (b'B' ∷ [])))))
      (some five)).installed
    ≡ some (record { timeout = negsuc 2_147_483_647; name = [] })
unfolding config_reload parse_file c_string str_eq
wraps = refl

config_reload-IsReplaced_example :
    IsUnchanged digit
      (reading two_lines)
      (some five)
      (config_reload digit (reading two_lines) (some five))
    ⊎ IsReplaced digit
        (reading two_lines)
        (some five)
        (config_reload digit (reading two_lines) (some five))
config_reload-IsReplaced_example = config_reload-IsReplaced digit (reading two_lines) (some five)
