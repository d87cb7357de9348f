-- ===== src/Sieve/Tests.antt =====
-- The primes below fifty as they are printed, and an instance of what is proved.
use programming_with_c.Base.{◌≡◌, ◌⊎◌, refl, true, false, [], ◌∷◌, arith, take}
use programming_with_c.Base.Text.{decimal}
use programming_with_c.Sieve.{cell, sieve, limit_value, print_primes, print_table}
use programming_with_c.Sieve.Invariant.{IsComposite, sieve-IsComposite}

-- "   2   3   5   7  11  13"
first_primes :
    take 24 (print_primes limit_value)
    ≡ 32 ∷ 32 ∷ 32 ∷ b'2' ∷ 32 ∷ 32 ∷ 32 ∷ b'3' ∷ 32 ∷ 32 ∷ 32 ∷ b'5' ∷ 32 ∷ 32 ∷ 32 ∷ b'7' ∷ 32
      ∷ 32 ∷ b'1' ∷ b'1' ∷ 32 ∷ 32 ∷ b'1' ∷ b'3' ∷ []
unfolding print_primes decimal
first_primes = refl

-- The head line of the table begins with "       1   2".
table_head :
    take 12 print_table ≡ 32 ∷ 32 ∷ 32 ∷ 32 ∷ 32 ∷ 32 ∷ 32 ∷ b'1' ∷ 32 ∷ 32 ∷ 32 ∷ b'2' ∷ []
unfolding print_table decimal
table_head = refl

sieve-IsComposite_example :
    ((cell (sieve limit_value) 49 ≡ true) × (¬ (IsComposite 49)))
    ⊎ ((cell (sieve limit_value) 49 ≡ false) × IsComposite 49)
sieve-IsComposite_example = sieve-IsComposite limit_value 49 (omega arith) (omega arith)
