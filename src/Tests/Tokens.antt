-- ===== src/Tests/Tokens.antt =====
-- Tokens and hashes of core/security.py under concrete libraries.
use backend_template.Prelude.{ℕ, zero, suc, ◌≡◌, none, some, List, [], ◌∷◌, arith}
use backend_template.Security.Tokens.{access_check, refresh, mint, checked, checked-mint}
use backend_template.Tests.Fixture.{libs, libs-Lawful, settings}

checked-mint_example :
    checked libs settings access_check 2000 (mint libs settings refresh 1000 5 "alice") ≡ some none
checked-mint_example =
    checked-mint libs settings libs-Lawful access_check refresh 1000 5 "alice" 2000 (omega arith)
      (omega arith)

-- 72 times the letter a
abbrev letters : ℕ → List ℕ
letters zero = []
letters (suc n) = 97 ∷ letters n
