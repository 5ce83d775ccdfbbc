-- ===== src/Common/Codes.antt =====
-- The `int` that most functions of the program return: 0 for success, -1 for failure.
use mathlib.Core.Bool.{Bool, true, false}
use mathlib.Core.Path.{◌≡◌, refl}
use mathlib.Core.Logic.{◌≢◌, ◌⊎◌, inl, inr}

pub data Code : Type 0 where
  success failure : Code

-- `0 == iRes`
abbrev pub is_ok : Code → Bool
is_ok success = true
is_ok failure = false

pub success≢failure : success ≢ failure
success≢failure e = cc

pub Code-cases : (c : Code) → (c ≡ success) ⊎ (c ≡ failure)
Code-cases success = inl refl
Code-cases failure = inr refl
