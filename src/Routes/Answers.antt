-- ===== src/Routes/Answers.antt =====
-- What a handler of FastAPI comes to.
use roles.Prelude.{ℕ}
use roles.Secrets.Effects.{Fault, Harpocrate, World}

-- An answer, an HTTPException with its status, or an exception that no handler catches.
pub data Answer (A : Type 0) : Type 0 where
  done : A → Answer A
  status : ℕ → Answer A
  crashed : Fault → Answer A

-- The user of get_current_user.
pub record CurrentUser : Type 0 where
  pub user_id : ℕ
  pub tenant_id : ℕ

module _ (H : Harpocrate) where
  abbrev pub Handler : Type 0 → Type 0
  Handler A = World H → Answer A × World H
