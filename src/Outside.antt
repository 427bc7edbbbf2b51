-- ===== src/Outside.antt =====
-- What the code takes from PostgreSQL's and Python's libraries and that the model does not define.
use roles.Prelude.{ℕ, String, Bool, Option}

pub record Outside : Type 0 where
  -- `title ILIKE '%pattern%'`, the title first
  pub ilike : String → String → Bool
  -- datetime.fromisoformat, with UTC where the text has no zone; `none` is the ValueError
  pub parse_iso : String → Option ℕ
  -- datetime.isoformat
  pub isoformat : ℕ → String
  -- int(text); `none` is the ValueError. The flag says that the number is negative.
  pub parse_int : String → Option (Bool × ℕ)
  -- str(n)
  pub show_int : ℕ → String
  -- json.dumps of {code, message}
  pub dumps_error : String → String → String
  -- f"user_{user_id}", the pool of a user's workers
  pub user_pool : ℕ → String
  -- str.lower, str.strip, and `needle in text` with the needle first
  pub lower : String → String
  pub strip : String → String
  pub contains : String → String → Bool
