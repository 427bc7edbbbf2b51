-- ===== src/Acquisition/RequestCreation.antt =====
-- services/acquisition/request_creation.py
pub mod UniqueKey
use roles.Prelude.{ℕ, zero, suc, String, Option, none, some, List, [], ◌∷◌}
use roles.Db.Schema.{Db}
use roles.Db.Requests.{NewRequest, insert_request}
use roles.Acquisition.Errors.{Code, Result, ok, err}

-- _MAX_KEY_ATTEMPTS
abbrev pub max_key_attempts : ℕ
max_key_attempts = 5

-- The loop, with the rounds that are left. `suffixed i` is with_random_suffix as the i-th collision
-- draws it.
unfoldable pub try_insert : (ℕ → String) → NewRequest → ℕ → ℕ → String → Db → Result String × Db
try_insert suffixed n zero i candidate db = (err Code.no_unique_key, db)
try_insert suffixed n (suc k) i candidate db = elim (insert_request candidate n db) [
  | some db' ↦ (ok candidate, db')
  | none ↦ try_insert suffixed n k (suc i) (suffixed i) db
]

unfoldable pub insert_request_with_retry :
    (ℕ → String) → String → NewRequest → Db → Result String × Db
unfolding try_insert
insert_request_with_retry suffixed base_key n db =
    try_insert suffixed n max_key_attempts 0 base_key db
