-- ===== src/Db/UserSecrets/Insertion.antt =====
-- What insert_secret of db_helpers/user_secrets.py stores.
use roles.Prelude.{
  ℕ, true, false, ◌&&◌, Option, none, some, List, [], ◌∷◌, ◌++◌, ◌==◌, nat_eq, beq_refl, find_where,
  any_where, Bool-cases, inl, inr, ◌≡◌, refl, arith,
}
use roles.Db.Schema.{Db, UserSecret}
use roles.Db.UserSecrets.{
  NewSecret, secret_row, insert_secret, is_secret_of, is_secret_type, has_wallet, get_secret,
}

abbrev pub with_row : ℕ → NewSecret → Db → Db
with_row id n db = record db { user_secrets = db.user_secrets ++ secret_row id n db.now ∷ [] }

-- Either the row is there, or a constraint is violated.
abbrev pub IsInserted : ℕ → NewSecret → Db → Option Db → Type 0
IsInserted id n db none = (is_secret_type n.secret_type && has_wallet n.wallet_id db) ≡ false
IsInserted id n db (some db') = db' ≡ with_row id n db

pub insert_secret-IsInserted :
    (id : ℕ) (n : NewSecret) (db : Db) → IsInserted id n db (insert_secret id n db)
unfolding insert_secret
insert_secret-IsInserted id n db =
    elim (Bool-cases (is_secret_type n.secret_type && has_wallet n.wallet_id db)) [
      | inl e ↦ rw (IsInserted, e) refl
      | inr e ↦ rw (IsInserted, e) e
    ]

find_where-fresh :
    (id user_id : ℕ) (s : UserSecret) (rows : List UserSecret)
    → any_where (λ x. x.id == id) rows ≡ false
    → is_secret_of id user_id s ≡ true
    → find_where (is_secret_of id user_id) (rows ++ s ∷ []) ≡ some s
find_where-fresh id user_id s [] f e = rw e refl
find_where-fresh id user_id s (x ∷ xs) f e = ground (arith, find_where-fresh id user_id s xs)

-- The owner finds the row by the id, where no other row had it.
pub get_secret-with_row :
    (id : ℕ) (n : NewSecret) (db : Db)
    → any_where (λ x. x.id == id) db.user_secrets ≡ false
    → get_secret id n.user_id (with_row id n db) ≡ some (secret_row id n db.now)
unfolding get_secret
get_secret-with_row id n db f =
    find_where-fresh id n.user_id (secret_row id n db.now) db.user_secrets f
      (ground (arith, beq_refl id, beq_refl n.user_id))
