-- ===== src/Db/UserWallets.antt =====
-- backend/src/role_builder/db_helpers/user_wallets.py
use roles.Prelude.{
  ℕ, ◌+◌, String, Bool, not, ◌&&◌, Option, none, some, List, [], ◌∷◌, ◌++◌, ◌==◌, nat_eq, ltb,
  eq_opt, if◌then◌else◌, select_where, find_where, count_where, any_where, order_by,
}
use roles.Db.Schema.{Db, UserWallet}

-- What insert_wallet is given.
pub record NewWallet : Type 0 where
  pub tenant_id : ℕ
  pub user_id : ℕ
  pub label : String
  pub api_token_encrypted : String
  pub api_url : String

abbrev pub wallet_row : NewWallet → Db → UserWallet
wallet_row n db = record {
  id = db.next_id;
  tenant_id = n.tenant_id;
  user_id = n.user_id;
  label = n.label;
  api_token_encrypted = n.api_token_encrypted;
  api_url = n.api_url;
  created_at = db.now;
}

unfoldable pub insert_wallet : NewWallet → Db → ℕ × Db
insert_wallet n db = (
  db.next_id,
  record db { user_wallets = db.user_wallets ++ wallet_row n db ∷ []; next_id = db.next_id + 1 },
)

unfoldable pub list_wallets : ℕ → Db → List UserWallet
list_wallets user_id db =
    order_by (λ a b. ltb a.created_at b.created_at)
      (select_where (λ w. w.user_id == user_id) db.user_wallets)

abbrev pub is_wallet_of : ℕ → ℕ → UserWallet → Bool
is_wallet_of wallet_id user_id w = w.id == wallet_id && w.user_id == user_id

unfoldable pub get_wallet : ℕ → ℕ → Db → Option UserWallet
get_wallet wallet_id user_id db = find_where (is_wallet_of wallet_id user_id) db.user_wallets

unfoldable pub count_secrets_for_wallet : ℕ → Db → ℕ
count_secrets_for_wallet wallet_id db =
    count_where (λ s. eq_opt s.wallet_id wallet_id) db.user_secrets

-- The deletion by id and user; `none` is the violation of a secret's foreign key (RESTRICT).
unfoldable pub delete_wallet : ℕ → ℕ → Db → Option Db
delete_wallet wallet_id user_id db =
    let gone = record db {
      user_wallets = select_where (λ w. not (is_wallet_of wallet_id user_id w)) db.user_wallets;
    } in
    if any_where (is_wallet_of wallet_id user_id) db.user_wallets
      && any_where (λ s. eq_opt s.wallet_id wallet_id) db.user_secrets
    then none
    else some gone
