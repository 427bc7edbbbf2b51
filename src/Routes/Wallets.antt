-- ===== src/Routes/Wallets.antt =====
-- backend/src/role_builder/routes/wallets.py
use roles.Prelude.{ℕ, String, ltb, if◌then◌else◌, Option, some, none, List}
use roles.Outside.{Outside}
use roles.Db.Schema.{Db, UserWallet}
use roles.Db.UserWallets.{list_wallets, get_wallet, count_secrets_for_wallet, delete_wallet}
use roles.Secrets.Effects.{Fault, Reply, ok, raised, Cipher, Harpocrate, World}
use roles.Secrets.Store.{register_wallet, invalidate_wallet}
use roles.Routes.Answers.{Answer, done, status, crashed, CurrentUser, Handler}

pub record CreateWalletRequest : Type 0 where
  pub label : String
  pub api_token : String
  pub api_url : String

module _ (o : Outside) (H : Harpocrate) (c : Cipher) where
  unfoldable pub list_wallets_endpoint : CurrentUser → World H → List UserWallet
  list_wallets_endpoint user w = list_wallets user.user_id w.db

  abbrev pub found : Option UserWallet → Answer UserWallet
  found none = status 500
  found (some x) = done x

  abbrev pub answer_of : Fault → Answer UserWallet
  answer_of Fault.wallet_unavailable = status 502
  answer_of Fault.invalid_token = status 400
  answer_of e = crashed e

  abbrev pub then_get_wallet : ℕ → Reply ℕ × World H → Answer UserWallet × World H
  then_get_wallet user_id (raised e, w) = (answer_of e, w)
  then_get_wallet user_id (ok wallet_id, w) = (found (get_wallet wallet_id user_id w.db), w)

  unfoldable pub create_wallet_endpoint : CreateWalletRequest → CurrentUser → Handler H UserWallet
  create_wallet_endpoint r user w =
      then_get_wallet user.user_id
        (register_wallet o H c user.tenant_id user.user_id r.label r.api_token r.api_url w)

  abbrev pub then_invalidate : ℕ → World H → Option Db → Answer Unit × World H
  then_invalidate wallet_id w none = (crashed Fault.integrity, w)
  then_invalidate wallet_id w (some db) =
      (done tt, invalidate_wallet o H c wallet_id (record w { db = db }))

  abbrev pub delete_found : ℕ → ℕ → Option UserWallet → Handler H Unit
  delete_found wallet_id user_id none w = (status 404, w)
  delete_found wallet_id user_id (some x) w =
      if ltb 0 (count_secrets_for_wallet wallet_id w.db)
      then (status 409, w)
      else then_invalidate wallet_id w (delete_wallet wallet_id user_id w.db)

  unfoldable pub delete_wallet_endpoint : ℕ → CurrentUser → Handler H Unit
  delete_wallet_endpoint wallet_id user w =
      delete_found wallet_id user.user_id (get_wallet wallet_id user.user_id w.db) w
