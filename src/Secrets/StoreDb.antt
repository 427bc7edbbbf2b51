-- ===== src/Secrets/StoreDb.antt =====
-- What the operations of services/secret_store.py leave of the tables.
use roles.Prelude.{ℕ, String, Option, some, none, ◌≡◌, refl, ap, ◌∙◌}
use roles.Outside.{Outside}
use roles.Db.Schema.{UserSecret, SecretStorage}
use roles.Db.UserWallets.{get_wallet}
use roles.Db.UserSecrets.{get_secret}
use roles.Secrets.Effects.{Reply, ok, raised, Cipher, Harpocrate, World}
use roles.Secrets.Store.{
  wallet_client, then_get, client_for, read_from, read_value, read_row, read_secret_by_id,
  then_delete, try_delete_in_wallet, purge,
}
use roles.Secrets.Providers.{Providers, key_value}
use roles.Secrets.Clients.{IsClientOf, wallet_client-IsClientOf}

module _ (o : Outside) (H : Harpocrate) (c : Cipher) where
  IsClientOf-db :
      (wallet_id user_id : ℕ) (w : World H) (r : Reply H.Client × World H)
      → IsClientOf o H c wallet_id (get_wallet wallet_id user_id w.db) w r
      → r.1.db ≡ w.db
  IsClientOf-db wallet_id user_id w (raised e, w') h = ap (λ x. x.db) h
  IsClientOf-db wallet_id user_id w (ok client, w') h = h.0

  pub wallet_client-db :
      (wallet_id user_id : ℕ) (w : World H) → (wallet_client o H c wallet_id user_id w).1.db ≡ w.db
  wallet_client-db wallet_id user_id w =
      IsClientOf-db wallet_id user_id w (wallet_client o H c wallet_id user_id w)
        (wallet_client-IsClientOf o H c wallet_id user_id w)

  client_for-db :
      (wallet_id : Option ℕ) (user_id : ℕ) (w : World H)
      → (client_for o H c wallet_id user_id w).1.db ≡ w.db
  client_for-db none user_id w = refl
  client_for-db (some wallet_id) user_id w = wallet_client-db wallet_id user_id w

  then_get-db :
      (path : Option String) (r : Reply H.Client × World H) → (then_get o H c path r).1.db ≡ r.1.db
  then_get-db path (raised e, w) = refl
  then_get-db none (ok client, w) = refl
  then_get-db (some path) (ok client, w) = refl

  read_from-db :
      (storage : SecretStorage) (s : UserSecret) (w : World H)
      → (read_from o H c storage s w).1.db ≡ w.db
  read_from-db SecretStorage.local s w = refl
  read_from-db SecretStorage.wallet s w =
      then_get-db s.wallet_path (client_for o H c s.wallet_id s.user_id w)
      ∙ client_for-db s.wallet_id s.user_id w

  -- To read a secret writes no table.
  pub read_value-db : (s : UserSecret) (w : World H) → (read_value o H c s w).1.db ≡ w.db
  unfolding read_value
  read_value-db s w = read_from-db s.storage s w

  read_row-db : (r : Option UserSecret) (w : World H) → (read_row o H c r w).1.db ≡ w.db
  read_row-db none w = refl
  read_row-db (some s) w = read_value-db s w

  pub read_secret_by_id-db :
      (secret_id user_id : ℕ) (w : World H)
      → (read_secret_by_id o H c secret_id user_id w).1.db ≡ w.db
  unfolding read_secret_by_id
  read_secret_by_id-db secret_id user_id w = read_row-db (get_secret secret_id user_id w.db) w

  pub key_value-db :
      (p : Providers) (secret_id : Option ℕ) (user_id : ℕ) (w : World H)
      → (key_value o H c p secret_id user_id w).1.db ≡ w.db
  key_value-db p none user_id w = refl
  key_value-db p (some secret_id) user_id w = read_secret_by_id-db secret_id user_id w

  then_delete-db :
      (path : Option String) (r : Reply H.Client × World H) → (then_delete o H c path r).db ≡ r.1.db
  then_delete-db path (raised e, w) = refl
  then_delete-db none (ok client, w) = refl
  then_delete-db (some path) (ok client, w) = refl

  pub purge-db :
      (storage : SecretStorage) (s : UserSecret) (w : World H) → (purge o H c storage s w).db ≡ w.db
  unfolding try_delete_in_wallet
  purge-db SecretStorage.local s w = refl
  purge-db SecretStorage.wallet s w =
      then_delete-db s.wallet_path (client_for o H c s.wallet_id s.user_id w)
      ∙ client_for-db s.wallet_id s.user_id w
