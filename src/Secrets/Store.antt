-- ===== src/Secrets/Store.antt =====
-- backend/src/role_builder/services/secret_store.py
use roles.Prelude.{ℕ, ◌+◌, String, ◌<>◌, ◌==◌, nat_eq, if◌then◌else◌, Option, some, none, ◌∷◌}
use roles.Outside.{Outside}
use roles.Db.Schema.{Db, UserWallet, UserSecret, SecretStorage}
use roles.Db.UserWallets.{NewWallet, insert_wallet, get_wallet}
use roles.Db.UserSecrets as UserSecrets
use roles.Db.UserSecrets.{insert_secret, get_secret}
use roles.Secrets.Effects.{
  Fault, Reply, ok, raised, Cipher, Harpocrate, World, Action, cached_client, without_client,
  is_harpocrate, is_inaccessible, is_missing,
}

-- What create_secret is given.
pub record NewValue : Type 0 where
  pub tenant_id : ℕ
  pub user_id : ℕ
  pub secret_type : String
  pub label : String
  pub value : String
  pub wallet_id : Option ℕ

module _ (o : Outside) (H : Harpocrate) (c : Cipher) where
  -- The client is cached before it is returned.
  abbrev pub keep_client : ℕ → Reply H.Client → Action H H.Client
  keep_client wallet_id (raised e) w = (raised e, w)
  keep_client wallet_id (ok client) w = (
    ok client,
    record w { clients = record { wallet_id = wallet_id; client = client } ∷ w.clients },
  )

  -- With the token that the row holds, decrypted.
  abbrev pub connect : ℕ → UserWallet → Option String → Action H H.Client
  connect wallet_id wallet none w = (raised Fault.decrypt, w)
  connect wallet_id wallet (some token) w =
      keep_client wallet_id (H.new_client token wallet.api_url w.vault) w

  abbrev pub cached_or_new : ℕ → UserWallet → Option H.Client → Action H H.Client
  cached_or_new wallet_id wallet (some client) w = (ok client, w)
  cached_or_new wallet_id wallet none w =
      connect wallet_id wallet (c.decrypt wallet.api_token_encrypted) w

  abbrev pub client_of : ℕ → Option UserWallet → Action H H.Client
  client_of wallet_id none w = (raised Fault.unknown_wallet, w)
  client_of wallet_id (some wallet) w =
      cached_or_new wallet_id wallet (cached_client H wallet_id w.clients) w

  -- The owner is checked before the cache is read.
  unfoldable pub wallet_client : ℕ → ℕ → Action H H.Client
  wallet_client wallet_id user_id w = client_of wallet_id (get_wallet wallet_id user_id w.db) w

  abbrev pub at_vault : World H → Reply Unit × H.State → Reply Unit × World H
  at_vault w (r, s) = (r, record w { vault = s })

  abbrev pub or_create :
      H.Client → String → String → World H → Reply Unit × H.State → Reply Unit × World H
  or_create client path value w (ok done, s) = (ok done, record w { vault = s })
  or_create client path value w (raised e, s) =
      if is_missing e
      then at_vault w (H.create client path value s)
      else (raised e, record w { vault = s })

  unfoldable pub vault_upsert : H.Client → String → String → Action H Unit
  vault_upsert client path value w = or_create client path value w (H.put client path value w.vault)

  -- The `try` of _create_in_wallet: the client, once the value is stored.
  abbrev pub then_client : H.Client → Reply Unit × World H → Reply H.Client × World H
  then_client client (ok done, w) = (ok client, w)
  then_client client (raised e, w) = (raised e, w)

  abbrev pub then_upsert : String → String → Reply H.Client × World H → Reply H.Client × World H
  then_upsert path value (raised e, w) = (raised e, w)
  then_upsert path value (ok client, w) = then_client client (vault_upsert client path value w)

  abbrev pub as_unavailable : Reply H.Client × World H → Reply H.Client × World H
  as_unavailable (ok client, w) = (ok client, w)
  as_unavailable (raised e, w) =
      (raised (if is_inaccessible e then Fault.wallet_unavailable else e), w)

  -- The insertion, and the deletion in the vault where it fails; what that deletion raises is dropped.
  abbrev pub compensated : H.Client → String → ℕ → World H → Option Db → Reply ℕ × World H
  compensated client path secret_id w (some db) = (ok secret_id, record w { db = db })
  compensated client path secret_id w none =
      let (r, s) = H.delete client path w.vault in (raised Fault.integrity, record w { vault = s })

  abbrev pub wallet_secret : NewValue → ℕ → String → UserSecrets.NewSecret
  wallet_secret n wallet_id path = record {
    tenant_id = n.tenant_id;
    user_id = n.user_id;
    secret_type = n.secret_type;
    label = n.label;
    storage = SecretStorage.wallet;
    value_encrypted = none;
    wallet_id = some wallet_id;
    wallet_path = some path;
  }

  abbrev pub then_insert : NewValue → ℕ → ℕ → String → Reply H.Client × World H → Reply ℕ × World H
  then_insert n secret_id wallet_id path (raised e, w) = (raised e, w)
  then_insert n secret_id wallet_id path (ok client, w) =
      compensated client path secret_id w
        (insert_secret secret_id (wallet_secret n wallet_id path) w.db)

  abbrev pub secret_path : String → ℕ → String
  secret_path secret_type secret_id = "roles/" <> secret_type <> "/" <> o.show_int secret_id

  unfoldable pub create_in_wallet : NewValue → ℕ → ℕ → Action H ℕ
  unfolding wallet_client vault_upsert
  create_in_wallet n secret_id wallet_id w =
      let path = secret_path n.secret_type secret_id in
      then_insert n secret_id wallet_id path
        (as_unavailable (then_upsert path n.value (wallet_client wallet_id n.user_id w)))

  abbrev pub local_secret : NewValue → UserSecrets.NewSecret
  local_secret n = record {
    tenant_id = n.tenant_id;
    user_id = n.user_id;
    secret_type = n.secret_type;
    label = n.label;
    storage = SecretStorage.local;
    value_encrypted = some (c.encrypt n.value);
    wallet_id = none;
    wallet_path = none;
  }

  abbrev pub inserted : ℕ → World H → Option Db → Reply ℕ × World H
  inserted secret_id w (some db) = (ok secret_id, record w { db = db })
  inserted secret_id w none = (raised Fault.integrity, w)

  unfoldable pub create_local : NewValue → ℕ → Action H ℕ
  create_local n secret_id w = inserted secret_id w (insert_secret secret_id (local_secret n) w.db)

  -- secret_id = uuid4()
  abbrev pub drawn : World H → World H
  drawn w = record w { db = record (w.db) { next_id = w.db.next_id + 1 } }

  abbrev pub create_in : Option ℕ → NewValue → ℕ → Action H ℕ
  create_in none n secret_id w = create_local n secret_id w
  create_in (some wallet_id) n secret_id w = create_in_wallet n secret_id wallet_id w

  unfoldable pub create_secret : NewValue → Action H ℕ
  unfolding create_local create_in_wallet
  create_secret n w = create_in n.wallet_id n w.db.next_id (drawn w)

  -- `bytes(None)` and a path that is None raise TypeError; the constraint on the shape excludes both.
  abbrev pub read_local : Option String → Reply (Option String)
  read_local none = raised Fault.type_error
  read_local (some token) = ok (c.decrypt token)

  abbrev pub or_inaccessible : Reply String → Reply (Option String)
  or_inaccessible (ok value) = ok (some value)
  or_inaccessible (raised e) = if is_inaccessible e then ok none else raised e

  abbrev pub then_get : Option String → Reply H.Client × World H → Reply (Option String) × World H
  then_get path (raised e, w) = (or_inaccessible (raised e), w)
  then_get none (ok client, w) = (raised Fault.type_error, w)
  then_get (some path) (ok client, w) = (or_inaccessible (H.get client path w.vault), w)

  -- A row of a wallet whose wallet_id is NULL finds no wallet.
  abbrev pub client_for : Option ℕ → ℕ → Action H H.Client
  client_for none user_id w = (raised Fault.unknown_wallet, w)
  client_for (some wallet_id) user_id w = wallet_client wallet_id user_id w

  abbrev pub read_from : SecretStorage → UserSecret → Action H (Option String)
  read_from SecretStorage.local s w = (read_local s.value_encrypted, w)
  read_from SecretStorage.wallet s w = then_get s.wallet_path (client_for s.wallet_id s.user_id w)

  unfoldable pub read_value : UserSecret → Action H (Option String)
  unfolding wallet_client
  read_value s w = read_from s.storage s w

  abbrev pub read_row : Option UserSecret → Action H (Option String)
  read_row none w = (ok none, w)
  read_row (some s) w = read_value s w

  unfoldable pub read_secret_by_id : ℕ → ℕ → Action H (Option String)
  unfolding read_value
  read_secret_by_id secret_id user_id w = read_row (get_secret secret_id user_id w.db) w

  -- Whatever is raised is logged and dropped.
  abbrev pub then_delete : Option String → Reply H.Client × World H → World H
  then_delete path (raised e, w) = w
  then_delete none (ok client, w) = w
  then_delete (some path) (ok client, w) =
      let (r, s) = H.delete client path w.vault in record w { vault = s }

  unfoldable pub try_delete_in_wallet : UserSecret → World H → World H
  unfolding wallet_client
  try_delete_in_wallet s w = then_delete s.wallet_path (client_for s.wallet_id s.user_id w)

  abbrev pub purge : SecretStorage → UserSecret → World H → World H
  purge SecretStorage.local s w = w
  purge SecretStorage.wallet s w = try_delete_in_wallet s w

  abbrev pub then_purge : UserSecret → World H → Option Db → Reply Unit × World H
  then_purge s w none = (raised Fault.integrity, w)
  then_purge s w (some db) = (ok tt, purge s.storage s (record w { db = db }))

  -- The row goes before the value.
  unfoldable pub delete_secret : UserSecret → Action H Unit
  unfolding try_delete_in_wallet
  delete_secret s w = then_purge s w (UserSecrets.delete_secret s.id s.user_id w.db)

  unfoldable pub invalidate_wallet : ℕ → World H → World H
  invalidate_wallet wallet_id w = record w { clients = without_client H wallet_id w.clients }

  abbrev pub refused_token : Fault → Fault
  refused_token (Fault.http status) =
      if status == 0 then Fault.wallet_unavailable else Fault.invalid_token
  refused_token Fault.value_error = Fault.invalid_token
  refused_token Fault.type_error = Fault.invalid_token
  refused_token Fault.key_error = Fault.invalid_token
  refused_token e = if is_harpocrate e then Fault.invalid_token else e

  abbrev pub registered : NewWallet → World H → Reply H.Client → Reply ℕ × World H
  registered n w (raised e) = (raised (refused_token e), w)
  registered n w (ok client) =
      let (wallet_id, db) = insert_wallet n w.db in (ok wallet_id, record w { db = db })

  -- The token and the address as the user gives them; the client that checks them is not kept.
  unfoldable pub register_wallet : ℕ → ℕ → String → String → String → Action H ℕ
  register_wallet tenant_id user_id label token api_url w =
      registered
        (record {
          tenant_id = tenant_id;
          user_id = user_id;
          label = label;
          api_token_encrypted = c.encrypt token;
          api_url = api_url;
        })
        w (H.new_client token api_url w.vault)
