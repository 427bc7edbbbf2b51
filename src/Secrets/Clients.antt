-- ===== src/Secrets/Clients.antt =====
-- What wallet_client of services/secret_store.py leaves behind, with a client and without.
use roles.Prelude.{ℕ, String, nat_eq, beq_refl, Option, some, none, ◌≡◌, refl}
use roles.Outside.{Outside}
use roles.Db.Schema.{UserWallet}
use roles.Db.UserWallets.{get_wallet}
use roles.Secrets.Effects.{Reply, ok, raised, Cipher, Harpocrate, World, cached_client}
use roles.Secrets.Store.{keep_client, connect, cached_or_new, client_of, wallet_client}

module _ (o : Outside) (H : Harpocrate) (c : Cipher) where
  -- The tables and the vault are as before; with a client, the wallet is one that was found, and the
  -- client is kept under its id.
  abbrev pub IsClientOf : ℕ → Option UserWallet → World H → Reply H.Client × World H → Type 0
  IsClientOf wallet_id found w (raised e, w') = w' ≡ w
  IsClientOf wallet_id found w (ok client, w') =
      (w'.db ≡ w.db)
      × (w'.vault ≡ w.vault)
      × (cached_client H wallet_id w'.clients ≡ some client)
      × ((wallet : UserWallet) × (found ≡ some wallet))

  keep_client-IsClientOf :
      (wallet_id : ℕ) (wallet : UserWallet) (r : Reply H.Client) (w : World H)
      → IsClientOf wallet_id (some wallet) w (keep_client o H c wallet_id r w)
  keep_client-IsClientOf wallet_id wallet (raised e) w = refl
  keep_client-IsClientOf wallet_id wallet (ok client) w =
      (refl, refl, rw (beq_refl wallet_id) refl, (wallet, refl))

  connect-IsClientOf :
      (wallet_id : ℕ) (wallet : UserWallet) (token : Option String) (w : World H)
      → IsClientOf wallet_id (some wallet) w (connect o H c wallet_id wallet token w)
  connect-IsClientOf wallet_id wallet none w = refl
  connect-IsClientOf wallet_id wallet (some token) w =
      keep_client-IsClientOf wallet_id wallet (H.new_client token wallet.api_url w.vault) w

  cached_or_new-IsClientOf :
      (wallet_id : ℕ) (wallet : UserWallet) (kept : Option H.Client) (w : World H)
      → cached_client H wallet_id w.clients ≡ kept
      → IsClientOf wallet_id (some wallet) w (cached_or_new o H c wallet_id wallet kept w)
  cached_or_new-IsClientOf wallet_id wallet (some client) w e = (refl, refl, e, (wallet, refl))
  cached_or_new-IsClientOf wallet_id wallet none w e =
      connect-IsClientOf wallet_id wallet (c.decrypt wallet.api_token_encrypted) w

  client_of-IsClientOf :
      (wallet_id : ℕ) (found : Option UserWallet) (w : World H)
      → IsClientOf wallet_id found w (client_of o H c wallet_id found w)
  client_of-IsClientOf wallet_id none w = refl
  client_of-IsClientOf wallet_id (some wallet) w =
      cached_or_new-IsClientOf wallet_id wallet (cached_client H wallet_id w.clients) w refl

  pub wallet_client-IsClientOf :
      (wallet_id user_id : ℕ) (w : World H)
      → IsClientOf wallet_id
          (get_wallet wallet_id user_id w.db)
          w
          (wallet_client o H c wallet_id user_id w)
  unfolding wallet_client
  wallet_client-IsClientOf wallet_id user_id w =
      client_of-IsClientOf wallet_id (get_wallet wallet_id user_id w.db) w

  -- The kept client is given again, whatever became of the rest.
  pub wallet_client-cached :
      (wallet_id user_id : ℕ) (w : World H) {wallet : UserWallet} {client : H.Client}
      → get_wallet wallet_id user_id w.db ≡ some wallet
      → cached_client H wallet_id w.clients ≡ some client
      → wallet_client o H c wallet_id user_id w ≡ (ok client, w)
  unfolding wallet_client
  wallet_client-cached wallet_id user_id w e k = rw (wallet_client, e, k) refl
