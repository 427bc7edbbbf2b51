-- ===== src/Secrets/Strangers.antt =====
-- What services/secret_store.py gives to a user who owns neither the wallet nor the secret.
use roles.Prelude.{
  ℕ, false, nat_eq, some, none, find_where-none, any_where-none, any_where, ◌≡◌, refl,
}
use roles.Outside.{Outside}
use roles.Db.Schema.{Db, UserSecret, SecretStorage}
use roles.Db.UserWallets.{is_wallet_of, get_wallet}
use roles.Secrets.Effects.{Fault, raised, Cipher, Harpocrate, World}
use roles.Secrets.Store.{
  NewValue, wallet_client, create_in_wallet, create_secret, drawn, read_value, try_delete_in_wallet,
}

-- No row of the table under this id is the user's.
abbrev pub IsNotWalletOf : ℕ → ℕ → Db → Type 0
IsNotWalletOf wallet_id user_id db =
    any_where (is_wallet_of wallet_id user_id) db.user_wallets ≡ false

get_wallet-stranger :
    (wallet_id user_id : ℕ) (db : Db)
    → IsNotWalletOf wallet_id user_id db
    → get_wallet wallet_id user_id db ≡ none
unfolding get_wallet
get_wallet-stranger wallet_id user_id db h =
    find_where-none (is_wallet_of wallet_id user_id) db.user_wallets
      (any_where-none (is_wallet_of wallet_id user_id) db.user_wallets h)

module _ (o : Outside) (H : Harpocrate) (c : Cipher) where
  -- Whatever client is cached for the wallet.
  wallet_client-stranger :
      (wallet_id user_id : ℕ) (w : World H)
      → IsNotWalletOf wallet_id user_id w.db
      → wallet_client o H c wallet_id user_id w ≡ (raised Fault.unknown_wallet, w)
  unfolding wallet_client
  wallet_client-stranger wallet_id user_id w h =
      rw (get_wallet-stranger wallet_id user_id w.db h) refl

  -- The row of a secret that lies in this wallet.
  abbrev pub LiesIn : ℕ → UserSecret → Type 0
  LiesIn wallet_id s = (s.storage ≡ SecretStorage.wallet) × (s.wallet_id ≡ some wallet_id)

  create_secret-stranger :
      (wallet_id : ℕ) (n : NewValue) (w : World H)
      → n.wallet_id ≡ some wallet_id
      → IsNotWalletOf wallet_id n.user_id w.db
      → create_secret o H c n w ≡ (raised Fault.unknown_wallet, drawn o H c w)
  unfolding create_secret create_in_wallet
  create_secret-stranger wallet_id n w e h =
      rw (e, wallet_client-stranger wallet_id n.user_id (drawn o H c w) h) refl

  -- With a wallet that is not the user's, whoever uses it already: to store a secret in it raises
  -- UnknownWalletError and leaves all but the drawn id; to read a secret of the user that names the
  -- wallet raises it too and leaves everything; so does the deletion of that secret's value, which
  -- raises nothing.
  pub create_then_read_stranger :
      (wallet_id : ℕ) (n : NewValue) (s : UserSecret) (w : World H)
      → IsNotWalletOf wallet_id n.user_id w.db
      → n.wallet_id ≡ some wallet_id
      → s.user_id ≡ n.user_id
      → LiesIn wallet_id s
      → (create_secret o H c n w ≡ (raised Fault.unknown_wallet, drawn o H c w))
        × (read_value o H c s w ≡ (raised Fault.unknown_wallet, w))
        × (try_delete_in_wallet o H c s w ≡ w)
  unfolding read_value try_delete_in_wallet
  create_then_read_stranger wallet_id n s w h e u l =
      let k = wallet_client-stranger wallet_id s.user_id w (rw u h) in
      (create_secret-stranger wallet_id n w e h, rw (l.0, l.1, k) refl, rw (l.1, k) refl)
