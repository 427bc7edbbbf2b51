-- ===== src/Routes/OwnReferences/Handlers.antt =====
-- The handlers of routes/{user_secrets,wallets}.py keep OwnReferences, and what
-- resolve_selected_secret of routes/secret_selection.py answers.
use roles.Prelude.{
  ℕ, String, Bool, true, ◌==◌, nat_eq, ltb, eq_opt, Option, some, none, any_where, find_where_sound,
  ◌≡◌, refl, sym, subst, Bool-cases, inl, inr, arith, eq_of_beq, ◌&&◌, some_inj,
}
use roles.Outside.{Outside}
use roles.Db.Schema.{Db, UserSecret, UserWallet}
use roles.Db.UserWallets.{
  NewWallet, insert_wallet, get_wallet, delete_wallet, count_secrets_for_wallet, is_wallet_of,
}
use roles.Db.UserSecrets.{is_secret_of, get_secret, count_service_references, insert_secret}
use roles.Db.UserSecrets as UserSecrets
use roles.Secrets.Effects.{Reply, ok, raised, Cipher, Harpocrate, World}
use roles.Secrets.Store.{
  create_secret, delete_secret, then_purge, register_wallet, registered, read_value,
  invalidate_wallet, drawn,
}
use roles.Secrets.StoreDb.{read_value-db, purge-db}
use roles.Secrets.CreationDb.{create_secret-IsStep}
use roles.Routes.Answers.{Answer, done, status, crashed, CurrentUser}
use roles.Routes.SecretSelection.{
  SecretKind, is_of_kind, with_read, select_row, resolve_selected_secret,
}
use roles.Routes.UserSecrets as Secrets
use roles.Routes.Wallets as Wallets
use roles.Routes.OwnReferences.{owns, OwnReferences}
use roles.Routes.OwnReferences.SecretWrites.{with_row-OwnReferences, delete_secret-OwnReferences}

module _ (o : Outside) (H : Harpocrate) (c : Cipher) where
  -- The tables are as before; with an answer, the secret is the user's.
  abbrev pub IsSelected : ℕ → ℕ → World H → Answer (UserSecret × String) × World H → Type 0
  IsSelected secret_id user_id w (status n, w') = w'.db ≡ w.db
  IsSelected secret_id user_id w (crashed e, w') = w'.db ≡ w.db
  IsSelected secret_id user_id w (done sv, w') =
      (w'.db ≡ w.db) × (owns w.db.user_secrets user_id (some secret_id) ≡ true)

  with_read-IsSelected :
      (secret_id user_id : ℕ) (w : World H) (s : UserSecret) (r : Reply (Option String) × World H)
      → r.1.db ≡ w.db
      → owns w.db.user_secrets user_id (some secret_id) ≡ true
      → IsSelected secret_id user_id w (with_read o H c s r)
  with_read-IsSelected secret_id user_id w s (raised e, w') k own = k
  with_read-IsSelected secret_id user_id w s (ok none, w') k own = k
  with_read-IsSelected secret_id user_id w s (ok (some v), w') k own = (k, own)

  select_row-IsSelected :
      (secret_id user_id : ℕ) (kind : SecretKind) (w : World H) (found : Option UserSecret)
      → get_secret secret_id user_id w.db ≡ found
      → IsSelected secret_id user_id w (select_row o H c kind found w)
  unfolding get_secret
  select_row-IsSelected secret_id user_id kind w none e = refl
  select_row-IsSelected secret_id user_id kind w (some s) e =
      elim (Bool-cases (is_of_kind kind s.secret_type)) [
        | inr k ↦ rw (IsSelected, k) refl
        | inl k ↦
            rw (IsSelected, k)
              (with_read-IsSelected secret_id user_id w s (read_value o H c s w)
                (read_value-db o H c s w) (rw e refl))
      ]

  pub resolve_selected_secret-IsSelected :
      (secret_id user_id : ℕ) (kind : SecretKind) (w : World H)
      → IsSelected secret_id user_id w (resolve_selected_secret o H c secret_id user_id kind w)
  unfolding resolve_selected_secret
  resolve_selected_secret-IsSelected secret_id user_id kind w =
      select_row-IsSelected secret_id user_id kind w (get_secret secret_id user_id w.db) refl

  then_purge-OwnReferences :
      (s : UserSecret) (w : World H) (r : Option Db)
      → UserSecrets.delete_secret s.id s.user_id w.db ≡ r
      → count_service_references s.id w.db ≡ 0
      → OwnReferences w.db
      → OwnReferences (then_purge o H c s w r).1.db
  then_purge-OwnReferences s w none e z h = h
  then_purge-OwnReferences s w (some db) e z h =
      subst OwnReferences (sym (purge-db o H c s.storage s (record w { db = db })))
        (delete_secret-OwnReferences s.id s.user_id w.db z e h)

  or_crashed-db : (r : Reply Unit × World H) → (Secrets.or_crashed o H c r).1.db ≡ r.1.db
  or_crashed-db (raised e, w) = refl
  or_crashed-db (ok tt, w) = refl

  delete_found-OwnReferences :
      (secret_id user_id : ℕ) (w : World H) (found : Option UserSecret)
      → get_secret secret_id user_id w.db ≡ found
      → OwnReferences w.db
      → OwnReferences (Secrets.delete_found o H c secret_id found w).1.db
  unfolding delete_secret get_secret
  delete_found-OwnReferences secret_id user_id w none e h = h
  delete_found-OwnReferences secret_id user_id w (some s) e h =
      elim (Bool-cases (ltb 0 (count_service_references secret_id w.db))) [
        | inl k ↦ rw (OwnReferences, k) h
        | inr k ↦
            rw (OwnReferences, k)
              (subst OwnReferences (sym (or_crashed-db (delete_secret o H c s w))) (
                then_purge-OwnReferences s w (UserSecrets.delete_secret s.id s.user_id w.db) refl
                  (rw same_id (ground arith)) h))
      ]
    where
      both : (a b : Bool) → (a && b) ≡ true → a ≡ true
      both a b k = ground arith

      same_id : s.id ≡ secret_id
      same_id = eq_of_beq s.id secret_id (
          both (s.id == secret_id) (s.user_id == user_id)
            (find_where_sound (is_secret_of secret_id user_id) w.db.user_secrets e))

  pub delete_secret_endpoint-OwnReferences :
      (secret_id : ℕ) (user : CurrentUser) (w : World H)
      → OwnReferences w.db
      → OwnReferences (Secrets.delete_secret_endpoint o H c secret_id user w).1.db
  unfolding Secrets.delete_secret_endpoint
  delete_secret_endpoint-OwnReferences secret_id user w h =
      delete_found-OwnReferences secret_id user.user_id w (get_secret secret_id user.user_id w.db)
        refl h

  then_get_secret-db :
      (user_id : ℕ) (r : Reply ℕ × World H)
      → (Secrets.then_get_secret o H c user_id r).1.db ≡ r.1.db
  then_get_secret-db user_id (ok id, w) = refl
  then_get_secret-db user_id (raised e, w) = refl

  pub create_secret_endpoint-OwnReferences :
      (r : Secrets.CreateSecretRequest) (user : CurrentUser) (w : World H)
      → OwnReferences w.db
      → OwnReferences (Secrets.create_secret_endpoint o H c r user w).1.db
  unfolding Secrets.create_secret_endpoint
  create_secret_endpoint-OwnReferences r user w h =
      subst OwnReferences
        (sym (
          then_get_secret-db user.user_id (create_secret o H c (Secrets.new_value o H c r user) w)))
        (elim (create_secret-IsStep o H c (Secrets.new_value o H c r user) w) [
          | inl e ↦ subst OwnReferences (sym e) h
          | inr (n, e) ↦
              subst OwnReferences (sym e)
                (with_row-OwnReferences w.db.next_id n (drawn o H c w).db h)
        ])

  then_get_wallet-OwnReferences :
      (user_id : ℕ) (r : Reply ℕ × World H)
      → OwnReferences r.1.db
      → OwnReferences (Wallets.then_get_wallet o H c user_id r).1.db
  then_get_wallet-OwnReferences user_id (ok id, w) h = h
  then_get_wallet-OwnReferences user_id (raised e, w) h = h

  registered-OwnReferences :
      (n : NewWallet) (w : World H) (r : Reply H.Client)
      → OwnReferences w.db
      → OwnReferences (registered o H c n w r).1.db
  unfolding insert_wallet
  registered-OwnReferences n w (raised e) h = h
  registered-OwnReferences n w (ok client) h = h

  pub create_wallet_endpoint-OwnReferences :
      (r : Wallets.CreateWalletRequest) (user : CurrentUser) (w : World H)
      → OwnReferences w.db
      → OwnReferences (Wallets.create_wallet_endpoint o H c r user w).1.db
  unfolding Wallets.create_wallet_endpoint register_wallet
  create_wallet_endpoint-OwnReferences r user w h =
      then_get_wallet-OwnReferences user.user_id
        (register_wallet o H c user.tenant_id user.user_id r.label r.api_token r.api_url w)
        (registered-OwnReferences
          (record {
            tenant_id = user.tenant_id;
            user_id = user.user_id;
            label = r.label;
            api_token_encrypted = c.encrypt r.api_token;
            api_url = r.api_url;
          })
          w (H.new_client r.api_token r.api_url w.vault) h)

  then_invalidate-OwnReferences :
      (wallet_id user_id : ℕ) (w : World H) (r : Option Db)
      → delete_wallet wallet_id user_id w.db ≡ r
      → OwnReferences w.db
      → OwnReferences (Wallets.then_invalidate o H c wallet_id w r).1.db
  unfolding delete_wallet invalidate_wallet
  then_invalidate-OwnReferences wallet_id user_id w none e h = h
  then_invalidate-OwnReferences wallet_id user_id w (some db) e h =
      elim (Bool-cases (
        any_where (is_wallet_of wallet_id user_id) w.db.user_wallets
        && any_where (λ s. eq_opt s.wallet_id wallet_id) w.db.user_secrets)) [
          | inl k ↦ cc (rw k at e)
          | inr k ↦ subst OwnReferences (some_inj (rw k at e)) h
        ]

  wallet_found-OwnReferences :
      (wallet_id user_id : ℕ) (w : World H) (found : Option UserWallet)
      → OwnReferences w.db
      → OwnReferences (Wallets.delete_found o H c wallet_id user_id found w).1.db
  wallet_found-OwnReferences wallet_id user_id w none h = h
  wallet_found-OwnReferences wallet_id user_id w (some x) h =
      elim (Bool-cases (ltb 0 (count_secrets_for_wallet wallet_id w.db))) [
        | inl k ↦ rw (OwnReferences, k) h
        | inr k ↦
            rw (OwnReferences, k)
              (then_invalidate-OwnReferences wallet_id user_id w
                (delete_wallet wallet_id user_id w.db) refl h)
      ]

  pub delete_wallet_endpoint-OwnReferences :
      (wallet_id : ℕ) (user : CurrentUser) (w : World H)
      → OwnReferences w.db
      → OwnReferences (Wallets.delete_wallet_endpoint o H c wallet_id user w).1.db
  unfolding Wallets.delete_wallet_endpoint
  delete_wallet_endpoint-OwnReferences wallet_id user w =
      wallet_found-OwnReferences wallet_id user.user_id w (get_wallet wallet_id user.user_id w.db)
