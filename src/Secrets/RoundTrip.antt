-- ===== src/Secrets/RoundTrip.antt =====
-- A secret that services/secret_store.py stores is the secret it reads.
use roles.Prelude.{
  ℕ, String, Bool, true, false, ◌&&◌, ◌||◌, not, is_some, ◌==◌, nat_eq, Option, some, none,
  any_where, ◌≡◌, refl, ap, ◌∙◌, arith,
}
use roles.Outside.{Outside}
use roles.Db.Schema.{Db, UserWallet}
use roles.Db.UserWallets.{get_wallet}
use roles.Db.UserSecrets.{is_secret_type, get_secret, insert_secret}
use roles.Db.UserSecrets.Insertion.{
  with_row, IsInserted, insert_secret-IsInserted, get_secret-with_row,
}
use roles.Secrets.Effects.{
  Reply, ok, raised, Cipher, IsCipher, Harpocrate, IsVault, World, cached_client,
}
use roles.Secrets.Store.{
  NewValue, wallet_client, then_upsert, as_unavailable, compensated, then_insert, wallet_secret,
  secret_path, create_in_wallet, local_secret, inserted, create_local, drawn, create_in,
  create_secret, read_value, read_secret_by_id,
}
use roles.Secrets.Clients.{wallet_client-IsClientOf, wallet_client-cached}
use roles.Secrets.VaultWrites.{IsReady, then_upsert-IsReady}

-- No secret has the id that is drawn next.
abbrev pub IsFresh : Db → Type 0
IsFresh db = any_where (λ s. s.id == db.next_id) db.user_secrets ≡ false

module _ (o : Outside) (H : Harpocrate) (c : Cipher) where
  -- The secret can be read at once, or nothing was stored but the draw of the id; a value for the
  -- database is refused for its type alone.
  abbrev pub IsCreated : NewValue → World H → Reply ℕ × World H → Type 0
  IsCreated n w (raised e, w') =
      (w'.db ≡ (drawn o H c w).db)
      × ((is_some n.wallet_id || not (is_secret_type n.secret_type)) ≡ true)
  IsCreated n w (ok secret_id, w') =
      (secret_id ≡ w.db.next_id)
      × (read_secret_by_id o H c secret_id n.user_id w' ≡ (ok (some n.value), w'))

module _ (o : Outside) (H : Harpocrate) (c : Cipher) (lawful : IsVault H) (sound : IsCipher c) where
  -- The row of a secret for the database, read by its owner.
  read_local_row :
      (n : NewValue) (id : ℕ) (d : Db) (w : World H)
      → any_where (λ s. s.id == id) d.user_secrets ≡ false
      → w.db ≡ with_row id (local_secret o H c n) d
      → read_secret_by_id o H c id n.user_id w ≡ (ok (some n.value), w)
  unfolding read_secret_by_id read_value
  read_local_row n id d w f e =
      rw (e, get_secret-with_row id (local_secret o H c n) d f, sound.decrypt-encrypt n.value) refl

  -- The row of a secret for a wallet, read with the client that is kept.
  read_wallet_row :
      (n : NewValue) (id wallet_id : ℕ) (path : String) (d : Db) (w : World H) {wallet : UserWallet}
      {client : H.Client}
      → any_where (λ s. s.id == id) d.user_secrets ≡ false
      → w.db ≡ with_row id (wallet_secret o H c n wallet_id path) d
      → get_wallet wallet_id n.user_id d ≡ some wallet
      → cached_client H wallet_id w.clients ≡ some client
      → H.get client path w.vault ≡ ok n.value
      → read_secret_by_id o H c id n.user_id w ≡ (ok (some n.value), w)
  unfolding read_secret_by_id read_value get_wallet
  read_wallet_row n id wallet_id path d w {wallet} f e g k v =
      rw
        (
          ap (get_secret id n.user_id) e,
          get_secret-with_row id (wallet_secret o H c n wallet_id path) d f,
          wallet_client-cached o H c wallet_id n.user_id w {wallet = wallet} (rw e g) k,
          v,
        )
        refl

  inserted-IsCreated :
      (n : NewValue) (w : World H) (r : Option Db)
      → IsFresh w.db
      → IsInserted w.db.next_id (local_secret o H c n) (drawn o H c w).db r
      → IsCreated o H c n w (inserted o H c w.db.next_id (drawn o H c w) r)
  inserted-IsCreated n w none f i =
      (refl, refused (is_some n.wallet_id) (is_secret_type n.secret_type) i)
    where
      refused : (a b : Bool) → (b && true) ≡ false → (a || not b) ≡ true
      refused a b h = ground arith
  inserted-IsCreated n w (some db) f i =
      (refl, read_local_row n w.db.next_id (drawn o H c w).db (record w { db = db }) f i)

  compensated-IsCreated :
      (n : NewValue) (w w₂ : World H) (wallet_id : ℕ) (path : String) (client : H.Client)
      (r : Option Db)
      → IsFresh w.db
      → n.wallet_id ≡ some wallet_id
      → IsReady o H c wallet_id n.user_id path n.value (drawn o H c w) (ok client, w₂)
      → IsInserted w.db.next_id (wallet_secret o H c n wallet_id path) w₂.db r
      → IsCreated o H c n w (compensated o H c client path w.db.next_id w₂ r)
  compensated-IsCreated n w w₂ wallet_id path client none f l k i = (k.0, rw l refl)
  compensated-IsCreated n w w₂ wallet_id path client (some db) f l k i = (
    refl,
    read_wallet_row n w.db.next_id wallet_id path (drawn o H c w).db (record w₂ { db = db }) f
        (i ∙ ap (with_row w.db.next_id (wallet_secret o H c n wallet_id path)) k.0) k.3.1 k.1 k.2,
  )

  then_insert-IsCreated :
      (n : NewValue) (w : World H) (wallet_id : ℕ) (path : String) (r : Reply H.Client × World H)
      → IsFresh w.db
      → n.wallet_id ≡ some wallet_id
      → IsReady o H c wallet_id n.user_id path n.value (drawn o H c w) r
      → IsCreated o H c n w (then_insert o H c n w.db.next_id wallet_id path r)
  then_insert-IsCreated n w wallet_id path (raised e, w₂) f l k = (k, rw l refl)
  then_insert-IsCreated n w wallet_id path (ok client, w₂) f l k =
      compensated-IsCreated n w w₂ wallet_id path client
        (insert_secret w.db.next_id (wallet_secret o H c n wallet_id path) w₂.db) f l k
        (insert_secret-IsInserted w.db.next_id (wallet_secret o H c n wallet_id path) w₂.db)

  create_in-IsCreated :
      (n : NewValue) (w : World H) (l : Option ℕ)
      → IsFresh w.db
      → n.wallet_id ≡ l
      → IsCreated o H c n w (create_in o H c l n w.db.next_id (drawn o H c w))
  unfolding create_local create_in_wallet
  create_in-IsCreated n w none f e =
      inserted-IsCreated n w (insert_secret w.db.next_id (local_secret o H c n) (drawn o H c w).db)
        f (insert_secret-IsInserted w.db.next_id (local_secret o H c n) (drawn o H c w).db)
  create_in-IsCreated n w (some wallet_id) f e =
      let path = secret_path o H c n.secret_type w.db.next_id in
      let found = wallet_client o H c wallet_id n.user_id (drawn o H c w) in
      then_insert-IsCreated n w wallet_id path
        (as_unavailable o H c (then_upsert o H c path n.value found)) f e
        (then_upsert-IsReady o H c lawful sound wallet_id n.user_id path n.value (drawn o H c w)
          found (wallet_client-IsClientOf o H c wallet_id n.user_id (drawn o H c w)))

  -- create_secret, for the database or for a wallet: either it answers the drawn id, and the owner
  -- reads by it the value that was given; or it raises, and no table has changed. For the database
  -- it raises only where the type of the secret is not one that the column admits. The vault is
  -- assumed to answer what was put, Fernet to decrypt what it encrypted, and the id to be new.
  pub create_secret-IsCreated :
      (n : NewValue) (w : World H) → IsFresh w.db → IsCreated o H c n w (create_secret o H c n w)
  unfolding create_secret
  create_secret-IsCreated n w f = create_in-IsCreated n w n.wallet_id f refl
