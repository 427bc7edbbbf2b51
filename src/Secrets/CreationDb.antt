-- ===== src/Secrets/CreationDb.antt =====
-- What create_secret of services/secret_store.py writes in the tables.
use roles.Prelude.{ℕ, String, Bool-cases, Option, some, none, ◌≡◌, ◌⊎◌, inl, inr, refl, ◌∙◌, subst}
use roles.Outside.{Outside}
use roles.Db.Schema.{Db}
use roles.Db.UserSecrets.{NewSecret, insert_secret}
use roles.Db.UserSecrets.Insertion.{with_row, IsInserted, insert_secret-IsInserted}
use roles.Secrets.Effects.{Reply, ok, raised, Cipher, Harpocrate, World, is_missing}
use roles.Secrets.Store.{
  NewValue, wallet_client, or_create, at_vault, vault_upsert, then_client, then_upsert,
  as_unavailable, compensated, wallet_secret, then_insert, secret_path, create_in_wallet,
  local_secret, inserted, create_local, drawn, create_in, create_secret,
}
use roles.Secrets.StoreDb.{wallet_client-db}

module _ (o : Outside) (H : Harpocrate) (c : Cipher) where
  at_vault-db : (w : World H) (r : Reply Unit × H.State) → (at_vault o H c w r).1.db ≡ w.db
  at_vault-db w (r, s) = refl

  or_create-db :
      (client : H.Client) (path value : String) (w : World H) (r : Reply Unit × H.State)
      → (or_create o H c client path value w r).1.db ≡ w.db
  or_create-db client path value w (ok tt, s) = refl
  or_create-db client path value w (raised e, s) = elim (Bool-cases (is_missing e)) [
    | inr m ↦ rw m refl
    | inl m ↦ rw m (at_vault-db w (H.create client path value s))
  ]

  then_client-db :
      (client : H.Client) (r : Reply Unit × World H) → (then_client o H c client r).1.db ≡ r.1.db
  then_client-db client (ok tt, w) = refl
  then_client-db client (raised e, w) = refl

  then_upsert-db :
      (path value : String) (r : Reply H.Client × World H)
      → (then_upsert o H c path value r).1.db ≡ r.1.db
  unfolding vault_upsert
  then_upsert-db path value (raised e, w) = refl
  then_upsert-db path value (ok client, w) =
      then_client-db client (or_create o H c client path value w (H.put client path value w.vault))
      ∙ or_create-db client path value w (H.put client path value w.vault)

  as_unavailable-db : (r : Reply H.Client × World H) → (as_unavailable o H c r).1.db ≡ r.1.db
  as_unavailable-db (ok client, w) = refl
  as_unavailable-db (raised e, w) = refl

  -- The tables are as before, but for a new secret at most.
  abbrev pub IsStep : Db → ℕ → Db → Type 0
  IsStep before id after = (after ≡ before) ⊎ ((n : NewSecret) × (after ≡ with_row id n before))

  compensated-IsStep :
      (client : H.Client) (path : String) (id : ℕ) (n : NewSecret) (w : World H) (r : Option Db)
      → IsInserted id n w.db r
      → IsStep w.db id (compensated o H c client path id w r).1.db
  compensated-IsStep client path id n w none i = inl refl
  compensated-IsStep client path id n w (some db) i = inr (n, i)

  then_insert-IsStep :
      (n : NewValue) (id wallet_id : ℕ) (path : String) (before : Db) (r : Reply H.Client × World H)
      → r.1.db ≡ before
      → IsStep before id (then_insert o H c n id wallet_id path r).1.db
  then_insert-IsStep n id wallet_id path before (raised e, w) k = inl k
  then_insert-IsStep n id wallet_id path before (ok client, w) k =
      subst (λ d. IsStep d id (then_insert o H c n id wallet_id path (ok client, w)).1.db) k
        (compensated-IsStep client path id (wallet_secret o H c n wallet_id path) w
          (insert_secret id (wallet_secret o H c n wallet_id path) w.db)
          (insert_secret-IsInserted id (wallet_secret o H c n wallet_id path) w.db))

  inserted-IsStep :
      (id : ℕ) (n : NewSecret) (w : World H) (r : Option Db)
      → IsInserted id n w.db r
      → IsStep w.db id (inserted o H c id w r).1.db
  inserted-IsStep id n w none i = inl refl
  inserted-IsStep id n w (some db) i = inr (n, i)

  create_in-IsStep :
      (l : Option ℕ) (n : NewValue) (id : ℕ) (w : World H)
      → IsStep w.db id (create_in o H c l n id w).1.db
  unfolding create_local create_in_wallet
  create_in-IsStep none n id w =
      inserted-IsStep id (local_secret o H c n) w (insert_secret id (local_secret o H c n) w.db)
        (insert_secret-IsInserted id (local_secret o H c n) w.db)
  create_in-IsStep (some wallet_id) n id w =
      let path = secret_path o H c n.secret_type id in
      let found = wallet_client o H c wallet_id n.user_id w in
      then_insert-IsStep n id wallet_id path w.db
        (as_unavailable o H c (then_upsert o H c path n.value found))
        (as_unavailable-db (then_upsert o H c path n.value found)
          ∙ then_upsert-db path n.value found
          ∙ wallet_client-db o H c wallet_id n.user_id w)

  pub create_secret-IsStep :
      (n : NewValue) (w : World H)
      → IsStep (drawn o H c w).db w.db.next_id (create_secret o H c n w).1.db
  unfolding create_secret
  create_secret-IsStep n w = create_in-IsStep n.wallet_id n w.db.next_id (drawn o H c w)
