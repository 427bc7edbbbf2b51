-- ===== src/Secrets/VaultWrites.antt =====
-- The writing of a value in the vault, by create_secret of services/secret_store.py.
use roles.Prelude.{ℕ, String, nat_eq, some, ◌≡◌, refl, ap, ◌∙◌, Bool-cases, inl, inr}
use roles.Outside.{Outside}
use roles.Db.Schema.{UserWallet}
use roles.Db.UserWallets.{get_wallet}
use roles.Secrets.Effects.{
  Reply, ok, raised, Cipher, IsCipher, Harpocrate, IsVault, World, cached_client, is_missing,
}
use roles.Secrets.Store.{
  at_vault, or_create, vault_upsert, then_client, then_upsert, as_unavailable,
}
use roles.Secrets.Clients.{IsClientOf}

module _ (o : Outside) (H : Harpocrate) (c : Cipher) where
  -- The value is in the vault, and the rest is as before.
  abbrev pub IsStored : H.Client → String → String → World H → Reply Unit × World H → Type 0
  IsStored client path value w (raised e, w') = w'.db ≡ w.db
  IsStored client path value w (ok done, w') =
      (w'.db ≡ w.db) × (w'.clients ≡ w.clients) × (H.get client path w'.vault ≡ ok value)

  -- What the `try` of _create_in_wallet comes to: the client of the user's wallet, kept, and the
  -- value under the path.
  abbrev pub IsReady : ℕ → ℕ → String → String → World H → Reply H.Client × World H → Type 0
  IsReady wallet_id user_id path value w (raised e, w') = w'.db ≡ w.db
  IsReady wallet_id user_id path value w (ok client, w') =
      (w'.db ≡ w.db)
      × (cached_client H wallet_id w'.clients ≡ some client)
      × (H.get client path w'.vault ≡ ok value)
      × ((wallet : UserWallet) × (get_wallet wallet_id user_id w.db ≡ some wallet))

module _ (o : Outside) (H : Harpocrate) (c : Cipher) (lawful : IsVault H) (sound : IsCipher c) where
  at_vault-IsStored :
      (client : H.Client) (path value : String) (w : World H) (r : Reply Unit × H.State)
      → (r.0 ≡ ok tt → H.get client path r.1 ≡ ok value)
      → IsStored o H c client path value w (at_vault o H c w r)
  at_vault-IsStored client path value w (raised e, s) h = refl
  at_vault-IsStored client path value w (ok tt, s) h = (refl, refl, h refl)

  or_create-IsStored :
      (client : H.Client) (path value : String) (w : World H) (r : Reply Unit × H.State)
      → H.put client path value w.vault ≡ r
      → IsStored o H c client path value w (or_create o H c client path value w r)
  or_create-IsStored client path value w (ok tt, s) h =
      (refl, refl, lawful.get-put client path value w.vault s h)
  or_create-IsStored client path value w (raised e, s) h = elim (Bool-cases (is_missing e)) [
    | inr m ↦ rw (IsStored, m) refl
    | inl m ↦
        rw (IsStored, m)
          (at_vault-IsStored client path value w (H.create client path value s) (λ r.
            lawful.get-create client path value s (H.create client path value s).1
              (ap (λ x. (x, (H.create client path value s).1)) r)))
  ]

  then_client-IsReady :
      (wallet_id user_id : ℕ) (path value : String) (client : H.Client) (w w₁ : World H)
      (r : Reply Unit × World H)
      → IsClientOf o H c wallet_id (get_wallet wallet_id user_id w.db) w (ok client, w₁)
      → IsStored o H c client path value w₁ r
      → IsReady o H c wallet_id user_id path value w (then_client o H c client r)
  then_client-IsReady wallet_id user_id path value client w w₁ (raised e, w₂) k s = s ∙ k.0
  then_client-IsReady wallet_id user_id path value client w w₁ (ok done, w₂) k s =
      (s.0 ∙ k.0, rw s.1 k.2, s.2, k.3)

  pub then_upsert-IsReady :
      (wallet_id user_id : ℕ) (path value : String) (w : World H) (r : Reply H.Client × World H)
      → IsClientOf o H c wallet_id (get_wallet wallet_id user_id w.db) w r
      → IsReady o H c wallet_id user_id path value w
          (as_unavailable o H c (then_upsert o H c path value r))
  unfolding vault_upsert
  then_upsert-IsReady wallet_id user_id path value w (raised e, w₁) k = ap (λ x. x.db) k
  then_upsert-IsReady wallet_id user_id path value w (ok client, w₁) k =
      unavailable
        (then_client o H c client
          (or_create o H c client path value w₁ (H.put client path value w₁.vault)))
        (then_client-IsReady wallet_id user_id path value client w w₁
          (or_create o H c client path value w₁ (H.put client path value w₁.vault)) k
          (or_create-IsStored client path value w₁ (H.put client path value w₁.vault) refl))
    where
      unavailable :
          (r : Reply H.Client × World H)
          → IsReady o H c wallet_id user_id path value w r
          → IsReady o H c wallet_id user_id path value w (as_unavailable o H c r)
      unavailable (ok x, w₂) h = h
      unavailable (raised e, w₂) h = h
