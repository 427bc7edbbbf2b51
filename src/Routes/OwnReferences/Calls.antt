-- ===== src/Routes/OwnReferences/Calls.antt =====
-- The handlers of the routes on secrets, wallets, keys and credentials, as calls that follow one
-- another.
use roles.Prelude.{ℕ, Option}
use roles.Outside.{Outside}
use roles.Secrets.Effects.{Cipher, Harpocrate, World}
use roles.Secrets.Providers.{Providers}
use roles.Cookies.Validator.{Readers}
use roles.Routes.Answers.{CurrentUser}
use roles.Routes.UserSecrets as Secrets
use roles.Routes.Wallets as Wallets
use roles.Routes.TranscriptionKeys as Keys
use roles.Routes.Credentials as Credentials
use roles.Routes.OwnReferences.{OwnReferences}
use roles.Routes.OwnReferences.Handlers.{
  create_secret_endpoint-OwnReferences, delete_secret_endpoint-OwnReferences,
  create_wallet_endpoint-OwnReferences, delete_wallet_endpoint-OwnReferences,
}
use roles.Routes.OwnReferences.KeyHandlers.{
  create_key_endpoint-OwnReferences, update_key_endpoint-OwnReferences,
  update_quota_endpoint-OwnReferences, test_key_endpoint-OwnReferences,
  delete_key_endpoint-OwnReferences,
}
use roles.Routes.OwnReferences.CredentialHandlers.{
  create_credential_endpoint-OwnReferences, test_credential_endpoint-OwnReferences,
  delete_credential_endpoint-OwnReferences,
}

-- A request of a user, with its arguments.
pub data Call : Type 0 where
  create_secret : Secrets.CreateSecretRequest → Call
  create_wallet : Wallets.CreateWalletRequest → Call
  delete_secret delete_wallet : ℕ → Call
  create_key : Keys.CreateKeyRequest → Call
  update_key : ℕ → Keys.UpdateKeyRequest → Call
  update_quota : ℕ → Option ℕ → Call
  test_key delete_key : ℕ → Call
  create_credential test_credential delete_credential : ℕ → Call

module _ (o : Outside) (H : Harpocrate) (c : Cipher) (p : Providers) (r : Readers) where
  -- The world that the handler leaves, whatever it answers.
  unfoldable pub handle : Call → CurrentUser → World H → World H
  handle (Call.create_secret q) user w = (Secrets.create_secret_endpoint o H c q user w).1
  handle (Call.create_wallet q) user w = (Wallets.create_wallet_endpoint o H c q user w).1
  handle (Call.delete_secret id) user w = (Secrets.delete_secret_endpoint o H c id user w).1
  handle (Call.delete_wallet id) user w = (Wallets.delete_wallet_endpoint o H c id user w).1
  handle (Call.create_key q) user w = (Keys.create_key_endpoint o H c p q user w).1
  handle (Call.update_key id q) user w = (Keys.update_key_endpoint o H c p id q user w).1
  handle (Call.update_quota id cap) user w = (Keys.update_quota_endpoint o H c p id cap user w).1
  handle (Call.test_key id) user w = (Keys.test_key_endpoint o H c p id user w).1
  handle (Call.delete_key id) user w = (Keys.delete_key_endpoint o H c p id user w).1
  handle (Call.create_credential id) user w =
      (Credentials.create_credential_endpoint o H c r id user w).1
  handle (Call.test_credential id) user w =
      (Credentials.test_credential_endpoint o H c r id user w).1
  handle (Call.delete_credential id) user w =
      (Credentials.delete_credential_endpoint o H c r id user w).1

  handle-OwnReferences :
      (call : Call) (user : CurrentUser) (w : World H)
      → OwnReferences w.db
      → OwnReferences (handle call user w).db
  unfolding handle
  handle-OwnReferences (Call.create_secret q) = create_secret_endpoint-OwnReferences o H c q
  handle-OwnReferences (Call.create_wallet q) = create_wallet_endpoint-OwnReferences o H c q
  handle-OwnReferences (Call.delete_secret id) = delete_secret_endpoint-OwnReferences o H c id
  handle-OwnReferences (Call.delete_wallet id) = delete_wallet_endpoint-OwnReferences o H c id
  handle-OwnReferences (Call.create_key q) = create_key_endpoint-OwnReferences o H c p q
  handle-OwnReferences (Call.update_key id q) = update_key_endpoint-OwnReferences o H c p id q
  handle-OwnReferences (Call.update_quota id cap) =
      update_quota_endpoint-OwnReferences o H c p id cap
  handle-OwnReferences (Call.test_key id) = test_key_endpoint-OwnReferences o H c p id
  handle-OwnReferences (Call.delete_key id) = delete_key_endpoint-OwnReferences o H c p id
  handle-OwnReferences (Call.create_credential id) =
      create_credential_endpoint-OwnReferences o H c r id
  handle-OwnReferences (Call.test_credential id) = test_credential_endpoint-OwnReferences o H c r id
  handle-OwnReferences (Call.delete_credential id) =
      delete_credential_endpoint-OwnReferences o H c r id

  -- A world that calls of users lead to, one after the other.
  pub data Reach (start : World H) : World H → Type 0 where
    here : Reach start start
    step :
        {w : World H} (call : Call) (user : CurrentUser)
        → Reach start w
        → Reach start (handle call user w)

  -- However many requests of whichever users are handled, and whatever the vault, the providers and
  -- the cookies make of them: if at first every key and every credential referred to a secret of its
  -- own user, then every one does after them.
  pub Reach-OwnReferences :
      {start w : World H} → Reach start w → OwnReferences start.db → OwnReferences w.db
  Reach-OwnReferences Reach.here h = h
  Reach-OwnReferences (Reach.step {w = w} call user path) h =
      handle-OwnReferences call user w (Reach-OwnReferences path h)
