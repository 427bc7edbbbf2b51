-- ===== src/Routes/OwnReferences.antt =====
-- Every key and every credential refers to a secret of its own user: the statement, and the
-- statements on tables that keep it.
pub mod SecretWrites
pub mod Writes
pub mod Handlers
pub mod KeyHandlers
pub mod CredentialHandlers
pub mod Calls
use roles.Prelude.{ℕ, Bool, true, is_some, Option, some, none, List, find_where, All, ◌≡◌}
use roles.Db.Schema.{Db, UserSecret, TranscriptionKey, Credential}
use roles.Db.UserSecrets.{is_secret_of}

abbrev pub owns : List UserSecret → ℕ → Option ℕ → Bool
owns secrets user_id none = true
owns secrets user_id (some secret_id) =
    is_some (find_where (is_secret_of secret_id user_id) secrets)

abbrev pub KeysOwn : List UserSecret → List TranscriptionKey → Type 0
KeysOwn secrets = All (λ k. owns secrets k.user_id k.secret_id ≡ true)

abbrev pub CredentialsOwn : List UserSecret → List Credential → Type 0
CredentialsOwn secrets = All (λ x. owns secrets x.user_id x.secret_id ≡ true)

abbrev pub OwnReferences : Db → Type 0
OwnReferences db =
    KeysOwn db.user_secrets db.transcription_keys × CredentialsOwn db.user_secrets db.credentials
