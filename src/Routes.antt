-- ===== src/Routes.antt =====
-- backend/src/role_builder/routes: the handlers of the service's secrets, wallets, keys and credentials.
pub mod Answers
pub mod SecretSelection
pub mod UserSecrets
pub mod Wallets
pub mod TranscriptionKeys
pub mod Credentials
pub mod Deletion
pub mod OwnReferences
