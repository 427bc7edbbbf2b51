-- ===== src/Secrets.antt =====
-- The secrets of a user, in the database or in a wallet, and the routes on them:
-- backend/src/role_builder/services/secret_store.py and routes/.
pub mod Effects
pub mod Store
pub mod Clients
pub mod VaultWrites
pub mod RoundTrip
pub mod Strangers
pub mod StoreDb
pub mod CreationDb
pub mod Providers
pub mod CreditMonitor
