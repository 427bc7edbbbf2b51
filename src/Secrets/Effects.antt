-- ===== src/Secrets/Effects.antt =====
-- What services/secret_store.py works on: the tables, the wallets' vault (harpocrate) and the clients
-- it keeps. A call answers or raises, and leaves the world as it then is.
use roles.Prelude.{
  ℕ, String, Bool, true, false, ◌==◌, nat_eq, if◌then◌else◌, Option, some, none, List, [], ◌∷◌, ◌≡◌,
}
use roles.Db.Schema.{Db}

-- The exceptions that the code tells apart: `not_found` and `http` are of HarpocrateError, as is
-- `harpocrate`, any other of them.
pub data Fault : Type 0 where
  not_found harpocrate value_error decrypt : Fault
  http : ℕ → Fault
  unknown_wallet invalid_token wallet_unavailable integrity type_error key_error other : Fault

pub data Reply (A : Type 0) : Type 0 where
  ok : A → Reply A
  raised : Fault → Reply A

-- services/secret_cipher.py over Fernet; `none` is SecretDecryptError.
pub record Cipher : Type 0 where
  pub encrypt : String → String
  pub decrypt : String → Option String

-- What is decrypted is what was encrypted.
pub record IsCipher (c : Cipher) : Type 0 where
  pub decrypt-encrypt : (v : String) → c.decrypt (c.encrypt v) ≡ some v

-- The SDK: a client from a token and an address, and the four calls on its `secrets`.
pub record Harpocrate : Type 1 where
  pub State : Type 0
  pub Client : Type 0
  pub new_client : String → String → State → Reply Client
  pub get : Client → String → State → Reply String
  pub put : Client → String → String → State → Reply Unit × State
  pub create : Client → String → String → State → Reply Unit × State
  pub delete : Client → String → State → Reply Unit × State

-- A value that put or create has stored is the value that get reads.
pub record IsVault (H : Harpocrate) : Type 0 where
  pub get-put :
      (c : H.Client) (path value : String) (s s' : H.State)
      → H.put c path value s ≡ (ok tt, s')
      → H.get c path s' ≡ ok value
  pub get-create :
      (c : H.Client) (path value : String) (s s' : H.State)
      → H.create c path value s ≡ (ok tt, s')
      → H.get c path s' ≡ ok value

module _ (H : Harpocrate) where
  pub record Cached : Type 0 where
    pub wallet_id : ℕ
    pub client : H.Client

  pub record World : Type 0 where
    pub db : Db
    pub clients : List Cached
    pub vault : H.State

  -- An action answers or raises, and both leave a world.
  abbrev pub Action : Type 0 → Type 0
  Action A = World → Reply A × World

  -- self._clients.get(wallet_id)
  abbrev pub cached_client : ℕ → List Cached → Option H.Client
  cached_client wallet_id [] = none
  cached_client wallet_id (e ∷ es) =
      if e.wallet_id == wallet_id then some e.client else cached_client wallet_id es

  -- self._clients.pop(wallet_id, None)
  abbrev pub without_client : ℕ → List Cached → List Cached
  without_client wallet_id [] = []
  without_client wallet_id (e ∷ es) =
      if e.wallet_id == wallet_id
      then without_client wallet_id es
      else e ∷ without_client wallet_id es

-- except SecretNotFound
abbrev pub is_missing : Fault → Bool
is_missing Fault.not_found = true
is_missing _ = false

-- except HarpocrateError
abbrev pub is_harpocrate : Fault → Bool
is_harpocrate Fault.not_found = true
is_harpocrate Fault.harpocrate = true
is_harpocrate (Fault.http status) = true
is_harpocrate _ = false

-- except (HarpocrateError, SecretDecryptError)
abbrev pub is_inaccessible : Fault → Bool
is_inaccessible Fault.decrypt = true
is_inaccessible e = is_harpocrate e
