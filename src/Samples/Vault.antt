-- ===== src/Samples/Vault.antt =====
-- A vault that is a list of values, and what else the routes on secrets work with.
use roles.Prelude.{
  ℕ, String, ◌==◌, string_eq, beq_refl, if◌then◌else◌, any_where, Option, some, none, List, [], ◌∷◌,
  Bool-cases, inl, inr, ◌≡◌, refl, ap, subst,
}
use roles.Db.Schema.{Amount, SecretStorage, UserSecret, UserWallet}
use roles.Secrets.Effects.{Fault, Reply, ok, raised, Cipher, IsCipher, Harpocrate, IsVault, World}
use roles.Secrets.Store.{NewValue}
use roles.Secrets.Providers.{Providers, Response}
use roles.Cookies.Texts.{Text, codes, text_beq}
use roles.Cookies.Validator.{Readers}
use roles.Routes.Answers.{CurrentUser}
use roles.Samples.{db}
use roles.Samples.Intake.{key}

pub record Kept : Type 0 where
  pub path : String
  pub value : String

abbrev lookup : String → List Kept → Reply String
lookup path [] = raised Fault.not_found
lookup path (k ∷ ks) = if k.path == path then ok k.value else lookup path ks

abbrev put_in : String → String → List Kept → Reply Unit × List Kept
put_in path value s =
    if any_where (λ k. k.path == path) s
    then (ok tt, record { path = path; value = value } ∷ s)
    else (raised Fault.not_found, s)

abbrev pub vault : Harpocrate
vault = record {
  State = List Kept;
  Client = String;
  new_client = λ token url s. ok token;
  get = λ client path s. lookup path s;
  put = λ client path value s. put_in path value s;
  create = λ client path value s. (ok tt, record { path = path; value = value } ∷ s);
  delete = λ client path s. (ok tt, s);
}

get_of_put :
    (path value : String) (s s' : List Kept)
    → put_in path value s ≡ (ok tt, s')
    → lookup path s' ≡ ok value
get_of_put path value s s' e = elim (Bool-cases (any_where (λ k. k.path == path) s)) [
  | inr h ↦ cc (rw h at e)
  | inl h ↦
      subst (λ t. lookup path t ≡ ok value) (ap (λ x. x.1) (rw h at e)) (rw (beq_refl path) refl)
]

get_of_create :
    (path value : String) (s s' : List Kept)
    → ◌≡◌ {A = Reply Unit × List Kept}
        (ok tt, record { path = path; value = value } ∷ s)
        (ok tt, s')
    → lookup path s' ≡ ok value
get_of_create path value s s' e =
    subst (λ t. lookup path t ≡ ok value) (ap (λ x. x.1) e) (rw (beq_refl path) refl)

pub vault-IsVault : IsVault vault
vault-IsVault = record {
  get-put = λ client path value s s' e. get_of_put path value s s' e;
  get-create = λ client path value s s' e. get_of_create path value s s' e;
}

abbrev pub cipher : Cipher
cipher = record { encrypt = λ v. v; decrypt = λ v. some v }

pub cipher-IsCipher : IsCipher cipher
cipher-IsCipher = record { decrypt-encrypt = λ v. refl }

abbrev pub wallet : UserWallet
wallet = record {
  id = 81;
  tenant_id = 9;
  user_id = 7;
  label = "mine";
  api_token_encrypted = "token";
  api_url = "https://vault.example.org";
  created_at = 1;
}

abbrev pub secret : UserSecret
secret = record {
  id = 62;
  tenant_id = 9;
  user_id = 7;
  secret_type = "deepgram";
  label = "key";
  storage = SecretStorage.local;
  value_encrypted = some "value";
  wallet_id = none;
  wallet_path = none;
  created_at = 1;
}

abbrev pub world : World vault
world = record {
  db = record db {
    user_wallets = wallet ∷ [];
    user_secrets = secret ∷ [];
    transcription_keys = record key { provider = "deepgram" } ∷ [];
  };
  clients = [];
  vault = [];
}

abbrev pub value_for : ℕ → NewValue
value_for user_id = record {
  tenant_id = 9;
  user_id = user_id;
  secret_type = "deepgram";
  label = "new";
  value = "secret";
  wallet_id = some 81;
}

-- A secret of another user whose row names the wallet.
abbrev pub foreign_secret : UserSecret
foreign_secret = record secret {
  user_id = 8;
  storage = SecretStorage.wallet;
  value_encrypted = none;
  wallet_id = some 81;
  wallet_path = some "roles/deepgram/62";
}

abbrev pub providers : Providers
providers = record {
  get = λ url header. Response.answer 200 "{}";
  projects = λ body. ok (some "p" ∷ []);
  balances = λ body. ok (record { units = "usd"; amount = ok (Amount.credit 0) } ∷ []);
  http_text = λ text status. text;
  error_text = λ text detail. text;
  machine_key = λ provider. "";
}

abbrev int_of : Text → Option Amount
int_of text = if text_beq text (codes "1900000000") then some (Amount.credit 1900000000) else none

abbrev pub readers : Readers
readers = record { int = int_of; b64decode = λ text. some (codes text) }

abbrev pub user : CurrentUser
user = record { user_id = 7; tenant_id = 9 }
