-- ===== src/Db/UserSecrets.antt =====
-- backend/src/role_builder/db_helpers/user_secrets.py
pub mod Insertion
use roles.Prelude.{
  ℕ, ◌+◌, String, Bool, true, false, not, ◌&&◌, ◌||◌, Option, none, some, List, [], ◌∷◌, ◌++◌, ◌==◌,
  nat_eq, string_eq, ltb, eq_opt, if◌then◌else◌, select_where, find_where, count_where, any_where,
  order_by,
}
use roles.Db.Schema.{Db, UserSecret, SecretStorage}

abbrev pub is_transcription_type : String → Bool
is_transcription_type t =
    t == "openai-whisper" || t == "deepgram" || t == "assemblyai" || t == "speechmatics"

abbrev is_cookies_type : String → Bool
is_cookies_type t = t == "youtube-cookies" || t == "instagram-cookies" || t == "tiktok-cookies"

-- The CHECK of the column secret_type
abbrev pub is_secret_type : String → Bool
is_secret_type t = is_transcription_type t || is_cookies_type t

-- What insert_secret is given; the id comes from the caller.
pub record NewSecret : Type 0 where
  pub tenant_id : ℕ
  pub user_id : ℕ
  pub secret_type : String
  pub label : String
  pub storage : SecretStorage
  pub value_encrypted : Option String
  pub wallet_id : Option ℕ
  pub wallet_path : Option String

abbrev pub secret_row : ℕ → NewSecret → ℕ → UserSecret
secret_row id n now = record {
  id = id;
  tenant_id = n.tenant_id;
  user_id = n.user_id;
  secret_type = n.secret_type;
  label = n.label;
  storage = n.storage;
  value_encrypted = n.value_encrypted;
  wallet_id = n.wallet_id;
  wallet_path = n.wallet_path;
  created_at = now;
}

-- The foreign key on user_wallets; NULL refers to nothing.
abbrev pub has_wallet : Option ℕ → Db → Bool
has_wallet none db = true
has_wallet (some wallet_id) db = any_where (λ w. w.id == wallet_id) db.user_wallets

-- `none` is the violation of a constraint. The shape of a row by its storage holds of every call.
unfoldable pub insert_secret : ℕ → NewSecret → Db → Option Db
insert_secret id n db =
    if is_secret_type n.secret_type && has_wallet n.wallet_id db
    then some (record db { user_secrets = db.user_secrets ++ secret_row id n db.now ∷ [] })
    else none

abbrev of_type : Option String → UserSecret → Bool
of_type none s = true
of_type (some t) s = s.secret_type == t

unfoldable pub list_secrets : ℕ → Option String → Db → List UserSecret
list_secrets user_id secret_type db =
    order_by (λ a b. ltb a.created_at b.created_at)
      (select_where (λ s. s.user_id == user_id && of_type secret_type s) db.user_secrets)

abbrev pub is_secret_of : ℕ → ℕ → UserSecret → Bool
is_secret_of secret_id user_id s = s.id == secret_id && s.user_id == user_id

unfoldable pub get_secret : ℕ → ℕ → Db → Option UserSecret
get_secret secret_id user_id db = find_where (is_secret_of secret_id user_id) db.user_secrets

unfoldable pub count_service_references : ℕ → Db → ℕ
count_service_references secret_id db =
    count_where (λ k. eq_opt k.secret_id secret_id) db.transcription_keys
    + count_where (λ c. eq_opt c.secret_id secret_id) db.credentials

-- The deletion by id and user; `none` is the violation of a foreign key of the keys or of the
-- credentials (RESTRICT).
unfoldable pub delete_secret : ℕ → ℕ → Db → Option Db
unfolding count_service_references
delete_secret secret_id user_id db =
    let gone = record db {
      user_secrets = select_where (λ s. not (is_secret_of secret_id user_id s)) db.user_secrets;
    } in
    if any_where (is_secret_of secret_id user_id) db.user_secrets
      && ltb 0 (count_service_references secret_id db)
    then none
    else some gone
