-- ===== src/Db/Credentials.antt =====
-- backend/src/role_builder/db_helpers/credentials.py
use roles.Prelude.{
  ℕ, String, Bool, not, ◌&&◌, ◌||◌, any_where, eq_opt, if◌then◌else◌, ◌+◌, Option, none, some, [],
  ◌∷◌, ◌++◌, ◌==◌, nat_eq, string_eq, ltb, head?, coalesce, select_where, find_where, update_where,
  order_by,
}
use roles.Db.Schema.{Db, Credential, CredentialStatus, credential_status_eq}

-- What insert_user_credential is given.
pub record NewCredential : Type 0 where
  pub tenant_id : ℕ
  pub user_id : ℕ
  pub platform : String
  pub secret_id : ℕ
  pub status : CredentialStatus
  pub last_validated_at : Option ℕ
  pub expires_at : Option ℕ

abbrev pub new_credential : NewCredential → Db → Credential
new_credential n db = record {
  id = db.next_id;
  tenant_id = n.tenant_id;
  user_id = n.user_id;
  platform = n.platform;
  secret_id = some n.secret_id;
  status = n.status;
  last_validated_at = n.last_validated_at;
  expires_at = n.expires_at;
  created_at = db.now;
}

unfoldable pub insert_user_credential : NewCredential → Db → ℕ × Db
insert_user_credential n db = (
  db.next_id,
  record db { credentials = db.credentials ++ new_credential n db ∷ []; next_id = db.next_id + 1 },
)

unfoldable pub get_credential : ℕ → ℕ → Db → Option Credential
get_credential cred_id user_id db =
    find_where (λ c. c.id == cred_id && c.user_id == user_id) db.credentials

unfoldable pub get_credential_by_id : ℕ → Db → Option Credential
get_credential_by_id cred_id db = find_where (λ c. c.id == cred_id) db.credentials

-- last_validated_at is written where it is given.
unfoldable pub update_credential_status : ℕ → CredentialStatus → Option ℕ → Db → Db
update_credential_status cred_id status validated_at db = record db {
  credentials =
      update_where (λ c. c.id == cred_id)
        (λ c. record c {
          status = status;
          last_validated_at = coalesce validated_at c.last_validated_at;
        })
        db.credentials;
}

unfoldable pub revoke_credential : ℕ → Db → Db
revoke_credential cred_id db = record db {
  credentials =
      update_where (λ c. c.id == cred_id) (λ c. record c { status = CredentialStatus.revoked })
        db.credentials;
}

-- A source or a job of scraping that names the row: its foreign key has no ON DELETE.
abbrev pub is_credential_used : ℕ → Db → Bool
is_credential_used cred_id db =
    any_where (λ s. eq_opt s.credentials_id cred_id) db.sources
    || any_where (λ j. eq_opt j.credentials_id cred_id) db.scraping_jobs

-- `none` is the violation of a foreign key.
unfoldable pub delete_credential : ℕ → Db → Option Db
delete_credential cred_id db =
    if is_credential_used cred_id db
    then none
    else some (record db { credentials = select_where (λ c. not (c.id == cred_id)) db.credentials })

-- ORDER BY created_at DESC LIMIT 1
unfoldable pub get_active_credential_for_platform : String → Db → Option Credential
get_active_credential_for_platform platform db = head? (
    order_by (λ a b. ltb b.created_at a.created_at)
      (select_where (λ c. c.platform == platform && c.status == CredentialStatus.active)
        db.credentials))
