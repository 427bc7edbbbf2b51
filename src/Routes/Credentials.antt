-- ===== src/Routes/Credentials.antt =====
-- backend/src/role_builder/routes/credentials.py
use roles.Prelude.{ℕ, String, Bool, true, false, ◌==◌, string_eq, if◌then◌else◌, Option, some, none}
use mathlib.Core.Option
use roles.Outside.{Outside}
use roles.Db.Schema.{Db, Credential, CredentialStatus, UserSecret}
use roles.Db.Credentials.{
  NewCredential, insert_user_credential, get_credential, update_credential_status,
  delete_credential,
}
use roles.Secrets.Effects.{Fault, Reply, ok, raised, Cipher, Harpocrate, World}
use roles.Secrets.Store.{read_secret_by_id}
use roles.Cookies.Validator.{Readers, CookieVerdict, Problem, validate_cookies}
use roles.Routes.Answers.{Answer, done, status, crashed, CurrentUser, Handler}
use roles.Routes.SecretSelection.{SecretKind, cookies_platform, resolve_selected_secret}

-- The message of an answer: that of the validator, or that the secret cannot be read.
pub data Complaint : Type 0 where
  inaccessible : Complaint
  cookies_refused : Problem → Complaint

pub record TestCredentialResponse : Type 0 where
  pub status_now : CredentialStatus
  pub last_validated_at : Option ℕ
  pub error : Option Complaint

module _ (o : Outside) (H : Harpocrate) (c : Cipher) (r : Readers) where
  abbrev pub new_credential_of : ℕ → CurrentUser → String → ℕ → CookieVerdict → NewCredential
  new_credential_of secret_id user platform now v = record {
    tenant_id = user.tenant_id;
    user_id = user.user_id;
    platform = platform;
    secret_id = secret_id;
    status = CredentialStatus.active;
    last_validated_at = some now;
    expires_at = v.expires_at;
  }

  abbrev pub found : Option Credential → Answer Credential
  found none = status 500
  found (some x) = done x

  abbrev pub inserted_credential : CurrentUser → ℕ × Db → Handler H Credential
  inserted_credential user (cred_id, db) w =
      (found (get_credential cred_id user.user_id db), record w { db = db })

  abbrev pub insert_valid : ℕ → CurrentUser → String → Reply CookieVerdict → Handler H Credential
  insert_valid secret_id user platform (raised e) w = (crashed e, w)
  insert_valid secret_id user platform (ok v) w =
      if v.valid
      then inserted_credential user
          (insert_user_credential (new_credential_of secret_id user platform w.db.now v) w.db) w
      else (status 400, w)

  -- The assertion holds of every secret that is selected for its cookies.
  abbrev pub for_platform : ℕ → CurrentUser → String → Option String → Handler H Credential
  for_platform secret_id user cookies_b64 none w = (crashed Fault.other, w)
  for_platform secret_id user cookies_b64 (some platform) w =
      insert_valid secret_id user platform (validate_cookies r platform cookies_b64) w

  abbrev pub with_selected :
      ℕ → CurrentUser → Answer (UserSecret × String) × World H → Answer Credential × World H
  with_selected secret_id user (status n, w) = (status n, w)
  with_selected secret_id user (crashed e, w) = (crashed e, w)
  with_selected secret_id user (done (s, cookies_b64), w) =
      for_platform secret_id user cookies_b64 (cookies_platform s.secret_type) w

  unfoldable pub create_credential_endpoint : ℕ → CurrentUser → Handler H Credential
  create_credential_endpoint secret_id user w =
      with_selected secret_id user
        (resolve_selected_secret o H c secret_id user.user_id SecretKind.cookies w)

  abbrev pub status_of : Bool → CredentialStatus
  status_of true = CredentialStatus.active
  status_of false = CredentialStatus.invalid

  abbrev pub no_cookies : ℕ → Handler H TestCredentialResponse
  no_cookies cred_id w = (
    done (record {
      status_now = CredentialStatus.invalid;
      last_validated_at = none;
      error = some Complaint.inaccessible;
    }),
    record w { db = update_credential_status cred_id CredentialStatus.invalid none w.db },
  )

  abbrev pub with_verdict : ℕ → Reply CookieVerdict → Handler H TestCredentialResponse
  with_verdict cred_id (raised e) w = (crashed e, w)
  with_verdict cred_id (ok v) w = (
    done (record {
      status_now = status_of v.valid;
      last_validated_at = some w.db.now;
      error = Option.map Complaint.cookies_refused v.error;
    }),
    record w { db = update_credential_status cred_id (status_of v.valid) (some w.db.now) w.db },
  )

  -- An empty value counts as none.
  abbrev pub with_cookies :
      Credential → Reply (Option String) × World H → Answer TestCredentialResponse × World H
  with_cookies x (raised e, w) = (crashed e, w)
  with_cookies x (ok none, w) = no_cookies x.id w
  with_cookies x (ok (some cookies_b64), w) =
      if cookies_b64 == ""
      then no_cookies x.id w
      else with_verdict x.id (validate_cookies r x.platform cookies_b64) w

  abbrev pub cookies_of : Option ℕ → ℕ → World H → Reply (Option String) × World H
  cookies_of none user_id w = (ok none, w)
  cookies_of (some secret_id) user_id w = read_secret_by_id o H c secret_id user_id w

  abbrev pub test_found : CurrentUser → Option Credential → Handler H TestCredentialResponse
  test_found user none w = (status 404, w)
  test_found user (some x) w = with_cookies x (cookies_of x.secret_id user.user_id w)

  unfoldable pub test_credential_endpoint : ℕ → CurrentUser → Handler H TestCredentialResponse
  test_credential_endpoint cred_id user w =
      test_found user (get_credential cred_id user.user_id w.db) w

  abbrev pub then_deleted : World H → Option Db → Answer Unit × World H
  then_deleted w none = (crashed Fault.integrity, w)
  then_deleted w (some db) = (done tt, record w { db = db })

  abbrev pub delete_found : ℕ → Option Credential → Handler H Unit
  delete_found cred_id none w = (status 404, w)
  delete_found cred_id (some x) w = then_deleted w (delete_credential cred_id w.db)

  unfoldable pub delete_credential_endpoint : ℕ → CurrentUser → Handler H Unit
  delete_credential_endpoint cred_id user w =
      delete_found cred_id (get_credential cred_id user.user_id w.db) w
