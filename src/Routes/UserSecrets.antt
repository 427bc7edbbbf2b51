-- ===== src/Routes/UserSecrets.antt =====
-- backend/src/role_builder/routes/user_secrets.py
use roles.Prelude.{ℕ, String, ltb, if◌then◌else◌, Option, some, none, List}
use roles.Outside.{Outside}
use roles.Db.Schema.{UserSecret}
use roles.Db.UserSecrets.{list_secrets, get_secret, count_service_references}
use roles.Secrets.Effects.{Fault, Reply, ok, raised, Cipher, Harpocrate, World}
use roles.Secrets.Store.{NewValue, create_secret, delete_secret}
use roles.Routes.Answers.{Answer, done, status, crashed, CurrentUser, Handler}

-- CreateSecretRequest, after its own checks
pub record CreateSecretRequest : Type 0 where
  pub secret_type : String
  pub label : String
  pub value : String
  pub wallet_id : Option ℕ

module _ (o : Outside) (H : Harpocrate) (c : Cipher) where
  unfoldable pub list_secrets_endpoint : Option String → CurrentUser → World H → List UserSecret
  list_secrets_endpoint secret_type user w = list_secrets user.user_id secret_type w.db

  abbrev pub new_value : CreateSecretRequest → CurrentUser → NewValue
  new_value r user = record {
    tenant_id = user.tenant_id;
    user_id = user.user_id;
    secret_type = r.secret_type;
    label = r.label;
    value = r.value;
    wallet_id = r.wallet_id;
  }

  abbrev pub found : Option UserSecret → Answer UserSecret
  found none = status 500
  found (some s) = done s

  abbrev pub answer_of : Fault → Answer UserSecret
  answer_of Fault.unknown_wallet = status 404
  answer_of Fault.wallet_unavailable = status 502
  answer_of e = crashed e

  abbrev pub then_get_secret : ℕ → Reply ℕ × World H → Answer UserSecret × World H
  then_get_secret user_id (raised e, w) = (answer_of e, w)
  then_get_secret user_id (ok secret_id, w) = (found (get_secret secret_id user_id w.db), w)

  unfoldable pub create_secret_endpoint : CreateSecretRequest → CurrentUser → Handler H UserSecret
  create_secret_endpoint r user w =
      then_get_secret user.user_id (create_secret o H c (new_value r user) w)

  abbrev pub or_crashed : Reply Unit × World H → Answer Unit × World H
  or_crashed (raised e, w) = (crashed e, w)
  or_crashed (ok tt, w) = (done tt, w)

  abbrev pub delete_found : ℕ → Option UserSecret → Handler H Unit
  delete_found secret_id none w = (status 404, w)
  delete_found secret_id (some s) w =
      if ltb 0 (count_service_references secret_id w.db)
      then (status 409, w)
      else or_crashed (delete_secret o H c s w)

  unfoldable pub delete_secret_endpoint : ℕ → CurrentUser → Handler H Unit
  delete_secret_endpoint secret_id user w =
      delete_found secret_id (get_secret secret_id user.user_id w.db) w
