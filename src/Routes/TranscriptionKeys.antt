-- ===== src/Routes/TranscriptionKeys.antt =====
-- backend/src/role_builder/routes/transcription_keys.py. The provisioning and the stop of workers are
-- only logged there, and left out.
use roles.Prelude.{
  ℕ, ◌*◌, String, Bool, false, nat_eq, ltb, if◌then◌else◌, Option, some, none, List,
}
use roles.Outside.{Outside}
use roles.Db.Schema.{Db, Amount, KeyStatus, TranscriptionKey, UserSecret}
use roles.Db.TranscriptionKeys.{
  NewKey, Settings, set_key, get_key, list_keys_for_user, insert_transcription_key,
  update_key_settings, update_key_balance, mark_invalid, delete_key,
}
use roles.Secrets.Effects.{Reply, ok, raised, Cipher, Harpocrate, World}
use roles.Secrets.Providers.{Providers, Verdict, validate_transcription_key, key_value}
use roles.Routes.Answers.{Answer, done, status, crashed, CurrentUser, Handler}
use roles.Routes.SecretSelection.{SecretKind, resolve_selected_secret}

pub record CreateKeyRequest : Type 0 where
  pub secret_id : ℕ
  pub workers_count : ℕ
  pub is_primary : Bool
  pub is_fallback : Bool

pub record UpdateKeyRequest : Type 0 where
  pub workers_count : Option ℕ
  pub is_primary : Option Bool
  pub is_fallback : Option Bool

pub record TestKeyResponse : Type 0 where
  pub is_active : Bool
  pub last_validated_at : Option ℕ
  pub balance_usd : Option Amount
  pub error : Option String

pub record UsageResponse : Type 0 where
  pub current_month_spend_usd : ℕ
  pub monthly_cap_usd : Option ℕ
  -- numerator and denominator
  pub pct_used : Option (ℕ × ℕ)
  pub last_balance_check_at : Option ℕ
  pub current_balance_usd : Option Amount

module _ (o : Outside) (H : Harpocrate) (c : Cipher) (p : Providers) where
  unfoldable pub list_keys_endpoint : CurrentUser → World H → List TranscriptionKey
  list_keys_endpoint user w = list_keys_for_user user.user_id w.db

  abbrev pub with_balance : ℕ → Option Amount → Db → Db
  with_balance key_id none db = db
  with_balance key_id (some balance) db = update_key_balance key_id balance db.now db

  abbrev pub found : Option TranscriptionKey → Answer TranscriptionKey
  found none = status 500
  found (some k) = done k

  abbrev pub new_key_of : CreateKeyRequest → CurrentUser → String → NewKey
  new_key_of r user provider = record {
    tenant_id = user.tenant_id;
    user_id = user.user_id;
    provider = provider;
    secret_id = r.secret_id;
    workers_count = r.workers_count;
    is_primary = r.is_primary;
    is_fallback = r.is_fallback;
    monthly_cap_usd = none;
  }

  abbrev pub inserted_key :
      CurrentUser → Option Amount → ℕ × Db → World H → Answer TranscriptionKey × World H
  inserted_key user balance (key_id, db) w =
      let db' = with_balance key_id balance db in
      (found (get_key key_id user.user_id db'), record w { db = db' })

  abbrev pub insert_valid :
      CreateKeyRequest → CurrentUser → String → Reply (Verdict p) → Handler H TranscriptionKey
  insert_valid r user provider (raised e) w = (crashed e, w)
  insert_valid r user provider (ok v) w =
      if v.valid
      then inserted_key user v.balance_usd
          (insert_transcription_key (new_key_of r user provider) w.db) w
      else (status 400, w)

  abbrev pub with_selected :
      CreateKeyRequest
      → CurrentUser
      → Answer (UserSecret × String) × World H
      → Answer TranscriptionKey × World H
  with_selected r user (status n, w) = (status n, w)
  with_selected r user (crashed e, w) = (crashed e, w)
  with_selected r user (done (s, api_key), w) =
      insert_valid r user s.secret_type (validate_transcription_key p s.secret_type api_key) w

  unfoldable pub create_key_endpoint : CreateKeyRequest → CurrentUser → Handler H TranscriptionKey
  create_key_endpoint r user w =
      with_selected r user
        (resolve_selected_secret o H c r.secret_id user.user_id SecretKind.transcription w)

  abbrev pub settings_of : UpdateKeyRequest → Settings
  settings_of r = record {
    workers_count = r.workers_count;
    is_primary = r.is_primary;
    is_fallback = r.is_fallback;
    monthly_cap_usd = none;
  }

  abbrev pub cap_settings : ℕ → Settings
  cap_settings cap = record {
    workers_count = none;
    is_primary = none;
    is_fallback = none;
    monthly_cap_usd = some cap;
  }

  -- The row as it then is, of a key that the user has.
  abbrev pub reread : ℕ → CurrentUser → Db → Handler H TranscriptionKey
  reread key_id user db w = (found (get_key key_id user.user_id db), record w { db = db })

  abbrev pub update_found :
      ℕ → UpdateKeyRequest → CurrentUser → Option TranscriptionKey → Handler H TranscriptionKey
  update_found key_id r user none w = (status 404, w)
  update_found key_id r user (some k) w =
      reread key_id user (update_key_settings key_id (settings_of r) w.db) w

  unfoldable pub update_key_endpoint :
      ℕ → UpdateKeyRequest → CurrentUser → Handler H TranscriptionKey
  update_key_endpoint key_id r user w =
      update_found key_id r user (get_key key_id user.user_id w.db) w

  abbrev pub with_cap : ℕ → Option ℕ → Db → Db
  with_cap key_id none db = db
  with_cap key_id (some cap) db = update_key_settings key_id (cap_settings cap) db

  abbrev pub quota_found :
      ℕ → Option ℕ → CurrentUser → Option TranscriptionKey → Handler H TranscriptionKey
  quota_found key_id cap user none w = (status 404, w)
  quota_found key_id cap user (some k) w = reread key_id user (with_cap key_id cap w.db) w

  unfoldable pub update_quota_endpoint : ℕ → Option ℕ → CurrentUser → Handler H TranscriptionKey
  update_quota_endpoint key_id cap user w =
      quota_found key_id cap user (get_key key_id user.user_id w.db) w

  abbrev pub mark_active : ℕ → ℕ → Db → Db
  mark_active key_id now =
      set_key key_id (λ k. record k { status = KeyStatus.active; last_validated_at = some now })

  abbrev pub no_value : TestKeyResponse
  no_value = record {
    is_active = false;
    last_validated_at = none;
    balance_usd = none;
    error = some "secret inaccessible";
  }

  abbrev pub judged_key : ℕ → Verdict p → Db → Db
  judged_key key_id v db =
      with_balance key_id v.balance_usd
        (if v.valid then mark_active key_id db.now db else mark_invalid key_id db)

  abbrev pub with_verdict : ℕ → Reply (Verdict p) → Handler H TestKeyResponse
  with_verdict key_id (raised e) w = (crashed e, w)
  with_verdict key_id (ok v) w = (
    done (record {
      is_active = v.valid;
      last_validated_at = some w.db.now;
      balance_usd = v.balance_usd;
      error = v.error;
    }),
    record w { db = judged_key key_id v w.db },
  )

  abbrev pub with_key_value :
      TranscriptionKey → Reply (Option String) × World H → Answer TestKeyResponse × World H
  with_key_value k (raised e, w) = (crashed e, w)
  with_key_value k (ok none, w) = (done no_value, record w { db = mark_invalid k.id w.db })
  with_key_value k (ok (some api_key), w) =
      with_verdict k.id (validate_transcription_key p k.provider api_key) w

  abbrev pub test_found : CurrentUser → Option TranscriptionKey → Handler H TestKeyResponse
  test_found user none w = (status 404, w)
  test_found user (some k) w = with_key_value k (key_value o H c p k.secret_id user.user_id w)

  unfoldable pub test_key_endpoint : ℕ → CurrentUser → Handler H TestKeyResponse
  test_key_endpoint key_id user w = test_found user (get_key key_id user.user_id w.db) w

  abbrev pub percent : ℕ → Option ℕ → Option (ℕ × ℕ)
  percent spend none = none
  percent spend (some cap) = if ltb 0 cap then some (spend * 100, cap) else none

  abbrev pub usage_found : Option TranscriptionKey → Answer UsageResponse
  usage_found none = status 404
  usage_found (some k) = done (record {
    current_month_spend_usd = k.current_month_spend_usd;
    monthly_cap_usd = k.monthly_cap_usd;
    pct_used = percent k.current_month_spend_usd k.monthly_cap_usd;
    last_balance_check_at = k.last_balance_check_at;
    current_balance_usd = k.current_balance_usd;
  })

  unfoldable pub get_usage_endpoint : ℕ → CurrentUser → World H → Answer UsageResponse
  get_usage_endpoint key_id user w = usage_found (get_key key_id user.user_id w.db)

  abbrev pub delete_found : ℕ → Option TranscriptionKey → Handler H Unit
  delete_found key_id none w = (status 404, w)
  delete_found key_id (some k) w = (done tt, record w { db = delete_key key_id w.db })

  unfoldable pub delete_key_endpoint : ℕ → CurrentUser → Handler H Unit
  delete_key_endpoint key_id user w = delete_found key_id (get_key key_id user.user_id w.db) w
