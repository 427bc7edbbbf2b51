-- ===== src/Db/TranscriptionKeys.antt =====
-- backend/src/role_builder/db_helpers/transcription_keys.py, and get_user_id_for_project of
-- db_helpers/role_projects.py. Amounts are numbers of the smallest unit kept.
pub mod SinglePrimary
use roles.Prelude.{
  ℕ, ◌+◌, String, Bool, true, false, not, ◌&&◌, Option, none, some, [], ◌∷◌, ◌++◌, ◌==◌, nat_eq,
  string_eq, ltb, if◌then◌else◌, option_or, find_where, update_where, select_where, count_where,
  List, order_by,
}
use mathlib.Core.Option
use roles.Db.Schema.{Db, RoleProject, TranscriptionKey, KeyStatus, key_status_eq, Amount}

abbrev owner_of : Option RoleProject → Option ℕ
owner_of none = none
owner_of (some p) = some p.user_id

unfoldable pub get_user_id_for_project : ℕ → Db → Option ℕ
get_user_id_for_project project_id db =
    owner_of (find_where (λ p. p.id == project_id) db.role_projects)

abbrev pub is_active_primary : ℕ → TranscriptionKey → Bool
is_active_primary user_id k = k.user_id == user_id && k.is_primary && k.status == KeyStatus.active

unfoldable pub get_primary_key : ℕ → Db → Option TranscriptionKey
get_primary_key user_id db = find_where (is_active_primary user_id) db.transcription_keys

abbrev pub set_key : ℕ → (TranscriptionKey → TranscriptionKey) → Db → Db
set_key key_id f db = record db {
  transcription_keys = update_where (λ k. k.id == key_id) f db.transcription_keys;
}

unfoldable pub mark_exhausted : ℕ → Db → Db
mark_exhausted key_id = set_key key_id (λ k. record k { status = KeyStatus.exhausted })

unfoldable pub mark_invalid : ℕ → Db → Db
mark_invalid key_id = set_key key_id (λ k. record k { status = KeyStatus.invalid })

-- What insert_transcription_key is given.
pub record NewKey : Type 0 where
  pub tenant_id : ℕ
  pub user_id : ℕ
  pub provider : String
  pub secret_id : ℕ
  pub workers_count : ℕ
  pub is_primary : Bool
  pub is_fallback : Bool
  pub monthly_cap_usd : Option ℕ

abbrev pub demote : TranscriptionKey → TranscriptionKey
demote k = record k { is_primary = false }

abbrev pub is_primary_of : ℕ → TranscriptionKey → Bool
is_primary_of user_id k = k.user_id == user_id && k.is_primary

abbrev pub new_key : NewKey → Db → TranscriptionKey
new_key n db = record {
  id = db.next_id;
  tenant_id = n.tenant_id;
  user_id = n.user_id;
  provider = n.provider;
  secret_id = some n.secret_id;
  status = KeyStatus.active;
  is_primary = n.is_primary;
  is_fallback = n.is_fallback;
  workers_count = n.workers_count;
  monthly_cap_usd = n.monthly_cap_usd;
  current_month_spend_usd = 0;
  current_balance_usd = none;
  last_balance_check_at = none;
  last_validated_at = some db.now;
  created_at = db.now;
}

unfoldable pub insert_transcription_key : NewKey → Db → ℕ × Db
insert_transcription_key n db =
    let demoted =
      if n.is_primary
      then update_where (is_primary_of n.user_id) demote db.transcription_keys
      else db.transcription_keys in
    (
      db.next_id,
      record db { transcription_keys = demoted ++ new_key n db ∷ []; next_id = db.next_id + 1 },
    )

-- The arguments of update_key_settings; `none` is None.
pub record Settings : Type 0 where
  pub workers_count : Option ℕ
  pub is_primary : Option Bool
  pub is_fallback : Option Bool
  pub monthly_cap_usd : Option ℕ

abbrev or_old : Option ℕ → Option ℕ → Option ℕ
or_old none old = old
or_old (some v) old = some v

abbrev pub apply_settings : Settings → TranscriptionKey → TranscriptionKey
apply_settings s k = record k {
  workers_count = option_or s.workers_count k.workers_count;
  is_primary = option_or s.is_primary k.is_primary;
  is_fallback = option_or s.is_fallback k.is_fallback;
  monthly_cap_usd = or_old s.monthly_cap_usd k.monthly_cap_usd;
}

abbrev pub is_other_primary : ℕ → ℕ → TranscriptionKey → Bool
is_other_primary user_id key_id k = is_primary_of user_id k && not (k.id == key_id)

-- `SELECT user_id … WHERE id = key_id`, then the demotion of that user's other primaries.
unfoldable pub demote_others : ℕ → Db → Db
demote_others key_id db = elim (find_where (λ k. k.id == key_id) db.transcription_keys) [
  | none ↦ db
  | some key ↦ record db {
    transcription_keys =
        update_where (is_other_primary key.user_id key_id) demote db.transcription_keys;
  }
]

-- With no argument given the code writes nothing, and so does apply_settings.
unfoldable pub update_key_settings : ℕ → Settings → Db → Db
unfolding demote_others
update_key_settings key_id s db = elim s.is_primary [
  | some true ↦ set_key key_id (apply_settings s) (demote_others key_id db)
  | some false ↦ set_key key_id (apply_settings s) db
  | none ↦ set_key key_id (apply_settings s) db
]

unfoldable pub revoke_key : ℕ → Db → Db
revoke_key key_id =
    set_key key_id
      (λ k. record k { status = KeyStatus.revoked; is_primary = false; is_fallback = false })

unfoldable pub delete_key : ℕ → Db → Db
delete_key key_id db = record db {
  transcription_keys = select_where (λ k. not (k.id == key_id)) db.transcription_keys;
}

unfoldable pub reset_monthly_spend_all : Db → ℕ × Db
reset_monthly_spend_all db =
    let spent = λ (k : TranscriptionKey). ltb 0 k.current_month_spend_usd in
    (
      count_where spent db.transcription_keys,
      record db {
        transcription_keys =
            update_where spent (λ k. record k { current_month_spend_usd = 0 })
              db.transcription_keys;
      },
    )

unfoldable pub get_key : ℕ → ℕ → Db → Option TranscriptionKey
get_key key_id user_id db =
    find_where (λ k. k.id == key_id && k.user_id == user_id) db.transcription_keys

unfoldable pub update_key_balance : ℕ → Amount → ℕ → Db → Db
update_key_balance key_id balance checked_at =
    set_key key_id (λ k. record k {
      current_balance_usd = some balance;
      last_balance_check_at = some checked_at;
    })

-- The new total is of the row that RETURNING reads; no row raises in `float(None)`.
unfoldable pub increment_spend : ℕ → ℕ → Db → Option ℕ × Db
increment_spend key_id amount db = (
  Option.map (λ k. k.current_month_spend_usd + amount)
      (find_where (λ k. k.id == key_id) db.transcription_keys),
  set_key key_id (λ k. record k { current_month_spend_usd = k.current_month_spend_usd + amount })
      db,
)

-- ORDER BY created_at ASC, of the providers with an API of balances
unfoldable pub list_active_keys_for_balance_polling : Db → List TranscriptionKey
list_active_keys_for_balance_polling db =
    order_by (λ a b. ltb a.created_at b.created_at)
      (select_where (λ k. k.status == KeyStatus.active && k.provider == "deepgram")
        db.transcription_keys)

-- ORDER BY created_at DESC, of every status
unfoldable pub list_keys_for_user : ℕ → Db → List TranscriptionKey
list_keys_for_user user_id db =
    order_by (λ a b. ltb b.created_at a.created_at)
      (select_where (λ k. k.user_id == user_id) db.transcription_keys)
