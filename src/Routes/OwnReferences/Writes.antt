-- ===== src/Routes/OwnReferences/Writes.antt =====
-- The statements of db_helpers/transcription_keys.py and db_helpers/credentials.py keep OwnReferences.
use roles.Prelude.{
  ℕ, Bool, true, false, not, ◌==◌, nat_eq, if◌then◌else◌, Option, some, none, List, [], ◌∷◌,
  find_where, update_where, All-append, All-update_where, All-select_where, Bool-cases,
  Option-cases, inl, inr, ◌≡◌, refl, coalesce, subst, some_inj,
}
use roles.Db.Schema.{Db, UserSecret, TranscriptionKey, CredentialStatus}
use roles.Db.TranscriptionKeys.{
  NewKey, new_key, demote, is_primary_of, is_other_primary, Settings, apply_settings, set_key,
  insert_transcription_key, demote_others, update_key_settings, delete_key,
}
use roles.Db.Credentials.{
  NewCredential, new_credential, insert_user_credential, update_credential_status,
  delete_credential, is_credential_used,
}
use roles.Routes.OwnReferences.{owns, KeysOwn, OwnReferences}

pub set_key-OwnReferences :
    (key_id : ℕ) (f : TranscriptionKey → TranscriptionKey) (db : Db)
    → ((k : TranscriptionKey) → ((f k).user_id ≡ k.user_id) × ((f k).secret_id ≡ k.secret_id))
    → OwnReferences db
    → OwnReferences (set_key key_id f db)
set_key-OwnReferences key_id f db keep h = (
  All-update_where (λ k. owns db.user_secrets k.user_id k.secret_id ≡ true) (λ k. k.id == key_id) f
      db.transcription_keys (λ k e p. rw ((keep k).0, (keep k).1) p) h.0,
  h.1,
)

demoted-KeysOwn :
    (secrets : List UserSecret) (q : TranscriptionKey → Bool) (keys : List TranscriptionKey)
    → KeysOwn secrets keys
    → KeysOwn secrets (update_where q demote keys)
demoted-KeysOwn secrets q keys h =
    All-update_where (λ k. owns secrets k.user_id k.secret_id ≡ true) q demote keys (λ k e p. p) h

pub insert_transcription_key-OwnReferences :
    (n : NewKey) (db : Db)
    → owns db.user_secrets n.user_id (some n.secret_id) ≡ true
    → OwnReferences db
    → OwnReferences (insert_transcription_key n db).1
unfolding insert_transcription_key
insert_transcription_key-OwnReferences n db own h = (
  All-append (λ k. owns db.user_secrets k.user_id k.secret_id ≡ true)
      (if n.is_primary
        then update_where (is_primary_of n.user_id) demote db.transcription_keys
        else db.transcription_keys)
      (new_key n db ∷ []) (either_way n.is_primary) (own, tt),
  h.1,
)
  where
    either_way :
        (b : Bool)
        → KeysOwn db.user_secrets (
            if b
            then update_where (is_primary_of n.user_id) demote db.transcription_keys
            else db.transcription_keys)
    either_way true =
        demoted-KeysOwn db.user_secrets (is_primary_of n.user_id) db.transcription_keys h.0
    either_way false = h.0

demote_others-OwnReferences :
    (key_id : ℕ) (db : Db) → OwnReferences db → OwnReferences (demote_others key_id db)
unfolding demote_others
demote_others-OwnReferences key_id db h =
    elim (Option-cases (find_where (λ k. k.id == key_id) db.transcription_keys)) [
      | inl e ↦ rw (OwnReferences, demote_others, e) h
      | inr (k, e) ↦
          rw (OwnReferences, demote_others, e)
            (
              demoted-KeysOwn db.user_secrets (is_other_primary k.user_id key_id)
                  db.transcription_keys h.0,
              h.1,
            )
    ]

pub update_key_settings-OwnReferences :
    (key_id : ℕ) (s : Settings) (db : Db)
    → OwnReferences db
    → OwnReferences (update_key_settings key_id s db)
unfolding update_key_settings
update_key_settings-OwnReferences key_id s db h =
    elim s.is_primary
      as (λ b. OwnReferences (elim b [
        | some true ↦ set_key key_id (apply_settings s) (demote_others key_id db)
        | some false ↦ set_key key_id (apply_settings s) db
        | none ↦ set_key key_id (apply_settings s) db
      ])) [
        | none ↦ set_key-OwnReferences key_id (apply_settings s) db same h
        | some true ↦
            set_key-OwnReferences key_id (apply_settings s) (demote_others key_id db) same
              (demote_others-OwnReferences key_id db h)
        | some false ↦ set_key-OwnReferences key_id (apply_settings s) db same h
      ]
  where
    same :
        (k : TranscriptionKey)
        → ((apply_settings s k).user_id ≡ k.user_id)
          × ((apply_settings s k).secret_id ≡ k.secret_id)
    same k = (refl, refl)

pub delete_key-OwnReferences :
    (key_id : ℕ) (db : Db) → OwnReferences db → OwnReferences (delete_key key_id db)
unfolding delete_key
delete_key-OwnReferences key_id db h = (
  All-select_where (λ k. owns db.user_secrets k.user_id k.secret_id ≡ true)
      (λ k. not (k.id == key_id)) db.transcription_keys h.0,
  h.1,
)

pub insert_user_credential-OwnReferences :
    (n : NewCredential) (db : Db)
    → owns db.user_secrets n.user_id (some n.secret_id) ≡ true
    → OwnReferences db
    → OwnReferences (insert_user_credential n db).1
unfolding insert_user_credential
insert_user_credential-OwnReferences n db own h = (
  h.0,
  All-append (λ x. owns db.user_secrets x.user_id x.secret_id ≡ true) db.credentials
      (new_credential n db ∷ []) h.1 (own, tt),
)

pub update_credential_status-OwnReferences :
    (cred_id : ℕ) (status : CredentialStatus) (at : Option ℕ) (db : Db)
    → OwnReferences db
    → OwnReferences (update_credential_status cred_id status at db)
unfolding update_credential_status
update_credential_status-OwnReferences cred_id status at db h = (
  h.0,
  All-update_where (λ x. owns db.user_secrets x.user_id x.secret_id ≡ true) (λ x. x.id == cred_id)
      (λ c. record c { status = status; last_validated_at = coalesce at c.last_validated_at })
      db.credentials (λ x e p. p) h.1,
)

pub delete_credential-OwnReferences :
    (cred_id : ℕ) (db : Db) {db' : Db}
    → delete_credential cred_id db ≡ some db'
    → OwnReferences db
    → OwnReferences db'
unfolding delete_credential
delete_credential-OwnReferences cred_id db {db'} e h =
    elim (Bool-cases (is_credential_used cred_id db)) [
      | inl u ↦ cc (rw u at e)
      | inr u ↦ subst OwnReferences (some_inj (rw u at e)) (
        h.0,
        All-select_where (λ x. owns db.user_secrets x.user_id x.secret_id ≡ true)
            (λ x. not (x.id == cred_id)) db.credentials h.1,
      )
    ]
