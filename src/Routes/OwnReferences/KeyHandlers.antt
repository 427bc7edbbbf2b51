-- ===== src/Routes/OwnReferences/KeyHandlers.antt =====
-- The handlers of routes/transcription_keys.py keep OwnReferences.
use roles.Prelude.{
  ℕ, String, true, string_eq, if◌then◌else◌, Option, some, none, ◌≡◌, refl, sym, subst, Bool-cases,
  inl, inr,
}
use roles.Outside.{Outside}
use roles.Db.Schema.{Db, Amount, TranscriptionKey, UserSecret, KeyStatus}
use roles.Db.TranscriptionKeys.{insert_transcription_key, update_key_balance, mark_invalid, get_key}
use roles.Secrets.Effects.{Reply, ok, raised, Cipher, Harpocrate, World}
use roles.Secrets.StoreDb.{key_value-db}
use roles.Secrets.Providers.{Providers, Verdict, key_value, validate_transcription_key}
use roles.Routes.Answers.{Answer, done, status, crashed, CurrentUser}
use roles.Routes.SecretSelection.{SecretKind, resolve_selected_secret}
use roles.Routes.TranscriptionKeys as Keys
use roles.Routes.OwnReferences.{owns, OwnReferences}
use roles.Routes.OwnReferences.Writes.{
  set_key-OwnReferences, insert_transcription_key-OwnReferences, update_key_settings-OwnReferences,
  delete_key-OwnReferences,
}
use roles.Routes.OwnReferences.Handlers.{IsSelected, resolve_selected_secret-IsSelected}

module _ (o : Outside) (H : Harpocrate) (c : Cipher) (p : Providers) where
  with_balance-OwnReferences :
      (key_id : ℕ) (balance : Option Amount) (db : Db)
      → OwnReferences db
      → OwnReferences (Keys.with_balance o H c p key_id balance db)
  unfolding update_key_balance
  with_balance-OwnReferences key_id none db h = h
  with_balance-OwnReferences key_id (some b) db h =
      set_key-OwnReferences key_id
        (λ k. record k { current_balance_usd = some b; last_balance_check_at = some db.now }) db
        (λ k. (refl, refl)) h

  insert_valid-OwnReferences :
      (r : Keys.CreateKeyRequest) (user : CurrentUser) (provider : String) (v : Reply (Verdict p))
      (w : World H)
      → owns w.db.user_secrets user.user_id (some r.secret_id) ≡ true
      → OwnReferences w.db
      → OwnReferences (Keys.insert_valid o H c p r user provider v w).1.db
  insert_valid-OwnReferences r user provider (raised e) w own h = h
  insert_valid-OwnReferences r user provider (ok v) w own h = elim (Bool-cases v.valid) [
    | inr e ↦ rw (OwnReferences, e) h
    | inl e ↦
        rw (OwnReferences, e)
          (with_balance-OwnReferences
            (insert_transcription_key (Keys.new_key_of o H c p r user provider) w.db).0
            v.balance_usd
            (insert_transcription_key (Keys.new_key_of o H c p r user provider) w.db).1
            (insert_transcription_key-OwnReferences (Keys.new_key_of o H c p r user provider) w.db
              own h))
  ]

  with_selected-OwnReferences :
      (r : Keys.CreateKeyRequest) (user : CurrentUser) (w : World H)
      (sel : Answer (UserSecret × String) × World H)
      → IsSelected o H c r.secret_id user.user_id w sel
      → OwnReferences w.db
      → OwnReferences (Keys.with_selected o H c p r user sel).1.db
  with_selected-OwnReferences r user w (status n, w') s h = subst OwnReferences (sym s) h
  with_selected-OwnReferences r user w (crashed e, w') s h = subst OwnReferences (sym s) h
  with_selected-OwnReferences r user w (done (x, api_key), w') s h =
      insert_valid-OwnReferences r user x.secret_type
        (validate_transcription_key p x.secret_type api_key) w'
        (subst (λ d. owns d.user_secrets user.user_id (some r.secret_id) ≡ true) (sym s.0) s.1)
        (subst OwnReferences (sym s.0) h)

  pub create_key_endpoint-OwnReferences :
      (r : Keys.CreateKeyRequest) (user : CurrentUser) (w : World H)
      → OwnReferences w.db
      → OwnReferences (Keys.create_key_endpoint o H c p r user w).1.db
  unfolding Keys.create_key_endpoint
  create_key_endpoint-OwnReferences r user w =
      with_selected-OwnReferences r user w
        (resolve_selected_secret o H c r.secret_id user.user_id SecretKind.transcription w)
        (resolve_selected_secret-IsSelected o H c r.secret_id user.user_id SecretKind.transcription
          w)

  update_found-OwnReferences :
      (key_id : ℕ) (r : Keys.UpdateKeyRequest) (user : CurrentUser) (k : Option TranscriptionKey)
      (w : World H)
      → OwnReferences w.db
      → OwnReferences (Keys.update_found o H c p key_id r user k w).1.db
  update_found-OwnReferences key_id r user none w h = h
  update_found-OwnReferences key_id r user (some k) w h =
      update_key_settings-OwnReferences key_id (Keys.settings_of o H c p r) w.db h

  pub update_key_endpoint-OwnReferences :
      (key_id : ℕ) (r : Keys.UpdateKeyRequest) (user : CurrentUser) (w : World H)
      → OwnReferences w.db
      → OwnReferences (Keys.update_key_endpoint o H c p key_id r user w).1.db
  unfolding Keys.update_key_endpoint
  update_key_endpoint-OwnReferences key_id r user w =
      update_found-OwnReferences key_id r user (get_key key_id user.user_id w.db) w

  quota_found-OwnReferences :
      (key_id : ℕ) (cap : Option ℕ) (user : CurrentUser) (k : Option TranscriptionKey) (w : World H)
      → OwnReferences w.db
      → OwnReferences (Keys.quota_found o H c p key_id cap user k w).1.db
  quota_found-OwnReferences key_id cap user none w h = h
  quota_found-OwnReferences key_id none user (some k) w h = h
  quota_found-OwnReferences key_id (some cap) user (some k) w h =
      update_key_settings-OwnReferences key_id (Keys.cap_settings o H c p cap) w.db h

  pub update_quota_endpoint-OwnReferences :
      (key_id : ℕ) (cap : Option ℕ) (user : CurrentUser) (w : World H)
      → OwnReferences w.db
      → OwnReferences (Keys.update_quota_endpoint o H c p key_id cap user w).1.db
  unfolding Keys.update_quota_endpoint
  update_quota_endpoint-OwnReferences key_id cap user w =
      quota_found-OwnReferences key_id cap user (get_key key_id user.user_id w.db) w

  mark_invalid-OwnReferences :
      (key_id : ℕ) (db : Db) → OwnReferences db → OwnReferences (mark_invalid key_id db)
  unfolding mark_invalid
  mark_invalid-OwnReferences key_id db =
      set_key-OwnReferences key_id (λ k. record k { status = KeyStatus.invalid }) db
        (λ k. (refl, refl))

  judged_key-OwnReferences :
      (key_id : ℕ) (v : Verdict p) (db : Db)
      → OwnReferences db
      → OwnReferences (Keys.judged_key o H c p key_id v db)
  judged_key-OwnReferences key_id v db h =
      with_balance-OwnReferences key_id v.balance_usd
        (if v.valid then Keys.mark_active o H c p key_id db.now db else mark_invalid key_id db)
        (elim (Bool-cases v.valid) [
          | inr e ↦ rw (OwnReferences, e) (mark_invalid-OwnReferences key_id db h)
          | inl e ↦
              rw (OwnReferences, e)
                (set_key-OwnReferences key_id
                  (λ k. record k { status = KeyStatus.active; last_validated_at = some db.now }) db
                  (λ k. (refl, refl)) h)
        ])

  with_verdict-OwnReferences :
      (key_id : ℕ) (v : Reply (Verdict p)) (w : World H)
      → OwnReferences w.db
      → OwnReferences (Keys.with_verdict o H c p key_id v w).1.db
  with_verdict-OwnReferences key_id (raised e) w h = h
  with_verdict-OwnReferences key_id (ok v) w h = judged_key-OwnReferences key_id v w.db h

  with_key_value-OwnReferences :
      (k : TranscriptionKey) (r : Reply (Option String) × World H)
      → OwnReferences r.1.db
      → OwnReferences (Keys.with_key_value o H c p k r).1.db
  with_key_value-OwnReferences k (raised e, w) h = h
  with_key_value-OwnReferences k (ok none, w) h = mark_invalid-OwnReferences k.id w.db h
  with_key_value-OwnReferences k (ok (some v), w) h =
      with_verdict-OwnReferences k.id (validate_transcription_key p k.provider v) w h

  test_found-OwnReferences :
      (user : CurrentUser) (k : Option TranscriptionKey) (w : World H)
      → OwnReferences w.db
      → OwnReferences (Keys.test_found o H c p user k w).1.db
  test_found-OwnReferences user none w h = h
  test_found-OwnReferences user (some k) w h =
      with_key_value-OwnReferences k (key_value o H c p k.secret_id user.user_id w)
        (subst OwnReferences (sym (key_value-db o H c p k.secret_id user.user_id w)) h)

  pub test_key_endpoint-OwnReferences :
      (key_id : ℕ) (user : CurrentUser) (w : World H)
      → OwnReferences w.db
      → OwnReferences (Keys.test_key_endpoint o H c p key_id user w).1.db
  unfolding Keys.test_key_endpoint
  test_key_endpoint-OwnReferences key_id user w =
      test_found-OwnReferences user (get_key key_id user.user_id w.db) w

  key_found-OwnReferences :
      (key_id : ℕ) (k : Option TranscriptionKey) (w : World H)
      → OwnReferences w.db
      → OwnReferences (Keys.delete_found o H c p key_id k w).1.db
  key_found-OwnReferences key_id none w h = h
  key_found-OwnReferences key_id (some k) w h = delete_key-OwnReferences key_id w.db h

  pub delete_key_endpoint-OwnReferences :
      (key_id : ℕ) (user : CurrentUser) (w : World H)
      → OwnReferences w.db
      → OwnReferences (Keys.delete_key_endpoint o H c p key_id user w).1.db
  unfolding Keys.delete_key_endpoint
  delete_key_endpoint-OwnReferences key_id user w =
      key_found-OwnReferences key_id (get_key key_id user.user_id w.db) w
