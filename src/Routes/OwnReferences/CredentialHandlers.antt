-- ===== src/Routes/OwnReferences/CredentialHandlers.antt =====
-- The handlers of routes/credentials.py keep OwnReferences.
use roles.Prelude.{
  ℕ, String, true, ◌==◌, string_eq, Option, some, none, ◌≡◌, refl, sym, subst, Bool-cases, inl, inr,
}
use roles.Outside.{Outside}
use roles.Db.Schema.{Db, Credential, CredentialStatus, UserSecret}
use roles.Db.Credentials.{delete_credential, get_credential}
use roles.Secrets.Effects.{Reply, ok, raised, Cipher, Harpocrate, World}
use roles.Secrets.StoreDb.{read_secret_by_id-db}
use roles.Cookies.Validator.{Readers, CookieVerdict, validate_cookies}
use roles.Routes.Answers.{Answer, done, status, crashed, CurrentUser}
use roles.Routes.SecretSelection.{SecretKind, cookies_platform, resolve_selected_secret}
use roles.Routes.Credentials as Credentials
use roles.Routes.OwnReferences.{owns, OwnReferences}
use roles.Routes.OwnReferences.Writes.{
  insert_user_credential-OwnReferences, update_credential_status-OwnReferences,
  delete_credential-OwnReferences,
}
use roles.Routes.OwnReferences.Handlers.{IsSelected, resolve_selected_secret-IsSelected}

module _ (o : Outside) (H : Harpocrate) (c : Cipher) (r : Readers) where
  insert_valid-OwnReferences :
      (secret_id : ℕ) (user : CurrentUser) (platform : String) (v : Reply CookieVerdict)
      (w : World H)
      → owns w.db.user_secrets user.user_id (some secret_id) ≡ true
      → OwnReferences w.db
      → OwnReferences (Credentials.insert_valid o H c r secret_id user platform v w).1.db
  insert_valid-OwnReferences secret_id user platform (raised e) w own h = h
  insert_valid-OwnReferences secret_id user platform (ok v) w own h = elim (Bool-cases v.valid) [
    | inr e ↦ rw (OwnReferences, e) h
    | inl e ↦
        rw (OwnReferences, e)
          (insert_user_credential-OwnReferences
            (Credentials.new_credential_of o H c r secret_id user platform w.db.now v) w.db own h)
  ]

  for_platform-OwnReferences :
      (secret_id : ℕ) (user : CurrentUser) (value : String) (platform : Option String) (w : World H)
      → owns w.db.user_secrets user.user_id (some secret_id) ≡ true
      → OwnReferences w.db
      → OwnReferences (Credentials.for_platform o H c r secret_id user value platform w).1.db
  for_platform-OwnReferences secret_id user value none w own h = h
  for_platform-OwnReferences secret_id user value (some platform) w own h =
      insert_valid-OwnReferences secret_id user platform (validate_cookies r platform value) w own h

  with_selected-OwnReferences :
      (secret_id : ℕ) (user : CurrentUser) (w : World H)
      (sel : Answer (UserSecret × String) × World H)
      → IsSelected o H c secret_id user.user_id w sel
      → OwnReferences w.db
      → OwnReferences (Credentials.with_selected o H c r secret_id user sel).1.db
  with_selected-OwnReferences secret_id user w (status n, w') s h = subst OwnReferences (sym s) h
  with_selected-OwnReferences secret_id user w (crashed e, w') s h = subst OwnReferences (sym s) h
  with_selected-OwnReferences secret_id user w (done (x, value), w') s h =
      for_platform-OwnReferences secret_id user value (cookies_platform x.secret_type) w'
        (subst (λ d. owns d.user_secrets user.user_id (some secret_id) ≡ true) (sym s.0) s.1)
        (subst OwnReferences (sym s.0) h)

  pub create_credential_endpoint-OwnReferences :
      (secret_id : ℕ) (user : CurrentUser) (w : World H)
      → OwnReferences w.db
      → OwnReferences (Credentials.create_credential_endpoint o H c r secret_id user w).1.db
  unfolding Credentials.create_credential_endpoint
  create_credential_endpoint-OwnReferences secret_id user w =
      with_selected-OwnReferences secret_id user w
        (resolve_selected_secret o H c secret_id user.user_id SecretKind.cookies w)
        (resolve_selected_secret-IsSelected o H c secret_id user.user_id SecretKind.cookies w)

  with_verdict-OwnReferences :
      (cred_id : ℕ) (v : Reply CookieVerdict) (w : World H)
      → OwnReferences w.db
      → OwnReferences (Credentials.with_verdict o H c r cred_id v w).1.db
  with_verdict-OwnReferences cred_id (raised e) w h = h
  with_verdict-OwnReferences cred_id (ok v) w h =
      update_credential_status-OwnReferences cred_id (Credentials.status_of o H c r v.valid)
        (some w.db.now) w.db h

  with_cookies-OwnReferences :
      (x : Credential) (value : Reply (Option String) × World H)
      → OwnReferences value.1.db
      → OwnReferences (Credentials.with_cookies o H c r x value).1.db
  with_cookies-OwnReferences x (raised e, w) h = h
  with_cookies-OwnReferences x (ok none, w) h =
      update_credential_status-OwnReferences x.id CredentialStatus.invalid none w.db h
  with_cookies-OwnReferences x (ok (some v), w) h = elim (Bool-cases (v == "")) [
    | inl e ↦
        rw (OwnReferences, e)
          (update_credential_status-OwnReferences x.id CredentialStatus.invalid none w.db h)
    | inr e ↦
        rw (OwnReferences, e)
          (with_verdict-OwnReferences x.id (validate_cookies r x.platform v) w h)
  ]

  cookies_of-OwnReferences :
      (ref : Option ℕ) (user_id : ℕ) (w : World H)
      → OwnReferences w.db
      → OwnReferences (Credentials.cookies_of o H c r ref user_id w).1.db
  cookies_of-OwnReferences none user_id w h = h
  cookies_of-OwnReferences (some secret_id) user_id w h =
      subst OwnReferences (sym (read_secret_by_id-db o H c secret_id user_id w)) h

  test_found-OwnReferences :
      (user : CurrentUser) (x : Option Credential) (w : World H)
      → OwnReferences w.db
      → OwnReferences (Credentials.test_found o H c r user x w).1.db
  test_found-OwnReferences user none w h = h
  test_found-OwnReferences user (some x) w h =
      with_cookies-OwnReferences x (Credentials.cookies_of o H c r x.secret_id user.user_id w)
        (cookies_of-OwnReferences x.secret_id user.user_id w h)

  pub test_credential_endpoint-OwnReferences :
      (cred_id : ℕ) (user : CurrentUser) (w : World H)
      → OwnReferences w.db
      → OwnReferences (Credentials.test_credential_endpoint o H c r cred_id user w).1.db
  unfolding Credentials.test_credential_endpoint
  test_credential_endpoint-OwnReferences cred_id user w =
      test_found-OwnReferences user (get_credential cred_id user.user_id w.db) w

  then_deleted-OwnReferences :
      (cred_id : ℕ) (w : World H) (d : Option Db)
      → delete_credential cred_id w.db ≡ d
      → OwnReferences w.db
      → OwnReferences (Credentials.then_deleted o H c r w d).1.db
  then_deleted-OwnReferences cred_id w none e h = h
  then_deleted-OwnReferences cred_id w (some db) e h =
      delete_credential-OwnReferences cred_id w.db e h

  credential_found-OwnReferences :
      (cred_id : ℕ) (x : Option Credential) (w : World H)
      → OwnReferences w.db
      → OwnReferences (Credentials.delete_found o H c r cred_id x w).1.db
  credential_found-OwnReferences cred_id none w h = h
  credential_found-OwnReferences cred_id (some x) w h =
      then_deleted-OwnReferences cred_id w (delete_credential cred_id w.db) refl h

  pub delete_credential_endpoint-OwnReferences :
      (cred_id : ℕ) (user : CurrentUser) (w : World H)
      → OwnReferences w.db
      → OwnReferences (Credentials.delete_credential_endpoint o H c r cred_id user w).1.db
  unfolding Credentials.delete_credential_endpoint
  delete_credential_endpoint-OwnReferences cred_id user w =
      credential_found-OwnReferences cred_id (get_credential cred_id user.user_id w.db) w
