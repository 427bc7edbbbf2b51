-- ===== src/Routes/Deletion.antt =====
-- Every answer of delete_secret_endpoint of routes/user_secrets.py.
use roles.Prelude.{
  ℕ, Bool, true, false, not, ◌&&◌, ◌==◌, nat_eq, ltb, ◌<◌, Option, some, none, List, [], ◌∷◌,
  find_where, find_where_sound, select_where, any_where, Bool-cases, inl, inr, ◌≡◌, ◌⊎◌, refl, sym,
  ap, ◌∙◌, subst, arith, eq_of_beq,
}
use roles.Outside.{Outside}
use roles.Db.Schema.{Db, UserSecret}
use roles.Db.UserSecrets.{is_secret_of, get_secret, count_service_references}
use roles.Db.UserSecrets as UserSecrets
use roles.Secrets.Effects.{Cipher, Harpocrate, World}
use roles.Secrets.Store.{delete_secret, then_purge}
use roles.Secrets.StoreDb.{purge-db}
use roles.Routes.Answers.{Answer, done, status, crashed, CurrentUser}
use roles.Routes.UserSecrets.{or_crashed, delete_found, delete_secret_endpoint}

module _ (o : Outside) (H : Harpocrate) (c : Cipher) where
  -- 404 for a secret that the user has not, 409 for one that is referred to, and the world is as it
  -- was; else the secret is gone, and the keys and credentials are as they were. No exception.
  abbrev pub IsDeletion : ℕ → ℕ → World H → Answer Unit × World H → Type 0
  IsDeletion secret_id user_id w (crashed e, w') = true ≡ false
  IsDeletion secret_id user_id w (status n, w') =
      (w' ≡ w)
      × (((n ≡ 404) × (get_secret secret_id user_id w.db ≡ none))
          ⊎ ((n ≡ 409) × (0 < count_service_references secret_id w.db)))
  IsDeletion secret_id user_id w (done tt, w') =
      (count_service_references secret_id w.db ≡ 0)
      × (get_secret secret_id user_id w'.db ≡ none)
      × (w'.db.transcription_keys ≡ w.db.transcription_keys)
      × (w'.db.credentials ≡ w.db.credentials)

  none_of_rest :
      (s u : ℕ) (rows : List UserSecret)
      → find_where (is_secret_of s u) (select_where (λ x. not (is_secret_of s u x)) rows) ≡ none
  none_of_rest s u [] = refl
  none_of_rest s u (x ∷ xs) = elim (Bool-cases (is_secret_of s u x)) [
    | inl e ↦ rw e (none_of_rest s u xs)
    | inr e ↦ rw (e, e) (none_of_rest s u xs)
  ]

  -- The statement is not refused where nothing refers to the row.
  delete_secret-some :
      (s u : ℕ) (db : Db)
      → count_service_references s db ≡ 0
      → (db' : Db) × (UserSecrets.delete_secret s u db ≡ some db')
        × (get_secret s u db' ≡ none)
        × (db'.transcription_keys ≡ db.transcription_keys)
        × (db'.credentials ≡ db.credentials)
  unfolding UserSecrets.delete_secret get_secret
  delete_secret-some s u db z = (
    record db { user_secrets = select_where (λ x. not (is_secret_of s u x)) db.user_secrets },
    rw
        (not_refused (any_where (is_secret_of s u) db.user_secrets) (count_service_references s db)
          z)
        refl,
    none_of_rest s u db.user_secrets,
    refl,
    refl,
  )
    where
      not_refused : (b : Bool) (n : ℕ) → n ≡ 0 → (b && ltb 0 n) ≡ false
      not_refused b n k = ground arith

  purged-IsDeletion :
      (s : UserSecret) (w : World H) (db' : Db)
      → count_service_references s.id w.db ≡ 0
      → get_secret s.id s.user_id db' ≡ none
      → db'.transcription_keys ≡ w.db.transcription_keys
      → db'.credentials ≡ w.db.credentials
      → IsDeletion s.id s.user_id w (or_crashed o H c (then_purge o H c s w (some db')))
  purged-IsDeletion s w db' z g k x =
      let same = purge-db o H c s.storage s (record w { db = db' }) in
      (
        z,
        ap (get_secret s.id s.user_id) same ∙ g,
        ap (λ d. d.transcription_keys) same ∙ k,
        ap (λ d. d.credentials) same ∙ x,
      )

  delete_secret-IsDeletion :
      (s : UserSecret) (w : World H)
      → count_service_references s.id w.db ≡ 0
      → IsDeletion s.id s.user_id w (or_crashed o H c (delete_secret o H c s w))
  unfolding delete_secret
  delete_secret-IsDeletion s w z =
      let (db', e, g, k, x) = delete_secret-some s.id s.user_id w.db z in
      subst (λ r. IsDeletion s.id s.user_id w (or_crashed o H c (then_purge o H c s w r))) (sym e)
        (purged-IsDeletion s w db' z g k x)

  delete_found-IsDeletion :
      (secret_id user_id : ℕ) (w : World H) (found : Option UserSecret)
      → get_secret secret_id user_id w.db ≡ found
      → IsDeletion secret_id user_id w (delete_found o H c secret_id found w)
  unfolding get_secret
  delete_found-IsDeletion secret_id user_id w none e = (refl, inl (refl, e))
  delete_found-IsDeletion secret_id user_id w (some s) e =
      elim (Bool-cases (ltb 0 (count_service_references secret_id w.db))) [
        | inl k ↦ rw (IsDeletion, k) (refl, inr (refl, ground arith))
        | inr k ↦
            rw (delete_found, k)
              (subst (λ t. IsDeletion t user_id w (or_crashed o H c (delete_secret o H c s w)))
                same_id
                (subst (λ u. IsDeletion s.id u w (or_crashed o H c (delete_secret o H c s w)))
                  same_user (delete_secret-IsDeletion s w (rw same_id (ground arith)))))
      ]
    where
      found_row : is_secret_of secret_id user_id s ≡ true
      found_row = find_where_sound (is_secret_of secret_id user_id) w.db.user_secrets e

      left : (a b : Bool) → (a && b) ≡ true → a ≡ true
      left a b h = ground arith

      right : (a b : Bool) → (a && b) ≡ true → b ≡ true
      right a b h = ground arith

      same_id : s.id ≡ secret_id
      same_id = eq_of_beq s.id secret_id (left (s.id == secret_id) (s.user_id == user_id) found_row)

      same_user : s.user_id ≡ user_id
      same_user =
          eq_of_beq s.user_id user_id (right (s.id == secret_id) (s.user_id == user_id) found_row)

  -- The deletion of a secret answers 404 where the user has no such secret and 409 where a key or a
  -- credential refers to it, and then leaves the world as it was; otherwise no key and no credential
  -- refers to it, the user has it no more, and the keys and credentials are as they were. It never
  -- ends in an exception, a violated foreign key included.
  pub delete_secret_endpoint-IsDeletion :
      (secret_id : ℕ) (user : CurrentUser) (w : World H)
      → IsDeletion secret_id user.user_id w (delete_secret_endpoint o H c secret_id user w)
  unfolding delete_secret_endpoint
  delete_secret_endpoint-IsDeletion secret_id user w =
      delete_found-IsDeletion secret_id user.user_id w (get_secret secret_id user.user_id w.db) refl
