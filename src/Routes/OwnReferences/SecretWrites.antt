-- ===== src/Routes/OwnReferences/SecretWrites.antt =====
-- The statements of db_helpers/user_secrets.py keep OwnReferences.
use roles.Prelude.{
  ℕ, Bool, true, false, not, ◌&&◌, ◌==◌, nat_eq, eq_opt, is_some, Option, some, none, List, [], ◌∷◌,
  ◌++◌, find_where, select_where, count_where, All, All-mono, Bool-cases, inl, inr, ◌≡◌, refl,
  arith, subst, some_inj, any_where, ltb, All-zip,
}
use roles.Db.Schema.{Db, UserSecret}
use roles.Db.UserSecrets.{
  NewSecret, is_secret_of, count_service_references, delete_secret, secret_row,
}
use roles.Db.UserSecrets.Insertion.{with_row}
use roles.Routes.OwnReferences.{owns, OwnReferences}

-- More secrets.

find_where_more :
    (p : UserSecret → Bool) (xs : List UserSecret) (s : UserSecret)
    → is_some (find_where p xs) ≡ true
    → is_some (find_where p (xs ++ s ∷ [])) ≡ true
find_where_more p [] s h = cc
find_where_more p (x ∷ xs) s h = ground (arith, find_where_more p xs s)

owns_more :
    (secrets : List UserSecret) (s : UserSecret) (user_id : ℕ) (ref : Option ℕ)
    → owns secrets user_id ref ≡ true
    → owns (secrets ++ s ∷ []) user_id ref ≡ true
owns_more secrets s user_id none h = refl
owns_more secrets s user_id (some t) h = find_where_more (is_secret_of t user_id) secrets s h

pub with_row-OwnReferences :
    (id : ℕ) (n : NewSecret) (db : Db) → OwnReferences db → OwnReferences (with_row id n db)
with_row-OwnReferences id n db h =
    let more = owns_more db.user_secrets (secret_row id n db.now) in
    let after = db.user_secrets ++ secret_row id n db.now ∷ [] in
    (
      All-mono (λ k. owns db.user_secrets k.user_id k.secret_id ≡ true)
          (λ k. owns after k.user_id k.secret_id ≡ true) db.transcription_keys
          (λ k. more k.user_id k.secret_id) h.0,
      All-mono (λ k. owns db.user_secrets k.user_id k.secret_id ≡ true)
          (λ k. owns after k.user_id k.secret_id ≡ true) db.credentials
          (λ k. more k.user_id k.secret_id) h.1,
    )

-- Fewer secrets.

find_where_fewer :
    (t s u v : ℕ) (xs : List UserSecret)
    → (t == s) ≡ false
    → is_some (find_where (is_secret_of t u) xs) ≡ true
    → is_some (find_where (is_secret_of t u) (select_where (λ x. not (is_secret_of s v x)) xs))
      ≡ true
find_where_fewer t s u v [] d h = cc
find_where_fewer t s u v (x ∷ xs) d h = ground (arith, find_where_fewer t s u v xs d)

owns_fewer :
    (secrets : List UserSecret) (s v user_id : ℕ) (ref : Option ℕ)
    → eq_opt ref s ≡ false
    → owns secrets user_id ref ≡ true
    → owns (select_where (λ x. not (is_secret_of s v x)) secrets) user_id ref ≡ true
owns_fewer secrets s v user_id none d h = refl
owns_fewer secrets s v user_id (some t) d h = find_where_fewer t s user_id v secrets d h

module _ {ℓ} {A : Type ℓ} (p : A → Bool) where
  pub All-count_where : (xs : List A) → count_where p xs ≡ 0 → All (λ x. p x ≡ false) xs
  All-count_where [] h = tt
  All-count_where (x ∷ xs) h = elim (Bool-cases (p x)) [
    | inl e ↦ absurd (ground arith)
    | inr e ↦ (e, All-count_where xs (omega (arith, rw e at h)))
  ]

pub delete_secret-OwnReferences :
    (s v : ℕ) (db : Db) {db' : Db}
    → count_service_references s db ≡ 0
    → delete_secret s v db ≡ some db'
    → OwnReferences db
    → OwnReferences db'
unfolding delete_secret count_service_references
delete_secret-OwnReferences s v db {db'} z e h =
    subst OwnReferences (some_inj (rw no_refusal at e)) (
      All-zip (λ k. eq_opt k.secret_id s ≡ false)
          (λ k. owns db.user_secrets k.user_id k.secret_id ≡ true)
          (λ k. owns after k.user_id k.secret_id ≡ true) db.transcription_keys
          (λ k. owns_fewer db.user_secrets s v k.user_id k.secret_id)
          (All-count_where (λ k. eq_opt k.secret_id s) db.transcription_keys (omega (arith, z)))
          h.0,
      All-zip (λ k. eq_opt k.secret_id s ≡ false)
          (λ k. owns db.user_secrets k.user_id k.secret_id ≡ true)
          (λ k. owns after k.user_id k.secret_id ≡ true) db.credentials
          (λ k. owns_fewer db.user_secrets s v k.user_id k.secret_id)
          (All-count_where (λ k. eq_opt k.secret_id s) db.credentials (omega (arith, z))) h.1,
    )
  where
    after : List UserSecret
    after = select_where (λ x. not (is_secret_of s v x)) db.user_secrets

    no_refusal :
        (any_where (is_secret_of s v) db.user_secrets && ltb 0 (count_service_references s db))
        ≡ false
    no_refusal =
        closed (any_where (is_secret_of s v) db.user_secrets) (count_service_references s db) z
      where
        closed : (b : Bool) (n : ℕ) → n ≡ 0 → (b && ltb 0 n) ≡ false
        closed b n k = ground arith
