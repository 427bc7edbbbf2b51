-- ===== src/Db/TranscriptionKeys/SinglePrimary.antt =====
-- A user has at most one primary key.
use roles.Prelude.{
  ℕ, ◌≤◌, ◌≡◌, refl, sym, subst, Bool, true, false, not, ◌&&◌, Option, none, some, List, [], ◌∷◌,
  arith, All, find_where, update_where, count_where, count_where-append,
  count_where-update_where_le, Option-cases, Bool-cases, inl, inr, ◌==◌, nat_eq, if◌then◌else◌, ap,
  ◌∙◌, some_inj, All-mono, count_where-select_where, count_where_mono,
}
use roles.Db.Schema.{Db, TranscriptionKey}
use roles.Db.TranscriptionKeys.{
  NewKey, Settings, new_key, is_primary_of, is_other_primary, demote, apply_settings, set_key,
  insert_transcription_key, demote_others, update_key_settings, revoke_key, delete_key,
  mark_exhausted, mark_invalid,
}

abbrev pub SinglePrimary : Db → Type 0
SinglePrimary db = (user_id : ℕ) → count_where (is_primary_of user_id) db.transcription_keys ≤ 1

demote_all-count :
    (user other : ℕ) (keys : List TranscriptionKey)
    → count_where (is_primary_of other) (update_where (is_primary_of user) demote keys)
      ≡ (if user == other then 0 else count_where (is_primary_of other) keys)
demote_all-count user other [] = ground arith
demote_all-count user other (k ∷ keys) = ground (arith, demote_all-count user other keys)

-- insert_transcription_key, whether the key is primary or not, keeps at most one primary key for each
-- user.
insert_transcription_key-SinglePrimary :
    (n : NewKey) (db : Db) → SinglePrimary db → SinglePrimary (insert_transcription_key n db).1
unfolding insert_transcription_key
insert_transcription_key-SinglePrimary n db h user = elim (Bool-cases n.is_primary) [
  | inl e ↦ rw e (
      ground (
        arith,
        h user,
        demote_all-count n.user_id user db.transcription_keys,
        count_where-append (is_primary_of user)
            (update_where (is_primary_of n.user_id) demote db.transcription_keys)
            (new_key n db ∷ []),
      ))
  | inr e ↦ rw e (
      ground (
        arith,
        e,
        h user,
        count_where-append (is_primary_of user) db.transcription_keys (new_key n db ∷ []),
      ))
]

abbrev pub UniqueIds : Db → Type 0
UniqueIds db = (key_id : ℕ) → count_where (λ k. k.id == key_id) db.transcription_keys ≤ 1

module _ {ℓ} {A : Type ℓ} (p : A → Bool) where
  pub count_where_zero-All : (xs : List A) → count_where p xs ≡ 0 → All (λ x. p x ≡ false) xs
  count_where_zero-All [] h = tt
  count_where_zero-All (x ∷ xs) h = elim (Bool-cases (p x)) [
    | inl e ↦ absurd (ground (arith, e, h))
    | inr e ↦ (e, count_where_zero-All xs (ground (arith, e, h)))
  ]

-- The key that a lookup finds is the only one with its id.
only_key :
    (key_id user : ℕ) (keys : List TranscriptionKey) (key : TranscriptionKey)
    → count_where (λ k. k.id == key_id) keys ≤ 1
    → find_where (λ k. k.id == key_id) keys ≡ some key
    → key.user_id ≡ user
    → All (λ k. (k.id == key_id) ≡ true → k.user_id ≡ user) keys
only_key key_id user [] key c f u = tt
only_key key_id user (k ∷ keys) key c f u = elim (Bool-cases (k.id == key_id)) [
  | inl e ↦ (
    (λ h. ap (λ (x : TranscriptionKey). x.user_id) (some_inj (rw e at f)) ∙ u),
    All-mono (λ x. (x.id == key_id) ≡ false) (λ x. (x.id == key_id) ≡ true → x.user_id ≡ user) keys
        (λ x n h. absurd (cc (n, h)))
        (count_where_zero-All (λ x. x.id == key_id) keys (ground (arith, c))),
  )
  | inr e ↦
      ((λ h. absurd (cc (e, h))), only_key key_id user keys key (ground (arith, c)) (rw e at f) u)
]

promote-count :
    (key_id user other : ℕ) (s : Settings) (keys : List TranscriptionKey)
    → All (λ k. (k.id == key_id) ≡ true → k.user_id ≡ user) keys
    → count_where (is_primary_of other) (
        update_where
          (λ k. k.id == key_id)
          (apply_settings s)
          (update_where (is_other_primary user key_id) demote keys))
      ≤ (if user == other
          then count_where (λ k. k.id == key_id) keys
          else count_where (is_primary_of other) keys)
promote-count key_id user other s [] h = ground arith
promote-count key_id user other s (k ∷ keys) h =
    ground (arith, h.0, promote-count key_id user other s keys h.1)

-- The statements that change a key.
pub data KeyChange : Type 0 where
  insert : NewKey → KeyChange
  update : ℕ → Settings → KeyChange
  revoke delete exhaust invalidate : ℕ → KeyChange

unfoldable pub change : KeyChange → Db → Db
change (KeyChange.insert n) db = (insert_transcription_key n db).1
change (KeyChange.update key_id s) db = update_key_settings key_id s db
change (KeyChange.revoke key_id) db = revoke_key key_id db
change (KeyChange.delete key_id) db = delete_key key_id db
change (KeyChange.exhaust key_id) db = mark_exhausted key_id db
change (KeyChange.invalidate key_id) db = mark_invalid key_id db

-- A statement on the key that makes it no primary keeps the invariant.
set_key-SinglePrimary :
    (key_id : ℕ) (f : TranscriptionKey → TranscriptionKey) (db : Db)
    → ((u : ℕ) (k : TranscriptionKey) → is_primary_of u (f k) ≡ true → is_primary_of u k ≡ true)
    → SinglePrimary db
    → SinglePrimary (set_key key_id f db)
set_key-SinglePrimary key_id f db keep h user = omega (
  arith,
  h user,
  count_where-update_where_le (is_primary_of user) (λ k. k.id == key_id) f db.transcription_keys
      (λ k e p. keep user k p),
)

demote_others-found :
    (key_id : ℕ) (db : Db) (key : TranscriptionKey)
    → find_where (λ k. k.id == key_id) db.transcription_keys ≡ some key
    → demote_others key_id db ≡ record db {
      transcription_keys =
          update_where (is_other_primary key.user_id key_id) demote db.transcription_keys;
    }
unfolding demote_others
demote_others-found key_id db key f = rw (f, demote_others)

demote_others-none :
    (key_id : ℕ) (db : Db)
    → find_where (λ k. k.id == key_id) db.transcription_keys ≡ none
    → demote_others key_id db ≡ db
unfolding demote_others
demote_others-none key_id db f = rw (f, demote_others)

update_where-none :
    (key_id : ℕ) (f : TranscriptionKey → TranscriptionKey) (keys : List TranscriptionKey)
    → find_where (λ k. k.id == key_id) keys ≡ none
    → update_where (λ k. k.id == key_id) f keys ≡ keys
update_where-none key_id f [] h = refl
update_where-none key_id f (k ∷ keys) h = elim (Bool-cases (k.id == key_id)) [
  | inl e ↦ cc (rw e at h)
  | inr e ↦ rw e (ap (λ rest. k ∷ rest) (update_where-none key_id f keys (rw e at h)))
]

demoted-SinglePrimary :
    (key_id : ℕ) (s : Settings) (db : Db)
    → UniqueIds db
    → SinglePrimary db
    → SinglePrimary (set_key key_id (apply_settings s) (demote_others key_id db))
demoted-SinglePrimary key_id s db ids h user =
    elim (Option-cases (find_where (λ k. k.id == key_id) db.transcription_keys)) [
      | inl f ↦
          subst
            (λ d.
              count_where (is_primary_of user)
                (set_key key_id (apply_settings s) d).transcription_keys
              ≤ 1)
            (sym (demote_others-none key_id db f))
            (subst (λ keys. count_where (is_primary_of user) keys ≤ 1)
              (sym (update_where-none key_id (apply_settings s) db.transcription_keys f)) (h user))
      | inr (key, f) ↦
          subst
            (λ d.
              count_where (is_primary_of user)
                (set_key key_id (apply_settings s) d).transcription_keys
              ≤ 1)
            (sym (demote_others-found key_id db key f))
            (ground (
              arith,
              h user,
              ids key_id,
              promote-count key_id key.user_id user s db.transcription_keys
                  (only_key key_id key.user_id db.transcription_keys key (ids key_id) f refl),
            ))
    ]

update_key_settings-SinglePrimary :
    (key_id : ℕ) (s : Settings) (b : Option Bool) (db : Db)
    → s.is_primary ≡ b
    → UniqueIds db
    → SinglePrimary db
    → SinglePrimary (update_key_settings key_id s db)
unfolding update_key_settings
update_key_settings-SinglePrimary key_id s (some true) db e ids h =
    rw (e, update_key_settings) (demoted-SinglePrimary key_id s db ids h)
update_key_settings-SinglePrimary key_id s (some false) db e ids h =
    rw (e, update_key_settings)
      (set_key-SinglePrimary key_id (apply_settings s) db (λ u k p. ground (arith, e)) h)
update_key_settings-SinglePrimary key_id s none db e ids h =
    rw (e, update_key_settings)
      (set_key-SinglePrimary key_id (apply_settings s) db (λ u k p. ground (arith, e)) h)

-- Whatever changes a key, a user has at most one primary key after it, if the ids of the keys are
-- distinct and it was so before.
pub change-SinglePrimary :
    (c : KeyChange) (db : Db) → UniqueIds db → SinglePrimary db → SinglePrimary (change c db)
unfolding change revoke_key delete_key mark_exhausted mark_invalid
change-SinglePrimary (KeyChange.insert n) db ids h = insert_transcription_key-SinglePrimary n db h
change-SinglePrimary (KeyChange.update key_id s) db ids h =
    update_key_settings-SinglePrimary key_id s s.is_primary db refl ids h
change-SinglePrimary (KeyChange.revoke key_id) db ids h =
    set_key-SinglePrimary key_id _ db (λ u k p. ground arith) h
change-SinglePrimary (KeyChange.delete key_id) db ids h = λ user. omega (
  arith,
  h user,
  count_where-select_where (λ k. not (k.id == key_id)) (is_primary_of user) db.transcription_keys,
  count_where_mono (λ k. not (k.id == key_id) && is_primary_of user k) (is_primary_of user)
      db.transcription_keys (λ k e. ground arith),
)
change-SinglePrimary (KeyChange.exhaust key_id) db ids h =
    set_key-SinglePrimary key_id _ db (λ u k p. ground arith) h
change-SinglePrimary (KeyChange.invalidate key_id) db ids h =
    set_key-SinglePrimary key_id _ db (λ u k p. ground arith) h
