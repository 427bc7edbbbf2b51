-- ===== src/Acquisition/Errors.antt =====
-- services/acquisition/errors.py: a tool returns a value or raises AcquisitionError with a code.
-- `integrity` is an error of the database, `key_error` and `type_error` are Python's,
-- `storage_error` is MinIO's: they leave the tool raw.
use roles.Prelude.{◌≡◌, refl, ◌⊎◌, inl, inr}

pub data Code : Type 0 where
  unknown_request already_cancelled invalid_filters invalid_cursor invalid_limit : Code
  invalid_url unsupported_platform no_credentials value_error : Code
  request_closed unsupported_media invalid_published_at upload_not_found upload_expired : Code
  no_unique_key integrity key_error type_error storage_error : Code

pub data Result {ℓ} (A : Type ℓ) : Type ℓ where
  ok : A → Result A
  err : Code → Result A

infixl 5 ◌>>=◌ ◌>>◌
abbrev pub ◌>>=◌ {ℓ κ} : {A : Type ℓ} {B : Type κ} → Result A → (A → Result B) → Result B
ok a >>= f = f a
err e >>= f = err e

abbrev pub ◌>>◌ {ℓ κ} : {A : Type ℓ} {B : Type κ} → Result A → Result B → Result B
m >> k = m >>= λ _. k

pub Result-cases {ℓ} :
    {A : Type ℓ} (r : Result A) → ((e : Code) × (r ≡ err e)) ⊎ ((a : A) × (r ≡ ok a))
Result-cases (err e) = inl (e, refl)
Result-cases (ok a) = inr (a, refl)
