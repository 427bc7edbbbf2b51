-- ===== src/Acquisition/RequestCreation/UniqueKey.antt =====
-- The key under which insert_request_with_retry stores a request.
use roles.Prelude.{
  ℕ, zero, suc, ◌+◌, ◌≡◌, refl, String, Bool, true, false, none, some, List, [], ◌∷◌, ◌++◌, All,
  any_where, find_where-append_none, Bool-cases, inl, inr, string_eq, beq_refl,
}
use roles.Db.Schema.{Db}
use roles.Db.Requests.{NewRequest, with_key, new_request, insert_request, get_by_key}
use roles.Acquisition.Errors.{Code, Result, ok, err}
use roles.Acquisition.RequestCreation.{max_key_attempts, try_insert, insert_request_with_retry}

abbrev pub is_taken : Db → String → Bool
is_taken db key = any_where (with_key key) db.requests

-- The candidates that k rounds try.
unfoldable pub candidates : (ℕ → String) → ℕ → ℕ → String → List String
candidates suffixed zero i candidate = []
candidates suffixed (suc k) i candidate = candidate ∷ candidates suffixed k (suc i) (suffixed i)

abbrev pub IsStored : NewRequest → List String → Db → Result String → Db → Type 0
IsStored n keys db (ok key) db' =
    (is_taken db key ≡ false)
    × ((get_by_key key db' ≡ some (new_request key n db))
        × (db'.requests ≡ db.requests ++ new_request key n db ∷ []))
IsStored n keys db (err e) db' =
    (e ≡ Code.no_unique_key) × ((db' ≡ db) × All (λ key. is_taken db key ≡ true) keys)

widen :
    (n : NewRequest) (key : String) (keys : List String) (db : Db) (r : Result String) (db' : Db)
    → is_taken db key ≡ true
    → IsStored n keys db r db'
    → IsStored n (key ∷ keys) db r db'
widen n key keys db (ok k) db' t h = h
widen n key keys db (err e) db' t h = (h.0, (h.1.0, (t, h.1.1)))

pub insert_request-taken :
    (key : String) (n : NewRequest) (db : Db)
    → is_taken db key ≡ true
    → insert_request key n db ≡ none
unfolding insert_request
insert_request-taken key n db e = rw e refl

pub insert_request-free :
    (key : String) (n : NewRequest) (db : Db)
    → is_taken db key ≡ false
    → insert_request key n db
      ≡ some (record db {
        requests = db.requests ++ new_request key n db ∷ [];
        next_id = db.next_id + 1;
      })
unfolding insert_request
insert_request-free key n db e = rw e refl

try_insert-IsStored :
    (suffixed : ℕ → String) (n : NewRequest) (k i : ℕ) (candidate : String) (db : Db)
    → IsStored n
        (candidates suffixed k i candidate)
        db
        (try_insert suffixed n k i candidate db).0
        (try_insert suffixed n k i candidate db).1
unfolding try_insert candidates get_by_key
try_insert-IsStored suffixed n zero i candidate db = (refl, (refl, tt))
try_insert-IsStored suffixed n (suc k) i candidate db = elim (Bool-cases (is_taken db candidate)) [
  | inl e ↦
      rw (insert_request-taken candidate n db e, try_insert)
        (widen n candidate (candidates suffixed k (suc i) (suffixed i)) db _ _ e
          (try_insert-IsStored suffixed n k (suc i) (suffixed i) db))
  | inr e ↦
      rw (insert_request-free candidate n db e, try_insert)
        (
          e,
          (
            find_where-append_none (with_key candidate) db.requests (new_request candidate n db) e
                (beq_refl candidate),
            refl,
          ),
        )
]

-- When a key is returned, no request had it, exactly one row was appended, and the key now finds that
-- row; otherwise the error is that of the exhausted attempts, nothing was written, and the base key and
-- the first four suffixed keys were all taken.
pub insert_request_with_retry-IsStored :
    (suffixed : ℕ → String) (base_key : String) (n : NewRequest) (db : Db)
    → let tried = base_key ∷ suffixed 0 ∷ suffixed 1 ∷ suffixed 2 ∷ suffixed 3 ∷ [] in
      let end = insert_request_with_retry suffixed base_key n db in IsStored n tried db end.0 end.1
unfolding insert_request_with_retry candidates
insert_request_with_retry-IsStored suffixed base_key n db =
    try_insert-IsStored suffixed n max_key_attempts 0 base_key db
