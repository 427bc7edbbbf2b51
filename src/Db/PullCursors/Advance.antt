-- ===== src/Db/PullCursors/Advance.antt =====
-- What a stored cursor is after any upserts: those of other callers and stale ones included.
use roles.Prelude.{
  ℕ, ◌≤◌, ◌≡◌, refl, sym, String, Bool, true, false, Option, none, some, List, [], ◌∷◌, ◌++◌, map,
  arith, max, any_where, any_where-some, find_where, select_where, find_where-append_none,
  find_where-update_where, find_where_sound, Bool-cases, Option-cases, inl, inr, nat_eq, string_eq,
  beq_refl, subst,
}
use roles.Db.Schema.{Db, PullCursor}
use roles.Db.PullCursors.{is_cursor_of, get_last_pulled_at, upsert_cursor}

-- The upserts in turn, each a cursor with its key and its time.
abbrev pub upsert_all : List PullCursor → Db → Db
upsert_all [] db = db
upsert_all (c ∷ cs) db = upsert_all cs (upsert_cursor c.request_id c.caller c.last_pulled_at db)

abbrev pub later : Option ℕ → ℕ → ℕ
later none t = t
later (some u) t = max u t

-- The latest of the times, if there is any.
abbrev pub latest : List ℕ → Option ℕ
latest [] = none
latest (t ∷ ts) = some (later (latest ts) t)

abbrev pub as_list : Option ℕ → List ℕ
as_list none = []
as_list (some t) = t ∷ []

-- The times of the upserts of one caller on one request.
abbrev pub own_times : ℕ → String → List PullCursor → List ℕ
own_times request_id caller cs =
    map (λ c. c.last_pulled_at) (select_where (is_cursor_of request_id caller) cs)

own_cursor :
    (request_id : ℕ) (caller : String) (t : ℕ)
    → is_cursor_of request_id caller
        (record { request_id = request_id; caller = caller; last_pulled_at = t })
      ≡ true
own_cursor request_id caller t = rw (beq_refl request_id, beq_refl caller) refl

any_where-none :
    (p : PullCursor → Bool) (cs : List PullCursor) → any_where p cs ≡ false → find_where p cs ≡ none
any_where-none p [] h = refl
any_where-none p (c ∷ cs) h = ground (arith, any_where-none p cs)

find_where-append_other :
    (p : PullCursor → Bool) (cs : List PullCursor) (c : PullCursor)
    → p c ≡ false
    → find_where p (cs ++ c ∷ []) ≡ find_where p cs
find_where-append_other p [] c h = rw h refl
find_where-append_other p (d ∷ cs) c h = ground (arith, find_where-append_other p cs c)

-- After an upsert of its own a cursor stands at the later of the two times.
get_last_pulled_at-own :
    (request_id : ℕ) (caller : String) (t : ℕ) (db : Db)
    → get_last_pulled_at request_id caller (upsert_cursor request_id caller t db)
      ≡ some (later (get_last_pulled_at request_id caller db) t)
unfolding get_last_pulled_at upsert_cursor
get_last_pulled_at-own request_id caller t db =
    let own = is_cursor_of request_id caller in
    elim (Bool-cases (any_where own db.cursors)) [
      | inl e ↦
          let (c, found) = any_where-some own db.cursors e in
          rw e (
            rw
              (find_where-update_where own own
                (λ c. record c { last_pulled_at = max c.last_pulled_at t }) db.cursors (λ c. refl))
              (rw found (rw (find_where_sound own db.cursors found) refl)))
      | inr e ↦
          rw (e, any_where-none own db.cursors e)
            (rw
              (find_where-append_none own db.cursors
                (record { request_id = request_id; caller = caller; last_pulled_at = t }) e
                (own_cursor request_id caller t))
              refl)
    ]

same_key :
    (request_id : ℕ) (caller : String) (c x : PullCursor)
    → is_cursor_of request_id caller x ≡ true
    → is_cursor_of c.request_id c.caller x ≡ true
    → is_cursor_of request_id caller c ≡ true
same_key request_id caller c x h k = ground (
  arith,
  string_eq.beq_iff x.caller caller,
  string_eq.beq_iff x.caller c.caller,
  string_eq.beq_iff c.caller caller,
)

-- An upsert under another key leaves a cursor where it is.
get_last_pulled_at-other :
    (request_id : ℕ) (caller : String) (c : PullCursor) (db : Db)
    → is_cursor_of request_id caller c ≡ false
    → get_last_pulled_at request_id caller (upsert_cursor c.request_id c.caller c.last_pulled_at db)
      ≡ get_last_pulled_at request_id caller db
unfolding get_last_pulled_at upsert_cursor
get_last_pulled_at-other request_id caller c db other =
    let own = is_cursor_of request_id caller in
    let written = is_cursor_of c.request_id c.caller in
    elim (Bool-cases (any_where written db.cursors)) [
      | inl e ↦ rw e (
          rw
            (find_where-update_where own written
              (λ d. record d { last_pulled_at = max d.last_pulled_at c.last_pulled_at }) db.cursors
              (λ d. refl))
            (elim (Option-cases (find_where own db.cursors)) [
              | inl none_found ↦ rw none_found refl
              | inr (d, found) ↦ elim (Bool-cases (written d)) [
                | inl k ↦ absurd (
                    cc (
                      other,
                      same_key request_id caller c d (find_where_sound own db.cursors found) k,
                    ))
                | inr k ↦ rw (found, k) refl
              ]
            ]))
      | inr e ↦ rw (e, find_where-append_other own db.cursors c other) refl
    ]

get_last_pulled_at-written :
    (request_id : ℕ) (caller : String) (c : PullCursor) (db : Db)
    → is_cursor_of request_id caller c ≡ true
    → get_last_pulled_at request_id caller (upsert_cursor c.request_id c.caller c.last_pulled_at db)
      ≡ some (later (get_last_pulled_at request_id caller db) c.last_pulled_at)
get_last_pulled_at-written request_id caller c db own =
    let request : c.request_id ≡ request_id = ground (arith, string_eq.beq_iff c.caller caller) in
    let who : c.caller ≡ caller = ground (arith, string_eq.beq_iff c.caller caller) in
    subst
      (λ r.
        get_last_pulled_at request_id caller (upsert_cursor r c.caller c.last_pulled_at db)
        ≡ some (later (get_last_pulled_at request_id caller db) c.last_pulled_at))
      (sym request)
      (subst
        (λ k.
          get_last_pulled_at request_id caller (upsert_cursor request_id k c.last_pulled_at db)
          ≡ some (later (get_last_pulled_at request_id caller db) c.last_pulled_at))
        (sym who) (get_last_pulled_at-own request_id caller c.last_pulled_at db))

le-later : (o : Option ℕ) (t : ℕ) → t ≤ later o t
le-later none t = omega arith
le-later (some u) t = ground arith

-- After the upsert the cursor of the caller stands at `t` or later.
pub get_last_pulled_at-upsert_cursor :
    (request_id : ℕ) (caller : String) (t : ℕ) (db : Db)
    → (u : ℕ) × (get_last_pulled_at request_id caller (upsert_cursor request_id caller t db)
        ≡ some u)
      × (t ≤ u)
get_last_pulled_at-upsert_cursor request_id caller t db =
    let before = get_last_pulled_at request_id caller db in
    (later before t, get_last_pulled_at-own request_id caller t db, le-later before t)

latest-later :
    (o : Option ℕ) (t : ℕ) (ts : List ℕ)
    → latest (as_list (some (later o t)) ++ ts) ≡ latest (as_list o ++ t ∷ ts)
latest-later none t ts = refl
latest-later (some u) t ts = elim (Option-cases (latest ts)) [
  | inl e ↦ rw e (ground arith)
  | inr (v, e) ↦ rw e (ground arith)
]

-- After any upserts, in whatever order, of whatever callers and on whatever requests, a cursor stands at
-- the latest of its position before and the times of its own upserts, and is absent only if it was
-- absent and none of them was its own.
pub get_last_pulled_at-upsert_all :
    (request_id : ℕ) (caller : String) (cs : List PullCursor) (db : Db)
    → get_last_pulled_at request_id caller (upsert_all cs db)
      ≡ latest (as_list (get_last_pulled_at request_id caller db) ++ own_times request_id caller cs)
get_last_pulled_at-upsert_all request_id caller [] db =
    elim (Option-cases (get_last_pulled_at request_id caller db)) [
      | inl e ↦ rw e refl
      | inr (t, e) ↦ rw e refl
    ]
get_last_pulled_at-upsert_all request_id caller (c ∷ cs) db =
    let db' = upsert_cursor c.request_id c.caller c.last_pulled_at db in
    elim (Bool-cases (is_cursor_of request_id caller c)) [
      | inl e ↦
          rw
            (
              e,
              get_last_pulled_at-upsert_all request_id caller cs db',
              get_last_pulled_at-written request_id caller c db e,
            )
            (latest-later (get_last_pulled_at request_id caller db) c.last_pulled_at
              (own_times request_id caller cs))
      | inr e ↦
          rw
            (
              e,
              get_last_pulled_at-upsert_all request_id caller cs db',
              get_last_pulled_at-other request_id caller c db e,
            )
            refl
    ]
