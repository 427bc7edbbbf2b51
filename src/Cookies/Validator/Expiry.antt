-- ===== src/Cookies/Validator/Expiry.antt =====
-- The verdict of validate_cookies of services/credentials_validator.py on a file that it can read.
use roles.Prelude.{
  ℕ, String, Bool, true, false, ◌==◌, nat_eq, ltb, leb, max, ◌≤◌, Option, some, none, List, [], ◌∷◌,
  length, All, All-mono, any_where, any_where_mono, is_nonempty-select_where, Bool-cases, inl, inr,
  ◌≡◌, refl, arith, not, subst, sym,
}
use roles.Db.Schema.{Amount}
use roles.Secrets.Effects.{Reply, ok, raised}
use roles.Cookies.Texts.{Text}
use roles.Cookies.Parser.{Cookie, parsed, parse_netscape_cookies}
use roles.Cookies.Validator.{
  CookieVerdict, Readers, found_required, with_expiry, max_expiry, last_second, accepted_until,
  judge_found, required_cookies, validate_cookies, is_named_in,
}

abbrev pub expires_by : ℕ → Amount → Bool
expires_by t (Amount.credit n) = leb n t
expires_by t (Amount.debt n) = true

abbrev pub is_expiry : ℕ → Amount → Bool
is_expiry t (Amount.credit n) = n == t
is_expiry t (Amount.debt n) = false

-- The latest expiry of the cookies, where one is above 0.
abbrev pub IsLatest : List Cookie → Option ℕ → Type 0
IsLatest cs none = All (λ c. expires_by 0 c.expiry ≡ true) cs
IsLatest cs (some t) =
    All (λ c. expires_by t c.expiry ≡ true) cs × (any_where (λ c. is_expiry t c.expiry) cs ≡ true)

expires_by_mono : (a b : ℕ) (e : Amount) → a ≤ b → expires_by a e ≡ true → expires_by b e ≡ true
expires_by_mono a b (Amount.debt n) l h = refl
expires_by_mono a b (Amount.credit n) l h = ground arith

All-expires_by :
    (a b : ℕ) (cs : List Cookie)
    → a ≤ b
    → All (λ c. expires_by a c.expiry ≡ true) cs
    → All (λ c. expires_by b c.expiry ≡ true) cs
All-expires_by a b cs l =
    All-mono (λ c. expires_by a c.expiry ≡ true) (λ c. expires_by b c.expiry ≡ true) cs
      (λ c. expires_by_mono a b c.expiry l)

max_expiry-IsLatest : (cs : List Cookie) → IsLatest cs (max_expiry cs)
max_expiry-IsLatest [] = tt
max_expiry-IsLatest (c ∷ cs) = joined c.expiry (max_expiry cs) (max_expiry-IsLatest cs) refl
  where
    joined :
        (e : Amount) (best : Option ℕ)
        → IsLatest cs best
        → c.expiry ≡ e
        → IsLatest (c ∷ cs) (with_expiry e best)
    joined (Amount.debt n) none h e = (rw e refl, h)
    joined (Amount.debt n) (some m) h e = ((rw e refl, h.0), rw e h.1)
    joined (Amount.credit n) none h e = elim (Bool-cases (ltb 0 n)) [
      | inl p ↦
          rw p ((rw e (ground arith), All-expires_by 0 n cs (omega arith) h), rw e (ground arith))
      | inr p ↦ rw p (rw e (ground arith), h)
    ]
    joined (Amount.credit n) (some m) h e = elim (Bool-cases (ltb m n)) [
      | inl p ↦
          subst (λ t. IsLatest (c ∷ cs) (some t)) (sym (later p))
            ((rw e (ground arith), All-expires_by m n cs (ground arith) h.0), rw e (ground arith))
      | inr p ↦
          subst (λ t. IsLatest (c ∷ cs) (some t)) (sym (sooner p))
            ((rw e (ground arith), h.0), any_later p)
    ]
      where
        later : ltb m n ≡ true → max n m ≡ n
        later p = ground arith

        sooner : ltb m n ≡ false → max n m ≡ m
        sooner p = ground arith

        any_later : ltb m n ≡ false → any_where (λ x. is_expiry m x.expiry) (c ∷ cs) ≡ true
        any_later p = ground (arith, h.1)

-- The verdict is valid where a cookie that the platform needs is there, it counts all cookies, and it
-- ends with the last of the needed ones; an exception comes of one that ends after the year 9999.
abbrev pub IsJudged : List Text → List Cookie → Reply CookieVerdict → Type 0
IsJudged required cookies (raised e) =
    any_where (λ c. not (expires_by last_second c.expiry)) (found_required required cookies) ≡ true
IsJudged required cookies (ok v) =
    (v.valid ≡ any_where (λ c. is_named_in required c.name) cookies)
    × (v.cookies_count ≡ length cookies)
    × IsLatest (found_required required cookies) v.expires_at

accepted_until-IsJudged :
    (required : List Text) (cookies : List Cookie) (best : Option ℕ)
    → any_where (λ c. is_named_in required c.name) cookies ≡ true
    → IsLatest (found_required required cookies) best
    → IsJudged required cookies (accepted_until (length cookies) best)
accepted_until-IsJudged required cookies none f l = (sym f, refl, l)
accepted_until-IsJudged required cookies (some t) f l = elim (Bool-cases (ltb last_second t)) [
  | inr p ↦ rw (IsJudged, p) (sym f, refl, l)
  | inl p ↦
      rw (IsJudged, p)
        (any_where_mono (λ c. is_expiry t c.expiry) (λ c. not (expires_by last_second c.expiry))
          (found_required required cookies) (λ c. too_late c.expiry p) l.1)
]
  where
    too_late :
        (e : Amount)
        → ltb last_second t ≡ true
        → is_expiry t e ≡ true
        → not (expires_by last_second e) ≡ true
    too_late (Amount.debt n) p h = cc
    too_late (Amount.credit n) p h = ground arith

-- Either no needed cookie is found, or one is.
judge_found-IsJudged :
    (required : List Text) (cookies found : List Cookie)
    → found_required required cookies ≡ found
    → IsJudged required cookies (judge_found (length cookies) found)
judge_found-IsJudged required cookies [] e =
    (sym (is_nonempty-select_where (λ c. is_named_in required c.name) cookies [] e), refl, rw e tt)
judge_found-IsJudged required cookies (c ∷ cs) e =
    accepted_until-IsJudged required cookies (max_expiry (c ∷ cs))
      (is_nonempty-select_where (λ d. is_named_in required d.name) cookies (c ∷ cs) e)
      (subst (λ f. IsLatest f (max_expiry (c ∷ cs))) (sym e) (max_expiry-IsLatest (c ∷ cs)))

-- The verdict on a file that can be read, for a platform that is known: it is valid exactly if a
-- cookie that the platform needs is there, it counts all the cookies, and it expires with the last of
-- the needed ones that have an expiry. It raises only where one of those ends after the year 9999.
pub validate_cookies-IsJudged :
    (r : Readers) (platform cookies_b64 : String) (required : List Text) (text : Text)
    (cookies : List Cookie)
    → required_cookies platform ≡ some required
    → r.b64decode cookies_b64 ≡ some text
    → parse_netscape_cookies r.int text ≡ parsed cookies
    → IsJudged required cookies (validate_cookies r platform cookies_b64)
unfolding validate_cookies
validate_cookies-IsJudged r platform cookies_b64 required text cookies k d p =
    rw (k, d, p) (judge_found-IsJudged required cookies (found_required required cookies) refl)
