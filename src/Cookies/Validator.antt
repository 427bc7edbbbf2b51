-- ===== src/Cookies/Validator.antt =====
-- validate_cookies of services/credentials_validator.py
pub mod Expiry
use roles.Prelude.{
  ℕ, String, Bool, true, false, ◌&&◌, ◌==◌, nat_eq, string_eq, ltb, max, if◌then◌else◌, Option,
  some, none, List, [], ◌∷◌, length, select_where,
}
use roles.Db.Schema.{Amount}
use roles.Secrets.Effects.{Fault, Reply, ok, raised}
use roles.Cookies.Texts.{Text, codes, text_beq}
use roles.Cookies.Parser.{Cookie, Parsed, parsed, bad_fields, bad_expiry, parse_netscape_cookies}

-- PLATFORM_REQUIRED_COOKIES
abbrev pub required_cookies : String → Option (List Text)
required_cookies platform =
    if platform == "youtube"
    then some (codes "SID" ∷ codes "SAPISID" ∷ codes "__Secure-3PSID" ∷ [])
    else if platform == "instagram"
    then some (codes "sessionid" ∷ [])
    else if platform == "tiktok"
    then some (codes "sessionid" ∷ codes "sid_tt" ∷ [])
    else none

-- The message of a refusal.
pub data Problem : Type 0 where
  unknown_platform invalid_base64 parse_error missing_required : Problem

pub record CookieVerdict : Type 0 where
  pub valid : Bool
  pub error : Option Problem
  pub expires_at : Option ℕ
  pub cookies_count : ℕ

abbrev refused : Problem → ℕ → CookieVerdict
refused problem count = record {
  valid = false;
  error = some problem;
  expires_at = none;
  cookies_count = count;
}

abbrev pub is_named_in : List Text → Text → Bool
is_named_in [] name = false
is_named_in (n ∷ ns) name = if text_beq n name then true else is_named_in ns name

abbrev pub found_required : List Text → List Cookie → List Cookie
found_required required cookies = select_where (λ c. is_named_in required c.name) cookies

-- max(…, default=None) of the expiries above 0
abbrev pub with_expiry : Amount → Option ℕ → Option ℕ
with_expiry (Amount.debt n) best = best
with_expiry (Amount.credit n) none = if ltb 0 n then some n else none
with_expiry (Amount.credit n) (some m) = some (max n m)

abbrev pub max_expiry : List Cookie → Option ℕ
max_expiry [] = none
max_expiry (c ∷ cs) = with_expiry c.expiry (max_expiry cs)

-- The last second that datetime.fromtimestamp takes: 9999-12-31T23:59:59Z.
abbrev pub last_second : ℕ
last_second = 253402300799

abbrev pub accepted_until : ℕ → Option ℕ → Reply CookieVerdict
accepted_until count none =
    ok (record { valid = true; error = none; expires_at = none; cookies_count = count })
accepted_until count (some t) =
    if ltb last_second t
    then raised Fault.value_error
    else ok (record { valid = true; error = none; expires_at = some t; cookies_count = count })

abbrev pub judge_found : ℕ → List Cookie → Reply CookieVerdict
judge_found count [] = ok (refused Problem.missing_required count)
judge_found count (c ∷ cs) = accepted_until count (max_expiry (c ∷ cs))

abbrev pub judge : List Text → Parsed (List Cookie) → Reply CookieVerdict
judge required (parsed cookies) = judge_found (length cookies) (found_required required cookies)
judge required (bad_fields l n) = ok (refused Problem.parse_error 0)
judge required (bad_expiry l) = ok (refused Problem.parse_error 0)

-- `int`, and base64 with UTF-8; `none` is the exception.
pub record Readers : Type 0 where
  pub int : Text → Option Amount
  pub b64decode : String → Option Text

module _ (r : Readers) where
  abbrev pub judge_text : List Text → Option Text → Reply CookieVerdict
  judge_text required none = ok (refused Problem.invalid_base64 0)
  judge_text required (some text) = judge required (parse_netscape_cookies r.int text)

  abbrev pub judge_required : Option (List Text) → String → Reply CookieVerdict
  judge_required none cookies_b64 = ok (refused Problem.unknown_platform 0)
  judge_required (some required) cookies_b64 = judge_text required (r.b64decode cookies_b64)

  unfoldable pub validate_cookies : String → String → Reply CookieVerdict
  unfolding parse_netscape_cookies
  validate_cookies platform cookies_b64 = judge_required (required_cookies platform) cookies_b64
