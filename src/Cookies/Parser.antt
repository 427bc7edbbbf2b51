-- ===== src/Cookies/Parser.antt =====
-- parse_netscape_cookies of services/credentials_validator.py
pub mod RoundTrip
use roles.Prelude.{
  ℕ, ◌+◌, String, Bool, true, false, ◌==◌, nat_eq, if◌then◌else◌, Option, some, none, List, [], ◌∷◌,
  ◌++◌, length, ◌||◌, suc,
}
use roles.Db.Schema.{Amount}
use roles.Cookies.Texts.{
  Text, codes, splitlines, is_break, is_space, all_of, lstrip, rstrip_of, split, after, text_beq,
}

pub record Cookie : Type 0 where
  pub domain : Text
  pub flag : Bool
  pub path : Text
  pub secure : Bool
  pub expiry : Amount
  pub name : Text
  pub value : Text

-- An answer, or the ValueError with the line it names: a number of fields that is not 7, or an
-- expiry that `int` refuses.
pub data Parsed (A : Type 0) : Type 0 where
  parsed : A → Parsed A
  bad_fields : ℕ → ℕ → Parsed A
  bad_expiry : ℕ → Parsed A

abbrev pub is_true : Text → Bool
is_true = text_beq (codes "TRUE")

-- The fields of a line once its expiry is read.
abbrev pub cookie_with : Text → Text → Text → Text → Text → Text → ℕ → Option Amount → Parsed Cookie
cookie_with domain flag path secure name value lineno none = bad_expiry lineno
cookie_with domain flag path secure name value lineno (some expiry) = parsed (record {
  domain = domain;
  flag = is_true flag;
  path = path;
  secure = is_true secure;
  expiry = expiry;
  name = name;
  value = value;
})

module _ (int : Text → Option Amount) where
  abbrev pub cookie_of : ℕ → List Text → Parsed Cookie
  cookie_of lineno (domain ∷ flag ∷ path ∷ secure ∷ expiry ∷ name ∷ value ∷ []) =
      cookie_with domain flag path secure name value lineno (int expiry)
  cookie_of lineno fields = bad_fields lineno (length fields)

  abbrev pub add_cookie : List Cookie → Parsed Cookie → Parsed (List Cookie)
  add_cookie cookies (parsed c) = parsed (cookies ++ c ∷ [])
  add_cookie cookies (bad_fields l n) = bad_fields l n
  add_cookie cookies (bad_expiry l) = bad_expiry l

  abbrev pub starts_comment : Text → Bool
  starts_comment [] = false
  starts_comment (c ∷ cs) = c == 35

  -- The part of a line that holds the fields; `none` where the line is skipped, as a comment is
  -- unless it is the mark of a cookie of HTTP alone.
  abbrev pub fields_part : Text → Option Text
  fields_part line =
      if all_of is_space line
      then none
      else if starts_comment (lstrip line)
      then after (codes "#HttpOnly_") (lstrip line)
      else some line

  abbrev pub add_part : ℕ → List Cookie → Option Text → Parsed (List Cookie)
  add_part lineno cookies none = parsed cookies
  add_part lineno cookies (some line) = add_cookie cookies (cookie_of lineno (split 9 line))

  -- A round of the loop; an exception ends it, and stays.
  abbrev pub add_line : ℕ → Text → Parsed (List Cookie) → Parsed (List Cookie)
  add_line lineno raw (parsed cookies) =
      add_part lineno cookies (fields_part (rstrip_of (λ c. c == 13 || c == 10) raw))
  add_line lineno raw (bad_fields l n) = bad_fields l n
  add_line lineno raw (bad_expiry l) = bad_expiry l

  unfoldable pub parse_lines : ℕ → List Text → Parsed (List Cookie) → Parsed (List Cookie)
  parse_lines lineno [] acc = acc
  parse_lines lineno (raw ∷ rest) acc = parse_lines (suc lineno) rest (add_line lineno raw acc)

  unfoldable pub parse_netscape_cookies : Text → Parsed (List Cookie)
  unfolding parse_lines splitlines split
  parse_netscape_cookies content = parse_lines 1 (splitlines content) (parsed [])
