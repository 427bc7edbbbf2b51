-- ===== src/Cookies/Parser/RoundTrip.antt =====
-- parse_netscape_cookies of services/credentials_validator.py reads the files that this prints.
use roles.Prelude.{
  ℕ, suc, Bool, true, false, not, ◌&&◌, ◌||◌, ◌==◌, nat_eq, Option, some, none, List, [], ◌∷◌, ◌++◌,
  append_assoc, append-nil, ◌≡◌, refl, ◌∙◌, ap, All, arith, Bool-cases, inl, inr,
}
use roles.Db.Schema.{Amount}
use roles.Cookies.Texts.{Text, codes, is_space, all_of, rstrip_of, keep_end, after}
use roles.Cookies.Texts.Lines.{IsLine, join_lines, splitlines-join_lines}
use roles.Cookies.Texts.Fields.{Lacks, join, split-join}
use roles.Cookies.Parser.{
  Cookie, parsed, is_true, fields_part, add_part, add_line, parse_lines, parse_netscape_cookies,
}

-- The seven fields of a line, as texts, and the number that `int` reads in the fifth.
pub record Fields : Type 0 where
  pub domain : Text
  pub flag : Text
  pub path : Text
  pub secure : Text
  pub expiry : Text
  pub name : Text
  pub value : Text
  pub number : Amount

-- What a line of a file holds.
pub data FileLine : Type 0 where
  blank comment : Text → FileLine
  plain http_only : Fields → FileLine

abbrev pub print_fields : Fields → Text
print_fields f = join 9 f.domain (f.flag ∷ f.path ∷ f.secure ∷ f.expiry ∷ f.name ∷ f.value ∷ [])

abbrev pub print_line : FileLine → Text
print_line (FileLine.blank t) = t
print_line (FileLine.comment t) = 35 ∷ t
print_line (FileLine.plain f) = print_fields f
print_line (FileLine.http_only f) = codes "#HttpOnly_" ++ print_fields f

abbrev pub print_lines : List FileLine → List Text
print_lines [] = []
print_lines (l ∷ ls) = print_line l ∷ print_lines ls

-- The file, each line ended by "\n".
abbrev pub print_file : List FileLine → Text
print_file ls = join_lines (print_lines ls)

abbrev pub cookie_from : Fields → Cookie
cookie_from f = record {
  domain = f.domain;
  flag = is_true f.flag;
  path = f.path;
  secure = is_true f.secure;
  expiry = f.number;
  name = f.name;
  value = f.value;
}

abbrev pub cookies_in : List FileLine → List Cookie
cookies_in [] = []
cookies_in (FileLine.plain f ∷ ls) = cookie_from f ∷ cookies_in ls
cookies_in (FileLine.http_only f ∷ ls) = cookie_from f ∷ cookies_in ls
cookies_in (FileLine.blank t ∷ ls) = cookies_in ls
cookies_in (FileLine.comment t ∷ ls) = cookies_in ls

-- A first character that is neither a space nor "#".
abbrev pub starts_plainly : Text → Bool
starts_plainly [] = false
starts_plainly (c ∷ cs) = not (is_space c) && not (c == 35)

module _ (int : Text → Option Amount) where
  abbrev pub HasFields : Fields → Type 0
  HasFields f =
      All (Lacks 9) (f.domain ∷ f.flag ∷ f.path ∷ f.secure ∷ f.expiry ∷ f.name ∷ f.value ∷ [])
      × (int f.expiry ≡ some f.number)

  -- The lines that can be read back: one line each; a blank one of spaces alone, a comment without
  -- the mark, and fields without a tab, the domain of which starts plainly where no mark stands before.
  abbrev pub IsPrintable : FileLine → Type 0
  IsPrintable (FileLine.blank t) = IsLine t × (all_of is_space t ≡ true)
  IsPrintable (FileLine.comment t) = IsLine (35 ∷ t) × (after (codes "HttpOnly_") t ≡ none)
  IsPrintable (FileLine.plain f) =
      IsLine (print_fields f) × HasFields f × (starts_plainly f.domain ≡ true)
  IsPrintable (FileLine.http_only f) = IsLine (codes "#HttpOnly_" ++ print_fields f) × HasFields f

-- A line has nothing that the rstrip of its end could take.
rstrip_of-IsLine : (t : Text) → IsLine t → rstrip_of (λ c. c == 13 || c == 10) t ≡ t
rstrip_of-IsLine [] h = refl
rstrip_of-IsLine (c ∷ cs) h = rw (rstrip_of-IsLine cs h.1) (kept cs)
  where
    no_end : (c == 13 || c == 10) ≡ false
    no_end = ground (arith, h.0)

    kept : (t : Text) → keep_end (λ d. d == 13 || d == 10) c t ≡ c ∷ t
    kept [] = rw no_end refl
    kept (d ∷ ds) = refl

fields_part-plain :
    (int : Text → Option Amount) (d rest : Text)
    → starts_plainly d ≡ true
    → fields_part int (d ++ rest) ≡ some (d ++ rest)
fields_part-plain int [] rest h = cc
fields_part-plain int (c ∷ cs) rest h = rw (not_space, not_mark) refl
  where
    not_space : is_space c ≡ false
    not_space = elim (Bool-cases (is_space c)) [ inl e ↦ cc (rw e at h) | inr e ↦ e ]

    not_mark : (c == 35) ≡ false
    not_mark = elim (Bool-cases (c == 35)) [ inr e ↦ e | inl e ↦ cc (rw (not_space, e) at h) ]

module _ (int : Text → Option Amount) where
  -- The fields of a line, split and read.
  add_fields :
      (lineno : ℕ) (f : Fields) (cookies : List Cookie)
      → HasFields int f
      → add_part int lineno cookies (some (print_fields f)) ≡ parsed (cookies ++ cookie_from f ∷ [])
  add_fields lineno f cookies h =
      rw
        (split-join 9 f.domain (f.flag ∷ f.path ∷ f.secure ∷ f.expiry ∷ f.name ∷ f.value ∷ []) h.0.0
          h.0.1)
        (rw h.1 refl)

  add_line-printed :
      (lineno : ℕ) (l : FileLine) (cookies : List Cookie)
      → IsPrintable int l
      → add_line int lineno (print_line l) (parsed cookies)
        ≡ parsed (cookies ++ cookies_in (l ∷ []))
  add_line-printed lineno (FileLine.blank t) cookies h =
      rw (rstrip_of-IsLine t h.0, h.1, append-nil) refl
  add_line-printed lineno (FileLine.comment t) cookies h =
      rw (rstrip_of-IsLine (35 ∷ t) h.0, h.1, append-nil) refl
  add_line-printed lineno (FileLine.plain f) cookies h =
      rw (rstrip_of-IsLine (print_fields f) h.0) (
        rw
          (fields_part-plain int f.domain
            (9 ∷ join 9 f.flag (f.path ∷ f.secure ∷ f.expiry ∷ f.name ∷ f.value ∷ [])) h.2)
          (add_fields lineno f cookies h.1))
  add_line-printed lineno (FileLine.http_only f) cookies h =
      rw (rstrip_of-IsLine (codes "#HttpOnly_" ++ print_fields f) h.0)
        (add_fields lineno f cookies h.1)

  cookies_in-cons :
      (l : FileLine) (ls : List FileLine)
      → cookies_in (l ∷ []) ++ cookies_in ls ≡ cookies_in (l ∷ ls)
  cookies_in-cons (FileLine.blank t) ls = refl
  cookies_in-cons (FileLine.comment t) ls = refl
  cookies_in-cons (FileLine.plain f) ls = refl
  cookies_in-cons (FileLine.http_only f) ls = refl

  parse_lines-print :
      (ls : List FileLine) (lineno : ℕ) (cookies : List Cookie)
      → All (IsPrintable int) ls
      → parse_lines int lineno (print_lines ls) (parsed cookies) ≡ parsed (cookies ++ cookies_in ls)
  unfolding parse_lines
  parse_lines-print [] lineno cookies h = rw append-nil refl
  parse_lines-print (l ∷ ls) lineno cookies h =
      ap (parse_lines int (suc lineno) (print_lines ls)) (add_line-printed lineno l cookies h.0)
      ∙ parse_lines-print ls (suc lineno) (cookies ++ cookies_in (l ∷ [])) h.1
      ∙ ap parsed (
          append_assoc cookies (cookies_in (l ∷ [])) (cookies_in ls)
          ∙ ap (λ x. cookies ++ x) (cookies_in-cons l ls))

  IsPrintable-IsLine : (l : FileLine) → IsPrintable int l → IsLine (print_line l)
  IsPrintable-IsLine (FileLine.blank t) h = h.0
  IsPrintable-IsLine (FileLine.comment t) h = h.0
  IsPrintable-IsLine (FileLine.plain f) h = h.0
  IsPrintable-IsLine (FileLine.http_only f) h = h.0

  print_lines-IsLine : (ls : List FileLine) → All (IsPrintable int) ls → All IsLine (print_lines ls)
  print_lines-IsLine [] h = tt
  print_lines-IsLine (l ∷ ls) h = (IsPrintable-IsLine l h.0, print_lines-IsLine ls h.1)

  -- A file of printable lines, blank ones and comments among them, is read as the cookies of its
  -- lines, in their order: those with the mark of a cookie of HTTP alone and those without.
  pub parse_netscape_cookies-print_file :
      (ls : List FileLine)
      → All (IsPrintable int) ls
      → parse_netscape_cookies int (print_file ls) ≡ parsed (cookies_in ls)
  unfolding parse_netscape_cookies
  parse_netscape_cookies-print_file ls h =
      ap (λ t. parse_lines int 1 t (parsed []))
        (splitlines-join_lines (print_lines ls) (print_lines-IsLine ls h))
      ∙ parse_lines-print ls 1 [] h
