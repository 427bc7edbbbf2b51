-- ===== src/Cookies/Texts.antt =====
-- The methods of str that the parser of cookies calls: splitlines, strip, lstrip, rstrip, split and
-- startswith.
pub mod Lines
pub mod Fields
use Prim.Native.Char.{code}
use Prim.Native.String
use roles.Prelude.{
  ℕ, zero, suc, String, Bool, true, false, not, ◌&&◌, ◌||◌, ◌==◌, nat_eq, leb, if◌then◌else◌,
  Option, some, none, List, [], ◌∷◌, ◌++◌,
}

abbrev pub Text : Type 0
Text = List ℕ

abbrev pub codes : String → Text
codes String.[] = []
codes (String.◌∷◌ c s) = code c ∷ codes s

abbrev pub between : ℕ → ℕ → ℕ → Bool
between low high c = leb low c && leb c high

-- The ends of lines of str.splitlines.
abbrev pub is_break : ℕ → Bool
is_break c = between 10 13 c || between 28 30 c || c == 133 || between 8232 8233 c

-- str.isspace of a character.
abbrev pub is_space : ℕ → Bool
is_space c =
    between 9 13 c
    || between 28 32 c
    || c == 133
    || c == 160
    || c == 5760
    || between 8192 8202 c
    || between 8232 8233 c
    || c == 8239
    || c == 8287
    || c == 12288

abbrev pub all_of : (ℕ → Bool) → Text → Bool
all_of p [] = true
all_of p (c ∷ cs) = p c && all_of p cs

-- What splitlines has read: the lines that ended, the line it is in, and whether a "\r" ended the last.
pub record Scan : Type 0 where
  pub ended : List Text
  pub line : Text
  pub after_return : Bool

abbrev pub scan_start : Scan
scan_start = record { ended = []; line = []; after_return = false }

-- "\r\n" ends one line.
unfoldable pub scan_char : Scan → ℕ → Scan
scan_char s c =
    if s.after_return && c == 10
    then record s { after_return = false }
    else if is_break c
    then record { ended = s.ended ++ s.line ∷ []; line = []; after_return = c == 13 }
    else record s { line = s.line ++ c ∷ []; after_return = false }

unfoldable pub scan_text : Text → Scan → Scan
unfolding scan_char
scan_text [] s = s
scan_text (c ∷ cs) s = scan_text cs (scan_char s c)

-- A last line without an end counts if it is not empty.
abbrev pub with_last : List Text → Text → List Text
with_last ls [] = ls
with_last ls (c ∷ cs) = ls ++ (c ∷ cs) ∷ []

abbrev pub lines_of : Scan → List Text
lines_of s = with_last s.ended s.line

unfoldable pub splitlines : Text → List Text
unfolding scan_text
splitlines text = lines_of (scan_text text scan_start)

abbrev pub drop_while : (ℕ → Bool) → Text → Text
drop_while p [] = []
drop_while p (c ∷ cs) = if p c then drop_while p cs else c ∷ cs

abbrev pub lstrip : Text → Text
lstrip = drop_while is_space

-- What is kept of a character before what is kept behind it.
abbrev pub keep_end : (ℕ → Bool) → ℕ → Text → Text
keep_end p c [] = if p c then [] else c ∷ []
keep_end p c (d ∷ ds) = c ∷ d ∷ ds

abbrev pub rstrip_of : (ℕ → Bool) → Text → Text
rstrip_of p [] = []
rstrip_of p (c ∷ cs) = keep_end p c (rstrip_of p cs)

-- str.split of one character: the fields that ended, and the one it is in.
abbrev pub split_into : ℕ → Text → Text → List Text → List Text
split_into sep [] field fields = fields ++ field ∷ []
split_into sep (c ∷ cs) field fields =
    split_into sep cs (if c == sep then [] else field ++ c ∷ [])
      (if c == sep then fields ++ field ∷ [] else fields)

unfoldable pub split : ℕ → Text → List Text
split sep text = split_into sep text [] []

-- The rest behind a prefix that the text starts with.
abbrev pub after : Text → Text → Option Text
after [] text = some text
after (p ∷ ps) [] = none
after (p ∷ ps) (c ∷ cs) = if p == c then after ps cs else none

abbrev pub text_beq : Text → Text → Bool
text_beq [] [] = true
text_beq [] (b ∷ y) = false
text_beq (a ∷ x) [] = false
text_beq (a ∷ x) (b ∷ y) = a == b && text_beq x y
