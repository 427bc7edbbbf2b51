-- ===== src/Cookies/Texts/Lines.antt =====
-- splitlines of a text whose lines all end in "\n".
use roles.Prelude.{
  ℕ, false, nat_eq, List, [], ◌∷◌, ◌++◌, append_assoc, append-nil, ◌≡◌, refl, ◌∙◌, All, ap,
}
use roles.Cookies.Texts.{Text, is_break, Scan, scan_char, scan_text, lines_of, splitlines}

-- No character of the text ends a line.
abbrev pub IsLine : Text → Type 0
IsLine = All (λ c. is_break c ≡ false)

-- The lines of a file, each with its "\n".
abbrev pub join_lines : List Text → Text
join_lines [] = []
join_lines (l ∷ ls) = l ++ 10 ∷ join_lines ls

between_line : List Text → Scan
between_line ended = record { ended = ended; line = []; after_return = false }

scan_char-line :
    (c : ℕ) (line : Text) (ended : List Text)
    → is_break c ≡ false
    → scan_char (record { ended = ended; line = line; after_return = false }) c
      ≡ record { ended = ended; line = line ++ c ∷ []; after_return = false }
unfolding scan_char
scan_char-line c line ended h = rw h refl

-- The scan of a line to its "\n", from its middle on.
scan_line :
    (l : Text) (rest line : Text) (ended : List Text)
    → IsLine l
    → scan_text (l ++ 10 ∷ rest) (record { ended = ended; line = line; after_return = false })
      ≡ scan_text rest
          (record { ended = ended ++ (line ++ l) ∷ []; line = []; after_return = false })
unfolding scan_text scan_char
scan_line [] rest line ended h = rw append-nil refl
scan_line (c ∷ cs) rest line ended h =
    ap (scan_text (cs ++ 10 ∷ rest)) (scan_char-line c line ended h.0)
    ∙ scan_line cs rest (line ++ c ∷ []) ended h.1
    ∙ rw append_assoc refl

scan-join_lines :
    (ls ended : List Text)
    → All IsLine ls
    → scan_text (join_lines ls) (between_line ended) ≡ between_line (ended ++ ls)
unfolding between_line scan_text
scan-join_lines [] ended h = rw append-nil refl
scan-join_lines (l ∷ ls) ended h =
    scan_line l (join_lines ls) [] ended h.0
    ∙ scan-join_lines ls (ended ++ l ∷ []) h.1
    ∙ ap between_line (append_assoc ended (l ∷ []) ls)

-- The lines of a file are the lines that were joined.
pub splitlines-join_lines : (ls : List Text) → All IsLine ls → splitlines (join_lines ls) ≡ ls
unfolding splitlines between_line
splitlines-join_lines ls h = ap lines_of (scan-join_lines ls [] h)
