-- ===== src/Cookies/Texts/Fields.antt =====
-- str.split of joined fields.
use roles.Prelude.{
  ℕ, false, ◌==◌, nat_eq, beq_refl, List, [], ◌∷◌, ◌++◌, append_assoc, append-nil, ◌≡◌, refl, sym,
  ◌∙◌, All, ap,
}
use roles.Cookies.Texts.{Text, split_into, split}

abbrev pub Lacks : ℕ → Text → Type 0
Lacks sep = All (λ c. (c == sep) ≡ false)

abbrev pub join : ℕ → Text → List Text → Text
join sep f [] = f
join sep f (g ∷ gs) = f ++ sep ∷ join sep g gs

split_field :
    (sep : ℕ) (f rest field : Text) (fields : List Text)
    → Lacks sep f
    → split_into sep (f ++ rest) field fields ≡ split_into sep rest (field ++ f) fields
split_field sep [] rest field fields h = rw append-nil refl
split_field sep (c ∷ cs) rest field fields h =
    rw (split_into, h.0)
      (rw (split_field sep cs rest (field ++ c ∷ []) fields h.1, append_assoc) refl)

split_into-join :
    (sep : ℕ) (f : Text) (fs : List Text) (fields : List Text)
    → Lacks sep f
    → All (Lacks sep) fs
    → split_into sep (join sep f fs) [] fields ≡ fields ++ f ∷ fs
split_into-join sep f [] fields h hs =
    ap (λ t. split_into sep t [] fields) (sym (append-nil f)) ∙ split_field sep f [] [] fields h
split_into-join sep f (g ∷ gs) fields h hs =
    split_field sep f (sep ∷ join sep g gs) [] fields h
    ∙ rw (split_into, beq_refl sep) (split_into-join sep g gs (fields ++ f ∷ []) hs.0 hs.1)
    ∙ append_assoc fields (f ∷ []) (g ∷ gs)

-- The fields that were joined are the fields that are split.
pub split-join :
    (sep : ℕ) (f : Text) (fs : List Text)
    → Lacks sep f
    → All (Lacks sep) fs
    → split sep (join sep f fs) ≡ f ∷ fs
unfolding split
split-join sep f fs h hs = split_into-join sep f fs [] h hs
