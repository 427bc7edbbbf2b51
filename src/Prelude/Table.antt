-- ===== src/Prelude/Table.antt =====
-- SQL statements on a table held as a list of rows, in the order of insertion.
use Prim.Native.Nat.{ℕ, suc, ◌+◌, ◌≤◌, ◌<◌}
use mathlib.Core.Path.{◌≡◌, refl, ap}
use mathlib.Core.Bool.{Bool, true, false}
use mathlib.Core.List.{List, [], ◌∷◌, ◌++◌}
use mathlib.Core.Option
use mathlib.Core.Option.{Option, none, some}
use mathlib.Core.Logic.{inl, inr}
use native.Mathlib.Omega.{arith}
use roles.Prelude.Tests.{if◌then◌else◌, Bool-cases}
use roles.Prelude.Lists.{length, All}

module _ {ℓ} {A : Type ℓ} where
  -- SELECT * FROM t WHERE p
  abbrev pub select_where : (A → Bool) → List A → List A
  select_where p [] = []
  select_where p (x ∷ xs) = if p x then x ∷ select_where p xs else select_where p xs

  -- the one row of SELECT * FROM t WHERE p, for a key that is unique
  abbrev pub find_where : (A → Bool) → List A → Option A
  find_where p [] = none
  find_where p (x ∷ xs) = if p x then some x else find_where p xs

  -- UPDATE t SET f WHERE p
  abbrev pub update_where : (A → Bool) → (A → A) → List A → List A
  update_where p f [] = []
  update_where p f (x ∷ xs) = (if p x then f x else x) ∷ update_where p f xs

  -- SELECT count(*) FROM t WHERE p; also the row count that UPDATE … WHERE p reports
  abbrev pub count_where : (A → Bool) → List A → ℕ
  count_where p [] = 0
  count_where p (x ∷ xs) = (if p x then 1 else 0) + count_where p xs

  -- EXISTS (SELECT 1 FROM t WHERE p)
  abbrev pub any_where : (A → Bool) → List A → Bool
  any_where p [] = false
  any_where p (x ∷ xs) = if p x then true else any_where p xs

  pub select_where_sound : (p : A → Bool) (xs : List A) → All (λ x. p x ≡ true) (select_where p xs)
  select_where_sound p [] = tt
  select_where_sound p (x ∷ xs) = elim (Bool-cases (p x)) [
    | inl e ↦ rw e (e, select_where_sound p xs)
    | inr e ↦ rw e (select_where_sound p xs)
  ]

  pub length-select_where :
      (p : A → Bool) (xs : List A) → length (select_where p xs) ≡ count_where p xs
  length-select_where p [] = refl
  length-select_where p (x ∷ xs) = ground (arith, length-select_where p xs)

  pub length-update_where :
      (p : A → Bool) (f : A → A) (xs : List A) → length (update_where p f xs) ≡ length xs
  length-update_where p f [] = refl
  length-update_where p f (x ∷ xs) = ap suc (length-update_where p f xs)

  pub find_where_sound :
      (p : A → Bool) (xs : List A) {r : A} → find_where p xs ≡ some r → p r ≡ true
  find_where_sound p [] h = cc
  find_where_sound p (x ∷ xs) {r} h = elim (Bool-cases (p x)) [
    | inl e ↦ ground arith
    | inr e ↦ find_where_sound p xs (rw e at h)
  ]

  pub find_where-none :
      (p : A → Bool) (xs : List A) → All (λ x. p x ≡ false) xs → find_where p xs ≡ none
  find_where-none p [] h = refl
  find_where-none p (x ∷ xs) h = ground (arith, find_where-none p xs)

  pub count_where-zero :
      (p : A → Bool) (xs : List A) → All (λ x. p x ≡ false) xs → count_where p xs ≡ 0
  count_where-zero p [] h = refl
  count_where-zero p (x ∷ xs) h = ground (arith, count_where-zero p xs)

  pub count_where-append :
      (p : A → Bool) (xs ys : List A)
      → count_where p (xs ++ ys) ≡ count_where p xs + count_where p ys
  count_where-append p [] ys = omega arith
  count_where-append p (x ∷ xs) ys = ground (arith, count_where-append p xs ys)

  pub any_where-count : (p : A → Bool) (xs : List A) → any_where p xs ≡ false → count_where p xs ≡ 0
  any_where-count p [] h = refl
  any_where-count p (x ∷ xs) h = ground (arith, any_where-count p xs)

module _ {ℓ κ} {A : Type ℓ} (P : A → Type κ) where
  pub All-select_where : (p : A → Bool) (xs : List A) → All P xs → All P (select_where p xs)
  All-select_where p [] h = tt
  All-select_where p (x ∷ xs) h = elim (Bool-cases (p x)) [
    | inl e ↦ rw e (h.0, All-select_where p xs h.1)
    | inr e ↦ rw e (All-select_where p xs h.1)
  ]

  -- Every row keeps `P`, if the rows that are written do.
  pub All-update_where :
      (p : A → Bool) (f : A → A) (xs : List A)
      → ((x : A) → p x ≡ true → P x → P (f x))
      → All P xs
      → All P (update_where p f xs)
  All-update_where p f [] keep h = tt
  All-update_where p f (x ∷ xs) keep h = elim (Bool-cases (p x)) [
    | inl e ↦ rw e (keep x e h.0, All-update_where p f xs keep h.1)
    | inr e ↦ rw e (h.0, All-update_where p f xs keep h.1)
  ]

  -- Every row has `P` after the statement, if the rows that it leaves alone have it already.
  pub update_where-All :
      (p : A → Bool) (f : A → A) (xs : List A)
      → ((x : A) → p x ≡ true → P (f x))
      → ((x : A) → p x ≡ false → P x)
      → All P (update_where p f xs)
  update_where-All p f [] hit miss = tt
  update_where-All p f (x ∷ xs) hit miss = elim (Bool-cases (p x)) [
    | inl e ↦ rw e (hit x e, update_where-All p f xs hit miss)
    | inr e ↦ rw e (miss x e, update_where-All p f xs hit miss)
  ]

  pub find_where-All :
      (p : A → Bool) (xs : List A) {r : A} → All P xs → find_where p xs ≡ some r → P r
  find_where-All p [] h e = cc
  find_where-All p (x ∷ xs) {r} h e = elim (Bool-cases (p x)) [
    | inl t ↦ ground (arith, h.0)
    | inr t ↦ find_where-All p xs h.1 (rw t at e)
  ]

module _ {ℓ} {A : Type ℓ} (p : A → Bool) where
  -- The row of a key that a statement does not touch, as the statement leaves it.
  pub find_where-update_where :
      (q : A → Bool) (f : A → A) (xs : List A)
      → ((x : A) → p (f x) ≡ p x)
      → find_where p (update_where q f xs)
        ≡ Option.map (λ x. if q x then f x else x) (find_where p xs)
  find_where-update_where q f [] keep = refl
  find_where-update_where q f (x ∷ xs) keep =
      ground (arith, keep x, find_where-update_where q f xs keep)

  -- A statement that keeps the test keeps the count.
  pub count_where-update_where :
      (q : A → Bool) (f : A → A) (xs : List A)
      → ((x : A) → q x ≡ true → p (f x) ≡ p x)
      → count_where p (update_where q f xs) ≡ count_where p xs
  count_where-update_where q f [] keep = refl
  count_where-update_where q f (x ∷ xs) keep =
      ground (arith, keep x, count_where-update_where q f xs keep)

  pub count_where-update_where_le :
      (q : A → Bool) (f : A → A) (xs : List A)
      → ((x : A) → q x ≡ true → p (f x) ≡ true → p x ≡ true)
      → count_where p (update_where q f xs) ≤ count_where p xs
  count_where-update_where_le q f [] keep = omega arith
  count_where-update_where_le q f (x ∷ xs) keep =
      ground (arith, keep x, count_where-update_where_le q f xs keep)

  pub any_where-append : (xs ys : List A) → any_where p xs ≡ true → any_where p (xs ++ ys) ≡ true
  any_where-append [] ys h = cc
  any_where-append (x ∷ xs) ys h = ground (arith, any_where-append xs ys)

  pub any_where_last : (xs : List A) (y : A) → p y ≡ true → any_where p (xs ++ y ∷ []) ≡ true
  any_where_last [] y h = rw h
  any_where_last (x ∷ xs) y h = ground (arith, any_where_last xs y h)

  pub any_where-find : (xs : List A) {r : A} → find_where p xs ≡ some r → any_where p xs ≡ true
  any_where-find [] h = cc
  any_where-find (x ∷ xs) {r} h = elim (Bool-cases (p x)) [
    | inl e ↦ rw e
    | inr e ↦ rw e (any_where-find xs (rw e at h))
  ]

  pub count_where-ne-zero : (xs : List A) → any_where p xs ≡ true → 0 < count_where p xs
  count_where-ne-zero [] h = cc
  count_where-ne-zero (x ∷ xs) h = ground (arith, count_where-ne-zero xs)

  pub any_where-none : (xs : List A) → any_where p xs ≡ false → All (λ x. p x ≡ false) xs
  any_where-none [] h = tt
  any_where-none (x ∷ xs) h = elim (Bool-cases (p x)) [
    | inl e ↦ cc (rw e at h)
    | inr e ↦ (e, any_where-none xs (rw e at h))
  ]

  pub count_where_mono :
      (q : A → Bool) (xs : List A)
      → ((x : A) → p x ≡ true → q x ≡ true)
      → count_where p xs ≤ count_where q xs
  count_where_mono q [] h = omega arith
  count_where_mono q (x ∷ xs) h = ground (arith, h x, count_where_mono q xs h)

module _ {ℓ κ κ'} {A : Type ℓ} (P : A → Type κ) (Q : A → Type κ') where
  -- The rows that a WHERE clause keeps, by what it tests and by what all rows have.
  pub All-select_where_mono :
      (p : A → Bool) (xs : List A)
      → ((x : A) → p x ≡ true → P x → Q x)
      → All P xs
      → All Q (select_where p xs)
  All-select_where_mono p [] f h = tt
  All-select_where_mono p (x ∷ xs) f h = elim (Bool-cases (p x)) [
    | inl e ↦ rw e (f x e h.0, All-select_where_mono p xs f h.1)
    | inr e ↦ rw e (All-select_where_mono p xs f h.1)
  ]
