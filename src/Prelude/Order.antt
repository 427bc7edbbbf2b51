-- ===== src/Prelude/Order.antt =====
-- ORDER BY: insertion sort by a strict order, stable on ties.
use Prim.Native.Nat.{◌+◌}
use mathlib.Core.Path.{◌≡◌, refl, subst, sym, ◌∙◌}
use mathlib.Core.Bool.{Bool, true, false, ◌&&◌}
use mathlib.Core.List.{List, [], ◌∷◌}
use mathlib.Core.Option.{some, none}
use mathlib.Core.Logic.{inl, inr}
use native.Mathlib.Omega.{arith}
use roles.Prelude.Tests.{if◌then◌else◌, Bool-cases, some_inj}
use roles.Prelude.Lists.{All, All-mono, All-head?, All-get_last?, head?, get_last?}
use roles.Prelude.Table.{
  count_where, select_where, select_where_sound, count_where-zero, count_where_mono,
}
use roles.Prelude.Rows.{count_where-select_where}

module _ {ℓ} {A : Type ℓ} (before : A → A → Bool) where
  -- The new row goes behind the rows that do not come after it.
  abbrev pub insert_by : A → List A → List A
  insert_by x [] = x ∷ []
  insert_by x (y ∷ ys) = if before y x then y ∷ insert_by x ys else x ∷ y ∷ ys

  abbrev pub order_by : List A → List A
  order_by [] = []
  order_by (x ∷ xs) = insert_by x (order_by xs)

  pub count_where-insert_by :
      (p : A → Bool) (x : A) (ys : List A)
      → count_where p (insert_by x ys) ≡ (if p x then 1 else 0) + count_where p ys
  count_where-insert_by p x [] = refl
  count_where-insert_by p x (y ∷ ys) = ground (arith, count_where-insert_by p x ys)

  -- Sorting keeps every row, as often.
  pub count_where-order_by :
      (p : A → Bool) (xs : List A) → count_where p (order_by xs) ≡ count_where p xs
  count_where-order_by p [] = refl
  count_where-order_by p (x ∷ xs) =
      ground (arith, count_where-order_by p xs, count_where-insert_by p x (order_by xs))

module _ {ℓ κ} {A : Type ℓ} (P : A → Type κ) (before : A → A → Bool) where
  All-insert_by : (x : A) (ys : List A) → P x → All P ys → All P (insert_by before x ys)
  All-insert_by x [] hx h = (hx, tt)
  All-insert_by x (y ∷ ys) hx h = elim (Bool-cases (before y x)) [
    | inl e ↦ rw e (h.0, All-insert_by x ys hx h.1)
    | inr e ↦ rw e (hx, (h.0, h.1))
  ]

  pub All-order_by : (xs : List A) → All P xs → All P (order_by before xs)
  All-order_by [] h = tt
  All-order_by (x ∷ xs) h = All-insert_by x (order_by before xs) h.0 (All-order_by xs h.1)

-- A strict weak order, as a Boolean test.
pub record IsOrder {ℓ} {A : Type ℓ} (before : A → A → Bool) : Type ℓ where
  pub asym : (x y : A) → before x y ≡ true → before y x ≡ false
  pub trans : (x y z : A) → before z y ≡ false → before y x ≡ false → before z x ≡ false

-- No row stands behind one that it comes before.
abbrev pub IsSorted {ℓ} : {A : Type ℓ} → (A → A → Bool) → List A → Type ℓ
IsSorted before [] = Unit
IsSorted before (x ∷ xs) = All (λ y. before y x ≡ false) xs × IsSorted before xs

module _ {ℓ} {A : Type ℓ} (before : A → A → Bool) (o : IsOrder before) where
  insert_by-IsSorted :
      (x : A) (ys : List A) → IsSorted before ys → IsSorted before (insert_by before x ys)
  insert_by-IsSorted x [] h = (tt, tt)
  insert_by-IsSorted x (y ∷ ys) h = elim (Bool-cases (before y x)) [
    | inl e ↦ rw e (
      All-insert_by (λ z. before z y ≡ false) before x ys (o.asym y x e) h.0,
      insert_by-IsSorted x ys h.1,
    )
    | inr e ↦ rw e (
      (
        e,
        All-mono (λ z. before z y ≡ false) (λ z. before z x ≡ false) ys (λ z hz. o.trans x y z hz e)
            h.0,
      ),
      h,
    )
  ]

  pub order_by-IsSorted : (xs : List A) → IsSorted before (order_by before xs)
  order_by-IsSorted [] = tt
  order_by-IsSorted (x ∷ xs) = insert_by-IsSorted x (order_by before xs) (order_by-IsSorted xs)

  -- Nothing comes before the first row of a sorted list.
  pub head?-IsSorted :
      (xs : List A) {r : A}
      → IsSorted before xs
      → head? xs ≡ some r
      → All (λ y. before y r ≡ false) xs
  head?-IsSorted [] s h = cc
  head?-IsSorted (x ∷ xs) {r} s h =
      subst (λ q. All (λ y. before y q ≡ false) (x ∷ xs)) (some_inj h) (irrefl x, s.0)
    where
      irrefl : (a : A) → before a a ≡ false
      irrefl a = elim (Bool-cases (before a a)) [ inl e ↦ o.asym a a e | inr e ↦ e ]

  -- The last row of a sorted list comes before none.
  pub get_last?-IsSorted :
      (xs : List A) {r : A}
      → IsSorted before xs
      → get_last? xs ≡ some r
      → All (λ y. before r y ≡ false) xs
  get_last?-IsSorted [] s h = cc
  get_last?-IsSorted (x ∷ []) {r} s h =
      subst (λ q. All (λ y. before q y ≡ false) (x ∷ [])) (some_inj h) (irrefl x, tt)
    where
      irrefl : (a : A) → before a a ≡ false
      irrefl a = elim (Bool-cases (before a a)) [ inl e ↦ o.asym a a e | inr e ↦ e ]
  get_last?-IsSorted (x ∷ y ∷ xs) {r} s h =
      (All-get_last? (λ z. before z x ≡ false) (y ∷ xs) s.0 h, get_last?-IsSorted (y ∷ xs) s.1 h)

  -- The head of a queue: it passes the test, and nothing that passes it comes before.
  pub head?-order_by :
      (p : A → Bool) (xs : List A) {r : A}
      → head? (order_by before (select_where p xs)) ≡ some r
      → (p r ≡ true) × (count_where (λ x. p x && before x r) xs ≡ 0)
  head?-order_by p xs {r} h = (
    All-head? (λ x. p x ≡ true) (order_by before (select_where p xs))
        (All-order_by (λ x. p x ≡ true) before (select_where p xs) (select_where_sound p xs)) h,
    sym (count_where-select_where p (λ x. before x r) xs)
        ∙ sym (count_where-order_by before (λ x. before x r) (select_where p xs))
        ∙ count_where-zero (λ x. before x r) (order_by before (select_where p xs))
            (head?-IsSorted (order_by before (select_where p xs))
              (order_by-IsSorted (select_where p xs)) h),
  )

  pub head?-order_by-none :
      (p : A → Bool) (xs : List A)
      → head? (order_by before (select_where p xs)) ≡ none
      → count_where p xs ≡ 0
  head?-order_by-none p xs h = omega (
    arith,
    count_where_mono p (λ x. p x && p x) xs (λ x e. rw e refl),
    count_where-select_where p p xs,
    count_where-order_by before p (select_where p xs),
    empty (order_by before (select_where p xs)) h,
  )
    where
      empty : (ys : List A) → head? ys ≡ none → count_where p ys ≡ 0
      empty [] e = refl
      empty (y ∷ ys) e = cc e
