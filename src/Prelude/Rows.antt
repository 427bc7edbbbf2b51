-- ===== src/Prelude/Rows.antt =====
-- What more a test finds in a table, and how a statement changes what it counts.
use Prim.Native.Nat.{◌<◌}
use mathlib.Core.Path.{◌≡◌, refl, sym}
use mathlib.Core.Bool.{Bool, true, false, ◌&&◌}
use mathlib.Core.List.{List, [], ◌∷◌, ◌++◌}
use mathlib.Core.Option.{some}
use mathlib.Core.Logic.{inl, inr}
use native.Mathlib.Omega.{arith}
use roles.Prelude.Tests.{Bool-cases}
use roles.Prelude.Lists.{head?}
use roles.Prelude.Table.{
  select_where, find_where, update_where, count_where, any_where, count_where-update_where_le,
}

module _ {ℓ} {A : Type ℓ} (p : A → Bool) where
  pub find_where-append_none :
      (xs : List A) (y : A)
      → any_where p xs ≡ false
      → p y ≡ true
      → find_where p (xs ++ y ∷ []) ≡ some y
  find_where-append_none [] y h e = rw e
  find_where-append_none (x ∷ xs) y h e = ground (arith, find_where-append_none xs y)

  pub any_where-some : (xs : List A) → any_where p xs ≡ true → (r : A) × (find_where p xs ≡ some r)
  any_where-some [] h = cc
  any_where-some (x ∷ xs) h = elim (Bool-cases (p x)) [
    | inl e ↦ (x, rw e)
    | inr e ↦ let (r, q) = any_where-some xs (rw e at h) in (r, rw e q)
  ]

  -- A statement that takes the test away from its rows, one of which passed it, lowers the count.
  pub count_where-update_where_lt :
      (q : A → Bool) (f : A → A) (xs : List A)
      → ((x : A) → q x ≡ true → p (f x) ≡ false)
      → 0 < count_where (λ x. p x && q x) xs
      → count_where p (update_where q f xs) < count_where p xs
  count_where-update_where_lt q f [] drop h = absurd (omega arith)
  count_where-update_where_lt q f (x ∷ xs) drop h = ground (
    arith,
    drop x,
    count_where-update_where_lt q f xs drop,
    count_where-update_where_le p q f xs (λ y e k. cc (drop y e, k)),
  )

  pub count_where-select_where :
      (q : A → Bool) (xs : List A)
      → count_where q (select_where p xs) ≡ count_where (λ x. p x && q x) xs
  count_where-select_where q [] = refl
  count_where-select_where q (x ∷ xs) = ground (arith, count_where-select_where q xs)

  pub select_where-nil : (xs : List A) → count_where p xs ≡ 0 → select_where p xs ≡ []
  select_where-nil [] h = refl
  select_where-nil (x ∷ xs) h = ground (arith, select_where-nil xs)

  pub count_where-head? :
      (xs : List A) {r : A} → head? xs ≡ some r → p r ≡ true → 0 < count_where p xs
  count_where-head? [] h e = cc
  count_where-head? (x ∷ xs) {r} h e = ground (arith)

module _ {ℓ} {A : Type ℓ} where
  pub any_where_mono :
      (p q : A → Bool) (xs : List A)
      → ((x : A) → p x ≡ true → q x ≡ true)
      → any_where p xs ≡ true
      → any_where q xs ≡ true
  any_where_mono p q [] f h = cc
  any_where_mono p q (x ∷ xs) f h = ground (arith, f x, any_where_mono p q xs f)

  abbrev pub is_nonempty : List A → Bool
  is_nonempty [] = false
  is_nonempty (x ∷ xs) = true

  pub is_nonempty-select_where :
      (p : A → Bool) (xs ys : List A) → select_where p xs ≡ ys → any_where p xs ≡ is_nonempty ys
  is_nonempty-select_where p [] ys e = rw (sym e) refl
  is_nonempty-select_where p (x ∷ xs) ys e = elim (Bool-cases (p x)) [
    | inl h ↦ rw h (rw (sym (rw h at e)) refl)
    | inr h ↦ rw h (is_nonempty-select_where p xs ys (rw h at e))
  ]
