-- ===== src/Acquisition/Corpus/Delivery.antt =====
-- Incremental delivery: what a pull served, a later pull by the same caller does not serve again.
use roles.Prelude.{
  ℕ, ◌≤◌, ◌≡◌, refl, sym, ap, ◌∙◌, String, Bool, true, false, Option, none, some, List, [], ◌∷◌,
  arith, subst, All, All-intro, All-mono, All-order_by, All-select_where_mono, select_where_sound,
  IsOrder, IsSorted, order_by-IsSorted, get_last?-IsSorted, All-get_last?, get_last?, Option-cases,
  inl, inr, ◌⊎◌, ◌==◌, nat_eq, leb, is_some, select_where,
}
use roles.Outside.{Outside}
use roles.Db.Schema.{Db, SourceItem, ItemStatus, item_status_eq, Request}
use roles.Db.DepositQueue.{is_served, is_after, deposited_before, list_deposited_for_source}
use roles.Db.PullCursors.{get_last_pulled_at, upsert_cursor}
use roles.Db.PullCursors.Advance.{get_last_pulled_at-upsert_cursor}
use roles.Acquisition.Corpus.{rows_of, latest_of, advance_cursor, pull_from}

-- A deposited item has its date: mark_deposited sets both.
abbrev pub DatedDeposits : Db → Type 0
DatedDeposits db =
    All (λ i. i.status == ItemStatus.deposited ≡ true → is_some i.deposited_at ≡ true)
      db.source_items

abbrev by_deposit : SourceItem → SourceItem → Bool
by_deposit a b = deposited_before a.deposited_at b.deposited_at

by_deposit-IsOrder : IsOrder by_deposit
by_deposit-IsOrder = record { asym = λ x y h. ground arith; trans = λ x y z h k. ground arith }

-- The rows served from `since` on are dated, lie behind it, and are in the order of their dates.
served_dated :
    (s : ℕ) (since : Option ℕ) (db : Db)
    → DatedDeposits db
    → All (λ i. is_some i.deposited_at ≡ true) (list_deposited_for_source s since db)
unfolding list_deposited_for_source
served_dated s since db h =
    All-order_by (λ i. is_some i.deposited_at ≡ true) by_deposit
      (select_where (is_served s since) db.source_items)
      (All-select_where_mono
        (λ i. i.status == ItemStatus.deposited ≡ true → is_some i.deposited_at ≡ true)
        (λ i. is_some i.deposited_at ≡ true) (is_served s since) db.source_items
        (λ i e k. k (ground arith)) h)

served_after :
    (s : ℕ) (since : Option ℕ) (db : Db)
    → All (λ i. is_after since i.deposited_at ≡ true) (list_deposited_for_source s since db)
unfolding list_deposited_for_source
served_after s since db =
    All-order_by (λ i. is_after since i.deposited_at ≡ true) by_deposit
      (select_where (is_served s since) db.source_items)
      (All-mono (λ i. is_served s since i ≡ true) (λ i. is_after since i.deposited_at ≡ true)
        (select_where (is_served s since) db.source_items) (λ i e. ground arith)
        (select_where_sound (is_served s since) db.source_items))

rows_after :
    (source : Option ℕ) (since : Option ℕ) (db : Db)
    → All (λ i. is_after since i.deposited_at ≡ true) (rows_of source since db)
unfolding rows_of
rows_after none since db = tt
rows_after (some s) since db = served_after s since db

abbrev dated_by : ℕ → Option ℕ → Bool
dated_by t none = false
dated_by t (some u) = leb u t

dated_last :
    (rows : List SourceItem)
    → IsSorted by_deposit rows
    → All (λ i. is_some i.deposited_at ≡ true) rows
    → (rows ≡ [])
      ⊎ ((t : ℕ) × (latest_of rows ≡ some t) × All (λ i. dated_by t i.deposited_at ≡ true) rows)
unfolding latest_of
dated_last [] s d = inl refl
dated_last (x ∷ xs) s d = elim (Option-cases (get_last? (x ∷ xs))) [
  | inl e ↦ absurd (last_of_cons x xs e)
  | inr (r, e) ↦ elim (Option-cases r.deposited_at) [
    | inl n ↦ cc (n, All-get_last? (λ i. is_some i.deposited_at ≡ true) (x ∷ xs) d e)
    | inr (t, q) ↦ inr (
      t,
      rw e q,
      bound t r q (x ∷ xs) (get_last?-IsSorted by_deposit by_deposit-IsOrder (x ∷ xs) s e) d,
    )
  ]
]
  where
    last_of_cons : (y : SourceItem) (ys : List SourceItem) → get_last? (y ∷ ys) ≡ none → ⊥
    last_of_cons y [] h = cc
    last_of_cons y (z ∷ zs) h = last_of_cons z zs h

    bound :
        (t : ℕ) (r : SourceItem)
        → r.deposited_at ≡ some t
        → (ys : List SourceItem) → All (λ y. by_deposit r y ≡ false) ys
        → All (λ i. is_some i.deposited_at ≡ true) ys
        → All (λ i. dated_by t i.deposited_at ≡ true) ys
    bound t r q [] h k = tt
    bound t r q (y ∷ ys) h k = (ground (arith, h.0, k.0), bound t r q ys h.1 k.1)

rows_last :
    (source since : Option ℕ) (db : Db)
    → DatedDeposits db
    → (rows_of source since db ≡ [])
      ⊎ ((t : ℕ) × (latest_of (rows_of source since db) ≡ some t)
          × All (λ i. dated_by t i.deposited_at ≡ true) (rows_of source since db))
unfolding rows_of
rows_last none since db d = inl refl
rows_last (some s) since db d =
    dated_last (list_deposited_for_source s since db) sorted (served_dated s since db d)
  where
    sorted : IsSorted by_deposit (list_deposited_for_source s since db)
    sorted =
        (unfold list_deposited_for_source in
          order_by-IsSorted by_deposit by_deposit-IsOrder
            (select_where (is_served s since) db.source_items))

-- Everything in `later` was deposited after everything in `earlier`.
abbrev pub AllAfter : List SourceItem → List SourceItem → Type 0
AllAfter earlier later =
    All (λ i. All (λ e. is_after e.deposited_at i.deposited_at ≡ true) earlier) later

is_after_bound :
    (t u : ℕ) (a b : Option ℕ)
    → dated_by t a ≡ true
    → t ≤ u
    → is_after (some u) b ≡ true
    → is_after a b ≡ true
is_after_bound t u a b h le k = ground arith

get_last_pulled_at-cong :
    (id : ℕ) (who : String) (a b : Db)
    → a.cursors ≡ b.cursors
    → get_last_pulled_at id who a ≡ get_last_pulled_at id who b
unfolding get_last_pulled_at
get_last_pulled_at-cong id who a b h = rw h

-- After a pull without a cursor in hand, whatever happens to the other tables, the next only_new
-- pull of the same caller serves only items that were deposited after all that the first one served.
pub pull_then_pull :
    (o : Outside) (r : Request) (who : String) (since : Option ℕ) (db later : Db)
    → DatedDeposits db
    → later.cursors ≡ (pull_from o r who none since db).1.cursors
    → AllAfter
        (rows_of r.source_id since db)
        (rows_of r.source_id (get_last_pulled_at r.id who later) later)
unfolding pull_from
pull_then_pull o r who since db later d h = elim (rows_last r.source_id since db d) [
  | inl e ↦ rw e (All-intro _ (λ i. tt))
  | inr (t, e, bound) ↦
      let (u, stored, le) = get_last_pulled_at-upsert_cursor r.id who t db in
      All-mono (λ i. is_after (some u) i.deposited_at ≡ true) _ _
        (λ i k.
          All-mono (λ x. dated_by t x.deposited_at ≡ true)
            (λ x. is_after x.deposited_at i.deposited_at ≡ true) (rows_of r.source_id since db)
            (λ x b. is_after_bound t u x.deposited_at i.deposited_at b le k) bound)
        (subst
          (λ q. All (λ i. is_after (some u) i.deposited_at ≡ true) (rows_of r.source_id q later))
          (sym (
            get_last_pulled_at-cong r.id who later (upsert_cursor r.id who t db)
              (h ∙ ap (λ q. (advance_cursor r who none q db).cursors) e)
            ∙ stored))
          (rows_after r.source_id (some u) later))
]
