-- ===== src/Pipeline/EventHandlers/Replay.antt =====
-- A `discovered` event that is seen twice inserts nothing the second time.
use roles.Prelude.{
  any_where_last, ℕ, ◌≤◌, ◌≡◌, refl, sym, ap, subst, ◌∙◌, String, Bool, true, Option, List, [], ◌∷◌,
  arith, All, any_where, any_where-append, any_where-count, count_where, count_where-append,
  Bool-cases, inl, inr, nat_eq, string_eq, beq_refl, eq_of_beq,
}
use roles.Db.Schema.{Db, ScrapingJob}
use roles.Db.SourceItems.{
  Discovered, has_natural_key, new_item, insert_item, insert_all, insert_source_items_bulk,
}
use roles.Db.Sources.{update_source_status}
use roles.Pipeline.EventHandlers.{record_discovered}

abbrev pub is_known : ℕ → Discovered → Db → Bool
is_known s d db = any_where (has_natural_key s d.id) db.source_items

-- No two items of a source share their platform id.
abbrev pub UniqueItems : Db → Type 0
UniqueItems db = (s : ℕ) (p : String) → count_where (has_natural_key s p) db.source_items ≤ 1

insert_item-known :
    (s t : ℕ) (d : Discovered) (db : Db) → is_known s d (insert_item s t d db) ≡ true
unfolding insert_item
insert_item-known s t d db = elim (Bool-cases (is_known s d db)) [
  | inl e ↦ rw e e
  | inr e ↦ rw e (
      any_where_last (has_natural_key s d.id) db.source_items _
        (rw (beq_refl s, beq_refl d.id) refl))
]

insert_item-keeps :
    (s t : ℕ) (d e : Discovered) (db : Db)
    → is_known s d db ≡ true
    → is_known s d (insert_item s t e db) ≡ true
unfolding insert_item
insert_item-keeps s t d e db h = elim (Bool-cases (is_known s e db)) [
  | inl k ↦ rw k h
  | inr k ↦ rw k (any_where-append (has_natural_key s d.id) db.source_items _ h)
]

insert_all-keeps :
    (s t : ℕ) (d : Discovered) (es : List Discovered) (db : Db)
    → is_known s d db ≡ true
    → is_known s d (insert_all s t es db) ≡ true
unfolding insert_all
insert_all-keeps s t d [] db h = h
insert_all-keeps s t d (e ∷ es) db h =
    insert_all-keeps s t d es (insert_item s t e db) (insert_item-keeps s t d e db h)

insert_all-known :
    (s t : ℕ) (ds : List Discovered) (db : Db)
    → All (λ d. is_known s d (insert_all s t ds db) ≡ true) ds
unfolding insert_all
insert_all-known s t [] db = tt
insert_all-known s t (d ∷ ds) db = (
  insert_all-keeps s t d ds (insert_item s t d db) (insert_item-known s t d db),
  insert_all-known s t ds (insert_item s t d db),
)

insert_all-of_known :
    (s t : ℕ) (ds : List Discovered) (db : Db)
    → All (λ d. is_known s d db ≡ true) ds
    → insert_all s t ds db ≡ db
unfolding insert_all insert_item
insert_all-of_known s t [] db h = refl
insert_all-of_known s t (d ∷ ds) db h = rw h.0 (insert_all-of_known s t ds db h.1)

insert_item-UniqueItems :
    (s t : ℕ) (d : Discovered) (db : Db) → UniqueItems db → UniqueItems (insert_item s t d db)
unfolding insert_item
insert_item-UniqueItems s t d db u s' p = elim (Bool-cases (is_known s d db)) [
  | inl e ↦ rw e (u s' p)
  | inr e ↦ rw e (
      ground (
        arith,
        u s' p,
        count_where-append (has_natural_key s' p) db.source_items (new_item s t d db ∷ []),
        any_where-count (has_natural_key s d.id) db.source_items e,
        eq_of_beq s s',
        eq_of_beq d.id p,
      ))
]

insert_all-UniqueItems :
    (s t : ℕ) (ds : List Discovered) (db : Db) → UniqueItems db → UniqueItems (insert_all s t ds db)
unfolding insert_all
insert_all-UniqueItems s t [] db u = u
insert_all-UniqueItems s t (d ∷ ds) db u =
    insert_all-UniqueItems s t ds (insert_item s t d db) (insert_item-UniqueItems s t d db u)

-- Whatever the other tables hold, known items are not inserted.
known_again :
    (s t : ℕ) (ds : List Discovered) (a b : Db)
    → b.source_items ≡ a.source_items
    → All (λ d. is_known s d a ≡ true) ds
    → (insert_all s t ds b).source_items ≡ a.source_items
known_again s t ds a b e h =
    ap (λ (d : Db). d.source_items)
      (insert_all-of_known s t ds b
        (subst (λ items. All (λ d. any_where (has_natural_key s d.id) items ≡ true) ds) (sym e) h))
    ∙ e

-- Recording the items of a `discovered` event, whatever duplicates it holds, keeps the platform ids of
-- a source distinct, and recording the same items again leaves the table of items as it is.
pub record_discovered_again :
    (items : List Discovered) (total : Option ℕ) (job : ScrapingJob) (db : Db)
    → UniqueItems db
    → let db' = record_discovered items total job db in
      UniqueItems db' × ((record_discovered items total job db').source_items ≡ db'.source_items)
unfolding record_discovered insert_source_items_bulk update_source_status
record_discovered_again items total job db u = (
  insert_all-UniqueItems job.source_id job.tenant_id items db u,
  known_again job.source_id job.tenant_id items (insert_all job.source_id job.tenant_id items db)
      (record_discovered items total job db) refl
      (insert_all-known job.source_id job.tenant_id items db),
)
