-- ===== src/Db/SourceItems.antt =====
-- backend/src/role_builder/db_helpers/source_items.py
use roles.Prelude.{
  ℕ, ◌+◌, String, Bool, true, false, not, ◌&&◌, Option, none, some, List, [], ◌∷◌, ◌++◌, ◌==◌,
  nat_eq, string_eq, ltb, leb, if◌then◌else◌, coalesce, find_where, update_where, select_where,
  count_where, any_where, order_by, length, take, drop,
}
use roles.Db.Schema.{Db, SourceItem, ItemStatus, item_status_eq}

-- An item of a `discovered` event.
pub record Discovered : Type 0 where
  pub id : String
  pub title : Option String
  pub duration_s : Option ℕ
  pub published_at : Option ℕ

abbrev pub has_natural_key : ℕ → String → SourceItem → Bool
has_natural_key source_id platform_item_id i =
    i.source_id == source_id && i.platform_item_id == platform_item_id

unfoldable pub new_item : ℕ → ℕ → Discovered → Db → SourceItem
new_item source_id tenant_id d db = record {
  id = db.next_id;
  source_id = source_id;
  tenant_id = tenant_id;
  platform_item_id = d.id;
  title = d.title;
  duration_s = d.duration_s;
  published_at = d.published_at;
  status = ItemStatus.pending_download;
  audio_s3_key = none;
  transcript_s3_key = none;
  upload_s3_key = none;
  upload_media_type = none;
  upload_expires_at = none;
  selected = false;
  error = none;
  docflow_doc_id = none;
  docflow_slug = none;
  deposited_at = none;
  updated_at = db.now;
}

-- INSERT … ON CONFLICT (source_id, platform_item_id) DO NOTHING
unfoldable pub insert_item : ℕ → ℕ → Discovered → Db → Db
unfolding new_item
insert_item source_id tenant_id d db =
    if any_where (has_natural_key source_id d.id) db.source_items then db else record db {
      source_items = db.source_items ++ new_item source_id tenant_id d db ∷ [];
      next_id = db.next_id + 1;
    }

-- executemany
unfoldable pub insert_all : ℕ → ℕ → List Discovered → Db → Db
insert_all source_id tenant_id [] db = db
insert_all source_id tenant_id (d ∷ ds) db =
    insert_all source_id tenant_id ds (insert_item source_id tenant_id d db)

unfoldable pub insert_source_items_bulk : List Discovered → ℕ → ℕ → Db → ℕ × Db
insert_source_items_bulk items source_id tenant_id db =
    (length items, insert_all source_id tenant_id items db)

unfoldable pub get_by_platform_id : ℕ → String → Db → Option SourceItem
get_by_platform_id source_id platform_item_id db =
    find_where (has_natural_key source_id platform_item_id) db.source_items

unfoldable pub get_by_id : ℕ → Db → Option SourceItem
get_by_id item_id db = find_where (λ i. i.id == item_id) db.source_items

-- The optional arguments of update_source_item_status.
pub record Extra : Type 0 where
  pub audio_s3_key : Option String
  pub transcript_s3_key : Option String
  pub error : Option String

abbrev pub no_extra : Extra
no_extra = record { audio_s3_key = none; transcript_s3_key = none; error = none }

abbrev pub set_status : ItemStatus → Extra → ℕ → SourceItem → SourceItem
set_status status x now i = record i {
  status = status;
  audio_s3_key = coalesce x.audio_s3_key i.audio_s3_key;
  transcript_s3_key = coalesce x.transcript_s3_key i.transcript_s3_key;
  error = coalesce x.error i.error;
  updated_at = now;
}

unfoldable pub update_source_item_status : ℕ → String → ItemStatus → Extra → Db → Db
update_source_item_status source_id platform_item_id status x db = record db {
  source_items =
      update_where (has_natural_key source_id platform_item_id) (set_status status x db.now)
        db.source_items;
}

-- The optional filters of list_items_by_source.
pub record ItemFilter : Type 0 where
  pub min_duration_s : Option ℕ
  pub max_duration_s : Option ℕ
  pub since_date : Option ℕ
  pub until_date : Option ℕ
  pub title_contains : Option String
  pub status : Option ItemStatus

abbrev pub no_filter : ItemFilter
no_filter = record {
  min_duration_s = none;
  max_duration_s = none;
  since_date = none;
  until_date = none;
  title_contains = none;
  status = none;
}

-- A comparison with NULL is not true.
abbrev pub at_least : Option ℕ → Option ℕ → Bool
at_least none column = true
at_least (some bound) none = false
at_least (some bound) (some v) = leb bound v

abbrev pub at_most : Option ℕ → Option ℕ → Bool
at_most none column = true
at_most (some bound) none = false
at_most (some bound) (some v) = leb v bound

module _ (ilike : String → String → Bool) where
  abbrev pub title_matches : Option String → Option String → Bool
  title_matches none title = true
  title_matches (some pattern) none = false
  title_matches (some pattern) (some title) = ilike title pattern

abbrev pub has_status : Option ItemStatus → ItemStatus → Bool
has_status none status = true
has_status (some wanted) status = status == wanted

-- The WHERE clause that list_items_by_source builds.
unfoldable pub matches : (String → String → Bool) → ℕ → ItemFilter → SourceItem → Bool
matches ilike source_id f i =
    i.source_id == source_id
    && at_least f.min_duration_s i.duration_s
    && at_most f.max_duration_s i.duration_s
    && at_least f.since_date i.published_at
    && at_most f.until_date i.published_at
    && title_matches ilike f.title_contains i.title
    && has_status f.status i.status

-- ORDER BY published_at DESC NULLS LAST, id ASC
abbrev pub listed_before : Option ℕ → Option ℕ → ℕ → ℕ → Bool
listed_before none none i j = ltb i j
listed_before none (some q) i j = false
listed_before (some p) none i j = true
listed_before (some p) (some q) i j = if ltb q p then true else p == q && ltb i j

unfoldable pub list_items_by_source :
    (String → String → Bool) → ℕ → ItemFilter → ℕ → ℕ → Db → List SourceItem
list_items_by_source ilike source_id f limit offset db = take limit (
    drop offset (
      order_by (λ a b. listed_before a.published_at b.published_at a.id b.id)
        (select_where (matches ilike source_id f) db.source_items)))

unfoldable pub member : ℕ → List ℕ → Bool
member a [] = false
member a (x ∷ xs) = if a == x then true else member a xs

unfoldable pub list_items_by_ids : ℕ → List ℕ → Db → List SourceItem
unfolding member
list_items_by_ids source_id item_ids db =
    select_where (λ i. i.source_id == source_id && member i.id item_ids) db.source_items

-- A row of count_by_status.
pub record StatusCount : Type 0 where
  pub status : ItemStatus
  pub selected : Bool
  pub n : ℕ

abbrev pub same_flag : Bool → Bool → Bool
same_flag true b = b
same_flag false b = not b

-- GROUP BY status, selected
unfoldable pub count_in : SourceItem → List StatusCount → List StatusCount
count_in i [] = record { status = i.status; selected = i.selected; n = 1 } ∷ []
count_in i (g ∷ gs) =
    if g.status == i.status && same_flag g.selected i.selected
    then record g { n = g.n + 1 } ∷ gs
    else g ∷ count_in i gs

unfoldable pub group_by_status : List SourceItem → List StatusCount
unfolding count_in
group_by_status [] = []
group_by_status (i ∷ is) = count_in i (group_by_status is)

unfoldable pub count_by_status : ℕ → Db → List StatusCount
unfolding group_by_status
count_by_status source_id db =
    group_by_status (select_where (λ i. i.source_id == source_id) db.source_items)

unfoldable pub reset_for_retry : ℕ → String → Db → Db
reset_for_retry source_id platform_item_id db = record db {
  source_items =
      update_where (has_natural_key source_id platform_item_id)
        (λ i. record i { status = ItemStatus.pending_download; error = none; updated_at = db.now })
        db.source_items;
}

abbrev pub is_chosen : ℕ → List ℕ → SourceItem → Bool
is_chosen source_id item_ids i = i.source_id == source_id && member i.id item_ids

unfoldable pub select_items : ℕ → List ℕ → Bool → Db → ℕ × Db
unfolding member
select_items source_id item_ids deselect_others db = (
  count_where (is_chosen source_id item_ids) deselected,
  record db {
    source_items =
        update_where (is_chosen source_id item_ids)
          (λ i. record i { selected = true; updated_at = db.now }) deselected;
  },
)
  where
    deselected : List SourceItem
    deselected =
        if deselect_others
        then update_where (λ i. i.source_id == source_id && not (member i.id item_ids))
            (λ i. record i { selected = false; updated_at = db.now }) db.source_items
        else db.source_items
