-- ===== src/Acquisition/StatusShape/Tally.antt =====
-- fold_counts after the GROUP BY of count_by_status, against a count of the items themselves.
use roles.Prelude.{
  ℕ, ◌+◌, ◌≡◌, refl, ◌∙◌, Bool, true, ◌&&◌, List, [], ◌∷◌, arith, if◌then◌else◌, count_where,
  select_where, eq_of_beq, ◌==◌, nat_eq,
}
use roles.Db.Schema.{Db, SourceItem, ItemStatus, item_status_eq}
use roles.Db.SourceItems.{StatusCount, same_flag, count_in, group_by_status, count_by_status}
use roles.Acquisition.StatusShape.{
  Counts, zero_counts, is_pending, is_downloaded, is_transcribed, is_deposited, is_failed, add_row,
  fold_from, fold_counts,
}

-- The rows of a group-by, counted by a test on the two columns.
sum_where : (ItemStatus → Bool → Bool) → List StatusCount → ℕ
sum_where w [] = 0
sum_where w (g ∷ gs) = (if w g.status g.selected then g.n else 0) + sum_where w gs

same_flag_sound : (a b : Bool) → same_flag a b ≡ true → a ≡ b
same_flag_sound a b h = ground arith

sum_where-count_in :
    (w : ItemStatus → Bool → Bool) (i : SourceItem) (gs : List StatusCount)
    → sum_where w (count_in i gs) ≡ (if w i.status i.selected then 1 else 0) + sum_where w gs
unfolding sum_where count_in
sum_where-count_in w i [] = ground arith
sum_where-count_in w i (g ∷ gs) = ground (
  arith,
  sum_where-count_in w i gs,
  eq_of_beq g.status i.status,
  same_flag_sound g.selected i.selected,
)

sum_where-group_by_status :
    (w : ItemStatus → Bool → Bool) (is : List SourceItem)
    → sum_where w (group_by_status is) ≡ count_where (λ i. w i.status i.selected) is
unfolding sum_where group_by_status
sum_where-group_by_status w [] = refl
sum_where-group_by_status w (i ∷ is) =
    omega (arith, sum_where-count_in w i (group_by_status is), sum_where-group_by_status w is)

sum_counts : List StatusCount → Counts
sum_counts rows = record {
  discovered = sum_where (λ s f. true) rows;
  selected = sum_where (λ s f. f) rows;
  pending = sum_where (λ s f. f && is_pending s) rows;
  downloaded = sum_where (λ s f. is_downloaded s) rows;
  transcribed = sum_where (λ s f. is_transcribed s) rows;
  deposited = sum_where (λ s f. is_deposited s) rows;
  failed = sum_where (λ s f. is_failed s) rows;
}

add_counts : Counts → Counts → Counts
add_counts a b = record {
  discovered = a.discovered + b.discovered;
  selected = a.selected + b.selected;
  pending = a.pending + b.pending;
  downloaded = a.downloaded + b.downloaded;
  transcribed = a.transcribed + b.transcribed;
  deposited = a.deposited + b.deposited;
  failed = a.failed + b.failed;
}

add_row-sum :
    (c : Counts) (g : StatusCount) (gs : List StatusCount)
    → add_counts (add_row g c) (sum_counts gs) ≡ add_counts c (sum_counts (g ∷ gs))
unfolding add_counts add_row sum_counts sum_where
add_row-sum c g gs = ground arith

fold_from-sum :
    (c : Counts) (rows : List StatusCount) → fold_from c rows ≡ add_counts c (sum_counts rows)
unfolding fold_from
fold_from-sum c [] = (unfold add_counts sum_counts sum_where in ground arith)
fold_from-sum c (g ∷ gs) = fold_from-sum (add_row g c) gs ∙ add_row-sum c g gs

fold_counts-sum : (rows : List StatusCount) → fold_counts rows ≡ sum_counts rows
unfolding fold_counts
fold_counts-sum rows =
    fold_from-sum zero_counts rows ∙ (unfold add_counts sum_counts in ground arith)

-- The counts of a list of items, each by its own test.
unfoldable pub tally : List SourceItem → Counts
tally is = record {
  discovered = count_where (λ i. true) is;
  selected = count_where (λ i. i.selected) is;
  pending = count_where (λ i. i.selected && is_pending i.status) is;
  downloaded = count_where (λ i. is_downloaded i.status) is;
  transcribed = count_where (λ i. is_transcribed i.status) is;
  deposited = count_where (λ i. is_deposited i.status) is;
  failed = count_where (λ i. is_failed i.status) is;
}

sum_counts-group_by_status : (is : List SourceItem) → sum_counts (group_by_status is) ≡ tally is
unfolding sum_counts tally
sum_counts-group_by_status is = ground (
  arith,
  sum_where-group_by_status (λ s f. true) is,
  sum_where-group_by_status (λ s f. f) is,
  sum_where-group_by_status (λ s f. f && is_pending s) is,
  sum_where-group_by_status (λ s f. is_downloaded s) is,
  sum_where-group_by_status (λ s f. is_transcribed s) is,
  sum_where-group_by_status (λ s f. is_deposited s) is,
  sum_where-group_by_status (λ s f. is_failed s) is,
)

-- The counts that fold_counts draws from the groups of count_by_status are those of the items of the
-- source, counted one by one.
pub fold_counts-count_by_status :
    (source_id : ℕ) (db : Db)
    → fold_counts (count_by_status source_id db)
      ≡ tally (select_where (λ i. i.source_id == source_id) db.source_items)
unfolding count_by_status
fold_counts-count_by_status source_id db =
    fold_counts-sum (group_by_status rows) ∙ sum_counts-group_by_status rows
  where
    rows : List SourceItem
    rows = select_where (λ i. i.source_id == source_id) db.source_items
