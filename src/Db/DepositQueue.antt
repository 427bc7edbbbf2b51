-- ===== src/Db/DepositQueue.antt =====
-- backend/src/role_builder/db_helpers/deposit_queue.py: `source_items` as the deposit queue
use roles.Prelude.{
  ℕ, String, Bool, true, false, not, ◌&&◌, Option, none, some, List, ◌==◌, nat_eq, ltb, eq_opt,
  head?, update_where, select_where, count_where, any_where, order_by,
}
use roles.Db.Schema.{
  Db, SourceItem, ItemStatus, item_status_eq, Request, RequestStatus, request_status_eq,
}

abbrev pub docflow_deposit_failed : String
docflow_deposit_failed = "DOCFLOW_DEPOSIT_FAILED"

abbrev pub is_cancelled_for : ℕ → Request → Bool
is_cancelled_for source_id r = eq_opt r.source_id source_id && r.status == RequestStatus.cancelled

-- The WHERE clause of the claim.
abbrev pub is_claimable : List Request → SourceItem → Bool
is_claimable requests i =
    i.status == ItemStatus.transcribed && not (any_where (is_cancelled_for i.source_id) requests)

-- ORDER BY updated_at ASC
abbrev pub older : SourceItem → SourceItem → Bool
older a b = ltb a.updated_at b.updated_at

unfoldable pub next_for_deposit : Db → Option SourceItem
next_for_deposit db =
    head? (order_by older (select_where (is_claimable db.requests) db.source_items))

abbrev pub set_item : ℕ → (SourceItem → SourceItem) → Db → Db
set_item item_id f db = record db {
  source_items = update_where (λ i. i.id == item_id) f db.source_items;
}

abbrev pub as_depositing : ℕ → SourceItem → SourceItem
as_depositing now i = record i { status = ItemStatus.depositing; updated_at = now }

-- The row is returned as the UPDATE left it (RETURNING *).
unfoldable pub claim_next_for_deposit : Db → Option SourceItem × Db
claim_next_for_deposit db = elim (next_for_deposit db) [
  | none ↦ (none, db)
  | some i ↦ (some (as_depositing db.now i), set_item i.id (as_depositing db.now) db)
]

unfoldable pub mark_deposited : ℕ → String → String → Db → Db
mark_deposited item_id doc_id slug db =
    set_item item_id
      (λ i. record i {
        status = ItemStatus.deposited;
        docflow_doc_id = some doc_id;
        docflow_slug = some slug;
        deposited_at = some db.now;
        error = none;
        updated_at = db.now;
      })
      db

-- The JSON text {code, message} of the error column is kept as the code and the message.
unfoldable pub mark_deposit_failed : (String → String → String) → ℕ → String → Db → Db
mark_deposit_failed dumps item_id message db =
    set_item item_id
      (λ i. record i {
        status = ItemStatus.failed;
        error = some (dumps docflow_deposit_failed message);
        updated_at = db.now;
      })
      db

unfoldable pub reset_failed_deposit : ℕ → Db → Db
reset_failed_deposit item_id db =
    set_item item_id
      (λ i. record i { status = ItemStatus.transcribed; error = none; updated_at = db.now }) db

abbrev pub is_depositing : SourceItem → Bool
is_depositing i = i.status == ItemStatus.depositing

unfoldable pub requeue_stale_depositing : Db → ℕ × Db
requeue_stale_depositing db = (
  count_where is_depositing db.source_items,
  record db {
    source_items =
        update_where is_depositing
          (λ i. record i { status = ItemStatus.transcribed; updated_at = db.now }) db.source_items;
  },
)

-- A comparison with NULL is not true.
abbrev pub is_after : Option ℕ → Option ℕ → Bool
is_after none deposited_at = true
is_after (some since) none = false
is_after (some since) (some t) = ltb since t

abbrev pub is_served : ℕ → Option ℕ → SourceItem → Bool
is_served source_id since i =
    i.source_id == source_id && i.status == ItemStatus.deposited && is_after since i.deposited_at

-- ORDER BY deposited_at ASC, NULLs last
abbrev pub deposited_before : Option ℕ → Option ℕ → Bool
deposited_before none b = false
deposited_before (some a) none = true
deposited_before (some a) (some b) = ltb a b

-- The provider that the lateral join adds is left out.
unfoldable pub list_deposited_for_source : ℕ → Option ℕ → Db → List SourceItem
list_deposited_for_source source_id since db =
    order_by (λ a b. deposited_before a.deposited_at b.deposited_at)
      (select_where (is_served source_id since) db.source_items)
