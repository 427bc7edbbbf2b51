-- ===== src/Acquisition/StatusShape.antt =====
-- services/acquisition/status_shape.py
pub mod Tally
pub mod Display
use roles.Prelude.{
  ℕ, ◌+◌, Bool, true, false, ◌&&◌, ◌||◌, List, [], ◌∷◌, ◌==◌, nat_eq, ltb, leb, if◌then◌else◌,
}
use roles.Db.Schema.{ItemStatus, item_status_eq, RequestStatus, request_status_eq}
use roles.Db.SourceItems.{StatusCount}

pub record Counts : Type 0 where
  pub discovered : ℕ
  pub selected : ℕ
  pub pending : ℕ
  pub downloaded : ℕ
  pub transcribed : ℕ
  pub deposited : ℕ
  pub failed : ℕ

-- _DOWNLOADED_STATUSES, _TRANSCRIBED_STATUSES, _PENDING_STATUSES
abbrev pub is_downloaded : ItemStatus → Bool
is_downloaded ItemStatus.audio_ready = true
is_downloaded ItemStatus.queued_transcription = true
is_downloaded ItemStatus.transcribing = true
is_downloaded ItemStatus.transcribed = true
is_downloaded ItemStatus.depositing = true
is_downloaded ItemStatus.deposited = true
is_downloaded _ = false

abbrev pub is_transcribed : ItemStatus → Bool
is_transcribed ItemStatus.transcribed = true
is_transcribed ItemStatus.depositing = true
is_transcribed ItemStatus.deposited = true
is_transcribed _ = false

abbrev pub is_pending : ItemStatus → Bool
is_pending ItemStatus.pending_download = true
is_pending ItemStatus.downloading = true
is_pending ItemStatus.awaiting_upload = true
is_pending ItemStatus.pending_extraction = true
is_pending ItemStatus.extracting_audio = true
is_pending _ = false

abbrev pub is_deposited : ItemStatus → Bool
is_deposited s = s == ItemStatus.deposited

abbrev pub is_failed : ItemStatus → Bool
is_failed s = s == ItemStatus.failed

abbrev pub zero_counts : Counts
zero_counts = record {
  discovered = 0;
  selected = 0;
  pending = 0;
  downloaded = 0;
  transcribed = 0;
  deposited = 0;
  failed = 0;
}

abbrev add_if : Bool → ℕ → ℕ → ℕ
add_if true n c = c + n
add_if false n c = c

-- One round of the loop of fold_counts.
unfoldable pub add_row : StatusCount → Counts → Counts
add_row row c = record {
  discovered = c.discovered + row.n;
  selected = add_if row.selected row.n c.selected;
  pending = add_if (row.selected && is_pending row.status) row.n c.pending;
  downloaded = add_if (is_downloaded row.status) row.n c.downloaded;
  transcribed = add_if (is_transcribed row.status) row.n c.transcribed;
  deposited = add_if (is_deposited row.status) row.n c.deposited;
  failed = add_if (is_failed row.status) row.n c.failed;
}

unfoldable pub fold_from : Counts → List StatusCount → Counts
unfolding add_row
fold_from c [] = c
fold_from c (row ∷ rows) = fold_from (add_row row c) rows

unfoldable pub fold_counts : List StatusCount → Counts
unfolding fold_from
fold_counts rows = fold_from zero_counts rows

-- _DISCOVERY_STAGES
abbrev pub is_discovery_stage : RequestStatus → Bool
is_discovery_stage RequestStatus.discovering = true
is_discovery_stage RequestStatus.discovered = true
is_discovery_stage RequestStatus.open_for_upload = true
is_discovery_stage _ = false

unfoldable pub derive_display_status : RequestStatus → Counts → ℕ → RequestStatus
derive_display_status stored counts selected_total =
    if (stored == RequestStatus.cancelled || stored == RequestStatus.failed)
      || is_discovery_stage stored
    then stored
    else if selected_total == 0
    then RequestStatus.completed
    else if leb selected_total (counts.deposited + counts.failed)
    then (if ltb 0 counts.failed then RequestStatus.partially_failed else RequestStatus.completed)
    else RequestStatus.acquiring
