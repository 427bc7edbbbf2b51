-- ===== src/Acquisition/AutoSelect.antt =====
-- services/acquisition/auto_select.py
use roles.Prelude.{ℕ, true, Bool, false, Option, none, some, ◌==◌, nat_eq, if◌then◌else◌}
use roles.Outside.{Outside}
use roles.Db.Schema.{Db, Request, RequestStatus, request_status_eq, Mode}
use roles.Db.Sources.{get_source, credentials_of}
use roles.Db.Requests.{update_status}
use roles.Acquisition.Errors.{ok, err}
use roles.Acquisition.Selection.{Scope, resolve_item_ids_from_filters, apply_selection}

abbrev pub is_auto : Option Mode → Bool
is_auto (some Mode.auto) = true
is_auto _ = false

-- `none` is an AcquisitionError of the filters, raised before anything is written.
unfoldable pub on_discovery_complete : Outside → Request → ℕ → ℕ → Db → Option Db
on_discovery_complete o request source_id tenant_id db =
    if request.status == RequestStatus.cancelled
    then some db
    else if is_auto request.mode
    then elim (resolve_item_ids_from_filters o source_id request.filters db) [
      | err e ↦ none
      | ok item_ids ↦
          let scope : Scope = record {
            source_id = source_id;
            tenant_id = tenant_id;
            credentials_id = credentials_of (get_source source_id db);
          } in
          some (
            update_status request.request_key RequestStatus.acquiring
              (apply_selection scope item_ids db).1)
    ]
    else some (update_status request.request_key RequestStatus.discovered db)
