-- ===== src/Ledger/Asset/Contract/Tests.antt =====
-- Runs of the asset contract on a concrete ledger.
use aplikasi_transaksi_kanto.Base.{◌≡◌, ◌≢◌, refl, str_eq_ne, none, some, String, [], ◌∷◌}
use aplikasi_transaksi_kanto.Base.Int64.{pos, succ_int64}
use aplikasi_transaksi_kanto.Base.Format.{sprintf_09d}
use aplikasi_transaksi_kanto.Ledger.Stub.{peer, ok, get_state, put_state, set_event, update}
use aplikasi_transaksi_kanto.Ledger.Table.{contains}
use aplikasi_transaksi_kanto.Ledger.Asset.Lifecycle.{is_lifecycle_transition_allowed}
use aplikasi_transaksi_kanto.Ledger.Asset.Contract.{
  Asset, CustodyEvent, asset, record_custody_event, check_event, get_asset, check_linkage,
  store_event, asset_key, custody_event_key, idempotency_key,
}
use aplikasi_transaksi_kanto.Ledger.Asset.Contract.Record.{World}
use aplikasi_transaksi_kanto.Ledger.Asset.Contract.Reach.{
  here, then, append, HasHeader, Moves, record_custody_event_once, status_follows_graph,
  retired_asset_closed, retirement_follows_store, Later,
}

abbrev receipt : CustodyEvent
receipt = record {
  asset_id = "a1";
  event_sequence = pos 1;
  from_party = "";
  to_party = "store";
  location_zone = "Z";
  condition_note = "";
  inspection_result = "";
  payload_hash = "h1";
  previous_event_hash = "";
  algorithm_suite = "HYBRID_ED25519_MLDSA65_V1";
  classical_key_id = "c1";
  pqc_key_id = "q1";
  classical_signature = 1 ∷ [];
  pqc_signature = 2 ∷ [];
  idempotency_key = "i1";
  created_at_server = "now";
  new_status = "RECEIVED";
}

abbrev with_status : String → Asset
with_status status = record {
  id = "a1";
  organization_id = "org";
  asset_tag = "tag";
  status = status;
  latest_event_sequence = pos 0;
  latest_event_payload_hash = "";
}

-- A ledger that holds one asset, in a given status.
abbrev holding : String → World peer
holding status = record {
  state = update peer (λ _. none) ("asset", "a1" ∷ []) (asset (with_status status));
  event = none;
}

abbrev appended : World peer
appended = (record_custody_event peer (some receipt) (holding "CREATED")).1

appended_run : record_custody_event peer (some receipt) (holding "CREATED") ≡ (ok tt, appended)
unfolding record_custody_event check_event get_asset check_linkage store_event asset_key
    custody_event_key idempotency_key get_state put_state set_event succ_int64 sprintf_09d
    is_lifecycle_transition_allowed contains
appended_run = refl

record_custody_event_once_example :
    record_custody_event peer (some receipt) appended ≢ (ok tt, appended)
record_custody_event_once_example =
    record_custody_event_once peer receipt receipt (holding "CREATED") appended appended appended
      appended_run here refl

status_follows_graph_example :
    (later : Asset) × HasHeader peer appended.state ("asset", "a1" ∷ []) later
    × Moves "CREATED" later.status
status_follows_graph_example =
    status_follows_graph peer {id = "a1"} {s = holding "CREATED"} {t = appended}
      ("asset", "a1" ∷ []) (with_status "CREATED") refl refl
      (then here (append receipt appended_run))

retired_asset_closed_example :
    record_custody_event peer (some receipt) (holding "RETIRED") ≢ (ok tt, holding "RETIRED")
retired_asset_closed_example =
    retired_asset_closed peer ("asset", "a1" ∷ []) (with_status "RETIRED") receipt
      (holding "RETIRED") (holding "RETIRED") (holding "RETIRED") refl refl refl here

abbrev retirement : CustodyEvent
retirement = record receipt { new_status = "RETIRED" }

abbrev retired : World peer
retired = (record_custody_event peer (some retirement) (holding "STORED")).1

retired_run : record_custody_event peer (some retirement) (holding "STORED") ≡ (ok tt, retired)
unfolding record_custody_event check_event get_asset check_linkage store_event asset_key
    custody_event_key idempotency_key get_state put_state set_event succ_int64 sprintf_09d
    is_lifecycle_transition_allowed contains
retired_run = refl

abbrev retired_asset : Asset
retired_asset = record (with_status "RETIRED") {
  latest_event_sequence = pos 1;
  latest_event_payload_hash = "h1";
}

retired_header : HasHeader peer retired.state ("asset", "a1" ∷ []) retired_asset
unfolding record_custody_event check_event get_asset check_linkage store_event asset_key
    custody_event_key idempotency_key get_state put_state set_event succ_int64 sprintf_09d
    is_lifecycle_transition_allowed contains
retired_header = refl

retirement_follows_store_example :
    (u : World peer) × (b : Asset) × Later peer (holding "STORED") u
    × Later peer u retired
    × HasHeader peer u.state ("asset", "a1" ∷ []) b
    × (b.status ≡ "STORED")
retirement_follows_store_example =
    retirement_follows_store peer {id = "a1"} ("asset", "a1" ∷ []) (with_status "STORED")
      (holding "STORED") retired retired_asset refl refl (str_eq_ne "STORED" "RETIRED" refl)
      (then here (append retirement retired_run)) retired_header refl
