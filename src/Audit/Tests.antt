-- ===== src/Audit/Tests.antt =====
-- Receipts of small histories.
use aplikasi_transaksi_kanto.Base.{refl, some, [], ◌∷◌, map}
use aplikasi_transaksi_kanto.Base.Int64.{pos}
use aplikasi_transaksi_kanto.Crypto.Hybrid.{suite_hybrid_ed25519_mldsa65_v1}
use aplikasi_transaksi_kanto.Crypto.Hybrid.Tests.{lengths, zeros}
use aplikasi_transaksi_kanto.Audit.{
  WireTransaction, WireTransactionEvent, WireCustodyEvent, row, Verifier, Channel,
  transaction_evidence, custody_evidence, verify_transaction, verify_asset,
}
use aplikasi_transaksi_kanto.Audit.Laws.{IsAnswerOn, verify_transaction-report, verify_asset-report}

abbrev verifier : Verifier
verifier = record { db = λ id. row (zeros 32) "active"; application = "app"; environment = "dev" }

abbrev txn : WireTransaction
txn = record {
  id = "t1";
  organization_id = "org";
  workflow_type = "PO";
  schema_version = "v1";
  created_by = "ana";
  status = "VERIFIED";
  latest_event_sequence = pos 1;
  latest_event_payload_hash = "h1";
}

abbrev event : WireTransactionEvent
event = record {
  transaction_id = "t1";
  event_sequence = pos 1;
  event_type = "RELEASE";
  payload_hash = "h1";
  previous_event_hash = "";
  algorithm_suite = suite_hybrid_ed25519_mldsa65_v1;
  classical_key_id = "c1";
  pqc_key_id = "q1";
  classical_signature = 1 ∷ [];
  pqc_signature = 2 ∷ [];
  idempotency_key = "i1";
  created_at_server = "now";
  new_status = "VERIFIED";
}

abbrev custody : WireCustodyEvent
custody = record {
  asset_id = "a1";
  event_sequence = pos 1;
  from_party = "";
  to_party = "store";
  location_zone = "";
  condition_note = "";
  inspection_result = "";
  payload_hash = "h1";
  previous_event_hash = "";
  algorithm_suite = suite_hybrid_ed25519_mldsa65_v1;
  classical_key_id = "c1";
  pqc_key_id = "q1";
  classical_signature = 1 ∷ [];
  pqc_signature = 2 ∷ [];
  idempotency_key = "i1";
  created_at_server = "now";
  new_status = "RECEIVED";
}

abbrev channel : Channel
channel = record {
  get_transaction = λ id. some txn;
  get_event_history = λ id. some (event ∷ []);
  get_custody_history = λ id. some (custody ∷ []);
}

verify_transaction-report_example :
    IsAnswerOn lengths verifier
      (verify_transaction lengths verifier channel "t1")
      "t1"
      (map (transaction_evidence verifier txn "t1") (event ∷ []))
verify_transaction-report_example =
    verify_transaction-report lengths verifier channel "t1" txn (event ∷ []) refl refl

verify_asset-report_example :
    IsAnswerOn lengths verifier
      (verify_asset lengths verifier channel "a1")
      "a1"
      (map (custody_evidence verifier "a1") (custody ∷ []))
verify_asset-report_example = verify_asset-report lengths verifier channel "a1" (custody ∷ []) refl
