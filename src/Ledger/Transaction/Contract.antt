-- ===== src/Ledger/Transaction/Contract.antt =====
-- The data and the operations of chaincode/transaction/chaincode/contract.go. A call of the contract
-- is an action on the stub; `eventJSON` is given as what `json.Unmarshal` makes of it.
mod Tests
pub mod Record
pub mod Approve
pub mod Chain
pub mod Reach
pub mod Lasting
pub mod Once
pub mod Outcome
pub mod Accept
use aplikasi_transaksi_kanto.Base.{
  ℕ, ◌==◌, Bool, true, false, not, ◌&&◌, ◌||◌, Option, none, some, String, List, [], ◌∷◌, str_eq,
  if◌then◌else◌, length,
}
use aplikasi_transaksi_kanto.Base.Int64.{ℤ, pos, eqb_ℤ, succ_int64}
use aplikasi_transaksi_kanto.Base.Format.{sprintf_09d}
use aplikasi_transaksi_kanto.Ledger.Stub.{
  Shim, Action, pure, ◌>>=◌, ◌>>◌, require, or_fail, get_state, put_state, set_event,
}
use aplikasi_transaksi_kanto.Ledger.Transaction.Status.{is_transition_allowed}

abbrev pub allowed_algorithm_suite : String
allowed_algorithm_suite = "HYBRID_ED25519_MLDSA65_V1"

pub record Transaction : Type 0 where
  pub id : String
  pub organization_id : String
  pub workflow_type : String
  pub schema_version : String
  pub created_by : String
  pub status : String
  pub latest_event_sequence : ℤ
  pub latest_event_payload_hash : String

pub record TransactionEvent : Type 0 where
  pub transaction_id : String
  pub event_sequence : ℤ
  pub event_type : String
  pub payload_hash : String
  pub previous_event_hash : String
  pub algorithm_suite : String
  pub classical_key_id : String
  pub pqc_key_id : String
  pub classical_signature : List ℕ
  pub pqc_signature : List ℕ
  pub idempotency_key : String
  pub created_at_server : String
  pub new_status : String

pub record Approval : Type 0 where
  pub transaction_id : String
  pub event_sequence : ℤ
  pub approver_id : String
  pub decision : String
  pub policy_version : String

-- What the contract stores. A marker is the event's key under an idempotency key.
pub data Doc (K : Type 0) : Type 0 where
  transaction : Transaction → Doc K
  event : TransactionEvent → Doc K
  marker : K → Doc K
  approval : Approval → Doc K

-- The errors that the operations return, in the order of the source.
pub data Error : Type 0 where
  bad_key read_failed write_failed corrupt : Error
  id_required already_exists does_not_exist : Error
  invalid_payload transaction_id_required idempotency_key_required suite_not_allowed : Error
  signatures_required invalid_transition wrong_sequence hash_mismatch replayed : Error
  bad_decision self_approval already_decided cannot_reject : Error

-- `json.Unmarshal(data, &txn)`
abbrev pub as_transaction : {K : Type 0} → Doc K → Option Transaction
as_transaction (transaction t) = some t
as_transaction _ = none

abbrev pub is_absent : {A : Type 0} → Option A → Bool
is_absent none = true
is_absent (some _) = false

-- The header after the event.
abbrev pub advanced : Transaction → TransactionEvent → Transaction
advanced txn evt = record txn {
  status = if not (str_eq evt.new_status "") then evt.new_status else txn.status;
  latest_event_sequence = evt.event_sequence;
  latest_event_payload_hash = evt.payload_hash;
}

module _ (sh : Shim) where
  abbrev pub Call : Type 0 → Type 0
  Call A = Action sh.Key (Doc sh.Key) Error A

  pub transaction_key : String → Call sh.Key
  transaction_key id = or_fail (sh.create_composite_key "transaction" (id ∷ [])) bad_key

  pub event_key : String → ℤ → Call sh.Key
  event_key transaction_id sequence =
      or_fail
        (sh.create_composite_key "transaction_event" (transaction_id ∷ sprintf_09d sequence ∷ []))
        bad_key

  pub idempotency_key : String → Call sh.Key
  idempotency_key key = or_fail (sh.create_composite_key "idempotency" (key ∷ [])) bad_key

  pub approval_key : String → ℤ → String → Call sh.Key
  approval_key transaction_id sequence approver_id =
      or_fail
        (sh.create_composite_key "approval"
          (transaction_id ∷ sprintf_09d sequence ∷ approver_id ∷ []))
        bad_key

  pub create_transaction : String → String → String → String → String → Call (Unit {0})
  create_transaction id organization_id workflow_type schema_version created_by = do
    require (not (str_eq id "")) id_required
    key ← transaction_key id
    existing ← get_state sh read_failed key
    require (is_absent existing) already_exists
    let txn = transaction (record {
      id = id;
      organization_id = organization_id;
      workflow_type = workflow_type;
      schema_version = schema_version;
      created_by = created_by;
      status = "DRAFT";
      latest_event_sequence = pos 0;
      latest_event_payload_hash = "";
    })
    put_state sh write_failed key txn
    set_event sh "TransactionCreated" txn

  pub get_transaction : String → Call Transaction
  get_transaction id = do
    key ← transaction_key id
    stored ← get_state sh read_failed key
    doc ← or_fail stored does_not_exist
    or_fail (as_transaction doc) corrupt

  -- The checks of RecordEvent on the payload alone.
  pub check_event : TransactionEvent → Call (Unit {0})
  check_event evt = do
    require (not (str_eq evt.transaction_id "")) transaction_id_required
    require (not (str_eq evt.idempotency_key "")) idempotency_key_required
    require (str_eq evt.algorithm_suite allowed_algorithm_suite) suite_not_allowed
    require (not (length evt.classical_signature == 0 || length evt.pqc_signature == 0))
        signatures_required

  -- The checks of RecordEvent against the transaction's header.
  pub check_linkage : Transaction → TransactionEvent → Call (Unit {0})
  check_linkage txn evt = do
    require
        (not
          (not (str_eq evt.new_status "") && not (is_transition_allowed txn.status evt.new_status)))
        invalid_transition
    require (eqb_ℤ evt.event_sequence (succ_int64 txn.latest_event_sequence)) wrong_sequence
    require (str_eq evt.previous_event_hash txn.latest_event_payload_hash) hash_mismatch

  -- The writes of RecordEvent.
  pub store_event : Transaction → TransactionEvent → sh.Key → Call (Unit {0})
  store_event txn evt idem = do
    evt_key ← event_key evt.transaction_id evt.event_sequence
    put_state sh write_failed evt_key (event evt)
    put_state sh write_failed idem (marker evt_key)
    txn_key ← transaction_key evt.transaction_id
    put_state sh write_failed txn_key (transaction (advanced txn evt))
    set_event sh "TransactionEventRecorded" (event evt)

  pub record_event : Option TransactionEvent → Call (Unit {0})
  record_event payload = do
    evt ← or_fail payload invalid_payload
    check_event evt
    txn ← get_transaction evt.transaction_id
    check_linkage txn evt
    idem ← idempotency_key evt.idempotency_key
    existing ← get_state sh read_failed idem
    require (is_absent existing) replayed
    store_event txn evt idem

  -- The last part of Approve: a rejection moves the transaction to REJECTED.
  pub reject_transaction : Transaction → String → Call (Unit {0})
  reject_transaction txn transaction_id = do
    require (is_transition_allowed txn.status "REJECTED") cannot_reject
    txn_key ← transaction_key transaction_id
    put_state sh write_failed txn_key (transaction (record txn { status = "REJECTED" }))

  pub approve : String → ℤ → String → String → String → Call (Unit {0})
  approve transaction_id event_sequence approver_id decision policy_version = do
    require (not (not (str_eq decision "approve") && not (str_eq decision "reject"))) bad_decision
    txn ← get_transaction transaction_id
    require (not (str_eq approver_id txn.created_by)) self_approval
    key ← approval_key transaction_id event_sequence approver_id
    existing ← get_state sh read_failed key
    require (is_absent existing) already_decided
    let doc = approval (record {
      transaction_id = transaction_id;
      event_sequence = event_sequence;
      approver_id = approver_id;
      decision = decision;
      policy_version = policy_version;
    })
    put_state sh write_failed key doc
    (if str_eq decision "reject" then reject_transaction txn transaction_id else pure tt)
    set_event sh "ApprovalRecorded" doc
