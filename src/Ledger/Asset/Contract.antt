-- ===== src/Ledger/Asset/Contract.antt =====
-- The data and the operations of chaincode/asset/chaincode/contract.go. A call of the contract is an
-- action on the stub; `eventJSON` is given as what `json.Unmarshal` makes of it.
mod Tests
pub mod Record
pub mod Reach
use aplikasi_transaksi_kanto.Base.{
  ℕ, ◌==◌, Bool, true, false, not, ◌||◌, Option, none, some, String, List, [], ◌∷◌, str_eq, length,
}
use aplikasi_transaksi_kanto.Base.Int64.{ℤ, pos, eqb_ℤ, succ_int64}
use aplikasi_transaksi_kanto.Base.Format.{sprintf_09d}
use aplikasi_transaksi_kanto.Ledger.Stub.{
  Shim, Action, ◌>>=◌, ◌>>◌, require, or_fail, get_state, put_state, set_event,
}
use aplikasi_transaksi_kanto.Ledger.Asset.Lifecycle.{is_lifecycle_transition_allowed}

abbrev pub allowed_algorithm_suite : String
allowed_algorithm_suite = "HYBRID_ED25519_MLDSA65_V1"

pub record Asset : Type 0 where
  pub id : String
  pub organization_id : String
  pub asset_tag : String
  pub status : String
  pub latest_event_sequence : ℤ
  pub latest_event_payload_hash : String

pub record CustodyEvent : Type 0 where
  pub asset_id : String
  pub event_sequence : ℤ
  pub from_party : String
  pub to_party : String
  pub location_zone : String
  pub condition_note : String
  pub inspection_result : String
  pub payload_hash : String
  pub previous_event_hash : String
  pub algorithm_suite : String
  pub classical_key_id : String
  pub pqc_key_id : String
  pub classical_signature : List ℕ
  pub pqc_signature : List ℕ
  pub idempotency_key : String
  pub created_at_server : String
  pub new_status : String

-- What the contract stores. A marker is the event's key under an idempotency key.
pub data Doc (K : Type 0) : Type 0 where
  asset : Asset → Doc K
  custody_event : CustodyEvent → Doc K
  marker : K → Doc K

-- The errors that the operations return, in the order of the source.
pub data Error : Type 0 where
  bad_key read_failed write_failed corrupt : Error
  id_required already_exists does_not_exist : Error
  invalid_payload asset_id_required to_party_required idempotency_key_required : Error
  new_status_required suite_not_allowed signatures_required invalid_transition : Error
  wrong_sequence hash_mismatch replayed : Error

-- `json.Unmarshal(data, &asset)`
abbrev pub as_asset : {K : Type 0} → Doc K → Option Asset
as_asset (asset a) = some a
as_asset _ = none

abbrev pub is_absent : {A : Type 0} → Option A → Bool
is_absent none = true
is_absent (some _) = false

-- The header after the event.
abbrev pub advanced : Asset → CustodyEvent → Asset
advanced a evt = record a {
  status = evt.new_status;
  latest_event_sequence = evt.event_sequence;
  latest_event_payload_hash = evt.payload_hash;
}

module _ (sh : Shim) where
  abbrev pub Call : Type 0 → Type 0
  Call A = Action sh.Key (Doc sh.Key) Error A

  pub asset_key : String → Call sh.Key
  asset_key id = or_fail (sh.create_composite_key "asset" (id ∷ [])) bad_key

  pub custody_event_key : String → ℤ → Call sh.Key
  custody_event_key asset_id sequence =
      or_fail (sh.create_composite_key "custody_event" (asset_id ∷ sprintf_09d sequence ∷ []))
        bad_key

  pub idempotency_key : String → Call sh.Key
  idempotency_key key = or_fail (sh.create_composite_key "idempotency" (key ∷ [])) bad_key

  pub create_asset : String → String → String → Call (Unit {0})
  create_asset id organization_id asset_tag = do
    require (not (str_eq id "")) id_required
    key ← asset_key id
    existing ← get_state sh read_failed key
    require (is_absent existing) already_exists
    let doc = asset (record {
      id = id;
      organization_id = organization_id;
      asset_tag = asset_tag;
      status = "CREATED";
      latest_event_sequence = pos 0;
      latest_event_payload_hash = "";
    })
    put_state sh write_failed key doc
    set_event sh "AssetCreated" doc

  pub get_asset : String → Call Asset
  get_asset id = do
    key ← asset_key id
    stored ← get_state sh read_failed key
    doc ← or_fail stored does_not_exist
    or_fail (as_asset doc) corrupt

  -- The checks of RecordCustodyEvent on the payload alone.
  pub check_event : CustodyEvent → Call (Unit {0})
  check_event evt = do
    require (not (str_eq evt.asset_id "")) asset_id_required
    require (not (str_eq evt.to_party "")) to_party_required
    require (not (str_eq evt.idempotency_key "")) idempotency_key_required
    require (not (str_eq evt.new_status "")) new_status_required
    require (str_eq evt.algorithm_suite allowed_algorithm_suite) suite_not_allowed
    require (not (length evt.classical_signature == 0 || length evt.pqc_signature == 0))
        signatures_required

  -- The checks of RecordCustodyEvent against the asset's header.
  pub check_linkage : Asset → CustodyEvent → Call (Unit {0})
  check_linkage a evt = do
    require (is_lifecycle_transition_allowed a.status evt.new_status) invalid_transition
    require (eqb_ℤ evt.event_sequence (succ_int64 a.latest_event_sequence)) wrong_sequence
    require (str_eq evt.previous_event_hash a.latest_event_payload_hash) hash_mismatch

  -- The writes of RecordCustodyEvent.
  pub store_event : Asset → CustodyEvent → sh.Key → Call (Unit {0})
  store_event a evt idem = do
    evt_key ← custody_event_key evt.asset_id evt.event_sequence
    put_state sh write_failed evt_key (custody_event evt)
    put_state sh write_failed idem (marker evt_key)
    header_key ← asset_key evt.asset_id
    put_state sh write_failed header_key (asset (advanced a evt))
    set_event sh "CustodyEventRecorded" (custody_event evt)

  pub record_custody_event : Option CustodyEvent → Call (Unit {0})
  record_custody_event payload = do
    evt ← or_fail payload invalid_payload
    check_event evt
    a ← get_asset evt.asset_id
    check_linkage a evt
    idem ← idempotency_key evt.idempotency_key
    existing ← get_state sh read_failed idem
    require (is_absent existing) replayed
    store_event a evt idem
