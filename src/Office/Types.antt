-- ===== src/Office/Types.antt =====
-- The rows that api/internal/httpapi reads and writes: the tables of migrations/ that the office
-- workflow uses, a database of them, and the object store beside it. A table is a list, the newest row
-- first, or a dictionary by its primary key.
use aplikasi_transaksi_kanto.Base.{ℕ, Option, String, List, []}
use aplikasi_transaksi_kanto.Base.Int64.{ℤ}
use aplikasi_transaksi_kanto.Store.Dict.{Dict}
use aplikasi_transaksi_kanto.Crypto.Hybrid.{Bytes}
use aplikasi_transaksi_kanto.Ledger.Transaction.Contract.{TransactionEvent}
use aplikasi_transaksi_kanto.Ledger.Asset.Contract.{CustodyEvent}

-- officeIdentity
pub record OfficeIdentity : Type 0 where
  pub id : String
  pub email : String
  pub name : String
  pub ttd_role : String
  pub office_role : String
  pub org_id : String
  pub org_name : String

-- A field of an event's payload.
pub data PayloadValue : Type 0 where
  text : String → PayloadValue
  number : ℤ → PayloadValue

abbrev pub Payload : Type 0
Payload = Dict PayloadValue

-- txnMeta
pub record TxnMeta : Type 0 where
  pub title : String
  pub category : String
  pub amount : ℤ
  pub description : String

pub record TransactionRow : Type 0 where
  pub organization_id : String
  pub workflow_type : String
  pub schema_version : String
  pub created_by : String
  pub status : String
  pub office_meta : Option TxnMeta

pub record EventRow : Type 0 where
  pub id : String
  pub transaction_id : String
  pub event_sequence : ℕ
  pub event_type : String
  pub payload_hash : String
  pub previous_event_hash : String
  pub algorithm_suite : String
  pub classical_key_id : String
  pub pqc_key_id : String
  pub classical_signature : Bytes
  pub pqc_signature : Bytes
  pub idempotency_key : String
  pub created_at_server : String
  pub payload : Payload
  pub actor_id : String

pub record DocumentRow : Type 0 where
  pub id : String
  pub owner_type : String
  pub owner_id : String
  pub storage_key : String
  pub sha256_hash : String
  pub content_type : String
  pub uploaded_by : String
  pub kind : String
  pub file_name : String
  pub sha512_hash : String
  pub size_bytes : ℕ

pub record ApprovalRow : Type 0 where
  pub id : String
  pub transaction_id : String
  pub event_id : String
  pub approver_id : String
  pub decision : String
  pub policy_version : String

-- A call that is queued for a chaincode: the function's name with its arguments.
pub data Queued : Type 0 where
  create_transaction : String → String → String → String → String → Queued
  record_event : TransactionEvent → Queued
  approve : String → ℕ → String → String → String → Queued
  create_asset : String → String → String → Queued
  record_custody_event : CustodyEvent → Queued

pub record AssetRow : Type 0 where
  pub organization_id : String
  pub asset_tag : String
  pub status : String

pub record Database : Type 0 where
  pub identities : Dict String
  pub office_roles : Dict String
  pub transactions : Dict TransactionRow
  pub transaction_events : List EventRow
  pub assets : Dict AssetRow
  pub custody_events : List CustodyEvent
  pub documents : List DocumentRow
  pub approvals : List ApprovalRow
  -- The outbox in the order of `created_at`, the oldest first.
  pub outbox : List Queued

pub record Store : Type 0 where
  pub db : Database
  pub objects : Dict Bytes

abbrev pub empty_database : Database
empty_database = record {
  identities = [];
  office_roles = [];
  transactions = [];
  transaction_events = [];
  assets = [];
  custody_events = [];
  documents = [];
  approvals = [];
  outbox = [];
}

abbrev pub empty_store : Store
empty_store = record { db = empty_database; objects = [] }
