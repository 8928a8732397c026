-- ===== src/Archive/Types.antt =====
-- The state behind the archive: its own tables, the scratch files and the in-memory side of an upload, next
-- to the tables that it shares with the office.
use aplikasi_transaksi_kanto.Base.{ℕ, Option, String, List, []}
use aplikasi_transaksi_kanto.Store.Dict.{Dict}
use aplikasi_transaksi_kanto.Crypto.Hybrid.{Bytes}
use aplikasi_transaksi_kanto.Office.Types.{Payload, EventRow, Store, empty_store}

abbrev pub archive_workflow : String
archive_workflow = "arsip-kiriman"

abbrev pub archive_schema : String
archive_schema = "archive.v1"

abbrev pub system_archive_id : String
system_archive_id = "system-archive"

-- `archiveMaxChunk`, `archiveDefaultMax`, `archiveMaxOpenUpl` and `archiveDiskReserved`
abbrev pub archive_max_chunk : ℕ
archive_max_chunk = 67108864

abbrev pub archive_default_max : ℕ
archive_default_max = 21474836480

abbrev pub archive_max_open_uploads : ℕ
archive_max_open_uploads = 5

abbrev pub archive_disk_reserved : ℕ
archive_disk_reserved = 268435456

-- uploadRow
pub record UploadRow : Type 0 where
  pub id : String
  pub sender_id : String
  pub org_id : String
  pub file_name : String
  pub media_type : String
  pub description : String
  pub temp_path : String
  pub client_ip : String
  pub user_agent : String
  pub status : String
  pub size : ℕ
  pub received : ℕ

-- uploadRT. Both running hashes have been given the same bytes: `hashed`, none for nil.
pub record UploadRuntime : Type 0 where
  pub n : ℕ
  pub hashed : Option Bytes

-- The receipt's body with the server's signature over it.
pub record Receipt : Type 0 where
  pub receipt_id : String
  pub issued_at : String
  pub transaction_id : String
  pub manifest : Payload
  pub manifest_hash : String
  pub sender_event : EventRow
  pub events : List EventRow
  pub classical_signature : Bytes
  pub pqc_signature : Bytes

-- A row of archive_item.
pub record ItemRow : Type 0 where
  pub id : String
  pub receipt_id : String
  pub transaction_id : String
  pub organization_id : String
  pub sender_id : String
  pub file_name : String
  pub media_type : String
  pub size_bytes : ℕ
  pub sha256 : String
  pub sha512 : String
  pub description : String
  pub storage_key : String
  pub client_ip : String
  pub user_agent : String
  pub manifest : Payload
  pub manifest_hash : String
  pub receipt : Receipt
  pub received_at : String

pub record ArchiveState : Type 0 where
  pub store : Store
  pub uploads : Dict UploadRow
  pub runtimes : Dict UploadRuntime
  -- The scratch files by their path.
  pub files : Dict Bytes
  pub items : List ItemRow

abbrev pub empty_archive : ArchiveState
empty_archive = record { store = empty_store; uploads = []; runtimes = []; files = []; items = [] }
