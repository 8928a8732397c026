-- ===== src/Archive/Finalize.antt =====
-- api/internal/httpapi/archive.go: the database transaction of archiveFinalize, and the receipt. A text that
-- fmt or encoding/json makes of a number in a payload is the number itself.
pub mod Laws
pub mod Item
use Prim.Native.String.{◌++◌ as ◌^^◌}
use aplikasi_transaksi_kanto.Base.{
  ℕ, ◌+◌, ◌==◌, Bool, true, false, ◌&&◌, not, Option, none, some, String, List, [], ◌∷◌, ◌++◌,
  str_eq, if◌then◌else◌,
}
use aplikasi_transaksi_kanto.Base.Int64.{pos}
use aplikasi_transaksi_kanto.Crypto.Context.{SigningContext}
use aplikasi_transaksi_kanto.Crypto.Hybrid.{Bytes, sign_hybrid}
use aplikasi_transaksi_kanto.Office.Types.{
  OfficeIdentity, TxnMeta, TransactionRow, EventRow, Payload, text, number, Queued, Database,
}
use aplikasi_transaksi_kanto.Office.Database.{
  Tx, DbError, failed, pure, ◌>>=◌, ◌>>◌, require, or_fail, or_failed, read, enqueue_outbox,
}
use aplikasi_transaksi_kanto.Office.Events.{Site, Request, EventInput, append_transaction_event}
use aplikasi_transaksi_kanto.Office.Create.{insert_transaction}
use aplikasi_transaksi_kanto.Archive.Types.{
  UploadRow, Receipt, ItemRow, archive_workflow, archive_schema, system_archive_id,
}

-- The ids that one archiving draws, with the key of the object and the two sums.
pub record Archiving : Type 0 where
  pub item_id : String
  pub txn_id : String
  pub receipt_id : String
  pub key : String
  pub sum256 : String
  pub sum512 : String
  pub org_name : String
  pub server_name : String

abbrev pub archive_row : OfficeIdentity → UploadRow → TransactionRow
archive_row me u = record {
  organization_id = u.org_id;
  workflow_type = archive_workflow;
  schema_version = archive_schema;
  created_by = me.id;
  status = "DRAFT";
  office_meta = some (record {
    title = u.file_name;
    category = "arsip";
    amount = pos u.size;
    description = u.description;
  });
}

abbrev pub archive_call : OfficeIdentity → UploadRow → String → Queued
archive_call me u id = Queued.create_transaction id u.org_id archive_workflow archive_schema me.id

-- `ORDER BY event_sequence` of the events of one transaction; the rows stand newest first.
unfoldable pub events_of : String → List EventRow → List EventRow
events_of id [] = []
events_of id (e ∷ rest) =
    let older = events_of id rest in if str_eq e.transaction_id id then older ++ e ∷ [] else older

-- The event with number 1.
unfoldable pub first_event : List EventRow → Option EventRow
first_event [] = none
first_event (e ∷ rest) =
    let later = first_event rest in if e.event_sequence == 1 then some e else later

module _ (site : Site) (req : Request) where
  -- The request again, for the next ids that it draws.
  abbrev pub later : ℕ → Request
  later n = record req { serial = req.serial + n }

  abbrev pub manifest_of : OfficeIdentity → UploadRow → Archiving → Payload
  manifest_of me u a =
      ("schema", text "archive-manifest/1")
      ∷ ("receipt_id", text a.receipt_id)
      ∷ ("item_id", text a.item_id)
      ∷ ("transaction_id", text a.txn_id)
      ∷ ("server_name", text a.server_name)
      ∷ ("organization_id", text u.org_id)
      ∷ ("organization_name", text a.org_name)
      ∷ ("sender_id", text me.id)
      ∷ ("sender_name", text me.name)
      ∷ ("sender_email", text me.email)
      ∷ ("file_name", text u.file_name)
      ∷ ("media_type", text u.media_type)
      ∷ ("size_bytes", number (pos u.size))
      ∷ ("sha256", text a.sum256)
      ∷ ("sha512", text a.sum512)
      ∷ ("description", text u.description)
      ∷ ("client_ip", text u.client_ip)
      ∷ ("user_agent", text u.user_agent)
      ∷ ("received_at", text req.now)
      ∷ []

  -- An event of the archive: its type, its signer, its status and its payload.
  abbrev pub archive_input : Archiving → String → String → String → Payload → EventInput
  archive_input a event_type signer new_status payload = record {
    transaction_id = a.txn_id;
    event_type = event_type;
    signer_identity = signer;
    payload = payload;
    new_status = new_status;
    idempotency_key = "";
  }

  abbrev pub verified_payload : UploadRow → Archiving → Payload
  verified_payload u a =
      ("receipt_id", text a.receipt_id)
      ∷ ("sha256", text a.sum256)
      ∷ ("sha512", text a.sum512)
      ∷ ("size_bytes", number (pos u.size))
      ∷ ("method", text "read-back-from-object-store")
      ∷ ("at", text req.now)
      ∷ []

  abbrev pub archived_payload : Archiving → String → Payload
  archived_payload a manifest_hash =
      ("receipt_id", text a.receipt_id)
      ∷ ("manifest_hash", text manifest_hash)
      ∷ ("at", text req.now)
      ∷ []

  -- sigContext
  abbrev pub sig_context : String → String → SigningContext
  sig_context txn_type txn_id = record {
    application = site.application;
    environment = site.environment;
    transaction_type = txn_type;
    schema_version = archive_schema;
    transaction_id = txn_id;
  }

  -- buildReceipt; `body_hash` is what PayloadHash makes of the body.
  unfoldable pub build_receipt : Option String → Archiving → Payload → String → Tx DbError Receipt
  build_receipt body_hash a manifest manifest_hash = do
    require (req.up "select events") failed
    db ← read
    let events = events_of a.txn_id db.transaction_events
    sender_event ← or_fail (first_event events) failed
    identity ← or_fail (site.signing_identity system_archive_id) failed
    signed ←
        or_failed
          (sign_hybrid site.primitives identity (sig_context "ARCHIVE_RECEIPT" a.txn_id) body_hash)
    pure (record {
      receipt_id = a.receipt_id;
      issued_at = req.now;
      transaction_id = a.txn_id;
      manifest = manifest;
      manifest_hash = manifest_hash;
      sender_event = sender_event;
      events = events;
      classical_signature = signed.0.classical_signature;
      pqc_signature = signed.0.pqc_signature;
    })

  abbrev pub item_row :
      OfficeIdentity → UploadRow → Archiving → Payload → String → Receipt → ItemRow
  item_row me u a manifest manifest_hash receipt = record {
    id = a.item_id;
    receipt_id = a.receipt_id;
    transaction_id = a.txn_id;
    organization_id = u.org_id;
    sender_id = me.id;
    file_name = u.file_name;
    media_type = u.media_type;
    size_bytes = u.size;
    sha256 = a.sum256;
    sha512 = a.sum512;
    description = u.description;
    storage_key = a.key;
    client_ip = u.client_ip;
    user_agent = u.user_agent;
    manifest = manifest;
    manifest_hash = manifest_hash;
    receipt = receipt;
    received_at = req.now;
  }

  -- The three events: the sender's, and two of the system; the answer is the first one's hash.
  unfoldable pub archive_events : OfficeIdentity → UploadRow → Archiving → Tx DbError String
  archive_events me u a = do
    e1 ←
        append_transaction_event site (later 10)
          (archive_input a "UPLOAD_RECEIVED" me.id "" (manifest_of me u a)) true
    append_transaction_event site (later 20)
        (archive_input a "INTEGRITY_VERIFIED" system_archive_id "VERIFIED" (verified_payload u a))
        true
    append_transaction_event site (later 30)
        (archive_input a "ARCHIVED" system_archive_id "ENDORSED"
          (archived_payload a e1.payload_hash))
        true
    pure e1.payload_hash

  -- archiveFinalize between Begin and Commit; the answer is the row of the item.
  unfoldable pub archive_rows :
      OfficeIdentity → UploadRow → Archiving → (Payload → Option String) → Tx DbError ItemRow
  archive_rows me u a body_hash = do
    insert_transaction (req.up "insert transaction") a.txn_id (archive_row me u)
    enqueue_outbox (req.up "queue transaction") (archive_call me u a.txn_id)
    manifest_hash ← archive_events me u a
    let manifest = manifest_of me u a
    receipt ← build_receipt (body_hash manifest) a manifest manifest_hash
    require (req.up "insert item") failed
    pure (item_row me u a manifest manifest_hash receipt)
