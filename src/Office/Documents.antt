-- ===== src/Office/Documents.antt =====
-- api/internal/httpapi/office.go: a document on its way into the store, and out of it again.
pub mod Laws
use Prim.Native.String.{◌++◌}
use aplikasi_transaksi_kanto.Base.{
  ℕ, Bool, ◌&&◌, ◌||◌, not, Option, none, some, String, List, [], ◌∷◌, str_eq, if◌then◌else◌,
  length,
}
use aplikasi_transaksi_kanto.Store.Dict.{Dict, lookup, insert}
use aplikasi_transaksi_kanto.Crypto.Hybrid.{Bytes}
use aplikasi_transaksi_kanto.Office.Types.{OfficeIdentity, TransactionRow, DocumentRow}
use aplikasi_transaksi_kanto.Office.Database.{
  Tx, ok, err, DbError, failed, pure, ◌>>=◌, ◌>>◌, require, or_fail, read, write,
}
use aplikasi_transaksi_kanto.Office.Events.{Site, Request}
use aplikasi_transaksi_kanto.Office.Roles.{can_see_all, office_workflow}
use aplikasi_transaksi_kanto.Office.Actions.{HttpError, refused, internal_error}

-- `maxDocumentSize`
abbrev pub max_document_size : ℕ
max_document_size = 33554432

-- s.Objects.Put
unfoldable pub put_object : Bool → String → Bytes → Tx DbError (Unit {0})
put_object up key content s =
    if up then (ok tt, record s { objects = insert key content s.objects }) else (err failed, s)

abbrev pub document_key : String → String → String → String
document_key txn_id kind id = "office/" ++ (txn_id ++ ("/" ++ (kind ++ ("-" ++ (id ++ ".pdf")))))

module _ (site : Site) (req : Request) where
  abbrev pub document_row : String → String → String → String → String → Bytes → DocumentRow
  document_row id txn_id kind file_name uploaded_by content = record {
    id = id;
    owner_type = "transaction_event";
    owner_id = txn_id;
    storage_key = document_key txn_id kind id;
    sha256_hash = "sha256:" ++ site.sha256_hex content;
    content_type = "application/pdf";
    uploaded_by = uploaded_by;
    kind = kind;
    file_name = file_name;
    sha512_hash = site.sha512_hex content;
    size_bytes = length content;
  }

  -- storeDocument; `id` is the uuid it draws.
  unfoldable pub store_document :
      String → String → String → String → String → Bytes → Tx DbError String
  store_document id txn_id kind file_name uploaded_by content = do
    put_object (req.up "put object") (document_key txn_id kind id) content
    require (req.up "insert document") failed
    write λ db. record db {
      documents = document_row id txn_id kind file_name uploaded_by content ∷ db.documents;
    }
    pure id

-- `WHERE d.id = $1 AND d.kind IN ('attachment','signed')`
abbrev is_office_document : String → DocumentRow → Bool
is_office_document id d = str_eq d.id id && (str_eq d.kind "attachment" || str_eq d.kind "signed")

-- The join with the transactions of the workflow: the document with its transaction's creator.
unfoldable pub joined_document :
    String → List DocumentRow → Dict TransactionRow → Option (DocumentRow × String)
joined_document id [] rows = none
joined_document id (d ∷ ds) rows =
    let rest = joined_document id ds rows in
    if is_office_document id d
    then elim (lookup d.owner_id rows) [
      | none ↦ rest
      | some row ↦
          if str_eq row.workflow_type office_workflow then some (d, row.created_by) else rest
    ]
    else rest

abbrev document_not_found : HttpError
document_not_found = refused 404 "dokumen tidak ditemukan"

-- officeDownload, up to the answer's headers.
unfoldable pub office_download : Request → OfficeIdentity → String → Tx HttpError (Bytes × String)
office_download req me id = do
  require (req.up "select document") internal_error
  db ← read
  found ← or_fail (joined_document id db.documents db.transactions) document_not_found
  require (not (not (can_see_all me) && not (str_eq found.1 me.id))) document_not_found
  require (req.up "get object") internal_error
  objects ← λ s. (ok s.objects, s)
  content ← or_fail (lookup found.0.storage_key objects) internal_error
  pure (content, found.0.file_name)
