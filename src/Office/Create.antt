-- ===== src/Office/Create.antt =====
-- api/internal/httpapi/office.go: a new request with its attachment. The form is given with its fields
-- as strings.TrimSpace leaves them, the amount as strconv.ParseInt answers, and the file with the name
-- that cleanFileName makes of its header's.
use Prim.Native.String.{◌++◌, count}
use aplikasi_transaksi_kanto.Base.{
  ◌+◌, ◌^◌, ltb, ◌==◌, Bool, true, false, ◌&&◌, ◌||◌, not, Option, none, some, String, [], ◌∷◌,
  length,
}
use aplikasi_transaksi_kanto.Base.Int64.{ℤ, pos, ltb_ℤ}
use aplikasi_transaksi_kanto.Store.Dict.{lookup, insert}
use aplikasi_transaksi_kanto.Crypto.Hybrid.{Bytes}
use aplikasi_transaksi_kanto.Office.Types.{
  OfficeIdentity, TxnMeta, TransactionRow, Queued, Payload, text, number,
}
use aplikasi_transaksi_kanto.Office.Database.{
  Tx, DbError, duplicate, failed, pure, ◌>>=◌, ◌>>◌, require, or_fail, read, write, catch, transact,
  enqueue_outbox,
}
use aplikasi_transaksi_kanto.Office.Events.{Site, Request, EventInput, append_transaction_event}
use aplikasi_transaksi_kanto.Office.Roles.{
  office_category, office_org, office_schema, office_workflow,
}
use aplikasi_transaksi_kanto.Office.Actions.{HttpError, refused, internal_error, statement_answer}
use aplikasi_transaksi_kanto.Office.Documents.{max_document_size, store_document}

pub record Form : Type 0 where
  pub title : String
  pub category : String
  pub description : String
  pub amount : Option ℤ
  pub file_name : String
  -- What io.ReadAll makes of the file, cut behind its maxDocumentSize+1 bytes.
  pub file : Option Bytes

-- `bytes.HasPrefix(data, []byte("%PDF-"))`
unfoldable pub has_prefix : Bytes → Bytes → Bool
has_prefix content [] = true
has_prefix [] (c ∷ prefix) = false
has_prefix (b ∷ content) (c ∷ prefix) = b == c && has_prefix content prefix

abbrev pub pdf_magic : Bytes
pdf_magic = 37 ∷ 80 ∷ 68 ∷ 70 ∷ 45 ∷ []

abbrev pub amount_in_range : ℤ → Bool
amount_in_range amount = not (ltb_ℤ amount (pos 0)) && not (ltb_ℤ (pos (10 ^ 12)) amount)

abbrev form_error : String → HttpError
form_error message = refused 400 message

-- The checks on the form, in their order: the amount and the file's bytes.
unfoldable pub check_form : Form → Tx HttpError (ℤ × Bytes)
check_form form = do
  require (not (ltb (count form.title) 3 || ltb 200 (count form.title)))
      (form_error "judul 3–200 karakter")
  require (office_category form.category) (form_error "kategori tidak dikenal")
  amount ← or_fail form.amount (form_error "nominal harus bilangan bulat rupiah ≥ 0")
  require (amount_in_range amount) (form_error "nominal harus bilangan bulat rupiah ≥ 0")
  require (not (ltb 2000 (count form.description))) (form_error "keterangan maksimal 2000 karakter")
  content ← or_fail form.file (form_error "lampiran PDF wajib diisi")
  require (not (ltb max_document_size (length content)))
      (form_error "berkas terlalu besar (maks 32 MiB)")
  require (has_prefix content pdf_magic) (form_error "lampiran harus berkas PDF")
  pure (amount, content)

abbrev pub meta_of : Form → ℤ → TxnMeta
meta_of form amount = record {
  title = form.title;
  category = form.category;
  amount = amount;
  description = form.description;
}

abbrev pub draft_row : String → TxnMeta → TransactionRow
draft_row created_by meta = record {
  organization_id = office_org;
  workflow_type = office_workflow;
  schema_version = office_schema;
  created_by = created_by;
  status = "DRAFT";
  office_meta = some meta;
}

abbrev is_free : Option TransactionRow → Bool
is_free none = true
is_free (some _) = false

-- INSERT INTO transaction; the id is the primary key.
unfoldable pub insert_transaction : Bool → String → TransactionRow → Tx DbError (Unit {0})
insert_transaction up id row = do
  require up failed
  db ← read
  require (is_free (lookup id db.transactions)) duplicate
  write λ db'. record db' { transactions = insert id row db'.transactions }

abbrev pub create_call : String → String → Queued
create_call id created_by =
    Queued.create_transaction id office_org office_workflow office_schema created_by

module _ (site : Site) (req : Request) where
  abbrev pub created_payload : Form → ℤ → Bytes → String → Payload
  created_payload form amount content doc_id =
      ("title", text form.title)
      ∷ ("category", text form.category)
      ∷ ("amount", number amount)
      ∷ ("description", text form.description)
      ∷ ("document_id", text doc_id)
      ∷ ("document_sha512", text (site.sha512_hex content))
      ∷ ("file_name", text form.file_name)
      ∷ []

  abbrev pub created_input : OfficeIdentity → String → Payload → EventInput
  created_input me id payload = record {
    transaction_id = id;
    event_type = "CREATED";
    signer_identity = me.id;
    payload = payload;
    new_status = "";
    idempotency_key = "";
  }

  -- The four writes, in their order.
  unfoldable pub create_rows :
      OfficeIdentity → String → String → Form → ℤ → Bytes → Tx DbError (Unit {0})
  create_rows me id doc_id form amount content = do
    insert_transaction (req.up "insert transaction") id (draft_row me.id (meta_of form amount))
    enqueue_outbox (req.up "queue transaction") (create_call id me.id)
    stored ← store_document site req doc_id id "attachment" form.file_name me.id content
    append_transaction_event site req
        (created_input me id (created_payload form amount content stored)) true
    pure tt

  abbrev pub new_id : String
  new_id = "txn_" ++ site.uuid (req.serial + 2)

  -- officeCreateTransaction between Begin and Commit.
  abbrev pub create_body : OfficeIdentity → Form → ℤ → Bytes → Tx HttpError String
  create_body me form amount content = do
    catch (create_rows me new_id (site.uuid (req.serial + 3)) form amount content) statement_answer
    pure new_id

  abbrev pub create_committed : OfficeIdentity → Form → ℤ × Bytes → Tx HttpError String
  create_committed me form checked =
      transact (req.up "begin") (req.up "commit") internal_error
        (create_body me form checked.0 checked.1)

  -- officeCreateTransaction; the answer is the new id.
  unfoldable pub office_create_transaction : OfficeIdentity → Form → Tx HttpError String
  office_create_transaction me form = check_form form >>= create_committed me form
