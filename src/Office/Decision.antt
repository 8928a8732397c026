-- ===== src/Office/Decision.antt =====
-- api/internal/httpapi/office.go: the decision on a request, and the check of the TTD signature behind an
-- approval. The TTD server's answers are a parameter.
pub mod Laws
use Prim.Native.String.{◌++◌ as ◌^^◌, count}
use aplikasi_transaksi_kanto.Base.{
  ℕ, ◌+◌, ltb, Bool, true, false, ◌&&◌, not, Option, none, some, String, List, [], ◌∷◌, str_eq,
  if◌then◌else◌,
}
use aplikasi_transaksi_kanto.Crypto.Hybrid.{Bytes}
use aplikasi_transaksi_kanto.Office.Types.{
  OfficeIdentity, Payload, text, EventRow, DocumentRow, ApprovalRow, Queued,
}
use aplikasi_transaksi_kanto.Office.Database.{
  Tx, DbError, duplicate, failed, pure, ◌>>=◌, ◌>>◌, require, or_fail, read, write, catch,
  enqueue_outbox,
}
use aplikasi_transaksi_kanto.Office.Events.{
  Site, Request, EventInput, append_transaction_event, last_event,
}
use aplikasi_transaksi_kanto.Office.Roles.{perms_for, can_transition, office_policy, role_approver}
use aplikasi_transaksi_kanto.Office.Actions.{
  HttpError, refused, internal_error, statement_answer, office_action,
}
use aplikasi_transaksi_kanto.Office.Documents.{store_document}

-- TTDRecord
pub record TtdRecord : Type 0 where
  pub public_id : String
  pub account_id : String
  pub original_sha512 : String
  pub signed_sha512 : String
  pub verification_status : String
  pub verification_url : String

-- TTDVerifier: no answer is an error.
pub record TtdVerifier : Type 0 where
  pub record_of : String → Option TtdRecord
  pub signed_pdf : String → Option Bytes

-- decisionRequest; the reason is given trimmed.
pub record DecisionRequest : Type 0 where
  pub decision : String
  pub ttd_public_id : String
  pub reason : String

-- `WHERE transaction_id = $1 AND event_type = 'SUBMITTED'`
unfoldable pub submissions : List EventRow → List EventRow
submissions [] = []
submissions (e ∷ rest) =
    let others = submissions rest in if str_eq e.event_type "SUBMITTED" then e ∷ others else others

-- The oldest attachment of a request; the rows stand newest first.
unfoldable pub first_attachment : String → List DocumentRow → Option String
first_attachment txn_id [] = none
first_attachment txn_id (d ∷ ds) =
    let older = first_attachment txn_id ds in
    elim older [
      | some h ↦ some h
      | none ↦
          if str_eq d.owner_id txn_id && str_eq d.kind "attachment"
          then some d.sha512_hash
          else none
    ]

abbrev refuse_unless : Bool → ℕ → String → Tx HttpError (Unit {0})
refuse_unless test code message = require test (refused code message)

abbrev pub attachment_missing : HttpError
attachment_missing = refused 409 "lampiran asli tidak ditemukan"

abbrev pub decision_check : OfficeIdentity → String → String → Option HttpError
decision_check me created_by status =
    if not (perms_for me created_by status).can_approve
    then (if str_eq me.id created_by
        then some (refused 403 "pembuat tidak boleh menyetujui/menolak pengajuannya sendiri")
        else if not (str_eq me.office_role role_approver)
        then some (refused 403 "hanya penyetuju yang dapat memutuskan")
        else some (refused 409 "transaksi tidak sedang menunggu persetujuan"))
    else none

-- `pg.Code == "23505"`
abbrev pub decision_answer : DbError → HttpError
decision_answer duplicate = refused 409 "tanda tangan TTD ini sudah dipakai untuk persetujuan lain"
decision_answer e = statement_answer e

abbrev pub event_type_of : Bool → String
event_type_of approve = if approve then "APPROVED_SIGNED" else "REJECTED"

abbrev pub status_of : Bool → String
status_of approve = if approve then "ENDORSED" else "REJECTED"

module _ (site : Site) (ttd : Option TtdVerifier) (req : Request) where
  -- What an approval adds to the payload.
  abbrev pub ttd_fields : String → TtdRecord → String → Payload
  ttd_fields public_id rec doc_id =
      ("ttd_public_id", text public_id)
      ∷ ("verification_url", text rec.verification_url)
      ∷ ("original_sha512", text rec.original_sha512)
      ∷ ("signed_sha512", text rec.signed_sha512)
      ∷ ("signed_document_id", text doc_id)
      ∷ []

  -- verifyTTDApproval
  unfoldable pub verify_ttd_approval : String → OfficeIdentity → String → Tx HttpError Payload
  verify_ttd_approval txn_id me public_id = do
    client ← or_fail ttd (refused 503 "layanan TTD tidak dikonfigurasi")
    rec ←
        or_fail (client.record_of public_id)
          (refused 400 "tanda tangan TTD tidak ditemukan atau tidak dapat diverifikasi")
    refuse_unless (str_eq rec.account_id me.id) 403 "tanda tangan TTD itu bukan milik Anda"
    refuse_unless (str_eq rec.verification_status "accepted") 409
        ("tanda tangan TTD belum diverifikasi server (status: " ^^ (rec.verification_status ^^ ")"))
    require (req.up "select attachment") attachment_missing
    db ← read
    attached ← or_fail (first_attachment txn_id db.documents) attachment_missing
    require (not (str_eq attached "")) attachment_missing
    refuse_unless (site.equal_fold rec.original_sha512 attached) 409
        "tanda tangan TTD itu dibuat atas dokumen lain, bukan lampiran transaksi ini"
    signed ←
        or_fail (client.signed_pdf public_id)
          (refused 502 "gagal mengambil PDF bertanda tangan dari server TTD")
    refuse_unless (site.equal_fold (site.sha512_hex signed) rec.signed_sha512) 409
        "PDF bertanda tangan tidak cocok dengan catatan server TTD"
    doc_id ←
        catch
          (store_document site req (site.uuid (req.serial + 3)) txn_id "signed"
            ("bertandatangan-" ^^ (public_id ^^ ".pdf")) me.id signed)
          (λ e. internal_error)
    pure (ttd_fields public_id rec doc_id)

  -- The payload of the event: the two fixed fields, then those of the decision.
  unfoldable pub decision_payload :
      OfficeIdentity → String → DecisionRequest → Bool → Tx HttpError Payload
  decision_payload me id input true = do
    extra ← verify_ttd_approval id me input.ttd_public_id
    pure (("approver_id", text me.id) ∷ ("policy_version", text office_policy) ∷ extra)
  decision_payload me id input false = pure (
      ("approver_id", text me.id)
      ∷ ("policy_version", text office_policy)
      ∷ ("reason", text input.reason)
      ∷ [])

  abbrev pub decision_input : OfficeIdentity → String → Bool → Payload → EventInput
  decision_input me id approve payload = record {
    transaction_id = id;
    event_type = event_type_of approve;
    signer_identity = me.id;
    payload = payload;
    new_status = status_of approve;
    idempotency_key = "";
  }

  abbrev pub approval_row : OfficeIdentity → String → String → EventRow → ApprovalRow
  approval_row me id decision submitted = record {
    id = site.uuid (req.serial + 4);
    transaction_id = id;
    event_id = submitted.id;
    approver_id = me.id;
    decision = decision;
    policy_version = office_policy;
  }

  abbrev pub approve_call : OfficeIdentity → String → String → EventRow → Queued
  approve_call me id decision submitted =
      Queued.approve id submitted.event_sequence me.id decision office_policy

  -- The approval's row, and for an approval the call that records it on the ledger.
  unfoldable pub record_decision :
      OfficeIdentity → String → String → Bool → EventRow → Tx DbError (Unit {0})
  record_decision me id decision approve submitted = do
    require (req.up "insert approval") failed
    write λ db. record db { approvals = approval_row me id decision submitted ∷ db.approvals }
    (if approve
        then enqueue_outbox (req.up "queue approval") (approve_call me id decision submitted)
        else pure tt)

  -- What officeDecision applies.
  unfoldable pub apply_decision :
      DecisionRequest → String → Bool → OfficeIdentity → String → Tx HttpError (Unit {0})
  apply_decision input id approve me created_by = do
    require (req.up "select submission") (refused 409 "pengajuan belum dikirim")
    db ← read
    submitted ←
        or_fail (last_event id (submissions db.transaction_events))
          (refused 409 "pengajuan belum dikirim")
    payload ← decision_payload me id input approve
    require (can_transition "VERIFIED" (status_of approve))
        (refused 409 "transisi status tidak diizinkan")
    catch (append_transaction_event site req (decision_input me id approve payload) true)
        decision_answer
    catch (record_decision me id input.decision approve submitted) λ e. internal_error

  -- The checks of officeDecision on the body.
  unfoldable pub check_decision : Option DecisionRequest → Tx HttpError DecisionRequest
  check_decision body = do
    input ← or_fail body (refused 400 "JSON tidak valid")
    let approve = str_eq input.decision "approve"
    refuse_unless (not (not approve && not (str_eq input.decision "reject"))) 400
        "decision harus approve atau reject"
    refuse_unless (not (not approve && ltb (count input.reason) 3)) 400
        "alasan penolakan wajib diisi"
    refuse_unless (not (approve && str_eq input.ttd_public_id "")) 400
        "persetujuan harus disertai tanda tangan TTD (ttd_public_id)"
    pure input

  abbrev pub decide : OfficeIdentity → String → DecisionRequest → Tx HttpError (Unit {0})
  decide me id input =
      office_action req me id decision_check
        (apply_decision input id (str_eq input.decision "approve"))

  -- officeDecision; no request is a body that does not decode.
  unfoldable pub office_decision :
      OfficeIdentity → String → Option DecisionRequest → Tx HttpError (Unit {0})
  office_decision me id body = check_decision body >>= decide me id
