-- ===== src/Office/Decision/Laws.antt =====
-- The TTD check: what an accepted signature is, and what it leaves alone.
use Prim.Native.String.{◌++◌ as ◌^^◌}
use aplikasi_transaksi_kanto.Base.{
  ◌+◌, ◌≡◌, ◌≢◌, Bool, true, false, some, Option, String, [], ◌∷◌, ◌++◌, arith, str_eq_iff,
  Option-cases, inl, inr,
}
use aplikasi_transaksi_kanto.Crypto.Hybrid.{Bytes}
use aplikasi_transaksi_kanto.Office.Types.{OfficeIdentity, Payload, EventRow, Store}
use aplikasi_transaksi_kanto.Office.Database.{ok, call-cases}
use aplikasi_transaksi_kanto.Office.Events.{Site, Request}
use aplikasi_transaksi_kanto.Office.Documents.{store_document}
use aplikasi_transaksi_kanto.Office.Decision.{
  TtdVerifier, TtdRecord, DecisionRequest, first_attachment, ttd_fields, verify_ttd_approval,
  decision_payload, record_decision, approve_call,
}
use aplikasi_transaksi_kanto.Office.Documents.Laws.{store_document_keeps}

module _ (site : Site) (ttd : Option TtdVerifier) (req : Request) where
  -- What stands behind an approval: the TTD server's record of the signature is the approver's own, it is
  -- accepted, it is over the request's first attachment, and the signed file is the recorded one.
  pub record IsBacked (txn_id : String) (me : OfficeIdentity) (public_id : String) (s t : Store)
      (payload : Payload) : Type 0 where
    pub client : TtdVerifier
    pub rec : TtdRecord
    pub attached : String
    pub signed : Bytes
    pub doc_id : String
    pub configured : ttd ≡ some client
    pub recorded : client.record_of public_id ≡ some rec
    pub own : rec.account_id ≡ me.id
    pub accepted : rec.verification_status ≡ "accepted"
    pub attachment : first_attachment txn_id s.db.documents ≡ some attached
    pub hashed : attached ≢ ""
    pub same_document : site.equal_fold rec.original_sha512 attached ≡ true
    pub fetched : client.signed_pdf public_id ≡ some signed
    pub same_file : site.equal_fold (site.sha512_hex signed) rec.signed_sha512 ≡ true
    pub stored : payload ≡ ttd_fields site ttd req public_id rec doc_id
    pub kept :
        (t.db.outbox ≡ s.db.outbox)
        × (t.db.transactions ≡ s.db.transactions)
        × (t.db.transaction_events ≡ s.db.transaction_events)

  pub verify_ttd_approval-IsBacked :
      (txn_id : String) (me : OfficeIdentity) (public_id : String) (s : Store) {payload : Payload}
      {t : Store}
      → verify_ttd_approval site ttd req txn_id me public_id s ≡ (ok payload, t)
      → IsBacked txn_id me public_id s t payload
  unfolding verify_ttd_approval
  verify_ttd_approval-IsBacked txn_id me public_id s {payload} {t} h = elim (Option-cases ttd) [
    | inl q ↦ absurd (ground arith)
    | inr (client, q) ↦ elim (Option-cases (client.record_of public_id)) [
      | inl q2 ↦ absurd (ground arith)
      | inr (rec, q2) ↦ elim (Option-cases (first_attachment txn_id s.db.documents)) [
        | inl q3 ↦ absurd (ground arith)
        | inr (attached, q3) ↦ elim (Option-cases (client.signed_pdf public_id)) [
          | inl q4 ↦ absurd (ground arith)
          | inr (signed, q4) ↦
              let name = "bertandatangan-" ^^ (public_id ^^ ".pdf") in
              elim (call-cases (
                store_document site req (site.uuid (req.serial + 3)) txn_id "signed" name me.id
                  signed s)) [
                    | inr (e, s1, q5) ↦ absurd (ground arith)
                    | inl (doc_id, s1, q5) ↦ record {
                      client = client;
                      rec = rec;
                      attached = attached;
                      signed = signed;
                      doc_id = doc_id;
                      configured = q;
                      recorded = q2;
                      own = ground (arith, str_eq_iff rec.account_id me.id);
                      accepted = ground (arith, str_eq_iff rec.verification_status "accepted");
                      attachment = q3;
                      hashed = ground (arith, str_eq_iff attached "");
                      same_document = ground arith;
                      fetched = q4;
                      same_file = ground arith;
                      stored = ground arith;
                      kept =
                          let same : t ≡ s1 = ground arith in
                          rw same (
                            store_document_keeps site req _ txn_id "signed" name me.id signed s q5);
                    }
                  ]
        ]
      ]
    ]
  ]

  pub record_decision_approves :
      (me : OfficeIdentity) (id decision : String) (submitted : EventRow) (s : Store) {t : Store}
      → record_decision site ttd req me id decision true submitted s ≡ (ok tt, t)
      → (t.db.outbox ≡ s.db.outbox ++ approve_call site ttd req me id decision submitted ∷ [])
        × (t.db.transactions ≡ s.db.transactions)
        × (t.db.transaction_events ≡ s.db.transaction_events)
  unfolding record_decision
  record_decision_approves me id decision submitted s h = (ground arith, ground arith, ground arith)

  pub record_decision_rejects :
      (me : OfficeIdentity) (id decision : String) (submitted : EventRow) (s : Store) {t : Store}
      → record_decision site ttd req me id decision false submitted s ≡ (ok tt, t)
      → (t.db.outbox ≡ s.db.outbox)
        × (t.db.transactions ≡ s.db.transactions)
        × (t.db.transaction_events ≡ s.db.transaction_events)
  unfolding record_decision
  record_decision_rejects me id decision submitted s h = (ground arith, ground arith, ground arith)

  pub decision_payload_keeps :
      (me : OfficeIdentity) (id : String) (input : DecisionRequest) (approve : Bool) (s : Store)
      {payload : Payload} {t : Store}
      → decision_payload site ttd req me id input approve s ≡ (ok payload, t)
      → (t.db.outbox ≡ s.db.outbox)
        × (t.db.transactions ≡ s.db.transactions)
        × (t.db.transaction_events ≡ s.db.transaction_events)
  unfolding decision_payload
  decision_payload_keeps me id input false s h = (ground arith, ground arith, ground arith)
  decision_payload_keeps me id input true s {payload} {t} h =
      elim (call-cases (verify_ttd_approval site ttd req id me input.ttd_public_id s)) [
        | inr (e, s1, q) ↦ absurd (ground arith)
        | inl (extra, s1, q) ↦
            let same : t ≡ s1 = ground arith in
            rw same (verify_ttd_approval-IsBacked id me input.ttd_public_id s q).kept
      ]
