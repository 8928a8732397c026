-- ===== src/Archive/Finalize/Laws.antt =====
-- The archive's events on a ledger that mirrors the database.
use aplikasi_transaksi_kanto.Base.{
  ◌≡◌, ◌≢◌, ◌⊎◌, refl, true, some, Option, String, [], ◌∷◌, ◌++◌, arith, inl, inr,
}
use aplikasi_transaksi_kanto.Store.Dict.{lookup, lookup-insert_self}
use aplikasi_transaksi_kanto.Ledger.Stub.{Shim}
use aplikasi_transaksi_kanto.Ledger.Transaction.Status.{is_transition_allowed}
use aplikasi_transaksi_kanto.Ledger.Table.{contains}
use aplikasi_transaksi_kanto.Ledger.Transaction.Contract.Reach.{genesis}
use aplikasi_transaksi_kanto.Office.Types.{OfficeIdentity, TransactionRow, EventRow, Payload, Store}
use aplikasi_transaksi_kanto.Office.Database.{ok, call-cases}
use aplikasi_transaksi_kanto.Office.Events.{
  Site, Request, EventInput, append_transaction_event, with_status,
}
use aplikasi_transaksi_kanto.Office.Events.Laws.{IsSite}
use aplikasi_transaksi_kanto.Office.Create.{insert_transaction}
use aplikasi_transaksi_kanto.Office.Ledger.{IsServing, replay_snoc}
use aplikasi_transaksi_kanto.Office.Ledger.Append.{HasMirror, IsMirrored, append-IsMirrored}
use aplikasi_transaksi_kanto.Office.Ledger.Draft.{create_mirrored}
use aplikasi_transaksi_kanto.Office.Ledger.Steps.{insert_transaction-ok}
use aplikasi_transaksi_kanto.Archive.Types.{UploadRow, ItemRow, system_archive_id}
use aplikasi_transaksi_kanto.Archive.Finalize.Item.{build_receipt_keeps}
use aplikasi_transaksi_kanto.Archive.Finalize.{
  Archiving, archive_row, archive_call, archive_input, archive_events, archive_rows, build_receipt,
  manifest_of, verified_payload, archived_payload, later,
}

module _ (sh : Shim) (site : Site) where
  -- One event on a mirrored database: the row's status is the next one.
  event_step :
      IsSite site
      → IsServing sh
      → (req : Request) (input : EventInput) (row : TransactionRow) (s : Store) {e : EventRow}
        {t : Store}
      → HasMirror sh s.db
      → lookup input.transaction_id s.db.transactions ≡ some row
      → ((input.new_status ≡ "") ⊎ (is_transition_allowed row.status input.new_status ≡ true))
      → append_transaction_event site req input true s ≡ (ok e, t)
      → HasMirror sh t.db
        × (lookup input.transaction_id t.db.transactions ≡ some (with_status input.new_status row))
  event_step good serving req input row s {e} {t} (w, m) found allowed h =
      let (w', m', result, own, _) =
        append-IsMirrored sh site req good serving input row s w m h found allowed in
      (
        (w', m'),
        rw (result, own)
            (lookup-insert_self input.transaction_id (with_status input.new_status row)
              s.db.transactions),
      )

  archive_events_mirrored :
      IsSite site
      → IsServing sh
      → (req : Request) (me : OfficeIdentity) (u : UploadRow) (a : Archiving) (row : TransactionRow)
        (s : Store) {hash : String} {t : Store}
      → HasMirror sh s.db
      → lookup a.txn_id s.db.transactions ≡ some row
      → row.status ≡ "DRAFT"
      → archive_events site req me u a s ≡ (ok hash, t)
      → HasMirror sh t.db
        × (lookup a.txn_id t.db.transactions ≡ some (record row { status = "ENDORSED" }))
  unfolding archive_events is_transition_allowed contains
  archive_events_mirrored good serving req me u a row s {hash} {t} m found draft h =
      let i1 = archive_input site req a "UPLOAD_RECEIVED" me.id "" (manifest_of site req me u a) in
      elim (call-cases (append_transaction_event site (later site req 10) i1 true s)) [
        | inr (e, s1, q1) ↦ absurd (ground arith)
        | inl (e1, s1, q1) ↦
            let (m1, f1) =
              event_step good serving (later site req 10) i1 row s m found (inl refl) q1 in
            let i2 =
              archive_input site req a "INTEGRITY_VERIFIED" system_archive_id "VERIFIED"
                (verified_payload site req u a) in
            elim (call-cases (append_transaction_event site (later site req 20) i2 true s1)) [
              | inr (e, s2, q2) ↦ absurd (ground arith)
              | inl (e2, s2, q2) ↦
                  let (m2, f2) =
                    event_step good serving (later site req 20) i2 (with_status "" row) s1 m1 f1
                      (inr (rw draft refl)) q2 in
                  let i3 =
                    archive_input site req a "ARCHIVED" system_archive_id "ENDORSED"
                      (archived_payload site req a e1.payload_hash) in
                  elim (call-cases (append_transaction_event site (later site req 30) i3 true s2)) [
                    | inr (e, s3, q3) ↦ absurd (ground arith)
                    | inl (e3, s3, q3) ↦
                        let (m3, f3) =
                          event_step good serving (later site req 30) i3
                            (with_status "VERIFIED" (with_status "" row)) s2 m2 f2 (inr refl) q3 in
                        let same : t ≡ s3 = ground arith in (rw same m3, rw same f3)
                  ]
            ]
      ]

  -- The archive's calls are accepted as well, and the request stands at ENDORSED.
  pub archive_rows_mirrored :
      IsSite site
      → IsServing sh
      → (req : Request) (me : OfficeIdentity) (u : UploadRow) (a : Archiving)
        (body_hash : Payload → Option String) (s : Store) {item : ItemRow} {t : Store}
      → a.txn_id ≢ ""
      → HasMirror sh s.db
      → archive_rows site req me u a body_hash s ≡ (ok item, t)
      → HasMirror sh t.db
        × (lookup a.txn_id t.db.transactions
            ≡ some (record (archive_row me u) { status = "ENDORSED" }))
  unfolding archive_rows
  archive_rows_mirrored good serving req me u a body_hash s {item} {t} named (w, m) h =
      let row = archive_row me u in
      let call = archive_call me u a.txn_id in
      elim (call-cases (insert_transaction (req.up "insert transaction") a.txn_id row s)) [
        | inr (e, s1, q) ↦ absurd (ground arith)
        | inl (_, s1, q) ↦
            let (free, made) =
              insert_transaction-ok sh site req a.txn_id row (req.up "insert transaction") s q in
            let (w1, accepted, mirrors) =
              create_mirrored sh serving s.db.transactions s.db.transaction_events w a.txn_id row
                m.mirrors named free refl in
            let db1 = record s1.db { outbox = s1.db.outbox ++ call ∷ [] } in
            let s2 = record s1 { db = db1 } in
            let m1 : IsMirrored sh db1 w1 = rw made record {
              replayed = replay_snoc sh s.db.outbox call (genesis sh) w w1 m.replayed accepted;
              mirrors = mirrors;
            } in
            let here : lookup a.txn_id s2.db.transactions ≡ some row =
              rw made (lookup-insert_self a.txn_id row s.db.transactions) in
            elim (call-cases (archive_events site req me u a s2)) [
              | inr (e, s3, q2) ↦ absurd (ground arith)
              | inl (hash, s3, q2) ↦
                  let (m3, f3) =
                    archive_events_mirrored good serving req me u a row s2 (w1, m1) here refl q2 in
                  let manifest = manifest_of site req me u a in
                  elim (call-cases
                    (build_receipt site req (body_hash manifest) a manifest hash s3)) [
                      | inr (e, s4, q3) ↦ absurd (ground arith)
                      | inl (r, s4, q3) ↦
                          let kept =
                            build_receipt_keeps site req (body_hash manifest) a manifest hash s3
                              q3 in
                          let same : t ≡ s3 = ground (arith, kept) in (rw same m3, rw same f3)
                    ]
            ]
      ]
