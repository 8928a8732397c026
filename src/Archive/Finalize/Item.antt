-- ===== src/Archive/Finalize/Item.antt =====
-- The row of an archived item, and what archiving leaves alone.
use aplikasi_transaksi_kanto.Base.{
  ◌≡◌, ◌∙◌, true, Option, String, [], ◌∷◌, ◌++◌, arith, Option-cases, inl, inr,
}
use aplikasi_transaksi_kanto.Store.Dict.{lookup, insert}
use aplikasi_transaksi_kanto.Crypto.Hybrid.{sign_hybrid}
use aplikasi_transaksi_kanto.Office.Types.{OfficeIdentity, TransactionRow, EventRow, Payload, Store}
use aplikasi_transaksi_kanto.Office.Database.{ok, call-cases, signing-cases}
use aplikasi_transaksi_kanto.Office.Events.{
  Site, Request, EventInput, append_transaction_event, store_event_row, insert_event, event_context,
  event_row, event_key_of, last_event,
}
use aplikasi_transaksi_kanto.Office.Create.{insert_transaction}
use aplikasi_transaksi_kanto.Archive.Types.{UploadRow, Receipt, ItemRow, system_archive_id}
use aplikasi_transaksi_kanto.Archive.Finalize.{
  Archiving, archive_row, archive_call, archive_input, archive_events, archive_rows, build_receipt,
  manifest_of, verified_payload, archived_payload, later, first_event, events_of,
}

module _ (site : Site) where
  pub build_receipt_keeps :
      (req : Request) (body_hash : Option String) (a : Archiving) (manifest : Payload)
      (hash : String) (s : Store) {r : Receipt} {t : Store}
      → build_receipt site req body_hash a manifest hash s ≡ (ok r, t)
      → t ≡ s
  unfolding build_receipt
  build_receipt_keeps req body_hash a manifest hash s h =
      elim (Option-cases (first_event (events_of a.txn_id s.db.transaction_events))) [
        | inl q ↦ absurd (ground arith)
        | inr (e, q) ↦ elim (Option-cases (site.signing_identity system_archive_id)) [
          | inl q2 ↦ absurd (ground arith)
          | inr (identity, q2) ↦ ground arith
        ]
      ]

  store_event_row_objects :
      (req : Request) (e : EventRow) (row : TransactionRow) (new_status : String) (update : _)
      (s : Store) {t : Store}
      → store_event_row site req e row new_status update s ≡ (ok tt, t)
      → t.objects ≡ s.objects
  unfolding store_event_row insert_event
  store_event_row_objects req e row new_status update s h = ground arith

  append_objects :
      (req : Request) (input : EventInput) (s : Store) {e : EventRow} {t : Store}
      → append_transaction_event site req input true s ≡ (ok e, t)
      → t.objects ≡ s.objects
  unfolding append_transaction_event
  append_objects req input s {e} {t} h =
      elim (Option-cases (lookup input.transaction_id s.db.transactions)) [
        | inl q ↦ absurd (ground arith)
        | inr (row, q) ↦ elim (Option-cases (site.signing_identity input.signer_identity)) [
          | inl q2 ↦ absurd (ground arith)
          | inr (identity, q2) ↦
              elim (signing-cases (
                sign_hybrid site.primitives identity (event_context site req input row)
                  (site.payload_hash input.payload))) [
                    | inl (inl q3) ↦ absurd (ground arith)
                    | inl (inr q3) ↦ absurd (ground arith)
                    | inr (signed, q3) ↦
                        let e' =
                          event_row site req input (event_key_of site req input)
                            (last_event input.transaction_id s.db.transaction_events) signed in
                        elim (call-cases
                          (store_event_row site req e' row input.new_status true s)) [
                            | inr (_, _, q4) ↦ absurd (ground arith)
                            | inl (_, t', q4) ↦
                                let same : t ≡ t' = ground arith in
                                rw same
                                  (store_event_row_objects req e' row input.new_status true s q4)
                          ]
                  ]
        ]
      ]

  archive_events_objects :
      (req : Request) (me : OfficeIdentity) (u : UploadRow) (a : Archiving) (s : Store)
      {hash : String} {t : Store}
      → archive_events site req me u a s ≡ (ok hash, t)
      → t.objects ≡ s.objects
  unfolding archive_events
  archive_events_objects req me u a s {hash} {t} h =
      let i1 = archive_input site req a "UPLOAD_RECEIVED" me.id "" (manifest_of site req me u a) in
      elim (call-cases (append_transaction_event site (later site req 10) i1 true s)) [
        | inr (e, s1, q1) ↦ absurd (ground arith)
        | inl (e1, s1, q1) ↦
            let i2 =
              archive_input site req a "INTEGRITY_VERIFIED" system_archive_id "VERIFIED"
                (verified_payload site req u a) in
            elim (call-cases (append_transaction_event site (later site req 20) i2 true s1)) [
              | inr (e, s2, q2) ↦ absurd (ground arith)
              | inl (e2, s2, q2) ↦
                  let i3 =
                    archive_input site req a "ARCHIVED" system_archive_id "ENDORSED"
                      (archived_payload site req a e1.payload_hash) in
                  elim (call-cases (append_transaction_event site (later site req 30) i3 true s2)) [
                    | inr (e, s3, q3) ↦ absurd (ground arith)
                    | inl (e3, s3, q3) ↦
                        let same : t ≡ s3 = ground arith in
                        rw same (
                          append_objects (later site req 30) i3 s2 q3
                          ∙ append_objects (later site req 20) i2 s1 q2
                          ∙ append_objects (later site req 10) i1 s q1)
                  ]
            ]
      ]

  -- The row of a new item names the object and the sums it was given, and the objects are as they were.
  pub archive_rows_item :
      (req : Request) (me : OfficeIdentity) (u : UploadRow) (a : Archiving)
      (body_hash : Payload → Option String) (s : Store) {item : ItemRow} {t : Store}
      → archive_rows site req me u a body_hash s ≡ (ok item, t)
      → (item.storage_key ≡ a.key)
        × (item.sha256 ≡ a.sum256)
        × (item.sha512 ≡ a.sum512)
        × (item.sender_id ≡ me.id)
        × (t.objects ≡ s.objects)
  unfolding archive_rows insert_transaction
  archive_rows_item req me u a body_hash s {item} {t} h =
      let row = archive_row me u in
      let call = archive_call me u a.txn_id in
      let s2 : Store = record s {
        db = record s.db {
          transactions = insert a.txn_id row s.db.transactions;
          outbox = s.db.outbox ++ call ∷ [];
        };
      } in
      elim (call-cases (archive_events site req me u a s2)) [
        | inr (e, s3, q) ↦ absurd (ground arith)
        | inl (hash, s3, q) ↦
            let manifest = manifest_of site req me u a in
            let objects = archive_events_objects req me u a s2 q in
            elim (call-cases (build_receipt site req (body_hash manifest) a manifest hash s3)) [
              | inr (e, s4, q2) ↦ absurd (ground arith)
              | inl (r, s4, q2) ↦
                  let kept = build_receipt_keeps req (body_hash manifest) a manifest hash s3 q2 in
                  (
                    ground arith,
                    ground arith,
                    ground arith,
                    ground arith,
                    ground (arith, kept, objects),
                  )
            ]
      ]
