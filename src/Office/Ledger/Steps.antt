-- ===== src/Office/Ledger/Steps.antt =====
-- Submission, completion, cancellation and creation on a mirrored database.
use aplikasi_transaksi_kanto.Base.{
  ◌≡◌, ◌≢◌, ◌∙◌, refl, sym, true, none, String, [], ◌∷◌, arith, str_eq_ne, ap, inl, inr,
}
use Prim.Native.String.{count}
use text.Mathlib.TextLemmas.{length-append}
use aplikasi_transaksi_kanto.Base.{◌++◌, ◌+◌}
use aplikasi_transaksi_kanto.Base.Int64.{ℤ}
use aplikasi_transaksi_kanto.Store.Dict.{lookup, insert, lookup-insert_self}
use aplikasi_transaksi_kanto.Crypto.Hybrid.{Bytes}
use aplikasi_transaksi_kanto.Ledger.Stub.{Shim}
use aplikasi_transaksi_kanto.Ledger.Transaction.Status.{is_transition_allowed}
use aplikasi_transaksi_kanto.Office.Types.{OfficeIdentity, TransactionRow, Store}
use aplikasi_transaksi_kanto.Ledger.Transaction.Contract.Reach.{genesis}
use aplikasi_transaksi_kanto.Office.Database.{ok, call-cases}
use aplikasi_transaksi_kanto.Office.Events.{Site, Request, append_transaction_event}
use aplikasi_transaksi_kanto.Office.Events.Laws.{IsSite}
use aplikasi_transaksi_kanto.Office.Roles.{OfficePerms}
use aplikasi_transaksi_kanto.Office.Actions.{
  internal_error, office_action, simple_step, office_submit, step_check, step_input, step_apply,
}
use aplikasi_transaksi_kanto.Office.Actions.Laws.{action_body-IsPassed, can_transition_correct}
use aplikasi_transaksi_kanto.Office.Documents.{store_document}
use aplikasi_transaksi_kanto.Office.Documents.Laws.{store_document_keeps}
use aplikasi_transaksi_kanto.Office.Create.{
  Form, office_create_transaction, create_rows, insert_transaction, check_form, new_id, create_body,
  create_committed, draft_row, meta_of, create_call, created_input, created_payload,
}
use aplikasi_transaksi_kanto.Office.Ledger.{IsServing, replay_snoc}
use aplikasi_transaksi_kanto.Office.Ledger.Append.{
  HasMirror, IsMirrored, append-IsMirrored, transact_keeps, bind_keeps, IsMirrored-same,
}
use aplikasi_transaksi_kanto.Office.Ledger.Draft.{create_mirrored, row_call}

module _ (sh : Shim) (site : Site) (req : Request) where
  -- A step that passed its checks is allowed by the chaincode as well.
  step_allowed :
      (me : OfficeIdentity) (created_by status new_status deny_msg : String)
      (allowed : OfficePerms → _)
      → new_status ≢ "REVOKED"
      → step_check req new_status allowed deny_msg me created_by status ≡ none
      → is_transition_allowed status new_status ≡ true
  step_allowed me created_by status new_status deny_msg allowed ne h =
      sym (can_transition_correct status new_status ne) ∙ ground arith

  pub simple_step_mirrored :
      IsSite site
      → IsServing sh
      → (me : OfficeIdentity) (id event_type new_status : String) (allowed : OfficePerms → _)
        (deny_msg : String) (s : Store)
      → new_status ≢ "REVOKED"
      → HasMirror sh s.db
      → HasMirror sh (simple_step req site me id event_type new_status allowed deny_msg s).1.db
  unfolding simple_step office_action
  simple_step_mirrored good serving me id event_type new_status allowed deny_msg s ne (w, m) =
      transact_keeps sh _ _ _ _ s (w, m)
        λ a t h.
          let p =
            action_body-IsPassed req me id (step_check req new_status allowed deny_msg)
              (step_apply req site id event_type new_status) s h in
          elim (call-cases (
            append_transaction_event site req (step_input req site me id event_type new_status) true
              s)) [
                | inr (e, s', q) ↦ absurd (ground (arith, p.applied))
                | inl (e, s', q) ↦
                    let same : t ≡ s' = ground (arith, p.applied) in
                    let (w', m', _, _, _) =
                      append-IsMirrored sh site req good serving _ p.row s w m q p.found (
                        inr (
                          step_allowed me p.row.created_by p.row.status new_status deny_msg allowed
                            ne p.checked)) in
                    (w', rw same m')
              ]

  office_submit_mirrored :
      IsSite site
      → IsServing sh
      → (me : OfficeIdentity) (id : String) (s : Store) → HasMirror sh s.db
      → HasMirror sh (office_submit req site me id s).1.db
  unfolding office_submit
  office_submit_mirrored good serving me id s =
      simple_step_mirrored good serving me id _ _ _ _ s (str_eq_ne "VERIFIED" "REVOKED" refl)

  pub insert_transaction-ok :
      (id : String) (row : TransactionRow) (up : _) (s : Store) {t : Store}
      → insert_transaction up id row s ≡ (ok tt, t)
      → (lookup id s.db.transactions ≡ none)
        × (t ≡ record s { db = record s.db { transactions = insert id row s.db.transactions } })
  unfolding insert_transaction
  insert_transaction-ok id row up s h = (ground arith, ground arith)

  create_rows_mirrored :
      IsSite site
      → IsServing sh
      → (me : OfficeIdentity) (id doc_id : String) (form : Form) (amount : ℤ) (content : Bytes)
        (s : Store) {t : Store}
      → id ≢ ""
      → HasMirror sh s.db
      → create_rows site req me id doc_id form amount content s ≡ (ok tt, t)
      → HasMirror sh t.db
  unfolding create_rows
  create_rows_mirrored good serving me id doc_id form amount content s {t} named (w, m) h =
      let row = draft_row me.id (meta_of form amount) in
      elim (call-cases (insert_transaction (req.up "insert transaction") id row s)) [
        | inr (e, s1, q) ↦ absurd (ground arith)
        | inl (_, s1, q) ↦
            let (free, made) = insert_transaction-ok id row _ s q in
            let (w1, accepted, mirrors) =
              create_mirrored sh serving s.db.transactions s.db.transaction_events w id row
                m.mirrors named free refl in
            let db1 = record s1.db { outbox = s1.db.outbox ++ create_call id me.id ∷ [] } in
            let s2 = record s1 { db = db1 } in
            let m1 : IsMirrored sh db1 w1 = rw made record {
              replayed =
                  replay_snoc sh s.db.outbox (row_call id row) (genesis sh) w w1 m.replayed
                    accepted;
              mirrors = mirrors;
            } in
            elim (call-cases
              (store_document site req doc_id id "attachment" form.file_name me.id content s2)) [
                | inr (e, s3, q2) ↦ absurd (ground arith)
                | inl (stored, s3, q2) ↦
                    let (a, b, c) =
                      store_document_keeps site req doc_id id "attachment" form.file_name me.id
                        content s2 q2 in
                    let m3 : IsMirrored sh s3.db w1 = IsMirrored-same sh a b c m1 in
                    let input =
                      created_input site req me id
                        (created_payload site req form amount content stored) in
                    elim (call-cases (append_transaction_event site req input true s3)) [
                      | inr (e, s4, q3) ↦ absurd (ground arith)
                      | inl (e, s4, q3) ↦
                          let (w', m', _, _, _) =
                            append-IsMirrored sh site req good serving input row s3 w1 m3 q3
                              (rw (b, made) (lookup-insert_self id row s.db.transactions))
                              (inl refl) in
                          let same : t ≡ s4 = ground arith in (w', rw same m')
                    ]
              ]
      ]

  check_form_keeps : (form : Form) (s : Store) → (check_form form s).1 ≡ s
  unfolding check_form
  check_form_keeps form s = ground arith

  new_id_named : new_id site req ≢ ""
  new_id_named q = omega (arith, length-append "txn_" (site.uuid (req.serial + 2)), ap count q)

  pub office_create_transaction_mirrored :
      IsSite site
      → IsServing sh
      → (me : OfficeIdentity) (form : Form) (s : Store) → HasMirror sh s.db
      → HasMirror sh (office_create_transaction site req me form s).1.db
  unfolding office_create_transaction
  office_create_transaction_mirrored good serving me form s m =
      bind_keeps sh (check_form form) (create_committed site req me form) s
        (check_form_keeps form s) m
        λ checked.
          transact_keeps sh (req.up "begin") (req.up "commit") internal_error
            (create_body site req me form checked.0 checked.1) s m
            λ a t h.
              let id = new_id site req in
              let doc_id = site.uuid (req.serial + 3) in
              elim (call-cases (create_rows site req me id doc_id form checked.0 checked.1 s)) [
                | inr (e, s2, q2) ↦ absurd (ground arith)
                | inl (_, s2, q2) ↦
                    let same : t ≡ s2 = ground arith in
                    rw same (
                      create_rows_mirrored good serving me id doc_id form checked.0 checked.1 s
                        new_id_named m q2)
              ]
