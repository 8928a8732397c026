-- ===== src/Office/Answers/Submit.antt =====
-- That a submission goes through when it should: the next number is never taken.
use aplikasi_transaksi_kanto.Base.{
  ℕ, ◌<◌, ◌^◌, ◌≡◌, refl, true, false, none, some, Option, String, List, [], ◌∷◌, arith, str_eq_iff,
  str_eq_refl, Option-cases, inl, inr,
}
use aplikasi_transaksi_kanto.Store.Dict.{lookup, lookup-insert_self}
use aplikasi_transaksi_kanto.Crypto.Hybrid.{SigningIdentity, HybridSignature, returned, sign_hybrid}
use aplikasi_transaksi_kanto.Office.Types.{
  OfficeIdentity, TransactionRow, EventRow, Store, Database,
}
use aplikasi_transaksi_kanto.Office.Database.{ok, transact}
use aplikasi_transaksi_kanto.Office.Events.{
  Site, Request, append_transaction_event, store_event_row, insert_event, with_status, last_event,
  next_sequence, has_key, has_sequence, has_ttd, event_key_of, event_context, event_row, same_ttd,
  ttd_public_id, EventInput,
}
use aplikasi_transaksi_kanto.Office.Events.Laws.{appended}
use aplikasi_transaksi_kanto.Office.Roles.{
  perms_for, can_transition, office_transitions, office_workflow,
}
use aplikasi_transaksi_kanto.Office.Actions.{
  lock_txn, action_body, office_action, simple_step, office_submit, step_input, step_apply,
  step_check, step_payload, HttpError,
}
use aplikasi_transaksi_kanto.Ledger.Table.{contains}

abbrev number_of : Option EventRow → ℕ
number_of none = 0
number_of (some e) = e.event_sequence

-- No event of a transaction has a number above that of the newest.
above_last :
    (id : String) (n : ℕ) (rows : List EventRow)
    → number_of (last_event id rows) < n
    → has_sequence id n rows ≡ false
unfolding last_event has_sequence
above_last id n [] h = refl
above_last id n (e ∷ rows) h = elim (Option-cases (last_event id rows)) [
  | inl q ↦ let rest = above_last id n rows in ground (arith, rest, str_eq_iff e.transaction_id id)
  | inr (f, q) ↦
      let rest = above_last id n rows in ground (arith, rest, str_eq_iff e.transaction_id id)
]

-- The number that the next event takes is free.
pub next_sequence_free :
    (id : String) (rows : List EventRow)
    → has_sequence id (next_sequence (last_event id rows)) rows ≡ false
next_sequence_free id rows = elim (Option-cases (last_event id rows)) [
  | inl q ↦ above_last id _ rows (rw q (omega arith))
  | inr (f, q) ↦ above_last id _ rows (rw q (omega arith))
]

same_ttd-none : (o : Option String) → same_ttd o none ≡ false
same_ttd-none none = refl
same_ttd-none (some x) = refl

-- A payload without a TTD signature clashes with none.
has_ttd-none : (rows : List EventRow) → has_ttd none rows ≡ false
unfolding has_ttd
has_ttd-none [] = refl
has_ttd-none (e ∷ rows) = ground (arith, same_ttd-none (ttd_public_id e.payload), has_ttd-none rows)

module _ (site : Site) (req : Request) where
  store_event_row-done :
      (e : EventRow) (row : TransactionRow) (new_status : String) (s : Store)
      → ((name : String) → req.up name ≡ true)
      → e.event_sequence < 2 ^ 31
      → has_key e.idempotency_key s.db.transaction_events ≡ false
      → has_sequence e.transaction_id e.event_sequence s.db.transaction_events ≡ false
      → has_ttd (ttd_public_id e.payload) s.db.transaction_events ≡ false
      → store_event_row site req e row new_status true s
        ≡ (ok tt, record s { db = appended s.db e row new_status true })
  unfolding store_event_row insert_event
  store_event_row-done e row new_status s up small fresh free unused =
      ground
        (arith, up "insert event", up "queue event", up "update status", small, fresh, free, unused)

  append_done :
      (input : EventInput) (s : Store) (row : TransactionRow) (identity : SigningIdentity)
      (signed : HybridSignature × String)
      → ((name : String) → req.up name ≡ true)
      → lookup input.transaction_id s.db.transactions ≡ some row
      → site.signing_identity input.signer_identity ≡ some identity
      → sign_hybrid site.primitives identity
          (event_context site req input row)
          (site.payload_hash input.payload)
        ≡ returned (some signed)
      → has_key (event_key_of site req input) s.db.transaction_events ≡ false
      → next_sequence (last_event input.transaction_id s.db.transaction_events) < 2 ^ 31
      → ttd_public_id input.payload ≡ none
      → let e =
          event_row site req input
            (event_key_of site req input)
            (last_event input.transaction_id s.db.transaction_events)
            signed in
        append_transaction_event site req input true s
        ≡ (ok e, record s { db = appended s.db e row input.new_status true })
  unfolding append_transaction_event
  append_done input s row identity signed up found known signs fresh room unused =
      let e =
        event_row site req input (event_key_of site req input)
          (last_event input.transaction_id s.db.transaction_events) signed in
      let stored =
        store_event_row-done e row input.new_status s up room fresh
          (next_sequence_free input.transaction_id s.db.transaction_events)
          (rw unused (has_ttd-none s.db.transaction_events)) in
      ground (arith, up "select schema", up "select last event", found, known, signs, stored)

  abbrev submit_check : OfficeIdentity → String → String → Option HttpError
  submit_check =
      step_check req "VERIFIED" (λ p. p.can_submit)
        "hanya pembuat yang dapat mengirim transaksi berstatus DRAFT"

  step_payload_plain :
      (me : OfficeIdentity) (type status : String)
      → ttd_public_id (step_payload req me type status) ≡ none
  unfolding lookup
  step_payload_plain me type status = refl

  locked_run :
      (me : OfficeIdentity) (id : String) (s : Store) (row : TransactionRow)
      → ((name : String) → req.up name ≡ true)
      → lookup id s.db.transactions ≡ some row
      → row.workflow_type ≡ office_workflow
      → row.created_by ≡ me.id
      → row.status ≡ "DRAFT"
      → lock_txn req id s ≡ (ok (me.id, "DRAFT"), s)
  unfolding lock_txn
  locked_run me id s row up found workflow own draft =
      ground (arith, up "lock transaction", found, str_eq_iff row.workflow_type office_workflow)

  submit_checked : (me : OfficeIdentity) → submit_check me me.id "DRAFT" ≡ none
  unfolding perms_for can_transition office_transitions contains
  submit_checked me = rw (str_eq_refl me.id) refl

  submit_body :
      (me : OfficeIdentity) (id : String) {e : EventRow} (db : Database) (s : Store)
      → lock_txn req id s ≡ (ok (me.id, "DRAFT"), s)
      → append_transaction_event site req (step_input req site me id "SUBMITTED" "VERIFIED") true s
        ≡ (ok e, record s { db = db })
      → action_body req me id submit_check (step_apply req site id "SUBMITTED" "VERIFIED") s
        ≡ (ok tt, record s { db = db })
  unfolding action_body
  submit_body me id db s locked done =
      ground (arith, locked, done, submit_checked me, str_eq_iff me.id me.id)

  -- The creator of a draft submits it while every statement is answered, the key is there, the drawn
  -- idempotency key is new and the numbers have not run out: the answer is no error, and it is VERIFIED.
  pub office_submit_succeeds :
      (me : OfficeIdentity) (id : String) (s : Store) (row : TransactionRow)
      (identity : SigningIdentity) (signed : HybridSignature × String)
      → ((name : String) → req.up name ≡ true)
      → lookup id s.db.transactions ≡ some row
      → row.workflow_type ≡ office_workflow
      → row.created_by ≡ me.id
      → row.status ≡ "DRAFT"
      → site.signing_identity me.id ≡ some identity
      → sign_hybrid site.primitives identity
          (event_context site req (step_input req site me id "SUBMITTED" "VERIFIED") row)
          (site.payload_hash (step_input req site me id "SUBMITTED" "VERIFIED").payload)
        ≡ returned (some signed)
      → has_key (site.uuid req.serial) s.db.transaction_events ≡ false
      → next_sequence (last_event id s.db.transaction_events) < 2 ^ 31
      → (t : Store) × (office_submit req site me id s ≡ (ok tt, t))
        × (lookup id t.db.transactions ≡ some (record row { status = "VERIFIED" }))
  unfolding office_submit simple_step office_action transact
  office_submit_succeeds me id s row identity signed up found workflow own draft known signs fresh
        room =
      let input = step_input req site me id "SUBMITTED" "VERIFIED" in
      let done =
        append_done input s row identity signed up found known signs fresh room
          (step_payload_plain me "SUBMITTED" "VERIFIED") in
      let body = submit_body me id _ s (locked_run me id s row up found workflow own draft) done in
      (
        record s {
          db =
              appended s.db
                (event_row site req input (event_key_of site req input)
                  (last_event id s.db.transaction_events) signed)
                row "VERIFIED" true;
        },
        ground (arith, up "begin", up "commit", body),
        lookup-insert_self id (with_status "VERIFIED" row) s.db.transactions,
      )
