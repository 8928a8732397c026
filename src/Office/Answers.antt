-- ===== src/Office/Answers.antt =====
-- What the answers of the office's routes mean: a refusal changes no table, a stranger's request looks like
-- one that is not there, an accepted approval is backed by its TTD signature.
pub mod Approval
pub mod Submit
use aplikasi_transaksi_kanto.Base.{
  ◌≡◌, ◌≢◌, ◌∙◌, refl, sym, ap, Bool, true, false, not, none, some, Option, String, [], ◌∷◌, arith,
  str_eq, str_eq_iff, Bool-cases, Option-cases, inl, inr, ◌+◌, ◌<◌, ◌^◌, suc,
}
use aplikasi_transaksi_kanto.Store.Dict.{lookup, insert, lookup-insert_self}
use aplikasi_transaksi_kanto.Crypto.Hybrid.{HybridSignature, SigningIdentity, sign_hybrid}
use aplikasi_transaksi_kanto.Office.Types.{
  OfficeIdentity, TransactionRow, EventRow, Payload, Store, Database,
}
use aplikasi_transaksi_kanto.Office.Database.{Tx, ok, err, transact, call-cases, catch}
use aplikasi_transaksi_kanto.Office.Events.{
  Site, Request, append_transaction_event, with_status, last_event, next_sequence, has_key,
  store_event_row, insert_event, event_key_of, event_context, has_sequence, has_ttd,
}
use aplikasi_transaksi_kanto.Office.Events.Laws.{IsSite, append-IsAppended, appended}
use aplikasi_transaksi_kanto.Office.Roles.{
  can_see_all, perms_for, can_transition, role_approver, office_workflow,
}
use aplikasi_transaksi_kanto.Office.Actions.{
  HttpError, not_found, internal_error, lock_txn, action_body, office_action, office_submit,
  simple_step, step_input, step_payload,
}
use aplikasi_transaksi_kanto.Office.Actions.Laws.{action_body-IsPassed}
use aplikasi_transaksi_kanto.Office.Decision.{
  TtdVerifier, DecisionRequest, decision_check, apply_decision, check_decision, decide,
  office_decision, submissions, decision_payload, decision_input, record_decision,
  verify_ttd_approval, status_of,
}
use aplikasi_transaksi_kanto.Office.Decision.Laws.{
  IsBacked, verify_ttd_approval-IsBacked, decision_payload_keeps, record_decision_approves,
}
use aplikasi_transaksi_kanto.Office.Ledger.Decide.{decision_check_passed}

-- A transaction that is not committed leaves every table as it was.
pub transact_refused :
    {E A : Type 0} (begins commits : Bool) (internal : E) (body : Tx E A) (s : Store) {e : E}
    {t : Store}
    → transact begins commits internal body s ≡ (err e, t)
    → t.db ≡ s.db
unfolding transact
transact_refused begins commits internal body s h = elim (Bool-cases begins) [
  | inr q ↦ ground arith
  | inl q ↦ elim (call-cases (body s)) [
    | inr (e, t, q2) ↦ ground arith
    | inl (a, t, q2) ↦ elim (Bool-cases commits) [
      | inr q3 ↦ ground arith
      | inl q3 ↦ absurd (ground arith)
    ]
  ]
]

module _ (req : Request) where
  -- To somebody who does not see all requests, a request of another person answers as one that does not
  -- exist, whatever the step is, and nothing is written.
  pub office_action_hidden :
      (me : OfficeIdentity) (id : String)
      (check : OfficeIdentity → String → String → Option HttpError)
      (apply : OfficeIdentity → String → Tx HttpError (Unit {0})) (s : Store)
      → can_see_all me ≡ false
      → ((row : TransactionRow) → lookup id s.db.transactions ≡ some row → row.created_by ≢ me.id)
      → req.up "begin" ≡ true
      → req.up "lock transaction" ≡ true
      → office_action req me id check apply s ≡ (err not_found, s)
  unfolding office_action action_body lock_txn transact
  office_action_hidden me id check apply s own others begins locks =
      elim (Option-cases (lookup id s.db.transactions)) [
        | inl q ↦ ground arith
        | inr (row, q) ↦
            let other = others row q in ground (arith, str_eq_iff row.created_by me.id, other)
      ]
