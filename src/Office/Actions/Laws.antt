-- ===== src/Office/Actions/Laws.antt =====
-- The frame of a state-changing request: what the row has been checked for when the step is applied.
use aplikasi_transaksi_kanto.Base.{
  ◌≡◌, ◌≢◌, ◌⊎◌, true, none, some, Option, String, arith, str_eq_iff, Bool-cases, Option-cases, inl,
  inr,
}
use aplikasi_transaksi_kanto.Store.Dict.{lookup}
use aplikasi_transaksi_kanto.Ledger.Transaction.Status.{is_transition_allowed}
use aplikasi_transaksi_kanto.Office.Types.{OfficeIdentity, TransactionRow, Store}
use aplikasi_transaksi_kanto.Office.Database.{Tx, ok, call-cases}
use aplikasi_transaksi_kanto.Office.Events.{Request}
use aplikasi_transaksi_kanto.Office.Roles.{
  can_transition, office_transitions, can_see_all, office_workflow,
}
use aplikasi_transaksi_kanto.Office.Actions.{HttpError, lock_txn, action_body}

-- The office's table is the chaincode's, but for REVOKED, which the office has no step to.
pub can_transition_correct :
    (cur next : String)
    → next ≢ "REVOKED"
    → can_transition cur next ≡ is_transition_allowed cur next
unfolding can_transition office_transitions is_transition_allowed
can_transition_correct cur next ne = ground (arith, str_eq_iff next "REVOKED")

module _ (req : Request) where
  -- What the row that lockTxn has read stands for.
  pub record IsLocked (id : String) (s : Store) (p : String × String) (t : Store) : Type 0 where
    pub row : TransactionRow
    pub same : t ≡ s
    pub found : lookup id s.db.transactions ≡ some row
    pub workflow : row.workflow_type ≡ office_workflow
    pub created_by : p.0 ≡ row.created_by
    pub status : p.1 ≡ row.status

  lock_txn-IsLocked :
      (id : String) (s : Store) {p : String × String} {t : Store}
      → lock_txn req id s ≡ (ok p, t)
      → IsLocked id s p t
  unfolding lock_txn
  lock_txn-IsLocked id s h = elim (Option-cases (lookup id s.db.transactions)) [
    | inl q ↦ absurd (ground arith)
    | inr (row, q) ↦ record {
      row = row;
      same = ground arith;
      found = q;
      workflow = ground (arith, str_eq_iff row.workflow_type office_workflow);
      created_by = ground arith;
      status = ground arith;
    }
  ]

  -- What the step is applied to.
  pub record IsPassed (me : OfficeIdentity) (id : String)
      (check : OfficeIdentity → String → String → Option HttpError)
      (apply : OfficeIdentity → String → Tx HttpError (Unit {0})) (s t : Store) : Type 0 where
    pub row : TransactionRow
    pub found : lookup id s.db.transactions ≡ some row
    pub workflow : row.workflow_type ≡ office_workflow
    pub visible : (can_see_all me ≡ true) ⊎ (row.created_by ≡ me.id)
    pub checked : check me row.created_by row.status ≡ none
    pub applied : apply me row.created_by s ≡ (ok tt, t)

  pub action_body-IsPassed :
      (me : OfficeIdentity) (id : String)
      (check : OfficeIdentity → String → String → Option HttpError)
      (apply : OfficeIdentity → String → Tx HttpError (Unit {0})) (s : Store) {t : Store}
      → action_body req me id check apply s ≡ (ok tt, t)
      → IsPassed me id check apply s t
  unfolding action_body
  action_body-IsPassed me id check apply s {t} h = elim (call-cases (lock_txn req id s)) [
    | inr (e, s1, q) ↦ absurd (ground arith)
    | inl (p, s1, q) ↦
        let l = lock_txn-IsLocked id s q in
        let q2 : lock_txn req id s ≡ (ok (l.row.created_by, l.row.status), s) =
          cc (l.same, l.created_by, l.status) in
        elim (Option-cases (check me l.row.created_by l.row.status)) [
          | inr (e, q3) ↦ absurd (ground (arith, q2))
          | inl q3 ↦ record {
            row = l.row;
            found = l.found;
            workflow = l.workflow;
            visible = elim (Bool-cases (can_see_all me)) [
              | inl all ↦ inl all
              | inr some_only ↦ inr (ground (arith, q2, str_eq_iff l.row.created_by me.id))
            ];
            checked = q3;
            applied = ground (arith, q2);
          }
        ]
  ]
