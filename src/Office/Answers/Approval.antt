-- ===== src/Office/Answers/Approval.antt =====
-- What stands behind an approval that the office has accepted.
use aplikasi_transaksi_kanto.Base.{
  ◌≡◌, ◌≢◌, refl, Bool, true, none, some, Option, String, ◌∷◌, arith, str_eq, str_eq_iff,
  Bool-cases, Option-cases, inl, inr,
}
use aplikasi_transaksi_kanto.Store.Dict.{lookup, lookup-insert_self}
use aplikasi_transaksi_kanto.Office.Types.{OfficeIdentity, TransactionRow, Payload, text, Store}
use aplikasi_transaksi_kanto.Office.Database.{Tx, ok, transact, call-cases}
use aplikasi_transaksi_kanto.Office.Events.{
  Site, Request, append_transaction_event, with_status, last_event,
}
use aplikasi_transaksi_kanto.Office.Events.Laws.{IsSite, append-IsAppended}
use aplikasi_transaksi_kanto.Office.Roles.{perms_for, role_approver}
use aplikasi_transaksi_kanto.Office.Actions.{internal_error, action_body, office_action}
use aplikasi_transaksi_kanto.Office.Actions.Laws.{action_body-IsPassed}
use aplikasi_transaksi_kanto.Office.Decision.{
  TtdVerifier, DecisionRequest, decision_check, apply_decision, check_decision, decide,
  office_decision, submissions, decision_payload, decision_input, record_decision,
  verify_ttd_approval,
}
use aplikasi_transaksi_kanto.Office.Decision.Laws.{
  IsBacked, verify_ttd_approval-IsBacked, record_decision_approves,
}

-- What a committed transaction has run.
pub transact_committed :
    {E A : Type 0} (begins commits : Bool) (internal : E) (body : Tx E A) (s : Store) {a : A}
    {t : Store}
    → transact begins commits internal body s ≡ (ok a, t)
    → body s ≡ (ok a, t)
unfolding transact
transact_committed begins commits internal body s h = elim (Bool-cases begins) [
  | inr q ↦ absurd (ground arith)
  | inl q ↦ elim (call-cases (body s)) [
    | inr (e, t, q2) ↦ absurd (ground arith)
    | inl (a, t, q2) ↦ elim (Bool-cases commits) [
      | inr q3 ↦ absurd (ground arith)
      | inl q3 ↦ ground arith
    ]
  ]
]

module _ (site : Site) (ttd : Option TtdVerifier) (req : Request) where
  -- The request was submitted, the approver holds that role and did not make it, the TTD record is
  -- accepted, the approver's own and over the request's attachment, and the request is endorsed.
  pub record IsEndorsed (me : OfficeIdentity) (id : String) (input : DecisionRequest) (s t : Store)
      : Type 0 where
    pub row : TransactionRow
    pub found : lookup id s.db.transactions ≡ some row
    pub submitted : row.status ≡ "VERIFIED"
    pub approver : me.office_role ≡ role_approver
    pub other_person : me.id ≢ row.created_by
    pub stored : Store
    pub extra : Payload
    pub backed : IsBacked site ttd req id me input.ttd_public_id s stored extra
    pub endorsed : lookup id t.db.transactions ≡ some (record row { status = "ENDORSED" })

  decision_check_approver :
      (me : OfficeIdentity) (created_by status : String)
      → decision_check me created_by status ≡ none
      → (status ≡ "VERIFIED") × (me.office_role ≡ role_approver) × (me.id ≢ created_by)
  unfolding perms_for
  decision_check_approver me created_by status h = (
    ground (arith, str_eq_iff status "VERIFIED"),
    ground (arith, str_eq_iff me.office_role role_approver),
    ground (arith, str_eq_iff me.id created_by),
  )

  check_decision_passes :
      (input : DecisionRequest) (s : Store) {input' : DecisionRequest} {t : Store}
      → check_decision site ttd req (some input) s ≡ (ok input', t)
      → (input' ≡ input) × (t ≡ s)
  unfolding check_decision
  check_decision_passes input s h = (ground arith, ground arith)

  apply_decision_approves :
      IsSite site
      → (input : DecisionRequest) (id : String) (me : OfficeIdentity) (created_by : String)
        (s : Store) (row : TransactionRow) {t : Store}
      → lookup id s.db.transactions ≡ some row
      → apply_decision site ttd req input id true me created_by s ≡ (ok tt, t)
      → (stored : Store) × (extra : Payload) × IsBacked site ttd req id me input.ttd_public_id s
          stored extra
        × (lookup id t.db.transactions ≡ some (record row { status = "ENDORSED" }))
  unfolding apply_decision decision_payload
  apply_decision_approves good input id me created_by s row {t} found h =
      elim (Option-cases (last_event id (submissions s.db.transaction_events))) [
        | inl q ↦ absurd (ground arith)
        | inr (submitted, q) ↦
            elim (call-cases (verify_ttd_approval site ttd req id me input.ttd_public_id s)) [
              | inr (e, s1, q2) ↦ absurd (ground arith)
              | inl (extra, s1, q2) ↦
                  let backed =
                    verify_ttd_approval-IsBacked site ttd req id me input.ttd_public_id s q2 in
                  let payload : Payload =
                    ("approver_id", text me.id) ∷ ("policy_version", text "policy-v1") ∷ extra in
                  let event = decision_input site ttd req me id true payload in
                  elim (call-cases (append_transaction_event site req event true s1)) [
                    | inr (e, s2, q3) ↦ absurd (ground arith)
                    | inl (e, s2, q3) ↦
                        let a = append-IsAppended site req good event true s1 q3 in
                        elim (call-cases
                          (record_decision site ttd req me id input.decision true submitted s2)) [
                            | inr (e2, s3, q4) ↦ absurd (ground arith)
                            | inl (_, s3, q4) ↦
                                let (_, kept, _) =
                                  record_decision_approves site ttd req me id input.decision
                                    submitted s2 q4 in
                                let same : t ≡ s3 = ground arith in
                                let (_, same_rows, _) = backed.kept in
                                let own : e.transaction_id ≡ id = rw a.is_row refl in
                                let here : lookup id s1.db.transactions ≡ some row =
                                  rw same_rows found in
                                let same_row : a.row ≡ row = cc (a.found, here) in
                                (
                                  s1,
                                  extra,
                                  backed,
                                  rw (same, kept, a.result, own, same_row)
                                      (lookup-insert_self id (with_status "ENDORSED" row)
                                        s1.db.transactions),
                                )
                          ]
                  ]
            ]
      ]

  -- An approval that is answered without an error.
  pub office_decision-IsEndorsed :
      IsSite site
      → (me : OfficeIdentity) (id : String) (input : DecisionRequest) (s : Store) {t : Store}
      → input.decision ≡ "approve"
      → office_decision site ttd req me id (some input) s ≡ (ok tt, t)
      → IsEndorsed me id input s t
  unfolding office_decision office_action
  office_decision-IsEndorsed good me id input s {t} approves h =
      elim (call-cases (check_decision site ttd req (some input) s)) [
        | inr (e, s1, q) ↦ absurd (ground arith)
        | inl (input', s1, q) ↦
            let (same_input, same_store) = check_decision_passes input s q in
            let is_approval : str_eq input.decision "approve" ≡ true =
              (str_eq_iff input.decision "approve").1 approves in
            let apply = apply_decision site ttd req input id true in
            let decided : decide site ttd req me id input s ≡ (ok tt, t) =
              ground (arith, same_input, same_store) in
            let p = action_body-IsPassed req me id decision_check apply s (
              transact_committed (req.up "begin") (req.up "commit") internal_error
                (action_body req me id decision_check apply) s (rw is_approval at decided)) in
            let (verified, approver, other) =
              decision_check_approver me p.row.created_by p.row.status p.checked in
            let (stored, extra, backed, endorsed) =
              apply_decision_approves good input id me p.row.created_by s p.row p.found p.applied in
            record {
              row = p.row;
              found = p.found;
              submitted = verified;
              approver = approver;
              other_person = other;
              stored = stored;
              extra = extra;
              backed = backed;
              endorsed = endorsed;
            }
      ]
