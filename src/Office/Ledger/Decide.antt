-- ===== src/Office/Ledger/Decide.antt =====
-- A decision on a mirrored database: the event, and for an approval the call that records it.
use aplikasi_transaksi_kanto.Base.{
  ℕ, ◌≡◌, ◌≢◌, ◌∙◌, refl, Bool, true, false, none, some, Option, String, [], ◌∷◌, ◌++◌, arith,
  str_eq, str_eq_iff, str_eq_ne, Option-cases, inl, inr,
}
use aplikasi_transaksi_kanto.Store.Dict.{lookup, lookup-insert_self}
use aplikasi_transaksi_kanto.Ledger.Stub.{Shim}
use aplikasi_transaksi_kanto.Ledger.Transaction.Status.{is_transition_allowed}
use aplikasi_transaksi_kanto.Ledger.Transaction.Contract.Record.{World}
use aplikasi_transaksi_kanto.Office.Types.{OfficeIdentity, TransactionRow, EventRow, Store, Queued}
use aplikasi_transaksi_kanto.Ledger.Transaction.Contract.Reach.{genesis}
use aplikasi_transaksi_kanto.Office.Database.{ok, call-cases}
use aplikasi_transaksi_kanto.Office.Events.{
  Site, Request, append_transaction_event, last_event, with_status,
}
use aplikasi_transaksi_kanto.Office.Events.Laws.{IsSite}
use aplikasi_transaksi_kanto.Office.Roles.{perms_for, office_policy}
use aplikasi_transaksi_kanto.Office.Actions.{internal_error, action_body, office_action}
use aplikasi_transaksi_kanto.Office.Actions.Laws.{action_body-IsPassed}
use aplikasi_transaksi_kanto.Office.Decision.{
  TtdVerifier, DecisionRequest, submissions, decision_check, decision_payload, decision_input,
  record_decision, apply_decision, office_decision, check_decision, decide, status_of,
}
use aplikasi_transaksi_kanto.Office.Decision.Laws.{
  decision_payload_keeps, record_decision_approves, record_decision_rejects,
}
use aplikasi_transaksi_kanto.Office.Ledger.{IsServing, IsUndecided, IsApprovalKey, replay_snoc}
use aplikasi_transaksi_kanto.Office.Ledger.Append.{
  HasMirror, IsMirrored, append-IsMirrored, transact_keeps, bind_keeps, IsMirrored-same,
}
use aplikasi_transaksi_kanto.Office.Ledger.Draft.{approve_mirrored}

-- Who may decide: it is submitted, and by somebody else.
pub decision_check_passed :
    (me : OfficeIdentity) (created_by status : String)
    → decision_check me created_by status ≡ none
    → (status ≡ "VERIFIED") × (me.id ≢ created_by)
unfolding perms_for
decision_check_passed me created_by status h =
    (ground (arith, str_eq_iff status "VERIFIED"), ground (arith, str_eq_iff me.id created_by))

status_allowed : (approve : Bool) → is_transition_allowed "VERIFIED" (status_of approve) ≡ true
unfolding is_transition_allowed
status_allowed true = refl
status_allowed false = refl

endorsed_closed : (row : TransactionRow) → IsUndecided (some (with_status "ENDORSED" row)) → ⊥
endorsed_closed row (inl q) = str_eq_ne "ENDORSED" "DRAFT" refl q
endorsed_closed row (inr q) = str_eq_ne "ENDORSED" "VERIFIED" refl q

module _ (sh : Shim) (site : Site) (ttd : Option TtdVerifier) (req : Request) where
  record_decision_mirrored :
      IsServing sh
      → (me : OfficeIdentity) (id decision : String) (approve : Bool) (submitted : EventRow)
        (s : Store) (w : World sh) (row : TransactionRow) {t : Store}
      → IsMirrored sh s.db w
      → (str_eq decision "approve" ≡ approve)
      → lookup id s.db.transactions ≡ some (with_status (status_of approve) row)
      → me.id ≢ row.created_by
      → ((n : ℕ) (by : String) (j : sh.Key) → IsApprovalKey sh id n by j → w.state j ≡ none)
      → record_decision site ttd req me id decision approve submitted s ≡ (ok tt, t)
      → HasMirror sh t.db
  record_decision_mirrored serving me id decision false submitted s w row m d found other free h =
      let (a, b, c) = record_decision_rejects site ttd req me id decision submitted s h in
      (w, IsMirrored-same sh a b c m)
  record_decision_mirrored serving me id decision true submitted s w row {t} m d found other free
        h =
      let (a, b, c) = record_decision_approves site ttd req me id decision submitted s h in
      let n = submitted.event_sequence in
      let approves : decision ≡ "approve" = (str_eq_iff decision "approve").0 d in
      let (w', accepted, mirrors) =
        approve_mirrored sh serving s.db.transactions s.db.transaction_events w id n me.id
          office_policy (with_status "ENDORSED" row) m.mirrors found other (endorsed_closed row)
          (free n me.id) in
      let queued : t.db.outbox
          ≡ s.db.outbox ++ Queued.approve id n me.id "approve" office_policy ∷ [] =
        rw approves at a in
      (
        w',
        record {
          replayed = rw queued (
              replay_snoc sh s.db.outbox (Queued.approve id n me.id "approve" office_policy)
                (genesis sh) w w' m.replayed accepted);
          mirrors = rw (b, c) mirrors;
        },
      )

  apply_decision_mirrored :
      IsSite site
      → IsServing sh
      → (input : DecisionRequest) (id : String) (approve : Bool) (me : OfficeIdentity) (s : Store)
        (w : World sh) (row : TransactionRow) {t : Store}
      → IsMirrored sh s.db w
      → (str_eq input.decision "approve" ≡ approve)
      → lookup id s.db.transactions ≡ some row
      → row.status ≡ "VERIFIED"
      → me.id ≢ row.created_by
      → apply_decision site ttd req input id approve me row.created_by s ≡ (ok tt, t)
      → HasMirror sh t.db
  unfolding apply_decision
  apply_decision_mirrored good serving input id approve me s w row {t} m d found verified other h =
      elim (Option-cases (last_event id (submissions s.db.transaction_events))) [
        | inl q ↦ absurd (ground arith)
        | inr (submitted, q) ↦
            elim (call-cases (decision_payload site ttd req me id input approve s)) [
              | inr (e, s1, q2) ↦ absurd (ground arith)
              | inl (payload, s1, q2) ↦
                  let (a, b, c) = decision_payload_keeps site ttd req me id input approve s q2 in
                  let event = decision_input site ttd req me id approve payload in
                  elim (call-cases (append_transaction_event site req event true s1)) [
                    | inr (e, s2, q3) ↦ absurd (ground arith)
                    | inl (e, s2, q3) ↦
                        let (w2, m2, result, own, kept) =
                          append-IsMirrored sh site req good serving event row s1 w
                            (IsMirrored-same sh a b c m) q3 (rw b found)
                            (inr (rw verified (status_allowed approve))) in
                        elim (call-cases (
                          record_decision site ttd req me id input.decision approve submitted s2)) [
                            | inr (e2, s3, q4) ↦ absurd (ground arith)
                            | inl (_, s3, q4) ↦
                                let same : t ≡ s3 = ground arith in
                                rw same (
                                  record_decision_mirrored serving me id input.decision approve
                                    submitted s2 w2 row m2 d
                                    (rw (result, own)
                                      (lookup-insert_self id (with_status (status_of approve) row)
                                        s1.db.transactions))
                                    other
                                    (λ n by j is_j.
                                      kept id n by j is_j
                                      ∙ m.mirrors.undecided id n by j (rw found (inr verified))
                                          is_j)
                                    q4)
                          ]
                  ]
            ]
      ]

  check_decision_keeps :
      (body : Option DecisionRequest) (s : Store) → (check_decision site ttd req body s).1 ≡ s
  unfolding check_decision
  check_decision_keeps none s = refl
  check_decision_keeps (some input) s = ground arith

  pub office_decision_mirrored :
      IsSite site
      → IsServing sh
      → (me : OfficeIdentity) (id : String) (body : Option DecisionRequest) (s : Store)
      → HasMirror sh s.db
      → HasMirror sh (office_decision site ttd req me id body s).1.db
  unfolding office_decision office_action
  office_decision_mirrored good serving me id body s (w, m) =
      bind_keeps sh (check_decision site ttd req body) (decide site ttd req me id) s
        (check_decision_keeps body s) (w, m)
        λ input.
          let approve = str_eq input.decision "approve" in
          let apply = apply_decision site ttd req input id approve in
          transact_keeps sh (req.up "begin") (req.up "commit") internal_error
            (action_body req me id decision_check apply) s (w, m)
            λ a t h.
              let p = action_body-IsPassed req me id decision_check apply s h in
              let (verified, other) =
                decision_check_passed me p.row.created_by p.row.status p.checked in
              apply_decision_mirrored good serving input id approve me s w p.row m refl p.found
                verified other p.applied
