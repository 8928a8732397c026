-- ===== src/Office/Ledger/Draft.antt =====
-- A new request, and a recorded approval, on a ledger that mirrors the database.
use aplikasi_transaksi_kanto.Base.{
  ℕ, ◌≡◌, ◌≢◌, refl, sym, ◌∙◌, none, some, String, List, [], ◌∷◌, arith, str_eq, str_eq_iff,
  str_eq_ne, Bool-cases, inl, inr,
}
use aplikasi_transaksi_kanto.Base.Int64.{pos}
use aplikasi_transaksi_kanto.Base.Format.{sprintf_09d}
use aplikasi_transaksi_kanto.Store.Dict.{Dict, lookup, insert, lookup-insert_self, lookup-insert_ne}
use aplikasi_transaksi_kanto.Ledger.Stub.{Shim, ok, update_same, update_other, other_attributes}
use aplikasi_transaksi_kanto.Ledger.Transaction.Contract.{transaction}
use aplikasi_transaksi_kanto.Ledger.Transaction.Contract.Record.{World}
use aplikasi_transaksi_kanto.Ledger.Transaction.Contract.Approve.{draft, decision_of}
use aplikasi_transaksi_kanto.Ledger.Transaction.Contract.Accept.{
  created, approved, create_transaction_accepted, approve_accepted,
}
use aplikasi_transaksi_kanto.Office.Types.{Queued, TransactionRow, EventRow}
use aplikasi_transaksi_kanto.Office.Events.{last_event}
use aplikasi_transaksi_kanto.Office.Ledger.{
  IsUndecided, IsServing, other_kind, invoke, IsApprovalKey, Mirrors,
}
use aplikasi_transaksi_kanto.Office.Ledger.Event.{header_kept, lookup-insert-none}

abbrev pub row_call : String → TransactionRow → Queued
row_call id row =
    Queued.create_transaction id row.organization_id row.workflow_type row.schema_version
      row.created_by

module _ (sh : Shim) where
  -- The call is accepted, and the ledger mirrors the database with the new row.
  pub create_mirrored :
      (serving : IsServing sh) (rows : Dict TransactionRow) (events : List EventRow) (w : World sh)
      (id : String) (row : TransactionRow)
      → Mirrors sh rows events w
      → id ≢ ""
      → lookup id rows ≡ none
      → row.status ≡ "DRAFT"
      → (w' : World sh) × (invoke sh (row_call id row) w ≡ (ok tt, w'))
        × Mirrors sh (insert id row rows) events w'
  unfolding invoke
  create_mirrored serving rows events w id row m named free is_draft =
      let (k, is_k) = serving.legal "transaction" (id ∷ []) in
      let txn = draft id row.organization_id row.workflow_type row.schema_version row.created_by in
      let w' = created sh w txn k in
      let other : (j : sh.Key) → k ≢ j → w'.state j ≡ w.state j =
        λ j ne. update_other sh w.state k j (transaction txn) ne in
      let eventless = m.eventless id free in
      (
        w',
        create_transaction_accepted sh id _ _ _ _ k w named is_k (m.absent id free k is_k)
            (serving.reads k) (serving.writes k),
        record {
          named = lookup-insert_ne id "" row rows named ∙ m.named;
          headers = λ id' row' k' found' is_k'. elim (Bool-cases (str_eq id id')) [
            | inl same ↦
                let q : id ≡ id' = (str_eq_iff id id').0 same in
                let same_key : k' ≡ k = cc in
                let same_row : row' ≡ row = ground (arith, q, lookup-insert_self id row rows) in
                let fresh : last_event id' events ≡ none = rw (sym q) eventless in
                rw (fresh, same_key, same_row)
                  record {
                    txn = txn;
                    holds = update_same sh w.state k (transaction txn);
                    created_by = refl;
                    status = sym is_draft;
                    number = refl;
                    hash = refl;
                  }
            | inr other_id ↦
                let ne = str_eq_ne id id' other_id in
                let old =
                  m.headers id' row' k' (sym (lookup-insert_ne id id' row rows ne) ∙ found')
                    is_k' in
                header_kept sh w w' old (other k' (other_attributes sh (λ q. ne (cc q)) is_k is_k'))
          ];
          absent = λ id' none' k' is_k'.
              let (ne, none_before) = lookup-insert-none id id' row rows none' in
              other k' (other_attributes sh (λ q. ne (cc q)) is_k is_k')
              ∙ m.absent id' none_before k' is_k';
          eventless = λ id' none'. m.eventless id' (lookup-insert-none id id' row rows none').1;
          markers = λ key j f is_j.
              other j (other_kind sh "transaction" "idempotency" refl is_k is_j)
              ∙ m.markers key j f is_j;
          undecided = λ id' n by j open' is_j.
              other j (other_kind sh "transaction" "approval" refl is_k is_j)
              ∙ m.undecided id' n by j
                  (elim (Bool-cases (str_eq id id')) [
                    | inl same ↦
                        let q : id ≡ id' = (str_eq_iff id id').0 same in
                        let before : lookup id' rows ≡ none = rw (sym q) free in rw before tt
                    | inr other_id ↦
                        rw (lookup-insert_ne id id' row rows (str_eq_ne id id' other_id)) at open'
                  ])
                  is_j;
        },
      )

  -- An approval of a request that has left DRAFT and VERIFIED, by somebody else than its creator and
  -- not yet on the ledger, is accepted, and the ledger still mirrors the database.
  pub approve_mirrored :
      (serving : IsServing sh) (rows : Dict TransactionRow) (events : List EventRow) (w : World sh)
      (id : String) (n : ℕ) (by policy : String) (row : TransactionRow)
      → Mirrors sh rows events w
      → lookup id rows ≡ some row
      → by ≢ row.created_by
      → (IsUndecided (some row) → ⊥)
      → ((k : sh.Key) → IsApprovalKey sh id n by k → w.state k ≡ none)
      → (w' : World sh) × (invoke sh (Queued.approve id n by "approve" policy) w ≡ (ok tt, w'))
        × Mirrors sh rows events w'
  unfolding invoke
  approve_mirrored serving rows events w id n by policy row m found not_own closed free =
      let (k, is_k) = serving.legal "transaction" (id ∷ []) in
      let (key, is_key) = serving.legal "approval" (id ∷ sprintf_09d (pos n) ∷ by ∷ []) in
      let h = m.headers id row k found is_k in
      let doc = decision_of {K = sh.Key} id (pos n) by "approve" policy in
      let w' = approved sh w id (pos n) by policy key in
      let other : (j : sh.Key) → key ≢ j → w'.state j ≡ w.state j =
        λ j ne. update_other sh w.state key j doc ne in
      (
        w',
        approve_accepted sh id (pos n) by policy h.txn k key w is_k h.holds
            (λ q. not_own (q ∙ h.created_by)) is_key (free key is_key)
            (serving.reads k, serving.reads key) (serving.writes key),
        record {
          named = m.named;
          headers = λ id' row' k' found' is_k'.
              header_kept sh w w' (m.headers id' row' k' found' is_k')
                (other k' (other_kind sh "approval" "transaction" refl is_key is_k'));
          absent = λ id' none' k' is_k'.
              other k' (other_kind sh "approval" "transaction" refl is_key is_k')
              ∙ m.absent id' none' k' is_k';
          eventless = m.eventless;
          markers = λ key' j f is_j.
              other j (other_kind sh "approval" "idempotency" refl is_key is_j)
              ∙ m.markers key' j f is_j;
          undecided = λ id' n' by' j open' is_j.
              other j (
                other_attributes sh
                  (λ q.
                    let same : id ≡ id' = cc q in
                    let here : lookup id' rows ≡ some row = rw (sym same) found in
                    closed (rw here at open'))
                  is_key is_j)
              ∙ m.undecided id' n' by' j open' is_j;
        },
      )
