-- ===== src/Ledger/Transaction/Contract/Approve.antt =====
-- What accepted calls of CreateTransaction and Approve have checked, and the stub they leave.
use aplikasi_transaksi_kanto.Base.{
  ◌≡◌, ◌≢◌, ◌⊎◌, none, some, String, [], ◌∷◌, str_eq, str_eq_iff, arith, true, inl, inr,
  Option-cases, Bool-cases,
}
use aplikasi_transaksi_kanto.Base.Int64.{ℤ, pos}
use aplikasi_transaksi_kanto.Base.Format.{sprintf_09d}
use aplikasi_transaksi_kanto.Ledger.Stub.{
  Shim, ok, update, set_event, get_state, put_state, call-cases,
}
use aplikasi_transaksi_kanto.Ledger.Transaction.Status.{is_transition_allowed}
use aplikasi_transaksi_kanto.Ledger.Transaction.Contract.{
  Transaction, Doc, transaction, approval, transaction_key, approval_key, create_transaction,
  get_transaction, reject_transaction, approve,
}
use aplikasi_transaksi_kanto.Ledger.Transaction.Contract.Record.{
  World, get_transaction-pure, get_transaction-ok,
}

-- The header that CreateTransaction writes.
abbrev pub draft : String → String → String → String → String → Transaction
draft id organization_id workflow_type schema_version created_by = record {
  id = id;
  organization_id = organization_id;
  workflow_type = workflow_type;
  schema_version = schema_version;
  created_by = created_by;
  status = "DRAFT";
  latest_event_sequence = pos 0;
  latest_event_payload_hash = "";
}

-- The decision that Approve writes.
abbrev pub decision_of : {K : Type 0} → String → ℤ → String → String → String → Doc K
decision_of id n by decision policy = approval (record {
  transaction_id = id;
  event_sequence = n;
  approver_id = by;
  decision = decision;
  policy_version = policy;
})

module _ (sh : Shim) where
  pub create_transaction-ok :
      (id o w v c : String) (s : World sh) {t : World sh}
      → create_transaction sh id o w v c s ≡ (ok tt, t)
      → (key : sh.Key) × (sh.create_composite_key "transaction" (id ∷ []) ≡ some key)
        × (s.state key ≡ none)
        × (t.state ≡ update sh s.state key (transaction (draft id o w v c)))
  unfolding create_transaction transaction_key get_state put_state set_event
  create_transaction-ok id o w v c s h =
      elim (Option-cases (sh.create_composite_key "transaction" (id ∷ []))) [
        | inl bad ↦ absurd (ground arith)
        | inr (key, e) ↦ (key, e, ground arith, ground arith)
      ]

  -- How the header of the transaction stands after a decision.
  abbrev pub IsDecided :
      World sh → World sh → String → String → Transaction → sh.Key → Doc sh.Key → Type 0
  IsDecided s t id decision txn key doc =
      ((decision ≡ "approve") × (t.state ≡ update sh s.state key doc))
      ⊎ ((decision ≡ "reject")
          × (is_transition_allowed txn.status "REJECTED" ≡ true)
          × (txn_key : sh.Key) × (sh.create_composite_key "transaction" (id ∷ []) ≡ some txn_key)
          × (t.state
              ≡ update sh (update sh s.state key doc) txn_key
                  (transaction (record txn { status = "REJECTED" }))))

  pub record IsApproved (id : String) (n : ℤ) (by decision policy : String) (s t : World sh)
      : Type 0 where
    pub txn : Transaction
    pub key : sh.Key
    pub read : get_transaction sh id s ≡ (ok txn, s)
    pub other_person : by ≢ txn.created_by
    pub is_key : sh.create_composite_key "approval" (id ∷ sprintf_09d n ∷ by ∷ []) ≡ some key
    pub undecided : s.state key ≡ none
    pub decided : IsDecided s t id decision txn key (decision_of id n by decision policy)

  pub approve-IsApproved :
      (id : String) (n : ℤ) (by decision policy : String) (s : World sh) {t : World sh}
      → approve sh id n by decision policy s ≡ (ok tt, t)
      → IsApproved id n by decision policy s t
  unfolding approve approval_key get_state put_state set_event reject_transaction transaction_key
  approve-IsApproved id n by decision policy s h = elim (call-cases (get_transaction sh id s)) [
    | inr (e, s1, q) ↦ absurd (ground arith)
    | inl (txn, s1, q) ↦
        elim (Option-cases (sh.create_composite_key "approval" (id ∷ sprintf_09d n ∷ by ∷ []))) [
          | inl bad ↦ absurd (ground arith)
          | inr (key, e) ↦ record {
            txn = txn;
            key = key;
            read = cc (get_transaction-pure sh id s);
            other_person = ground (arith, str_eq_iff by txn.created_by);
            is_key = e;
            undecided = ground (arith, get_transaction-pure sh id s);
            decided = elim (Bool-cases (str_eq decision "reject")) [
              | inr kept ↦ inl (
                ground (arith, str_eq_iff decision "approve", get_transaction-pure sh id s),
                ground (arith, get_transaction-pure sh id s),
              )
              | inl rejects ↦
                  let (txn_key, is_txn, _) = get_transaction-ok sh id s q in
                  inr (
                    (str_eq_iff decision "reject").0 rejects,
                    ground (arith, get_transaction-pure sh id s),
                    txn_key,
                    is_txn,
                    ground (arith, get_transaction-pure sh id s),
                  )
            ];
          }
        ]
  ]
