-- ===== src/Ledger/Transaction/Contract/Accept.antt =====
-- When CreateTransaction and an approving Approve are accepted, and the stub they then leave.
use aplikasi_transaksi_kanto.Base.{◌≡◌, ◌≢◌, String, true, none, some, [], ◌∷◌, str_eq_iff, arith}
use aplikasi_transaksi_kanto.Base.Int64.{ℤ}
use aplikasi_transaksi_kanto.Base.Format.{sprintf_09d}
use aplikasi_transaksi_kanto.Ledger.Stub.{Shim, ok, update, set_event, get_state, put_state}
use aplikasi_transaksi_kanto.Ledger.Transaction.Contract.{
  Transaction, transaction, transaction_key, approval_key, create_transaction, get_transaction,
  approve,
}
use aplikasi_transaksi_kanto.Ledger.Transaction.Contract.Record.{World}
use aplikasi_transaksi_kanto.Ledger.Transaction.Contract.Approve.{draft, decision_of}
use aplikasi_transaksi_kanto.Ledger.Transaction.Contract.Chain.{IsTransactionKey}

module _ (sh : Shim) where
  -- World state and event after an accepted CreateTransaction.
  abbrev pub created : World sh → Transaction → sh.Key → World sh
  created s txn k = record {
    state = update sh s.state k (transaction txn);
    event = some ("TransactionCreated", transaction txn);
  }

  pub create_transaction_accepted :
      (id o w v c : String) (k : sh.Key) (s : World sh)
      → id ≢ ""
      → IsTransactionKey sh id k
      → s.state k ≡ none
      → sh.reads k ≡ true
      → sh.writes k ≡ true
      → create_transaction sh id o w v c s ≡ (ok tt, created s (draft id o w v c) k)
  unfolding create_transaction transaction_key get_state put_state set_event
  create_transaction_accepted id o w v c k s ne is_k free reads writes =
      ground (arith, str_eq_iff id "")

  -- World state and event after an accepted approval.
  abbrev pub approved : World sh → String → ℤ → String → String → sh.Key → World sh
  approved s id n by policy k = record {
    state = update sh s.state k (decision_of id n by "approve" policy);
    event = some ("ApprovalRecorded", decision_of id n by "approve" policy);
  }

  pub approve_accepted :
      (id : String) (n : ℤ) (by policy : String) (txn : Transaction) (txn_key key : sh.Key)
      (s : World sh)
      → IsTransactionKey sh id txn_key
      → s.state txn_key ≡ some (transaction txn)
      → by ≢ txn.created_by
      → sh.create_composite_key "approval" (id ∷ sprintf_09d n ∷ by ∷ []) ≡ some key
      → s.state key ≡ none
      → (sh.reads txn_key ≡ true) × (sh.reads key ≡ true)
      → sh.writes key ≡ true
      → approve sh id n by "approve" policy s ≡ (ok tt, approved s id n by policy key)
  unfolding approve get_transaction transaction_key approval_key get_state put_state set_event
  approve_accepted id n by policy txn txn_key key s is_txn found other is_key free reads writes =
      ground (arith, str_eq_iff by txn.created_by)
