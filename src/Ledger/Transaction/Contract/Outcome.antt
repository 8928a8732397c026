-- ===== src/Ledger/Transaction/Contract/Outcome.antt =====
-- When RecordEvent accepts an event, and that a refused call has written nothing.
use aplikasi_transaksi_kanto.Base.{
  ◌≡◌, ◌≢◌, ◌⊎◌, ◌<◌, Option, none, some, true, [], ◌∷◌, str_eq_iff, arith, inl, inr, Option-cases,
  length,
}
use aplikasi_transaksi_kanto.Base.Int64.{succ_int64, eqb_ℤ_iff}
use aplikasi_transaksi_kanto.Base.Format.{sprintf_09d}
use aplikasi_transaksi_kanto.Ledger.Stub.{
  Shim, ok, err, put_state, set_event, get_state, call-cases,
}
use aplikasi_transaksi_kanto.Ledger.Transaction.Status.{is_transition_allowed}
use aplikasi_transaksi_kanto.Ledger.Transaction.Contract.{
  Transaction, TransactionEvent, Error, transaction, record_event, store_event, check_event,
  get_transaction, check_linkage, event_key, transaction_key, idempotency_key,
  allowed_algorithm_suite,
}
use aplikasi_transaksi_kanto.Ledger.Transaction.Contract.Record.{
  World, recorded, get_transaction-ok, check_event-pure, check_linkage-pure, get_transaction-pure,
}
use aplikasi_transaksi_kanto.Ledger.Transaction.Contract.Chain.{IsTransactionKey, IsEventKey}

module _ (sh : Shim) where
  store_event_refused :
      (txn : Transaction) (evt : TransactionEvent) (idem k : sh.Key) (s : World sh) {e : Error}
      {t : World sh}
      → ((j : sh.Key) → sh.writes j ≡ true)
      → IsTransactionKey sh evt.transaction_id k
      → store_event sh txn evt idem s ≡ (err e, t)
      → t ≡ s
  unfolding store_event event_key transaction_key put_state set_event
  store_event_refused txn evt idem k s writes is_k h =
      elim (Option-cases (
        sh.create_composite_key "transaction_event"
          (evt.transaction_id ∷ sprintf_09d evt.event_sequence ∷ []))) [
            | inl bad ↦ ground arith
            | inr (evt_key, q) ↦ absurd (ground (arith, writes evt_key, writes idem, writes k))
          ]

  -- While the peer takes every write, a RecordEvent that ends with an error, whichever it is, leaves
  -- world state and the chaincode event as they were.
  pub record_event_refused :
      (payload : Option TransactionEvent) (s : World sh) {e : Error} {t : World sh}
      → ((j : sh.Key) → sh.writes j ≡ true)
      → record_event sh payload s ≡ (err e, t)
      → t ≡ s
  unfolding record_event idempotency_key get_state
  record_event_refused none s writes h = ground arith
  record_event_refused (some evt) s {e} {t} writes h = elim (call-cases (check_event sh evt s)) [
    | inr (_, s1, q) ↦ ground (arith, check_event-pure sh evt s)
    | inl (_, s1, q) ↦ elim (call-cases (get_transaction sh evt.transaction_id s)) [
      | inr (_, s2, q2) ↦
          ground (arith, check_event-pure sh evt s, get_transaction-pure sh evt.transaction_id s)
      | inl (txn, s2, q2) ↦
          let (k, is_k, _) = get_transaction-ok sh evt.transaction_id s q2 in
          elim (Option-cases (sh.create_composite_key "idempotency" (evt.idempotency_key ∷ []))) [
            | inl bad ↦ ground (
              arith,
              check_event-pure sh evt s,
              get_transaction-pure sh evt.transaction_id s,
              check_linkage-pure sh txn evt s,
            )
            | inr (idem, q3) ↦
                let stored = store_event_refused txn evt idem k s {e = e} {t = t} writes is_k in
                ground (
                  arith,
                  stored,
                  check_event-pure sh evt s,
                  get_transaction-pure sh evt.transaction_id s,
                  check_linkage-pure sh txn evt s,
                )
          ]
    ]
  ]

  -- What RecordEvent asks of an event, of the header it finds and of the peer.
  pub record IsAcceptable (evt : TransactionEvent) (txn : Transaction) (k evt_key idem : sh.Key)
      (s : World sh) : Type 0 where
    pub has_id : evt.transaction_id ≢ ""
    pub has_idempotency_key : evt.idempotency_key ≢ ""
    pub suite : evt.algorithm_suite ≡ allowed_algorithm_suite
    pub classical : 0 < length evt.classical_signature
    pub pqc : 0 < length evt.pqc_signature
    pub is_key : IsTransactionKey sh evt.transaction_id k
    pub found : s.state k ≡ some (transaction txn)
    pub allowed : (evt.new_status ≡ "") ⊎ (is_transition_allowed txn.status evt.new_status ≡ true)
    pub next : evt.event_sequence ≡ succ_int64 txn.latest_event_sequence
    pub linked : evt.previous_event_hash ≡ txn.latest_event_payload_hash
    pub is_marker : sh.create_composite_key "idempotency" (evt.idempotency_key ∷ []) ≡ some idem
    pub fresh : s.state idem ≡ none
    pub is_event : IsEventKey sh evt.transaction_id evt.event_sequence evt_key
    pub reads : (sh.reads k ≡ true) × (sh.reads idem ≡ true)
    pub writes : (sh.writes evt_key ≡ true) × (sh.writes idem ≡ true) × (sh.writes k ≡ true)

  -- An event that meets every condition is recorded: the event, its marker and the advanced header
  -- are written, and the event is emitted.
  pub record_event_accepted :
      (evt : TransactionEvent) (txn : Transaction) (k evt_key idem : sh.Key) (s : World sh)
      → IsAcceptable evt txn k evt_key idem s
      → record_event sh (some evt) s ≡ (ok tt, recorded sh s txn evt evt_key idem k)
  unfolding record_event check_event get_transaction check_linkage store_event event_key
      transaction_key idempotency_key get_state put_state set_event
  record_event_accepted evt txn k evt_key idem s a = ground (
    arith,
    str_eq_iff evt.transaction_id "",
    str_eq_iff evt.idempotency_key "",
    str_eq_iff evt.algorithm_suite allowed_algorithm_suite,
    str_eq_iff evt.new_status "",
    eqb_ℤ_iff evt.event_sequence (succ_int64 txn.latest_event_sequence),
    str_eq_iff evt.previous_event_hash txn.latest_event_payload_hash,
  )
