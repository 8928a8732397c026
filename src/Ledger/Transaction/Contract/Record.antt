-- ===== src/Ledger/Transaction/Contract/Record.antt =====
-- What an accepted RecordEvent has checked, and the stub that it leaves.
use aplikasi_transaksi_kanto.Base.{
  ◌≡◌, ◌≢◌, ◌⊎◌, ◌<◌, true, none, some, String, [], ◌∷◌, str_eq_iff, length, arith, inl, inr,
  Option-cases,
}
use aplikasi_transaksi_kanto.Base.Int64.{succ_int64, eqb_ℤ_iff}
use aplikasi_transaksi_kanto.Base.Format.{sprintf_09d}
use aplikasi_transaksi_kanto.Ledger.Stub.{
  Shim, Stub, ok, update, set_event, get_state, put_state, call-cases,
}
use aplikasi_transaksi_kanto.Ledger.Transaction.Status.{is_transition_allowed}
use aplikasi_transaksi_kanto.Ledger.Transaction.Contract.{
  Transaction, TransactionEvent, Doc, transaction, event, marker, allowed_algorithm_suite,
  transaction_key, event_key, idempotency_key, get_transaction, check_event, check_linkage,
  advanced, store_event, record_event,
}

module _ (sh : Shim) where
  abbrev pub World : Type 0
  World = Stub sh.Key (Doc sh.Key)

  -- The reading steps leave the stub alone, whether they end well or not.
  pub check_event-pure : (evt : TransactionEvent) (s : World) → (check_event sh evt s).1 ≡ s
  unfolding check_event
  check_event-pure evt s = ground arith

  pub check_linkage-pure :
      (txn : Transaction) (evt : TransactionEvent) (s : World) → (check_linkage sh txn evt s).1 ≡ s
  unfolding check_linkage
  check_linkage-pure txn evt s = ground arith

  pub get_transaction-pure : (id : String) (s : World) → (get_transaction sh id s).1 ≡ s
  unfolding get_transaction transaction_key get_state
  get_transaction-pure id s = ground arith

  pub get_transaction-ok :
      (id : String) (s : World) {txn : Transaction} {t : World}
      → get_transaction sh id s ≡ (ok txn, t)
      → (key : sh.Key) × (sh.create_composite_key "transaction" (id ∷ []) ≡ some key)
        × (s.state key ≡ some (transaction txn))
  unfolding get_transaction transaction_key get_state
  get_transaction-ok id s h =
      elim (Option-cases (sh.create_composite_key "transaction" (id ∷ []))) [
        | inl bad ↦ absurd (ground arith)
        | inr (key, e) ↦ (key, e, ground arith)
      ]

  pub check_event-ok :
      (evt : TransactionEvent) (s : World) {t : World}
      → check_event sh evt s ≡ (ok tt, t)
      → (evt.algorithm_suite ≡ allowed_algorithm_suite)
        × (evt.idempotency_key ≢ "")
        × (0 < length evt.classical_signature)
        × (0 < length evt.pqc_signature)
  unfolding check_event
  check_event-ok evt s h = ground (
    arith,
    str_eq_iff evt.algorithm_suite allowed_algorithm_suite,
    str_eq_iff evt.idempotency_key "",
  )

  pub check_linkage-ok :
      (txn : Transaction) (evt : TransactionEvent) (s : World) {t : World}
      → check_linkage sh txn evt s ≡ (ok tt, t)
      → (evt.event_sequence ≡ succ_int64 txn.latest_event_sequence)
        × (evt.previous_event_hash ≡ txn.latest_event_payload_hash)
        × ((evt.new_status ≡ "") ⊎ (is_transition_allowed txn.status evt.new_status ≡ true))
  unfolding check_linkage
  check_linkage-ok txn evt s h = ground (
    arith,
    eqb_ℤ_iff evt.event_sequence (succ_int64 txn.latest_event_sequence),
    str_eq_iff evt.previous_event_hash txn.latest_event_payload_hash,
    str_eq_iff evt.new_status "",
  )

  -- World state after the three writes of RecordEvent.
  abbrev pub recorded : World → Transaction → TransactionEvent → sh.Key → sh.Key → sh.Key → World
  recorded s txn evt evt_key idem txn_key = record {
    state =
        update sh (update sh (update sh s.state evt_key (event evt)) idem (marker evt_key)) txn_key
          (transaction (advanced txn evt));
    event = some ("TransactionEventRecorded", event evt);
  }

  pub store_event-ok :
      (txn : Transaction) (evt : TransactionEvent) (idem : sh.Key) (s : World) {t : World}
      → store_event sh txn evt idem s ≡ (ok tt, t)
      → (evt_key : sh.Key) × (txn_key : sh.Key) × (sh.create_composite_key "transaction_event"
            (evt.transaction_id ∷ sprintf_09d evt.event_sequence ∷ [])
          ≡ some evt_key)
        × (sh.create_composite_key "transaction" (evt.transaction_id ∷ []) ≡ some txn_key)
        × (t ≡ recorded s txn evt evt_key idem txn_key)
  unfolding store_event event_key transaction_key put_state set_event
  store_event-ok txn evt idem s h =
      elim (Option-cases (
        sh.create_composite_key "transaction_event"
          (evt.transaction_id ∷ sprintf_09d evt.event_sequence ∷ []))) [
            | inl bad ↦ absurd (ground arith)
            | inr (evt_key, e) ↦
                elim (Option-cases
                  (sh.create_composite_key "transaction" (evt.transaction_id ∷ []))) [
                    | inl bad ↦ absurd (ground arith)
                    | inr (txn_key, e2) ↦ (evt_key, txn_key, e, e2, ground arith)
                  ]
          ]

  -- Everything that an accepted event went through, with the header that it was checked against.
  pub record IsAccepted (evt : TransactionEvent) (s t : World) : Type 0 where
    pub txn : Transaction
    pub idem : sh.Key
    pub checked : check_event sh evt s ≡ (ok tt, s)
    pub read : get_transaction sh evt.transaction_id s ≡ (ok txn, s)
    pub linked : check_linkage sh txn evt s ≡ (ok tt, s)
    pub marked : sh.create_composite_key "idempotency" (evt.idempotency_key ∷ []) ≡ some idem
    pub fresh : s.state idem ≡ none
    pub stored : store_event sh txn evt idem s ≡ (ok tt, t)

  pub record_event-IsAccepted :
      (evt : TransactionEvent) (s : World) {t : World}
      → record_event sh (some evt) s ≡ (ok tt, t)
      → IsAccepted evt s t
  unfolding record_event idempotency_key get_state
  record_event-IsAccepted evt s h = elim (call-cases (check_event sh evt s)) [
    | inr (e, s1, q) ↦ absurd (ground arith)
    | inl (u, s1, q) ↦ elim (call-cases (get_transaction sh evt.transaction_id s)) [
      | inr (e, s2, q2) ↦ absurd (ground (arith, check_event-pure evt s))
      | inl (txn, s2, q2) ↦
          elim (Option-cases (sh.create_composite_key "idempotency" (evt.idempotency_key ∷ []))) [
            | inl bad ↦ absurd (
                ground (
                  arith,
                  check_event-pure evt s,
                  get_transaction-pure evt.transaction_id s,
                  check_linkage-pure txn evt s,
                ))
            | inr (idem, q3) ↦ record {
              txn = txn;
              idem = idem;
              checked = cc (check_event-pure evt s);
              read = cc (get_transaction-pure evt.transaction_id s);
              linked = ground (
                arith,
                check_event-pure evt s,
                get_transaction-pure evt.transaction_id s,
                check_linkage-pure txn evt s,
              );
              marked = q3;
              fresh = ground (
                arith,
                check_event-pure evt s,
                get_transaction-pure evt.transaction_id s,
                check_linkage-pure txn evt s,
              );
              stored = ground (
                arith,
                check_event-pure evt s,
                get_transaction-pure evt.transaction_id s,
                check_linkage-pure txn evt s,
              );
            }
          ]
    ]
  ]
