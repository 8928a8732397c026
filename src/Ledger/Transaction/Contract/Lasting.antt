-- ===== src/Ledger/Transaction/Contract/Lasting.antt =====
-- What a committed call leaves of the world state before it: no key is freed, and a header keeps
-- its identity and moves only along the status machine.
use aplikasi_transaksi_kanto.Base.{
  ◌≡◌, ◌≢◌, ◌⊎◌, refl, sym, ◌∙◌, subst, none, some, true, String, str_eq, str_eq_iff, str_eq_ne,
  Bool-cases, inl, inr,
}
use aplikasi_transaksi_kanto.Ledger.Stub.{
  Shim, update, update_same, update_other, other_type, other_attributes,
}
use aplikasi_transaksi_kanto.Ledger.Transaction.Status.{is_transition_allowed}
use aplikasi_transaksi_kanto.Ledger.Transaction.Status.Machine.{
  Move, is_transition_allowed-iff-Move,
}
use aplikasi_transaksi_kanto.Ledger.Transaction.Contract.{
  Transaction, TransactionEvent, Doc, transaction, event, marker, advanced,
}
use aplikasi_transaksi_kanto.Ledger.Transaction.Contract.Record.{
  World, get_transaction-ok, check_linkage-ok, store_event-ok, record_event-IsAccepted,
}
use aplikasi_transaksi_kanto.Ledger.Transaction.Contract.Approve.{
  draft, decision_of, create_transaction-ok, approve-IsApproved,
}
use aplikasi_transaksi_kanto.Ledger.Transaction.Contract.Chain.{State, IsTransactionKey}
use aplikasi_transaksi_kanto.Ledger.Transaction.Contract.Reach.{
  Step, create, append, decide, idempotency_types, approval_types, event_type_ne,
}

module _ (sh : Shim) where
  pub update-taken :
      (m : State sh) (j k : sh.Key) (d : Doc sh.Key) → m j ≢ none → update sh m k d j ≢ none
  update-taken m j k d taken = elim (Bool-cases (sh.same_key k j)) [
    | inl same ↦ rw same (λ e. cc)
    | inr other ↦ rw other taken
  ]

  -- No call frees a key.
  pub Step-taken : {s t : World sh} (j : sh.Key) → s.state j ≢ none → Step sh s t → t.state j ≢ none
  Step-taken {s} j taken (create id o w v c h) =
      let (key, _, _, e) = create_transaction-ok sh id o w v c s h in
      rw e (update-taken s.state j key _ taken)
  Step-taken {s} {t} j taken (append evt h) =
      let a = record_event-IsAccepted sh evt s h in
      let (evt_key, txn_key, _, _, e) = store_event-ok sh a.txn evt a.idem s a.stored in
      let m1 : State sh = update sh s.state evt_key (event evt) in
      let m2 : State sh = update sh m1 a.idem (marker evt_key) in
      subst (λ w. w.state j ≢ none) (sym e)
        (update-taken m2 j txn_key (transaction (advanced a.txn evt)) (
          update-taken m1 j a.idem (marker evt_key)
            (update-taken s.state j evt_key (event evt) taken)))
  Step-taken {s} {t} j taken (decide id n by decision policy h) =
      let a = approve-IsApproved sh id n by decision policy s h in
      let doc : Doc sh.Key = decision_of id n by decision policy in
      let after = update-taken s.state j a.key doc taken in
      elim a.decided [
        | inl (_, e) ↦ subst (λ m. m j ≢ none) (sym e) after
        | inr (_, _, txn_key, _, e) ↦
            subst (λ m. m j ≢ none) (sym e)
              (update-taken (update sh s.state a.key doc) j txn_key
                (transaction (record (a.txn) { status = "REJECTED" })) after)
      ]

  -- The later header is of the same transaction, and its status is the same or one move further.
  pub record Continues (old new : Transaction) : Type 0 where
    pub same_id : new.id ≡ old.id
    pub same_creator : new.created_by ≡ old.created_by
    pub same_organization : new.organization_id ≡ old.organization_id
    pub same_workflow : new.workflow_type ≡ old.workflow_type
    pub same_schema : new.schema_version ≡ old.schema_version
    pub moved : (new.status ≡ old.status) ⊎ Move old.status new.status

  Continues-refl : (txn : Transaction) → Continues txn txn
  Continues-refl txn = record {
    same_id = refl;
    same_creator = refl;
    same_organization = refl;
    same_workflow = refl;
    same_schema = refl;
    moved = inl refl;
  }

  advanced-Continues :
      (txn : Transaction) (evt : TransactionEvent)
      → (evt.new_status ≡ "") ⊎ (is_transition_allowed txn.status evt.new_status ≡ true)
      → Continues txn (advanced txn evt)
  advanced-Continues txn evt allowed = record {
    same_id = refl;
    same_creator = refl;
    same_organization = refl;
    same_workflow = refl;
    same_schema = refl;
    moved = elim (Bool-cases (str_eq evt.new_status "")) [
      | inl kept ↦ inl (rw kept)
      | inr changed ↦ inr (
          rw changed (elim allowed [
            | inl e ↦ absurd (str_eq_ne evt.new_status "" changed e)
            | inr a ↦ (is_transition_allowed-iff-Move txn.status evt.new_status).0 a
          ]))
    ];
  }

  rejected-Continues :
      (txn : Transaction)
      → is_transition_allowed txn.status "REJECTED" ≡ true
      → Continues txn (record txn { status = "REJECTED" })
  rejected-Continues txn allowed = record {
    same_id = refl;
    same_creator = refl;
    same_organization = refl;
    same_workflow = refl;
    same_schema = refl;
    moved = inr ((is_transition_allowed-iff-Move txn.status "REJECTED").0 allowed);
  }

  abbrev HasHeader : State sh → sh.Key → Transaction → Type 0
  HasHeader m k txn = m k ≡ some (transaction txn)

  -- A write of the header of `id`, seen at the key of `other_id`.
  header-update :
      (m : State sh) {id id' : String} {k k' : sh.Key} {txn : Transaction} (new : Transaction)
      → IsTransactionKey sh id k
      → IsTransactionKey sh id' k'
      → HasHeader m k txn
      → (id ≡ id' → Continues txn new)
      → (later : Transaction) × HasHeader (update sh m k' (transaction new)) k later
        × Continues txn later
  header-update m {id} {id'} {k} {k'} {txn} new is_k is_k' found continues =
      elim (Bool-cases (str_eq id' id)) [
        | inl same ↦
            let p : id' ≡ id = (str_eq_iff id' id).0 same in
            let at_k : k' ≡ k = cc in
            (
              new,
              subst (λ j. HasHeader (update sh m k' (transaction new)) j new) at_k
                  (update_same sh m k' (transaction new)),
              continues (sym p),
            )
        | inr other ↦ (
          txn,
          update_other sh m k' k (transaction new)
                (other_attributes sh (λ q. str_eq_ne id' id other (cc q)) is_k' is_k)
              ∙ found,
          Continues-refl txn,
        )
      ]

  -- The header of a transaction lasts: it keeps its identity, its creator and its kind, and its
  -- status stays or makes one allowed move.
  pub Step-Continues :
      {s t : World sh} {id : String} {k : sh.Key} {txn : Transaction}
      → IsTransactionKey sh id k
      → s.state k ≡ some (transaction txn)
      → Step sh s t
      → (later : Transaction) × (t.state k ≡ some (transaction later)) × Continues txn later
  Step-Continues {s} {t} {id} {k} {txn} is_k found (create id' o w v c h) =
      let (key, is_key, free, e) = create_transaction-ok sh id' o w v c s h in
      let (later, at_k, cont) =
        header-update s.state (draft id' o w v c) is_k is_key found
          (λ p. let same : k ≡ key = cc in absurd (cc)) in
      (later, rw e at_k, cont)
  Step-Continues {s} {t} {id} {k} {txn} is_k found (append evt h) =
      let a = record_event-IsAccepted sh evt s h in
      let (k', is_k', found') = get_transaction-ok sh evt.transaction_id s a.read in
      let (evt_key, txn_key, is_evt, is_txn, e) = store_event-ok sh a.txn evt a.idem s a.stored in
      let (_, _, allowed) = check_linkage-ok sh a.txn evt s a.linked in
      let m1 : State sh = update sh s.state evt_key (event evt) in
      let m2 : State sh = update sh m1 a.idem (marker evt_key) in
      let found2 : HasHeader m2 k txn =
        update_other sh m1 a.idem k (marker evt_key)
          (other_type sh idempotency_types.1 a.marked is_k)
        ∙ update_other sh s.state evt_key k (event evt) (other_type sh event_type_ne is_evt is_k)
        ∙ found in
      let (later, at_k, cont) = header-update m2 (advanced a.txn evt) is_k is_txn found2 (λ p.
        let same : k ≡ k' = cc in
        let same_txn : txn ≡ a.txn = cc in
        subst (λ x. Continues x (advanced a.txn evt)) (sym same_txn)
          (advanced-Continues a.txn evt allowed)) in
      (later, subst (λ w. HasHeader (w.state) k later) (sym e) at_k, cont)
  Step-Continues {s} {t} {id} {k} {txn} is_k found (decide id' n by decision policy h) =
      let a = approve-IsApproved sh id' n by decision policy s h in
      let (k', is_k', found') = get_transaction-ok sh id' s a.read in
      let doc : Doc sh.Key = decision_of id' n by decision policy in
      let found2 : HasHeader (update sh s.state a.key doc) k txn =
        update_other sh s.state a.key k doc (other_type sh approval_types.1 a.is_key is_k)
        ∙ found in
      elim a.decided [
        | inl (_, e) ↦ (txn, subst (λ m. HasHeader m k txn) (sym e) found2, Continues-refl txn)
        | inr (_, allowed, txn_key, is_txn, e) ↦
            let (later, at_k, cont) =
              header-update (update sh s.state a.key doc) (record (a.txn) { status = "REJECTED" })
                is_k is_txn found2
                (λ p.
                  let same : k ≡ k' = cc in
                  let same_txn : txn ≡ a.txn = cc in
                  subst (λ x. Continues x (record (a.txn) { status = "REJECTED" })) (sym same_txn)
                    (rejected-Continues a.txn allowed)) in
            (later, subst (λ m. HasHeader m k later) (sym e) at_k, cont)
      ]
