-- ===== src/Ledger/Transaction/Contract/Reach.antt =====
-- The ledger as a sequence of committed calls of the transaction contract, and what holds of every
-- ledger that such calls reach. A call that ends with an error commits nothing: Fabric discards the
-- writes of a call that is not endorsed.
use aplikasi_transaksi_kanto.Base.{
  ◌≡◌, ◌≢◌, ◌<◌, ◌+◌, ◌^◌, refl, sym, ap, ◌∙◌, subst, subst₂, none, some, String, [], ◌∷◌,
  str_eq_iff, arith, ℕ, zero, suc, inl, inr,
}
use aplikasi_transaksi_kanto.Base.Int64.{ℤ, pos, succ_int64, succ_int64-pos}
use aplikasi_transaksi_kanto.Base.Format.{sprintf_09d}
use aplikasi_transaksi_kanto.Ledger.Stub.{Shim, ok, update, update_same, update_other, other_type}
use aplikasi_transaksi_kanto.Ledger.Transaction.Contract.{
  TransactionEvent, Doc, transaction, event, marker, create_transaction, record_event, approve,
  advanced,
}
use aplikasi_transaksi_kanto.Ledger.Transaction.Contract.Record.{
  World, get_transaction-ok, check_event-ok, check_linkage-ok, store_event-ok,
  record_event-IsAccepted,
}
use aplikasi_transaksi_kanto.Ledger.Transaction.Contract.Approve.{
  draft, create_transaction-ok, approve-IsApproved,
}
use aplikasi_transaksi_kanto.Ledger.Transaction.Contract.Chain.{
  State, IsTransactionKey, IsEventKey, IsStored, Linked, IsChained, update-IsChained_other,
  update-IsChained_header, update-IsChained_event,
}

pub idempotency_types :
    ◌≢◌ {A = String} "idempotency" "transaction_event"
    × ◌≢◌ {A = String} "idempotency" "transaction"
idempotency_types = (
  ground (arith, str_eq_iff "idempotency" "transaction_event"),
  ground (arith, str_eq_iff "idempotency" "transaction"),
)

pub approval_types :
    ◌≢◌ {A = String} "approval" "transaction_event" × ◌≢◌ {A = String} "approval" "transaction"
approval_types = (
  ground (arith, str_eq_iff "approval" "transaction_event"),
  ground (arith, str_eq_iff "approval" "transaction"),
)

pub event_type_ne : ◌≢◌ {A = String} "transaction_event" "transaction"
event_type_ne = ground (arith, str_eq_iff "transaction_event" "transaction")

module _ (sh : Shim) where
  -- One committed call.
  pub data Step (s t : World sh) : Type 0 where
    create :
        (id org workflow schema by : String)
        → create_transaction sh id org workflow schema by s ≡ (ok tt, t)
        → Step s t
    append : (evt : TransactionEvent) → record_event sh (some evt) s ≡ (ok tt, t) → Step s t
    decide :
        (id : String) (n : ℤ) (by decision policy : String)
        → approve sh id n by decision policy s ≡ (ok tt, t)
        → Step s t

  abbrev pub genesis : World sh
  genesis = record { state = λ k. none; event = none }

  -- The ledger after a number of committed calls.
  pub data Reach : ℕ → World sh → Type 0 where
    start : Reach zero genesis
    next : {n : ℕ} {s t : World sh} → Reach n s → Step s t → Reach (suc n) t

  IsChained-weaken : {c : ℕ} {m : State sh} → IsChained sh c m → IsChained sh (suc c) m
  IsChained-weaken inv = record {
    chain = λ id k txn is_key found.
        let (n, e, le, own, l) = inv.chain id k txn is_key found in (n, e, omega arith, own, l);
  }

  create-IsChained :
      (id o w v c : String) (s : World sh) {t : World sh} {calls : ℕ}
      → IsChained sh calls s.state
      → create_transaction sh id o w v c s ≡ (ok tt, t)
      → IsChained sh calls t.state
  create-IsChained id o w v c s inv h =
      let (key, is_key, _, e) = create_transaction-ok sh id o w v c s h in
      rw e (
        update-IsChained_header sh inv id key (draft id o w v c) is_key
          (0, refl, omega arith, refl, refl))

  approve-IsChained :
      (id : String) (n : ℤ) (by decision policy : String) (s : World sh) {t : World sh} {calls : ℕ}
      → IsChained sh calls s.state
      → approve sh id n by decision policy s ≡ (ok tt, t)
      → IsChained sh calls t.state
  approve-IsChained id n by decision policy s {t} {calls} inv h =
      let a = approve-IsApproved sh id n by decision policy s h in
      let after = λ (d : Doc sh.Key).
        update-IsChained_other sh inv "approval" (id ∷ sprintf_09d n ∷ by ∷ []) a.key d
          approval_types.0 approval_types.1 a.is_key in
      let (k, is_k, found) = get_transaction-ok sh id s a.read in
      let still_found = λ (j : sh.Key) (is_j : IsTransactionKey sh id j) (d : Doc sh.Key).
        let same : k ≡ j = cc in
        update_other sh s.state a.key j d (other_type sh approval_types.1 a.is_key is_j)
        ∙ ap s.state (sym same)
        ∙ found in
      elim a.decided [
        | inl (_, e) ↦ subst (IsChained sh calls) (sym e) (after _)
        | inr (_, _, txn_key, is_txn, e) ↦ subst (IsChained sh calls) (sym e) (
            update-IsChained_header sh (after _) id txn_key (record (a.txn) { status = "REJECTED" })
              is_txn ((after _).chain id txn_key a.txn is_txn (still_found txn_key is_txn _)))
      ]

  record-IsChained :
      (evt : TransactionEvent) (s : World sh) {t : World sh} {calls : ℕ}
      → calls + 1 < 2 ^ 63
      → IsChained sh calls s.state
      → record_event sh (some evt) s ≡ (ok tt, t)
      → IsChained sh (suc calls) t.state
  record-IsChained evt s {t} {calls} room inv h =
      let a = record_event-IsAccepted sh evt s h in
      let id : String = evt.transaction_id in
      let (k, is_k, found) = get_transaction-ok sh id s a.read in
      let (evt_key, txn_key, is_evt, is_txn, e) = store_event-ok sh a.txn evt a.idem s a.stored in
      let (numbered, prev, _) = check_linkage-ok sh a.txn evt s a.linked in
      let (suite, _, classical, pqc) = check_event-ok sh evt s a.checked in
      let (n, latest, le, own, _) = inv.chain id k a.txn is_k found in
      let number : evt.event_sequence ≡ pos (suc n) =
        numbered ∙ ap succ_int64 latest ∙ succ_int64-pos n (omega arith) ∙ ap pos (omega arith) in
      let is_evt' : IsEventKey sh id (pos (suc n)) evt_key =
        subst (λ z. IsEventKey sh id z evt_key) number is_evt in
      let m1 : State sh = update sh s.state evt_key (event evt) in
      let m2 : State sh = update sh m1 a.idem (marker evt_key) in
      let inv1 =
        update-IsChained_event sh inv id evt_key k a.txn n (event evt) is_evt' is_k found latest in
      let inv2 =
        update-IsChained_other sh inv1 "idempotency" (evt.idempotency_key ∷ []) a.idem
          (marker evt_key) idempotency_types.0 idempotency_types.1 a.marked in
      let found2 : m2 txn_key ≡ some (transaction a.txn) =
        update_other sh m1 a.idem txn_key (marker evt_key)
          (other_type sh idempotency_types.1 a.marked is_txn)
        ∙ update_other sh s.state evt_key txn_key (event evt)
            (other_type sh event_type_ne is_evt is_txn)
        ∙ ap s.state (let same : txn_key ≡ k = cc in same)
        ∙ found in
      let (n2, latest2, _, _, l2) = inv2.chain id txn_key a.txn is_txn found2 in
      let same_n : n2 ≡ n = cc in
      let kept : Linked sh m2 id n evt.previous_event_hash =
        subst₂ (Linked sh m2 id) same_n (sym prev) l2 in
      let holds : m2 evt_key ≡ some (event evt) =
        update_other sh m1 a.idem evt_key (marker evt_key)
          (other_type sh idempotency_types.0 a.marked is_evt)
        ∙ update_same sh s.state evt_key (event evt) in
      let stored : IsStored sh m2 id (suc n) evt = record {
        key = evt_key;
        is_key = is_evt';
        holds = holds;
        numbered = number;
        owned = refl;
        suite = suite;
        classical = classical;
        pqc = pqc;
      } in
      subst (λ w. IsChained sh (suc calls) (w.state)) (sym e)
        (update-IsChained_header sh (IsChained-weaken inv2) id txn_key (advanced a.txn evt) is_txn
          (suc n, number, omega arith, own, (evt, stored, refl, kept)))

  Step-IsChained :
      {s t : World sh} {calls : ℕ}
      → calls + 1 < 2 ^ 63
      → IsChained sh calls s.state
      → Step s t
      → IsChained sh (suc calls) t.state
  Step-IsChained {s} room inv (create id o w v c h) =
      IsChained-weaken (create-IsChained id o w v c s inv h)
  Step-IsChained {s} room inv (append evt h) = record-IsChained evt s room inv h
  Step-IsChained {s} room inv (decide id n by decision policy h) =
      IsChained-weaken (approve-IsChained id n by decision policy s inv h)

  -- On every ledger that fewer than 2^63 - 1 calls reach, the header of each transaction carries the
  -- number of its last event and that event's payload hash; events 1 up to that number are all
  -- stored under their keys, signed twice under the hybrid suite, and each names the payload hash of
  -- the event before it.
  pub Reach-IsChained : (n : ℕ) (s : World sh) → Reach n s → n + 1 < 2 ^ 63 → IsChained sh n s.state
  Reach-IsChained n s start room = record { chain = λ id k txn is_key found. absurd (cc) }
  Reach-IsChained (suc n) t (next {s = s} r st) room =
      Step-IsChained (omega arith) (Reach-IsChained n s r (omega arith)) st
