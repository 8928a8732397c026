-- ===== src/Ledger/Transaction/Contract/Once.antt =====
-- What the contract refuses for good: a second event under one idempotency key, a second decision of
-- one approver, a decision of the creator, a second transaction of one id, and a way out of
-- REVOKED or, but for revocation, of the other closed statuses.
use aplikasi_transaksi_kanto.Base.{
  ◌≡◌, ◌≢◌, ◌⊎◌, refl, sym, ap, ◌∙◌, subst, none, some, false, String, str_eq_ne, str_eq, inl, inr,
}
use aplikasi_transaksi_kanto.Base.Int64.{ℤ}
use aplikasi_transaksi_kanto.Ledger.Stub.{Shim, ok, update, update_same}
use aplikasi_transaksi_kanto.Ledger.Transaction.Status.Machine.{
  Move, verify, cancel_draft, endorse, reject_verified, cancel_verified, commit, reject_endorsed,
  settle, reject_committed, supersede, revoke, IsClosed, only_revoked,
}
use aplikasi_transaksi_kanto.Ledger.Transaction.Contract.{
  Transaction, TransactionEvent, Doc, transaction, event, marker, advanced, create_transaction,
  record_event, approve,
}
use aplikasi_transaksi_kanto.Ledger.Transaction.Contract.Record.{
  World, get_transaction-ok, store_event-ok, record_event-IsAccepted,
}
use aplikasi_transaksi_kanto.Ledger.Transaction.Contract.Approve.{
  draft, decision_of, create_transaction-ok, approve-IsApproved,
}
use aplikasi_transaksi_kanto.Ledger.Transaction.Contract.Chain.{State, IsTransactionKey}
use aplikasi_transaksi_kanto.Ledger.Transaction.Contract.Reach.{Step}
use aplikasi_transaksi_kanto.Ledger.Transaction.Contract.Lasting.{
  update-taken, Step-taken, Step-Continues,
}

-- No move starts at REVOKED.
stuck : {a b : String} → Move a b → a ≡ "REVOKED" → ⊥
stuck {a} mv r = from mv
  where
    no_text : (x : String) → str_eq x "REVOKED" ≡ false → a ≡ x → ⊥
    no_text x n q = str_eq_ne x "REVOKED" n (sym q ∙ r)

    from : {b : String} → Move a b → ⊥
    from (verify p _) = no_text "DRAFT" refl p
    from (cancel_draft p _) = no_text "DRAFT" refl p
    from (endorse p _) = no_text "VERIFIED" refl p
    from (reject_verified p _) = no_text "VERIFIED" refl p
    from (cancel_verified p _) = no_text "VERIFIED" refl p
    from (commit p _) = no_text "ENDORSED" refl p
    from (reject_endorsed p _) = no_text "ENDORSED" refl p
    from (settle p _) = no_text "COMMITTED" refl p
    from (reject_committed p _) = no_text "COMMITTED" refl p
    from (supersede p _) = no_text "SETTLED" refl p
    from (revoke n _) = n r

module _ (sh : Shim) where
  -- Any number of committed calls.
  pub data Later (s : World sh) : World sh → Type 0 where
    here : Later s s
    then : {t u : World sh} → Later s t → Step sh t u → Later s u

  Later-taken : {s t : World sh} (j : sh.Key) → s.state j ≢ none → Later s t → t.state j ≢ none
  Later-taken j taken here = taken
  Later-taken j taken (then l st) = Step-taken sh j (Later-taken j taken l) st

  -- After an event has been recorded, whatever calls follow, no event with the same idempotency key
  -- is recorded again.
  pub record_event_once :
      (evt again : TransactionEvent) (s t u v : World sh)
      → record_event sh (some evt) s ≡ (ok tt, t)
      → Later t u
      → again.idempotency_key ≡ evt.idempotency_key
      → record_event sh (some again) u ≢ (ok tt, v)
  record_event_once evt again s t u v first later same second =
      let a = record_event-IsAccepted sh evt s first in
      let b = record_event-IsAccepted sh again u second in
      let (evt_key, txn_key, _, is_txn, e) = store_event-ok sh a.txn evt a.idem s a.stored in
      let m1 : State sh = update sh s.state evt_key (event evt) in
      let m2 : State sh = update sh m1 a.idem (marker evt_key) in
      let marked : m2 a.idem ≢ none = λ q. cc (update_same sh m1 a.idem (marker evt_key)) in
      let still : t.state a.idem ≢ none =
        subst (λ w. w.state a.idem ≢ none) (sym e)
          (update-taken sh m2 a.idem txn_key (transaction (advanced a.txn evt)) marked) in
      let at_b : a.idem ≡ b.idem = cc (a.marked, b.marked) in
      Later-taken a.idem still later (ap (u.state) at_b ∙ b.fresh)

  -- After an approver has decided on an event of a transaction, whatever calls follow, no second
  -- decision of that approver on that event is recorded.
  pub approve_once :
      (id : String) (n : ℤ) (by d1 p1 d2 p2 : String) (s t u v : World sh)
      → approve sh id n by d1 p1 s ≡ (ok tt, t)
      → Later t u
      → approve sh id n by d2 p2 u ≢ (ok tt, v)
  approve_once id n by d1 p1 d2 p2 s t u v first later second =
      let a = approve-IsApproved sh id n by d1 p1 s first in
      let b = approve-IsApproved sh id n by d2 p2 u second in
      let at_b : a.key ≡ b.key = cc (a.is_key, b.is_key) in
      let doc : Doc sh.Key = decision_of id n by d1 p1 in
      let m1 : State sh = update sh s.state a.key doc in
      let written : m1 a.key ≢ none = λ q. cc (update_same sh s.state a.key doc) in
      let still : t.state a.key ≢ none = elim a.decided [
        | inl (_, e) ↦ subst (λ m. m a.key ≢ none) (sym e) written
        | inr (_, _, txn_key, _, e) ↦
            subst (λ m. m a.key ≢ none) (sym e)
              (update-taken sh m1 a.key txn_key
                (transaction (record (a.txn) { status = "REJECTED" })) written)
      ] in
      Later-taken a.key still later (ap (u.state) at_b ∙ b.undecided)

  Later-creator :
      {s t : World sh} {id : String} {k : sh.Key} {txn : Transaction}
      → IsTransactionKey sh id k
      → s.state k ≡ some (transaction txn)
      → Later s t
      → (last : Transaction) × (t.state k ≡ some (transaction last))
        × (last.created_by ≡ txn.created_by)
  Later-creator {txn = txn} is_k found here = (txn, found, refl)
  Later-creator is_k found (then l st) =
      let (mid, at_mid, e) = Later-creator is_k found l in
      let (last, at_last, cont) = Step-Continues sh is_k at_mid st in
      (last, at_last, cont.same_creator ∙ e)

  -- Whatever calls follow its creation, the creator of a transaction never gets a decision on it
  -- recorded, neither for nor against.
  pub creator_never_decides :
      (id org workflow schema by : String) (n : ℤ) (decision policy : String) (s t u v : World sh)
      → create_transaction sh id org workflow schema by s ≡ (ok tt, t)
      → Later t u
      → approve sh id n by decision policy u ≢ (ok tt, v)
  creator_never_decides id org workflow schema by n decision policy s t u v made later decided =
      let (key, is_key, _, e) = create_transaction-ok sh id org workflow schema by s made in
      let a = approve-IsApproved sh id n by decision policy u decided in
      let (k, is_k, found) = get_transaction-ok sh id u a.read in
      let made_header : t.state key ≡ some (transaction (draft id org workflow schema by)) =
        ap (λ m. m key) e
        ∙ update_same sh s.state key (transaction (draft id org workflow schema by)) in
      let (last, at_last, creator) = Later-creator is_key made_header later in
      let same : key ≡ k = cc (is_key, is_k) in
      let same_txn : last ≡ a.txn = cc (ap (u.state) same) in
      a.other_person (sym creator ∙ ap (λ x. x.created_by) same_txn)

  -- After a transaction has been created, whatever calls follow, no second one of its id is created.
  pub create_transaction_once :
      (id o w v c o' w' v' c' : String) (s t u x : World sh)
      → create_transaction sh id o w v c s ≡ (ok tt, t)
      → Later t u
      → create_transaction sh id o' w' v' c' u ≢ (ok tt, x)
  create_transaction_once id o w v c o' w' v' c' s t u x first later second =
      let (k, is_k, _, e) = create_transaction-ok sh id o w v c s first in
      let (k', is_k', free, _) = create_transaction-ok sh id o' w' v' c' u second in
      let same : k ≡ k' = cc in
      Later-taken k
        (λ q. cc (ap (λ m. m k) e, update_same sh s.state k (transaction (draft id o w v c)))) later
        (ap (u.state) same ∙ free)

  Later-revoked :
      {s t : World sh} {id : String} {k : sh.Key} {txn : Transaction}
      → IsTransactionKey sh id k
      → s.state k ≡ some (transaction txn)
      → txn.status ≡ "REVOKED"
      → Later s t
      → (last : Transaction) × (t.state k ≡ some (transaction last)) × (last.status ≡ "REVOKED")
  Later-revoked {txn = txn} is_k found r here = (txn, found, r)
  Later-revoked is_k found r (then l st) =
      let (mid, at_mid, e) = Later-revoked is_k found r l in
      let (last, at_last, cont) = Step-Continues sh is_k at_mid st in
      (last, at_last, elim cont.moved [ inl q ↦ q ∙ e | inr mv ↦ absurd (stuck mv e) ])

  -- A transaction in status REVOKED stays in it, whatever calls follow.
  pub revoked_stays :
      {id : String} (k : sh.Key) (txn last : Transaction) (s t : World sh)
      → IsTransactionKey sh id k
      → s.state k ≡ some (transaction txn)
      → txn.status ≡ "REVOKED"
      → Later s t
      → t.state k ≡ some (transaction last)
      → last.status ≡ "REVOKED"
  revoked_stays k txn last s t is_k found r later at_t =
      let (x, at_x, e) = Later-revoked is_k found r later in
      let same : x ≡ last = cc in ap (λ y. y.status) (sym same) ∙ e

  Later-closed :
      {s t : World sh} {id : String} {k : sh.Key} {txn : Transaction}
      → IsTransactionKey sh id k
      → s.state k ≡ some (transaction txn)
      → IsClosed txn.status
      → Later s t
      → (last : Transaction) × (t.state k ≡ some (transaction last))
        × ((last.status ≡ txn.status) ⊎ (last.status ≡ "REVOKED"))
  Later-closed {txn = txn} is_k found c here = (txn, found, inl refl)
  Later-closed {txn = txn} is_k found c (then l st) =
      let (mid, at_mid, e) = Later-closed is_k found c l in
      let (last, at_last, cont) = Step-Continues sh is_k at_mid st in
      (
        last,
        at_last,
        elim cont.moved [
          | inl q ↦ elim e [ inl same ↦ inl (q ∙ same) | inr r ↦ inr (q ∙ r) ]
          | inr mv ↦ elim e [
            | inl same ↦ inr (only_revoked (subst IsClosed (sym same) c) mv)
            | inr r ↦ absurd (stuck mv r)
          ]
        ],
      )

  -- A transaction in status CANCELLED, REJECTED or SUPERSEDED, whatever calls follow, stays in it or is
  -- REVOKED.
  pub closed_stays :
      {id : String} (k : sh.Key) (txn last : Transaction) (s t : World sh)
      → IsTransactionKey sh id k
      → s.state k ≡ some (transaction txn)
      → IsClosed txn.status
      → Later s t
      → t.state k ≡ some (transaction last)
      → (last.status ≡ txn.status) ⊎ (last.status ≡ "REVOKED")
  closed_stays k txn last s t is_k found c later at_t =
      let (other, at_t', e) = Later-closed is_k found c later in
      let same : other ≡ last = cc in
      subst (λ x. (x.status ≡ txn.status) ⊎ (x.status ≡ "REVOKED")) same e
