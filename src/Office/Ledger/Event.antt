-- ===== src/Office/Ledger/Event.antt =====
-- An appended event on a ledger that mirrors the database.
use aplikasi_transaksi_kanto.Base.{
  ℕ, ◌+◌, ◌≡◌, ◌≢◌, ◌⊎◌, ◌<◌, ◌^◌, inl, inr, sym, ap, ◌∙◌, refl, true, false, none, some, Option,
  String, List, [], ◌∷◌, arith, length, str_eq, str_eq_iff, str_eq_ne, Bool-cases,
}
use aplikasi_transaksi_kanto.Base.Int64.{pos, succ_int64, succ_int64-pos}
use aplikasi_transaksi_kanto.Base.Format.{sprintf_09d}
use aplikasi_transaksi_kanto.Store.Dict.{
  Dict, lookup, insert, lookup-insert, lookup-insert_self, lookup-insert_ne,
}
use aplikasi_transaksi_kanto.Ledger.Stub.{Shim, ok, other_attributes}
use aplikasi_transaksi_kanto.Ledger.Transaction.Status.{is_transition_allowed}
use aplikasi_transaksi_kanto.Ledger.Transaction.Status.Machine.{
  Move, is_transition_allowed-iff-Move,
}
use aplikasi_transaksi_kanto.Ledger.Transaction.Contract.{
  Transaction, TransactionEvent, allowed_algorithm_suite, advanced,
}
use aplikasi_transaksi_kanto.Ledger.Transaction.Contract.Record.{World, recorded}
use aplikasi_transaksi_kanto.Ledger.Transaction.Contract.Chain.{IsTransactionKey, IsEventKey}
use aplikasi_transaksi_kanto.Ledger.Transaction.Contract.Outcome.{
  IsAcceptable, record_event_accepted,
}
use aplikasi_transaksi_kanto.Office.Types.{Queued, TransactionRow, EventRow}
use aplikasi_transaksi_kanto.Office.Events.{
  last_event, next_sequence, previous_hash, has_key, chaincode_event, with_status,
}
use aplikasi_transaksi_kanto.Office.Events.Laws.{last_event_new, last_event_other, has_key_cons}
use aplikasi_transaksi_kanto.Office.Ledger.{
  last_number, IsUndecided, IsServing, other_kind, invoke, IsMarkerKey, IsApprovalKey, IsHeader,
  Mirrors,
}

-- A row that appendTransactionEvent may write next.
pub record IsNext (events : List EventRow) (e : EventRow) : Type 0 where
  pub number : e.event_sequence ≡ next_sequence (last_event e.transaction_id events)
  pub linked : e.previous_event_hash ≡ previous_hash (last_event e.transaction_id events)
  pub small : e.event_sequence < 2 ^ 31
  pub keyed : e.idempotency_key ≢ ""
  pub fresh : has_key e.idempotency_key events ≡ false
  pub suite : e.algorithm_suite ≡ allowed_algorithm_suite
  pub classical : 0 < length e.classical_signature
  pub pqc : 0 < length e.pqc_signature

next_sequence-last_number : (last : Option EventRow) → next_sequence last ≡ last_number last + 1
next_sequence-last_number none = refl
next_sequence-last_number (some e) = omega arith

pub lookup-insert-none :
    (k j : String) (v : TransactionRow) (rows : Dict TransactionRow)
    → lookup j (insert k v rows) ≡ none
    → (k ≢ j) × (lookup j rows ≡ none)
lookup-insert-none k j v rows h = (
  ground (arith, lookup-insert k j v rows, str_eq_iff k j),
  ground (arith, lookup-insert k j v rows, str_eq_iff k j),
)

module _ (sh : Shim) where
  -- RecordEvent writes at three keys only.
  recorded_other :
      (s : World sh) (txn : Transaction) (evt : TransactionEvent) (a b c j : sh.Key)
      → a ≢ j
      → b ≢ j
      → c ≢ j
      → (recorded sh s txn evt a b c).state j ≡ s.state j
  recorded_other s txn evt a b c j na nb nc =
      ground (arith, sh.same_key_iff a j, sh.same_key_iff b j, sh.same_key_iff c j)

  acceptable :
      IsServing sh
      → (events : List EventRow) (w : World sh) (e : EventRow) (row : TransactionRow)
        (new_status : String)
      → (k evt_key idem : sh.Key) → e.transaction_id ≢ ""
      → IsNext events e
      → (h : IsHeader sh row (last_event e.transaction_id events) k w)
      → ((new_status ≡ "") ⊎ (is_transition_allowed row.status new_status ≡ true))
      → IsTransactionKey sh e.transaction_id k
      → IsEventKey sh e.transaction_id (pos e.event_sequence) evt_key
      → IsMarkerKey sh e.idempotency_key idem
      → w.state idem ≡ none
      → IsAcceptable sh (chaincode_event e new_status) h.txn k evt_key idem w
  acceptable serving events w e row new_status k evt_key idem named next h allowed is_k is_evt
        is_idem free =
      let last = last_event e.transaction_id events in
      let number : e.event_sequence ≡ last_number last + 1 =
        next.number ∙ next_sequence-last_number last in
      record {
        has_id = named;
        has_idempotency_key = next.keyed;
        suite = next.suite;
        classical = next.classical;
        pqc = next.pqc;
        is_key = is_k;
        found = h.holds;
        allowed = rw h.status allowed;
        next =
            ap pos number
            ∙ sym (succ_int64-pos (last_number last) (omega (arith, number, next.small)))
            ∙ ap succ_int64 (sym h.number);
        linked = next.linked ∙ sym h.hash;
        is_marker = is_idem;
        fresh = free;
        is_event = is_evt;
        reads = (serving.reads k, serving.reads idem);
        writes = (serving.writes evt_key, serving.writes idem, serving.writes k);
      }

  -- World state after the event, at every key that the event does not write.
  kept :
      (w : World sh) (txn : Transaction) (evt : TransactionEvent) {evt_key idem k : sh.Key}
      → IsEventKey sh evt.transaction_id evt.event_sequence evt_key
      → IsMarkerKey sh evt.idempotency_key idem
      → IsTransactionKey sh evt.transaction_id k
      → ((id : String) (j : sh.Key)
          → evt.transaction_id ≢ id
          → IsTransactionKey sh id j
          → (recorded sh w txn evt evt_key idem k).state j ≡ w.state j)
        × ((key : String) (j : sh.Key)
            → evt.idempotency_key ≢ key
            → IsMarkerKey sh key j
            → (recorded sh w txn evt evt_key idem k).state j ≡ w.state j)
        × ((id : String) (n : ℕ) (by : String) (j : sh.Key)
            → IsApprovalKey sh id n by j
            → (recorded sh w txn evt evt_key idem k).state j ≡ w.state j)
  kept w txn evt {evt_key} {idem} {k} is_evt is_idem is_k = (
    λ id j ne is_j.
        recorded_other w txn evt evt_key idem k j
          (other_kind sh "transaction_event" "transaction" refl is_evt is_j)
          (other_kind sh "idempotency" "transaction" refl is_idem is_j)
          (other_attributes sh (λ q. ne (cc q)) is_k is_j),
    λ key j ne is_j.
        recorded_other w txn evt evt_key idem k j
          (other_kind sh "transaction_event" "idempotency" refl is_evt is_j)
          (other_attributes sh (λ q. ne (cc q)) is_idem is_j)
          (other_kind sh "transaction" "idempotency" refl is_k is_j),
    λ id n by j is_j.
        recorded_other w txn evt evt_key idem k j
          (other_kind sh "transaction_event" "approval" refl is_evt is_j)
          (other_kind sh "idempotency" "approval" refl is_idem is_j)
          (other_kind sh "transaction" "approval" refl is_k is_j),
  )

  not_open :
      {t u : String}
      → str_eq u "DRAFT" ≡ false
      → str_eq u "VERIFIED" ≡ false
      → t ≡ u
      → ((t ≡ "DRAFT") ⊎ (t ≡ "VERIFIED"))
      → ⊥
  not_open {t} {u} a b q (inl r) = str_eq_ne u "DRAFT" a (sym q ∙ r)
  not_open {t} {u} a b q (inr r) = str_eq_ne u "VERIFIED" b (sym q ∙ r)

  -- A move to DRAFT or VERIFIED comes from there.
  IsUndecided-before :
      (row : TransactionRow) (new_status : String)
      → ((new_status ≡ "") ⊎ (is_transition_allowed row.status new_status ≡ true))
      → IsUndecided (some (with_status new_status row))
      → IsUndecided (some row)
  unfolding is_transition_allowed
  IsUndecided-before row new_status allowed h = elim (Bool-cases (str_eq new_status "")) [
    | inl none_given ↦ ground arith
    | inr given ↦ elim allowed [
      | inl q ↦ absurd (str_eq_ne new_status "" given q)
      | inr moved ↦
          let to : (new_status ≡ "DRAFT") ⊎ (new_status ≡ "VERIFIED") = rw given at h in
          elim ((is_transition_allowed-iff-Move row.status new_status).0 moved) [
            | Move.verify p q ↦ inl p
            | Move.cancel_draft p q ↦ inl p
            | Move.endorse p q ↦ inr p
            | Move.reject_verified p q ↦ inr p
            | Move.cancel_verified p q ↦ inr p
            | Move.commit p q ↦ absurd (not_open refl refl q to)
            | Move.reject_endorsed p q ↦ absurd (not_open refl refl q to)
            | Move.settle p q ↦ absurd (not_open refl refl q to)
            | Move.reject_committed p q ↦ absurd (not_open refl refl q to)
            | Move.supersede p q ↦ absurd (not_open refl refl q to)
            | Move.revoke p q ↦ absurd (not_open refl refl q to)
          ]
    ]
  ]

  IsUndecided-lookup :
      (rows : Dict TransactionRow) (id id' : String) (row : TransactionRow) (new_status : String)
      → lookup id rows ≡ some row
      → ((new_status ≡ "") ⊎ (is_transition_allowed row.status new_status ≡ true))
      → IsUndecided (lookup id' (insert id (with_status new_status row) rows))
      → IsUndecided (lookup id' rows)
  IsUndecided-lookup rows id id' row new_status found allowed h =
      elim (Bool-cases (str_eq id id')) [
        | inl same ↦
            let q : id ≡ id' = (str_eq_iff id id').0 same in
            let now : lookup id' (insert id (with_status new_status row) rows)
                ≡ some (with_status new_status row) =
              ground (arith, q, lookup-insert_self id (with_status new_status row) rows) in
            let before : lookup id' rows ≡ some row = ground (arith, q, found) in
            rw before (IsUndecided-before row new_status allowed (rw now at h))
        | inr other ↦
            rw (lookup-insert_ne id id' (with_status new_status row) rows (str_eq_ne id id' other))
              at h
      ]

  header_event :
      (w : World sh) (e : EventRow) (row : TransactionRow) (new_status : String)
      (evt_key idem k : sh.Key) {last : Option EventRow} (h : IsHeader sh row last k w)
      → IsHeader sh
          (with_status new_status row)
          (some e)
          k
          (recorded sh w h.txn (chaincode_event e new_status) evt_key idem k)
  header_event w e row new_status evt_key idem k h = record {
    txn = advanced h.txn (chaincode_event e new_status);
    holds = ground (arith, sh.same_key_iff k k);
    created_by = h.created_by;
    status = ground (arith, h.status);
    number = refl;
    hash = refl;
  }

  -- A header that a call leaves alone.
  pub header_kept :
      (w w' : World sh) {row : TransactionRow} {last : Option EventRow} {k : sh.Key}
      → IsHeader sh row last k w
      → w'.state k ≡ w.state k
      → IsHeader sh row last k w'
  header_kept w w' h same = record {
    txn = h.txn;
    holds = same ∙ h.holds;
    created_by = h.created_by;
    status = h.status;
    number = h.number;
    hash = h.hash;
  }

  Mirrors-event :
      (rows : Dict TransactionRow) (events : List EventRow) (w : World sh) (e : EventRow)
      (row : TransactionRow) (new_status : String) (k evt_key idem : sh.Key)
      → Mirrors sh rows events w
      → IsNext events e
      → e.transaction_id ≢ ""
      → lookup e.transaction_id rows ≡ some row
      → ((new_status ≡ "") ⊎ (is_transition_allowed row.status new_status ≡ true))
      → (h : IsHeader sh row (last_event e.transaction_id events) k w)
      → IsTransactionKey sh e.transaction_id k
      → IsEventKey sh e.transaction_id (pos e.event_sequence) evt_key
      → IsMarkerKey sh e.idempotency_key idem
      → Mirrors sh
          (insert e.transaction_id (with_status new_status row) rows)
          (e ∷ events)
          (recorded sh w h.txn (chaincode_event e new_status) evt_key idem k)
  Mirrors-event rows events w e row new_status k evt_key idem m next named found allowed h is_k
        is_evt is_idem =
      let id = e.transaction_id in
      let evt = chaincode_event e new_status in
      let (other, marked, decided) = kept w h.txn evt is_evt is_idem is_k in
      record {
        named = lookup-insert_ne id "" _ rows named ∙ m.named;
        headers = λ id' row' k' found' is_k'. elim (Bool-cases (str_eq id id')) [
          | inl same ↦
              let q : id ≡ id' = (str_eq_iff id id').0 same in
              let same_key : k' ≡ k = cc in
              let same_row : row' ≡ with_status new_status row =
                ground (arith, q, lookup-insert_self id (with_status new_status row) rows) in
              let newest : last_event id' (e ∷ events) ≡ some e =
                last_event_new id' e events q (rw (sym q) next.number) in
              rw (newest, same_key, same_row) (header_event w e row new_status evt_key idem k h)
          | inr other_id ↦
              let ne = str_eq_ne id id' other_id in
              let old =
                m.headers id' row' k' (sym (lookup-insert_ne id id' _ rows ne) ∙ found') is_k' in
              rw (last_event_other id' e events ne) (header_kept w _ old (other id' k' ne is_k'))
        ];
        absent = λ id' none' k' is_k'.
            let (ne, none_before) = lookup-insert-none id id' _ rows none' in
            other id' k' ne is_k' ∙ m.absent id' none_before k' is_k';
        eventless = λ id' none'.
            let (ne, none_before) = lookup-insert-none id id' _ rows none' in
            last_event_other id' e events ne ∙ m.eventless id' none_before;
        markers = λ key j free is_j.
            let (f, ne) = has_key_cons key e events free in
            marked key j ne is_j ∙ m.markers key j f is_j;
        undecided = λ id' n by j open' is_j.
            decided id' n by j is_j
            ∙ m.undecided id' n by j
                (IsUndecided-lookup rows id id' row new_status found allowed open') is_j;
      }

  -- The event is recorded, the ledger mirrors the database again, and no decision has been touched.
  pub event_mirrored :
      (serving : IsServing sh) (rows : Dict TransactionRow) (events : List EventRow) (w : World sh)
      (e : EventRow) (row : TransactionRow) (new_status : String)
      → Mirrors sh rows events w
      → IsNext events e
      → lookup e.transaction_id rows ≡ some row
      → ((new_status ≡ "") ⊎ (is_transition_allowed row.status new_status ≡ true))
      → (w' : World sh) × (invoke sh (Queued.record_event (chaincode_event e new_status)) w
          ≡ (ok tt, w'))
        × Mirrors sh (insert e.transaction_id (with_status new_status row) rows) (e ∷ events) w'
        × ((id : String) (n : ℕ) (by : String) (j : sh.Key)
            → IsApprovalKey sh id n by j
            → w'.state j ≡ w.state j)
  unfolding invoke
  event_mirrored serving rows events w e row new_status m next found allowed =
      let id = e.transaction_id in
      let evt = chaincode_event e new_status in
      let (k, is_k) = serving.legal "transaction" (id ∷ []) in
      let (evt_key, is_evt) =
        serving.legal "transaction_event" (id ∷ sprintf_09d (pos e.event_sequence) ∷ []) in
      let (idem, is_idem) = serving.legal "idempotency" (e.idempotency_key ∷ []) in
      let h = m.headers id row k found is_k in
      let named : id ≢ "" = λ q. cc (m.named) in
      let acc =
        acceptable serving events w e row new_status k evt_key idem named next h allowed is_k is_evt
          is_idem (m.markers e.idempotency_key idem next.fresh is_idem) in
      (
        recorded sh w h.txn evt evt_key idem k,
        record_event_accepted sh evt h.txn k evt_key idem w acc,
        Mirrors-event rows events w e row new_status k evt_key idem m next named found allowed h
            is_k is_evt is_idem,
        (kept w h.txn evt is_evt is_idem is_k).2,
      )
