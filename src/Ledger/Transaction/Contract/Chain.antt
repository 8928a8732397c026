-- ===== src/Ledger/Transaction/Contract/Chain.antt =====
-- The hash chain of a transaction's events in world state, and how single writes affect it.
use aplikasi_transaksi_kanto.Base.{
  ◌≡◌, ◌≢◌, ◌≤◌, ◌<◌, sym, ap, ◌∙◌, subst₂, Option, some, String, List, [], ◌∷◌, str_eq, str_eq_iff,
  str_eq_ne, length, arith, ℕ, zero, suc, Bool-cases, inl, inr,
}
use aplikasi_transaksi_kanto.Base.Int64.{ℤ, pos}
use aplikasi_transaksi_kanto.Base.Format.{sprintf_09d, sprintf_09d-injective}
use aplikasi_transaksi_kanto.Ledger.Stub.{
  Shim, update, update_same, update_other, other_type, other_attributes,
}
use aplikasi_transaksi_kanto.Ledger.Transaction.Contract.{
  Transaction, TransactionEvent, Doc, transaction, event, allowed_algorithm_suite,
}

module _ (sh : Shim) where
  abbrev pub State : Type 0
  State = sh.Key → Option (Doc sh.Key)

  abbrev pub IsTransactionKey : String → sh.Key → Type 0
  IsTransactionKey id k = sh.create_composite_key "transaction" (id ∷ []) ≡ some k

  abbrev pub IsEventKey : String → ℤ → sh.Key → Type 0
  IsEventKey id z k = sh.create_composite_key "transaction_event" (id ∷ sprintf_09d z ∷ []) ≡ some k

  -- The event with number `n` of the transaction `id` is stored, and passed RecordEvent's checks.
  pub record IsStored (m : State) (id : String) (n : ℕ) (evt : TransactionEvent) : Type 0 where
    pub key : sh.Key
    pub is_key : IsEventKey id (pos n) key
    pub holds : m key ≡ some (event evt)
    pub numbered : evt.event_sequence ≡ pos n
    pub owned : evt.transaction_id ≡ id
    pub suite : evt.algorithm_suite ≡ allowed_algorithm_suite
    pub classical : 0 < length evt.classical_signature
    pub pqc : 0 < length evt.pqc_signature

  -- Events 1 to `n` are stored, each names the payload hash of the one before it, the first names
  -- no hash, and `hash` is the payload hash of the last.
  abbrev pub Linked : State → String → ℕ → String → Type 0
  Linked m id zero hash = hash ≡ ""
  Linked m id (suc n) hash =
      (evt : TransactionEvent) × IsStored m id (suc n) evt
      × (evt.payload_hash ≡ hash)
      × Linked m id n evt.previous_event_hash

  -- A write that leaves the events up to `n` alone leaves the chain alone.
  pub Linked-agree :
      (m m' : State) (id : String) (n : ℕ) (hash : String)
      → ((i : ℕ) (k : sh.Key) → i ≤ n → IsEventKey id (pos i) k → m' k ≡ m k)
      → Linked m id n hash
      → Linked m' id n hash
  Linked-agree m m' id zero hash same h = h
  Linked-agree m m' id (suc n) hash same (evt, st, e, rest) = (
    evt,
    record {
      key = st.key;
      is_key = st.is_key;
      holds = same (suc n) st.key (omega arith) st.is_key ∙ st.holds;
      numbered = st.numbered;
      owned = st.owned;
      suite = st.suite;
      classical = st.classical;
      pqc = st.pqc;
    },
    e,
    Linked-agree m m' id n evt.previous_event_hash (λ i k le. same i k (omega arith)) rest,
  )

  Linked-update_type :
      (m : State) (t : String) (xs : List String) (k : sh.Key) (d : Doc sh.Key)
      → t ≢ "transaction_event"
      → sh.create_composite_key t xs ≡ some k
      → (id : String) (n : ℕ) (hash : String) → Linked m id n hash
      → Linked (update sh m k d) id n hash
  Linked-update_type m t xs k d ne is_key id n hash =
      Linked-agree m (update sh m k d) id n hash
        (λ i j le is_event. update_other sh m k j d (other_type sh ne is_key is_event))

  -- The header `txn` of `id` stands for a stored chain of at most `calls` events.
  abbrev pub IsHeader : ℕ → State → String → Transaction → Type 0
  IsHeader calls m id txn =
      (n : ℕ) × (txn.latest_event_sequence ≡ pos n)
      × (n ≤ calls)
      × (txn.id ≡ id)
      × Linked m id n txn.latest_event_payload_hash

  -- Every transaction header in world state stands for the chain of its events.
  pub record IsChained (calls : ℕ) (m : State) : Type 0 where
    pub chain :
        (id : String) (k : sh.Key) (txn : Transaction)
        → IsTransactionKey id k
        → m k ≡ some (transaction txn)
        → IsHeader calls m id txn

  two_strings : {a b c d : String} → a ∷ b ∷ [] ≡ c ∷ d ∷ [] → (a ≡ c) × (b ≡ d)
  two_strings e = (cc, cc)

  one_string : {a b : String} → a ∷ [] ≡ b ∷ [] → a ≡ b
  one_string e = cc

  not_event : ◌≢◌ {A = String} "transaction" "transaction_event"
  not_event = ground (arith, str_eq_iff "transaction" "transaction_event")

  module _ {calls : ℕ} {m : State} (inv : IsChained calls m) where
    -- A write of neither a header nor an event.
    pub update-IsChained_other :
        (t : String) (xs : List String) (k : sh.Key) (d : Doc sh.Key)
        → t ≢ "transaction_event"
        → t ≢ "transaction"
        → sh.create_composite_key t xs ≡ some k
        → IsChained calls (update sh m k d)
    update-IsChained_other t xs k d ne1 ne2 is_key = record {
      chain = λ id j txn is_txn found.
          let old = update_other sh m k j d (other_type sh ne2 is_key is_txn) in
          let (n, e, le, own, l) = inv.chain id j txn is_txn (sym old ∙ found) in
          (
            n,
            e,
            le,
            own,
            Linked-update_type m t xs k d ne1 is_key id n txn.latest_event_payload_hash l,
          );
    }

    -- A write of a header that stands for its chain.
    pub update-IsChained_header :
        (id : String) (k : sh.Key) (txn : Transaction)
        → IsTransactionKey id k
        → IsHeader calls m id txn
        → IsChained calls (update sh m k (transaction txn))
    update-IsChained_header id k txn is_key (n, e, le, own, l) = record {
      chain = λ id' j txn' is_txn found.
          let m' : State = update sh m k (transaction txn) in
          let kept = λ (i : String) (x : ℕ) (hash : String).
            Linked-update_type m "transaction" (id ∷ []) k (transaction txn) not_event is_key i x
              hash in
          elim (Bool-cases (str_eq id id')) [
            | inl same ↦
                let p : id ≡ id' = (str_eq_iff id id').0 same in
                let at_k : k ≡ j = cc in
                let here : some (transaction txn) ≡ some (transaction txn') =
                  sym (update_same sh m k (transaction txn)) ∙ ap m' at_k ∙ found in
                let q : txn ≡ txn' = cc in
                subst₂ (IsHeader calls m') p q
                  (n, e, le, own, kept id n txn.latest_event_payload_hash l)
            | inr other ↦
                let ne : k ≢ j =
                  other_attributes sh (λ q. str_eq_ne id id' other (one_string q)) is_key is_txn in
                let old = update_other sh m k j (transaction txn) ne in
                let (n', e', le', own', l') = inv.chain id' j txn' is_txn (sym old ∙ found) in
                (n', e', le', own', kept id' n' txn'.latest_event_payload_hash l')
          ];
    }

    -- A write of the event that follows the last one of its transaction.
    pub update-IsChained_event :
        (id : String) (k h : sh.Key) (txn : Transaction) (n : ℕ) (d : Doc sh.Key)
        → IsEventKey id (pos (suc n)) k
        → IsTransactionKey id h
        → m h ≡ some (transaction txn)
        → txn.latest_event_sequence ≡ pos n
        → IsChained calls (update sh m k d)
    update-IsChained_event id k h txn n d is_key is_txn found e = record {
      chain = λ id' j txn' is_txn' found'.
          let old =
            update_other sh m k j d (other_type sh (λ q. not_event (sym q)) is_key is_txn') in
          let found_before : m j ≡ some (transaction txn') = sym old ∙ found' in
          let (n', e', le, own, l) = inv.chain id' j txn' is_txn' found_before in
          (
            n',
            e',
            le,
            own,
            Linked-agree m (update sh m k d) id' n' txn'.latest_event_payload_hash
                (λ i x i_le is_event. update_other sh m k x d (
                  other_attributes sh
                    (λ q.
                      let (p, digits) = two_strings q in
                      let at_i : suc n ≡ i = sprintf_09d-injective (suc n) i digits in
                      let at_j : h ≡ j = cc in
                      let same_header : txn ≡ txn' = cc in
                      let same_count : n ≡ n' = cc in omega arith)
                    is_key is_event))
                l,
          );
    }
