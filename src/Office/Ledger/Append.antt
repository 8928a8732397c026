-- ===== src/Office/Ledger/Append.antt =====
-- appendTransactionEvent, and a database transaction around it, on a mirrored database.
use aplikasi_transaksi_kanto.Base.{
  ℕ, ◌≡◌, ◌⊎◌, refl, sym, ap, subst, ◌∙◌, Bool, true, some, String, arith, str_eq, str_eq_iff,
  Bool-cases, inl, inr,
}
use aplikasi_transaksi_kanto.Store.Dict.{lookup}
use aplikasi_transaksi_kanto.Ledger.Stub.{Shim, ok as done}
use aplikasi_transaksi_kanto.Ledger.Transaction.Status.{is_transition_allowed}
use aplikasi_transaksi_kanto.Ledger.Transaction.Contract.Record.{World}
use aplikasi_transaksi_kanto.Ledger.Transaction.Contract.Reach.{genesis}
use aplikasi_transaksi_kanto.Office.Types.{Queued, TransactionRow, EventRow, Database, Store}
use aplikasi_transaksi_kanto.Office.Database.{Tx, Result, ◌>>=◌, ok, err, transact, call-cases}
use aplikasi_transaksi_kanto.Office.Events.{
  Site, Request, EventInput, event_key_of, append_transaction_event, chaincode_event,
}
use aplikasi_transaksi_kanto.Office.Events.Laws.{IsSite, IsAppended, append-IsAppended, appended}
use aplikasi_transaksi_kanto.Office.Ledger.{IsServing, replay, replay_snoc, IsApprovalKey, Mirrors}
use aplikasi_transaksi_kanto.Office.Ledger.Event.{IsNext, event_mirrored}

module _ (sh : Shim) where
  -- Every queued call is accepted, in order, and leaves `w`, which mirrors the tables.
  pub record IsMirrored (db : Database) (w : World sh) : Type 0 where
    pub replayed : replay sh db.outbox (genesis sh) ≡ (done tt, w)
    pub mirrors : Mirrors sh db.transactions db.transaction_events w

  abbrev pub HasMirror : Database → Type 0
  HasMirror db = (w : World sh) × IsMirrored db w

  -- Tables and outbox decide.
  pub IsMirrored-same :
      {db db' : Database} {w : World sh}
      → db'.outbox ≡ db.outbox
      → db'.transactions ≡ db.transactions
      → db'.transaction_events ≡ db.transaction_events
      → IsMirrored db w
      → IsMirrored db' w
  IsMirrored-same a b c m = record { replayed = rw a m.replayed; mirrors = rw (b, c) m.mirrors }

  module _ (site : Site) (req : Request) where
    key_drawn : IsSite site → (input : EventInput) → event_key_of site req input ≡ "" → ⊥
    key_drawn good input q = elim (Bool-cases (str_eq input.idempotency_key "")) [
      | inl e ↦ good.drawn req.serial (ground (arith, e, q))
      | inr e ↦ absurd (ground (arith, e, q, str_eq_iff input.idempotency_key ""))
    ]

    IsAppended-IsNext :
        IsSite site
        → (input : EventInput) (update : Bool) {e : EventRow} {s t : Store}
        → IsAppended site req input update e s t
        → IsNext s.db.transaction_events e
    IsAppended-IsNext good input update {e} {s} a = record {
      number = rw a.is_row refl;
      linked = rw a.is_row refl;
      small = a.small;
      keyed = rw a.is_row (key_drawn good input);
      fresh = a.fresh;
      suite = rw a.is_row a.suite;
      classical = rw a.is_row a.classical;
      pqc = rw a.is_row a.pqc;
    }

    -- The queued event is accepted, and the ledger mirrors the database again.
    pub append-IsMirrored :
        IsSite site
        → IsServing sh
        → (input : EventInput) (row : TransactionRow) (s : Store) (w : World sh) {e : EventRow}
          {t : Store}
        → IsMirrored s.db w
        → append_transaction_event site req input true s ≡ (ok e, t)
        → lookup input.transaction_id s.db.transactions ≡ some row
        → ((input.new_status ≡ "") ⊎ (is_transition_allowed row.status input.new_status ≡ true))
        → (w' : World sh) × IsMirrored t.db w'
          × (t.db ≡ appended s.db e row input.new_status true)
          × (e.transaction_id ≡ input.transaction_id)
          × ((id : String) (n : ℕ) (by : String) (j : sh.Key)
              → IsApprovalKey sh id n by j
              → w'.state j ≡ w.state j)
    append-IsMirrored good serving input row s w {e} {t} m h found allowed =
        let a = append-IsAppended site req good input true s h in
        let same_row : a.row ≡ row = cc (a.found, found) in
        let own : e.transaction_id ≡ input.transaction_id = rw a.is_row refl in
        let result : t.db ≡ appended s.db e row input.new_status true =
          a.result ∙ ap (λ r. appended s.db e r input.new_status true) same_row in
        let (w', accepted, mirrors, kept) =
          event_mirrored sh serving s.db.transactions s.db.transaction_events w e row
            input.new_status m.mirrors (IsAppended-IsNext good input true a) (rw own found)
            allowed in
        (
          w',
          rw result record {
            replayed =
                replay_snoc sh s.db.outbox
                  (Queued.record_event (chaincode_event e input.new_status)) (genesis sh) w w'
                  m.replayed accepted;
            mirrors = mirrors;
          },
          result,
          own,
          kept,
        )

  -- What a committed transaction keeps, the request keeps: otherwise the tables are as before.
  pub transact_keeps :
      {E A : Type 0} (begins commits : Bool) (internal : E) (body : Tx E A) (s : Store)
      → HasMirror s.db
      → ((a : A) (t : Store) → body s ≡ (ok a, t) → HasMirror t.db)
      → HasMirror (transact begins commits internal body s).1.db
  unfolding transact
  transact_keeps begins commits internal body s m keeps = elim (Bool-cases begins) [
    | inr q ↦ rw q m
    | inl q ↦ elim (call-cases (body s)) [
      | inr (e, t, q2) ↦ rw (q, q2) m
      | inl (a, t, q2) ↦ elim (Bool-cases commits) [
        | inr q3 ↦ rw (q, q2, q3) m
        | inl q3 ↦
            let after : (body s).1 ≡ t = ap (λ p. p.1) q2 in rw (q, q2, q3, after) (keeps a t q2)
      ]
    ]
  ]

  abbrev carry : {E A B : Type 0} → (A → Tx E B) → Result E A × Store → Result E B × Store
  carry rest p = let (r, t) = p in elim r [ ok a ↦ rest a t | err e ↦ (err e, t) ]

  -- One step of a request after another.
  pub then_keeps :
      {E A B : Type 0} (first : Tx E A) (rest : A → Tx E B) (s : Store)
      → HasMirror (first s).1.db
      → ((a : A) (t : Store) → first s ≡ (ok a, t) → HasMirror t.db → HasMirror (rest a t).1.db)
      → HasMirror ((first >>= rest) s).1.db
  then_keeps first rest s m keeps = elim (call-cases (first s)) [
    | inr (e, t, q) ↦
        let after : (first s).1 ≡ t = ap (λ p. p.1) q in
        subst (λ p. HasMirror (carry rest p).1.db) (sym q) (rw after at m)
    | inl (a, t, q) ↦
        let after : (first s).1 ≡ t = ap (λ p. p.1) q in
        subst (λ p. HasMirror (carry rest p).1.db) (sym q) (keeps a t q (rw after at m))
  ]

  -- A check in front of a request that leaves the store alone.
  pub bind_keeps :
      {E A B : Type 0} (check : Tx E A) (rest : A → Tx E B) (s : Store)
      → (check s).1 ≡ s
      → HasMirror s.db
      → ((a : A) → HasMirror (rest a s).1.db)
      → HasMirror ((check >>= rest) s).1.db
  bind_keeps check rest s pure m keeps =
      then_keeps check rest s (rw pure m)
        λ a t q _. let same : t ≡ s = sym (ap (λ p. p.1) q) ∙ pure in rw same (keeps a)
