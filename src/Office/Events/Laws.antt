-- ===== src/Office/Events/Laws.antt =====
-- The rows that appendTransactionEvent reads: the newest event, and the unique keys.
use aplikasi_transaksi_kanto.Base.{
  ◌≡◌, ◌≢◌, ◌<◌, ◌^◌, Bool, false, Option, some, none, String, List, ◌∷◌, str_eq_iff, arith, length,
  Option-cases, Bool-cases, ◌==◌, inl, inr, ◌++◌, [],
}
use aplikasi_transaksi_kanto.Store.Dict.{lookup}
use aplikasi_transaksi_kanto.Ledger.Transaction.Contract.{allowed_algorithm_suite}
use aplikasi_transaksi_kanto.Crypto.Hybrid.{
  HybridSignature, SigningIdentity, returned, sign_hybrid, sign_classical, sign_mldsa,
}
use aplikasi_transaksi_kanto.Crypto.Context.{SigningContext, bind}
use aplikasi_transaksi_kanto.Office.Types.{EventRow, TransactionRow, Queued, Database, Store}
use aplikasi_transaksi_kanto.Office.Database.{ok, call-cases, signing-cases}
use aplikasi_transaksi_kanto.Office.Events.{
  Site, Request, EventInput, last_event, next_sequence, has_key, insert_event, chaincode_event,
  with_status, event_row, event_key_of, event_context, store_event_row, append_transaction_event,
  advance_row, Site,
}

-- A row that follows the newest one of its transaction is the newest from then on.
pub last_event_new :
    (id : String) (e : EventRow) (rows : List EventRow)
    → e.transaction_id ≡ id
    → e.event_sequence ≡ next_sequence (last_event id rows)
    → last_event id (e ∷ rows) ≡ some e
unfolding last_event
last_event_new id e rows own next = elim (Option-cases (last_event id rows)) [
  | inl q ↦ ground (arith, str_eq_iff e.transaction_id id)
  | inr (f, q) ↦ ground (arith, str_eq_iff e.transaction_id id)
]

-- A row of another transaction changes nothing.
pub last_event_other :
    (id : String) (e : EventRow) (rows : List EventRow)
    → e.transaction_id ≢ id
    → last_event id (e ∷ rows) ≡ last_event id rows
unfolding last_event
last_event_other id e rows other = ground (arith, str_eq_iff e.transaction_id id)

-- A key that the longer table does not have is none of the shorter one's, nor the new row's.
pub has_key_cons :
    (key : String) (e : EventRow) (rows : List EventRow)
    → has_key key (e ∷ rows) ≡ false
    → (has_key key rows ≡ false) × (e.idempotency_key ≢ key)
unfolding has_key
has_key_cons key e rows h = (
  ground (arith, str_eq_iff e.idempotency_key key),
  ground (arith, str_eq_iff e.idempotency_key key),
)

-- What the server's libraries are documented to give: a drawn id and a signature are never empty.
pub record IsSite (site : Site) : Type 0 where
  pub drawn : (n : _) → site.uuid n ≢ ""
  pub classical : (k : _) (m : _) → length k ≡ 64 → 0 < length (site.primitives.ed25519_sign k m)
  pub pqc : (k : _) (m : _) (s : _) → site.primitives.mldsa_sign k m ≡ some s → 0 < length s

-- The database after an appended event.
abbrev pub appended : Database → EventRow → TransactionRow → String → Bool → Database
appended db e row new_status update_read_model =
    advance_row update_read_model e.transaction_id (with_status new_status row) (record db {
      transaction_events = e ∷ db.transaction_events;
      outbox = db.outbox ++ Queued.record_event (chaincode_event e new_status) ∷ [];
    })

module _ (site : Site) (req : Request) where
  -- What a successful appendTransactionEvent has found and written.
  pub record IsAppended (input : EventInput) (update : Bool) (e : EventRow) (s t : Store)
      : Type 0 where
    pub row : TransactionRow
    pub sig : HybridSignature
    pub hash : String
    pub found : lookup input.transaction_id s.db.transactions ≡ some row
    pub is_row :
        e
        ≡ event_row site req input
            (event_key_of site req input)
            (last_event input.transaction_id s.db.transaction_events)
            (sig, hash)
    pub suite : sig.algorithm_suite ≡ allowed_algorithm_suite
    pub classical : 0 < length sig.classical_signature
    pub pqc : 0 < length sig.pqc_signature
    pub small : e.event_sequence < 2 ^ 31
    pub fresh : has_key e.idempotency_key s.db.transaction_events ≡ false
    pub result : t.db ≡ appended s.db e row input.new_status update

  -- A signed envelope names the suite, with two signatures that are not empty.
  sign_hybrid-envelope :
      IsSite site
      → (identity : SigningIdentity) (ctx : SigningContext) (payload : Option String)
      → {sig : HybridSignature} {hash : String}
      → sign_hybrid site.primitives identity ctx payload ≡ returned (some (sig, hash))
      → (sig.algorithm_suite ≡ allowed_algorithm_suite)
        × (0 < length sig.classical_signature)
        × (0 < length sig.pqc_signature)
  unfolding sign_hybrid sign_classical sign_mldsa
  sign_hybrid-envelope good identity ctx none h = absurd (ground arith)
  sign_hybrid-envelope good identity ctx (some p) h =
      elim (Option-cases (site.primitives.mldsa_sign identity.pqc_private (bind ctx p))) [
        | inl q ↦ absurd (ground arith)
        | inr (s, q) ↦ elim (Bool-cases (length identity.classical_private == 64)) [
          | inr short ↦ absurd (ground (arith, short, h))
          | inl long ↦
              let c = good.classical identity.classical_private (bind ctx p) (ground arith) in
              let d = good.pqc identity.pqc_private (bind ctx p) s q in
              (ground arith, ground arith, ground arith)
        ]
      ]

  store_event_row-ok :
      (e : EventRow) (row : TransactionRow) (new_status : String) (update : Bool) (s : Store)
      {t : Store}
      → store_event_row site req e row new_status update s ≡ (ok tt, t)
      → (e.event_sequence < 2 ^ 31)
        × (has_key e.idempotency_key s.db.transaction_events ≡ false)
        × (t.db ≡ appended s.db e row new_status update)
  unfolding store_event_row insert_event
  store_event_row-ok e row new_status update s h = (ground arith, ground arith, ground arith)

  pub append-IsAppended :
      IsSite site
      → (input : EventInput) (update : Bool) (s : Store) → {e : EventRow} {t : Store}
      → append_transaction_event site req input update s ≡ (ok e, t)
      → IsAppended input update e s t
  unfolding append_transaction_event
  append-IsAppended good input update s {e} {t} h =
      elim (Option-cases (lookup input.transaction_id s.db.transactions)) [
        | inl q ↦ absurd (ground arith)
        | inr (row, q) ↦ elim (Option-cases (site.signing_identity input.signer_identity)) [
          | inl q2 ↦ absurd (ground arith)
          | inr (identity, q2) ↦
              elim (signing-cases (
                sign_hybrid site.primitives identity (event_context site req input row)
                  (site.payload_hash input.payload))) [
                    | inl (inl q3) ↦ absurd (ground arith)
                    | inl (inr q3) ↦ absurd (ground arith)
                    | inr ((sig, hash), q3) ↦
                        let e' =
                          event_row site req input (event_key_of site req input)
                            (last_event input.transaction_id s.db.transaction_events) (sig, hash) in
                        elim (call-cases
                          (store_event_row site req e' row input.new_status update s)) [
                            | inr (_, _, q4) ↦ absurd (ground arith)
                            | inl (_, t', q4) ↦
                                let (small, fresh, result) =
                                  store_event_row-ok e' row input.new_status update s q4 in
                                let (suite, classical, pqc) =
                                  sign_hybrid-envelope good identity _ _ q3 in
                                let same_e : e ≡ e' = ground arith in
                                let same_t : t ≡ t' = ground arith in
                                record {
                                  row = row;
                                  sig = sig;
                                  hash = hash;
                                  found = q;
                                  is_row = same_e;
                                  suite = suite;
                                  classical = classical;
                                  pqc = pqc;
                                  small = rw same_e small;
                                  fresh = rw same_e fresh;
                                  result = rw (same_e, same_t) result;
                                }
                          ]
                  ]
        ]
      ]
