-- ===== src/Office/Ledger.antt =====
-- The office's outbox on the transaction chaincode: the queued calls, in order, each on the world state
-- that the one before it left; and what it means that the ledger mirrors the database.
pub mod Event
pub mod Draft
pub mod Append
pub mod Steps
pub mod Decide
pub mod History
pub mod Linked
use aplikasi_transaksi_kanto.Base.{
  ℕ, ◌≡◌, ◌≢◌, ◌⊎◌, inl, inr, true, false, str_eq, str_eq_ne, Option, none, some, String, List, [],
  ◌∷◌, ◌++◌, arith,
}
use aplikasi_transaksi_kanto.Base.Int64.{pos}
use aplikasi_transaksi_kanto.Base.Format.{sprintf_09d}
use aplikasi_transaksi_kanto.Store.Dict.{Dict, lookup}
use aplikasi_transaksi_kanto.Ledger.Stub.{Shim, ok, pure, call-cases, other_type, ◌>>=◌, ◌>>◌}
use aplikasi_transaksi_kanto.Ledger.Transaction.Contract as Contract
use aplikasi_transaksi_kanto.Ledger.Transaction.Contract.{Call, Transaction, transaction}
use aplikasi_transaksi_kanto.Ledger.Transaction.Contract.Record.{World}
use aplikasi_transaksi_kanto.Ledger.Transaction.Contract.Chain.{IsTransactionKey}
use aplikasi_transaksi_kanto.Office.Types.{Queued, TransactionRow, EventRow}
use aplikasi_transaksi_kanto.Office.Events.{last_event, previous_hash, has_key}

abbrev pub last_number : Option EventRow → ℕ
last_number none = 0
last_number (some e) = e.event_sequence

-- A request on which no decision is recorded: there is none, or it is a draft or submitted.
abbrev pub IsUndecided : Option TransactionRow → Type 0
IsUndecided none = Unit {0}
IsUndecided (some row) = (row.status ≡ "DRAFT") ⊎ (row.status ≡ "VERIFIED")

-- The peer answers at every key, and every composite key is legal.
pub record IsServing (sh : Shim) : Type 0 where
  pub legal :
      (t : String) (xs : List String) → (k : sh.Key) × (sh.create_composite_key t xs ≡ some k)
  pub reads : (k : sh.Key) → sh.reads k ≡ true
  pub writes : (k : sh.Key) → sh.writes k ≡ true

module _ (sh : Shim) where
  -- The call on the transaction chaincode; the asset chaincode has a world state of its own.
  unfoldable pub invoke : Queued → Call sh (Unit {0})
  invoke (Queued.create_transaction id o w v c) = Contract.create_transaction sh id o w v c
  invoke (Queued.record_event evt) = Contract.record_event sh (some evt)
  invoke (Queued.approve id n by decision policy) =
      Contract.approve sh id (pos n) by decision policy
  invoke (Queued.create_asset _ _ _) = pure tt
  invoke (Queued.record_custody_event _) = pure tt

  -- Every call in order, up to the first that is refused.
  unfoldable pub replay : List Queued → Call sh (Unit {0})
  replay [] = pure tt
  replay (call ∷ calls) = invoke call >> replay calls

  -- One more accepted call at the end.
  pub replay_snoc :
      (calls : List Queued) (call : Queued) (s t u : World sh)
      → replay calls s ≡ (ok tt, t)
      → invoke call t ≡ (ok tt, u)
      → replay (calls ++ call ∷ []) s ≡ (ok tt, u)
  unfolding replay
  replay_snoc [] call s t u h last = ground arith
  replay_snoc (c ∷ calls) call s t u h last = elim (call-cases (invoke c s)) [
    | inr (_, _, q) ↦ absurd (ground arith)
    | inl (_, s1, q) ↦ let rest = replay_snoc calls call s1 t u (ground arith) last in ground arith
  ]

  -- Keys of two object types that the test tells apart.
  pub other_kind :
      (t u : String) {xs ys : List String} {j k : sh.Key}
      → str_eq t u ≡ false
      → sh.create_composite_key t xs ≡ some j
      → sh.create_composite_key u ys ≡ some k
      → j ≢ k
  other_kind t u h = other_type sh (str_eq_ne t u h)

  abbrev pub IsMarkerKey : String → sh.Key → Type 0
  IsMarkerKey key k = sh.create_composite_key "idempotency" (key ∷ []) ≡ some k

  abbrev pub IsApprovalKey : String → ℕ → String → sh.Key → Type 0
  IsApprovalKey id n by k =
      sh.create_composite_key "approval" (id ∷ sprintf_09d (pos n) ∷ by ∷ []) ≡ some k

  -- The header of a request stands where its row does.
  pub record IsHeader (row : TransactionRow) (last : Option EventRow) (k : sh.Key) (w : World sh)
      : Type 0 where
    pub txn : Transaction
    pub holds : w.state k ≡ some (transaction txn)
    pub created_by : txn.created_by ≡ row.created_by
    pub status : txn.status ≡ row.status
    pub number : txn.latest_event_sequence ≡ pos (last_number last)
    pub hash : txn.latest_event_payload_hash ≡ previous_hash last

  -- The ledger `w` mirrors the rows of the requests and of their events.
  pub record Mirrors (rows : Dict TransactionRow) (events : List EventRow) (w : World sh)
      : Type 0 where
    pub named : lookup "" rows ≡ none
    pub headers :
        (id : String) (row : TransactionRow) (k : sh.Key)
        → lookup id rows ≡ some row
        → IsTransactionKey sh id k
        → IsHeader row (last_event id events) k w
    pub absent :
        (id : String)
        → lookup id rows ≡ none
        → (k : sh.Key) → IsTransactionKey sh id k
        → w.state k ≡ none
    pub eventless : (id : String) → lookup id rows ≡ none → last_event id events ≡ none
    pub markers :
        (key : String) (k : sh.Key)
        → has_key key events ≡ false
        → IsMarkerKey key k
        → w.state k ≡ none
    pub undecided :
        (id : String) (n : ℕ) (by : String) (k : sh.Key)
        → IsUndecided (lookup id rows)
        → IsApprovalKey id n by k
        → w.state k ≡ none
