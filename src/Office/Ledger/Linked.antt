-- ===== src/Office/Ledger/Linked.antt =====
-- The hash chains behind the office's requests: the ledger that the outbox leads to is one that the
-- chaincode reaches by committed calls.
use aplikasi_transaksi_kanto.Base.{
  ℕ, suc, ◌+◌, ◌≡◌, ◌<◌, ◌≤◌, ◌^◌, ◌∙◌, sym, some, Option, String, List, [], ◌∷◌, arith, length,
  inl, inr, subst₂,
}
use aplikasi_transaksi_kanto.Base.Int64.{pos}
use aplikasi_transaksi_kanto.Store.Dict.{lookup}
use aplikasi_transaksi_kanto.Ledger.Stub.{Shim, ok, call-cases}
use aplikasi_transaksi_kanto.Ledger.Transaction.Contract.Record.{World}
use aplikasi_transaksi_kanto.Ledger.Transaction.Contract.Chain.{Linked}
use aplikasi_transaksi_kanto.Ledger.Transaction.Contract.Reach.{
  Reach, start, next, create, append, decide, Reach-IsChained, genesis,
}
use aplikasi_transaksi_kanto.Office.Types.{Queued, TransactionRow, empty_store}
use aplikasi_transaksi_kanto.Office.Events.{Site, Request, last_event, previous_hash}
use aplikasi_transaksi_kanto.Office.Events.Laws.{IsSite}
use aplikasi_transaksi_kanto.Office.Auth.{Headers, Membership}
use aplikasi_transaksi_kanto.Office.Decision.{TtdVerifier}
use aplikasi_transaksi_kanto.Office.History.{Route, serve}
use aplikasi_transaksi_kanto.Office.Ledger.{IsServing, invoke, replay, last_number}
use aplikasi_transaksi_kanto.Office.Ledger.History.{office_outbox_accepted}

same_number : {n m : ℕ} → pos n ≡ pos m → n ≡ m
same_number q = cc

module _ (sh : Shim) where
  invoke-Reach :
      (call : Queued) {n : ℕ} {s t : World sh}
      → Reach sh n s
      → invoke sh call s ≡ (ok tt, t)
      → (k : ℕ) × (k ≤ suc n) × Reach sh k t
  unfolding invoke
  invoke-Reach (Queued.create_transaction id o w v c) {n} r h =
      (suc n, omega arith, next r (create id o w v c h))
  invoke-Reach (Queued.record_event evt) {n} r h = (suc n, omega arith, next r (append evt h))
  invoke-Reach (Queued.approve id m by decision policy) {n} r h =
      (suc n, omega arith, next r (decide id (pos m) by decision policy h))
  invoke-Reach (Queued.create_asset a b c) {n} {s} {t} r h =
      let same : t ≡ s = ground arith in (n, omega arith, rw same r)
  invoke-Reach (Queued.record_custody_event e) {n} {s} {t} r h =
      let same : t ≡ s = ground arith in (n, omega arith, rw same r)

  replay-Reach :
      (calls : List Queued) {n : ℕ} {s t : World sh}
      → Reach sh n s
      → replay sh calls s ≡ (ok tt, t)
      → (k : ℕ) × (k ≤ n + length calls) × Reach sh k t
  unfolding replay
  replay-Reach [] {n} {s} {t} r h = let same : t ≡ s = ground arith in (n, omega arith, rw same r)
  replay-Reach (call ∷ calls) {n} {s} {t} r h = elim (call-cases (invoke sh call s)) [
    | inr (e, s1, q) ↦ absurd (ground arith)
    | inl (_, s1, q) ↦
        let (k, le, r1) = invoke-Reach call r q in
        let (k2, le2, r2) = replay-Reach calls r1 (ground arith) in (k2, omega arith, r2)
  ]

  -- On the ledger that the outbox of any history of fewer than 2^63 - 1 queued calls leads to, every
  -- request of the database has its whole hash chain: events 1 to the number of its last row, each
  -- stored under its key, signed twice under the hybrid suite and naming the payload hash of the one
  -- before it, the last with the payload hash of the last row.
  pub office_outbox-Linked :
      (site : Site) (ttd : Option TtdVerifier) (proxy_secret : Option String)
      (membership : Membership)
      → IsSite site
      → IsServing sh
      → (requests : List (Request × Headers × Route))
      → let s = serve site ttd proxy_secret membership requests empty_store in
        length s.db.outbox + 1 < 2 ^ 63
        → (w : World sh) × (replay sh s.db.outbox (genesis sh) ≡ (ok tt, w))
          × ((id : String) (row : TransactionRow)
              → lookup id s.db.transactions ≡ some row
              → let last = last_event id s.db.transaction_events in
                Linked sh w.state id (last_number last) (previous_hash last))
  office_outbox-Linked site ttd proxy_secret membership good serving requests room =
      let s = serve site ttd proxy_secret membership requests empty_store in
      let (w, replayed, mirrors) =
        office_outbox_accepted sh site ttd proxy_secret membership good serving requests in
      let (k, le, reached) = replay-Reach s.db.outbox start replayed in
      let chained = Reach-IsChained sh k w reached (omega arith) in
      (
        w,
        replayed,
        λ id row found.
            let (key, is_key) = serving.legal "transaction" (id ∷ []) in
            let h = mirrors.headers id row key found is_key in
            let (n, number, _, _, linked) = chained.chain id key h.txn is_key h.holds in
            let same_n : n ≡ last_number (last_event id s.db.transaction_events) =
              same_number (sym number ∙ h.number) in
            subst₂ (Linked sh w.state id) same_n h.hash linked,
      )
