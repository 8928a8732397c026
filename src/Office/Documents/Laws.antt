-- ===== src/Office/Documents/Laws.antt =====
-- What storing a document leaves alone.
use aplikasi_transaksi_kanto.Base.{◌≡◌, String, arith}
use aplikasi_transaksi_kanto.Crypto.Hybrid.{Bytes}
use aplikasi_transaksi_kanto.Office.Types.{Store}
use aplikasi_transaksi_kanto.Office.Database.{ok}
use aplikasi_transaksi_kanto.Office.Events.{Site, Request}
use aplikasi_transaksi_kanto.Office.Documents.{store_document, put_object}

module _ (site : Site) (req : Request) where
  -- storeDocument leaves the tables of the requests, of their events and of the outbox alone.
  pub store_document_keeps :
      (id txn_id kind file_name by : String) (content : Bytes) (s : Store) {doc_id : String}
      {t : Store}
      → store_document site req id txn_id kind file_name by content s ≡ (ok doc_id, t)
      → (t.db.outbox ≡ s.db.outbox)
        × (t.db.transactions ≡ s.db.transactions)
        × (t.db.transaction_events ≡ s.db.transaction_events)
  unfolding store_document put_object
  store_document_keeps id txn_id kind file_name by content s h =
      (ground arith, ground arith, ground arith)
