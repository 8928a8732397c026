-- ===== src/Indexer/Tests.antt =====
-- Runs of the indexer on a small database.
use aplikasi_transaksi_kanto.Base.{
  ◌≡◌, ◌≢◌, ◌⊎◌, refl, Bool, true, false, none, some, String, List, [], ◌∷◌, arith,
}
use aplikasi_transaksi_kanto.Indexer.{
  EventRow, Database, ChaincodeEvent, mark_committed, transaction_event_recorded, apply_event, load,
  Delivery, run_stream, is_delivered,
}
use aplikasi_transaksi_kanto.Indexer.Laws.{IsMarked, apply_event-marks, apply_event-replay}
use aplikasi_transaksi_kanto.Indexer.Resume.{run_stream-resumes, failed_event_skipped}

abbrev row : EventRow
row = record {
  idempotency_key = "i1";
  fabric_tx_id = none;
  fabric_block_number = none;
  committed_at = none;
}

abbrev db : Database
db = record { transaction_event = row ∷ []; custody_event = []; checkpoint = some 2 }

abbrev recorded : ChaincodeEvent
recorded = record {
  block_number = 3;
  event_name = "TransactionEventRecorded";
  transaction_id = "tx";
  idempotency_key = some "i1";
}

abbrev next_recorded : ChaincodeEvent
next_recorded = record recorded { block_number = 4; idempotency_key = some "i2" }

abbrev lost : Delivery
lost = record { event = recorded; now = 10; update_taken = false; save_taken = true }

abbrev taken : Delivery
taken = record { event = next_recorded; now = 11; update_taken = true; save_taken = true }

abbrev after : Database
after = record db {
  transaction_event =
      record row { fabric_tx_id = some "tx"; fabric_block_number = some 3; committed_at = some 10 }
      ∷ [];
}

applied : apply_event 10 true recorded db ≡ some after
unfolding apply_event transaction_event_recorded mark_committed
applied = refl

apply_event-replay_example : apply_event 12 true recorded after ≡ apply_event 12 true recorded db
apply_event-replay_example = apply_event-replay 10 12 recorded db after applied

run_stream-resumes_example : is_delivered 9 (run_stream (lost ∷ []) db) next_recorded ≡ true
unfolding load
run_stream-resumes_example =
    run_stream-resumes (lost ∷ []) db next_recorded 9 (omega arith, tt) (omega arith) (omega arith)

failed_event_skipped_example :
    (run_stream (lost ∷ taken ∷ []) db ≡ run_stream (taken ∷ []) db)
    × (is_delivered 9 (run_stream (lost ∷ taken ∷ []) db) recorded ≡ false)
unfolding apply_event transaction_event_recorded mark_committed
failed_event_skipped_example =
    failed_event_skipped lost taken db db [] 9 refl refl refl (omega arith)

apply_event-marks_example :
    (recorded.event_name ≢ "TransactionEventRecorded"
      → recorded.event_name ≢ "CustodyEventRecorded"
      → apply_event 10 true recorded db ≡ some db)
    × ((recorded.event_name ≡ "TransactionEventRecorded")
          ⊎ (recorded.event_name ≡ "CustodyEventRecorded")
        → (recorded.idempotency_key ≡ none) ⊎ (◌≡◌ {A = Bool} true false)
        → apply_event 10 true recorded db ≡ none)
    × ((key : String)
        → recorded.event_name ≡ "TransactionEventRecorded"
        → recorded.idempotency_key ≡ some key
        → ◌≡◌ {A = Bool} true true
        → (rows : List EventRow) × (apply_event 10 true recorded db
            ≡ some (record db { transaction_event = rows }))
          × IsMarked 10 3 "tx" key db.transaction_event rows)
    × ((key : String)
        → recorded.event_name ≡ "CustodyEventRecorded"
        → recorded.idempotency_key ≡ some key
        → ◌≡◌ {A = Bool} true true
        → (rows : List EventRow) × (apply_event 10 true recorded db
            ≡ some (record db { custody_event = rows }))
          × IsMarked 10 3 "tx" key db.custody_event rows)
apply_event-marks_example = apply_event-marks 10 true recorded db
