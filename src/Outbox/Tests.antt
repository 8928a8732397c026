-- ===== src/Outbox/Tests.antt =====
-- A batch over a small table.
use aplikasi_transaksi_kanto.Base.{◌≤◌, none, some, true, false, [], ◌∷◌, arith}
use aplikasi_transaksi_kanto.Outbox.{OutboxRow, pending, Pass, process_batch}
use aplikasi_transaksi_kanto.Outbox.Laws.{IsBounded, process_batch-IsBounded}

abbrev row : OutboxRow
row = record {
  id = "o1";
  chaincode_name = "transaction";
  fn_name = "RecordEvent";
  args = some ("{}" ∷ []);
  attempts = 4;
  aggregate_type = "transaction";
  aggregate_id = "t1";
  status = pending;
  next_attempt_at = 7;
  sent_at = none;
}

abbrev down : Pass
down = record { now = 10; max_attempts = 5; submitted = λ _. false; updated = λ _. true }

process_batch-IsBounded_example :
    ((process_batch down (row ∷ [])).0 ≤ 20) × IsBounded 5 (process_batch down (row ∷ [])).1
process_batch-IsBounded_example = process_batch-IsBounded down (row ∷ []) ((λ _. omega arith), tt)
