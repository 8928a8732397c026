-- ===== src/Ledger/Transaction/Contract/Tests.antt =====
-- Runs of the transaction contract on a concrete ledger.
use aplikasi_transaksi_kanto.Base.{◌≡◌, ◌≢◌, refl, some, [], ◌∷◌, arith, ◌⊎◌, inl}
use aplikasi_transaksi_kanto.Base.Int64.{pos, succ_int64}
use aplikasi_transaksi_kanto.Base.Format.{sprintf_09d}
use aplikasi_transaksi_kanto.Ledger.Stub.{peer, ok, err, get_state, put_state, set_event}
use aplikasi_transaksi_kanto.Ledger.Table.{contains}
use aplikasi_transaksi_kanto.Ledger.Transaction.Status.{is_transition_allowed}
use aplikasi_transaksi_kanto.Ledger.Transaction.Contract.{
  Transaction, TransactionEvent, transaction, does_not_exist, advanced, create_transaction,
  record_event, approve, store_event, check_event, get_transaction, check_linkage, event_key,
  transaction_key, idempotency_key, approval_key,
}
use aplikasi_transaksi_kanto.Ledger.Transaction.Contract.Record.{World}
use aplikasi_transaksi_kanto.Ledger.Transaction.Contract.Approve.{draft}
use aplikasi_transaksi_kanto.Ledger.Transaction.Contract.Chain.{IsChained}
use aplikasi_transaksi_kanto.Ledger.Transaction.Contract.Reach.{
  start, next, create, append, genesis, Reach-IsChained,
}
use aplikasi_transaksi_kanto.Ledger.Transaction.Contract.Once.{
  here, then, record_event_once, approve_once, creator_never_decides, create_transaction_once,
  revoked_stays, closed_stays,
}
use aplikasi_transaksi_kanto.Ledger.Transaction.Contract.Outcome.{record_event_refused}

abbrev first : TransactionEvent
first = record {
  transaction_id = "t1";
  event_sequence = pos 1;
  event_type = "RELEASE";
  payload_hash = "h1";
  previous_event_hash = "";
  algorithm_suite = "HYBRID_ED25519_MLDSA65_V1";
  classical_key_id = "c1";
  pqc_key_id = "q1";
  classical_signature = 1 ∷ [];
  pqc_signature = 2 ∷ [];
  idempotency_key = "i1";
  created_at_server = "now";
  new_status = "VERIFIED";
}

abbrev last_one : TransactionEvent
last_one = record first { new_status = "REVOKED" }

abbrev created : World peer
created = (create_transaction peer "t1" "org" "PO" "v1" "ana" (genesis peer)).1

created_run : create_transaction peer "t1" "org" "PO" "v1" "ana" (genesis peer) ≡ (ok tt, created)
unfolding create_transaction transaction_key get_state put_state set_event
created_run = refl

abbrev appended : World peer
appended = (record_event peer (some first) created).1

appended_run : record_event peer (some first) created ≡ (ok tt, appended)
unfolding create_transaction record_event check_event get_transaction check_linkage store_event
    event_key transaction_key idempotency_key get_state put_state set_event succ_int64 sprintf_09d
    is_transition_allowed contains
appended_run = refl

abbrev approved : World peer
approved = (approve peer "t1" (pos 1) "budi" "approve" "p1" created).1

approved_run : approve peer "t1" (pos 1) "budi" "approve" "p1" created ≡ (ok tt, approved)
unfolding create_transaction approve approval_key get_transaction transaction_key get_state
    put_state set_event sprintf_09d
approved_run = refl

abbrev revoked : World peer
revoked = (record_event peer (some last_one) created).1

revoked_header :
    revoked.state ("transaction", "t1" ∷ [])
    ≡ some (transaction (advanced (draft "t1" "org" "PO" "v1" "ana") last_one))
unfolding create_transaction record_event check_event get_transaction check_linkage store_event
    event_key transaction_key idempotency_key get_state put_state set_event succ_int64 sprintf_09d
    is_transition_allowed contains
revoked_header = refl

refused_run : record_event peer (some first) (genesis peer) ≡ (err does_not_exist, genesis peer)
unfolding record_event check_event get_transaction transaction_key get_state
refused_run = refl

record_event_once_example : record_event peer (some first) appended ≢ (ok tt, appended)
record_event_once_example =
    record_event_once peer first first created appended appended appended appended_run here refl

approve_once_example : approve peer "t1" (pos 1) "budi" "reject" "p1" approved ≢ (ok tt, approved)
approve_once_example =
    approve_once peer "t1" (pos 1) "budi" "approve" "p1" "reject" "p1" created approved approved
      approved approved_run here

creator_never_decides_example :
    approve peer "t1" (pos 1) "ana" "approve" "p1" appended ≢ (ok tt, appended)
creator_never_decides_example =
    creator_never_decides peer "t1" "org" "PO" "v1" "ana" (pos 1) "approve" "p1" (genesis peer)
      created appended appended created_run (then here (append first appended_run))

create_transaction_once_example :
    create_transaction peer "t1" "org2" "PO" "v1" "eka" appended ≢ (ok tt, appended)
create_transaction_once_example =
    create_transaction_once peer "t1" "org" "PO" "v1" "ana" "org2" "PO" "v1" "eka" (genesis peer)
      created appended appended created_run (then here (append first appended_run))

revoked_stays_example : (advanced (draft "t1" "org" "PO" "v1" "ana") last_one).status ≡ "REVOKED"
revoked_stays_example =
    revoked_stays peer ("transaction", "t1" ∷ [])
      (advanced (draft "t1" "org" "PO" "v1" "ana") last_one)
      (advanced (draft "t1" "org" "PO" "v1" "ana") last_one) revoked revoked refl revoked_header
      refl here revoked_header

Reach-IsChained_example : IsChained peer 2 appended.state
Reach-IsChained_example =
    Reach-IsChained peer 2 appended
      (next (next start (create "t1" "org" "PO" "v1" "ana" created_run))
        (append first appended_run))
      (omega arith)

record_event_refused_example : genesis peer ≡ genesis peer
record_event_refused_example =
    record_event_refused peer (some first) (genesis peer) (λ j. refl) refused_run

abbrev cancellation : TransactionEvent
cancellation = record first { new_status = "CANCELLED" }

abbrev revocation : TransactionEvent
revocation = record first {
  event_sequence = pos 2;
  previous_event_hash = "h1";
  idempotency_key = "i2";
  new_status = "REVOKED";
}

abbrev cancelled : World peer
cancelled = (record_event peer (some cancellation) created).1

abbrev cancelled_transaction : Transaction
cancelled_transaction = advanced (draft "t1" "org" "PO" "v1" "ana") cancellation

abbrev withdrawn : World peer
withdrawn = (record_event peer (some revocation) cancelled).1

cancelled_header :
    cancelled.state ("transaction", "t1" ∷ []) ≡ some (transaction cancelled_transaction)
unfolding create_transaction record_event check_event get_transaction check_linkage store_event
    event_key transaction_key idempotency_key get_state put_state set_event succ_int64 sprintf_09d
    is_transition_allowed contains
cancelled_header = refl

-- A cancelled transaction can be revoked.
withdrawn_run : record_event peer (some revocation) cancelled ≡ (ok tt, withdrawn)
unfolding create_transaction record_event check_event get_transaction check_linkage store_event
    event_key transaction_key idempotency_key get_state put_state set_event succ_int64 sprintf_09d
    is_transition_allowed contains
withdrawn_run = refl

withdrawn_header :
    withdrawn.state ("transaction", "t1" ∷ [])
    ≡ some (transaction (advanced cancelled_transaction revocation))
unfolding create_transaction record_event check_event get_transaction check_linkage store_event
    event_key transaction_key idempotency_key get_state put_state set_event succ_int64 sprintf_09d
    is_transition_allowed contains
withdrawn_header = refl

closed_stays_example :
    ((advanced cancelled_transaction revocation).status ≡ "CANCELLED")
    ⊎ ((advanced cancelled_transaction revocation).status ≡ "REVOKED")
closed_stays_example =
    closed_stays peer ("transaction", "t1" ∷ []) cancelled_transaction
      (advanced cancelled_transaction revocation) cancelled withdrawn refl cancelled_header
      (inl refl) (then here (append revocation withdrawn_run)) withdrawn_header
