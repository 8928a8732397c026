-- ===== src/Indexer.antt =====
-- indexer/: main.go's listener with the packages apply and checkpoint. What a chaincode's stream
-- delivers is a list of events; the JSON that a payload holds and the failures of the database are
-- given with each step.
mod Tests
pub mod Laws
pub mod Resume
use aplikasi_transaksi_kanto.Base.{
  ℕ, ltb, leb, Bool, true, false, Option, none, some, String, List, [], ◌∷◌, ◌++◌, str_eq,
  if◌then◌else◌, map,
}

-- A row of `transaction_event` or `custody_event`: what the indexer matches and what it sets.
pub record EventRow : Type 0 where
  pub idempotency_key : String
  pub fabric_tx_id : Option String
  pub fabric_block_number : Option ℕ
  pub committed_at : Option ℕ

pub record Database : Type 0 where
  pub transaction_event : List EventRow
  pub custody_event : List EventRow
  pub checkpoint : Option ℕ

-- An event of the stream; `idempotency_key` is what its payload unmarshals to, `none` if it does not.
pub record ChaincodeEvent : Type 0 where
  pub block_number : ℕ
  pub event_name : String
  pub transaction_id : String
  pub idempotency_key : Option String

abbrev committed : ℕ → ℕ → String → EventRow → EventRow
committed now block tx row = record row {
  fabric_tx_id = some tx;
  fabric_block_number = some block;
  committed_at = some now;
}

-- The UPDATE of both tables at time `now`.
pub mark_committed : ℕ → ℕ → String → String → List EventRow → List EventRow
mark_committed now block tx key [] = []
mark_committed now block tx key (row ∷ rest) =
    (if str_eq row.idempotency_key key then committed now block tx row else row)
    ∷ mark_committed now block tx key rest

-- TransactionEventRecorded; `up` says whether the database takes the statement. No answer is an error.
pub transaction_event_recorded : ℕ → Bool → ChaincodeEvent → Database → Option Database
transaction_event_recorded now up evt db = elim evt.idempotency_key [
  | none ↦ none
  | some key ↦
      if up
      then some (record db {
        transaction_event =
            mark_committed now evt.block_number evt.transaction_id key db.transaction_event;
      })
      else none
]

-- CustodyEventRecorded
pub custody_event_recorded : ℕ → Bool → ChaincodeEvent → Database → Option Database
custody_event_recorded now up evt db = elim evt.idempotency_key [
  | none ↦ none
  | some key ↦
      if up
      then some (record db {
        custody_event = mark_committed now evt.block_number evt.transaction_id key db.custody_event;
      })
      else none
]

-- applyEvent; what is only logged changes nothing.
pub apply_event : ℕ → Bool → ChaincodeEvent → Database → Option Database
apply_event now up evt db =
    if str_eq evt.event_name "TransactionEventRecorded"
    then transaction_event_recorded now up evt db
    else if str_eq evt.event_name "CustodyEventRecorded"
    then custody_event_recorded now up evt db
    else some db

-- checkpoint.Load, where the query succeeds.
pub load : Database → ℕ
load db = elim db.checkpoint [ none ↦ 0 | some last ↦ last ]

-- checkpoint.Save, where the statement succeeds: GREATEST of what is there and the block.
pub save : ℕ → Database → Database
save block db = elim db.checkpoint [
  | none ↦ record db { checkpoint = some block }
  | some last ↦ record db { checkpoint = some (if ltb last block then block else last) }
]

-- An event as it is taken from the stream: the time, and whether the update and the checkpoint are
-- taken by the database.
pub record Delivery : Type 0 where
  pub event : ChaincodeEvent
  pub now : ℕ
  pub update_taken : Bool
  pub save_taken : Bool

-- One turn of the stream loop.
pub receive : Delivery → Database → Database
receive d db = elim (apply_event d.now d.update_taken d.event db) [
  | none ↦ db
  | some next ↦ if d.save_taken then save d.event.block_number next else next
]

-- The stream loop over what one connection delivers.
pub run_stream : List Delivery → Database → Database
run_stream [] db = db
run_stream (d ∷ rest) db = run_stream rest (receive d db)

-- Whether a new connection is sent an event: from the checkpoint on, or, while that is 0 and no start is
-- given, from the gateway's default, the next block that is committed, whose number is `next_block`.
abbrev pub is_delivered : ℕ → Database → ChaincodeEvent → Bool
is_delivered next_block db evt =
    let last = load db in
    if ltb 0 last then leb last evt.block_number else leb next_block evt.block_number
