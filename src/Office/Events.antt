-- ===== src/Office/Events.antt =====
-- api/internal/httpapi/events.go: the one write path of transaction events.
pub mod Laws
use aplikasi_transaksi_kanto.Base.{
  ℕ, suc, ◌^◌, ltb, ◌==◌, Bool, true, false, ◌&&◌, ◌||◌, not, Option, none, some, String, List, [],
  ◌∷◌, str_eq, if◌then◌else◌,
}
use aplikasi_transaksi_kanto.Base.Int64.{pos}
use aplikasi_transaksi_kanto.Store.Dict.{lookup, insert}
use aplikasi_transaksi_kanto.Crypto.Context.{SigningContext}
use aplikasi_transaksi_kanto.Crypto.Hybrid.{
  Bytes, Primitives, HybridSignature, SigningIdentity, sign_hybrid,
}
use aplikasi_transaksi_kanto.Ledger.Transaction.Contract.{TransactionEvent}
use aplikasi_transaksi_kanto.Office.Types.{
  Payload, text, number, TransactionRow, EventRow, Queued, Database,
}
use aplikasi_transaksi_kanto.Office.Database.{
  Tx, DbError, no_rows, duplicate, failed, pure, ◌>>=◌, ◌>>◌, require, or_fail, or_failed, read,
  write, enqueue_outbox,
}

-- What the server stands on: the signature algorithms, the keystore, PayloadHash on a payload, the ids
-- that google/uuid draws, the hexadecimal digests of Go's crypto/sha256 and crypto/sha512, and
-- strings.EqualFold.
pub record Site : Type 0 where
  pub primitives : Primitives
  pub application : String
  pub environment : String
  pub signing_identity : String → Option SigningIdentity
  pub payload_hash : Payload → Option String
  pub uuid : ℕ → String
  pub sha256_hex : Bytes → String
  pub sha512_hex : Bytes → String
  pub equal_fold : String → String → Bool

-- What one request meets: the clock, the number of the first id that it draws, and whether the
-- database takes a statement, by its name.
pub record Request : Type 0 where
  pub now : String
  pub serial : ℕ
  pub up : String → Bool

-- eventInput
pub record EventInput : Type 0 where
  pub transaction_id : String
  pub event_type : String
  pub signer_identity : String
  pub payload : Payload
  pub new_status : String
  pub idempotency_key : String

-- `ORDER BY event_sequence DESC LIMIT 1` of one transaction's events.
unfoldable pub last_event : String → List EventRow → Option EventRow
last_event id [] = none
last_event id (e ∷ rest) =
    let best = last_event id rest in
    if str_eq e.transaction_id id
    then elim best [
      | none ↦ some e
      | some f ↦ if ltb f.event_sequence e.event_sequence then some e else some f
    ]
    else best

abbrev pub next_sequence : Option EventRow → ℕ
next_sequence none = 1
next_sequence (some e) = suc e.event_sequence

abbrev pub previous_hash : Option EventRow → String
previous_hash none = ""
previous_hash (some e) = e.payload_hash

-- The expression of the unique index on `payload->>'ttd_public_id'`.
abbrev pub ttd_public_id : Payload → Option String
ttd_public_id p = elim (lookup "ttd_public_id" p) [
  | some (text s) ↦ some s
  | some (number _) ↦ none
  | none ↦ none
]

abbrev pub same_ttd : Option String → Option String → Bool
same_ttd (some s) (some t) = str_eq s t
same_ttd _ _ = false

-- The unique indexes of the table: (transaction, sequence), the idempotency key, the TTD signature.
unfoldable pub has_key : String → List EventRow → Bool
has_key key [] = false
has_key key (e ∷ rest) = str_eq e.idempotency_key key || has_key key rest

unfoldable pub has_sequence : String → ℕ → List EventRow → Bool
has_sequence id n [] = false
has_sequence id n (e ∷ rest) =
    (str_eq e.transaction_id id && e.event_sequence == n) || has_sequence id n rest

unfoldable pub has_ttd : Option String → List EventRow → Bool
has_ttd ttd [] = false
has_ttd ttd (e ∷ rest) = same_ttd (ttd_public_id e.payload) ttd || has_ttd ttd rest

abbrev pub clashes : EventRow → List EventRow → Bool
clashes e rows =
    has_key e.idempotency_key rows
    || has_sequence e.transaction_id e.event_sequence rows
    || has_ttd (ttd_public_id e.payload) rows

-- The INSERT; an INTEGER column holds numbers below 2^31.
unfoldable pub insert_event : Bool → EventRow → Tx DbError (Unit {0})
insert_event up e = do
  require (up && ltb e.event_sequence (2 ^ 31)) failed
  db ← read
  require (not (clashes e db.transaction_events)) duplicate
  write λ db'. record db' { transaction_events = e ∷ db'.transaction_events }

-- The message to the chaincode.
abbrev pub chaincode_event : EventRow → String → TransactionEvent
chaincode_event e new_status = record {
  transaction_id = e.transaction_id;
  event_sequence = pos e.event_sequence;
  event_type = e.event_type;
  payload_hash = e.payload_hash;
  previous_event_hash = e.previous_event_hash;
  algorithm_suite = e.algorithm_suite;
  classical_key_id = e.classical_key_id;
  pqc_key_id = e.pqc_key_id;
  classical_signature = e.classical_signature;
  pqc_signature = e.pqc_signature;
  idempotency_key = e.idempotency_key;
  created_at_server = e.created_at_server;
  new_status = new_status;
}

abbrev pub with_status : String → TransactionRow → TransactionRow
with_status new_status row = record row {
  status = if str_eq new_status "" then row.status else new_status;
}

abbrev pub advance_row : Bool → String → TransactionRow → Database → Database
advance_row true id row db = record db { transactions = insert id row db.transactions }
advance_row false id row db = db

module _ (site : Site) (req : Request) where
  -- The row of the event, once the payload is signed.
  abbrev pub event_row : EventInput → String → Option EventRow → HybridSignature × String → EventRow
  event_row input key last (sig, hash) = record {
    id = site.uuid (suc req.serial);
    transaction_id = input.transaction_id;
    event_sequence = next_sequence last;
    event_type = input.event_type;
    payload_hash = hash;
    previous_event_hash = previous_hash last;
    algorithm_suite = sig.algorithm_suite;
    classical_key_id = sig.classical_key_id;
    pqc_key_id = sig.pqc_key_id;
    classical_signature = sig.classical_signature;
    pqc_signature = sig.pqc_signature;
    idempotency_key = key;
    created_at_server = req.now;
    payload = input.payload;
    actor_id = input.signer_identity;
  }

  abbrev pub event_context : EventInput → TransactionRow → SigningContext
  event_context input row = record {
    application = site.application;
    environment = site.environment;
    transaction_type = input.event_type;
    schema_version = row.schema_version;
    transaction_id = input.transaction_id;
  }

  -- `if in.IdempotencyKey == ""`
  abbrev pub event_key_of : EventInput → String
  event_key_of input =
      if str_eq input.idempotency_key "" then site.uuid req.serial else input.idempotency_key

  -- The writes of appendTransactionEvent.
  unfoldable pub store_event_row : EventRow → TransactionRow → String → Bool → Tx DbError (Unit {0})
  store_event_row e row new_status update_read_model = do
    insert_event (req.up "insert event") e
    enqueue_outbox (req.up "queue event") (Queued.record_event (chaincode_event e new_status))
    require (not (update_read_model && not (str_eq new_status "")) || req.up "update status") failed
    write λ db. advance_row update_read_model e.transaction_id (with_status new_status row) db

  -- appendTransactionEvent
  unfoldable pub append_transaction_event : EventInput → Bool → Tx DbError EventRow
  append_transaction_event input update_read_model = do
    require (req.up "select schema") failed
    db ← read
    row ← or_fail (lookup input.transaction_id db.transactions) no_rows
    require (req.up "select last event") failed
    let last = last_event input.transaction_id db.transaction_events
    identity ← or_fail (site.signing_identity input.signer_identity) failed
    signed ← or_failed (
        sign_hybrid site.primitives identity (event_context input row)
          (site.payload_hash input.payload))
    let e = event_row input (event_key_of input) last signed
    store_event_row e row input.new_status update_read_model
    pure e
