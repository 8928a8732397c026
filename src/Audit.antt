-- ===== src/Audit.antt =====
-- audit-service/internal/verify/types.go and verify.go: a ledger history checked again. The
-- database's `key_reference` table and the ledger's two queries are parameters, each with the
-- answers that the code tells apart; a payload that does not unmarshal is a failed query.
mod Tests
pub mod Event
pub mod Laws
use aplikasi_transaksi_kanto.Base.{
  ℕ, Bool, true, false, ◌&&◌, ◌||◌, not, Option, none, some, String, List, [], ◌∷◌, ◌++◌, str_eq,
  if◌then◌else◌, length, map,
}
use Prim.Native.String as Text
use aplikasi_transaksi_kanto.Base.Int64.{ℤ}
use aplikasi_transaksi_kanto.Crypto.Context.{SigningContext}
use aplikasi_transaksi_kanto.Crypto.Hybrid.{
  Bytes, Primitives, HybridSignature, VerificationKeys, VerifyHybridResult, CryptoError,
  verify_hybrid_with_hash, Outcome, returned, panicked,
}

pub record WireTransaction : Type 0 where
  pub id : String
  pub organization_id : String
  pub workflow_type : String
  pub schema_version : String
  pub created_by : String
  pub status : String
  pub latest_event_sequence : ℤ
  pub latest_event_payload_hash : String

pub record WireTransactionEvent : Type 0 where
  pub transaction_id : String
  pub event_sequence : ℤ
  pub event_type : String
  pub payload_hash : String
  pub previous_event_hash : String
  pub algorithm_suite : String
  pub classical_key_id : String
  pub pqc_key_id : String
  pub classical_signature : Bytes
  pub pqc_signature : Bytes
  pub idempotency_key : String
  pub created_at_server : String
  pub new_status : String

pub record WireCustodyEvent : Type 0 where
  pub asset_id : String
  pub event_sequence : ℤ
  pub from_party : String
  pub to_party : String
  pub location_zone : String
  pub condition_note : String
  pub inspection_result : String
  pub payload_hash : String
  pub previous_event_hash : String
  pub algorithm_suite : String
  pub classical_key_id : String
  pub pqc_key_id : String
  pub classical_signature : Bytes
  pub pqc_signature : Bytes
  pub idempotency_key : String
  pub created_at_server : String
  pub new_status : String

pub data KeyError : Type 0 where
  no_key_reference database_failure : KeyError

-- The texts of `Reasons`, by what they report.
pub data Reason : Type 0 where
  hash_mismatch : String → String → Reason
  classical_key pqc_key : String → KeyError → Reason
  crypto_failure : CryptoError → Reason

pub record EventResult : Type 0 where
  pub event_sequence : ℤ
  pub suite_allowed : Bool
  pub classical_valid : Bool
  pub pqc_valid : Bool
  pub hash_chain_valid : Bool
  pub key_revoked : Bool
  pub valid : Bool
  pub reasons : List Reason

pub record Receipt : Type 0 where
  pub id : String
  pub overall_valid : Bool
  pub event_count : ℕ
  pub events : List EventResult

-- The answer to the query of `lookupKey`.
pub data KeyRow : Type 0 where
  no_rows query_error : KeyRow
  row : Bytes → String → KeyRow

pub record Verifier : Type 0 where
  pub db : String → KeyRow
  pub application : String
  pub environment : String

-- The two queries of a channel's contracts.
pub record Channel : Type 0 where
  pub get_transaction : String → Option WireTransaction
  pub get_event_history : String → Option (List WireTransactionEvent)
  pub get_custody_history : String → Option (List WireCustodyEvent)

pub data LookupResult : Type 0 where
  key_error : KeyError → LookupResult
  key_found : Bytes → Bool → LookupResult

-- lookupKey: the public key and whether it is revoked.
pub lookup_key : Verifier → String → LookupResult
lookup_key v key_id = elim (v.db key_id) [
  | no_rows ↦ key_error no_key_reference
  | query_error ↦ key_error database_failure
  | row public_key status ↦ key_found public_key (str_eq status "revoked")
]

-- What the loop of `Transaction` or `Asset` passes on of one event.
pub record Evidence : Type 0 where
  pub event_sequence : ℤ
  pub previous_event_hash : String
  pub payload_hash : String
  pub context : SigningContext
  pub algorithm_suite : String
  pub classical_key_id : String
  pub pqc_key_id : String
  pub classical_signature : Bytes
  pub pqc_signature : Bytes

abbrev pub transaction_evidence :
    Verifier → WireTransaction → String → WireTransactionEvent → Evidence
transaction_evidence v txn transaction_id evt = record {
  event_sequence = evt.event_sequence;
  previous_event_hash = evt.previous_event_hash;
  payload_hash = evt.payload_hash;
  context = record {
    application = v.application;
    environment = v.environment;
    transaction_type = evt.event_type;
    schema_version = txn.schema_version;
    transaction_id = transaction_id;
  };
  algorithm_suite = evt.algorithm_suite;
  classical_key_id = evt.classical_key_id;
  pqc_key_id = evt.pqc_key_id;
  classical_signature = evt.classical_signature;
  pqc_signature = evt.pqc_signature;
}

abbrev pub custody_evidence : Verifier → String → WireCustodyEvent → Evidence
custody_evidence v asset_id evt = record {
  event_sequence = evt.event_sequence;
  previous_event_hash = evt.previous_event_hash;
  payload_hash = evt.payload_hash;
  context = record {
    application = v.application;
    environment = v.environment;
    transaction_type = Text.◌++◌ "ASSET_CUSTODY_" evt.new_status;
    schema_version = "custody_event.v1";
    transaction_id = asset_id;
  };
  algorithm_suite = evt.algorithm_suite;
  classical_key_id = evt.classical_key_id;
  pqc_key_id = evt.pqc_key_id;
  classical_signature = evt.classical_signature;
  pqc_signature = evt.pqc_signature;
}

abbrev pub crypto_reasons : Option CryptoError → List Reason
crypto_reasons none = []
crypto_reasons (some e) = crypto_failure e ∷ []

-- The end of `verifySignature`, once both keys are there.
abbrev pub with_keys :
    Primitives → EventResult → Evidence → Bytes → Bool → Bytes → Bool → Outcome EventResult
with_keys p result e classical_public classical_revoked pqc_public pqc_revoked =
    elim (verify_hybrid_with_hash p
      (record { classical_public = classical_public; pqc_public = pqc_public })
      (record {
        algorithm_suite = e.algorithm_suite;
        classical_key_id = "";
        pqc_key_id = "";
        classical_signature = e.classical_signature;
        pqc_signature = e.pqc_signature;
      })
      e.context e.payload_hash) [
        | panicked ↦ panicked
        | returned (verify_result, err) ↦ returned (record result {
          key_revoked = classical_revoked || pqc_revoked;
          reasons = result.reasons ++ crypto_reasons err;
          suite_allowed = verify_result.suite_allowed;
          classical_valid = verify_result.classical_valid;
          pqc_valid = verify_result.pqc_valid;
        })
      ]

-- `result.Valid`
abbrev pub judged : Outcome EventResult → Outcome EventResult
judged panicked = panicked
judged (returned result) = returned (record result {
  valid =
      result.suite_allowed
      && result.classical_valid
      && result.pqc_valid
      && result.hash_chain_valid
      && not result.key_revoked;
})

abbrev pub some_receipt : Outcome Receipt → Outcome (Option Receipt)
some_receipt panicked = panicked
some_receipt (returned receipt) = returned (some receipt)

module _ (p : Primitives) (v : Verifier) where
  -- verifySignature
  pub verify_signature : EventResult → Evidence → Outcome EventResult
  verify_signature result e = elim (lookup_key v e.classical_key_id) [
    | key_error err ↦
        returned (record result {
          reasons = result.reasons ++ (classical_key e.classical_key_id err ∷ []);
        })
    | key_found classical_public classical_revoked ↦ elim (lookup_key v e.pqc_key_id) [
      | key_error err ↦
          returned (record result { reasons = result.reasons ++ (pqc_key e.pqc_key_id err ∷ []) })
      | key_found pqc_public pqc_revoked ↦
          with_keys p result e classical_public classical_revoked pqc_public pqc_revoked
    ]
  ]

  -- The result before `verifySignature`, with the link to the prior event checked.
  abbrev pub linked_result : String → Evidence → EventResult
  linked_result previous_hash e =
      let linked = str_eq e.previous_event_hash previous_hash in
      record {
        event_sequence = e.event_sequence;
        suite_allowed = false;
        classical_valid = false;
        pqc_valid = false;
        hash_chain_valid = linked;
        key_revoked = false;
        valid = false;
        reasons = if linked then [] else hash_mismatch e.previous_event_hash previous_hash ∷ [];
      }

  -- The body of both loops.
  pub event_result : String → Evidence → Outcome EventResult
  event_result previous_hash e = judged (verify_signature (linked_result previous_hash e) e)

  -- The loops, with the receipt and `previousHash` as they stand.
  pub check_history : Receipt → String → List Evidence → Outcome Receipt
  check_history receipt previous_hash [] = returned receipt
  check_history receipt previous_hash (e ∷ rest) = elim (event_result previous_hash e) [
    | panicked ↦ panicked
    | returned result ↦
        check_history
          (record receipt {
            overall_valid = if result.valid then receipt.overall_valid else false;
            events = receipt.events ++ (result ∷ []);
          })
          e.payload_hash rest
  ]

  abbrev new_receipt : String → List Evidence → Receipt
  new_receipt id history = record {
    id = id;
    overall_valid = true;
    event_count = length history;
    events = [];
  }

  -- Transaction; no receipt where a query fails.
  pub verify_transaction : Channel → String → Outcome (Option Receipt)
  verify_transaction contract transaction_id = elim (contract.get_transaction transaction_id) [
    | none ↦ returned none
    | some txn ↦ elim (contract.get_event_history transaction_id) [
      | none ↦ returned none
      | some history ↦
          let evidence = map (transaction_evidence v txn transaction_id) history in
          some_receipt (check_history (new_receipt transaction_id evidence) "" evidence)
    ]
  ]

  -- Asset
  pub verify_asset : Channel → String → Outcome (Option Receipt)
  verify_asset contract asset_id = elim (contract.get_custody_history asset_id) [
    | none ↦ returned none
    | some history ↦
        let evidence = map (custody_evidence v asset_id) history in
        some_receipt (check_history (new_receipt asset_id evidence) "" evidence)
  ]
