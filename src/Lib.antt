-- ===== src/Lib.antt =====
-- The verification library of the office transaction system: a permissioned ledger for transactions and
-- assets with hybrid (Ed25519 and ML-DSA-65) signatures, and the signing service for documents.
--
-- How the parts work together. The API writes an event and an outbox row in one database transaction; the
-- outbox worker submits the row to the ledger, where a chaincode checks it and appends it; the indexer
-- hears of the commit and marks the row of the read model; the audit service reads the ledger and
-- verifies both signatures of every event again. The signing service keeps accounts, devices,
-- certificates and signatures in a store of its own.
--
-- Which file models what (paths from the root of the repository):
--   Base: numbers, text tests, Go's 64-bit integers and fmt.Sprintf("%09d").
--   Ledger/Stub: the chaincode stub, as an interface of composite keys, reads and writes, and the monad
--     of chaincode calls; Ledger/Stub/Peer is a peer to run the contracts on.
--   Ledger/Transaction: chaincode/transaction/chaincode/contract.go. Status has the status table,
--     Contract the data and one function for each of CreateTransaction, GetTransaction, RecordEvent and
--     Approve. RecordEvent is composed of check_event, check_linkage and store_event, its three stretches.
--     Record and Approve say what an accepted call means, Chain and Reach hold the hash chain on every
--     ledger that calls reach, Lasting and Once what is refused for good, Outcome when an event is taken.
--   Ledger/Asset: chaincode/asset/chaincode/contract.go, in the same way.
--   Crypto: crypto/signing_context.go, suite.go, classical.go, mldsa.go and hybrid.go. A call of ed25519 with
--     a key of the wrong length panics, and an Outcome says so of every call that may.
--   Audit: audit-service/internal/verify. The loops of Transaction and Asset have the same body, which
--     event_result and check_history model once; what the two pass on differs, and is transaction_evidence
--     and custody_evidence.
--   Indexer: indexer/main.go (applyEvent, the stream loop of runListener), internal/apply and
--     internal/checkpoint.
--   Outbox: api/internal/outbox/worker.go, one worker's batch.
--   Office: api/internal/httpapi. Types has the rows of the tables, Database the monad of statements in one
--     database transaction, Events appendTransactionEvent of events.go; Roles, Actions, Documents, Create
--     and Decision are office.go and the roles of office_auth.go, Auth is officeAuth and officeSetRole,
--     History a sequence of requests on one store. Ledger runs the queued calls on the transaction
--     chaincode and says what a ledger that mirrors the tables is; Answers is about single requests.
--   Archive: api/internal/httpapi/archive.go. Upload has the session with its chunks and running hashes,
--     Finalize the database transaction of archiveFinalize and the receipt, Complete the rest of it and
--     archiveComplete; Bytes is the scratch file.
--   Store: ttd/server/internal/store/store.go and memory.go. A Go map is an association list.
--   AdminLogin: ttd/server/internal/api/adminsecurity.go (hLoginTOTP and the lockout) and VerifyTOTP of
--     ttd/server/internal/auth/totp.go, on the store; AdminLogin/Enrolment has totp_begin, totp_confirm,
--     totp_disable and reset_admin_security for the handlers that set up one-time codes.
--
-- Bounds. Sequence numbers are int64 and wrap; the hash chain is stated below 2^63 - 1 calls, where none
-- has. The digits of a number are
-- made on fuel, the number and the width together, which is never less than the digits to be written.
-- A row's event_sequence is a natural number below 2^31, which the INSERT checks as the column does.
-- Every loop is structural recursion on a list. Times and block numbers are natural numbers.
--
-- Not modelled: the JSON encodings (a document is the struct that it holds), the range reads GetEventHistory
-- and GetCustodyHistory, canonical JSON, the HMAC of one-time codes, SQL and HTTP, and concurrency: a
-- method of the store holds its mutex, a chaincode call is one step, as Fabric commits it, and a request of
-- the office is one step, since it locks the row. Of the API the listings, the legacy routes, the archive's
-- janitor, its administration and the public check of a receipt are left out for now. A hash that runs over
-- an upload is given by the bytes that went through it. The ids that google/uuid draws are taken not to
-- repeat where they are primary keys of events, documents and approvals. The
-- signature algorithms (ed25519 for keys of the right length), the peer, the gateway, the database's answers and the clock are parameters.
pub mod Base
pub mod Ledger
pub mod Store
pub mod Crypto
pub mod Audit
pub mod Indexer
pub mod Outbox
pub mod AdminLogin
pub mod Office
pub mod Archive
