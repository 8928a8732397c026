-- ===== src/Outbox.antt =====
-- api/internal/outbox/worker.go: the relay from the database to the ledger. The table is a list in
-- the order of `created_at`; a batch is given the answers of the gateway and of the database, by row.
mod Tests
pub mod Laws
use aplikasi_transaksi_kanto.Base.{
  ℕ, zero, suc, ◌+◌, ◌^◌, ltb, leb, Bool, true, false, ◌&&◌, Option, none, some, String, List, [],
  ◌∷◌, str_eq, if◌then◌else◌, length,
}

pub data OutboxStatus : Type 0 where
  pending sent dead_letter : OutboxStatus

-- A row; `args` is what its payload unmarshals to, `none` if it does not. Times are in seconds.
pub record OutboxRow : Type 0 where
  pub id : String
  pub chaincode_name : String
  pub fn_name : String
  pub args : Option (List String)
  pub attempts : ℕ
  pub aggregate_type : String
  pub aggregate_id : String
  pub status : OutboxStatus
  pub next_attempt_at : ℕ
  pub sent_at : Option ℕ

abbrev pub batch_size : ℕ
batch_size = 20

abbrev pub is_pending : OutboxStatus → Bool
is_pending pending = true
is_pending sent = false
is_pending dead_letter = false

-- The WHERE clause of the claim.
abbrev pub is_due : ℕ → OutboxRow → Bool
is_due now r = is_pending r.status && leb r.next_attempt_at now

-- The rows of a claim: the first `n` that are due.
pub claim : ℕ → ℕ → List OutboxRow → List OutboxRow
claim now zero rows = []
claim now (suc n) [] = []
claim now (suc n) (r ∷ rows) =
    let skip = claim now (suc n) rows in
    let take = claim now n rows in if is_due now r then r ∷ take else skip

-- 2^attempts seconds, at most a minute.
pub backoff : ℕ → ℕ
backoff attempts = let wait = 2 ^ attempts in if ltb wait 60 then wait else 60

-- An UPDATE of the rows with one id.
pub update_row : String → (OutboxRow → OutboxRow) → List OutboxRow → List OutboxRow
update_row id set [] = []
update_row id set (r ∷ rows) = (if str_eq r.id id then set r else r) ∷ update_row id set rows

-- What a batch meets: the time, the setting, whether the gateway commits a row's transaction, and
-- whether the database takes the update of its outcome.
pub record Pass : Type 0 where
  pub now : ℕ
  pub max_attempts : ℕ
  pub submitted : OutboxRow → Bool
  pub updated : OutboxRow → Bool

-- markFailed
pub mark_failed : Pass → OutboxRow → ℕ → List OutboxRow → List OutboxRow
mark_failed p r attempts rows =
    let status = if leb p.max_attempts attempts then dead_letter else pending in
    if p.updated r
    then update_row r.id
        (λ row. record row {
          status = status;
          attempts = attempts;
          next_attempt_at = p.now + backoff attempts;
        })
        rows
    else rows

-- submitOne
pub submit_one : Pass → OutboxRow → List OutboxRow → List OutboxRow
submit_one p r rows = elim r.args [
  | none ↦ mark_failed p r p.max_attempts rows
  | some args ↦
      if p.submitted r
      then (if p.updated r
          then update_row r.id (λ row. record row { status = sent; sent_at = some p.now }) rows
          else rows)
      else mark_failed p r (suc r.attempts) rows
]

pub submit_all : Pass → List OutboxRow → List OutboxRow → List OutboxRow
submit_all p [] rows = rows
submit_all p (r ∷ claimed) rows = submit_all p claimed (submit_one p r rows)

-- processBatch, where the claim succeeds: the number of rows and the table after it.
pub process_batch : Pass → List OutboxRow → ℕ × List OutboxRow
process_batch p rows =
    let claimed = claim p.now batch_size rows in (length claimed, submit_all p claimed rows)
