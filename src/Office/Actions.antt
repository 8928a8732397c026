-- ===== src/Office/Actions.antt =====
-- api/internal/httpapi/office.go: the frame of a state-changing request, and the three steps that need
-- no document.
pub mod Laws
use aplikasi_transaksi_kanto.Base.{
  ℕ, Bool, true, ◌&&◌, ◌||◌, not, Option, none, some, String, [], ◌∷◌, str_eq, if◌then◌else◌,
}
use aplikasi_transaksi_kanto.Store.Dict.{lookup}
use aplikasi_transaksi_kanto.Office.Types.{OfficeIdentity, Payload, text}
use aplikasi_transaksi_kanto.Office.Database.{
  Tx, DbError, no_rows, failed, panics, pure, fail, ◌>>=◌, ◌>>◌, require, or_fail, read, catch,
  transact,
}
use aplikasi_transaksi_kanto.Office.Events.{Site, Request, EventInput, append_transaction_event}
use aplikasi_transaksi_kanto.Office.Roles.{
  OfficePerms, perms_for, can_see_all, can_transition, office_workflow,
}

-- The status code with the message.
pub data HttpError : Type 0 where
  refused : ℕ → String → HttpError
  aborted : HttpError

abbrev pub internal_error : HttpError
internal_error = refused 500 "internal error"

abbrev pub not_found : HttpError
not_found = refused 404 "transaksi tidak ditemukan"

-- The answer to what no test tells apart; a panic leaves the request without one.
abbrev pub statement_answer : DbError → HttpError
statement_answer panics = aborted
statement_answer _ = internal_error

-- `errors.Is(err, pgx.ErrNoRows)`
abbrev pub lock_answer : DbError → HttpError
lock_answer no_rows = not_found
lock_answer _ = internal_error

module _ (req : Request) where
  -- lockTxn: the creator and the status.
  unfoldable pub lock_txn : String → Tx DbError (String × String)
  lock_txn id = do
    require (req.up "lock transaction") failed
    db ← read
    row ← or_fail (lookup id db.transactions) no_rows
    require (str_eq row.workflow_type office_workflow) no_rows
    pure (row.created_by, row.status)

  -- officeAction between Begin and Commit; `check` refuses with an answer.
  unfoldable pub action_body :
      OfficeIdentity
      → String
      → (OfficeIdentity → String → String → Option HttpError)
      → (OfficeIdentity → String → Tx HttpError (Unit {0}))
      → Tx HttpError (Unit {0})
  action_body me id check apply = do
    locked ← catch (lock_txn id) lock_answer
    require (not (not (can_see_all me) && not (str_eq locked.0 me.id))) not_found
    elim (check me locked.0 locked.1) [ none ↦ apply me locked.0 | some e ↦ fail e ]

  -- officeAction
  unfoldable pub office_action :
      OfficeIdentity
      → String
      → (OfficeIdentity → String → String → Option HttpError)
      → (OfficeIdentity → String → Tx HttpError (Unit {0}))
      → Tx HttpError (Unit {0})
  office_action me id check apply =
      transact (req.up "begin") (req.up "commit") internal_error (action_body me id check apply)

  abbrev pub step_payload : OfficeIdentity → String → String → Payload
  step_payload me event_type new_status =
      ("actor", text me.id)
      ∷ ("event_type", text event_type)
      ∷ ("new_status", text new_status)
      ∷ ("at", text req.now)
      ∷ []

  abbrev pub step_check :
      String → (OfficePerms → Bool) → String → OfficeIdentity → String → String → Option HttpError
  step_check new_status allowed deny_msg me created_by status =
      if not (allowed (perms_for me created_by status)) || not (can_transition status new_status)
      then some (refused 409 deny_msg)
      else none

  module _ (site : Site) where
    abbrev pub step_input : OfficeIdentity → String → String → String → EventInput
    step_input me id event_type new_status = record {
      transaction_id = id;
      event_type = event_type;
      signer_identity = me.id;
      payload = step_payload me event_type new_status;
      new_status = new_status;
      idempotency_key = "";
    }

    -- What simpleStep applies.
    abbrev pub step_apply :
        String → String → String → OfficeIdentity → String → Tx HttpError (Unit {0})
    step_apply id event_type new_status me created_by = do
      catch (append_transaction_event site req (step_input me id event_type new_status) true)
          statement_answer
      pure tt

    -- simpleStep
    unfoldable pub simple_step :
        OfficeIdentity
        → String
        → String
        → String
        → (OfficePerms → Bool)
        → String
        → Tx HttpError (Unit {0})
    simple_step me id event_type new_status allowed deny_msg =
        office_action me id (step_check new_status allowed deny_msg)
          (step_apply id event_type new_status)

    unfoldable pub office_submit : OfficeIdentity → String → Tx HttpError (Unit {0})
    office_submit me id =
        simple_step me id "SUBMITTED" "VERIFIED" (λ p. p.can_submit)
          "hanya pembuat yang dapat mengirim transaksi berstatus DRAFT"

    unfoldable pub office_complete : OfficeIdentity → String → Tx HttpError (Unit {0})
    office_complete me id =
        simple_step me id "COMPLETED" "COMMITTED" (λ p. p.can_complete)
          "transaksi hanya dapat diselesaikan oleh pembuat/admin setelah disetujui"

    unfoldable pub office_cancel : OfficeIdentity → String → Tx HttpError (Unit {0})
    office_cancel me id =
        simple_step me id "CANCELLED" "CANCELLED" (λ p. p.can_cancel)
          "hanya pembuat yang dapat membatalkan DRAFT/menunggu persetujuan"
