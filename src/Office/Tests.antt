-- ===== src/Office/Tests.antt =====
-- A history of the office: a request is created, submitted, approved with a TTD signature and completed.
use Prim.Native.String.{◌++◌, count}
use text.Mathlib.TextLemmas.{length-append}
use aplikasi_transaksi_kanto.Base.{
  ℕ, ◌≡◌, ◌≢◌, ◌+◌, ◌==◌, refl, sym, ap, ◌∙◌, str_eq_ne, true, false, none, some, Option, String,
  List, [], ◌∷◌, arith, length, str_eq, Bool,
}
use aplikasi_transaksi_kanto.Base.Int64.{pos}
use aplikasi_transaksi_kanto.Base.Format.{sprintf_09d}
use aplikasi_transaksi_kanto.Store.Dict.{lookup, insert}
use aplikasi_transaksi_kanto.Crypto.Hybrid.{
  HybridSignature, Bytes, Primitives, SigningIdentity, returned, sign_hybrid, sign_classical,
  sign_mldsa,
}
use aplikasi_transaksi_kanto.Ledger.Stub.{peer, ok}
use aplikasi_transaksi_kanto.Ledger.Table.{contains}
use aplikasi_transaksi_kanto.Ledger.Transaction.Contract.Record.{World}
use aplikasi_transaksi_kanto.Ledger.Transaction.Contract.Chain.{Linked}
use aplikasi_transaksi_kanto.Ledger.Transaction.Contract.Reach.{genesis}
use aplikasi_transaksi_kanto.Crypto.Hybrid.Tests.{lengths, zeros}
use aplikasi_transaksi_kanto.Office.Types.{OfficeIdentity, TransactionRow, Store, empty_store}
use aplikasi_transaksi_kanto.Office.Database.{transact, ok as ok_office, err, pure}
use aplikasi_transaksi_kanto.Office.Events.{
  Site, Request, last_event, next_sequence, event_context, previous_hash, has_key, has_sequence,
  has_ttd, insert_event, store_event_row, append_transaction_event,
}
use aplikasi_transaksi_kanto.Office.Events.Laws.{IsSite}
use aplikasi_transaksi_kanto.Office.Roles.{can_transition, office_transitions, perms_for}
use aplikasi_transaksi_kanto.Office.Auth.{Headers, office_auth, office_set_role}
use aplikasi_transaksi_kanto.Office.Actions.{
  not_found, step_input, lock_txn, action_body, office_action, simple_step, office_submit,
  office_complete,
}
use aplikasi_transaksi_kanto.Office.Documents.{put_object, store_document}
use aplikasi_transaksi_kanto.Office.Create.{
  Form, has_prefix, check_form, insert_transaction, create_rows, office_create_transaction,
  draft_row,
}
use aplikasi_transaksi_kanto.Office.Decision.{
  TtdVerifier, DecisionRequest, submissions, first_attachment, verify_ttd_approval,
  decision_payload, record_decision, apply_decision, check_decision, office_decision,
}
use aplikasi_transaksi_kanto.Office.History.{Route, route, handle, serve}
use aplikasi_transaksi_kanto.Ledger.Transaction.Status.{is_transition_allowed}
use aplikasi_transaksi_kanto.Office.Actions.Laws.{can_transition_correct}
use aplikasi_transaksi_kanto.Office.Answers.{office_action_hidden}
use aplikasi_transaksi_kanto.Office.Answers.Approval.{IsEndorsed, office_decision-IsEndorsed}
use aplikasi_transaksi_kanto.Office.Answers.Submit.{office_submit_succeeds}
use aplikasi_transaksi_kanto.Office.Ledger.{IsServing, replay, Mirrors, last_number}
use aplikasi_transaksi_kanto.Office.Ledger.History.{office_outbox_accepted}
use aplikasi_transaksi_kanto.Office.Ledger.Linked.{office_outbox-Linked}

some_creator : {r row : TransactionRow} → some r ≡ some row → r.created_by ≡ row.created_by
some_creator h = cc

-- Post-quantum signatures one byte longer than the key.
abbrev pub marks : Bytes → Bytes → Bool
marks k s = length s == length k + 1

pub marks_self : (k : Bytes) → marks k (1 ∷ k) ≡ true
marks_self k = ground arith

abbrev pub longer : Primitives
longer = record lengths {
  mldsa_sign = λ k m. some (1 ∷ k);
  mldsa_accepts = λ k m s. marks k s;
  mldsa_correct = λ k m s h. (refl, ground (arith, h, marks_self k));
}

abbrev pub key_of : String → SigningIdentity
key_of id = record {
  classical_key_id = "c" ++ id;
  classical_private = zeros 64;
  pqc_key_id = "q" ++ id;
  pqc_private = 2 ∷ [];
}

abbrev pub site : Site
site = record {
  primitives = longer;
  application = "office";
  environment = "test";
  signing_identity = λ id. some (key_of id);
  payload_hash = λ p. some "h";
  uuid = λ n. "u" ++ sprintf_09d (pos n);
  sha256_hex = λ b. "s256";
  sha512_hex = λ b. "s512";
  equal_fold = str_eq;
}

drawn : (n : ℕ) → site.uuid n ≢ ""
drawn n q = omega (arith, length-append "u" (sprintf_09d (pos n)), ap count q)

pub good : IsSite site
good = record { drawn = drawn; classical = λ k m. omega arith; pqc = λ k m s h. ground (arith, h) }

pub serving : IsServing peer
serving = record { legal = λ t xs. ((t, xs), refl); reads = λ k. refl; writes = λ k. refl }

abbrev pub req : ℕ → Request
req n = record { now = "now"; serial = n; up = λ name. true }

abbrev headers : String → String → Headers
headers account role = record {
  secret = "secret";
  account = account;
  email = "";
  name = account;
  role = role;
}

abbrev form : Form
form = record {
  title = "Laptop";
  category = "pengadaan";
  description = "";
  amount = some (pos 1000);
  file_name = "a.pdf";
  file = some (37 ∷ 80 ∷ 68 ∷ 70 ∷ 45 ∷ []);
}

abbrev ttd : TtdVerifier
ttd = record {
  record_of = λ id. some (record {
    public_id = id;
    account_id = "budi";
    original_sha512 = "s512";
    signed_sha512 = "s512";
    verification_status = "accepted";
    verification_url = "url";
  });
  signed_pdf = λ id. some (37 ∷ []);
}

abbrev txn : String
txn = "txn_u000000012"

abbrev requests : List (Request × Headers × Route)
requests =
    (req 0, headers "root" "admin", Route.set_role "budi" (some "approver"))
    ∷ (req 10, headers "ana" "user", Route.create form)
    ∷ (req 20, headers "ana" "user", Route.submit txn)
    ∷ (
      req 30,
      headers "budi" "user",
      Route.decision txn
          (some (record { decision = "approve"; ttd_public_id = "p1"; reason = "" })),
    )
    ∷ (req 40, headers "ana" "user", Route.complete txn)
    ∷ []

abbrev after : Store
after = serve site (some ttd) (some "secret") (λ id. none) requests empty_store

completed : Option String
completed = elim (lookup txn after.db.transactions) [ none ↦ none | some row ↦ some row.status ]

completed_run : completed ≡ some "COMMITTED"
unfolding completed serve handle route office_auth office_set_role transact
    office_create_transaction check_form has_prefix create_rows insert_transaction store_document
    put_object append_transaction_event last_event sign_hybrid sign_classical sign_mldsa
    store_event_row insert_event has_key has_sequence has_ttd lookup insert office_submit
    office_complete simple_step office_action action_body lock_txn can_transition office_transitions
    perms_for office_decision check_decision apply_decision submissions decision_payload
    verify_ttd_approval first_attachment record_decision sprintf_09d contains
completed_run = refl

queued_run : length after.db.outbox ≡ 6
unfolding completed serve handle route office_auth office_set_role transact
    office_create_transaction check_form has_prefix create_rows insert_transaction store_document
    put_object append_transaction_event last_event sign_hybrid sign_classical sign_mldsa
    store_event_row insert_event has_key has_sequence has_ttd lookup insert office_submit
    office_complete simple_step office_action action_body lock_txn can_transition office_transitions
    perms_for office_decision check_decision apply_decision submissions decision_payload
    verify_ttd_approval first_attachment record_decision sprintf_09d contains
queued_run = refl

office_outbox_accepted_example :
    (w : World peer) × (replay peer after.db.outbox (genesis peer) ≡ (ok tt, w))
    × Mirrors peer after.db.transactions after.db.transaction_events w
office_outbox_accepted_example =
    office_outbox_accepted peer site (some ttd) (some "secret") (λ id. none) good serving requests

office_outbox-Linked_example :
    (w : World peer) × (replay peer after.db.outbox (genesis peer) ≡ (ok tt, w))
    × ((id : String) (row : TransactionRow)
        → lookup id after.db.transactions ≡ some row
        → let last = last_event id after.db.transaction_events in
          Linked peer w.state id (last_number last) (previous_hash last))
office_outbox-Linked_example =
    office_outbox-Linked peer site (some ttd) (some "secret") (λ id. none) good serving requests
      (rw queued_run (omega arith))

abbrev draft_store : Store
draft_store =
    serve site (some ttd) (some "secret") (λ id. none)
      ((req 10, headers "ana" "user", Route.create form) ∷ []) empty_store

abbrev submitted_store : Store
submitted_store =
    serve site (some ttd) (some "secret") (λ id. none)
      ((req 20, headers "ana" "user", Route.submit txn) ∷ []) draft_store

abbrev pub person : String → String → OfficeIdentity
person id office_role = record {
  id = id;
  email = "";
  name = id;
  ttd_role = "user";
  office_role = office_role;
  org_id = "";
  org_name = "";
}

abbrev approval : DecisionRequest
approval = record { decision = "approve"; ttd_public_id = "p1"; reason = "" }

abbrev approved_store : Store
approved_store =
    (office_decision site (some ttd) (req 30) (person "budi" "approver") txn (some approval)
      submitted_store).1

approved_run :
    office_decision site
      (some ttd)
      (req 30)
      (person "budi" "approver")
      txn
      (some approval)
      submitted_store
    ≡ (ok_office tt, approved_store)
unfolding serve handle route office_auth office_set_role transact office_create_transaction
    check_form has_prefix create_rows insert_transaction store_document put_object
    append_transaction_event last_event sign_hybrid sign_classical sign_mldsa store_event_row
    insert_event has_key has_sequence has_ttd lookup insert office_submit office_complete
    simple_step office_action action_body lock_txn can_transition office_transitions perms_for
    office_decision check_decision apply_decision submissions decision_payload verify_ttd_approval
    first_attachment record_decision sprintf_09d contains
approved_run = refl

office_decision-IsEndorsed_example :
    IsEndorsed site
      (some ttd)
      (req 30)
      (person "budi" "approver")
      txn
      approval
      submitted_store
      approved_store
office_decision-IsEndorsed_example =
    office_decision-IsEndorsed site (some ttd) (req 30) good (person "budi" "approver") txn approval
      submitted_store refl approved_run

of_ana :
    (row : TransactionRow)
    → lookup txn submitted_store.db.transactions ≡ some row
    → row.created_by ≡ "ana"
unfolding serve handle route office_auth office_set_role transact office_create_transaction
    check_form has_prefix create_rows insert_transaction store_document put_object
    append_transaction_event last_event sign_hybrid sign_classical sign_mldsa store_event_row
    insert_event has_key has_sequence has_ttd lookup insert office_submit office_complete
    simple_step office_action action_body lock_txn can_transition office_transitions perms_for
    office_decision check_decision apply_decision submissions decision_payload verify_ttd_approval
    first_attachment record_decision sprintf_09d contains
of_ana row h = sym (some_creator h)

office_action_hidden_example :
    office_action
      (req 40)
      (person "carol" "requester")
      txn
      (λ me by status. none)
      (λ me by. pure tt)
      submitted_store
    ≡ (err not_found, submitted_store)
office_action_hidden_example =
    office_action_hidden (req 40) (person "carol" "requester") txn (λ me by status. none)
      (λ me by. pure tt) submitted_store refl
      (λ row h q. str_eq_ne "ana" "carol" refl (sym (of_ana row h) ∙ q)) refl refl

abbrev draft_row_of_ana : TransactionRow
draft_row_of_ana =
    draft_row "ana"
      (record { title = "Laptop"; category = "pengadaan"; amount = pos 1000; description = "" })

drafted :
    (lookup txn draft_store.db.transactions ≡ some draft_row_of_ana)
    × (has_key "u000000020" draft_store.db.transaction_events ≡ false)
    × (next_sequence (last_event txn draft_store.db.transaction_events) ≡ 2)
unfolding serve handle route office_auth office_set_role transact office_create_transaction
    check_form has_prefix create_rows insert_transaction store_document put_object
    append_transaction_event last_event sign_hybrid sign_classical sign_mldsa store_event_row
    insert_event has_key has_sequence has_ttd lookup insert office_submit office_complete
    simple_step office_action action_body lock_txn can_transition office_transitions perms_for
    office_decision check_decision apply_decision submissions decision_payload verify_ttd_approval
    first_attachment record_decision sprintf_09d contains
drafted = (refl, refl, refl)

abbrev signed : HybridSignature × String
signed = (
  record {
    algorithm_suite = "HYBRID_ED25519_MLDSA65_V1";
    classical_key_id = "cana";
    pqc_key_id = "qana";
    classical_signature = zeros 64;
    pqc_signature = 1 ∷ 2 ∷ [];
  },
  "h",
)

signed_run :
    sign_hybrid longer
      (key_of "ana")
      (event_context site
        (req 20)
        (step_input (req 20) site (person "ana" "requester") txn "SUBMITTED" "VERIFIED")
        draft_row_of_ana)
      (some "h")
    ≡ returned (some signed)
unfolding sign_hybrid sign_classical sign_mldsa
signed_run = refl

key_drawn : site.uuid 20 ≡ "u000000020"
unfolding sprintf_09d
key_drawn = refl

office_submit_succeeds_example :
    (t : Store) × (office_submit (req 20) site (person "ana" "requester") txn draft_store
      ≡ (ok_office tt, t))
    × (lookup txn t.db.transactions ≡ some (record draft_row_of_ana { status = "VERIFIED" }))
office_submit_succeeds_example =
    office_submit_succeeds site (req 20) (person "ana" "requester") txn draft_store draft_row_of_ana
      (key_of "ana") signed (λ name. refl) drafted.0 refl refl refl refl signed_run
      (rw key_drawn drafted.1) (rw drafted.2 (omega arith))

can_transition_correct_example :
    can_transition "VERIFIED" "ENDORSED" ≡ is_transition_allowed "VERIFIED" "ENDORSED"
can_transition_correct_example =
    can_transition_correct "VERIFIED" "ENDORSED" (str_eq_ne "ENDORSED" "REVOKED" refl)
