-- ===== src/Archive/Tests.antt =====
-- An upload of five bytes in two chunks, with a cut in between, and its archiving.
use aplikasi_transaksi_kanto.Base.{
  ℕ, ◌≡◌, refl, false, some, Option, String, [], ◌∷◌, arith, str_eq_ne,
}
use aplikasi_transaksi_kanto.Base.Int64.{pos}
use aplikasi_transaksi_kanto.Base.Format.{sprintf_09d}
use aplikasi_transaksi_kanto.Store.Dict.{lookup, insert, erase}
use aplikasi_transaksi_kanto.Crypto.Hybrid.{Bytes, sign_hybrid, sign_classical, sign_mldsa}
use aplikasi_transaksi_kanto.Ledger.Stub.{peer}
use aplikasi_transaksi_kanto.Office.Types.{OfficeIdentity, Payload, empty_store}
use aplikasi_transaksi_kanto.Office.Database.{transact}
use aplikasi_transaksi_kanto.Office.Events.{
  last_event, has_key, has_sequence, has_ttd, insert_event, store_event_row,
  append_transaction_event,
}
use aplikasi_transaksi_kanto.Office.Create.{insert_transaction}
use aplikasi_transaksi_kanto.Office.Tests.{site, good, serving, req, person}
use aplikasi_transaksi_kanto.Office.Ledger.Append.{HasMirror}
use aplikasi_transaksi_kanto.Office.Ledger.History.{empty_mirrored}
use aplikasi_transaksi_kanto.Archive.Types.{
  UploadRow, UploadRuntime, ItemRow, ArchiveState, empty_archive,
}
use aplikasi_transaksi_kanto.Archive.Bytes.{take, write_at}
use aplikasi_transaksi_kanto.Archive.Upload.{
  Chunk, received, open_upload, rehash, ensure_hashes, copied, copy_failed, write_chunk,
  upload_chunk, idle,
}
use aplikasi_transaksi_kanto.Archive.Upload.Laws.{IsSound, IsJudged, upload_chunk-IsJudged}
use aplikasi_transaksi_kanto.Archive.Finalize.{
  Archiving, archive_rows, archive_events, build_receipt, events_of, first_event,
}
use aplikasi_transaksi_kanto.Archive.Complete.{
  read_back_agrees, archive_finalize, CompleteAnswer, archived, complete_hashed, archive_complete,
}
use aplikasi_transaksi_kanto.Archive.Complete.Laws.{
  IsArchived, archive_complete-IsArchived, archive_finalize_mirrored,
}

abbrev ana : OfficeIdentity
ana = record (person "ana" "requester") { org_id = "kantor" }

abbrev upload : ℕ → UploadRow
upload n = record {
  id = "upl";
  sender_id = "ana";
  org_id = "kantor";
  file_name = "a.bin";
  media_type = "application/octet-stream";
  description = "";
  temp_path = "upl.part";
  client_ip = "";
  user_agent = "";
  status = "open";
  size = 5;
  received = n;
}

abbrev state : ℕ → Bytes → UploadRuntime → ArchiveState
state n file rt = record empty_archive {
  uploads = ("upl", upload n) ∷ [];
  runtimes = ("upl", rt) ∷ [];
  files = ("upl.part", file) ∷ [];
}

-- Two bytes are there, and a third that was written and not acknowledged.
abbrev before : ArchiveState
before = state 2 (1 ∷ 2 ∷ 9 ∷ []) idle

sound : IsSound "upl" (upload 2) (1 ∷ 2 ∷ 9 ∷ []) before
unfolding lookup
sound = record {
  row = refl;
  file = refl;
  there = omega arith;
  within = omega arith;
  hashes = λ g q r. absurd (ground arith);
}

abbrev rest : Chunk
rest = record { bytes = 3 ∷ 4 ∷ 5 ∷ []; cut = false }

taken_run : (upload_chunk (req 0) ana "upl" (some (pos 2)) rest before).0 ≡ received 5
unfolding upload_chunk open_upload rehash ensure_hashes copied copy_failed write_chunk take write_at
    lookup insert
taken_run = refl

upload_chunk-IsJudged_example :
    IsJudged "upl" 2
      (upload 2)
      (1 ∷ 2 ∷ 9 ∷ [])
      rest
      (upload_chunk (req 0) ana "upl" (some (pos 2)) rest before)
upload_chunk-IsJudged_example =
    upload_chunk-IsJudged (req 0) ana "upl" 2 (upload 2) (1 ∷ 2 ∷ 9 ∷ []) rest before sound

abbrev whole : Bytes
whole = 1 ∷ 2 ∷ 3 ∷ 4 ∷ 5 ∷ []

abbrev full : ArchiveState
full = state 5 whole idle

IsSound-full : IsSound "upl" (upload 5) whole full
unfolding lookup
IsSound-full = record {
  row = refl;
  file = refl;
  there = omega arith;
  within = omega arith;
  hashes = λ g q r. absurd (ground arith);
}

abbrev hash_of_body : Payload → Option String
hash_of_body p = some "b"

abbrev month : String → String
month now = "2026/01"

abbrev same_bytes : Bytes → Bytes
same_bytes b = b

abbrev answer : CompleteAnswer × ArchiveState
answer =
    archive_complete site (req 100) same_bytes month hash_of_body ana "server" "Kantor" "upl" "s256"
      full

abbrev blank : ItemRow
blank = record {
  id = "";
  receipt_id = "";
  transaction_id = "";
  organization_id = "";
  sender_id = "";
  file_name = "";
  media_type = "";
  size_bytes = 0;
  sha256 = "";
  sha512 = "";
  description = "";
  storage_key = "";
  client_ip = "";
  user_agent = "";
  received_at = "";
  manifest = [];
  manifest_hash = "";
  receipt = record {
    receipt_id = "";
    issued_at = "";
    transaction_id = "";
    manifest = [];
    manifest_hash = "";
    sender_event = record {
      id = "";
      transaction_id = "";
      event_sequence = 0;
      event_type = "";
      payload_hash = "";
      previous_event_hash = "";
      algorithm_suite = "";
      classical_key_id = "";
      pqc_key_id = "";
      classical_signature = [];
      pqc_signature = [];
      idempotency_key = "";
      created_at_server = "";
      payload = [];
      actor_id = "";
    };
    events = [];
    classical_signature = [];
    pqc_signature = [];
  };
}

abbrev item_of : CompleteAnswer → ItemRow
item_of (archived item) = item
item_of _ = blank

archived_run : answer ≡ (archived (item_of answer.0), answer.1)
unfolding archive_complete complete_hashed archive_finalize read_back_agrees archive_rows
    archive_events build_receipt events_of first_event open_upload rehash ensure_hashes take lookup
    insert erase transact insert_transaction append_transaction_event last_event sign_hybrid
    sign_classical sign_mldsa store_event_row insert_event has_key has_sequence has_ttd sprintf_09d
archived_run = refl

archive_complete-IsArchived_example :
    IsArchived site
      (req 100)
      same_bytes
      month
      hash_of_body
      ana
      "s256"
      (upload 5)
      whole
      (item_of answer.0)
      answer.1
archive_complete-IsArchived_example =
    archive_complete-IsArchived site (req 100) same_bytes month hash_of_body ana "server" "Kantor"
      "upl" "s256" (upload 5) whole full IsSound-full archived_run

abbrev archiving : Archiving
archiving = record {
  item_id = "arc";
  txn_id = "txn";
  receipt_id = "rcp";
  key = "archive/arc";
  sum256 = "s256";
  sum512 = "s512";
  org_name = "Kantor";
  server_name = "server";
}

archive_finalize_mirrored_example :
    HasMirror peer
      (archive_finalize site
        (req 100)
        same_bytes
        month
        hash_of_body
        ana
        (upload 5)
        archiving
        (some whole)
        empty_store).1.db
archive_finalize_mirrored_example =
    archive_finalize_mirrored site (req 100) same_bytes month hash_of_body peer good serving ana
      (upload 5) archiving (some whole) empty_store (str_eq_ne "txn" "" refl) (empty_mirrored peer)
