-- ===== src/Archive/Complete.antt =====
-- api/internal/httpapi/archive.go: an upload is completed. The object store keeps of the bytes it is given
-- what `keeps` says, `month` is time.Format with "2006/01", and the sums are those of the site.
pub mod Laws
use Prim.Native.String.{◌++◌}
use aplikasi_transaksi_kanto.Base.{
  ℕ, ◌+◌, ◌==◌, Bool, true, false, ◌&&◌, ◌||◌, not, Option, none, some, String, List, [], ◌∷◌,
  str_eq, if◌then◌else◌, length,
}
use aplikasi_transaksi_kanto.Store.Dict.{Dict, lookup, insert, erase}
use aplikasi_transaksi_kanto.Crypto.Hybrid.{Bytes}
use aplikasi_transaksi_kanto.Office.Types.{OfficeIdentity, Payload, Store}
use aplikasi_transaksi_kanto.Office.Database.{Result, ok, err, DbError, failed, transact}
use aplikasi_transaksi_kanto.Office.Events.{Site, Request}
use aplikasi_transaksi_kanto.Office.Actions.{HttpError, refused, aborted, internal_error}
use aplikasi_transaksi_kanto.Archive.Types.{UploadRow, UploadRuntime, ItemRow, ArchiveState}
use aplikasi_transaksi_kanto.Archive.Bytes.{take}
use aplikasi_transaksi_kanto.Archive.Upload.{
  open_upload, upload_runtime, with_runtime, drop_runtime, ensure_hashes,
}
use aplikasi_transaksi_kanto.Archive.Finalize.{Archiving, archive_rows}

abbrev with_objects : Dict Bytes → Store → Store
with_objects objects s = record s { objects = objects }

-- The answers that name more than a status code: an incomplete upload, another sum.
pub data CompleteAnswer : Type 0 where
  archived : ItemRow → CompleteAnswer
  incomplete : ℕ → ℕ → CompleteAnswer
  other_sum : String → String → CompleteAnswer
  refused_completion : HttpError → CompleteAnswer

module _ (site : Site) (req : Request) (keeps : Bytes → Bytes) (month : String → String)
    (body_hash : Payload → Option String) where
  -- PutStream of the first `size` bytes, GetStream, and whether what comes back has their length and sums.
  unfoldable pub read_back_agrees : UploadRow → Archiving → Bytes → Bool
  read_back_agrees u a stored =
      length stored == u.size
      && str_eq (site.sha256_hex stored) a.sum256
      && str_eq (site.sha512_hex stored) a.sum512

  -- archiveFinalize. A panic ends it as an error does; the request then has no answer in place of the
  -- completion's. The deferred Delete takes the object away unless everything went through.
  unfoldable pub archive_finalize :
      OfficeIdentity → UploadRow → Archiving → Option Bytes → Store → Option ItemRow × Store
  archive_finalize me u a none s = (none, s)
  archive_finalize me u a (some file) s =
      let stored = keeps (take u.size file) in
      let put = with_objects (insert a.key stored s.objects) s in
      let removed = with_objects (erase a.key put.objects) s in
      if not (req.up "open scratch file" && req.up "put object")
      then (none, s)
      else if not (req.up "get object" && read_back_agrees u a stored)
      then (none, removed)
      else (let (r, s') =
            transact (req.up "begin") (req.up "commit") failed
              (archive_rows site req me u a body_hash) put in
          elim r [
            | ok item ↦ (some item, s')
            | err e ↦ (none, with_objects (erase a.key s'.objects) s')
          ])

  abbrev pub archiving_of : String → UploadRow → String → String → String → Archiving
  archiving_of server_name u org_name sum256 sum512 = record {
    item_id = "arc_" ++ site.uuid (req.serial + 1);
    txn_id = "txn_" ++ site.uuid (req.serial + 2);
    receipt_id = "rcp_" ++ site.uuid (req.serial + 3);
    key =
        "archive/"
        ++ (u.org_id
            ++ ("/" ++ (month req.now ++ ("/" ++ ("arc_" ++ site.uuid (req.serial + 1))))));
    sum256 = sum256;
    sum512 = sum512;
    org_name = org_name;
    server_name = server_name;
  }

  -- After archiveFinalize: the row, the scratch file and the runtime; the UPDATE's error is not looked at.
  abbrev pub completed : String → UploadRow → ItemRow → Store → ArchiveState → ArchiveState
  completed id u item s st = drop_runtime id (record st {
    store = s;
    items = item ∷ st.items;
    uploads =
        if req.up "update completed"
        then insert id (record u { status = "completed" }) st.uploads
        else st.uploads;
    files = erase u.temp_path st.files;
  })

  -- The part of archiveComplete behind the checks on the row; `hashed` is what both hashes were given.
  unfoldable pub complete_hashed :
      OfficeIdentity
      → String
      → String
      → String
      → String
      → UploadRow
      → Bytes
      → ArchiveState
      → CompleteAnswer × ArchiveState
  complete_hashed me server_name org_name id client u hashed st =
      let sum256 = site.sha256_hex hashed in
      let sum512 = site.sha512_hex hashed in
      if str_eq client ""
      then (
        refused_completion
            (refused 400 "client_sha256 wajib: hash SHA-256 berkas yang dihitung browser"),
        st,
      )
      else if not (str_eq client sum256)
      then (other_sum sum256 client, st)
      else (let (item, s) =
            archive_finalize me u (archiving_of server_name u org_name sum256 sum512)
              (lookup u.temp_path st.files) st.store in
          elim item [
            | some i ↦ (archived i, completed id u i s st)
            | none ↦ (
              refused_completion
                  (refused 500 "gagal mengarsipkan berkas; tidak ada yang dicatat, silakan ulangi"),
              record st { store = s },
            )
          ])

  -- The completion's own text for an upload that is not there or not open.
  abbrev pub completion_answer : HttpError → HttpError
  completion_answer (refused code message) =
      refused code (if code == 404 then "unggahan tidak ditemukan atau sudah selesai" else message)
  completion_answer aborted = aborted

  -- archiveComplete; the client's sum is given trimmed, without its prefix and in lower case.
  unfoldable pub archive_complete :
      OfficeIdentity
      → String
      → String
      → String
      → String
      → ArchiveState
      → CompleteAnswer × ArchiveState
  archive_complete me server_name org_name id client st =
      elim (open_upload (req.up "select upload") id me.id st) [
        | err e ↦
            (refused_completion (completion_answer e), with_runtime id (upload_runtime id st) st)
        | ok u ↦
            if not (u.received == u.size)
            then (incomplete u.received u.size, with_runtime id (upload_runtime id st) st)
            else (let (in_step, rt) =
                  ensure_hashes (req.up "read scratch file") (upload_runtime id st)
                    (lookup u.temp_path st.files) u.received in
                let st' = with_runtime id rt st in
                if in_step
                then elim rt.hashed [
                  | some hashed ↦ complete_hashed me server_name org_name id client u hashed st'
                  | none ↦ (refused_completion internal_error, st')
                ]
                else (refused_completion internal_error, st'))
      ]
