-- ===== src/Archive/Upload.antt =====
-- api/internal/httpapi/archive.go: the upload session. A chunk is given by the bytes that the client sends
-- before the request ends, and by whether its connection is cut.
pub mod Laws
use Prim.Native.String.{◌++◌, count, len}
use aplikasi_transaksi_kanto.Base.{
  ℕ, suc, ◌+◌, ◌-◌, ltb, leb, ◌==◌, Bool, true, false, ◌&&◌, ◌||◌, not, Option, none, some, String,
  List, [], ◌∷◌, str_eq, if◌then◌else◌, length, ◌++◌ as ◌+++◌,
}
use aplikasi_transaksi_kanto.Base.Int64.{ℤ, pos, negsuc}
use aplikasi_transaksi_kanto.Store.Dict.{Dict, lookup, insert, erase}
use aplikasi_transaksi_kanto.Crypto.Hybrid.{Bytes}
use aplikasi_transaksi_kanto.Office.Types.{OfficeIdentity}
use aplikasi_transaksi_kanto.Office.Database.{Result, ok, err}
use aplikasi_transaksi_kanto.Office.Events.{Site, Request}
use aplikasi_transaksi_kanto.Office.Actions.{HttpError, refused, internal_error}
use aplikasi_transaksi_kanto.Archive.Types.{
  UploadRow, UploadRuntime, ArchiveState, archive_max_chunk, archive_default_max,
  archive_max_open_uploads, archive_disk_reserved,
}
use aplikasi_transaksi_kanto.Archive.Bytes.{take, write_at}

-- maxBytes of an ArchiveConfig
unfoldable pub max_bytes : ℤ → ℕ
max_bytes (pos n) = if ltb 0 n then n else archive_default_max
max_bytes (negsuc n) = archive_default_max

abbrev pub idle : UploadRuntime
idle = record { n = 0; hashed = none }

-- s.uploadRT
abbrev pub upload_runtime : String → ArchiveState → UploadRuntime
upload_runtime id st = elim (lookup id st.runtimes) [ none ↦ idle | some rt ↦ rt ]

abbrev pub with_runtime : String → UploadRuntime → ArchiveState → ArchiveState
with_runtime id rt st = record st { runtimes = insert id rt st.runtimes }

-- s.dropUploadRT
abbrev pub drop_runtime : String → ArchiveState → ArchiveState
drop_runtime id st = record st { runtimes = erase id st.runtimes }

abbrev upload_of : String → Option UploadRow → Option UploadRow
upload_of sender none = none
upload_of sender (some u) = if str_eq u.sender_id sender then some u else none

-- loadUpload
abbrev pub load_upload : String → String → ArchiveState → Option UploadRow
load_upload id sender st = upload_of sender (lookup id st.uploads)

abbrev pub upload_not_found : HttpError
upload_not_found = refused 404 "unggahan tidak ditemukan"

-- `errors.Is(err, pgx.ErrNoRows) || (err == nil && u.Status != "open")`, then any other error.
unfoldable pub open_upload : Bool → String → String → ArchiveState → Result HttpError UploadRow
open_upload up id sender st =
    if up
    then elim (load_upload id sender st) [
      | none ↦ err upload_not_found
      | some u ↦ if str_eq u.status "open" then ok u else err upload_not_found
    ]
    else err internal_error

-- What a request asks to open.
pub record UploadRequest : Type 0 where
  pub file_name : String
  pub size : ℤ
  pub media_type : String
  pub description : String
  pub client_ip : String
  pub user_agent : String

unfoldable pub open_uploads : String → Dict UploadRow → ℕ
open_uploads sender [] = 0
open_uploads sender ((id, u) ∷ rows) =
    let rest = open_uploads sender rows in
    if str_eq u.sender_id sender && str_eq u.status "open" then suc rest else rest

-- A media type that is missing or too long.
abbrev media_of : String → String
media_of media =
    if str_eq media "" || ltb 200 (len media) then "application/octet-stream" else media

abbrev no_space : ℕ → Option ℕ → Bool
no_space size none = false
no_space size (some free) = ltb free (size + archive_disk_reserved)

module _ (site : Site) (req : Request) where
  abbrev upload_row : OfficeIdentity → String → UploadRequest → ℕ → UploadRow
  upload_row me id input size = record {
    id = id;
    sender_id = me.id;
    org_id = me.org_id;
    file_name = input.file_name;
    media_type = media_of input.media_type;
    description = input.description;
    temp_path = id ++ ".part";
    client_ip = input.client_ip;
    user_agent = input.user_agent;
    status = "open";
    size = size;
    received = 0;
  }

  -- The checks of archiveCreateUpload, in their order; `free` is what freeDiskBytes answers, and the
  -- message on the size leaves the number out.
  unfoldable pub check_upload :
      OfficeIdentity
      → ℕ
      → Option ℕ
      → Option UploadRequest
      → ArchiveState
      → Result HttpError (UploadRequest × ℕ)
  check_upload me ceiling free none st =
      if str_eq me.org_id ""
      then err (refused 403 "akun Anda belum ditetapkan ke sebuah kantor. Hubungi admin pusat.")
      else err (refused 400 "JSON tidak valid")
  check_upload me ceiling free (some input) st =
      if str_eq me.org_id ""
      then err (refused 403 "akun Anda belum ditetapkan ke sebuah kantor. Hubungi admin pusat.")
      else elim (input.size) [
        | negsuc n ↦ err (refused 400 "ukuran tidak valid")
        | pos size ↦
            if ltb ceiling size
            then err (refused 413 "berkas melebihi batas server")
            else if ltb 2000 (count input.description)
            then err (refused 400 "keterangan maksimal 2000 karakter")
            else if no_space size free
            then err (refused 507 "ruang penyimpanan server tidak cukup untuk berkas ini")
            else if leb archive_max_open_uploads
                (if req.up "count uploads" then open_uploads me.id st.uploads else 0)
            then err (
                refused 429
                  "terlalu banyak unggahan yang belum selesai; selesaikan atau batalkan dulu")
            else ok (input, size)
      ]

  -- archiveCreateUpload; the answer is the upload's id.
  unfoldable pub create_upload :
      OfficeIdentity
      → ℕ
      → Option ℕ
      → Option UploadRequest
      → ArchiveState
      → Result HttpError String × ArchiveState
  create_upload me ceiling free body st =
      let id = "upl_" ++ site.uuid req.serial in
      elim (check_upload me ceiling free body st) [
        | err e ↦ (err e, st)
        | ok checked ↦
            if req.up "create scratch file" && req.up "insert upload"
            then (
              ok id,
              record st {
                files = insert (id ++ ".part") [] st.files;
                uploads = insert id (upload_row me id checked.0 checked.1) st.uploads;
              },
            )
            else (err internal_error, st)
      ]

-- The second part of ensureHashes: the hashes start again, over the file's first bytes.
unfoldable pub rehash : Bool → Option Bytes → ℕ → Bool × UploadRuntime
rehash readable file received =
    if received == 0 then (true, record { n = 0; hashed = some [] }) else elim file [
      | none ↦ (false, idle)
      | some f ↦
          if readable && length (take received f) == received
          then (true, record { n = received; hashed = some (take received f) })
          else (false, idle)
    ]

-- ensureHashes on the scratch file: whether there is no error, and the runtime it leaves.
unfoldable pub ensure_hashes : Bool → UploadRuntime → Option Bytes → ℕ → Bool × UploadRuntime
ensure_hashes readable rt file received = elim rt.hashed [
  | some given ↦ if rt.n == received then (true, rt) else rehash readable file received
  | none ↦ rehash readable file received
]

-- What a client sends.
pub record Chunk : Type 0 where
  pub bytes : Bytes
  pub cut : Bool

-- io.Copy from the body, behind http.MaxBytesReader and io.LimitReader(body, remaining+1).
unfoldable pub copied : ℕ → Chunk → Bytes
copied remaining chunk = take (suc remaining) (take archive_max_chunk chunk.bytes)

unfoldable pub copy_failed : ℕ → Chunk → Bool
copy_failed remaining chunk =
    (chunk.cut || ltb archive_max_chunk (length chunk.bytes))
    && ltb (length (copied remaining chunk)) (suc remaining)

-- The answers: the new offset, the offset that the server has, any other refusal.
pub data ChunkAnswer : Type 0 where
  received : ℕ → ChunkAnswer
  mismatch : ℕ → ChunkAnswer
  refused_chunk : HttpError → ChunkAnswer

-- What the running hashes have been given once more bytes went through them.
abbrev feed : UploadRuntime → Bytes → ℕ → UploadRuntime
feed rt bytes n = record {
  n = n;
  hashed = elim (rt.hashed) [ none ↦ none | some given ↦ some (given +++ bytes) ];
}

abbrev with_file : String → Bytes → ArchiveState → ArchiveState
with_file path file st = record st { files = insert path file st.files }

abbrev with_upload : String → UploadRow → ArchiveState → ArchiveState
with_upload id u st = record st { uploads = insert id u st.uploads }

-- `_ = f.Truncate(offset)`, and the hashes are forgotten.
abbrev roll_back : String → UploadRow → Bytes → ℕ → ArchiveState → ArchiveState
roll_back id u file offset st = with_runtime id idle (with_file u.temp_path (take offset file) st)

module _ (req : Request) where
  -- The write of a chunk, once the hashes are in step and the file is open.
  unfoldable pub write_chunk :
      String → UploadRow → UploadRuntime → Bytes → Chunk → ArchiveState → ChunkAnswer × ArchiveState
  write_chunk id u rt file chunk st =
      let offset = u.received in
      let remaining = u.size - offset in
      let bytes = copied remaining chunk in
      let file' = write_at offset bytes file in
      let undone = roll_back id u file' offset st in
      if copy_failed remaining chunk
      then (
        refused_chunk (refused 400 "pengiriman potongan terputus; lanjutkan dari offset server"),
        undone,
      )
      else if ltb remaining (length bytes)
      then (refused_chunk (refused 400 "data melebihi ukuran yang dideklarasikan"), undone)
      else if req.up "update received"
      then (
        received (offset + length bytes),
        with_upload id (record u { received = offset + length bytes })
            (with_runtime id (feed rt bytes (offset + length bytes))
              (with_file u.temp_path file' st)),
      )
      else (refused_chunk internal_error, undone)

  -- archiveUploadChunk; the offset is the header's, as strconv.ParseInt answers.
  unfoldable pub upload_chunk :
      OfficeIdentity → String → Option ℤ → Chunk → ArchiveState → ChunkAnswer × ArchiveState
  upload_chunk me id (some (pos offset)) chunk st =
      elim (open_upload (req.up "select upload") id me.id st) [
        | err e ↦ (refused_chunk e, with_runtime id (upload_runtime id st) st)
        | ok u ↦
            let file = lookup u.temp_path st.files in
            let (in_step, rt) =
              ensure_hashes (req.up "read scratch file") (upload_runtime id st) file u.received in
            let st' = with_runtime id rt st in
            if not (offset == u.received)
            then (mismatch u.received, with_runtime id (upload_runtime id st) st)
            else if not in_step
            then (refused_chunk internal_error, st')
            else elim file [
              | none ↦ (refused_chunk internal_error, st')
              | some f ↦
                  if req.up "open scratch file"
                  then write_chunk id u rt f chunk st'
                  else (refused_chunk internal_error, st')
            ]
      ]
  upload_chunk me id _ chunk st = elim (open_upload (req.up "select upload") id me.id st) [
    | err e ↦ (refused_chunk e, with_runtime id (upload_runtime id st) st)
    | ok u ↦ (
      refused_chunk (refused 400 "header Upload-Offset wajib"),
      with_runtime id (upload_runtime id st) st,
    )
  ]

  -- archiveAbort; an UPDATE that fails is not looked at.
  unfoldable pub abort_upload :
      OfficeIdentity → String → ArchiveState → Option HttpError × ArchiveState
  abort_upload me id st = elim (open_upload (req.up "select upload") id me.id st) [
    | err e ↦ (some upload_not_found, st)
    | ok u ↦ (
      none,
      drop_runtime id (record st {
        uploads =
            if req.up "update aborted"
            then insert id (record u { status = "aborted" }) st.uploads
            else st.uploads;
        files = erase u.temp_path st.files;
      }),
    )
  ]
