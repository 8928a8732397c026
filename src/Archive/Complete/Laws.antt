-- ===== src/Archive/Complete/Laws.antt =====
-- What an archived item stands for: the stored bytes, the bytes received and the browser's sum agree.
use aplikasi_transaksi_kanto.Base.{
  ◌≡◌, ◌≢◌, ◌∙◌, refl, sym, ap, ◌&&◌, true, ◌==◌, none, some, Option, String, arith, str_eq_iff,
  Bool-cases, Option-cases, inl, inr, length,
}
use aplikasi_transaksi_kanto.Store.Dict.{lookup, insert, lookup-insert_self}
use aplikasi_transaksi_kanto.Crypto.Hybrid.{Bytes}
use aplikasi_transaksi_kanto.Ledger.Stub.{Shim}
use aplikasi_transaksi_kanto.Office.Types.{OfficeIdentity, Payload, Store}
use aplikasi_transaksi_kanto.Office.Database.{call-cases, transact, failed}
use aplikasi_transaksi_kanto.Office.Events.{Site, Request}
use aplikasi_transaksi_kanto.Office.Events.Laws.{IsSite}
use aplikasi_transaksi_kanto.Office.Answers.{transact_refused}
use aplikasi_transaksi_kanto.Office.Answers.Approval.{transact_committed}
use aplikasi_transaksi_kanto.Office.Ledger.{IsServing}
use aplikasi_transaksi_kanto.Office.Ledger.Append.{HasMirror, transact_keeps}
use aplikasi_transaksi_kanto.Archive.Types.{UploadRow, ItemRow, ArchiveState}
use aplikasi_transaksi_kanto.Archive.Bytes.{take}
use aplikasi_transaksi_kanto.Archive.Upload.{
  open_upload, upload_runtime, with_runtime, ensure_hashes,
}
use aplikasi_transaksi_kanto.Archive.Upload.Laws.{
  IsSound, ensure_hashes_correct, open_upload-row, result-cases,
}
use aplikasi_transaksi_kanto.Archive.Finalize.{Archiving, archive_rows}
use aplikasi_transaksi_kanto.Archive.Finalize.Laws.{archive_rows_mirrored}
use aplikasi_transaksi_kanto.Archive.Finalize.Item.{archive_rows_item}
use aplikasi_transaksi_kanto.Archive.Complete.{
  read_back_agrees, archive_finalize, archived, complete_hashed, archive_complete, archiving_of,
}

module _ (site : Site) (req : Request) (keeps : Bytes → Bytes) (month : String → String)
    (body_hash : Payload → Option String) where
  -- What an item stands for.
  pub record IsKept (me : OfficeIdentity) (u : UploadRow) (a : Archiving) (item : ItemRow)
      (t : Store) : Type 0 where
    pub stored : Bytes
    pub object : lookup item.storage_key t.objects ≡ some stored
    pub whole : length stored ≡ u.size
    pub sum256 : site.sha256_hex stored ≡ a.sum256
    pub sum512 : site.sha512_hex stored ≡ a.sum512
    pub recorded : (item.sha256 ≡ a.sum256) × (item.sha512 ≡ a.sum512) × (item.sender_id ≡ me.id)

  archive_finalize-IsKept :
      (me : OfficeIdentity) (u : UploadRow) (a : Archiving) (file : Option Bytes) (s : Store)
      {item : ItemRow} {t : Store}
      → archive_finalize site req keeps month body_hash me u a file s ≡ (some item, t)
      → IsKept me u a item t
  unfolding archive_finalize read_back_agrees
  archive_finalize-IsKept me u a none s h = absurd (ground arith)
  archive_finalize-IsKept me u a (some file) s {item} {t} h =
      let stored = keeps (take u.size file) in
      let put : Store = record s { objects = insert a.key stored s.objects } in
      let body = archive_rows site req me u a body_hash in
      elim (call-cases (transact (req.up "begin") (req.up "commit") failed body put)) [
        | inr (e, t', q) ↦ absurd (ground arith)
        | inl (item', t', q) ↦
            let (key, a256, a512, sender, objects) =
              archive_rows_item site req me u a body_hash put
                (transact_committed (req.up "begin") (req.up "commit") failed body put q) in
            let same_item : item ≡ item' = ground arith in
            let same_store : t ≡ t' = ground arith in
            record {
              stored = stored;
              object =
                  rw (same_item, same_store, key, objects)
                    (lookup-insert_self a.key stored s.objects);
              whole = ground arith;
              sum256 = ground (arith, str_eq_iff (site.sha256_hex stored) a.sum256);
              sum512 = ground (arith, str_eq_iff (site.sha512_hex stored) a.sum512);
              recorded = (rw same_item a256, rw same_item a512, rw same_item sender);
            }
      ]

  -- Archiving, whether it goes through or not, leaves an outbox that the chaincode accepts call by call, and
  -- a ledger that mirrors the database.
  pub archive_finalize_mirrored :
      (sh : Shim)
      → IsSite site
      → IsServing sh
      → (me : OfficeIdentity) (u : UploadRow) (a : Archiving) (file : Option Bytes) (s : Store)
      → a.txn_id ≢ ""
      → HasMirror sh s.db
      → HasMirror sh (archive_finalize site req keeps month body_hash me u a file s).1.db
  unfolding archive_finalize
  archive_finalize_mirrored sh good serving me u a none s named m = m
  archive_finalize_mirrored sh good serving me u a (some file) s named m =
      let stored = keeps (take u.size file) in
      let put : Store = record s { objects = insert a.key stored s.objects } in
      let body = archive_rows site req me u a body_hash in
      let kept = transact_keeps sh (req.up "begin") (req.up "commit") failed body put m (λ item t h.
        (archive_rows_mirrored sh site good serving req me u a body_hash put named m h).0) in
      elim (Bool-cases (req.up "open scratch file" && req.up "put object")) [
        | inr q ↦ rw q m
        | inl q ↦
            elim (Bool-cases
              (req.up "get object" && read_back_agrees site req keeps month body_hash u a stored)) [
                | inr q2 ↦ rw (q, q2) m
                | inl q2 ↦
                    elim (result-cases
                      (transact (req.up "begin") (req.up "commit") failed body put).0) [
                        | inr (e, q3) ↦ rw (q, q2, q3) kept
                        | inl (item, q3) ↦ rw (q, q2, q3) kept
                      ]
              ]
      ]

  archive_finalize_refused :
      (me : OfficeIdentity) (u : UploadRow) (a : Archiving) (file : Option Bytes) (s : Store)
      {t : Store}
      → archive_finalize site req keeps month body_hash me u a file s ≡ (none, t)
      → t.db ≡ s.db
  unfolding archive_finalize
  archive_finalize_refused me u a none s h = ground arith
  archive_finalize_refused me u a (some file) s {t} h =
      let stored = keeps (take u.size file) in
      let put : Store = record s { objects = insert a.key stored s.objects } in
      let body = archive_rows site req me u a body_hash in
      elim (call-cases (transact (req.up "begin") (req.up "commit") failed body put)) [
        | inl (item', t', q) ↦ ground arith
        | inr (e, t', q) ↦
            let same = transact_refused (req.up "begin") (req.up "commit") failed body put q in
            ground (arith, same)
      ]

  complete_hashed-IsKept :
      (me : OfficeIdentity) (server org id client : String) (u : UploadRow) (hashed : Bytes)
      (st : ArchiveState) {item : ItemRow} {t : ArchiveState}
      → complete_hashed site req keeps month body_hash me server org id client u hashed st
        ≡ (archived item, t)
      → (a : Archiving) × IsKept me u a item t.store
        × (a.sum256 ≡ client)
        × (client ≡ site.sha256_hex hashed)
        × (a.sum512 ≡ site.sha512_hex hashed)
  unfolding complete_hashed
  complete_hashed-IsKept me server org id client u hashed st {item} {t} h =
      let a =
        archiving_of site req keeps month body_hash server u org (site.sha256_hex hashed)
          (site.sha512_hex hashed) in
      let file = lookup u.temp_path st.files in
      let done = archive_finalize site req keeps month body_hash me u a file st.store in
      elim (Option-cases done.0) [
        | inl q ↦ absurd (ground arith)
        | inr (item', q) ↦
            let run : done ≡ (some item', done.1) = ap (λ o. (o, done.1)) q in
            let same_item : item ≡ item' = ground arith in
            let same_store : t.store ≡ done.1 = ground arith in
            let same_sum : client ≡ site.sha256_hex hashed =
              ground (arith, str_eq_iff client (site.sha256_hex hashed)) in
            (
              a,
              rw (same_item, same_store) (archive_finalize-IsKept me u a file st.store run),
              sym same_sum,
              same_sum,
              refl,
            )
      ]

  -- An upload that is answered as archived: the first `size` bytes of its scratch file, the bytes that the
  -- object store gives back and the item's row all have the sum that the browser has sent.
  pub record IsArchived (me : OfficeIdentity) (client : String) (u : UploadRow) (f : Bytes)
      (item : ItemRow) (t : ArchiveState) : Type 0 where
    pub stored : Bytes
    pub object : lookup item.storage_key t.store.objects ≡ some stored
    pub whole : length stored ≡ u.size
    pub complete : u.received ≡ u.size
    pub stored_sum : site.sha256_hex stored ≡ client
    pub received_sum : site.sha256_hex (take u.size f) ≡ client
    pub same_sum512 : site.sha512_hex stored ≡ site.sha512_hex (take u.size f)
    pub recorded : item.sha256 ≡ client
    pub sender : item.sender_id ≡ me.id

  pub archive_complete-IsArchived :
      (me : OfficeIdentity) (server org id client : String) (u : UploadRow) (f : Bytes)
      (st : ArchiveState) {item : ItemRow} {t : ArchiveState}
      → IsSound id u f st
      → archive_complete site req keeps month body_hash me server org id client st
        ≡ (archived item, t)
      → IsArchived me client u f item t
  unfolding archive_complete
  archive_complete-IsArchived me server org id client u f st {item} {t} s h =
      elim (result-cases (open_upload (req.up "select upload") id me.id st)) [
        | inr (e, q) ↦ absurd (ground arith)
        | inl (u', q) ↦
            let same_row : u' ≡ u = open_upload-row (req.up "select upload") id me.id st s.row q in
            let file = s.file in
            let hashed =
              ensure_hashes (req.up "read scratch file") (upload_runtime id st) (some f)
                u.received in
            let st' = with_runtime id hashed.1 st in
            elim (Bool-cases (u.received == u.size)) [
              | inr short ↦ absurd (ground (arith, q, same_row, short))
              | inl same ↦ elim (Bool-cases hashed.0) [
                | inr bad ↦ absurd (ground (arith, q, same_row, same, file, bad))
                | inl good ↦
                    let does : hashed ≡ (true, hashed.1) = ap (λ b. (b, hashed.1)) good in
                    let (given, _) =
                      ensure_hashes_correct (req.up "read scratch file") (upload_runtime id st) f
                        u.received s.hashes does in
                    let run : complete_hashed site req keeps month body_hash me server org id client
                          u (take u.received f) st'
                        ≡ (archived item, t) =
                      ground (arith, q, same_row, same, file, good, given) in
                    let (a, kept, sum, received_sum, sum512) =
                      complete_hashed-IsKept me server org id client u (take u.received f) st'
                        run in
                    let complete : u.received ≡ u.size = ground arith in
                    let bytes : take u.received f ≡ take u.size f = ap (λ n. take n f) complete in
                    record {
                      stored = kept.stored;
                      object = kept.object;
                      whole = kept.whole;
                      complete = complete;
                      stored_sum = kept.sum256 ∙ sum;
                      received_sum = sym (received_sum ∙ ap site.sha256_hex bytes);
                      same_sum512 = kept.sum512 ∙ sum512 ∙ ap site.sha512_hex bytes;
                      recorded = kept.recorded.0 ∙ sum;
                      sender = kept.recorded.2;
                    }
              ]
            ]
      ]
