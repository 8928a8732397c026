-- ===== src/Archive/Upload/Laws.antt =====
-- That a chunk is appended whole to the bytes that the server has acknowledged, or leaves them as they are.
use aplikasi_transaksi_kanto.Base.{
  ℕ, ◌+◌, ◌-◌, ◌≤◌, ◌==◌, ltb, ◌≡◌, ◌≢◌, ◌⊎◌, ◌∙◌, refl, sym, ap, subst, Bool, true, false, some,
  String, [], ◌++◌, arith, Bool-cases, Option-cases, inl, inr, length,
}
use aplikasi_transaksi_kanto.Base.Int64.{pos}
use aplikasi_transaksi_kanto.Store.Dict.{lookup, insert, lookup-insert_self}
use aplikasi_transaksi_kanto.Crypto.Hybrid.{Bytes}
use aplikasi_transaksi_kanto.Office.Types.{OfficeIdentity}
use aplikasi_transaksi_kanto.Office.Database.{Result, ok, err}
use aplikasi_transaksi_kanto.Office.Events.{Request}
use aplikasi_transaksi_kanto.Office.Actions.{HttpError, internal_error}
use aplikasi_transaksi_kanto.Archive.Types.{UploadRow, UploadRuntime, ArchiveState}
use aplikasi_transaksi_kanto.Archive.Bytes.{
  take, write_at, length-take, take-take, take-write_at, take-write_at_end, length-write_at,
}
use aplikasi_transaksi_kanto.Archive.Upload.{
  Chunk, ChunkAnswer, received, mismatch, refused_chunk, idle, upload_runtime, with_runtime, rehash,
  ensure_hashes, copied, copy_failed, write_chunk, upload_chunk, open_upload,
}

-- An upload whose scratch file has the bytes that its row counts; hashes of that many bytes are theirs.
pub record IsSound (id : String) (u : UploadRow) (f : Bytes) (st : ArchiveState) : Type 0 where
  pub row : lookup id st.uploads ≡ some u
  pub file : lookup u.temp_path st.files ≡ some f
  pub there : u.received ≤ length f
  pub within : u.received ≤ u.size
  pub hashes :
      (g : Bytes)
      → (upload_runtime id st).hashed ≡ some g
      → (upload_runtime id st).n ≡ u.received
      → g ≡ take u.received f

rehash_correct :
    (readable : Bool) (f : Bytes) (n : ℕ) {rt : UploadRuntime}
    → rehash readable (some f) n ≡ (true, rt)
    → (rt.hashed ≡ some (take n f)) × (rt.n ≡ n)
unfolding rehash take
rehash_correct readable f n h = elim (Bool-cases (n == 0)) [
  | inl z ↦
      let nothing : n ≡ 0 = ground arith in
      let e : take n f ≡ [] = rw nothing refl in (ground (arith, e), ground arith)
  | inr z ↦ (ground arith, ground arith)
]

-- Whatever the runtime was, ensureHashes that succeeds has hashed exactly the acknowledged bytes.
pub ensure_hashes_correct :
    (readable : Bool) (rt : UploadRuntime) (f : Bytes) (n : ℕ) {rt' : UploadRuntime}
    → ((g : Bytes) → rt.hashed ≡ some g → rt.n ≡ n → g ≡ take n f)
    → ensure_hashes readable rt (some f) n ≡ (true, rt')
    → (rt'.hashed ≡ some (take n f)) × (rt'.n ≡ n)
unfolding ensure_hashes
ensure_hashes_correct readable rt f n in_step h = elim (Option-cases rt.hashed) [
  | inl q ↦ rehash_correct readable f n (ground arith)
  | inr (g, q) ↦ elim (Bool-cases (rt.n == n)) [
    | inl same ↦
        let e : g ≡ take n f = in_step g q (ground arith) in (ground (arith, e), ground arith)
    | inr other ↦ rehash_correct readable f n (ground arith)
  ]
]

-- A failure forgets the hashes.
ensure_hashes_failed :
    (readable : Bool) (rt : UploadRuntime) (f : Bytes) (n : ℕ) {rt' : UploadRuntime}
    → ensure_hashes readable rt (some f) n ≡ (false, rt')
    → rt' ≡ idle
unfolding ensure_hashes rehash
ensure_hashes_failed readable rt f n h = elim (Option-cases rt.hashed) [
  | inl q ↦ ground arith
  | inr (g, q) ↦ ground arith
]

upload_runtime_set :
    (id : String) (rt : UploadRuntime) (st : ArchiveState)
    → upload_runtime id (with_runtime id rt st) ≡ rt
upload_runtime_set id rt st = ground (arith, lookup-insert_self id rt st.runtimes)

-- What a chunk has done: its bytes follow the acknowledged ones, or those are as they were.
pub data Outcome (id : String) (u : UploadRow) (f : Bytes) (chunk : Chunk) (answer : ChunkAnswer)
    (t : ArchiveState) : Type 0 where
  taken :
      (bytes f' : Bytes)
      → answer ≡ received (u.received + length bytes)
      → bytes ≡ copied (u.size - u.received) chunk
      → IsSound id (record u { received = u.received + length bytes }) f' t
      → take (u.received + length bytes) f' ≡ take u.received f ++ bytes
      → Outcome id u f chunk answer t
  left :
      (f' : Bytes)
      → ((m : ℕ) → answer ≢ received m)
      → IsSound id u f' t
      → take u.received f' ≡ take u.received f
      → Outcome id u f chunk answer t

pub result-cases :
    {E A : Type 0} (r : Result E A) → ((a : A) × (r ≡ ok a)) ⊎ ((e : E) × (r ≡ err e))
result-cases (ok a) = inl (a, refl)
result-cases (err e) = inr (e, refl)

pub open_upload-row :
    (up : Bool) (id sender : String) (st : ArchiveState) {u u' : UploadRow}
    → lookup id st.uploads ≡ some u
    → open_upload up id sender st ≡ ok u'
    → u' ≡ u
unfolding open_upload
open_upload-row up id sender st found h = ground arith

refused_other : (e : HttpError) (m : ℕ) → refused_chunk e ≢ received m
refused_other e m q = cc

-- What holds of an answer with the state that it comes with.
abbrev pub IsJudged : String → ℕ → UploadRow → Bytes → Chunk → ChunkAnswer × ArchiveState → Type 0
IsJudged id offset u f chunk (answer, t) =
    Outcome id u f chunk answer t × (((m : ℕ) → answer ≢ received m) ⊎ (offset ≡ u.received))

module _ (req : Request) where
  undone-IsSound :
      (id : String) (u : UploadRow) (f f' : Bytes) (st t : ArchiveState)
      → IsSound id u f st
      → take u.received f' ≡ take u.received f
      → u.received ≤ length f'
      → t.uploads ≡ st.uploads
      → t.files ≡ insert u.temp_path f' st.files
      → upload_runtime id t ≡ idle
      → IsSound id u f' t
  undone-IsSound id u f f' st t s same there rows files forgot = record {
    row = rw rows s.row;
    file = rw files (lookup-insert_self u.temp_path f' st.files);
    there = there;
    within = s.within;
    hashes = λ g q _. absurd (ground (arith, forgot));
  }

  write_chunk-Outcome :
      (id : String) (u : UploadRow) (rt : UploadRuntime) (f : Bytes) (chunk : Chunk)
      (st : ArchiveState)
      → IsSound id u f st
      → rt.hashed ≡ some (take u.received f)
      → let (answer, t) = write_chunk req id u rt f chunk st in Outcome id u f chunk answer t
  unfolding write_chunk
  write_chunk-Outcome id u rt f chunk st s given =
      let offset = u.received in
      let bytes = copied (u.size - offset) chunk in
      let f' = write_at offset bytes f in
      let long = length-write_at offset bytes f s.there in
      let back = take offset f' in
      let same : take offset back ≡ take offset f =
        take-take offset f' ∙ take-write_at offset bytes f s.there in
      let end' = take-write_at_end offset bytes f s.there in
      let there : offset ≤ length back =
        omega (arith, length-take offset f' (omega (arith, long))) in
      elim (Bool-cases (copy_failed (u.size - offset) chunk)) [
        | inl failed ↦ rw failed (
            left back (refused_other _)
              (undone-IsSound id u f back st _ s same there refl refl
                (upload_runtime_set id idle st))
              same)
        | inr through ↦ elim (Bool-cases (ltb (u.size - offset) (length bytes))) [
          | inl over ↦
              rw (through, over)
                (left back (refused_other _)
                  (undone-IsSound id u f back st _ s same there refl refl
                    (upload_runtime_set id idle st))
                  same)
          | inr fits ↦ elim (Bool-cases (req.up "update received")) [
            | inr down ↦
                rw (through, fits, down)
                  (left back (refused_other _)
                    (undone-IsSound id u f back st _ s same there refl refl
                      (upload_runtime_set id idle st))
                    same)
            | inl up ↦
                let fit : length bytes ≤ u.size - offset = ground arith in
                let room : offset + length bytes ≤ u.size = omega (arith, s.within, fit) in
                rw (through, fits, up, given)
                  (taken bytes f' refl refl
                    record {
                      row = lookup-insert_self id _ st.uploads;
                      file = lookup-insert_self u.temp_path f' st.files;
                      there = long;
                      within = room;
                      hashes = λ g q _.
                          let e : g ≡ take offset f ++ bytes = ground (
                            arith,
                            lookup-insert_self id
                                (record {
                                  n = offset + length bytes;
                                  hashed = some (take offset f ++ bytes);
                                })
                                st.runtimes,
                          ) in
                          e ∙ sym end';
                    }
                    end')
          ]
        ]
      ]

  -- A sound upload stays sound with another runtime that is in step or forgotten.
  with_runtime-IsSound :
      (id : String) (u : UploadRow) (f : Bytes) (st : ArchiveState) (rt : UploadRuntime)
      → IsSound id u f st
      → ((g : Bytes) → rt.hashed ≡ some g → rt.n ≡ u.received → g ≡ take u.received f)
      → IsSound id u f (with_runtime id rt st)
  with_runtime-IsSound id u f st rt s in_step = record {
    row = s.row;
    file = s.file;
    there = s.there;
    within = s.within;
    hashes = λ g q r.
        in_step g (ground (arith, upload_runtime_set id rt st))
          (ground (arith, upload_runtime_set id rt st));
  }

  not_taken :
      (id : String) (offset : ℕ) (u : UploadRow) (f : Bytes) (chunk : Chunk) (st : ArchiveState)
      (answer : ChunkAnswer) (rt : UploadRuntime)
      → ((m : ℕ) → answer ≢ received m)
      → IsSound id u f st
      → ((g : Bytes) → rt.hashed ≡ some g → rt.n ≡ u.received → g ≡ take u.received f)
      → IsJudged id offset u f chunk (answer, with_runtime id rt st)
  not_taken id offset u f chunk st answer rt other s in_step =
      (left f other (with_runtime-IsSound id u f st rt s in_step) refl, inl other)

  IsJudged-by :
      (id : String) (offset : ℕ) (u : UploadRow) (f : Bytes) (chunk : Chunk)
      {call p : ChunkAnswer × ArchiveState}
      → call ≡ p
      → IsJudged id offset u f chunk p
      → IsJudged id offset u f chunk call
  IsJudged-by id offset u f chunk run = subst (IsJudged id offset u f chunk) (sym run)

  -- A chunk for an upload, at any offset, on any fault of the disk and of the database: it is taken only at
  -- the offset that the server has.
  pub upload_chunk-IsJudged :
      (me : OfficeIdentity) (id : String) (offset : ℕ) (u : UploadRow) (f : Bytes) (chunk : Chunk)
      (st : ArchiveState)
      → IsSound id u f st
      → IsJudged id offset u f chunk (upload_chunk req me id (some (pos offset)) chunk st)
  unfolding upload_chunk
  upload_chunk-IsJudged me id offset u f chunk st s =
      let call = upload_chunk req me id (some (pos offset)) chunk st in
      elim (result-cases (open_upload (req.up "select upload") id me.id st)) [
        | inr (e, q) ↦
            let run : call ≡ (refused_chunk e, with_runtime id (upload_runtime id st) st) =
              ground (arith, q) in
            IsJudged-by id offset u f chunk run (
              not_taken id offset u f chunk st _ (upload_runtime id st) (refused_other e) s
                s.hashes)
        | inl (u', q) ↦
            let same_row : u' ≡ u = open_upload-row (req.up "select upload") id me.id st s.row q in
            let file = s.file in
            let hashed =
              ensure_hashes (req.up "read scratch file") (upload_runtime id st) (some f)
                u.received in
            let st' = with_runtime id hashed.1 st in
            elim (Bool-cases (offset == u.received)) [
              | inr ne ↦
                  let run : call
                      ≡ (mismatch u.received, with_runtime id (upload_runtime id st) st) =
                    ground (arith, q, same_row, ne) in
                  IsJudged-by id offset u f chunk run (
                    not_taken id offset u f chunk st (mismatch u.received) (upload_runtime id st)
                      (λ m r. cc) s s.hashes)
              | inl same ↦ elim (Bool-cases hashed.0) [
                | inr bad ↦
                    let fails : hashed ≡ (false, hashed.1) = ap (λ b. (b, hashed.1)) bad in
                    let forgot =
                      ensure_hashes_failed (req.up "read scratch file") (upload_runtime id st) f
                        u.received fails in
                    let run : call ≡ (refused_chunk internal_error, st') =
                      ground (arith, q, same_row, same, file, bad) in
                    IsJudged-by id offset u f chunk run (
                      not_taken id offset u f chunk st _ hashed.1 (refused_other _) s
                        (λ g r _. absurd (ground (arith, forgot))))
                | inl good ↦
                    let does : hashed ≡ (true, hashed.1) = ap (λ b. (b, hashed.1)) good in
                    let (given, number) =
                      ensure_hashes_correct (req.up "read scratch file") (upload_runtime id st) f
                        u.received s.hashes does in
                    let in_step : (g : Bytes)
                        → hashed.1.hashed ≡ some g
                        → hashed.1.n ≡ u.received
                        → g ≡ take u.received f =
                      λ g r _. cc in
                    elim (Bool-cases (req.up "open scratch file")) [
                      | inr shut ↦
                          let run : call ≡ (refused_chunk internal_error, st') =
                            ground (arith, q, same_row, same, file, good, shut) in
                          IsJudged-by id offset u f chunk run (
                            not_taken id offset u f chunk st _ hashed.1 (refused_other _) s in_step)
                      | inl opens ↦
                          let run : call ≡ write_chunk req id u hashed.1 f chunk st' =
                            ground (arith, q, same_row, same, file, good, opens) in
                          IsJudged-by id offset u f chunk run (
                            write_chunk-Outcome id u hashed.1 f chunk st'
                                (with_runtime-IsSound id u f st hashed.1 s in_step) given,
                            inr (ground arith),
                          )
                    ]
              ]
            ]
      ]
