-- ===== src/Indexer/Resume.antt =====
-- Where a new connection takes up the stream.
use aplikasi_transaksi_kanto.Base.{
  ℕ, ◌≤◌, ◌<◌, ◌≡◌, refl, sym, ap, subst, true, false, none, some, List, [], ◌∷◌, arith, Bool-cases,
  Option-cases, inl, inr,
}
use aplikasi_transaksi_kanto.Indexer.{
  Database, ChaincodeEvent, apply_event, load, save, Delivery, receive, run_stream, is_delivered,
}
use aplikasi_transaksi_kanto.Indexer.Laws.{apply_event-checkpoint}

load-save-above : (block : ℕ) (db : Database) → block ≤ load (save block db)
unfolding load save
load-save-above block db = elim (Option-cases db.checkpoint) [
  | inl e ↦ rw (e, load, save) (omega arith)
  | inr (last, e) ↦ rw (e, load, save) (ground arith)
]

load-save-keeps : (block : ℕ) (db : Database) → load db ≤ load (save block db)
unfolding load save
load-save-keeps block db = elim (Option-cases db.checkpoint) [
  | inl e ↦ rw (e, load, save) (omega arith)
  | inr (last, e) ↦ rw (e, load, save) (ground arith)
]

load-save-below : (m block : ℕ) (db : Database) → block ≤ m → load db ≤ m → load (save block db) ≤ m
unfolding load save
load-save-below m block db b h = elim (Option-cases db.checkpoint) [
  | inl e ↦ rw (e, load, save) b
  | inr (last, e) ↦ let h' = rw (e, load) at h in rw (e, load, save) (ground arith)
]

apply_event-load :
    (d : Delivery) (next db : Database)
    → apply_event d.now d.update_taken d.event db ≡ some next
    → load next ≡ load db
unfolding load
apply_event-load d next db e =
    ap (λ c. elim c [ none ↦ 0 | some last ↦ last ])
      (apply_event-checkpoint d.now d.update_taken d.event db next e)

load-receive-keeps : (d : Delivery) (db : Database) → load db ≤ load (receive d db)
unfolding receive
load-receive-keeps d db = elim (Option-cases (apply_event d.now d.update_taken d.event db)) [
  | inl e ↦ rw (e, receive) (omega arith)
  | inr (next, e) ↦
      let same = apply_event-load d next db e in
      elim (Bool-cases d.save_taken) [
        | inl t ↦
            rw (e, t, receive) (omega (arith, same, load-save-keeps d.event.block_number next))
        | inr t ↦ rw (e, t, receive) (omega (arith, same))
      ]
]

load-receive-below :
    (m : ℕ) (d : Delivery) (db : Database)
    → d.event.block_number ≤ m
    → load db ≤ m
    → load (receive d db) ≤ m
unfolding receive
load-receive-below m d db b h = elim (Option-cases (apply_event d.now d.update_taken d.event db)) [
  | inl e ↦ rw (e, receive) h
  | inr (next, e) ↦
      let same = apply_event-load d next db e in
      let low : load next ≤ m = omega arith in
      elim (Bool-cases d.save_taken) [
        | inl t ↦ rw (e, t, receive) (load-save-below m d.event.block_number next b low)
        | inr t ↦ rw (e, t, receive) low
      ]
]

-- The checkpoint never goes back, whatever fails.
pub load-run_stream-keeps : (ds : List Delivery) (db : Database) → load db ≤ load (run_stream ds db)
unfolding run_stream
load-run_stream-keeps [] db = omega arith
load-run_stream-keeps (d ∷ ds) db =
    omega (arith, load-receive-keeps d db, load-run_stream-keeps ds (receive d db))

-- No delivery is of a later block than the one given.
abbrev pub IsUpTo : ℕ → List Delivery → Type 0
IsUpTo m [] = Unit
IsUpTo m (d ∷ ds) = (d.event.block_number ≤ m) × IsUpTo m ds

load-run_stream-below :
    (m : ℕ) (ds : List Delivery) (db : Database)
    → IsUpTo m ds
    → load db ≤ m
    → load (run_stream ds db) ≤ m
unfolding run_stream
load-run_stream-below m [] db u h = h
load-run_stream-below m (d ∷ ds) db (b, u) h =
    load-run_stream-below m ds (receive d db) u (load-receive-below m d db b h)

-- Once there is a checkpoint, an event of a block that neither it nor the stream so far has gone beyond is
-- delivered to the next connection, whatever failed on the way.
pub run_stream-resumes :
    (ds : List Delivery) (db : Database) (evt : ChaincodeEvent) (next_block : ℕ)
    → IsUpTo evt.block_number ds
    → 0 < load db
    → load db ≤ evt.block_number
    → is_delivered next_block (run_stream ds db) evt ≡ true
run_stream-resumes ds db evt next_block u some_block h = ground (
  arith,
  load-run_stream-below evt.block_number ds db u h,
  load-run_stream-keeps ds db,
  some_block,
)

-- An event whose update fails leaves the database as it is, and is delivered to no later connection
-- once an event of a later block has been applied and its checkpoint saved.
pub failed_event_skipped :
    (d e : Delivery) (db next : Database) (later : List Delivery) (next_block : ℕ)
    → apply_event d.now d.update_taken d.event db ≡ none
    → apply_event e.now e.update_taken e.event db ≡ some next
    → e.save_taken ≡ true
    → d.event.block_number < e.event.block_number
    → (run_stream (d ∷ e ∷ later) db ≡ run_stream (e ∷ later) db)
      × (is_delivered next_block (run_stream (d ∷ e ∷ later) db) d.event ≡ false)
unfolding run_stream receive
failed_event_skipped d e db next later next_block f s t b =
    let unchanged : receive d db ≡ db = rw (f, receive) refl in
    let saved : receive e db ≡ save e.event.block_number next = rw (s, t, receive) refl in
    let above = load-save-above e.event.block_number next in
    let kept = load-run_stream-keeps later (receive e db) in
    let high : d.event.block_number < load (run_stream later (receive e db)) =
      omega (arith, above, kept, ap load saved) in
    (
      ap (λ x. run_stream (e ∷ later) x) unchanged,
      subst (λ x. is_delivered next_block (run_stream (e ∷ later) x) d.event ≡ false)
          (sym unchanged) (ground (arith, high)),
    )
