-- ===== src/Indexer/Laws.antt =====
-- The checkpoint, the rows that an event commits, and what a new connection sees again.
use aplikasi_transaksi_kanto.Base.{
  ℕ, ◌≡◌, ◌≢◌, ◌⊎◌, refl, sym, ap, subst, ◌∙◌, Bool, true, false, Option, none, some,
  some-injective, String, List, [], ◌∷◌, str_eq, if◌then◌else◌, arith, str_eq_iff, str_eq_ne,
  Bool-cases, Option-cases, inl, inr,
}
use aplikasi_transaksi_kanto.Indexer.{
  EventRow, Database, ChaincodeEvent, committed, mark_committed, transaction_event_recorded,
  custody_event_recorded, apply_event,
}

-- Every row of the first list stands in the second as it was, or with the event's commitment if it
-- has the event's key.
abbrev pub IsMarked : ℕ → ℕ → String → String → List EventRow → List EventRow → Type 0
IsMarked now block tx key [] ys = ys ≡ []
IsMarked now block tx key (x ∷ xs) [] = ⊥
IsMarked now block tx key (x ∷ xs) (y ∷ ys) =
    (y.idempotency_key ≡ x.idempotency_key)
    × (x.idempotency_key ≡ key
        → (y.fabric_tx_id ≡ some tx)
          × (y.fabric_block_number ≡ some block)
          × (y.committed_at ≡ some now))
    × (x.idempotency_key ≢ key → y ≡ x)
    × IsMarked now block tx key xs ys

mark_committed-IsMarked :
    (now block : ℕ) (tx key : String) (rows : List EventRow)
    → IsMarked now block tx key rows (mark_committed now block tx key rows)
unfolding mark_committed
mark_committed-IsMarked now block tx key [] = refl
mark_committed-IsMarked now block tx key (row ∷ rest) =
    elim (Bool-cases (str_eq row.idempotency_key key)) [
      | inl same ↦ (
        rw same refl,
        (λ _. (rw same refl, rw same refl, rw same refl)),
        (λ differ. ground (arith, differ, str_eq_iff row.idempotency_key key)),
        mark_committed-IsMarked now block tx key rest,
      )
      | inr differ ↦ (
        rw differ refl,
        (λ same. ground (arith, same, str_eq_iff row.idempotency_key key)),
        (λ _. rw differ refl),
        mark_committed-IsMarked now block tx key rest,
      )
    ]

mark_committed-again :
    (now later block : ℕ) (tx key : String) (rows : List EventRow)
    → mark_committed later block tx key (mark_committed now block tx key rows)
      ≡ mark_committed later block tx key rows
unfolding mark_committed
mark_committed-again now later block tx key [] = refl
mark_committed-again now later block tx key (row ∷ rest) =
    elim (Bool-cases (str_eq row.idempotency_key key)) [
      | inl same ↦
          rw (same, same)
            (ap (λ t. committed later block tx row ∷ t)
              (mark_committed-again now later block tx key rest))
      | inr differ ↦
          rw (differ, differ) (ap (λ t. row ∷ t) (mark_committed-again now later block tx key rest))
    ]

names_differ : (s : String) → s ≡ "TransactionEventRecorded" → s ≡ "CustodyEventRecorded" → ⊥
names_differ s t c = str_eq_ne "TransactionEventRecorded" "CustodyEventRecorded" refl (sym t ∙ c)

-- An update that the database does not take is an error.
not_taken :
    (set : String → Database) (up : Bool) (key : Option String)
    → up ≡ false
    → (elim key [ none ↦ none | some k ↦ if up then some (set k) else none ]) ≡ none
not_taken set up none down = refl
not_taken set up (some k) down = rw down refl

-- Applying an event of another name changes nothing, whatever its payload and the database do. One of the
-- two names is an error if its payload does not unmarshal or its update is not taken; otherwise it
-- changes only the rows with its key, in the one table that its name selects: those get its
-- transaction, its block and the time.
pub apply_event-marks :
    (now : ℕ) (up : Bool) (evt : ChaincodeEvent) (db : Database)
    → (evt.event_name ≢ "TransactionEventRecorded"
        → evt.event_name ≢ "CustodyEventRecorded"
        → apply_event now up evt db ≡ some db)
      × ((evt.event_name ≡ "TransactionEventRecorded") ⊎ (evt.event_name ≡ "CustodyEventRecorded")
          → (evt.idempotency_key ≡ none) ⊎ (up ≡ false)
          → apply_event now up evt db ≡ none)
      × ((key : String)
          → evt.event_name ≡ "TransactionEventRecorded"
          → evt.idempotency_key ≡ some key
          → up ≡ true
          → (rows : List EventRow) × (apply_event now up evt db
              ≡ some (record db { transaction_event = rows }))
            × IsMarked now evt.block_number evt.transaction_id key db.transaction_event rows)
      × ((key : String)
          → evt.event_name ≡ "CustodyEventRecorded"
          → evt.idempotency_key ≡ some key
          → up ≡ true
          → (rows : List EventRow) × (apply_event now up evt db
              ≡ some (record db { custody_event = rows }))
            × IsMarked now evt.block_number evt.transaction_id key db.custody_event rows)
unfolding apply_event transaction_event_recorded custody_event_recorded
apply_event-marks now up evt db =
    let txn = str_eq_iff evt.event_name "TransactionEventRecorded" in
    let custody = str_eq_iff evt.event_name "CustodyEventRecorded" in
    let apart : str_eq "CustodyEventRecorded" "TransactionEventRecorded" ≡ false = refl in
    (
      (λ n c. ground (arith, txn, custody)),
      (λ name fails. elim name [
        | inl t ↦ elim fails [
          | inl bad ↦ rw (txn.1 t, bad, transaction_event_recorded) refl
          | inr down ↦
              rw (txn.1 t, transaction_event_recorded) (not_taken _ up evt.idempotency_key down)
        ]
        | inr c ↦ elim fails [
          | inl bad ↦ rw (c, bad, custody_event_recorded) refl
          | inr down ↦ rw (c, custody_event_recorded) (not_taken _ up evt.idempotency_key down)
        ]
      ]),
      (λ key t k taken. (
        mark_committed now evt.block_number evt.transaction_id key db.transaction_event,
        rw (t, k, taken, transaction_event_recorded) refl,
        mark_committed-IsMarked now evt.block_number evt.transaction_id key db.transaction_event,
      )),
      (λ key c k taken. (
        mark_committed now evt.block_number evt.transaction_id key db.custody_event,
        rw (c, k, taken, custody_event_recorded) refl,
        mark_committed-IsMarked now evt.block_number evt.transaction_id key db.custody_event,
      )),
    )

-- Applying an event again is as if only the later application had happened: the replay sets the same
-- rows, with its own time.
pub apply_event-replay :
    (now later : ℕ) (evt : ChaincodeEvent) (db next : Database)
    → apply_event now true evt db ≡ some next
    → apply_event later true evt next ≡ apply_event later true evt db
unfolding apply_event transaction_event_recorded custody_event_recorded
apply_event-replay now later evt db next h = elim (Option-cases evt.idempotency_key) [
  | inl bad ↦ elim (Bool-cases (str_eq evt.event_name "TransactionEventRecorded")) [
    | inl t ↦ cc (rw (t, bad, apply_event, transaction_event_recorded) at h)
    | inr t ↦ elim (Bool-cases (str_eq evt.event_name "CustodyEventRecorded")) [
      | inl c ↦ cc (rw (t, c, bad, apply_event, custody_event_recorded) at h)
      | inr c ↦
          subst (λ d. apply_event later true evt d ≡ apply_event later true evt db)
            (some-injective _ _ (rw (t, c, apply_event) at h)) refl
    ]
  ]
  | inr (key, k) ↦ elim (Bool-cases (str_eq evt.event_name "TransactionEventRecorded")) [
    | inl t ↦
        subst (λ d. apply_event later true evt d ≡ apply_event later true evt db)
          (some-injective _ _ (rw (t, k, apply_event, transaction_event_recorded) at h))
          (rw (t, k, transaction_event_recorded)
            (ap (λ rows. some (record db { transaction_event = rows }))
              (mark_committed-again now later evt.block_number evt.transaction_id key
                db.transaction_event)))
    | inr t ↦ elim (Bool-cases (str_eq evt.event_name "CustodyEventRecorded")) [
      | inl c ↦
          subst (λ d. apply_event later true evt d ≡ apply_event later true evt db)
            (some-injective _ _ (rw (t, c, k, apply_event, custody_event_recorded) at h))
            (rw (t, c, k, custody_event_recorded)
              (ap (λ rows. some (record db { custody_event = rows }))
                (mark_committed-again now later evt.block_number evt.transaction_id key
                  db.custody_event)))
      | inr c ↦
          subst (λ d. apply_event later true evt d ≡ apply_event later true evt db)
            (some-injective _ _ (rw (t, c, apply_event) at h)) refl
    ]
  ]
]

-- An update of a table, if it answers, answers with the checkpoint that it was given.
kept_by_table :
    (set : String → Database) (up : Bool) (key : Option String) (db next : Database)
    → ((k : String) → (set k).checkpoint ≡ db.checkpoint)
    → (elim key [ none ↦ none | some k ↦ if up then some (set k) else none ]) ≡ some next
    → next.checkpoint ≡ db.checkpoint
kept_by_table set up none db next same h = cc
kept_by_table set false (some k) db next same h = cc
kept_by_table set true (some k) db next same h =
    sym (ap (λ d. d.checkpoint) (some-injective _ _ h)) ∙ same k

-- Applying an event leaves the checkpoint alone.
pub apply_event-checkpoint :
    (now : ℕ) (up : Bool) (evt : ChaincodeEvent) (db next : Database)
    → apply_event now up evt db ≡ some next
    → next.checkpoint ≡ db.checkpoint
unfolding apply_event transaction_event_recorded custody_event_recorded
apply_event-checkpoint now up evt db next h =
    elim (Bool-cases (str_eq evt.event_name "TransactionEventRecorded")) [
      | inl t ↦
          kept_by_table _ up evt.idempotency_key db next (λ _. refl)
            (rw (t, apply_event, transaction_event_recorded) at h)
      | inr t ↦ elim (Bool-cases (str_eq evt.event_name "CustodyEventRecorded")) [
        | inl c ↦
            kept_by_table _ up evt.idempotency_key db next (λ _. refl)
              (rw (t, c, apply_event, custody_event_recorded) at h)
        | inr c ↦ ap (λ d. d.checkpoint) (sym (some-injective _ _ (rw (t, c, apply_event) at h)))
      ]
    ]
