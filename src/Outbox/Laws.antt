-- ===== src/Outbox/Laws.antt =====
-- What a batch does to the table.
use aplikasi_transaksi_kanto.Base.{
  ℕ, zero, suc, ◌≤◌, ◌<◌, leb, ◌≡◌, refl, ap, true, String, List, [], ◌∷◌, str_eq, if◌then◌else◌,
  length, arith, Bool-cases, Option-cases, inl, inr, ◌⊎◌,
}
use aplikasi_transaksi_kanto.Outbox.{
  OutboxStatus, pending, sent, dead_letter, OutboxRow, is_pending, is_due, claim, update_row, Pass,
  mark_failed, submit_one, submit_all, process_batch,
}

-- A row that waits has attempts left.
abbrev pub IsBounded : ℕ → List OutboxRow → Type 0
IsBounded max [] = Unit
IsBounded max (r ∷ rows) = (r.status ≡ pending → r.attempts < max) × IsBounded max rows

update_row-IsBounded :
    (max : ℕ) (id : String) (set : OutboxRow → OutboxRow) (rows : List OutboxRow)
    → ((r : OutboxRow) → (set r).status ≡ pending → (set r).attempts < max)
    → IsBounded max rows
    → IsBounded max (update_row id set rows)
unfolding update_row
update_row-IsBounded max id set [] good b = tt
update_row-IsBounded max id set (r ∷ rows) good (h, b) = elim (Bool-cases (str_eq r.id id)) [
  | inl same ↦ (rw same (good r), update_row-IsBounded max id set rows good b)
  | inr differ ↦ (rw differ h, update_row-IsBounded max id set rows good b)
]

sent_ne : sent ≡ pending → ⊥
sent_ne h = cc

dead_letter_ne : dead_letter ≡ pending → ⊥
dead_letter_ne h = cc

-- The status of a failed row says whether attempts are left.
fewer :
    (max attempts : ℕ)
    → (if leb max attempts then dead_letter else pending) ≡ pending
    → attempts < max
fewer max attempts h = elim (Bool-cases (leb max attempts)) [
  | inl over ↦ absurd (dead_letter_ne (rw over at h))
  | inr under ↦ ground arith
]

mark_failed-IsBounded :
    (p : Pass) (r : OutboxRow) (attempts : ℕ) (rows : List OutboxRow)
    → IsBounded p.max_attempts rows
    → IsBounded p.max_attempts (mark_failed p r attempts rows)
unfolding mark_failed
mark_failed-IsBounded p r attempts rows b = elim (Bool-cases (p.updated r)) [
  | inr lost ↦ rw (lost, mark_failed) b
  | inl done ↦
      rw (done, mark_failed)
        (update_row-IsBounded p.max_attempts r.id _ rows (λ _ h. fewer p.max_attempts attempts h) b)
]

submit_one-IsBounded :
    (p : Pass) (r : OutboxRow) (rows : List OutboxRow)
    → IsBounded p.max_attempts rows
    → IsBounded p.max_attempts (submit_one p r rows)
unfolding submit_one mark_failed
submit_one-IsBounded p r rows b = elim (Option-cases r.args) [
  | inl bad ↦ rw (bad, submit_one) (mark_failed-IsBounded p r p.max_attempts rows b)
  | inr (args, good) ↦ elim (Bool-cases (p.submitted r)) [
    | inr refused ↦
        rw (good, refused, submit_one) (mark_failed-IsBounded p r (suc r.attempts) rows b)
    | inl taken ↦ elim (Bool-cases (p.updated r)) [
      | inr lost ↦ rw (good, taken, lost, submit_one) b
      | inl done ↦
          rw (good, taken, done, submit_one)
            (update_row-IsBounded p.max_attempts r.id _ rows (λ _ h. absurd (sent_ne h)) b)
    ]
  ]
]

submit_all-IsBounded :
    (p : Pass) (claimed rows : List OutboxRow)
    → IsBounded p.max_attempts rows
    → IsBounded p.max_attempts (submit_all p claimed rows)
unfolding submit_all
submit_all-IsBounded p [] rows b = b
submit_all-IsBounded p (r ∷ claimed) rows b =
    submit_all-IsBounded p claimed (submit_one p r rows) (submit_one-IsBounded p r rows b)

length-claim : (now n : ℕ) (rows : List OutboxRow) → length (claim now n rows) ≤ n
unfolding claim
length-claim now zero rows = omega arith
length-claim now (suc n) [] = omega arith
length-claim now (suc n) (r ∷ rows) =
    ground (arith, length-claim now n rows, length-claim now (suc n) rows)

-- A batch takes at most twenty rows, and if every waiting row of the table has made fewer attempts than the
-- maximum, so has every row that waits after the batch, whatever the gateway and the database answer.
pub process_batch-IsBounded :
    (p : Pass) (rows : List OutboxRow)
    → IsBounded p.max_attempts rows
    → ((process_batch p rows).0 ≤ 20) × IsBounded p.max_attempts (process_batch p rows).1
unfolding process_batch
process_batch-IsBounded p rows b =
    (length-claim p.now 20 rows, submit_all-IsBounded p (claim p.now 20 rows) rows b)

abbrev pub AreDue : ℕ → List OutboxRow → Type 0
AreDue now [] = Unit
AreDue now (r ∷ rows) = (r.status ≡ pending) × (r.next_attempt_at ≤ now) × AreDue now rows

abbrev pub count_due : ℕ → List OutboxRow → ℕ
count_due now [] = 0
count_due now (r ∷ rows) = let rest = count_due now rows in if is_due now r then suc rest else rest

is_pending-only : (s : OutboxStatus) → is_pending s ≡ true → s ≡ pending
is_pending-only pending h = refl
is_pending-only sent h = cc
is_pending-only dead_letter h = cc

-- A claim takes only rows that wait and are due, and leaves one of them out only when it is full.
pub claim-AreDue :
    (now n : ℕ) (rows : List OutboxRow)
    → AreDue now (claim now n rows)
      × ((length (claim now n rows) ≡ n) ⊎ (length (claim now n rows) ≡ count_due now rows))
unfolding claim
claim-AreDue now zero rows = (tt, inl refl)
claim-AreDue now (suc n) [] = (tt, inr refl)
claim-AreDue now (suc n) (r ∷ rows) = elim (Bool-cases (is_due now r)) [
  | inl due ↦
      let (all, full) = claim-AreDue now n rows in
      rw (due, claim)
        (
          (is_pending-only r.status (ground (arith, due)), ground (arith, due), all),
          (elim full [ inl f ↦ inl (ap suc f) | inr f ↦ inr (ap suc f) ]),
        )
  | inr wait ↦ rw (wait, claim) (claim-AreDue now (suc n) rows)
]
