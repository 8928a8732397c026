-- ===== src/Office/Database.antt =====
-- Statements of one database transaction, and the transaction around them. What is written to the
-- object store stays when a transaction is rolled back.
use aplikasi_transaksi_kanto.Base.{
  ◌≡◌, ◌⊎◌, refl, inl, inr, Bool, Option, none, some, [], ◌∷◌, ◌++◌, if◌then◌else◌,
}
use aplikasi_transaksi_kanto.Crypto.Hybrid.{Outcome, returned, panicked}
use aplikasi_transaksi_kanto.Office.Types.{Database, Store, Queued}

pub data Result (E A : Type 0) : Type 0 where
  ok : A → Result E A
  err : E → Result E A

-- What a statement can answer in place of a row: no row, a unique index (SQLSTATE 23505), any other
-- error. `panics` is a panic of the handler, which net/http recovers and which the deferred Rollback
-- answers as it does an error.
pub data DbError : Type 0 where
  no_rows duplicate failed panics : DbError

abbrev pub Tx : Type 0 → Type 0 → Type 0
Tx E A = Store → Result E A × Store

module _ {E : Type 0} where
  abbrev pub pure : {A : Type 0} → A → Tx E A
  pure a s = (ok a, s)

  abbrev pub fail : {A : Type 0} → E → Tx E A
  fail e s = (err e, s)

  infixl 5 ◌>>=◌ ◌>>◌
  abbrev pub ◌>>=◌ : {A B : Type 0} → Tx E A → (A → Tx E B) → Tx E B
  ◌>>=◌ m f s = let (r, s') = m s in elim r [ ok a ↦ f a s' | err e ↦ (err e, s') ]

  abbrev pub ◌>>◌ : {A B : Type 0} → Tx E A → Tx E B → Tx E B
  m >> k = m >>= λ _. k

  -- `if !test { return e }`
  abbrev pub require : Bool → E → Tx E (Unit {0})
  require test e s = (if test then ok tt else err e, s)

  abbrev pub or_fail : {A : Type 0} → Option A → E → Tx E A
  or_fail none e s = (err e, s)
  or_fail (some a) e s = (ok a, s)

  abbrev pub read : Tx E Database
  read s = (ok s.db, s)

  abbrev pub write : (Database → Database) → Tx E (Unit {0})
  write f s = (ok tt, record s { db = f s.db })

-- A call that answers, answers with an error, or panics.
abbrev pub or_failed : {A : Type 0} → Outcome (Option A) → Tx DbError A
or_failed panicked s = (err panics, s)
or_failed (returned none) s = (err failed, s)
or_failed (returned (some a)) s = (ok a, s)

-- A statement's error turned into the handler's answer.
abbrev pub catch : {E F A : Type 0} → Tx E A → (E → F) → Tx F A
catch m f s = let (r, s') = m s in (elim r [ ok a ↦ ok a | err e ↦ err (f e) ], s')

-- enqueueOutbox
abbrev pub enqueue_outbox : Bool → Queued → Tx DbError (Unit {0})
enqueue_outbox up call = do
  require up failed
  write λ db. record db { outbox = db.outbox ++ call ∷ [] }

-- Begin, the body, Commit; anything but a commit rolls the database back.
unfoldable pub transact : {E A : Type 0} → Bool → Bool → E → Tx E A → Tx E A
transact begins commits internal body s =
    if begins
    then (let (r, s') = body s in
        elim r [
          | ok a ↦ if commits then (ok a, s') else (err internal, record s { objects = s'.objects })
          | err e ↦ (err e, record s { objects = s'.objects })
        ])
    else (err internal, s)

-- How the signing of an envelope ends.
pub signing-cases :
    {A : Type 0} (o : Outcome (Option A))
    → ((o ≡ panicked) ⊎ (o ≡ returned none)) ⊎ ((a : A) × (o ≡ returned (some a)))
signing-cases panicked = inl (inl refl)
signing-cases (returned none) = inl (inr refl)
signing-cases (returned (some a)) = inr (a, refl)

pub call-cases :
    {E A : Type 0} (r : Result E A × Store)
    → ((a : A) × (t : Store) × (r ≡ (ok a, t))) ⊎ ((e : E) × (t : Store) × (r ≡ (err e, t)))
call-cases (ok a, t) = inl (a, t, refl)
call-cases (err e, t) = inr (e, t, refl)
