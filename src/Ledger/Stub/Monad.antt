-- ===== src/Ledger/Stub/Monad.antt =====
-- A chaincode call: it reads and writes the stub, and ends with a value or an error. What was
-- written before an error stays written in the stub.
use aplikasi_transaksi_kanto.Base.{
  ◌≡◌, refl, ◌⊎◌, inl, inr, Bool, Option, none, some, String, if◌then◌else◌,
}

pub data Result (E A : Type 0) : Type 0 where
  ok : A → Result E A
  err : E → Result E A

-- World state during one call, and the chaincode event that the call has set.
pub record Stub (K D : Type 0) : Type 0 where
  pub state : K → Option D
  pub event : Option (String × D)

abbrev pub Action : Type 0 → Type 0 → Type 0 → Type 0 → Type 0
Action K D E A = Stub K D → Result E A × Stub K D

module _ {K D E : Type 0} where
  abbrev pub pure : {A : Type 0} → A → Action K D E A
  pure a s = (ok a, s)

  infixl 5 ◌>>=◌ ◌>>◌
  abbrev pub ◌>>=◌ : {A B : Type 0} → Action K D E A → (A → Action K D E B) → Action K D E B
  ◌>>=◌ m f s = let (r, s') = m s in elim r [ ok a ↦ f a s' | err e ↦ (err e, s') ]

  abbrev pub ◌>>◌ : {A B : Type 0} → Action K D E A → Action K D E B → Action K D E B
  m >> k = m >>= λ _. k

  -- `if !test { return e }`
  abbrev pub require : Bool → E → Action K D E (Unit {0})
  require test e s = (if test then ok tt else err e, s)

  abbrev pub or_fail : {A : Type 0} → Option A → E → Action K D E A
  or_fail none e s = (err e, s)
  or_fail (some a) e s = (ok a, s)

-- A finished call has ended well or with an error.
pub call-cases :
    {K D E A : Type 0} (r : Result E A × Stub K D)
    → ((a : A) × (t : Stub K D) × (r ≡ (ok a, t))) ⊎ ((e : E) × (t : Stub K D) × (r ≡ (err e, t)))
call-cases (ok a, t) = inl (a, t, refl)
call-cases (err e, t) = inr (e, t, refl)
