-- ===== src/Store/Records/Laws.antt =====
-- Lookups, lists and writes of the records of the in-memory store.
use mathlib.Core.List.{Perm}
use aplikasi_transaksi_kanto.Base.{
  ℕ, ◌≡◌, ◌≢◌, ◌≤◌, refl, ◌∙◌, ap, Bool, Option, none, some, String, List, str_eq, str_eq_iff,
  Option-cases, inl, inr,
}
use aplikasi_transaksi_kanto.Store.Dict.{
  lookup, insert, values, lookup-insert_self, lookup-insert_ne,
}
use aplikasi_transaksi_kanto.Store.Selection.{select, latest, before, after}
use aplikasi_transaksi_kanto.Store.Selection.Laws.{
  IsIn, IsSorted, IsIn-select, sort_slice_correct, latest_correct, before-IsOrder, after-IsOrder,
}
use aplikasi_transaksi_kanto.Store.Types.{
  Device, Enrollment, Certificate, Signature, Memory, Result, ok, err, found, not_found,
  signature_exists, cert_revoked,
}
use aplikasi_transaksi_kanto.Store.Records.{
  devices_by_account, enrollment_by_device, certificate, certificate_by_device,
  certificates_by_account, revoke_certificate, create_signature, signature, signatures_by_account,
}

-- What `found` of a loop for the latest entry says: the answer has the device, and no entry of the
-- device is later; ErrNotFound says that no entry has the device.
abbrev pub IsLatest : {A : Type 0} → (A → String) → (A → ℕ) → String → List A → Result A → Type 0
IsLatest {A} device_of time device_id xs (ok x) =
    IsIn x xs
    × (device_of x ≡ device_id)
    × ((y : A) → IsIn y xs → device_of y ≡ device_id → time y ≤ time x)
IsLatest {A} device_of time device_id xs (err _) = (y : A) → IsIn y xs → device_of y ≢ device_id

latest-IsLatest :
    {A : Type 0} (device_of : A → String) (time : A → ℕ) (device_id : String) (xs : List A)
    → IsLatest device_of time device_id xs
        (found (latest (λ x. str_eq (device_of x) device_id) time none xs))
latest-IsLatest {A} device_of time device_id xs = go (latest test time none xs) refl
  where
    test : A → Bool
    test x = str_eq (device_of x) device_id

    go :
        (o : Option A)
        → latest test time none xs ≡ o
        → IsLatest device_of time device_id xs (found o)
    go none e = λ y i q.
        let fails = (latest_correct test time xs).1 e y i in
        let passes = (str_eq_iff (device_of y) device_id).1 q in cc
    go (some x) e =
        let (i, passes, rest) = (latest_correct test time xs).0 x e in
        (
          i,
          (str_eq_iff (device_of x) device_id).0 passes,
          λ y j q. rest y j ((str_eq_iff (device_of y) device_id).1 q),
        )

-- EnrollmentByDevice answers with an enrollment of the device than which none of the device was
-- created later, and CertificateByDevice with a certificate of the device than which none of the
-- device has a later NotBefore; each answers ErrNotFound only if the device has none.
pub by_device-IsLatest :
    (device_id : String) (m : Memory)
    → IsLatest
        (λ (e : Enrollment). e.device_id)
        (λ e. e.created_at)
        device_id
        (values m.enrollments)
        (enrollment_by_device device_id m)
      × IsLatest
          (λ (c : Certificate). c.device_id)
          (λ c. c.not_before)
          device_id
          (values m.certificates)
          (certificate_by_device device_id m)
unfolding enrollment_by_device certificate_by_device
by_device-IsLatest device_id m = (
  latest-IsLatest (λ (e : Enrollment). e.device_id) (λ e. e.created_at) device_id
      (values m.enrollments),
  latest-IsLatest (λ (c : Certificate). c.device_id) (λ c. c.not_before) device_id
      (values m.certificates),
)

-- A listing of the entries of one account: in order, each chosen entry as often as it is stored, and
-- exactly those of the account.
pub record IsListing {A : Type 0} (less : A → A → Bool) (owner : A → String) (id : String)
    (stored out : List A) : Type 0 where
  pub sorted : IsSorted less out
  pub same : Perm out (select (λ x. str_eq (owner x) id) stored)
  pub chosen :
      (x : A)
      → (IsIn x (select (λ x. str_eq (owner x) id) stored) → IsIn x stored × (owner x ≡ id))
        × (IsIn x stored → owner x ≡ id → IsIn x (select (λ x. str_eq (owner x) id) stored))

chosen_iff :
    {A : Type 0} (owner : A → String) (id : String) (stored : List A) (x : A)
    → (IsIn x (select (λ x. str_eq (owner x) id) stored) → IsIn x stored × (owner x ≡ id))
      × (IsIn x stored → owner x ≡ id → IsIn x (select (λ x. str_eq (owner x) id) stored))
chosen_iff owner id stored x =
    let (there, back) = IsIn-select (λ x. str_eq (owner x) id) x stored in
    (
      λ i. ((there i).0, (str_eq_iff (owner x) id).0 (there i).1),
      λ i q. back i ((str_eq_iff (owner x) id).1 q),
    )

-- DevicesByAccount and CertificatesByAccount list exactly the entries of the account, the oldest
-- first, and SignaturesByAccount exactly the account's signatures, the newest first.
pub by_account-IsListing :
    (id : String) (m : Memory)
    → IsListing
        (before (λ (d : Device). d.created_at))
        (λ d. d.account_id)
        id
        (values m.devices)
        (devices_by_account id m)
      × IsListing
          (before (λ (c : Certificate). c.not_before))
          (λ c. c.account_id)
          id
          (values m.certificates)
          (certificates_by_account id m)
      × IsListing
          (after (λ (s : Signature). s.created_at))
          (λ s. s.account_id)
          id
          (values m.signatures)
          (signatures_by_account id m)
unfolding devices_by_account certificates_by_account signatures_by_account
by_account-IsListing id m =
    let (d1, d2) =
      sort_slice_correct (before (λ (d : Device). d.created_at))
        (before-IsOrder (λ (d : Device). d.created_at))
        (select (λ d. str_eq d.account_id id) (values m.devices)) in
    let (c1, c2) =
      sort_slice_correct (before (λ (c : Certificate). c.not_before))
        (before-IsOrder (λ (c : Certificate). c.not_before))
        (select (λ c. str_eq c.account_id id) (values m.certificates)) in
    let (s1, s2) =
      sort_slice_correct (after (λ (s : Signature). s.created_at))
        (after-IsOrder (λ (s : Signature). s.created_at))
        (select (λ s. str_eq s.account_id id) (values m.signatures)) in
    (
      record {
        sorted = d1;
        same = d2;
        chosen = chosen_iff (λ d. d.account_id) id (values m.devices);
      },
      record {
        sorted = c1;
        same = c2;
        chosen = chosen_iff (λ c. c.account_id) id (values m.certificates);
      },
      record {
        sorted = s1;
        same = s2;
        chosen = chosen_iff (λ s. s.account_id) id (values m.signatures);
      },
    )

create_signature_taken :
    (now : ℕ) (s : Signature) (m : Memory) {old : Signature}
    → lookup s.public_id m.signatures ≡ some old
    → create_signature now s m ≡ (err signature_exists, m)
unfolding create_signature
create_signature_taken now s m taken = rw (taken, create_signature)

create_signature_made :
    (now : ℕ) (s : Signature) (m : Memory)
    → lookup s.public_id m.signatures ≡ none
    → let s' : Signature = record s { created_at = now } in
      create_signature now s m
      ≡ (ok s', record m { signatures = insert s.public_id s' m.signatures })
unfolding create_signature
create_signature_made now s m free = rw (free, create_signature)

-- A signature record is written once: after its creation it is found as it was stored, the records
-- under other ids are as before, and a second creation under its id is refused and changes nothing.
pub create_signature_once :
    (now later : ℕ) (s again : Signature) (m : Memory)
    → lookup s.public_id m.signatures ≡ none
    → again.public_id ≡ s.public_id
    → let m' = (create_signature now s m).1 in
      (signature s.public_id m' ≡ ok (record s { created_at = now }))
      × (create_signature later again m' ≡ (err signature_exists, m'))
      × ((id : String) → s.public_id ≢ id → signature id m' ≡ signature id m)
unfolding signature
create_signature_once now later s again m free same =
    let s' : Signature = record s { created_at = now } in
    let at_id = lookup-insert_self s.public_id s' m.signatures in
    rw (create_signature_made now s m free) (
      rw at_id,
      create_signature_taken later again _
          (ap (λ i. lookup i (insert s.public_id s' m.signatures)) same ∙ at_id),
      λ id ne. ap found (lookup-insert_ne s.public_id id s' m.signatures ne),
    )

revoke_certificate_made :
    (now : ℕ) (id reason : String) (c : Certificate) (m : Memory)
    → lookup id m.certificates ≡ some c
    → revoke_certificate now id reason m ≡ (
      ok tt,
      record m {
        certificates =
            insert id
              (record c { status = cert_revoked; revoked_at = now; rev_reason = reason })
              m.certificates;
      },
    )
unfolding revoke_certificate
revoke_certificate_made now id reason c m at_id = rw (at_id, revoke_certificate)

revoke_certificate_missing :
    (now : ℕ) (id reason : String) (m : Memory)
    → lookup id m.certificates ≡ none
    → revoke_certificate now id reason m ≡ (err not_found, m)
unfolding revoke_certificate
revoke_certificate_missing now id reason m at_id = rw (at_id, revoke_certificate)

-- What a revocation does, by whether the certificate is stored.
abbrev pub IsRevoked :
    ℕ → String → String → Memory → Result Certificate → Result (Unit {0}) × Memory → Type 0
IsRevoked now id reason m (ok c) (r, m') =
    (r ≡ ok tt)
    × (certificate id m'
        ≡ ok (record c { status = cert_revoked; revoked_at = now; rev_reason = reason }))
    × ((j : String) → id ≢ j → certificate j m' ≡ certificate j m)
IsRevoked now id reason m (err _) (r, m') = (r ≡ err not_found) × (m' ≡ m)

-- RevokeCertificate marks a stored certificate revoked, with the time and the reason, keeps its other
-- fields and all other certificates, and on an unknown id answers ErrNotFound and changes nothing.
pub revoke_certificate-IsRevoked :
    (now : ℕ) (id reason : String) (m : Memory)
    → IsRevoked now id reason m (certificate id m) (revoke_certificate now id reason m)
unfolding certificate
revoke_certificate-IsRevoked now id reason m = elim (Option-cases (lookup id m.certificates)) [
  | inl missing ↦ rw (revoke_certificate_missing now id reason m missing) (rw missing (refl, refl))
  | inr (c, at_id) ↦
      let c' : Certificate = record c {
        status = cert_revoked;
        revoked_at = now;
        rev_reason = reason;
      } in
      rw (revoke_certificate_made now id reason c m at_id) (
        rw at_id (
          refl,
          ap found (lookup-insert_self id c' m.certificates),
          λ j ne. ap found (lookup-insert_ne id j c' m.certificates ne),
        ))
]
