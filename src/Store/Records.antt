-- ===== src/Store/Records.antt =====
-- The device, enrollment, certificate, reservation and signature methods, and ListAccounts, of
-- ttd/server/internal/store/memory.go. `fresh` is the id that `ID` makes and `now` is
-- `time.Now().UTC()`.
mod Tests
pub mod Laws
use aplikasi_transaksi_kanto.Base.{
  ℕ, Bool, true, false, Option, none, some, String, List, [], ◌∷◌, str_eq, if◌then◌else◌,
}
use aplikasi_transaksi_kanto.Store.Dict.{Dict, lookup, insert, values}
use aplikasi_transaksi_kanto.Store.Selection.{select, sort_slice, latest, before, after}
use aplikasi_transaksi_kanto.Store.Types.{
  Account, Device, Enrollment, Certificate, Reservation, Signature, Memory, Result, ok, err,
  not_found, signature_exists, found, default_to, device_active, enrollment_submitted, cert_active,
  cert_revoked, reservation_reserved,
}

pub list_accounts : Memory → List Account
list_accounts m = sort_slice (before (λ (a : Account). a.created_at)) (values m.accounts)

pub create_device : String → ℕ → Device → Memory → Result Device × Memory
create_device fresh now d m =
    let d' : Device = record d {
      id = default_to fresh d.id;
      status = default_to device_active d.status;
      created_at = now;
    } in
    (ok d', record m { devices = insert d'.id d' m.devices })

pub device : String → Memory → Result Device
device id m = found (lookup id m.devices)

pub set_device_status : String → String → Memory → Result (Unit {0}) × Memory
set_device_status id status m = elim (lookup id m.devices) [
  | none ↦ (err not_found, m)
  | some d ↦ (ok tt, record m { devices = insert id (record d { status = status }) m.devices })
]

pub devices_by_account : String → Memory → List Device
devices_by_account account_id m =
    sort_slice (before (λ (d : Device). d.created_at))
      (select (λ d. str_eq d.account_id account_id) (values m.devices))

pub create_enrollment : String → ℕ → Enrollment → Memory → Result Enrollment × Memory
create_enrollment fresh now e m =
    let e' : Enrollment = record e {
      id = default_to fresh e.id;
      status = default_to enrollment_submitted e.status;
      created_at = now;
    } in
    (ok e', record m { enrollments = insert e'.id e' m.enrollments })

pub enrollment : String → Memory → Result Enrollment
enrollment id m = found (lookup id m.enrollments)

pub enrollment_by_device : String → Memory → Result Enrollment
enrollment_by_device device_id m = found (
    latest (λ (e : Enrollment). str_eq e.device_id device_id) (λ e. e.created_at) none
      (values m.enrollments))

pub list_enrollments : Memory → List Enrollment
list_enrollments m = sort_slice (before (λ (e : Enrollment). e.created_at)) (values m.enrollments)

pub set_enrollment_status : String → String → Memory → Result (Unit {0}) × Memory
set_enrollment_status id status m = elim (lookup id m.enrollments) [
  | none ↦ (err not_found, m)
  | some e ↦
      (ok tt, record m { enrollments = insert id (record e { status = status }) m.enrollments })
]

pub create_certificate : String → Certificate → Memory → Result Certificate × Memory
create_certificate fresh c m =
    let c' : Certificate = record c {
      id = default_to fresh c.id;
      status = default_to cert_active c.status;
    } in
    (ok c', record m { certificates = insert c'.id c' m.certificates })

pub certificate : String → Memory → Result Certificate
certificate id m = found (lookup id m.certificates)

pub certificate_by_device : String → Memory → Result Certificate
certificate_by_device device_id m = found (
    latest (λ (c : Certificate). str_eq c.device_id device_id) (λ c. c.not_before) none
      (values m.certificates))

pub certificates_by_account : String → Memory → List Certificate
certificates_by_account account_id m =
    sort_slice (before (λ (c : Certificate). c.not_before))
      (select (λ c. str_eq c.account_id account_id) (values m.certificates))

-- `for _, c := range … { if c.Serial == serial { return c, nil } }`
first_serial : String → List Certificate → Option Certificate
first_serial serial [] = none
first_serial serial (c ∷ cs) = if str_eq c.serial serial then some c else first_serial serial cs

pub certificate_by_serial : String → Memory → Result Certificate
unfolding first_serial
certificate_by_serial serial m = found (first_serial serial (values m.certificates))

pub revoke_certificate : ℕ → String → String → Memory → Result (Unit {0}) × Memory
revoke_certificate now id reason m = elim (lookup id m.certificates) [
  | none ↦ (err not_found, m)
  | some c ↦ (
    ok tt,
    record m {
      certificates =
          insert id (record c { status = cert_revoked; revoked_at = now; rev_reason = reason })
            m.certificates;
    },
  )
]

pub create_reservation : String → ℕ → Reservation → Memory → Result Reservation × Memory
create_reservation fresh now r m =
    let r' : Reservation = record r {
      public_id = default_to fresh r.public_id;
      status = default_to reservation_reserved r.status;
      created_at = now;
    } in
    (ok r', record m { reservations = insert r'.public_id r' m.reservations })

pub reservation : String → Memory → Result Reservation
reservation public_id m = found (lookup public_id m.reservations)

pub set_reservation_status : String → String → Memory → Result (Unit {0}) × Memory
set_reservation_status public_id status m = elim (lookup public_id m.reservations) [
  | none ↦ (err not_found, m)
  | some r ↦ (
    ok tt,
    record m { reservations = insert public_id (record r { status = status }) m.reservations },
  )
]

pub create_signature : ℕ → Signature → Memory → Result Signature × Memory
create_signature now s m = elim (lookup s.public_id m.signatures) [
  | some _ ↦ (err signature_exists, m)
  | none ↦
      let s' : Signature = record s { created_at = now } in
      (ok s', record m { signatures = insert s'.public_id s' m.signatures })
]

pub signature : String → Memory → Result Signature
signature public_id m = found (lookup public_id m.signatures)

pub signatures_by_account : String → Memory → List Signature
signatures_by_account account_id m =
    sort_slice (after (λ (s : Signature). s.created_at))
      (select (λ s. str_eq s.account_id account_id) (values m.signatures))
