-- ===== src/Store/Types.antt =====
-- The records of ttd/server/internal/store/store.go and the state of memory.go. A `time.Time` is a
-- number of nanoseconds, the zero time 0; bytes are numbers.
use aplikasi_transaksi_kanto.Base.{
  ℕ, Bool, String, List, [], Option, none, some, if◌then◌else◌, str_eq,
}
use aplikasi_transaksi_kanto.Base.Int64.{ℤ}
use aplikasi_transaksi_kanto.Store.Dict.{Dict}

abbrev pub role_user : String
role_user = "user"

abbrev pub role_admin : String
role_admin = "admin"

abbrev pub role_super_admin : String
role_super_admin = "superadmin"

abbrev pub account_active : String
account_active = "active"

abbrev pub device_active : String
device_active = "active"

abbrev pub enrollment_submitted : String
enrollment_submitted = "submitted"

abbrev pub cert_active : String
cert_active = "active"

abbrev pub cert_revoked : String
cert_revoked = "revoked"

abbrev pub reservation_reserved : String
reservation_reserved = "reserved"

pub record Account : Type 0 where
  pub id : String
  pub email : String
  pub display_name : String
  pub full_name : String
  pub organization : String
  pub position : String
  pub nip : String
  pub password_hash : String
  pub role : String
  pub status : String
  pub created_at : ℕ

pub record Device : Type 0 where
  pub id : String
  pub account_id : String
  pub label : String
  pub platform : String
  pub status : String
  pub created_at : ℕ

pub record Enrollment : Type 0 where
  pub id : String
  pub device_id : String
  pub account_id : String
  pub csr_pem : List ℕ
  pub csr_key_fp : String
  pub status : String
  pub created_at : ℕ

pub record Certificate : Type 0 where
  pub id : String
  pub enrollment_id : String
  pub device_id : String
  pub account_id : String
  pub serial : String
  pub fingerprint : String
  pub pem : List ℕ
  pub not_before : ℕ
  pub not_after : ℕ
  pub status : String
  pub revoked_at : ℕ
  pub rev_reason : String

pub record Reservation : Type 0 where
  pub public_id : String
  pub account_id : String
  pub device_id : String
  pub original_sha512 : String
  pub file_name : String
  pub status : String
  pub created_at : ℕ
  pub expires_at : ℕ

pub record Signature : Type 0 where
  pub public_id : String
  pub account_id : String
  pub device_id : String
  pub certificate_id : String
  pub cert_serial : String
  pub cert_fingerprint : String
  pub algorithm : String
  pub pdf_profile : String
  pub original_sha512 : String
  pub signed_sha512 : String
  pub client_claimed_signing_time : String
  pub server_received_at : ℕ
  pub storage_object_key : String
  pub signed_size : ℤ
  pub verification_status : String
  pub created_at : ℕ

pub record AuditEvent : Type 0 where
  pub id : String
  pub time : ℕ
  pub type : String
  pub account_id : String
  pub device_id : String
  pub result : String
  pub detail : String

pub record SuperSecurity : Type 0 where
  pub account_id : String
  pub totp_secret : List ℕ
  pub totp_enabled : Bool
  pub must_change : Bool
  pub last_step : ℤ
  pub failed_count : ℤ
  pub locked_until : ℕ

pub record Memory : Type 0 where
  pub accounts : Dict Account
  pub by_email : Dict String
  pub devices : Dict Device
  pub enrollments : Dict Enrollment
  pub certificates : Dict Certificate
  pub reservations : Dict Reservation
  pub signatures : Dict Signature
  pub audit : List AuditEvent
  pub objects : Dict (List ℕ)
  pub super : Dict SuperSecurity

abbrev pub new_memory : Memory
new_memory = record {
  accounts = [];
  by_email = [];
  devices = [];
  enrollments = [];
  certificates = [];
  reservations = [];
  signatures = [];
  audit = [];
  objects = [];
  super = [];
}

-- The errors of memory.go: ErrNotFound and the two that name a clash.
pub data StoreError : Type 0 where
  not_found email_taken signature_exists : StoreError

pub data Result (A : Type 0) : Type 0 where
  ok : A → Result A
  err : StoreError → Result A

-- A lookup in a map, with ErrNotFound.
abbrev pub found : {A : Type 0} → Option A → Result A
found none = err not_found
found (some a) = ok a

-- `if s == "" { s = fallback }`
abbrev pub default_to : String → String → String
default_to fallback s = if str_eq s "" then fallback else s
