-- ===== src/AdminLogin.antt =====
-- ttd/server/internal/api/adminsecurity.go: the second step of an admin's login, on the in-memory
-- store, with VerifyTOTP of ttd/server/internal/auth/totp.go. Times are in seconds.
mod Tests
pub mod Laws
pub mod Enrolment
use aplikasi_transaksi_kanto.Base.{
  ℕ, zero, suc, ◌+◌, ◌/◌, ◌==◌, ltb, Bool, true, false, ◌&&◌, not, Option, none, some, String, List,
  [], ◌∷◌, str_eq, if◌then◌else◌,
}
use aplikasi_transaksi_kanto.Base.Int64.{ℤ, pos, negsuc, ltb_ℤ, succ_int64}
use aplikasi_transaksi_kanto.Store.Types.{
  Account, AuditEvent, SuperSecurity, Memory, Result, ok, err, role_admin, account_active,
}
use aplikasi_transaksi_kanto.Store.Accounts.{account}
use aplikasi_transaksi_kanto.Store.Log.{append, super_security, put_super_security}

abbrev pub sa_max_failures : ℤ
sa_max_failures = pos 5

abbrev pub sa_lock_for : ℕ
sa_lock_for = 900

abbrev pub totp_period : ℕ
totp_period = 30

-- The libraries that the login stands on: the step token's claims (subject and role), the sealed
-- secret, the code with its spaces taken out and its length in bytes, and the HMAC code of a step.
pub record Platform : Type 0 where
  pub parse_step : String → Option (String × String)
  pub open_secret : List ℕ → Option String
  pub normalise : String → String
  pub code_length : String → ℕ
  pub totp_code_at : String → ℤ → Option String

-- The step containing a time.
abbrev pub totp_step : ℕ → ℕ
totp_step now = now / totp_period

abbrev pub previous_step : ℕ → ℤ
previous_step zero = negsuc 0
previous_step (suc n) = pos n

-- The steps that a code may be of.
abbrev pub window : ℕ → List ℤ
window now = let cur = totp_step now in previous_step cur ∷ pos cur ∷ pos (suc cur) ∷ []

abbrev first_found : Option ℤ → ℤ → Option ℤ
first_found none step = some step
first_found (some matched) step = some matched

-- The loop of VerifyTOTP, with what has matched so far; no answer if a code cannot be made.
pub match_steps : (String → ℤ → Option String) → String → String → ℤ → List ℤ → Option ℤ → Option ℤ
match_steps code_at secret code last_step [] matched = matched
match_steps code_at secret code last_step (step ∷ steps) matched = elim (code_at secret step) [
  | none ↦ none
  | some want ↦
      match_steps code_at secret code last_step steps
        (if str_eq want code && ltb_ℤ last_step step then first_found matched step else matched)
]

-- The empty record, which SuperSecurity gives with an error that the handler ignores.
abbrev pub empty_security : SuperSecurity
empty_security = record {
  account_id = "";
  totp_secret = [];
  totp_enabled = false;
  must_change = false;
  last_step = pos 0;
  failed_count = pos 0;
  locked_until = 0;
}

abbrev or_empty : Result SuperSecurity → SuperSecurity
or_empty (ok sec) = sec
or_empty (err _) = empty_security

-- An audit event before Append gives it an id and a time.
abbrev event : String → String → String → String → AuditEvent
event type account_id result detail = record {
  id = "";
  time = 0;
  type = type;
  account_id = account_id;
  device_id = "";
  result = result;
  detail = detail;
}

-- adminSecurityFail
pub admin_security_fail : (ℕ → String) → ℕ → String → SuperSecurity → Memory → Memory
admin_security_fail fresh now account_id sec m =
    let count = succ_int64 sec.failed_count in
    if ltb_ℤ count sa_max_failures
    then put_super_security (record sec { account_id = account_id; failed_count = count }) m
    else put_super_security
        (record sec {
          account_id = account_id;
          failed_count = pos 0;
          locked_until = now + sa_lock_for;
        })
        (append (fresh 0) now (event "admin.lock" account_id "locked" "") m)

-- adminSecuritySuccess
pub admin_security_success : String → SuperSecurity → ℤ → Memory → Memory
admin_security_success account_id sec step m =
    put_super_security
      (record sec {
        account_id = account_id;
        failed_count = pos 0;
        locked_until = 0;
        last_step = if ltb_ℤ (pos 0) step then step else sec.last_step;
      })
      m

pub data LoginReply : Type 0 where
  bad_session totp_inactive locked unreadable wrong_code : LoginReply
  -- The access token's subject and role.
  logged_in : String → String → LoginReply

module _ (p : Platform) where
  -- VerifyTOTP
  pub verify_totp : String → String → ℕ → ℤ → Option ℤ
  verify_totp secret code now last_step =
      let typed = p.normalise code in
      if p.code_length typed == 6
      then match_steps p.totp_code_at secret typed last_step (window now) none
      else none

  -- hLoginTOTP from the unsealed secret on.
  pub check_code :
      (ℕ → String) → ℕ → Account → SuperSecurity → String → String → Memory → LoginReply × Memory
  check_code fresh now a sec secret code m = elim (verify_totp secret code now sec.last_step) [
    | none ↦ (
      wrong_code,
      append (fresh 1) now (event "auth.login" a.id "fail" "totp")
          (admin_security_fail fresh now a.id sec m),
    )
    | some step ↦ (
      logged_in a.id a.role,
      append (fresh 1) now (event "auth.login" a.id "ok" "")
          (admin_security_success a.id sec step m),
    )
  ]

  -- hLoginTOTP from the account on.
  pub check_account : (ℕ → String) → ℕ → Account → String → Memory → LoginReply × Memory
  check_account fresh now a code m =
      let sec = or_empty (super_security a.id m) in
      if not sec.totp_enabled
      then (totp_inactive, m)
      else if ltb now sec.locked_until
      then (locked, m)
      else elim (p.open_secret sec.totp_secret) [
        | none ↦ (unreadable, m)
        | some secret ↦ check_code fresh now a sec secret code m
      ]

  -- hLoginTOTP, once the body is decoded.
  pub login_totp : (ℕ → String) → ℕ → String → String → Memory → LoginReply × Memory
  login_totp fresh now step_token code m = elim (p.parse_step step_token) [
    | none ↦ (bad_session, m)
    | some (sub, role) ↦
        if str_eq role "admin-totp"
        then elim (account sub m) [
          | err _ ↦ (bad_session, m)
          | ok a ↦
              if str_eq a.role role_admin && str_eq a.status account_active
              then check_account fresh now a code m
              else (bad_session, m)
        ]
        else (bad_session, m)
  ]
