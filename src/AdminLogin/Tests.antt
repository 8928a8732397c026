-- ===== src/AdminLogin/Tests.antt =====
-- Logins of one admin.
use aplikasi_transaksi_kanto.Base.{
  false, ◌∷◌, [], ℕ, ◌≡◌, ◌<◌, ◌≤◌, refl, true, none, some, String, arith,
}
use aplikasi_transaksi_kanto.Base.Int64.{ℤ, ltb_ℤ, pos}
use aplikasi_transaksi_kanto.Store.Types.{ok, Account, SuperSecurity, Memory, new_memory}
use aplikasi_transaksi_kanto.Store.Log.{super_security, put_super_security}
use aplikasi_transaksi_kanto.Store.Log.Laws.{super_security-put}
use aplikasi_transaksi_kanto.AdminLogin.{
  totp_inactive, Platform, empty_security, check_account, check_code, verify_totp, match_steps,
  logged_in, locked, wrong_code,
}
use aplikasi_transaksi_kanto.AdminLogin.Enrolment.{
  done, totp_begin, totp_disable, disable_record, totp_disable-needs_code, totp_begin_turns_off,
}
use aplikasi_transaksi_kanto.Store.Dict.{lookup}
use aplikasi_transaksi_kanto.Store.Accounts.{account}
use aplikasi_transaksi_kanto.AdminLogin.Laws.{
  HasSecurity, check_account-open, check_account-once, fifth_failure_locks,
}

-- Every code is "123456".
abbrev platform : Platform
platform = record {
  parse_step = λ t. none;
  open_secret = λ bytes. some "secret";
  normalise = λ code. code;
  code_length = λ code. 6;
  totp_code_at = λ secret step. some "123456";
}

abbrev admin : Account
admin = record {
  id = "a1";
  email = "admin@x";
  display_name = "";
  full_name = "";
  organization = "";
  position = "";
  nip = "";
  password_hash = "";
  role = "admin";
  status = "active";
  created_at = 0;
}

abbrev security : SuperSecurity
security = record empty_security {
  account_id = "a1";
  totp_enabled = true;
  last_step = pos 5;
  failed_count = pos 4;
}

abbrev store : Memory
store = put_super_security security new_memory

abbrev ids : ℕ → String
ids n = "id"

has_security : HasSecurity admin security store
has_security = (super_security-put security new_memory, refl)

abbrev after_code : Memory
after_code = (check_code platform ids 300 admin security "secret" "123456" store).1

code_run :
    check_account platform ids 300 admin "123456" store ≡ (logged_in "a1" "admin", after_code)
unfolding check_code verify_totp match_steps
code_run =
    check_account-open platform ids 300 admin security "secret" "123456" store has_security refl
      refl

-- A code of a step that is not later than the last one.
abbrev after_replay : Memory
after_replay = (check_code platform ids 100 admin security "secret" "123456" store).1

replay_run : check_account platform ids 100 admin "123456" store ≡ (wrong_code, after_replay)
unfolding check_code verify_totp match_steps
replay_run =
    check_account-open platform ids 100 admin security "secret" "123456" store has_security refl
      refl

check_account-once_example :
    (admin.id ≡ admin.id)
    × (admin.role ≡ admin.role)
    × (security.locked_until ≤ 300)
    × ((k : ℕ) × (secret : String) × (done : SuperSecurity) × (5 < k)
        × (platform.open_secret security.totp_secret ≡ some secret)
        × (platform.totp_code_at secret (pos k) ≡ some (platform.normalise "123456"))
        × HasSecurity admin done after_code
        × (done.last_step ≡ pos k)
        × (done.failed_count ≡ pos 0))
check_account-once_example =
    check_account-once platform ids 300 admin security 5 "123456" "a1" "admin" store after_code
      has_security refl code_run

fifth_failure_locks_example :
    check_account platform ids 999 admin "123456" after_replay ≡ (locked, after_replay)
fifth_failure_locks_example =
    fifth_failure_locks platform ids 100 admin security "123456" store after_replay ids 999 "123456"
      has_security refl replay_run (omega arith)

abbrev after_disable : Memory
after_disable = (disable_record platform "id" 300 "a1" "123456" security store).1

disable_run : totp_disable platform "id" 300 "a1" "123456" store ≡ (done, after_disable)
unfolding totp_disable disable_record verify_totp match_steps
disable_run = rw (super_security-put security new_memory, totp_disable) refl

totp_disable-needs_code_example :
    (secret : String) × (step : ℤ) × (platform.open_secret security.totp_secret ≡ some secret)
    × (ltb_ℤ security.last_step step ≡ true)
    × (platform.totp_code_at secret step ≡ some (platform.normalise "123456"))
totp_disable-needs_code_example =
    totp_disable-needs_code platform "id" 300 "a1" "123456" security store after_disable
      (super_security-put security new_memory) disable_run

-- A store with the admin's account.
abbrev with_account : Memory
with_account = record new_memory { accounts = ("a1", admin) ∷ [] }

totp_begin_turns_off_example :
    let m' = (totp_begin "a1" (some (7 ∷ [])) with_account).1 in
    ((sec : SuperSecurity) × (super_security "a1" m' ≡ ok sec) × (sec.totp_enabled ≡ false))
    × (check_account platform ids 300 admin "123456" m' ≡ (totp_inactive, m'))
unfolding account lookup
totp_begin_turns_off_example =
    totp_begin_turns_off platform "a1" admin (7 ∷ []) with_account ids 300 "123456" refl refl
