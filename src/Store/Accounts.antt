-- ===== src/Store/Accounts.antt =====
-- The account methods of ttd/server/internal/store/memory.go.
mod Tests
pub mod Index
use aplikasi_transaksi_kanto.Base.{
  ℕ, Bool, true, false, Option, none, some, String, List, [], ◌∷◌, str_eq, if◌then◌else◌,
}
use aplikasi_transaksi_kanto.Store.Dict.{Dict, lookup, insert, erase, values}
use aplikasi_transaksi_kanto.Store.Types.{
  Account, Memory, Result, ok, err, not_found, email_taken, found, default_to, role_user,
  account_active,
}

-- What is stored of the account: `fresh` is `ID("acct")` and `now` is `time.Now().UTC()`.
abbrev pub completed : String → ℕ → Account → Account
completed fresh now a = record a {
  id = default_to fresh a.id;
  role = default_to role_user a.role;
  status = default_to account_active a.status;
  created_at = now;
}

pub create_account : String → ℕ → Account → Memory → Result Account × Memory
create_account fresh now a m = elim (lookup a.email m.by_email) [
  | some _ ↦ (err email_taken, m)
  | none ↦
      let b = completed fresh now a in
      (
        ok b,
        record m { accounts = insert b.id b m.accounts; by_email = insert b.email b.id m.by_email },
      )
]

-- The shape that the setters share: `a, ok := m.accounts[id]`, a change, and the write back.
abbrev pub change_account :
    String → (Account → Account) → Memory → Option Account → Result (Unit {0}) × Memory
change_account id f m none = (err not_found, m)
change_account id f m (some a) = (ok tt, record m { accounts = insert id (f a) m.accounts })

pub set_account_status : String → String → Memory → Result (Unit {0}) × Memory
set_account_status id status m =
    change_account id (λ a. record a { status = status }) m (lookup id m.accounts)

pub update_account_profile : String → String → String → Memory → Result (Unit {0}) × Memory
update_account_profile id full_name org m =
    change_account id (λ a. record a { full_name = full_name; organization = org }) m
      (lookup id m.accounts)

pub set_account_password : String → String → Memory → Result (Unit {0}) × Memory
set_account_password id password_hash m =
    change_account id (λ a. record a { password_hash = password_hash }) m (lookup id m.accounts)

pub delete_account : String → Memory → Result (Unit {0}) × Memory
delete_account id m = elim (lookup id m.accounts) [
  | none ↦ (err not_found, m)
  | some a ↦
      (ok tt, record m { accounts = erase id m.accounts; by_email = erase a.email m.by_email })
]

-- `m.accounts[id]` with no test: the zero account if there is none.
abbrev pub zero_account : Account
zero_account = record {
  id = "";
  email = "";
  display_name = "";
  full_name = "";
  organization = "";
  position = "";
  nip = "";
  password_hash = "";
  role = "";
  status = "";
  created_at = 0;
}

abbrev pub or_zero : Option Account → Account
or_zero none = zero_account
or_zero (some a) = a

pub account_by_email : String → Memory → Result Account
account_by_email email m = elim (lookup email m.by_email) [
  | none ↦ err not_found
  | some id ↦ ok (or_zero (lookup id m.accounts))
]

unfoldable pub account : String → Memory → Result Account
account id m = found (lookup id m.accounts)
