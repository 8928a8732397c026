-- ===== src/AdminLogin/Enrolment.antt =====
-- ttd/server/internal/api/adminsecurity.go: an admin's own setting up of one-time codes, and the reset by
-- the super admin. `me` is the subject of the session's token.
use aplikasi_transaksi_kanto.Base.{
  ℕ, ◌≡◌, refl, Bool, true, false, ◌||◌, not, Option, none, some, String, List, [], ◌∷◌, str_eq,
  if◌then◌else◌, Option-cases, inl, inr, arith,
}
use aplikasi_transaksi_kanto.Base.Int64.{ℤ, ltb_ℤ}
use aplikasi_transaksi_kanto.Store.Types.{Account, SuperSecurity, Memory, ok, err, role_admin}
use aplikasi_transaksi_kanto.Store.Accounts.{account}
use aplikasi_transaksi_kanto.Store.Log.{append, super_security, put_super_security}
use aplikasi_transaksi_kanto.Store.Log.Laws.{super_security-put}
use aplikasi_transaksi_kanto.AdminLogin.{
  Platform, empty_security, or_empty, event, verify_totp, check_account, totp_inactive,
}
use aplikasi_transaksi_kanto.AdminLogin.Laws.{verify_totp-later}

pub data SetupReply : Type 0 where
  no_account seal_failed nothing_pending not_active unreadable_secret code_refused not_found_admin :
      SetupReply
  done : SetupReply

abbrev is_empty : List ℕ → Bool
is_empty [] = true
is_empty (_ ∷ _) = false

-- hAdminTOTPBegin; `sealed` is what sealing the new secret gives.
pub totp_begin : String → Option (List ℕ) → Memory → SetupReply × Memory
totp_begin me sealed m = elim (account me m) [
  | err _ ↦ (no_account, m)
  | ok _ ↦ elim sealed [
    | none ↦ (seal_failed, m)
    | some bytes ↦ (
      done,
      put_super_security
          (record (or_empty (super_security me m)) {
            account_id = me;
            totp_secret = bytes;
            totp_enabled = false;
          })
          m,
    )
  ]
]

-- hResetAdminSecurity, for the super admin `by`.
pub reset_admin_security : String → ℕ → String → String → Memory → SetupReply × Memory
reset_admin_security fresh now by id m = elim (account id m) [
  | err _ ↦ (not_found_admin, m)
  | ok a ↦
      if str_eq a.role role_admin
      then (
        done,
        append fresh now (event "admin.security-reset" a.id "ok" by)
            (put_super_security (record empty_security { account_id = a.id }) m),
      )
      else (not_found_admin, m)
]

module _ (p : Platform) where
  -- hAdminTOTPConfirm from the security record on.
  pub confirm_record : String → ℕ → String → String → SuperSecurity → Memory → SetupReply × Memory
  confirm_record fresh now me code sec m =
      if is_empty sec.totp_secret || sec.totp_enabled
      then (nothing_pending, m)
      else elim (p.open_secret sec.totp_secret) [
        | none ↦ (unreadable_secret, m)
        | some secret ↦ elim (verify_totp p secret code now sec.last_step) [
          | none ↦ (code_refused, m)
          | some step ↦ (
            done,
            append fresh now (event "admin.totp" me "enrolled" "")
                (put_super_security (record sec { totp_enabled = true; last_step = step }) m),
          )
        ]
      ]

  -- hAdminTOTPConfirm, once the body is decoded.
  pub totp_confirm : String → ℕ → String → String → Memory → SetupReply × Memory
  totp_confirm fresh now me code m = elim (super_security me m) [
    | err _ ↦ (nothing_pending, m)
    | ok sec ↦ confirm_record fresh now me code sec m
  ]

  -- hAdminTOTPDisable from the security record on.
  unfoldable pub disable_record :
      String → ℕ → String → String → SuperSecurity → Memory → SetupReply × Memory
  disable_record fresh now me code sec m =
      if not sec.totp_enabled then (not_active, m) else elim (p.open_secret sec.totp_secret) [
        | none ↦ (unreadable_secret, m)
        | some secret ↦ elim (verify_totp p secret code now sec.last_step) [
          | none ↦ (code_refused, m)
          | some _ ↦ (
            done,
            append fresh now (event "admin.totp" me "disabled" "")
                (put_super_security (record sec { totp_enabled = false; totp_secret = [] }) m),
          )
        ]
      ]

  -- hAdminTOTPDisable, once the body is decoded.
  unfoldable pub totp_disable : String → ℕ → String → String → Memory → SetupReply × Memory
  totp_disable fresh now me code m = elim (super_security me m) [
    | err _ ↦ (not_active, m)
    | ok sec ↦ disable_record fresh now me code sec m
  ]

  -- For an account with a security record, hAdminTOTPDisable ends well only for a code of a step later than
  -- the last one.
  pub totp_disable-needs_code :
      (fresh : String) (now : ℕ) (me code : String) (sec : SuperSecurity) (m next : Memory)
      → super_security me m ≡ ok sec
      → totp_disable fresh now me code m ≡ (done, next)
      → (secret : String) × (step : ℤ) × (p.open_secret sec.totp_secret ≡ some secret)
        × (ltb_ℤ sec.last_step step ≡ true)
        × (p.totp_code_at secret step ≡ some (p.normalise code))
  unfolding totp_disable disable_record
  totp_disable-needs_code fresh now me code sec m next s h =
      let h' : disable_record fresh now me code sec m ≡ (done, next) = rw (s, totp_disable) at h in
      elim (Option-cases (p.open_secret sec.totp_secret)) [
        | inl bad ↦ absurd (ground (arith, rw (bad, disable_record) at h'))
        | inr (secret, o) ↦ elim (Option-cases (verify_totp p secret code now sec.last_step)) [
          | inl wrong ↦ absurd (ground (arith, rw (o, wrong, disable_record) at h'))
          | inr (step, right) ↦
              let (later, typed) = verify_totp-later p secret code now sec.last_step step right in
              (secret, step, o, later, typed)
        ]
      ]

  -- hAdminTOTPBegin turns the codes off without one: for an account that exists, whatever its security record
  -- says, the record then has them off, and the second login step answers that they are not active.
  pub totp_begin_turns_off :
      (me : String) (a : Account) (bytes : List ℕ) (m : Memory) (fresh : ℕ → String) (now : ℕ)
      (code : String)
      → account me m ≡ ok a
      → a.id ≡ me
      → let m' = (totp_begin me (some bytes) m).1 in
        ((sec : SuperSecurity) × (super_security me m' ≡ ok sec) × (sec.totp_enabled ≡ false))
        × (check_account p fresh now a code m' ≡ (totp_inactive, m'))
  unfolding totp_begin check_account
  totp_begin_turns_off me a bytes m fresh now code found same =
      let new : SuperSecurity = record (or_empty (super_security me m)) {
        account_id = me;
        totp_secret = bytes;
        totp_enabled = false;
      } in
      let saved = super_security-put new m in
      rw (found, totp_begin) ((new, saved, refl), rw (same, saved, check_account) refl)
