-- ===== src/AdminLogin/Laws.antt =====
-- What an admin's code is good for, and what a wrong one costs.
use aplikasi_transaksi_kanto.Base.{
  ℕ, ◌+◌, ◌<◌, ◌≤◌, ltb, ◌≡◌, refl, sym, ap, subst, ◌∙◌, Bool, true, false, ◌&&◌, not, Option, none,
  some, some-injective, String, List, [], ◌∷◌, str_eq, if◌then◌else◌, arith, Bool-cases,
  Option-cases, inl, inr, ◌⊎◌, str_eq_iff, ◌==◌,
}
use aplikasi_transaksi_kanto.Base.Int64.{ℤ, pos, negsuc, ltb_ℤ, succ_int64}
use aplikasi_transaksi_kanto.Store.Types.{Account, SuperSecurity, Memory, ok}
use aplikasi_transaksi_kanto.Store.Log.{super_security}
use aplikasi_transaksi_kanto.Store.Log.Laws.{super_security-put, super_security-append}
use aplikasi_transaksi_kanto.AdminLogin.{
  Platform, first_found, window, match_steps, admin_security_fail, admin_security_success, locked,
  wrong_code, logged_in, verify_totp, check_code, check_account,
}

-- What the loop answers is what it was given, or a later step than the last one.
first_found-cases :
    (B : ℤ → Type 0) (matched : Option ℤ) (s step : ℤ)
    → first_found matched s ≡ some step
    → B s
    → (matched ≡ some step) ⊎ B step
first_found-cases B none s step h b = inr (subst B (some-injective _ _ h) b)
first_found-cases B (some old) s step h b = inl h

match_steps-later :
    (code_at : String → ℤ → Option String) (secret code : String) (last : ℤ) (steps : List ℤ)
    (matched : Option ℤ) (step : ℤ)
    → match_steps code_at secret code last steps matched ≡ some step
    → (matched ≡ some step) ⊎ ((ltb_ℤ last step ≡ true) × (code_at secret step ≡ some code))
unfolding match_steps
match_steps-later code_at secret code last [] matched step h = inl h
match_steps-later code_at secret code last (s ∷ steps) matched step h =
    elim (Option-cases (code_at secret s)) [
      | inl bad ↦ cc (rw (bad, match_steps) at h)
      | inr (want, made) ↦ elim (Bool-cases (str_eq want code && ltb_ℤ last s)) [
        | inr miss ↦
            match_steps-later code_at secret code last steps matched step
              (rw (made, miss, match_steps) at h)
        | inl hit ↦
            let same : want ≡ code = ground (arith, str_eq_iff want code, hit) in
            let later : ltb_ℤ last s ≡ true = ground (arith, hit) in
            elim (match_steps-later code_at secret code last steps _ step
              (rw (made, hit, match_steps) at h)) [
                | inr earlier ↦ inr earlier
                | inl first ↦
                    first_found-cases (λ x. (ltb_ℤ last x ≡ true) × (code_at secret x ≡ some code))
                      matched s step first (later, made ∙ ap some same)
              ]
      ]
    ]

pub verify_totp-later :
    (p : Platform) (secret code : String) (now : ℕ) (last step : ℤ)
    → verify_totp p secret code now last ≡ some step
    → (ltb_ℤ last step ≡ true) × (p.totp_code_at secret step ≡ some (p.normalise code))
unfolding verify_totp
verify_totp-later p secret code now last step h =
    elim (Bool-cases (p.code_length (p.normalise code) == 6)) [
      | inr miss ↦ cc (rw (miss, verify_totp) at h)
      | inl six ↦
          elim (match_steps-later p.totp_code_at secret (p.normalise code) last (window now) none
            step (rw (six, verify_totp) at h)) [ inl nothing ↦ cc | inr good ↦ good ]
    ]

-- The security record of an account whose second step is on.
abbrev pub HasSecurity : Account → SuperSecurity → Memory → Type 0
HasSecurity a sec m = (super_security a.id m ≡ ok sec) × (sec.totp_enabled ≡ true)

later-pos : (n : ℕ) (step : ℤ) → ltb_ℤ (pos n) step ≡ true → (k : ℕ) × (step ≡ pos k) × (n < k)
later-pos n (pos k) h = (k, refl, ground arith)
later-pos n (negsuc k) h = cc

-- The security record that a success leaves.
abbrev cleared : Account → SuperSecurity → ℤ → SuperSecurity
cleared a sec step = record sec {
  account_id = a.id;
  failed_count = pos 0;
  locked_until = 0;
  last_step = if ltb_ℤ (pos 0) step then step else sec.last_step;
}

admin_security_success-ok :
    (a : Account) (sec : SuperSecurity) (step : ℤ) (m : Memory)
    → super_security a.id (admin_security_success a.id sec step m) ≡ ok (cleared a sec step)
unfolding admin_security_success
admin_security_success-ok a sec step m = super_security-put (cleared a sec step) m

unguarded {ℓ} :
    {A : Type ℓ} (x y z : A) (enabled early : Bool)
    → enabled ≡ true
    → early ≡ false
    → (if not enabled then x else if early then y else z) ≡ z
unguarded x y z true false _ _ = refl
unguarded x y z true true _ h = cc
unguarded x y z false early h _ = cc

-- Where nothing stops it, the handler checks the code.
pub check_account-open :
    (p : Platform) (fresh : ℕ → String) (now : ℕ) (a : Account) (sec : SuperSecurity)
    (secret code : String) (m : Memory)
    → HasSecurity a sec m
    → ltb now sec.locked_until ≡ false
    → p.open_secret sec.totp_secret ≡ some secret
    → check_account p fresh now a code m ≡ check_code p fresh now a sec secret code m
unfolding check_account
check_account-open p fresh now a sec secret code m (s, on) free o =
    rw (s, o, s, check_account)
      (unguarded _ _ _ sec.totp_enabled (ltb now sec.locked_until) on free)

-- A login that succeeds was not locked, moves the account's last step forward to a later step, whose code
-- was the one typed, and clears the failures. So no code logs in twice: the next one is of a step later
-- than this.
pub check_account-once :
    (p : Platform) (fresh : ℕ → String) (now : ℕ) (a : Account) (sec : SuperSecurity) (n : ℕ)
    (code sub role : String) (m next : Memory)
    → HasSecurity a sec m
    → sec.last_step ≡ pos n
    → check_account p fresh now a code m ≡ (logged_in sub role, next)
    → (sub ≡ a.id)
      × (role ≡ a.role)
      × (sec.locked_until ≤ now)
      × ((k : ℕ) × (secret : String) × (done : SuperSecurity) × (n < k)
          × (p.open_secret sec.totp_secret ≡ some secret)
          × (p.totp_code_at secret (pos k) ≡ some (p.normalise code))
          × HasSecurity a done next
          × (done.last_step ≡ pos k)
          × (done.failed_count ≡ pos 0))
unfolding check_account check_code admin_security_success
check_account-once p fresh now a sec n code sub role m next (s, on) l h =
    elim (Bool-cases (ltb now sec.locked_until)) [
      | inl early ↦ cc (rw (s, on, early, check_account) at h)
      | inr free ↦ elim (Option-cases (p.open_secret sec.totp_secret)) [
        | inl bad ↦ cc (rw (s, on, free, bad, check_account) at h)
        | inr (secret, o) ↦
            let checked : check_code p fresh now a sec secret code m ≡ (logged_in sub role, next) =
              sym (check_account-open p fresh now a sec secret code m (s, on) free o) ∙ h in
            elim (Option-cases (verify_totp p secret code now sec.last_step)) [
              | inl wrong ↦ cc (rw (wrong, check_code) at checked)
              | inr (step, right) ↦
                  let (later, typed) =
                    verify_totp-later p secret code now sec.last_step step right in
                  let (k, is_k, above) =
                    later-pos n step (subst (λ x. ltb_ℤ x step ≡ true) l later) in
                  let made = rw (right, check_code) at checked in
                  let saved : super_security a.id next ≡ ok (cleared a sec step) =
                    ap (λ x. super_security a.id x.1) (sym made)
                    ∙ super_security-append a.id _ now _ _
                    ∙ admin_security_success-ok a sec step m in
                  (
                    cc,
                    cc,
                    ground arith,
                    (
                      k,
                      secret,
                      cleared a sec step,
                      above,
                      o,
                      subst (λ x. p.totp_code_at secret x ≡ some (p.normalise code)) is_k typed,
                      (saved, on),
                      ground (arith, is_k, above),
                      refl,
                    ),
                  )
            ]
      ]
    ]

-- The security record that a fifth failure leaves.
abbrev shut : ℕ → Account → SuperSecurity → SuperSecurity
shut now a sec = record sec { account_id = a.id; failed_count = pos 0; locked_until = now + 900 }

admin_security_fail-shut :
    (fresh : ℕ → String) (now : ℕ) (a : Account) (sec : SuperSecurity) (m : Memory)
    → sec.failed_count ≡ pos 4
    → super_security a.id (admin_security_fail fresh now a.id sec m) ≡ ok (shut now a sec)
unfolding admin_security_fail succ_int64
admin_security_fail-shut fresh now a sec m four =
    rw (four, admin_security_fail) (super_security-put (shut now a sec) _)

before : (a b : ℕ) → a < b → ltb a b ≡ true
before a b h = ground arith

-- With four failures counted, if the code typed is wrong too, the account is locked for
-- fifteen minutes, and until they are over every attempt is refused without looking at its code, and
-- changes nothing.
pub fifth_failure_locks :
    (p : Platform) (fresh : ℕ → String) (now : ℕ) (a : Account) (sec : SuperSecurity)
    (code : String) (m next : Memory) (other_ids : ℕ → String) (later : ℕ) (other : String)
    → HasSecurity a sec m
    → sec.failed_count ≡ pos 4
    → check_account p fresh now a code m ≡ (wrong_code, next)
    → later < now + 900
    → check_account p other_ids later a other next ≡ (locked, next)
unfolding check_account check_code admin_security_fail
fifth_failure_locks p fresh now a sec code m next other_ids later other (s, on) four h soon =
    elim (Bool-cases (ltb now sec.locked_until)) [
      | inl early ↦ cc (rw (s, on, early, check_account) at h)
      | inr free ↦ elim (Option-cases (p.open_secret sec.totp_secret)) [
        | inl bad ↦ cc (rw (s, on, free, bad, check_account) at h)
        | inr (secret, o) ↦
            let h' : check_code p fresh now a sec secret code m ≡ (wrong_code, next) =
              sym (check_account-open p fresh now a sec secret code m (s, on) free o) ∙ h in
            elim (Option-cases (verify_totp p secret code now sec.last_step)) [
              | inr (step, right) ↦ cc (rw (right, check_code) at h')
              | inl wrong ↦
                  let made = rw (wrong, check_code) at h' in
                  let saved : super_security a.id next ≡ ok (shut now a sec) =
                    ap (λ x. super_security a.id x.1) (sym made)
                    ∙ super_security-append a.id _ now _ _
                    ∙ admin_security_fail-shut fresh now a sec m four in
                  rw (saved, on, before later (now + 900) soon, check_account) refl
            ]
      ]
    ]
