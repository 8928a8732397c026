-- ===== src/Store/Log/Laws.antt =====
-- The audit log only grows, its tail is what AuditEvents shows, and objects and security rows are
-- read back as they were written.
use aplikasi_transaksi_kanto.Base.{
  ℕ, zero, suc, ◌-◌, ◌≡◌, ◌≢◌, ◌≤◌, refl, sym, ap, ◌∙◌, String, List, [], ◌∷◌, ◌++◌, length,
  length-append, drop, arith,
}
use aplikasi_transaksi_kanto.Base.Int64.{ℤ, pos, negsuc}
use aplikasi_transaksi_kanto.Store.Dict.{lookup-insert_self, lookup-insert_ne}
use aplikasi_transaksi_kanto.Store.Types.{AuditEvent, SuperSecurity, Memory, ok, found}
use aplikasi_transaksi_kanto.Store.Log.{
  put_object, get_object, open_object, append, clamp_limit, audit_events, super_security,
  put_super_security,
}

drop-suffix :
    {A : Type 0} (n : ℕ) (xs : List A)
    → n ≤ length xs
    → (front : List A) × (front ++ drop n xs ≡ xs) × (length (drop n xs) ≡ length xs - n)
drop-suffix zero xs h = ([], refl, omega arith)
drop-suffix (suc n) [] h = absurd (omega arith)
drop-suffix (suc n) (x ∷ xs) h =
    let (front, e, l) = drop-suffix n xs (omega arith) in
    (x ∷ front, ap (λ r. x ∷ r) e, omega arith)

clamp_limit-le : (limit : ℤ) (len : ℕ) → clamp_limit limit len ≤ len
clamp_limit-le (negsuc n) len = omega arith
clamp_limit-le (pos n) len = ground arith

-- AuditEvents shows the last `limit` events in the order in which they were appended, and all of
-- them if `limit` is not positive or exceeds their number.
pub audit_events-suffix :
    (limit : ℤ) (m : Memory)
    → (front : List AuditEvent) × (front ++ audit_events limit m ≡ m.audit)
      × (length (audit_events limit m) ≡ clamp_limit limit (length m.audit))
unfolding audit_events
audit_events-suffix limit m =
    let len = length m.audit in
    let le = clamp_limit-le limit len in
    let (front, e, l) = drop-suffix (len - clamp_limit limit len) m.audit (omega arith) in
    (front, e, omega arith)

drop-length : {A : Type 0} (xs ys : List A) → drop (length xs) (xs ++ ys) ≡ ys
drop-length [] ys = refl
drop-length (x ∷ xs) ys = drop-length xs ys

drop_none : {A : Type 0} (n : ℕ) (xs : List A) → drop (n - n) xs ≡ xs
drop_none n xs = let e : n - n ≡ 0 = omega arith in ap (λ k. drop k xs) e

-- After Append the newest event is the one appended, with its new id and time, and no earlier event
-- has changed or gone.
pub append-audit_events :
    (fresh : String) (now : ℕ) (ev : AuditEvent) (m : Memory)
    → let m' = append fresh now ev m in
      let stored : AuditEvent = record ev { id = fresh; time = now } in
      (audit_events (pos 1) m' ≡ stored ∷ [])
      × (audit_events (pos 0) m' ≡ audit_events (pos 0) m ++ stored ∷ [])
unfolding append audit_events
append-audit_events fresh now ev m =
    let stored : AuditEvent = record ev { id = fresh; time = now } in
    let grown = length-append m.audit (stored ∷ []) in
    let at_end : length (m.audit ++ stored ∷ [])
          - clamp_limit (pos 1) (length (m.audit ++ stored ∷ []))
        ≡ length m.audit =
      ground (arith, grown) in
    (
      rw at_end (drop-length m.audit (stored ∷ [])),
      drop_none (length (m.audit ++ stored ∷ [])) (m.audit ++ stored ∷ [])
          ∙ ap (λ xs. xs ++ stored ∷ []) (sym (drop_none (length m.audit) m.audit)),
    )

-- What PutObject stored is what GetObject and OpenObject give back, with its length, until the same
-- key is written again; other keys are not touched.
pub put_object-read :
    (key : String) (bytes : List ℕ) (m : Memory)
    → let m' = put_object key bytes m in
      (get_object key m' ≡ ok bytes)
      × (open_object key m' ≡ ok (bytes, length bytes))
      × ((other : String) → key ≢ other → get_object other m' ≡ get_object other m)
unfolding put_object get_object open_object
put_object-read key bytes m = (
  ap found (lookup-insert_self key bytes m.objects),
  rw (lookup-insert_self key bytes m.objects),
  λ other ne. ap found (lookup-insert_ne key other bytes m.objects ne),
)

-- What is put is read.
pub super_security-put :
    (s : SuperSecurity) (m : Memory) → super_security s.account_id (put_super_security s m) ≡ ok s
unfolding super_security put_super_security
super_security-put s m = ap found (lookup-insert_self s.account_id s m.super)

pub super_security-append :
    (id fresh : String) (now : ℕ) (ev : AuditEvent) (m : Memory)
    → super_security id (append fresh now ev m) ≡ super_security id m
unfolding super_security append
super_security-append id fresh now ev m = refl
